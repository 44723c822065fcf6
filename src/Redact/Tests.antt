-- ===== src/Redact/Tests.antt =====
-- Queries that `Mask` reads, and the source that applies it.
use pglockr.Prelude.{
  ℕ, ◌≡◌, refl, List, [], ◌∷◌, ◌++◌, none, codes, ok, err, lookup, nat_eq, Distinct, arith,
}
use mathlib.Core.Option
use pglockr.Graph.{Session, Sessions, keys}
use pglockr.Graph.Builder.Tests.{chain, row_lock}
use pglockr.Redact.{
  mask, mask_loop, step, skip_line, skip_block, skip_string, span_word, starts_with, index, advance,
  copy_digits, copy_ident, number_goes, skip_number, dollar_body, dollar_case,
}
use pglockr.Redact.Step.{mask_loop_enough}
use pglockr.Redact.Tokens.{Token, plain, str, num, ident, render, redacted, IsText}
use pglockr.Redact.Tokens.Mask.{mask-render}
use pglockr.Redact.Leaks.{mask_leaks_after_dollar, mask_leaks_after_backslash}
use pglockr.Redact.Source.{snapshot, snapshot_lem}

mask-update :
    mask (codes "UPDATE accounts SET email = 'bob@x.io' WHERE id = 42")
    ≡ codes "UPDATE accounts SET email = ? WHERE id = ?"
unfolding mask mask_loop step skip_line skip_block skip_string span_word starts_with index advance
    copy_digits copy_ident number_goes skip_number dollar_body dollar_case
mask-update = refl

mask-mixed :
    mask (codes "a1 $1 \"q'x\" 1e-5+3 /* x */ $f$ a $f$ -- c\nE'a\\'b'")
    ≡ codes "a1 $1 \"q'x\" ?+? /*?*/ ? --?\nE?b?"
unfolding mask mask_loop step skip_line skip_block skip_string span_word starts_with index advance
    copy_digits copy_ident number_goes skip_number dollar_body dollar_case
mask-mixed = refl

-- `x='it''s' 42"a"`
abbrev tokens : List Token
tokens =
    plain b'x'
    ∷ plain b'='
    ∷ str (codes "it's")
    ∷ plain b' '
    ∷ num b'4' (codes "2")
    ∷ ident (codes "a")
    ∷ []

tokens-IsText : IsText none tokens
unfolding number_goes
tokens-IsText = (
  (refl, refl, refl, refl, (λ e. refl), λ e. refl),
  (
    (refl, refl, refl, refl, (λ e. refl), λ e. refl),
    (
      refl,
      (
        (refl, refl, refl, refl, (λ e. refl), λ e. refl),
        ((refl, refl, (refl, tt), refl), ((refl, tt), tt)),
      ),
    ),
  ),
)

mask-render_example : mask (render tokens) ≡ redacted tokens
mask-render_example = mask-render tokens tokens-IsText

mask_loop_enough_example : mask_loop 3 none (codes "'a'") ≡ mask_loop 9 none (codes "'a'")
mask_loop_enough_example = mask_loop_enough 3 9 none (codes "'a'") (omega arith) (omega arith)

mask_leaks_after_dollar_example :
    mask (codes "$$" ++ 233 ∷ codes "$$'" ++ codes "secret" ++ codes "'")
    ≡ codes "?" ++ codes "secret" ++ codes "?"
mask_leaks_after_dollar_example =
    mask_leaks_after_dollar 233 (codes "secret") (omega arith) (omega arith)
      (refl, (refl, (refl, (refl, (refl, (refl, tt))))))

mask_leaks_after_backslash_example :
    mask (codes "E'\\'" ++ (b'a' ∷ codes "bc") ++ codes "'")
    ≡ codes "E?" ++ (b'a' ∷ codes "bc") ++ codes "?"
mask_leaks_after_backslash_example =
    mask_leaks_after_backslash b'a' (codes "bc") refl (refl, (refl, tt))

chain-keys : Distinct (keys chain)
unfolding keys
chain-keys = (refl, (refl, (refl, tt)))

snapshot_lem_example :
    ((out : Sessions) × (snapshot (ok (chain, row_lock)) ≡ ok (out, row_lock))
      × ((p : ℕ)
          → lookup p out
            ≡ Option.map (λ (s : Session). record s { query = mask s.query }) (lookup p chain)))
    × (snapshot (err (codes "timeout")) ≡ err (codes "timeout"))
snapshot_lem_example = snapshot_lem chain row_lock (codes "timeout") chain-keys
