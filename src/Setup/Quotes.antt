-- ===== src/Setup/Quotes.antt =====
-- What a SQL lexer reads where quoted text stands, and what the redaction makes of it.
use pglockr.Prelude.{
  ℕ, ◌≡◌, ◌≢◌, refl, sym, ◌∙◌, ap, true, false, [], ◌∷◌, ◌++◌, append_assoc, append-nil, Option,
  none, some, arith, if◌then◌else◌, nat_beq, nat_beq_iff, Text, codes,
}
use mathlib.Core.List.{head?}
use pglockr.Redact.{mask}
use pglockr.Redact.Tokens.{str, double}
use pglockr.Redact.Tokens.Mask.{mask-render}
use pglockr.Setup.{
  double_quotes, quote_ident, quote_literal, script, preamble, remediation, grant_monitor,
  grant_signal, read_only_note,
}

abbrev put_front : ℕ → Option (Text × Text) → Option (Text × Text)
put_front c none = none
put_front c (some (w, s)) = some (c ∷ w, s)

-- How SQL reads a quoted text from behind its first quote: a doubled quote stands for one, a single
-- one ends the text. The result is the text and what follows it.
pub read_quoted : ℕ → Text → Option (Text × Text)
read_quoted q [] = none
read_quoted q (c ∷ []) = if nat_beq c q then some ([], []) else none
read_quoted q (c ∷ d ∷ s) =
    let pair = put_front q (read_quoted q s) in
    let next = put_front c (read_quoted q (d ∷ s)) in
    if nat_beq c q then (if nat_beq d q then pair else some ([], d ∷ s)) else next

-- What stands behind the first quote.
abbrev pub behind_open : Text → Text
behind_open [] = []
behind_open (c ∷ s) = s

read_quoted-plain :
    (q c : ℕ) (s : Text)
    → nat_beq c q ≡ false
    → read_quoted q (c ∷ s) ≡ put_front c (read_quoted q s)
unfolding read_quoted
read_quoted-plain q c [] h = ground (arith, h)
read_quoted-plain q c (d ∷ s) h = ground (arith, h)

-- SQL reads a text whose quotes are doubled back as the text itself, whatever quotes it has, and
-- goes on right behind the closing quote, if no further quote follows there.
pub read_quoted-double_quotes :
    (q : ℕ) (s rest : Text)
    → head? rest ≢ some q
    → read_quoted q (double_quotes q s ++ q ∷ rest) ≡ some (s, rest)
unfolding read_quoted double_quotes
read_quoted-double_quotes q [] [] h = ground (arith, nat_beq_iff q q)
read_quoted-double_quotes q [] (d ∷ rest) h = ground (arith, nat_beq_iff q q, nat_beq_iff d q, last)
  where
    last : d ≡ q → ⊥
    last e = h (ap some e)
read_quoted-double_quotes q (c ∷ s) rest h = ground (
  arith,
  nat_beq_iff q q,
  read_quoted-plain q c (double_quotes q s ++ q ∷ rest),
  read_quoted-double_quotes q s rest h,
  nat_beq_iff c q,
)

-- SQL reads an identifier and a literal that the script quotes back as the text that was given,
-- and goes on right behind the closing quote, if no such quote follows there; so no role and no
-- password ends its own quotes.
pub read-quoted_lem :
    (s rest : Text)
    → (head? rest ≢ some b'\''
        → read_quoted b'\'' (behind_open (quote_literal s ++ rest)) ≡ some (s, rest))
      × (head? rest ≢ some b'"'
          → read_quoted b'"' (behind_open (quote_ident s ++ rest)) ≡ some (s, rest))
unfolding quote_literal quote_ident
read-quoted_lem s rest = (of_quote b'\'', of_quote b'"')
  where
    of_quote :
        (q : ℕ)
        → head? rest ≢ some q
        → read_quoted q ((double_quotes q s ++ q ∷ []) ++ rest) ≡ some (s, rest)
    of_quote q h =
        ap (read_quoted q) (append_assoc (double_quotes q s) (q ∷ []) rest)
        ∙ read_quoted-double_quotes q s rest h

double-quotes : (q : ℕ) (s : Text) → double q s ≡ double_quotes q s
unfolding double_quotes
double-quotes q [] = refl
double-quotes q (c ∷ s) = ground (arith, nat_beq_iff c q, double-quotes q s)

-- The redaction shows nothing of a literal that the script quotes, a password for instance.
pub mask-quote_literal : (s : Text) → mask (quote_literal s) ≡ codes "?"
unfolding quote_literal
mask-quote_literal s =
    ap (λ w. mask (b'\'' ∷ w))
      (ap (λ d. d ++ b'\'' ∷ []) (sym (double-quotes b'\'' s)) ∙ sym (append-nil _))
    ∙ mask-render (str s ∷ []) (tt, tt)

two_lines : (p a b nl : Text) → (p ++ (a ++ nl)) ++ (b ++ nl) ≡ (p ++ ((a ++ nl) ++ b)) ++ nl
two_lines p a b nl =
    append_assoc p (a ++ nl) (b ++ nl)
    ∙ ap (◌++◌ p) (sym (append_assoc (a ++ nl) b nl))
    ∙ sym (append_assoc p ((a ++ nl) ++ b) nl)

-- The statements that the preflight asks for are the ones of the script: with signals, the script
-- ends with both of them, each on a line of its own; without, it grants only the first.
pub remediation-script :
    (role password : Text)
    → (script (record { role = role; password = password; signal = true })
        ≡ preamble (quote_ident role) password ++ remediation role true true ++ codes "\n")
      × (script (record { role = role; password = password; signal = false })
          ≡ preamble (quote_ident role) password
            ++ remediation role true false
            ++ codes "\n"
            ++ read_only_note)
unfolding script remediation
remediation-script role password =
    let p : Text = preamble (quote_ident role) password in
    let grants : Text = grant_monitor (quote_ident role) in
    (
      two_lines p grants (grant_signal (quote_ident role)) (codes "\n"),
      ap (λ t. t ++ read_only_note) (sym (append_assoc p grants (codes "\n"))),
    )
