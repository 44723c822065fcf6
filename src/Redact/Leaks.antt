-- ===== src/Redact/Leaks.antt =====
-- Two shapes of text of which the lexer shows a part of a literal.
use pglockr.Prelude.{
  ℕ, suc, ◌≤◌, ◌<◌, ◌≡◌, refl, ap, ◌∙◌, Bool, true, false, [], ◌∷◌, ◌++◌, Option, none, some, Text,
  length, arith, All, codes, leb, ◌&&◌, nat_beq, if◌then◌else◌,
}
use pglockr.Redact.{
  Cursor, cur, step, mask_loop, mask, span_word, index, starts_with, advance, dollar_case,
  dollar_body, skip_string,
}
use pglockr.Redact.Step.{mask_loop_enough}
use pglockr.Redact.Tokens.{end_of}

abbrev pub is_lower : ℕ → Bool
is_lower c = leb b'a' c && leb c b'z'

step_lower :
    (p : Option ℕ) (c : ℕ) (r : Text) → is_lower c ≡ true → step p c r ≡ (c ∷ [], cur (some c) r)
unfolding step
step_lower p c r h = ground arith

mask_loop_lower :
    (p : Option ℕ) (s r : Text)
    → All (λ c. is_lower c ≡ true) s
    → mask_loop (length (s ++ r)) p (s ++ r) ≡ s ++ mask_loop (length r) (end_of p s) r
unfolding mask_loop
mask_loop_lower p [] r a = refl
mask_loop_lower p (c ∷ s) r (h, a) =
    ap (λ x. x.0 ++ mask_loop (length (s ++ r)) x.1.prev x.1.rest) (step_lower p c (s ++ r) h)
    ∙ ap (◌∷◌ c) (mask_loop_lower (some c) s r a)

-- A quote that nothing follows.
mask_quote : (p : Option ℕ) → mask_loop 1 p (b'\'' ∷ []) ≡ codes "?"
unfolding mask_loop step skip_string
mask_quote p = refl

-- A word of letters with a last quote behind it, on any fuel that is enough.
mask_loop_secret :
    (f : ℕ) (p : Option ℕ) (s : Text)
    → All (λ c. is_lower c ≡ true) s
    → length (s ++ codes "'") ≤ f
    → mask_loop f p (s ++ codes "'") ≡ s ++ codes "?"
mask_loop_secret f p s a l =
    mask_loop_enough f (length (s ++ codes "'")) p (s ++ codes "'") l (omega arith)
    ∙ mask_loop_lower p s (codes "'") a
    ∙ ap (λ t. s ++ t) (mask_quote (end_of p s))

index_two_bytes :
    (c : ℕ) (r : Text) → 0x80 ≤ c → c < 0x800 → index (codes "$$") (c ∷ b'$' ∷ b'$' ∷ r) ≡ some 2
unfolding index starts_with
index_two_bytes c r h k = ground arith

step_dollar_two_bytes :
    (c : ℕ) (r : Text)
    → 0x80 ≤ c
    → c < 0x800
    → step none b'$' (b'$' ∷ c ∷ b'$' ∷ b'$' ∷ b'\'' ∷ r) ≡ (codes "?", cur (some b'\'') r)
unfolding step span_word dollar_case dollar_body advance
step_dollar_two_bytes c r h k = rw (index_two_bytes c (b'\'' ∷ r) h k)

-- Behind a dollar quote whose body is one rune of two bytes, the lexer skips the quote that opens a
-- string literal, and shows the literal's content, here any word of lower-case letters.
pub mask_leaks_after_dollar :
    (c : ℕ) (secret : Text)
    → 0x80 ≤ c
    → c < 0x800
    → All (λ d. is_lower d ≡ true) secret
    → mask (codes "$$" ++ c ∷ codes "$$'" ++ secret ++ codes "'") ≡ codes "?" ++ secret ++ codes "?"
unfolding mask mask_loop
mask_leaks_after_dollar c secret h k a =
    ap
      (λ x.
        x.0 ++ mask_loop (suc (length (c ∷ codes "$$'" ++ secret ++ codes "'"))) x.1.prev x.1.rest)
      (step_dollar_two_bytes c (secret ++ codes "'") h k)
    ∙ ap (◌∷◌ b'?') (
        mask_loop_secret (suc (length (c ∷ codes "$$'" ++ secret ++ codes "'"))) (some b'\'') secret
          a (omega arith))

-- A backslash does not escape a quote for the lexer: of an escape string `E'\'…'`, it shows what
-- stands behind the escaped quote, here any word of lower-case letters.
pub mask_leaks_after_backslash :
    (d : ℕ) (secret : Text)
    → is_lower d ≡ true
    → All (λ d. is_lower d ≡ true) secret
    → mask (codes "E'\\'" ++ (d ∷ secret) ++ codes "'") ≡ codes "E?" ++ (d ∷ secret) ++ codes "?"
unfolding mask mask_loop step skip_string
mask_leaks_after_backslash d secret h a =
    let fuel : ℕ = suc (suc (suc (length (secret ++ codes "'")))) in
    let escaped : Cursor = skip_string (some d) (secret ++ codes "'") in
    let ended : Cursor = cur (some b'\'') (d ∷ secret ++ codes "'") in
    let letter : nat_beq d b'\'' ≡ false = ground arith in
    ap
      (λ b.
        codes "E?"
        ++ mask_loop fuel (if b then escaped else ended).prev (if b then escaped else ended).rest)
      letter
    ∙ ap (λ t. codes "E?" ++ t)
        (mask_loop_secret fuel (some b'\'') (d ∷ secret) (h, a) (omega arith))
