-- ===== src/Redact/Step.antt =====
-- Every round of the lexer takes a rune, so the number of runes is enough fuel.
use pglockr.Prelude.{
  ℕ, zero, suc, ◌≤◌, ◌≡◌, refl, ap, true, ◌&&◌, not, [], ◌∷◌, ◌++◌, Option, some, Text, length,
  arith,
}
use pglockr.Redact.{step, mask_loop, is_digit, prev_is_word, span_word, behind_open, number_goes}
use pglockr.Redact.Scan.{
  skip_line-cons-le, skip_block-le, skip_string-le, span_word-le, copy_ident-le,
  skip_number-cons-le, dollar_case-le,
}

number_goes_digit :
    (p : Option ℕ) (c : ℕ) → is_digit c && not (prev_is_word p) ≡ true → number_goes p c ≡ true
unfolding number_goes
number_goes_digit p c e = ground arith

behind_open-le : (c : ℕ) (r : Text) → length (behind_open c r) ≤ length r
behind_open-le c [] = omega arith
behind_open-le c (d ∷ r) = omega arith

-- A round leaves fewer runes than it found.
pub step-le : (p : Option ℕ) (c : ℕ) (r : Text) → length (step p c r).1.rest ≤ length r
unfolding step
step-le p c r = ground (
  arith,
  skip_line-cons-le p c r,
  skip_block-le (some b'*') (behind_open c r),
  behind_open-le c r,
  skip_string-le (some c) r,
  dollar_case-le r (span_word r).0 (span_word r).1 (span_word-le r),
  copy_ident-le (some c) r,
  skip_number-cons-le p c r,
  number_goes_digit p c,
)

-- With as many rounds as there are runes, or more, the loop ends by its own test: further rounds
-- add nothing.
pub mask_loop_enough :
    (f g : ℕ) (p : Option ℕ) (r : Text)
    → length r ≤ f
    → length r ≤ g
    → mask_loop f p r ≡ mask_loop g p r
unfolding mask_loop
mask_loop_enough zero zero p r l m = refl
mask_loop_enough zero (suc g) p [] l m = refl
mask_loop_enough zero (suc g) p (c ∷ r) l m = absurd (omega arith)
mask_loop_enough (suc f) zero p [] l m = refl
mask_loop_enough (suc f) zero p (c ∷ r) l m = absurd (omega arith)
mask_loop_enough (suc f) (suc g) p [] l m = refl
mask_loop_enough (suc f) (suc g) p (c ∷ r) l m =
    let (w, s) = step p c r in
    ap (λ t. w ++ t)
      (mask_loop_enough f g s.prev s.rest (omega (arith, step-le p c r))
        (omega (arith, step-le p c r)))
