-- ===== src/Redact/Scan.antt =====
-- No inner loop of the lexer moves back: what is left is never longer than what was there.
use pglockr.Prelude.{
  ℕ, zero, suc, ◌+◌, ◌≤◌, true, [], ◌∷◌, Option, none, some, Text, length, arith, nat_beq, ◌≡◌,
  ◌++◌,
}
use pglockr.Redact.{
  skip_line, skip_block, skip_string, span_word, index, advance, copy_digits, copy_ident,
  skip_number, number_goes, dollar_body, dollar_case,
}

skip_line-le : (p : Option ℕ) (r : Text) → length (skip_line p r).rest ≤ length r
unfolding skip_line
skip_line-le p [] = omega arith
skip_line-le p (c ∷ r) = ground (arith, skip_line-le (some c) r)

-- A line comment takes its first rune, since that is no line feed.
pub skip_line-cons-le :
    (p : Option ℕ) (c : ℕ) (r : Text)
    → nat_beq c b'-' ≡ true
    → length (skip_line p (c ∷ r)).rest ≤ length r
unfolding skip_line
skip_line-cons-le p c r e = ground (arith, skip_line-le (some c) r)

pub skip_block-le : (p : Option ℕ) (r : Text) → length (skip_block p r).rest ≤ length r
unfolding skip_block
skip_block-le p [] = omega arith
skip_block-le p (c ∷ []) = omega arith
skip_block-le p (c ∷ d ∷ r) = ground (arith, skip_block-le (some c) (d ∷ r))

pub skip_string-le : (p : Option ℕ) (r : Text) → length (skip_string p r).rest ≤ length r
unfolding skip_string
skip_string-le p [] = omega arith
skip_string-le p (c ∷ []) = omega arith
skip_string-le p (c ∷ d ∷ r) =
    ground (arith, skip_string-le (some c) (d ∷ r), skip_string-le (some d) r)

pub span_word-le : (r : Text) → length (span_word r).1 ≤ length r
unfolding span_word
span_word-le [] = omega arith
span_word-le (c ∷ r) = ground (arith, span_word-le r)

pub advance-le : (k : ℕ) (p : Option ℕ) (r : Text) → length (advance k p r).rest ≤ length r
unfolding advance
advance-le zero p r = omega arith
advance-le (suc k) p [] = omega arith
advance-le (suc k) p (c ∷ r) = omega (arith, advance-le k (some c) r)

pub copy_digits-le : (p : Option ℕ) (r : Text) → length (copy_digits p r).1.rest ≤ length r
unfolding copy_digits
copy_digits-le p [] = omega arith
copy_digits-le p (c ∷ r) = ground (arith, copy_digits-le (some c) r)

pub copy_ident-le : (p : Option ℕ) (r : Text) → length (copy_ident p r).1.rest ≤ length r
unfolding copy_ident
copy_ident-le p [] = omega arith
copy_ident-le p (c ∷ r) = ground (arith, copy_ident-le (some c) r)

skip_number-le : (p : Option ℕ) (r : Text) → length (skip_number p r).rest ≤ length r
unfolding skip_number
skip_number-le p [] = omega arith
skip_number-le p (c ∷ r) = ground (arith, skip_number-le (some c) r)

-- A number takes its first digit.
pub skip_number-cons-le :
    (p : Option ℕ) (c : ℕ) (r : Text)
    → number_goes p c ≡ true
    → length (skip_number p (c ∷ r)).rest ≤ length r
unfolding skip_number
skip_number-cons-le p c r e = ground (arith, skip_number-le (some c) r)

dollar_body-le :
    (tag : Text) (p : Option ℕ) (body : Text) (o : Option ℕ)
    → length (dollar_body tag p body o).1.rest ≤ length body
unfolding dollar_body
dollar_body-le tag p body none = omega arith
dollar_body-le tag p body (some end) = advance-le (end + length tag) p body

pub dollar_case-le :
    (r w s : Text) → length s ≤ length r → length (dollar_case r w s).1.rest ≤ length r
unfolding dollar_case
dollar_case-le r w [] l = copy_digits-le (some b'$') r
dollar_case-le r w (d ∷ s) l = ground (
  arith,
  copy_digits-le (some b'$') r,
  dollar_body-le (b'$' ∷ w ++ d ∷ []) (some d) s (index (b'$' ∷ w ++ d ∷ []) s),
)
