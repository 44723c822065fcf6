-- ===== src/Redact/Tokens/Loops.antt =====
-- Each inner loop of the lexer passes over the token that it is meant for, and stops behind it.
use pglockr.Prelude.{
  ℕ, ◌≡◌, refl, ◌∙◌, true, false, [], ◌∷◌, ◌++◌, inl, inr, Option, some, Text, length, arith,
  nat_beq, Bool-cases, All, ltb,
}
use pglockr.Redact.{
  cur, is_digit, is_word, number_goes, skip_line, skip_block, skip_string, span_word, starts_with,
  index, advance, copy_digits, copy_ident, skip_number,
}
use pglockr.Redact.Tokens.{double, end_of, Stops, LineEnds, Continues, NoClose, NoTag}

pub skip_line_lem :
    (p : Option ℕ) (s r : Text)
    → All (λ c. nat_beq c b'\n' ≡ false) s
    → LineEnds r
    → skip_line p (s ++ r) ≡ cur (end_of p s) r
unfolding skip_line
skip_line_lem p [] [] a l = refl
skip_line_lem p [] (c ∷ r) a l = rw l
skip_line_lem p (c ∷ s) r (h, a) l = rw h (skip_line_lem (some c) s r a l)

pub skip_block_lem :
    (p : Option ℕ) (s r : Text)
    → NoClose s
    → skip_block p (s ++ b'*' ∷ b'/' ∷ r) ≡ cur (some b'/') r
unfolding skip_block
skip_block_lem p [] r a = refl
skip_block_lem p (c ∷ []) r a = ground (arith, skip_block_lem (some c) [] r tt)
skip_block_lem p (c ∷ d ∷ s) r (h, a) = rw h (skip_block_lem (some c) (d ∷ s) r a)

skip_string_other :
    (p : Option ℕ) (c : ℕ) (r : Text)
    → nat_beq c b'\'' ≡ false
    → skip_string p (c ∷ r) ≡ skip_string (some c) r
unfolding skip_string
skip_string_other p c [] h = refl
skip_string_other p c (d ∷ r) h = rw h

skip_string_end :
    (p : Option ℕ) (r : Text)
    → Stops (nat_beq b'\'') r
    → skip_string p (b'\'' ∷ r) ≡ cur (some b'\'') r
unfolding skip_string
skip_string_end p [] h = refl
skip_string_end p (d ∷ r) h = ground arith

skip_string_escaped :
    (p : Option ℕ) (c : ℕ) (r : Text)
    → nat_beq c b'\'' ≡ true
    → skip_string p (c ∷ c ∷ r) ≡ skip_string (some c) r
unfolding skip_string
skip_string_escaped p c r h = rw h

pub skip_string_lem :
    (p : Option ℕ) (s r : Text)
    → Stops (nat_beq b'\'') r
    → skip_string p (double b'\'' s ++ b'\'' ∷ r) ≡ cur (some b'\'') r
skip_string_lem p [] r h = skip_string_end p r h
skip_string_lem p (c ∷ s) r h = elim (Bool-cases (nat_beq c b'\'')) [
  | inl e ↦ rw e (skip_string_escaped p c _ e ∙ skip_string_lem (some c) s r h)
  | inr e ↦ rw e (skip_string_other p c _ e ∙ skip_string_lem (some c) s r h)
]

pub span_word_lem :
    (w r : Text) → All (λ c. is_word c ≡ true) w → Stops is_word r → span_word (w ++ r) ≡ (w, r)
unfolding span_word
span_word_lem [] [] a h = refl
span_word_lem [] (c ∷ r) a h = rw h
span_word_lem (c ∷ w) r (b, a) h = rw (b, span_word_lem w r a h)

pub copy_digits_lem :
    (p : Option ℕ) (s r : Text)
    → All (λ c. is_digit c ≡ true) s
    → Stops is_digit r
    → copy_digits p (s ++ r) ≡ (s, cur (end_of p s) r)
unfolding copy_digits
copy_digits_lem p [] [] a h = refl
copy_digits_lem p [] (c ∷ r) a h = rw h
copy_digits_lem p (c ∷ s) r (b, a) h = rw (b, copy_digits_lem (some c) s r a h)

pub copy_ident_lem :
    (p : Option ℕ) (s r : Text)
    → All (λ c. nat_beq c b'"' ≡ false) s
    → copy_ident p (s ++ b'"' ∷ r) ≡ (s ++ b'"' ∷ [], cur (some b'"') r)
unfolding copy_ident
copy_ident_lem p [] r a = refl
copy_ident_lem p (c ∷ s) r (b, a) = rw (b, copy_ident_lem (some c) s r a)

pub skip_number_lem :
    (p : Option ℕ) (s r : Text)
    → Continues p s
    → Stops (number_goes (end_of p s)) r
    → skip_number p (s ++ r) ≡ cur (end_of p s) r
unfolding skip_number
skip_number_lem p [] [] a h = refl
skip_number_lem p [] (c ∷ r) a h = rw h
skip_number_lem p (c ∷ s) r (b, a) h = rw b (skip_number_lem (some c) s r a h)

pub starts_with_self : (t r : Text) → starts_with (t ++ r) t ≡ true
unfolding starts_with
starts_with_self [] [] = refl
starts_with_self [] (c ∷ r) = refl
starts_with_self (c ∷ t) r = ground (arith, starts_with_self t r)

index_here : (tag r : Text) → starts_with r tag ≡ true → index tag r ≡ some 0
unfolding index
index_here tag [] h = rw h
index_here tag (c ∷ r) h = rw h

-- In an ASCII body the byte offset of the tag is the number of runes before it.
pub index_lem :
    (tag s r : Text)
    → All (λ c. ltb c 0x80 ≡ true) s
    → NoTag tag s (tag ++ r)
    → index tag (s ++ (tag ++ r)) ≡ some (length s)
unfolding index
index_lem tag [] r a h = index_here tag (tag ++ r) (starts_with_self tag r)
index_lem tag (c ∷ s) r (b, a) (h, k) = rw (h, b, index_lem tag s r a k) (ground arith)

pub advance_lem : (p : Option ℕ) (s r : Text) → advance (length s) p (s ++ r) ≡ cur (end_of p s) r
unfolding advance
advance_lem p [] r = refl
advance_lem p (c ∷ s) r = advance_lem (some c) s r
