-- ===== src/Redact/Tokens/Mask.antt =====
-- The lexer reads a text token by token, and shows of each token what its description allows.
use pglockr.Prelude.{
  ℕ, zero, suc, ◌≤◌, ◌≡◌, refl, ap, sym, ◌∙◌, true, false, List, [], ◌∷◌, ◌++◌, Option, none, some,
  Text, length, length-append, arith, nat_beq, All, append_assoc, codes,
}
use pglockr.Redact.{
  cur, skip_string, skip_block, copy_ident, copy_digits, is_digit, is_word, prev_is_word, step,
  mask_loop, mask, skip_line, skip_number, number_goes, dollar_case, dollar_body, span_word,
  starts_rune, index, advance,
}
use pglockr.Redact.Tokens.{
  Token, plain, str, num, line, block, dollar, param, ident, double, tag_of, head_of, tail_of,
  render, shown, redacted, end_of, behind, Stops, Fits, IsText,
}
use pglockr.Redact.Tokens.Loops.{
  skip_line_lem, skip_block_lem, skip_string_lem, span_word_lem, copy_digits_lem, copy_ident_lem,
  skip_number_lem, index_lem, advance_lem,
}

abbrev Reads : Option ℕ → Token → Text → Type 0
Reads p t r = step p (head_of t) (tail_of t ++ r) ≡ (shown t, cur (behind p t) r)

starts_rune_of_Stops : (c : ℕ) (r : Text) → Stops (nat_beq c) r → starts_rune c r ≡ false
starts_rune_of_Stops c [] h = refl
starts_rune_of_Stops c (d ∷ r) h = h

Reads-plain : (p : Option ℕ) (c : ℕ) (r : Text) → Fits p (plain c) r → Reads p (plain c) r
unfolding step
Reads-plain p c r (a, b, d, e, m, s) =
    ground (arith, starts_rune_of_Stops b'-' r, starts_rune_of_Stops b'*' r)

Reads-str : (p : Option ℕ) (s r : Text) → Fits p (str s) r → Reads p (str s) r
unfolding step
Reads-str p s r h =
    ap (λ x. (codes "?", x))
      (ap (skip_string (some b'\'')) (append_assoc (double b'\'' s) (b'\'' ∷ []) r)
        ∙ skip_string_lem (some b'\'') s r h)

skip_number_first :
    (p : Option ℕ) (d : ℕ) (r : Text)
    → is_digit d ≡ true
    → skip_number p (d ∷ r) ≡ skip_number (some d) r
unfolding skip_number number_goes
skip_number_first p d r h = ground arith

step_digit :
    (p : Option ℕ) (d : ℕ) (r : Text)
    → is_digit d ≡ true
    → prev_is_word p ≡ false
    → step p d r ≡ (codes "?", skip_number p (d ∷ r))
unfolding step
step_digit p d r h k = ground arith

Reads-num : (p : Option ℕ) (d : ℕ) (s r : Text) → Fits p (num d s) r → Reads p (num d s) r
Reads-num p d s r (h, k, c, e) =
    step_digit p d (s ++ r) h k
    ∙ ap (λ x. (codes "?", x)) (skip_number_first p d (s ++ r) h ∙ skip_number_lem (some d) s r c e)

Reads-line : (p : Option ℕ) (s r : Text) → Fits p (line s) r → Reads p (line s) r
unfolding step skip_line
Reads-line p s r (a, l) = ap (λ x. (codes "--?", x)) (skip_line_lem (some b'-') s r a l)

Reads-block : (p : Option ℕ) (s r : Text) → Fits p (block s) r → Reads p (block s) r
unfolding step
Reads-block p s r h =
    ap (λ x. (codes "/*?*/", x))
      (ap (skip_block (some b'*')) (append_assoc s (b'*' ∷ b'/' ∷ []) r)
        ∙ skip_block_lem (some b'*') s r h)

Reads-ident : (p : Option ℕ) (s r : Text) → Fits p (ident s) r → Reads p (ident s) r
unfolding step
Reads-ident p s r h =
    ap (λ x. (b'"' ∷ x.0, x.1))
      (ap (copy_ident (some b'"')) (append_assoc s (b'"' ∷ []) r)
        ∙ copy_ident_lem (some b'"') s r h)

step_dollar :
    (p : Option ℕ) (r : Text) → step p b'$' r ≡ dollar_case r (span_word r).0 (span_word r).1
unfolding step
step_dollar p r = refl

dollar_case_param :
    (x w r : Text)
    → Stops (nat_beq b'$') r
    → dollar_case x w r ≡ (b'$' ∷ (copy_digits (some b'$') x).0, (copy_digits (some b'$') x).1)
unfolding dollar_case
dollar_case_param x w [] h = refl
dollar_case_param x w (d ∷ r) h = ground arith

dollar_case_tag :
    (x w r : Text)
    → dollar_case x w (b'$' ∷ r) ≡ dollar_body (tag_of w) (some b'$') r (index (tag_of w) r)
unfolding dollar_case
dollar_case_tag x w r = refl

end_of-concat : (p : Option ℕ) (s : Text) (c : ℕ) → end_of p (s ++ c ∷ []) ≡ some c
end_of-concat p [] c = refl
end_of-concat p (d ∷ s) c = end_of-concat (some d) s c

dollar_body_found :
    (w s r : Text)
    → index (tag_of w) (s ++ (tag_of w ++ r)) ≡ some (length s)
    → dollar_body
        (tag_of w)
        (some b'$')
        (s ++ (tag_of w ++ r))
        (index (tag_of w) (s ++ (tag_of w ++ r)))
      ≡ (codes "?", cur (some b'$') r)
unfolding dollar_body
dollar_body_found w s r e =
    let tag : Text = tag_of w in
    let q : Option ℕ = some b'$' in
    ap (dollar_body tag q (s ++ (tag ++ r))) e
    ∙ ap (λ n. (codes "?", advance n q (s ++ (tag ++ r)))) (sym (length-append s tag))
    ∙ ap (λ x. (codes "?", advance (length (s ++ tag)) q x)) (sym (append_assoc s tag r))
    ∙ ap (λ x. (codes "?", x)) (advance_lem q (s ++ tag) r)
    ∙ ap (λ x. (codes "?", cur x r))
        (ap (end_of q) (sym (append_assoc s (b'$' ∷ w) (b'$' ∷ [])))
          ∙ end_of-concat q (s ++ b'$' ∷ w) b'$')

All-word : (s : Text) → All (λ c. is_digit c ≡ true) s → All (λ c. is_word c ≡ true) s
All-word [] a = tt
All-word (c ∷ s) (b, a) = (ground arith, All-word s a)

Stops-digit : (r : Text) → Stops is_word r → Stops is_digit r
Stops-digit [] h = tt
Stops-digit (c ∷ r) h = ground arith

Reads-param : (p : Option ℕ) (s r : Text) → Fits p (param s) r → Reads p (param s) r
Reads-param p s r (a, w, d) =
    step_dollar p (s ++ r)
    ∙ ap (λ x. dollar_case (s ++ r) x.0 x.1) (span_word_lem s r (All-word s a) w)
    ∙ dollar_case_param (s ++ r) s r d
    ∙ ap (λ x. (b'$' ∷ x.0, x.1)) (copy_digits_lem (some b'$') s r a (Stops-digit r w))

Reads-dollar : (p : Option ℕ) (w s r : Text) → Fits p (dollar w s) r → Reads p (dollar w s) r
Reads-dollar p w s r (a, b, h) =
    let tag : Text = tag_of w in
    let body : Text = s ++ (tag ++ r) in
    let spelled : tail_of (dollar w s) ++ r ≡ w ++ (b'$' ∷ body) =
      append_assoc w (b'$' ∷ (s ++ tag)) r ∙ ap (λ x. w ++ (b'$' ∷ x)) (append_assoc s tag r) in
    ap (step p b'$') spelled
    ∙ step_dollar p (w ++ (b'$' ∷ body))
    ∙ ap (λ x. dollar_case (w ++ (b'$' ∷ body)) x.0 x.1) (span_word_lem w (b'$' ∷ body) a refl)
    ∙ dollar_case_tag (w ++ (b'$' ∷ body)) w body
    ∙ dollar_body_found w s r (index_lem tag s r b h)

reads : (p : Option ℕ) (t : Token) (r : Text) → Fits p t r → Reads p t r
reads p (plain c) r h = Reads-plain p c r h
reads p (str s) r h = Reads-str p s r h
reads p (num d s) r h = Reads-num p d s r h
reads p (line s) r h = Reads-line p s r h
reads p (block s) r h = Reads-block p s r h
reads p (dollar w s) r h = Reads-dollar p w s r h
reads p (param s) r h = Reads-param p s r h
reads p (ident s) r h = Reads-ident p s r h

mask_loop-render :
    (f : ℕ) (p : Option ℕ) (ts : List Token)
    → length (render ts) ≤ f
    → IsText p ts
    → mask_loop f p (render ts) ≡ redacted ts
unfolding mask_loop
mask_loop-render zero p [] l h = refl
mask_loop-render zero p (t ∷ ts) l h = absurd (omega arith)
mask_loop-render (suc f) p [] l h = refl
mask_loop-render (suc f) p (t ∷ ts) l (h, k) =
    ap (λ x. x.0 ++ mask_loop f x.1.prev x.1.rest) (reads p t (render ts) h)
    ∙ ap (λ s. shown t ++ s)
        (mask_loop-render f (behind p t) ts (omega (arith, length-append (tail_of t) (render ts)))
          k)

-- Of a text that is made of tokens, each of which fits where it stands, `Mask` shows every token
-- as its description allows: nothing of a string, a number, a comment or a dollar quote with an
-- ASCII body but its marker, and all else unchanged.
pub mask-render : (ts : List Token) → IsText none ts → mask (render ts) ≡ redacted ts
unfolding mask
mask-render ts h = mask_loop-render (length (render ts)) none ts (omega arith) h
