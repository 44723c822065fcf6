-- ===== src/Prelude/Strings.antt =====
-- Go strings. A string is valid UTF-8 and is read as the list of its code points; a literal is
-- written as a native text and turned into that list by `codes`.
use Prim.Native.Nat.{ℕ, zero, suc, ◌-◌}
use Prim.Native.Char.{code}
use Prim.Native.String.{String}
use mathlib.Core.Path.{◌≡◌, refl, ◌∙◌, ap}
use mathlib.Core.Logic.{◌↔◌}
use mathlib.Core.Bool.{Bool, true, false, ◌&&◌, ◌||◌}
use mathlib.Core.List.{List, [], ◌∷◌, ◌++◌, map, reverse}
use native.Mathlib.Omega.{arith}
use pglockr.Prelude.Tests.{Eq, nat_beq, leb, if◌then◌else◌}
use pglockr.Prelude.Lists.{length, length-append, drop, drop-append_of_le, drop-of_length_le}

abbrev pub Text : Type 0
Text = List ℕ

abbrev pub codes : String → Text
codes String.[] = []
codes (String.◌∷◌ c s) = code c ∷ codes s

abbrev pub text_beq : Text → Text → Bool
text_beq [] [] = true
text_beq [] (d ∷ t) = false
text_beq (c ∷ s) [] = false
text_beq (c ∷ s) (d ∷ t) = nat_beq c d && text_beq s t

pub text_beq_iff : (s t : Text) → (text_beq s t ≡ true) ↔ (s ≡ t)
text_beq_iff [] [] = (λ _. refl, λ _. refl)
text_beq_iff [] (d ∷ t) = ground arith
text_beq_iff (c ∷ s) [] = ground arith
text_beq_iff (c ∷ s) (d ∷ t) = ground (arith, text_beq_iff s t)

instance abbrev pub text_eq : Eq Text
text_eq = record { beq = text_beq; beq_iff = text_beq_iff }

-- `strings.HasPrefix`, `strings.HasSuffix`
abbrev pub has_prefix : Text → Text → Bool
has_prefix s [] = true
has_prefix [] (d ∷ t) = false
has_prefix (c ∷ s) (d ∷ t) = nat_beq c d && has_prefix s t

abbrev pub has_suffix : Text → Text → Bool
has_suffix s t = leb (length t) (length s) && text_beq (drop (length s - length t) s) t

pub has_suffix-append : (w t : Text) → has_suffix (w ++ t) t ≡ true
has_suffix-append w t =
    let cut : length (w ++ t) - length t ≡ length w = omega (arith, length-append w t) in
    let rest : drop (length w) (w ++ t) ≡ t =
      drop-append_of_le (length w) w t (omega arith)
      ∙ ap (λ u. u ++ t) (drop-of_length_le (length w) w (omega arith)) in
    let same : text_beq (drop (length (w ++ t) - length t) (w ++ t)) t ≡ true =
      (text_beq_iff _ t).1 (ap (λ k. drop k (w ++ t)) cut ∙ rest) in
    rw same (ground (arith, length-append w t))

-- Unicode's white space, which `strings.TrimSpace` cuts off at both ends.
abbrev pub is_space : ℕ → Bool
is_space c =
    (leb 9 c && leb c 13)
    || nat_beq c 32
    || nat_beq c 0x85
    || nat_beq c 0xa0
    || nat_beq c 0x1680
    || (leb 0x2000 c && leb c 0x200a)
    || nat_beq c 0x2028
    || nat_beq c 0x2029
    || nat_beq c 0x202f
    || nat_beq c 0x205f
    || nat_beq c 0x3000

abbrev trim_left : Text → Text
trim_left [] = []
trim_left (c ∷ s) = if is_space c then trim_left s else c ∷ s

abbrev pub trim_space : Text → Text
trim_space s = reverse (trim_left (reverse (trim_left s)))

abbrev split_loop : Text → ℕ → Text → Text → List Text
split_loop sep skip part [] = part ∷ []
split_loop sep (suc skip) part (c ∷ s) = split_loop sep skip part s
split_loop sep zero part (c ∷ s) =
    let here = split_loop sep (length sep - 1) [] s in
    let on = split_loop sep zero (part ++ c ∷ []) s in
    if has_prefix (c ∷ s) sep then part ∷ here else on

-- `strings.Split`; an empty separator splits behind every rune.
abbrev pub split : Text → Text → List Text
split s [] = map (λ c. c ∷ []) s
split s (c ∷ sep) = split_loop (c ∷ sep) 0 [] s
