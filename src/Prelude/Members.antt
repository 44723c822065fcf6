-- ===== src/Prelude/Members.antt =====
-- Membership in a list of numbers as a test, lists without repetition, and ascending lists.
use Prim.Native.Nat.{ℕ, ◌<◌}
use mathlib.Core.Path.{◌≡◌, refl, ap₂}
use mathlib.Core.Bool.{Bool, true, false, ◌||◌}
use mathlib.Core.Logic.{◌↔◌, inl, inr}
use mathlib.Core.List.{List, [], ◌∷◌, ◌++◌, Memᴰ}
use native.Mathlib.Omega.{arith}
use pglockr.Prelude.Tests.{nat_beq, nat_beq_iff, Bool-cases}
use pglockr.Prelude.Lists.{All}

abbrev pub elem : ℕ → List ℕ → Bool
elem p [] = false
elem p (q ∷ qs) = nat_beq p q || elem p qs

pub elem-head : (p : ℕ) {q : ℕ} (qs : List ℕ) → p ≡ q → elem p (q ∷ qs) ≡ true
elem-head p {q} qs e = ground arith

pub elem-tail : (p q : ℕ) (qs : List ℕ) → elem p qs ≡ true → elem p (q ∷ qs) ≡ true
elem-tail p q qs e = ground arith

elem→mem : (p : ℕ) (qs : List ℕ) → elem p qs ≡ true → Memᴰ p qs
elem→mem p [] h = absurd (ground arith)
elem→mem p (q ∷ qs) h = elim (Bool-cases (nat_beq p q)) [
  | inl e ↦ Memᴰ.head ((nat_beq_iff p q).0 e)
  | inr e ↦ Memᴰ.tail (elem→mem p qs (ground arith))
]

mem→elem : {p : ℕ} {qs : List ℕ} → Memᴰ p qs → elem p qs ≡ true
mem→elem {p} (Memᴰ.head {xs = xs} e) = elem-head p xs e
mem→elem {p} (Memᴰ.tail {x = x} {xs = xs} m) = elem-tail p x xs (mem→elem m)

pub elem_iff : (p : ℕ) (qs : List ℕ) → (elem p qs ≡ true) ↔ Memᴰ p qs
elem_iff p qs = (elem→mem p qs, mem→elem)

pub elem-append : (p : ℕ) (xs ys : List ℕ) → elem p (xs ++ ys) ≡ elem p xs || elem p ys
elem-append p [] ys = refl
elem-append p (x ∷ xs) ys = ground (arith, elem-append p xs ys)

-- No number twice.
abbrev pub Distinct : List ℕ → Type 0
Distinct [] = Unit
Distinct (q ∷ qs) = (elem q qs ≡ false) × Distinct qs

pub Distinct-concat :
    (qs : List ℕ) (p : ℕ) → Distinct qs → elem p qs ≡ false → Distinct (qs ++ p ∷ [])
Distinct-concat [] p d h = (refl, tt)
Distinct-concat (q ∷ qs) p (n, d) h =
    (ground (arith, elem-append q qs (p ∷ [])), Distinct-concat qs p d (ground arith))

-- Strictly ascending.
abbrev pub IsAscending : List ℕ → Type 0
IsAscending [] = Unit
IsAscending (q ∷ qs) = All (λ p. q < p) qs × IsAscending qs

pub lt_of_elem : (q p : ℕ) (qs : List ℕ) → All (λ r. q < r) qs → elem p qs ≡ true → q < p
lt_of_elem q p [] a h = absurd (ground arith)
lt_of_elem q p (r ∷ qs) (l, a) h = ground (arith, lt_of_elem q p qs a)

-- Ascending lists with the same members are equal.
pub ascending_ext :
    (xs ys : List ℕ) → IsAscending xs → IsAscending ys → ((p : ℕ) → elem p xs ≡ elem p ys) → xs ≡ ys
ascending_ext [] [] a b h = refl
ascending_ext [] (y ∷ ys) a b h = absurd (ground (arith, h y))
ascending_ext (x ∷ xs) [] a b h = absurd (ground (arith, h x))
ascending_ext (x ∷ xs) (y ∷ ys) (a, as') (b, bs) h = ap₂ ◌∷◌ same (ascending_ext xs ys as' bs tails)
  where
    same : x ≡ y
    same = ground (arith, h x, h y, lt_of_elem y x ys b, lt_of_elem x y xs a)

    tails : (p : ℕ) → elem p xs ≡ elem p ys
    tails p = ground (arith, same, h p, lt_of_elem y p ys b, lt_of_elem x p xs a)
