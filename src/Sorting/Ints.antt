-- ===== src/Sorting/Ints.antt =====
-- Sorting distinct numbers: the same members, strictly ascending.
use pglockr.Prelude.{
  ℕ, ◌<◌, ◌≡◌, refl, ◌∙◌, false, List, [], ◌∷◌, arith, ltb, All, elem, Distinct, IsAscending,
}
use pglockr.Sorting.{sort_insert, sort}

pub elem-sort_insert : (p x : ℕ) (xs : List ℕ) → elem p (sort_insert ltb x xs) ≡ elem p (x ∷ xs)
unfolding sort_insert
elem-sort_insert p x [] = refl
elem-sort_insert p x (y ∷ ys) = ground (arith, elem-sort_insert p x ys)

pub elem-sort : (p : ℕ) (xs : List ℕ) → elem p (sort ltb xs) ≡ elem p xs
unfolding sort
elem-sort p [] = refl
elem-sort p (x ∷ xs) = ground (arith, elem-sort_insert p x (sort ltb xs), elem-sort p xs)

All-lt-sort_insert :
    (q x : ℕ) (xs : List ℕ) → q < x → All (λ p. q < p) xs → All (λ p. q < p) (sort_insert ltb x xs)
unfolding sort_insert
All-lt-sort_insert q x [] h a = (h, tt)
All-lt-sort_insert q x (y ∷ ys) h (b, a) = ground (arith, All-lt-sort_insert q x ys h a)

All-lt_trans : (q x : ℕ) (xs : List ℕ) → q < x → All (λ p. x < p) xs → All (λ p. q < p) xs
All-lt_trans q x [] h a = tt
All-lt_trans q x (y ∷ ys) h (b, a) = (omega arith, All-lt_trans q x ys h a)

sort_insert-IsAscending :
    (x : ℕ) (xs : List ℕ) → elem x xs ≡ false → IsAscending xs → IsAscending (sort_insert ltb x xs)
unfolding sort_insert
sort_insert-IsAscending x [] h a = (tt, tt)
sort_insert-IsAscending x (y ∷ ys) h (b, a) =
    ground (arith, sort_insert-IsAscending x ys, All-lt_trans x y ys, All-lt-sort_insert y x ys)

pub sort-IsAscending : (xs : List ℕ) → Distinct xs → IsAscending (sort ltb xs)
unfolding sort
sort-IsAscending [] d = tt
sort-IsAscending (x ∷ xs) (h, d) =
    sort_insert-IsAscending x (sort ltb xs) (elem-sort x xs ∙ h) (sort-IsAscending xs d)
