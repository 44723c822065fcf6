-- ===== src/Sorting.antt =====
-- Go's `sort.Ints` and `sort.Slice`, as insertion by a Boolean order, and what callers rely on.
pub mod Ints
pub mod Members
pub mod Unique
use pglockr.Prelude.{Bool, List, [], ◌∷◌, if◌then◌else◌}

module _ {ℓ} {A : Type ℓ} (less : A → A → Bool) where
  unfoldable pub sort_insert : A → List A → List A
  sort_insert x [] = x ∷ []
  sort_insert x (y ∷ ys) = if less x y then x ∷ y ∷ ys else y ∷ sort_insert x ys

  unfoldable pub sort : List A → List A
  sort [] = []
  sort (x ∷ xs) = sort_insert x (sort xs)
