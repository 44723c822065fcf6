-- ===== src/Sorting/Unique.antt =====
-- The result of sorting does not depend on the order of the input, if only equal elements tie.
use pglockr.Prelude.{◌≡◌, refl, ap, ap₂, ◌∙◌, Bool, List, [], ◌∷◌, map, Bool-cases, inl, inr}
use mathlib.Core.List.{Permᴰ}
use pglockr.Sorting.{sort_insert, sort}

module _ {ℓ κ} {A : Type ℓ} {B : Type κ} (f : A → B) (less : B → B → Bool) (key_less : A → A → Bool)
    (same : (a b : A) → less (f a) (f b) ≡ key_less a b) where
  sort_insert-map :
      (x : A) (xs : List A) → sort_insert less (f x) (map f xs) ≡ map f (sort_insert key_less x xs)
  unfolding sort_insert
  sort_insert-map x [] = refl
  sort_insert-map x (y ∷ ys) = elim (Bool-cases (key_less x y)) [
    | inl e ↦ rw (same x y, e)
    | inr e ↦ rw (same x y, e) (ap (◌∷◌ (f y)) (sort_insert-map x ys))
  ]

  pub sort-map : (xs : List A) → sort less (map f xs) ≡ map f (sort key_less xs)
  unfolding sort
  sort-map [] = refl
  sort-map (x ∷ xs) = rw (sort-map xs) (sort_insert-map x (sort key_less xs))

module _ {ℓ} {A : Type ℓ} (less : A → A → Bool)
    (comm : (x y : A) (l : List A)
      → sort_insert less x (sort_insert less y l) ≡ sort_insert less y (sort_insert less x l)) where
  pub sort-eq_of_perm : {xs ys : List A} → Permᴰ xs ys → sort less xs ≡ sort less ys
  unfolding sort
  sort-eq_of_perm Permᴰ.nil = refl
  sort-eq_of_perm (Permᴰ.cons e p) = ap₂ (sort_insert less) e (sort-eq_of_perm p)
  sort-eq_of_perm (Permᴰ.swap {a = a} {b = b} {l = l} e d) =
      comm a b (sort less l)
      ∙ ap₂ (λ u v. sort_insert less u (sort_insert less v (sort less l))) d e
  sort-eq_of_perm (Permᴰ.trans p q) = sort-eq_of_perm p ∙ sort-eq_of_perm q
