-- ===== src/Sorting/Members.antt =====
-- Sorting keeps the members, and puts them in order if the order is total and transitive.
use pglockr.Prelude.{◌≡◌, ◌↔◌, Bool, true, false, inl, inr, List, [], ◌∷◌, Memᴰ, Bool-cases, All}
use pglockr.Sorting.{sort_insert, sort}

module _ {ℓ} {A : Type ℓ} (less : A → A → Bool) where
  mem_swap : {a x y : A} {ys : List A} → Memᴰ a (x ∷ y ∷ ys) → Memᴰ a (y ∷ x ∷ ys)
  mem_swap (Memᴰ.head e) = Memᴰ.tail (Memᴰ.head e)
  mem_swap (Memᴰ.tail (Memᴰ.head e)) = Memᴰ.head e
  mem_swap (Memᴰ.tail (Memᴰ.tail m)) = Memᴰ.tail (Memᴰ.tail m)

  mem_under :
      {a y : A} {xs ys : List A} → (Memᴰ a xs → Memᴰ a ys) → Memᴰ a (y ∷ xs) → Memᴰ a (y ∷ ys)
  mem_under f (Memᴰ.head e) = Memᴰ.head e
  mem_under f (Memᴰ.tail m) = Memᴰ.tail (f m)

  mem→sort_insert : (a x : A) (xs : List A) → Memᴰ a (x ∷ xs) → Memᴰ a (sort_insert less x xs)
  unfolding sort_insert
  mem→sort_insert a x [] m = m
  mem→sort_insert a x (y ∷ ys) m = elim (Bool-cases (less x y)) [
    | inl e ↦ rw e m
    | inr e ↦ rw e (mem_under (mem→sort_insert a x ys) (mem_swap m))
  ]

  sort_insert→mem : (a x : A) (xs : List A) → Memᴰ a (sort_insert less x xs) → Memᴰ a (x ∷ xs)
  unfolding sort_insert
  sort_insert→mem a x [] m = m
  sort_insert→mem a x (y ∷ ys) m = elim (Bool-cases (less x y)) [
    | inl e ↦ rw e at m
    | inr e ↦ mem_swap (mem_under (sort_insert→mem a x ys) (rw e at m))
  ]

  mem→sort : (a : A) (xs : List A) → Memᴰ a xs → Memᴰ a (sort less xs)
  unfolding sort
  mem→sort a [] m = m
  mem→sort a (x ∷ xs) m = mem→sort_insert a x (sort less xs) (mem_under (mem→sort a xs) m)

  sort→mem : (a : A) (xs : List A) → Memᴰ a (sort less xs) → Memᴰ a xs
  unfolding sort
  sort→mem a [] m = m
  sort→mem a (x ∷ xs) m = mem_under (sort→mem a xs) (sort_insert→mem a x (sort less xs) m)

  pub mem-sort_iff : (a : A) (xs : List A) → Memᴰ a (sort less xs) ↔ Memᴰ a xs
  mem-sort_iff a xs = (sort→mem a xs, mem→sort a xs)

  -- No element is less than one before it.
  abbrev pub IsSorted : List A → Type 0
  IsSorted [] = Unit
  IsSorted (x ∷ xs) = All (λ y. less y x ≡ false) xs × IsSorted xs

  module _ (asym : (a b : A) → less a b ≡ true → less b a ≡ false)
      (trans : (a b c : A) → less b a ≡ false → less c b ≡ false → less c a ≡ false) where
    All-sort_insert :
        (z x : A) (xs : List A)
        → less x z ≡ false
        → All (λ y. less y z ≡ false) xs
        → All (λ y. less y z ≡ false) (sort_insert less x xs)
    unfolding sort_insert
    All-sort_insert z x [] h a = (h, tt)
    All-sort_insert z x (y ∷ ys) h (b, a) = elim (Bool-cases (less x y)) [
      | inl e ↦ rw e (h, (b, a))
      | inr e ↦ rw e (b, All-sort_insert z x ys h a)
    ]

    All-trans :
        (z x : A) (xs : List A)
        → less x z ≡ false
        → All (λ y. less y x ≡ false) xs
        → All (λ y. less y z ≡ false) xs
    All-trans z x [] h a = tt
    All-trans z x (y ∷ ys) h (b, a) = (trans z x y h b, All-trans z x ys h a)

    sort_insert-IsSorted : (x : A) (xs : List A) → IsSorted xs → IsSorted (sort_insert less x xs)
    unfolding sort_insert
    sort_insert-IsSorted x [] s = (tt, tt)
    sort_insert-IsSorted x (y ∷ ys) (b, s) = elim (Bool-cases (less x y)) [
      | inl e ↦ rw e ((asym x y e, All-trans x y ys (asym x y e) b), (b, s))
      | inr e ↦ rw e (All-sort_insert y x ys e b, sort_insert-IsSorted x ys s)
    ]

    pub sort-IsSorted : (xs : List A) → IsSorted (sort less xs)
    unfolding sort
    sort-IsSorted [] = tt
    sort-IsSorted (x ∷ xs) = sort_insert-IsSorted x (sort less xs) (sort-IsSorted xs)
