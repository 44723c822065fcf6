-- ===== src/Prelude/Sublists.antt =====
-- Lists that arise from others by leaving elements out, and an option as a list.
use mathlib.Core.Path.{refl}
use mathlib.Core.List.{List, [], ◌∷◌, ◌++◌, Sublistᴰ}
use mathlib.Core.List.Sublistᴰ
use mathlib.Core.Option.{Option, none, some}

-- What is there of an option.
abbrev pub pending {ℓ} : {A : Type ℓ} → Option A → List A
pending none = []
pending (some x) = x ∷ []

module _ {ℓ} {A : Type ℓ} where
  pub more : {xs zs : List A} (ys : List A) → Sublistᴰ xs zs → Sublistᴰ xs (zs ++ ys)
  more [] Sublistᴰ.slnil = Sublistᴰ.slnil
  more (y ∷ ys) Sublistᴰ.slnil = Sublistᴰ.cons (more ys Sublistᴰ.slnil)
  more ys (Sublistᴰ.cons s) = Sublistᴰ.cons (more ys s)
  more ys (Sublistᴰ.cons-cons e s) = Sublistᴰ.cons-cons e (more ys s)

  pub prefix : (xs ys zs : List A) → Sublistᴰ (xs ++ ys) zs → Sublistᴰ xs zs
  prefix xs ys zs s = Sublistᴰ.trans (more ys (Sublistᴰ.refl xs)) s

  pub both_more : {xs zs : List A} (ys : List A) → Sublistᴰ xs zs → Sublistᴰ (xs ++ ys) (zs ++ ys)
  both_more [] Sublistᴰ.slnil = Sublistᴰ.slnil
  both_more (y ∷ ys) Sublistᴰ.slnil = Sublistᴰ.cons-cons refl (both_more ys Sublistᴰ.slnil)
  both_more ys (Sublistᴰ.cons s) = Sublistᴰ.cons (both_more ys s)
  both_more ys (Sublistᴰ.cons-cons e s) = Sublistᴰ.cons-cons e (both_more ys s)
