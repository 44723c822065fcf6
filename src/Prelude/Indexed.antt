-- ===== src/Prelude/Indexed.antt =====
-- What is found at an index of a list.
use Prim.Native.Nat.{ℕ, zero, suc}
use mathlib.Core.Path.{◌≡◌, subst}
use mathlib.Core.Option.{some}
use mathlib.Core.List.{List, [], ◌∷◌, map}
use native.Mathlib.Omega.{arith}
use pglockr.Prelude.Lists.{All, get_elem?}

pub get_elem?-map {ℓ κ} :
    {A : Type ℓ} {B : Type κ} (f : A → B) (xs : List A) (n : ℕ) {x : A}
    → get_elem? xs n ≡ some x
    → get_elem? (map f xs) n ≡ some (f x)
get_elem?-map f [] n e = absurd (ground arith)
get_elem?-map f (x ∷ xs) zero e = cc
get_elem?-map f (x ∷ xs) (suc n) e = get_elem?-map f xs n e

pub All-get_elem? {ℓ κ} :
    {A : Type ℓ} (P : A → Type κ) (xs : List A) (n : ℕ) {x : A}
    → All P xs
    → get_elem? xs n ≡ some x
    → P x
All-get_elem? P [] n h e = absurd (ground arith)
All-get_elem? P (x ∷ xs) zero (p, h) e = subst P (cc) p
All-get_elem? P (x ∷ xs) (suc n) (p, h) e = All-get_elem? P xs n h e
