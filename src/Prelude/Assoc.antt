-- ===== src/Prelude/Assoc.antt =====
-- Go maps as association lists. A map's iteration order is the order of its list, which Go leaves
-- open: a function that iterates is stated for every order.
use mathlib.Core.Path.{◌≡◌, refl}
use mathlib.Core.Option.{Option, none, some}
use mathlib.Core.List.{List, [], ◌∷◌}
use native.Mathlib.Omega.{arith}
use pglockr.Prelude.Tests.{Eq, ◌==◌, if◌then◌else◌}

module _ {ℓ κ} {K : Type ℓ} {V : Type κ} ⦃e : Eq K⦄ where
  -- `v, ok := m[k]`
  unfoldable pub lookup : K → List (K × V) → Option V
  lookup key [] = none
  lookup key ((here, val) ∷ rest) = if here == key then some val else lookup key rest

  -- `m[k] = v`
  unfoldable pub insert : K → V → List (K × V) → List (K × V)
  insert key new [] = (key, new) ∷ []
  insert key new ((here, val) ∷ rest) =
      if here == key then (key, new) ∷ rest else (here, val) ∷ insert key new rest

  -- `delete(m, k)`
  unfoldable pub delete : K → List (K × V) → List (K × V)
  delete k [] = []
  delete k ((j, w) ∷ m) = if j == k then delete k m else (j, w) ∷ delete k m

  pub lookup-insert :
      (new k : K) (val : V) (rest : List (K × V))
      → lookup k (insert new val rest) ≡ (if new == k then some val else lookup k rest)
  unfolding lookup insert
  lookup-insert new k val [] = refl
  lookup-insert new k val ((here, u) ∷ rest) =
      let next = lookup-insert new k val rest in
      ground (arith, next, e.beq_iff new k, e.beq_iff here new, e.beq_iff here k)

  pub lookup-delete :
      (k j : K) (m : List (K × V)) → lookup j (delete k m) ≡ (if k == j then none else lookup j m)
  unfolding lookup delete
  lookup-delete k j [] = ground arith
  lookup-delete k j ((i, w) ∷ m) =
      ground (arith, e.beq_iff k j, e.beq_iff i k, e.beq_iff i j, lookup-delete k j m)
