-- ===== src/Graph/Builder/Order.antt =====
-- Go visits the entries of a map in any order. What `Build` returns does not depend on it.
use pglockr.Prelude.{
  ℕ, ◌≡◌, refl, sym, ◌∙◌, ap, ap₂, subst, Bool, ◌&&◌, List, [], ◌∷◌, ◌++◌, append_assoc, map, arith,
  Text, elem, Distinct, lookup, nat_eq, nat_beq, ltb, if◌then◌else◌,
}
use mathlib.Core.List.{Permᴰ}
use mathlib.Core.List.Permᴰ
use pglockr.Prelude.Members.{ascending_ext}
use pglockr.Prelude.Time.{Time}
use pglockr.Sorting.{sort_insert}
use pglockr.Sorting.Unique.{sort-map, sort-eq_of_perm}
use pglockr.Graph.{Session, Sessions, EdgeKey, keys}
use pglockr.Graph.Builder.{Labels, build, edge_less}
use pglockr.Graph.Builder.Collect.{pairs_of, pairs, key_edge, blocks}
use pglockr.Graph.Builder.Edges.{edges-build, label_edge-pids}
use pglockr.Graph.Builder.Roots.{IsWalk, idle_session, elem-roots-build, roots-build-IsAscending}

abbrev key_less : EdgeKey → EdgeKey → Bool
key_less a b =
    if nat_beq a.waiter_pid b.waiter_pid
    then ltb a.blocker_pid b.blocker_pid
    else ltb a.waiter_pid b.waiter_pid

sort_insert_comm :
    (x y : EdgeKey) (l : List EdgeKey)
    → sort_insert key_less x (sort_insert key_less y l)
      ≡ sort_insert key_less y (sort_insert key_less x l)
unfolding sort_insert
sort_insert_comm x y [] = ground arith
sort_insert_comm x y (z ∷ l) = ground (arith, sort_insert_comm x y l)

edge_less-key_edge :
    (labels : Labels) (a b : EdgeKey)
    → edge_less (key_edge labels a) (key_edge labels b) ≡ key_less a b
edge_less-key_edge labels a b = ground (
  arith,
  label_edge-pids labels a.waiter_pid a.blocker_pid,
  label_edge-pids labels b.waiter_pid b.blocker_pid,
)

abbrev entry_pairs : ℕ × Session → List EdgeKey
entry_pairs x = pairs_of x.0 x.1.blocked_by

swap_blocks : (xs ys zs : List EdgeKey) → Permᴰ (xs ++ (ys ++ zs)) (ys ++ (xs ++ zs))
swap_blocks xs ys zs =
    subst (λ l. Permᴰ l (ys ++ (xs ++ zs))) (append_assoc xs ys zs)
      (subst (λ l. Permᴰ ((xs ++ ys) ++ zs) l) (append_assoc ys xs zs)
        (Permᴰ.append_right zs (Permᴰ.append_comm xs ys)))

pairs-perm : {ss ts : Sessions} → Permᴰ ss ts → Permᴰ (pairs ss) (pairs ts)
pairs-perm Permᴰ.nil = Permᴰ.nil
pairs-perm (Permᴰ.cons {a = a} {l₁ = l₁} {l₂ = l₂} e p) =
    subst (λ l. Permᴰ (entry_pairs a ++ pairs l₁) l) (ap (λ x. entry_pairs x ++ pairs l₂) e)
      (Permᴰ.append_left (entry_pairs a) (pairs-perm p))
pairs-perm (Permᴰ.swap {a = a} {b = b} {l = l} e d) =
    subst (λ z. Permᴰ (entry_pairs a ++ (entry_pairs b ++ pairs l)) z)
      (ap₂ (λ u v. entry_pairs u ++ (entry_pairs v ++ pairs l)) d e)
      (swap_blocks (entry_pairs a) (entry_pairs b) (pairs l))
pairs-perm (Permᴰ.trans p q) = Permᴰ.trans (pairs-perm p) (pairs-perm q)

blocks-perm : (p : ℕ) {ss ts : Sessions} → Permᴰ ss ts → blocks ss p ≡ blocks ts p
blocks-perm p Permᴰ.nil = refl
blocks-perm p (Permᴰ.cons {l₂ = l₂} e q) =
    ground (arith, blocks-perm p q, ap (λ (x : ℕ × Session). x.1.blocked_by) e)
blocks-perm p (Permᴰ.swap {l = l} e d) =
    ground (
      arith,
      ap (λ (x : ℕ × Session). x.1.blocked_by) e,
      ap (λ (x : ℕ × Session). x.1.blocked_by) d,
    )
blocks-perm p (Permᴰ.trans q r) = blocks-perm p q ∙ blocks-perm p r

elem-keys-perm : (p : ℕ) {ss ts : Sessions} → Permᴰ ss ts → elem p (keys ss) ≡ elem p (keys ts)
unfolding keys
elem-keys-perm p Permᴰ.nil = refl
elem-keys-perm p (Permᴰ.cons {a = a} {b = b} e q) =
    ground (arith, ap (λ (x : ℕ × Session). x.0) e, elem-keys-perm p q)
elem-keys-perm p (Permᴰ.swap e d) =
    ground (arith, ap (λ (x : ℕ × Session). x.0) e, ap (λ (x : ℕ × Session). x.0) d)
elem-keys-perm p (Permᴰ.trans q r) = elem-keys-perm p q ∙ elem-keys-perm p r

keys-Distinct : {ss ts : Sessions} → Permᴰ ss ts → Distinct (keys ss) → Distinct (keys ts)
unfolding keys
keys-Distinct Permᴰ.nil u = tt
keys-Distinct (Permᴰ.cons {a = a} e q) (n, u) =
    (ground (arith, ap (λ (x : ℕ × Session). x.0) e, elem-keys-perm a.0 q), keys-Distinct q u)
keys-Distinct (Permᴰ.swap {a = a} {b = b} e d) (n, (m, u)) = (
  ground (arith, ap (λ (x : ℕ × Session). x.0) e, ap (λ (x : ℕ × Session). x.0) d),
  (ground (arith, ap (λ (x : ℕ × Session). x.0) e), u),
)
keys-Distinct (Permᴰ.trans q r) u = keys-Distinct r (keys-Distinct q u)

lookup-perm :
    (p : ℕ) {ss ts : Sessions} → Permᴰ ss ts → Distinct (keys ss) → lookup p ss ≡ lookup p ts
unfolding lookup keys
lookup-perm p Permᴰ.nil u = refl
lookup-perm p (Permᴰ.cons e q) (n, u) =
    ground
      (arith, ap (λ (x : ℕ × Session). x.0) e, ap (λ (x : ℕ × Session). x.1) e, lookup-perm p q u)
lookup-perm p (Permᴰ.swap e d) u = ground (
  arith,
  ap (λ (x : ℕ × Session). x.0) e,
  ap (λ (x : ℕ × Session). x.1) e,
  ap (λ (x : ℕ × Session). x.0) d,
  ap (λ (x : ℕ × Session). x.1) d,
)
lookup-perm p (Permᴰ.trans q r) u = lookup-perm p q u ∙ lookup-perm p r (keys-Distinct q u)

module _ (walk walk' : List ℕ → List ℕ) (w : IsWalk walk) (w' : IsWalk walk') (cluster : Text)
    (taken_at : Time) (labels : Labels) {ss ts : Sessions} (order : Permᴰ ss ts)
    (u : Distinct (keys ss)) where
  -- For sessions without a process id twice, `Build` returns the same edges and the same roots
  -- whatever the orders in which it visits the sessions and the blockers, if each visits every
  -- key once.
  pub build_deterministic :
      ((build walk cluster taken_at ss labels).edges
        ≡ (build walk' cluster taken_at ts labels).edges)
      × ((build walk cluster taken_at ss labels).roots
          ≡ (build walk' cluster taken_at ts labels).roots)
  build_deterministic = (same_edges, same_roots)
    where
      same_edges :
          (build walk cluster taken_at ss labels).edges
          ≡ (build walk' cluster taken_at ts labels).edges
      same_edges =
          edges-build walk cluster taken_at ss labels
          ∙ sort-map (key_edge labels) edge_less key_less (edge_less-key_edge labels) (pairs ss)
          ∙ ap (map (key_edge labels))
              (sort-eq_of_perm key_less sort_insert_comm (pairs-perm order))
          ∙ sym
              (sort-map (key_edge labels) edge_less key_less (edge_less-key_edge labels) (pairs ts))
          ∙ sym (edges-build walk' cluster taken_at ts labels)

      same_roots :
          (build walk cluster taken_at ss labels).roots
          ≡ (build walk' cluster taken_at ts labels).roots
      same_roots =
          ascending_ext _ _ (roots-build-IsAscending walk w cluster taken_at ss labels)
            (roots-build-IsAscending walk' w' cluster taken_at ts labels)
            (λ p.
              elem-roots-build walk w cluster taken_at ss labels p
              ∙ ap₂ ◌&&◌ (blocks-perm p order) (ap idle_session (lookup-perm p order u))
              ∙ sym (elem-roots-build walk' w' cluster taken_at ts labels p))
