-- ===== src/Graph/Builder/Edges.antt =====
-- The edges of a snapshot are the confirmed pairs, labelled, in ascending order.
use pglockr.Prelude.{
  ℕ, ◌≡◌, sym, ◌∙◌, ap, ap₂, subst, inl, inr, ◌↔◌, true, false, List, [], ◌∷◌, map, Memᴰ, arith,
  Option, none, some, lookup, Text,
}
use mathlib.Core.List.Memᴰ
use pglockr.Prelude.Time.{Time}
use pglockr.Sorting.{sort}
use pglockr.Sorting.Members.{mem-sort_iff, IsSorted, sort-IsSorted}
use pglockr.Graph.{Session, Sessions, Edge, EdgeKey, key_eq}
use pglockr.Graph.Builder.{LockLabel, Labels, build, label_edge, bare_edge, put_label, edge_less}
use pglockr.Graph.Builder.Collect.{pairs_of, pairs, key_edge, edges-scan_sessions}

pub label_edge-pids :
    (labels : Labels) (w b : ℕ)
    → ((label_edge labels w b).waiter_pid ≡ w) × ((label_edge labels w b).blocker_pid ≡ b)
unfolding label_edge
label_edge-pids labels w b = ground arith

-- Session `w` is there and waits for `b`.
abbrev pub Confirmed : Sessions → ℕ → ℕ → Type 0
Confirmed ss w b = (s : Session) × Memᴰ (w, s) ss × Memᴰ b s.blocked_by

-- What an edge says of the lock when its pair has this label, or none.
abbrev pub Labelled : Option LockLabel → Edge → Type 0
Labelled none e =
    (e.lock_type ≡ []) × (e.relation ≡ []) × (e.waiter_mode ≡ []) × (e.blocker_mode ≡ [])
Labelled (some l) e =
    (e.lock_type ≡ l.lock_type)
    × (e.relation ≡ l.relation)
    × (e.waiter_mode ≡ l.waiter_mode)
    × (e.blocker_mode ≡ l.blocker_mode)

Labelled-put_label :
    (o : Option LockLabel) (e : Edge)
    → e ≡ put_label (bare_edge e.waiter_pid e.blocker_pid) o ↔ Labelled o e
Labelled-put_label none e = (
  λ h. (
    ap (λ (x : Edge). x.lock_type) h,
    ap (λ (x : Edge). x.relation) h,
    ap (λ (x : Edge). x.waiter_mode) h,
    ap (λ (x : Edge). x.blocker_mode) h,
  ),
  λ (a, b, c, d). cc (a, b, c, d),
)
Labelled-put_label (some l) e = (
  λ h. (
    ap (λ (x : Edge). x.lock_type) h,
    ap (λ (x : Edge). x.relation) h,
    ap (λ (x : Edge). x.waiter_mode) h,
    ap (λ (x : Edge). x.blocker_mode) h,
  ),
  λ (a, b, c, d). cc (a, b, c, d),
)

Labelled-label_edge :
    (labels : Labels) (e : Edge)
    → e ≡ label_edge labels e.waiter_pid e.blocker_pid
      ↔ Labelled
          (lookup (record { waiter_pid = e.waiter_pid; blocker_pid = e.blocker_pid }) labels)
          e
unfolding label_edge
Labelled-label_edge labels e = Labelled-put_label (lookup _ labels) e

mem-pairs_of :
    (w : ℕ) (k : EdgeKey) (bs : List ℕ)
    → Memᴰ k (pairs_of w bs)
    → (k.waiter_pid ≡ w) × Memᴰ k.blocker_pid bs
mem-pairs_of w k [] m = elim m [ ]
mem-pairs_of w k (b ∷ bs) (Memᴰ.head e) =
    (ap (λ (j : EdgeKey). j.waiter_pid) e, Memᴰ.head (ap (λ (j : EdgeKey). j.blocker_pid) e))
mem-pairs_of w k (b ∷ bs) (Memᴰ.tail m) = let (e, n) = mem-pairs_of w k bs m in (e, Memᴰ.tail n)

pairs_of-mem :
    (w : ℕ) (b : ℕ) (bs : List ℕ)
    → Memᴰ b bs
    → Memᴰ (record { waiter_pid = w; blocker_pid = b }) (pairs_of w bs)
pairs_of-mem w b [] m = elim m [ ]
pairs_of-mem w b (c ∷ bs) (Memᴰ.head e) =
    Memᴰ.head (ap (λ x. record { waiter_pid = w; blocker_pid = x }) e)
pairs_of-mem w b (c ∷ bs) (Memᴰ.tail m) = Memᴰ.tail (pairs_of-mem w b bs m)

pairs→Confirmed :
    (ss : Sessions) (k : EdgeKey) → Memᴰ k (pairs ss) → Confirmed ss k.waiter_pid k.blocker_pid
pairs→Confirmed [] k m = elim m [ ]
pairs→Confirmed ((w, s) ∷ ss) k m = elim (Memᴰ.append_cases (pairs_of w s.blocked_by) m) [
  | inl here ↦
      let (e, n) = mem-pairs_of w k s.blocked_by here in (s, Memᴰ.head (ap (λ x. (x, s)) e), n)
  | inr later ↦ let (t, n, h) = pairs→Confirmed ss k later in (t, Memᴰ.tail n, h)
]

Confirmed→pairs :
    (w b : ℕ) (s : Session) (ss : Sessions)
    → Memᴰ (w, s) ss
    → Memᴰ b s.blocked_by
    → Memᴰ (record { waiter_pid = w; blocker_pid = b }) (pairs ss)
Confirmed→pairs w b s [] m h = elim m [ ]
Confirmed→pairs w b s ((v, t) ∷ ss) (Memᴰ.head e) h = Memᴰ.append_left (pairs ss) (
    subst
      (λ (x : ℕ × Session).
        Memᴰ (record { waiter_pid = w; blocker_pid = b }) (pairs_of x.0 x.1.blocked_by))
      e (pairs_of-mem w b s.blocked_by h))
Confirmed→pairs w b s ((v, t) ∷ ss) (Memᴰ.tail m) h =
    Memᴰ.append_right (pairs_of v t.blocked_by) (Confirmed→pairs w b s ss m h)

module _ (walk : List ℕ → List ℕ) (cluster : Text) (taken_at : Time) (ss : Sessions)
    (labels : Labels) where
  pub edges-build :
      (build walk cluster taken_at ss labels).edges
      ≡ sort edge_less (map (key_edge labels) (pairs ss))
  unfolding build
  edges-build =
      ap (sort edge_less) (edges-scan_sessions labels ss (record { edges = []; is_blocker = [] }))

  edge→Confirmed :
      (e : Edge)
      → Memᴰ e (map (key_edge labels) (pairs ss))
      → Confirmed ss e.waiter_pid e.blocker_pid × (e ≡ label_edge labels e.waiter_pid e.blocker_pid)
  edge→Confirmed e m =
      let (k, n, same) = Memᴰ.of_map (key_edge labels) (pairs ss) m in
      let (ew, eb) = label_edge-pids labels k.waiter_pid k.blocker_pid in
      let w : k.waiter_pid ≡ e.waiter_pid = sym ew ∙ ap (λ (x : Edge). x.waiter_pid) same in
      let b : k.blocker_pid ≡ e.blocker_pid = sym eb ∙ ap (λ (x : Edge). x.blocker_pid) same in
      (
        subst (λ x. Confirmed ss x e.blocker_pid) w
            (subst (λ x. Confirmed ss k.waiter_pid x) b (pairs→Confirmed ss k n)),
        sym same ∙ ap₂ (label_edge labels) w b,
      )

  -- An edge is in the snapshot exactly when its waiter is a session that its blocker blocks, and
  -- its four texts on the lock are those of the label of its pair, waiter before blocker, if the
  -- map has one, and all empty else. This holds for every order of the maps.
  pub mem-edges-build_iff :
      (e : Edge)
      → Memᴰ e (build walk cluster taken_at ss labels).edges ↔ (
          Confirmed ss e.waiter_pid e.blocker_pid
          × Labelled
              (lookup (record { waiter_pid = e.waiter_pid; blocker_pid = e.blocker_pid }) labels)
              e)
  mem-edges-build_iff e = (to, from)
    where
      label : Option LockLabel
      label = lookup (record { waiter_pid = e.waiter_pid; blocker_pid = e.blocker_pid }) labels

      to :
          Memᴰ e (build walk cluster taken_at ss labels).edges
          → Confirmed ss e.waiter_pid e.blocker_pid × Labelled label e
      to m =
          let (confirmed, same) =
            edge→Confirmed e ((mem-sort_iff edge_less e _).0 (rw edges-build at m)) in
          (confirmed, (Labelled-label_edge labels e).0 same)

      from :
          Confirmed ss e.waiter_pid e.blocker_pid × Labelled label e
          → Memᴰ e (build walk cluster taken_at ss labels).edges
      from ((s, m, h), labelled) = rw edges-build (
          (mem-sort_iff edge_less e _).1 (
            Memᴰ.cast ((Labelled-label_edge labels e).1 labelled)
              (Memᴰ.map (key_edge labels) (Confirmed→pairs e.waiter_pid e.blocker_pid s ss m h))))

  edge_less_asym : (a b : Edge) → edge_less a b ≡ true → edge_less b a ≡ false
  edge_less_asym a b h = ground arith

  edge_less_trans :
      (a b c : Edge) → edge_less b a ≡ false → edge_less c b ≡ false → edge_less c a ≡ false
  edge_less_trans a b c h k = ground arith

  -- The edges of a snapshot ascend by waiter and, for one waiter, by blocker.
  pub edges-build-IsSorted : IsSorted edge_less (build walk cluster taken_at ss labels).edges
  edges-build-IsSorted =
      rw edges-build
        (sort-IsSorted edge_less edge_less_asym edge_less_trans (map (key_edge labels) (pairs ss)))
