-- ===== src/Store/Diff/Laws.antt =====
-- Which process ids a diff lists.
use pglockr.Prelude.{
  ℕ, ◌≡◌, refl, ◌∙◌, ap, ◌↔◌, Bool, true, false, ◌||◌, ◌&&◌, not, List, [], ◌∷◌, ◌++◌, Option, none,
  some, arith, nat_beq, nat_beq_iff, lookup, nat_eq, text_beq_iff, elem, elem-append, Distinct,
}
use pglockr.Graph.{Session, Sessions, Snapshot, keys}
use pglockr.Store.Diff.{
  Diff, equal_ints, session_changed, added_loop, compare_one, compare_loop, diff_snapshots,
}

-- Equality is only of the same numbers in the same places.
pub equal_ints_iff : (xs ys : List ℕ) → (equal_ints xs ys ≡ true) ↔ (xs ≡ ys)
unfolding equal_ints
equal_ints_iff [] [] = ground arith
equal_ints_iff [] (y ∷ ys) = ground arith
equal_ints_iff (x ∷ xs) [] = ground arith
equal_ints_iff (x ∷ xs) (y ∷ ys) = ground (arith, equal_ints_iff xs ys)

-- A session counts as unchanged exactly when its state, wait event, root flag, query and blockers
-- are.
abbrev SameView : Session → Session → Type 0
SameView a b =
    (a.state ≡ b.state)
    × (a.wait_event ≡ b.wait_event)
    × (a.wait_event_type ≡ b.wait_event_type)
    × (a.is_root ≡ b.is_root)
    × (a.query ≡ b.query)
    × (a.blocked_by ≡ b.blocked_by)

pub session_changed-eq-false_iff : (a b : Session) → (session_changed a b ≡ false) ↔ SameView a b
unfolding session_changed
session_changed-eq-false_iff a b = ground (
  arith,
  text_beq_iff a.state b.state,
  text_beq_iff a.wait_event b.wait_event,
  text_beq_iff a.wait_event_type b.wait_event_type,
  text_beq_iff a.query b.query,
  equal_ints_iff a.blocked_by b.blocked_by,
)

abbrev present : ℕ → Sessions → Bool
present p [] = false
present p ((q, s) ∷ ss) = nat_beq p q || present p ss

abbrev pub absent : Option Session → Bool
absent none = true
absent (some s) = false

elem-added_loop :
    (p : ℕ) (prev cur : Sessions) (out : List ℕ)
    → elem p (added_loop prev cur out) ≡ elem p out || (present p cur && absent (lookup p prev))
unfolding added_loop
elem-added_loop p prev [] out = ground arith
elem-added_loop p prev ((q, s) ∷ cur) out = ground (
  arith,
  nat_beq_iff p q,
  elem-append p out (q ∷ []),
  elem-added_loop p prev cur out,
  elem-added_loop p prev cur (out ++ q ∷ []),
)

present-lookup : (p : ℕ) (ss : Sessions) → present p ss ≡ not (absent (lookup p ss))
unfolding lookup
present-lookup p [] = refl
present-lookup p ((q, s) ∷ ss) = ground (arith, nat_beq_iff p q, present-lookup p ss)

lookup_of_new : (p : ℕ) (ss : Sessions) → elem p (keys ss) ≡ false → absent (lookup p ss) ≡ true
unfolding lookup keys
lookup_of_new p [] e = refl
lookup_of_new p ((q, s) ∷ ss) e = ground (arith, lookup_of_new p ss)

-- What the loop adds for a session before and after.
abbrev pub moved : Option Session → Option Session → Bool
moved none o = false
moved (some a) none = false
moved (some a) (some b) = session_changed a b

elem-removed_one :
    (p q : ℕ) (s : Session) (o : Option Session) (d : Diff)
    → elem p (compare_one q s o d).removed ≡ elem p d.removed || (nat_beq p q && absent o)
unfolding compare_one
elem-removed_one p q s none d = ground (arith, elem-append p d.removed (q ∷ []))
elem-removed_one p q s (some t) d = ground arith

elem-changed_one :
    (p q : ℕ) (s : Session) (o : Option Session) (d : Diff)
    → elem p (compare_one q s o d).changed ≡ elem p d.changed || (nat_beq p q && moved (some s) o)
unfolding compare_one
elem-changed_one p q s none d = ground arith
elem-changed_one p q s (some t) d = ground (arith, elem-append p d.changed (q ∷ []))

elem-removed_loop :
    (p : ℕ) (prev cur : Sessions) (d : Diff)
    → elem p (compare_loop prev cur d).removed
      ≡ elem p d.removed || (present p prev && absent (lookup p cur))
unfolding compare_loop
elem-removed_loop p [] cur d = ground arith
elem-removed_loop p ((q, s) ∷ prev) cur d = ground (
  arith,
  nat_beq_iff p q,
  elem-removed_one p q s (lookup q cur) d,
  elem-removed_loop p prev cur (compare_one q s (lookup q cur) d),
)

elem-changed_loop :
    (p : ℕ) (prev cur : Sessions) (d : Diff)
    → Distinct (keys prev)
    → elem p (compare_loop prev cur d).changed
      ≡ elem p d.changed || moved (lookup p prev) (lookup p cur)
unfolding compare_loop lookup keys
elem-changed_loop p [] cur d u = ground arith
elem-changed_loop p ((q, s) ∷ prev) cur d (n, u) = ground (
  arith,
  nat_beq_iff p q,
  lookup_of_new p prev,
  elem-changed_one p q s (lookup q cur) d,
  elem-changed_loop p prev cur (compare_one q s (lookup q cur) d) u,
)

added_one :
    (q : ℕ) (s : Session) (o : Option Session) (d : Diff) → (compare_one q s o d).added ≡ d.added
unfolding compare_one
added_one q s none d = refl
added_one q s (some t) d = ground arith

added_compare : (prev cur : Sessions) (d : Diff) → (compare_loop prev cur d).added ≡ d.added
unfolding compare_loop
added_compare [] cur d = refl
added_compare ((q, s) ∷ prev) cur d =
    added_compare prev cur (compare_one q s (lookup q cur) d) ∙ added_one q s (lookup q cur) d

-- If the earlier snapshot has no process id twice, a diff lists as added the process ids that
-- only the later snapshot has, as removed those that only the earlier one has, and as changed
-- those whose session looks different.
pub diff_snapshots_lem :
    (prev cur : Snapshot) (p : ℕ)
    → Distinct (keys prev.sessions)
    → (elem p (diff_snapshots prev cur).added
        ≡ not (absent (lookup p cur.sessions)) && absent (lookup p prev.sessions))
      × (elem p (diff_snapshots prev cur).removed
          ≡ not (absent (lookup p prev.sessions)) && absent (lookup p cur.sessions))
      × (elem p (diff_snapshots prev cur).changed
          ≡ moved (lookup p prev.sessions) (lookup p cur.sessions))
unfolding diff_snapshots
diff_snapshots_lem prev cur p u =
    let fresh : List ℕ = added_loop prev.sessions cur.sessions [] in
    let d : Diff = record { added = fresh; removed = []; changed = [] } in
    (
      ap (elem p) (added_compare prev.sessions cur.sessions d)
          ∙ elem-added_loop p prev.sessions cur.sessions []
          ∙ ap (λ b. b && absent (lookup p prev.sessions)) (present-lookup p cur.sessions),
      elem-removed_loop p prev.sessions cur.sessions d
          ∙ ap (λ b. b && absent (lookup p cur.sessions)) (present-lookup p prev.sessions),
      elem-changed_loop p prev.sessions cur.sessions d u,
    )
