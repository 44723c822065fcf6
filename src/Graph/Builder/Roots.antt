-- ===== src/Graph/Builder/Roots.antt =====
-- The roots of a snapshot are the head blockers, each once, and the sessions are marked so.
use pglockr.Prelude.{
  ℕ, ◌≡◌, refl, ◌∙◌, ap, Bool, true, false, ◌||◌, ◌&&◌, List, [], ◌∷◌, Option, none, some, arith,
  Text, elem, elem-append, Distinct, Distinct-concat, IsAscending, lookup, lookup-insert, nat_eq,
  nat_beq, nat_beq_iff,
}
use mathlib.Core.Option
use pglockr.Prelude.Time.{Time}
use pglockr.Sorting.Ints.{elem-sort, sort-IsAscending}
use pglockr.Graph.{Session, Sessions}
use pglockr.Graph.Builder.{
  Labels, Marking, is_nil, mark_found, mark_one, mark_roots, build, scan_sessions,
}
use pglockr.Graph.Builder.Collect.{blocks, elem-scan_sessions, scan_sessions-Distinct}

abbrev pub idle_session : Option Session → Bool
idle_session none = false
idle_session (some s) = is_nil s.blocked_by

-- `p` is a session that waits for nobody.
abbrev pub waits_for_nobody : Sessions → ℕ → Bool
waits_for_nobody ss p = idle_session (lookup p ss)

-- The flag that the second loop sets.
abbrev pub mark : Bool → Session → Session
mark b s = record s { is_root = s.is_root || (b && is_nil s.blocked_by) }

module _ (q : ℕ) (m : Marking) where
  lookup-mark_found :
      (p : ℕ) (o : Option Session)
      → lookup q m.sessions ≡ o
      → lookup p (mark_found q o m).sessions ≡ Option.map (mark (nat_beq p q)) (lookup p m.sessions)
  unfolding mark_found
  lookup-mark_found p none e = ground (arith, nat_beq_iff p q)
  lookup-mark_found p (some s) e =
      ground (arith, lookup-insert q p (record s { is_root = true }) m.sessions, nat_beq_iff p q)

  lookup-mark_one :
      (p : ℕ)
      → lookup p (mark_one q m).sessions ≡ Option.map (mark (nat_beq p q)) (lookup p m.sessions)
  unfolding mark_one
  lookup-mark_one p = lookup-mark_found p (lookup q m.sessions) refl

  waits-mark_one :
      (p : ℕ) → waits_for_nobody (mark_one q m).sessions p ≡ waits_for_nobody m.sessions p
  waits-mark_one p = ground (arith, lookup-mark_one p)

  elem-mark_one :
      (p : ℕ)
      → elem p (mark_one q m).roots
        ≡ elem p m.roots || (nat_beq p q && waits_for_nobody m.sessions p)
  unfolding mark_one
  elem-mark_one p = ground (arith, elem-append p m.roots (q ∷ []), nat_beq_iff p q)

  mark_one-Distinct : Distinct m.roots → elem q m.roots ≡ false → Distinct (mark_one q m).roots
  unfolding mark_one
  mark_one-Distinct d h = ground (arith, Distinct-concat m.roots q d h)

elem-mark_roots :
    (p : ℕ) (ks : List ℕ) (m : Marking)
    → elem p (mark_roots ks m).roots
      ≡ elem p m.roots || (elem p ks && waits_for_nobody m.sessions p)
unfolding mark_roots
elem-mark_roots p [] m = ground arith
elem-mark_roots p (k ∷ ks) m =
    ground (arith, elem-mark_roots p ks (mark_one k m), elem-mark_one k m p, waits-mark_one k m p)

mark_twice : (a b : Bool) (s : Session) → mark a (mark b s) ≡ mark (b || a) s
mark_twice a b s = ground arith

lookup-mark_roots :
    (p : ℕ) (ks : List ℕ) (m : Marking)
    → lookup p (mark_roots ks m).sessions ≡ Option.map (mark (elem p ks)) (lookup p m.sessions)
unfolding mark_roots
lookup-mark_roots p [] m = ground arith
lookup-mark_roots p (k ∷ ks) m =
    ground (arith, lookup-mark_roots p ks (mark_one k m), lookup-mark_one k m p)

mark_roots-Distinct :
    (ks : List ℕ) (m : Marking)
    → Distinct ks
    → Distinct m.roots
    → ((p : ℕ) → elem p ks ≡ true → elem p m.roots ≡ false)
    → Distinct (mark_roots ks m).roots
unfolding mark_roots
mark_roots-Distinct [] m d e h = e
mark_roots-Distinct (k ∷ ks) m (n, d) e h =
    mark_roots-Distinct ks (mark_one k m) d (mark_one-Distinct k m e (h k (ground arith)))
      (λ p i. ground (arith, elem-mark_one k m p, h p, nat_beq_iff p k))

-- What Go says of `range` over a map: every key is visited, and visited once.
pub record IsWalk (walk : List ℕ → List ℕ) : Type 0 where
  pub visits : (p : ℕ) (ks : List ℕ) → elem p (walk ks) ≡ elem p ks
  pub once : (ks : List ℕ) → Distinct ks → Distinct (walk ks)

module _ (walk : List ℕ → List ℕ) (w : IsWalk walk) (cluster : Text) (taken_at : Time)
    (ss : Sessions) (labels : Labels) where
  abbrev blockers : List ℕ
  blockers = (scan_sessions labels ss (record { edges = []; is_blocker = [] })).is_blocker

  abbrev start : Marking
  start = record { sessions = ss; roots = [] }

  elem-walk : (p : ℕ) → elem p (walk blockers) ≡ blocks ss p
  elem-walk p = w.visits p blockers ∙ elem-scan_sessions labels p ss _

  -- If the range over the blockers visits every one of them, and none twice, a process id is a
  -- root exactly when some session waits for it and it is itself a session that waits for
  -- nobody.
  pub elem-roots-build :
      (p : ℕ)
      → elem p (build walk cluster taken_at ss labels).roots ≡ blocks ss p && waits_for_nobody ss p
  unfolding build
  elem-roots-build p =
      elem-sort p _
      ∙ elem-mark_roots p (walk blockers) start
      ∙ ap (λ b. b && waits_for_nobody ss p) (elem-walk p)

  -- If the range over the blockers visits every one of them, and none twice, the roots are
  -- strictly ascending, so none is listed twice.
  pub roots-build-IsAscending : IsAscending (build walk cluster taken_at ss labels).roots
  unfolding build
  roots-build-IsAscending = sort-IsAscending _ (
      mark_roots-Distinct (walk blockers) start
        (w.once blockers (scan_sessions-Distinct labels ss _ tt)) tt (λ p h. refl))

  -- If the range over the blockers visits every one of them, and none twice, `Build` changes
  -- nothing of a session but its root flag, which it sets on the sessions that somebody waits
  -- for and that wait for nobody, and leaves alone on the others.
  pub lookup-sessions-build :
      (p : ℕ)
      → lookup p (build walk cluster taken_at ss labels).sessions
        ≡ Option.map (mark (blocks ss p)) (lookup p ss)
  unfolding build
  lookup-sessions-build p =
      lookup-mark_roots p (walk blockers) start
      ∙ ap (λ b. Option.map (mark b) (lookup p ss)) (elem-walk p)
