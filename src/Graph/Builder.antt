-- ===== src/Graph/Builder.antt =====
-- internal/graph/builder.go: `Build` turns sessions and lock labels into a wait-for forest.
pub mod Collect
pub mod Edges
pub mod Roots
pub mod Order
pub mod Tests
use pglockr.Prelude.{
  ℕ, Bool, true, false, List, [], ◌∷◌, ◌++◌, Option, none, some, Text, if◌then◌else◌, elem, ltb,
  lookup, insert, Eq, nat_eq, nat_beq,
}
use pglockr.Prelude.Time.{Time}
use pglockr.Sorting.{sort}
use pglockr.Graph.{Session, Sessions, Edge, EdgeKey, Snapshot, key_eq}

pub record LockLabel : Type 0 where
  pub lock_type : Text
  pub relation : Text
  pub waiter_mode : Text
  pub blocker_mode : Text

-- The map of labels.
abbrev pub Labels : Type 0
Labels = List (EdgeKey × LockLabel)

-- The edge of a confirmed pair, with the label of that pair if there is one.
abbrev pub bare_edge : ℕ → ℕ → Edge
bare_edge w b = record {
  waiter_pid = w;
  blocker_pid = b;
  lock_type = [];
  relation = [];
  waiter_mode = [];
  blocker_mode = [];
}

abbrev pub put_label : Edge → Option LockLabel → Edge
put_label e none = e
put_label e (some l) = record e {
  lock_type = l.lock_type;
  relation = l.relation;
  waiter_mode = l.waiter_mode;
  blocker_mode = l.blocker_mode;
}

unfoldable pub label_edge : Labels → ℕ → ℕ → Edge
label_edge labels w b =
    put_label (bare_edge w b) (lookup (record { waiter_pid = w; blocker_pid = b }) labels)

-- The two results of the first loop. `isBlocker` is a set of process ids.
pub record Scan : Type 0 where
  pub edges : List Edge
  pub is_blocker : List ℕ

abbrev add_blocker : ℕ → List ℕ → List ℕ
add_blocker b bs = if elem b bs then bs else bs ++ b ∷ []

-- The body of the inner loop.
abbrev pub scan_one : Labels → ℕ → ℕ → Scan → Scan
scan_one labels pid blocker acc = record {
  edges = acc.edges ++ label_edge labels pid blocker ∷ [];
  is_blocker = add_blocker blocker acc.is_blocker;
}

-- `for _, blocker := range s.BlockedBy`
pub scan_blockers : Labels → ℕ → List ℕ → Scan → Scan
scan_blockers labels pid [] acc = acc
scan_blockers labels pid (blocker ∷ bs) acc =
    scan_blockers labels pid bs (scan_one labels pid blocker acc)

-- `for pid, s := range sessions`
pub scan_sessions : Labels → Sessions → Scan → Scan
scan_sessions labels [] acc = acc
scan_sessions labels ((pid, s) ∷ ss) acc =
    scan_sessions labels ss (scan_blockers labels pid s.blocked_by acc)

-- The state of the second loop.
pub record Marking : Type 0 where
  pub sessions : Sessions
  pub roots : List ℕ

abbrev is_nil : List ℕ → Bool
is_nil [] = true
is_nil (x ∷ xs) = false

mark_found : ℕ → Option Session → Marking → Marking
mark_found pid none m = m
mark_found pid (some s) m =
    if is_nil s.blocked_by
    then record {
      sessions = insert pid (record s { is_root = true }) m.sessions;
      roots = m.roots ++ pid ∷ [];
    }
    else m

mark_one : ℕ → Marking → Marking
unfolding mark_found
mark_one pid m = mark_found pid (lookup pid m.sessions) m

-- `for pid := range isBlocker`
pub mark_roots : List ℕ → Marking → Marking
mark_roots [] m = m
mark_roots (pid ∷ ps) m = mark_roots ps (mark_one pid m)

-- The order of `sort.Slice`: by waiter, then by blocker.
abbrev pub edge_less : Edge → Edge → Bool
edge_less a b =
    if nat_beq a.waiter_pid b.waiter_pid
    then ltb a.blocker_pid b.blocker_pid
    else ltb a.waiter_pid b.waiter_pid

-- `walk` is the order in which `range isBlocker` visits the keys of that map.
pub build : (List ℕ → List ℕ) → Text → Time → Sessions → Labels → Snapshot
build walk cluster taken_at sessions labels =
    let found = scan_sessions labels sessions (record { edges = []; is_blocker = [] }) in
    let marked = mark_roots (walk found.is_blocker) (record { sessions = sessions; roots = [] }) in
    record {
      cluster = cluster;
      taken_at = taken_at;
      sessions = marked.sessions;
      edges = sort edge_less found.edges;
      roots = sort ltb marked.roots;
    }
