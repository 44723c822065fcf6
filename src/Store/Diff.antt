-- ===== src/Store/Diff.antt =====
-- internal/store/diff.go: how the sessions of two snapshots differ.
pub mod Laws
use pglockr.Prelude.{
  ℕ, Bool, true, false, ◌||◌, ◌&&◌, not, List, [], ◌∷◌, ◌++◌, Option, none, some, if◌then◌else◌,
  nat_beq, lookup, nat_eq, text_beq,
}
use pglockr.Graph.{Session, Sessions, Snapshot}

pub record Diff : Type 0 where
  pub added : List ℕ
  pub removed : List ℕ
  pub changed : List ℕ

abbrev bool_beq : Bool → Bool → Bool
bool_beq true b = b
bool_beq false b = not b

-- The loop of `equalInts` compares the elements after their number.
pub equal_ints : List ℕ → List ℕ → Bool
equal_ints [] [] = true
equal_ints [] (b ∷ bs) = false
equal_ints (a ∷ as') [] = false
equal_ints (a ∷ as') (b ∷ bs) = nat_beq a b && equal_ints as' bs

pub session_changed : Session → Session → Bool
session_changed a b =
    if not (text_beq a.state b.state)
      || not (text_beq a.wait_event b.wait_event)
      || not (text_beq a.wait_event_type b.wait_event_type)
      || not (bool_beq a.is_root b.is_root)
      || not (text_beq a.query b.query)
    then true
    else not (equal_ints a.blocked_by b.blocked_by)

-- `for pid := range cur.Sessions`
abbrev is_missing : Option Session → Bool
is_missing none = true
is_missing (some s) = false

pub added_loop : Sessions → Sessions → List ℕ → List ℕ
added_loop prev [] out = out
added_loop prev ((pid, s) ∷ cur) out =
    added_loop prev cur (if is_missing (lookup pid prev) then out ++ pid ∷ [] else out)

-- The body of the second loop.
pub compare_one : ℕ → Session → Option Session → Diff → Diff
compare_one pid ps none d = record d { removed = d.removed ++ pid ∷ [] }
compare_one pid ps (some cs) d =
    if session_changed ps cs then record d { changed = d.changed ++ pid ∷ [] } else d

-- `for pid, ps := range prev.Sessions`
pub compare_loop : Sessions → Sessions → Diff → Diff
compare_loop [] cur d = d
compare_loop ((pid, ps) ∷ prev) cur d =
    compare_loop prev cur (compare_one pid ps (lookup pid cur) d)

pub diff_snapshots : Snapshot → Snapshot → Diff
diff_snapshots prev cur =
    compare_loop prev.sessions cur.sessions
      (record { added = added_loop prev.sessions cur.sessions []; removed = []; changed = [] })
