-- ===== src/Store/Ring.antt =====
-- The ring as the list of the snapshots that it retains, oldest first.
pub mod Window
pub mod Refine
pub mod Queries
pub mod Nearest
use pglockr.Prelude.{
  ℕ, ◌+◌, ◌-◌, ◌*◌, ◌≤◌, ◌<◌, ◌≡◌, List, length, replicate, length-replicate, length-set, arith,
  if◌then◌else◌,
}
use pglockr.Graph.{Snapshot}
use pglockr.Store.{Store, empty_snapshot, new, put, set_persister}
use Window.{window}

pub record IsValid (s : Store) : Type 0 where
  pub storage : length s.buf ≡ s.cap
  pub head_in : s.head < s.cap
  pub size_in : s.size ≤ s.cap

-- The snapshots that the store retains, oldest first.
abbrev pub contents : Store → List Snapshot
contents s = window s.buf s.cap (s.head + s.cap - s.size) s.size

pub new-IsValid : (n : ℕ) → IsValid (new n)
unfolding new
new-IsValid n = ground (arith, length-replicate 1 empty_snapshot, length-replicate n empty_snapshot)

-- A valid ring stays valid when a snapshot is put into it: its indices stay inside its storage, and
-- it never holds more than its capacity.
pub put-IsValid : (x : Snapshot) {s : Store} → IsValid s → IsValid (put x s)
unfolding put
put-IsValid x {s} v = ground (arith, length-set s.buf s.head x)
