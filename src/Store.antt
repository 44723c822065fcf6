-- ===== src/Store.antt =====
-- internal/store/store.go: the ring of snapshots and the hub that publishes them.
pub mod Ring
pub mod Hub
pub mod Diff
pub mod Tests
use pglockr.Prelude.{
  ℕ, zero, suc, ◌+◌, ◌-◌, ◌*◌, ◌%◌, Bool, true, false, ◌&&◌, not, List, [], ◌∷◌, ◌++◌, Option, none,
  some, if◌then◌else◌, ltb, nat_beq, length, Answer, ok, err, get_or, set, replicate, lookup,
  insert, delete, nat_eq, Text,
}
use pglockr.Prelude.Int.{ltb_ℤ, pos}
use pglockr.Prelude.Int.{ℤ}
use pglockr.Prelude.Time.{Time, Duration, zero_time, is_zero, sub, neg64, max_duration}
use pglockr.Graph.{Snapshot}

-- `graph.Snapshot{}`
abbrev pub empty_snapshot : Snapshot
empty_snapshot = record {
  cluster = [];
  taken_at = zero_time;
  sessions = [];
  edges = [];
  roots = [];
}

-- `Meta`, the summary of a snapshot on the timeline.
pub record Meta : Type 0 where
  pub taken_at : Time
  pub roots : ℕ
  pub edges : ℕ
  pub sessions : ℕ

-- The read side of the `Persister` interface, at the moment of a call.
pub record Persister : Type 0 where
  pub at : Time → Answer (Option Snapshot)
  pub history : Time → Time → Answer (List Meta)

-- The ring and the persister of `Store`; its subscribers are in Store/Hub.antt.
pub record Store : Type 0 where
  pub buf : List Snapshot
  pub head : ℕ
  pub size : ℕ
  pub cap : ℕ
  pub persist : Option Persister

-- `New`
pub new : ℕ → Store
new ring_size =
    let n = if ltb ring_size 1 then 1 else ring_size in
    record { buf = replicate n empty_snapshot; head = 0; size = 0; cap = n; persist = none }

unfoldable pub set_persister : Option Persister → Store → Store
set_persister p s = record s { persist = p }

-- The part of `Put` under the lock, on the ring.
pub put : Snapshot → Store → Store
put snap s = record s {
  buf = set s.buf s.head snap;
  head = (s.head + 1) % s.cap;
  size = if ltb s.size s.cap then s.size + 1 else s.size;
}

-- `Latest`: `none` stands for the result `false`.
pub latest : Store → Option Snapshot
latest s =
    if nat_beq s.size 0
    then none
    else some (get_or s.buf ((s.head + s.cap - 1) % s.cap) empty_snapshot)

-- The variables of the loop of `At`.
pub record Best : Type 0 where
  pub best : Option Snapshot
  pub best_diff : Duration

-- The body of the loop: the distance, and whether it beats the best one so far.
abbrev pub distance : Time → Time → Duration
distance t u = if ltb_ℤ (sub t u) (pos 0) then neg64 (sub t u) else sub t u

pub consider : Time → Snapshot → Best → Best
consider t snap b =
    let d = distance t snap.taken_at in
    if ltb_ℤ d b.best_diff then record { best = some snap; best_diff = d } else b

-- The loop of `At`, with `n` rounds left, at index `i`: from the newest snapshot to the oldest.
pub nearest_loop : Store → Time → ℕ → ℕ → Best → Best
nearest_loop s t zero i b = b
nearest_loop s t (suc n) i b =
    nearest_loop s t n (i + 1)
      (consider t (get_or s.buf ((s.head + s.cap * 2 - 1 - i) % s.cap) empty_snapshot) b)

pub nearest : Store → Time → Option Snapshot
nearest s t =
    if nat_beq s.size 0
    then none
    else (nearest_loop s t s.size 0 (record { best = none; best_diff = pos max_duration })).best

-- `At`: from the persister, and from the ring if there is none or it fails.
abbrev at_fallback : Answer (Option Snapshot) → Option Snapshot → Option Snapshot
at_fallback (ok found) ring = found
at_fallback (err e) ring = ring

unfoldable pub at : Store → Time → Option Snapshot
at s t = elim s.persist [ none ↦ nearest s t | some p ↦ at_fallback (p.at t) (nearest s t) ]

unfoldable pub meta_of : Snapshot → Meta
meta_of snap = record {
  taken_at = snap.taken_at;
  roots = length snap.roots;
  edges = length snap.edges;
  sessions = length snap.sessions;
}

-- Whether the two tests of `History` let a snapshot pass.
unfoldable pub in_window : Time → Time → Snapshot → Bool
in_window from to snap =
    not (not (is_zero from) && ltb snap.taken_at from)
    && not (not (is_zero to) && ltb to snap.taken_at)

-- The body of the loop of `History`.
pub report : Time → Time → Snapshot → List Meta → List Meta
report from to snap out = if in_window from to snap then out ++ meta_of snap ∷ [] else out

pub history_loop : Store → Time → Time → ℕ → ℕ → List Meta → List Meta
history_loop s from to zero i out = out
history_loop s from to (suc n) i out =
    history_loop s from to n (i + 1)
      (report from to (get_or s.buf ((s.head + s.cap * 2 - s.size + i) % s.cap) empty_snapshot) out)

pub ring_history : Store → Time → Time → List Meta
ring_history s from to = history_loop s from to s.size 0 []

abbrev history_fallback : Answer (List Meta) → List Meta → List Meta
history_fallback (ok metas) ring = metas
history_fallback (err e) ring = ring

-- `History`
pub history : Store → Time → Time → List Meta
history s from to = elim s.persist [
  | none ↦ ring_history s from to
  | some p ↦ history_fallback (p.history from to) (ring_history s from to)
]
