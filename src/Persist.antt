-- ===== src/Persist.antt =====
-- internal/persist/sqlite.go: snapshots kept in SQLite. The database, and the encodings that are
-- called, are interfaces with the laws that SQLite, encoding/json and compress/gzip document.
mod Schema
pub mod Nearest
pub mod Saves
pub mod Kept
pub mod Open
pub mod Timeline
pub mod Trail
pub mod Table
pub mod Tests
pub use Schema.*
use pglockr.Prelude.{
  ℕ, ◌≡◌, sym, ◌∙◌, append-nil, append_assoc, Bool, true, false, not, ◌&&◌, List, [], ◌∷◌, ◌++◌,
  map, Memᴰ, Option, none, some, Answer, ok, err, ◌>>=◌, if◌then◌else◌, length, take, filterb, All,
  wrap_error, Text, codes, lookup, nat_eq,
}
use pglockr.Prelude.Int.{ℤ, pos, negsuc, ltb_ℤ, ◌≤ℤ◌, sub64}
use pglockr.Prelude.Time.{
  Time, Duration, zero_time, is_zero, sub, add, neg64, unix, unix_nano, max_duration,
}
use pglockr.Graph.{Snapshot}
use pglockr.Sorting.{sort}
use pglockr.Sorting.Members.{IsSorted}
use pglockr.Store.{Meta}

-- Two snapshots that differ in nothing but the order of the map of sessions, which Go does not
-- have.
pub record Same (a b : Snapshot) : Type 0 where
  pub clusters : a.cluster ≡ b.cluster
  pub times : a.taken_at ≡ b.taken_at
  pub edges : a.edges ≡ b.edges
  pub roots : a.roots ≡ b.roots
  pub counts : length a.sessions ≡ length b.sessions
  pub sessions : (p : ℕ) → lookup p a.sessions ≡ lookup p b.sessions

-- JSON, and gzip's writer and reader: `gzip_write` is the state of the writer after its one
-- `Write`.
pub record Encoding : Type 0 where
  pub marshal : Snapshot → Answer Bytes
  pub unmarshal : Bytes → Answer Snapshot
  pub gzip_write : Bytes → Answer Bytes
  pub gzip_close : Bytes → Answer Bytes
  pub gzip_open : Bytes → Answer Bytes
  pub read_all : Bytes → Answer Bytes
  pub unmarshal-marshal :
      (x : Snapshot) {raw : Bytes}
      → marshal x ≡ ok raw
      → (y : Snapshot) × (unmarshal raw ≡ ok y) × Same y x
  pub read_all-gzip_close :
      (raw : Bytes) {written blob : Bytes}
      → gzip_write raw ≡ ok written
      → gzip_close written ≡ ok blob
      → (opened : Bytes) × (gzip_open blob ≡ ok opened) × (read_all opened ≡ ok raw)

-- `encode`
pub encode : Encoding → Snapshot → Answer Bytes
encode c snap = do raw ← c.marshal snap; written ← c.gzip_write raw; c.gzip_close written

-- `decode`
pub decode : Encoding → Bytes → Answer Snapshot
decode c blob = do opened ← c.gzip_open blob; raw ← c.read_all opened; c.unmarshal raw

-- The three readings of the clock in `maybePrune`, in their order.
pub record Clock : Type 0 where
  pub since : Time
  pub pruned : Time
  pub cutoff : Time

-- `bestDiff`, `bestData` and `found`
pub record Closest : Type 0 where
  pub best_diff : ℤ
  pub best_data : Bytes
  pub found : Bool

abbrev pub abs64 : ℤ → ℤ
abs64 d = if ltb_ℤ d (pos 0) then neg64 d else d

-- What `consider` does with a row, or without one.
pub consider_row : ℤ → Option (Bytes × ℤ) → Closest → Closest
consider_row target none b = b
consider_row target (some (blob, ts)) b =
    let diff = abs64 (sub64 ts target) in
    if ltb_ℤ diff b.best_diff
    then record { best_diff = diff; best_data = blob; found = true }
    else b

pub nothing_found : Closest
nothing_found = record { best_diff = pos max_duration; best_data = []; found = false }

abbrev pub as_found : Answer Snapshot → Answer (Option Snapshot)
as_found (ok snap) = ok (some snap)
as_found (err e) = err e

-- The rest of `At`, after both queries.
abbrev pub answer : Encoding → Closest → Answer (Option Snapshot)
answer c b = if b.found then as_found (decode c b.best_data) else ok none

abbrev pub lower_bound : Time → ℤ
lower_bound from = if is_zero from then negsuc max_duration else unix_nano from

abbrev pub upper_bound : Time → ℤ
upper_bound to = if is_zero to then pos max_duration else unix_nano to

-- The body of the loop of `History`.
abbrev pub meta_at : Cells → Meta
meta_at r = record {
  taken_at = unix r.taken_at;
  roots = r.roots;
  edges = r.edges;
  sessions = r.sessions;
}

-- `for rows.Next()`, with what a row is scanned into.
pub collect {ℓ κ} : {A : Type ℓ} {B : Type κ} → (A → B) → List A → List B → List B
collect f [] out = out
collect f (r ∷ rs) out = collect f rs (out ++ f r ∷ [])

pub collect_lem {ℓ κ} :
    {A : Type ℓ} {B : Type κ} (f : A → B) (rs : List A) (out : List B)
    → collect f rs out ≡ out ++ map f rs
unfolding collect
collect_lem f [] out = sym (append-nil out)
collect_lem f (r ∷ rs) out =
    collect_lem f rs (out ++ f r ∷ []) ∙ append_assoc out (f r ∷ []) (map f rs)

abbrev pub row_of : Snapshot → Bytes → Row
row_of snap blob = record {
  cluster = snap.cluster;
  taken_at = unix_nano snap.taken_at;
  roots = length snap.roots;
  edges = length snap.edges;
  sessions = length snap.sessions;
  blob = blob;
}

module _ (d : Database) where
  -- `SQLite`, with the database that its pool reaches.
  pub record Sqlite : Type 0 where
    pub db : d.State
    pub retention : Duration
    pub last_prune : Time

  -- The error of the deletion is logged only.
  abbrev pub after_delete : d.State → Answer d.State → d.State
  after_delete old (ok new) = new
  after_delete old (err e) = old

  -- `maybePrune`
  pub maybe_prune : Clock → Sqlite → Sqlite
  maybe_prune now s =
      if not (ltb_ℤ (pos 0) s.retention)
      then s
      else if ltb_ℤ (sub now.since s.last_prune) (pos 60000000000)
      then s
      else record s {
        last_prune = now.pruned;
        db =
            after_delete s.db
              (d.delete_before (unix_nano (add now.cutoff (neg64 s.retention))) s.db);
      }

  -- `Save`
  pub save : Encoding → Clock → Snapshot → Sqlite → Answer Sqlite
  save c now snap s = do
    blob ← wrap_error (codes "encode snapshot: ") (encode c snap)
    db ← wrap_error (codes "insert snapshot: ") (d.insert_snapshot (row_of snap blob) s.db)
    ok (maybe_prune now (record s { db = db }))

  -- `At`
  pub at : Encoding → Sqlite → Time → Answer (Option Snapshot)
  at c s t = do
    under ← d.below (unix_nano t) s.db
    over ← d.above (unix_nano t) s.db
    answer c (consider_row (unix_nano t) over (consider_row (unix_nano t) under nothing_found))

  -- `History`
  pub history : Sqlite → Time → Time → Answer (List Meta)
  history s from to = do
    rows ← d.select_between (lower_bound from) (upper_bound to) s.db
    ok (collect meta_at rows [])
