-- ===== src/Api/Past.antt =====
-- `GET /api/snapshot?at=…` with the history of SQLite behind the store.
use pglockr.Prelude.{
  ℕ, ◌≡◌, refl, ◌⊎◌, inl, inr, List, [], ◌∷◌, Memᴰ, Option, none, some, ok, err, Text, arith, ◌+◌,
  ◌-◌, ◌≤◌, ◌<◌, All, All-mem, All-of_mem, ap, subst, ◌∙◌,
}
use pglockr.Prelude.Int.{ℤ, dist}
use pglockr.Prelude.Time.{
  Time, max_duration, unix, unix_nano, IsUnix, unix_nano-IsUnix, unix-unix_nano,
}
use pglockr.Graph.{Snapshot}
use pglockr.Store.{Store, Persister, set_persister, at, nearest}
use pglockr.Persist as Sql
use pglockr.Persist.{Bytes, Row, Database, Encoding, Sqlite, Clock, Same}
use pglockr.Persist.Nearest.{InReach, IsClosest}
use pglockr.Persist.Kept.{save_each, saved_of, at-save_each}
use pglockr.Api.{Response, reply, no_body, one_snapshot, handle_snapshot, found_or}

-- `SQLite` as the `store.Persister` of the store.
abbrev pub persister : (d : Database) → Encoding → Sqlite d → Persister
persister d c s = record { at = Sql.at d c s; history = Sql.history d s }

-- What the route answers at an instant is what the database finds.
handle_snapshot-persister :
    (parse_time : Text → Option Time) (p : Persister) (s : Store) (b : ℕ) (when : Text) (t : Time)
    (found : Option Snapshot)
    → parse_time (b ∷ when) ≡ some t
    → p.at t ≡ ok found
    → handle_snapshot parse_time (b ∷ when) (set_persister (some p) s) ≡ found_or 404 found
unfolding handle_snapshot at set_persister
handle_snapshot-persister parse_time p s b when t found h e = rw (h, e) refl

-- If the database fails, the answer is from the ring.
pub handle_snapshot-ring :
    (parse_time : Text → Option Time) (p : Persister) (s : Store) (b : ℕ) (when : Text) (t : Time)
    (e : Text)
    → parse_time (b ∷ when) ≡ some t
    → p.at t ≡ err e
    → handle_snapshot parse_time (b ∷ when) (set_persister (some p) s)
      ≡ found_or 404 (nearest (set_persister (some p) s) t)
unfolding handle_snapshot at set_persister
handle_snapshot-ring parse_time p s b when t e h f = rw (h, f) refl

-- The nanoseconds between two instants.
abbrev pub gap : Time → Time → ℕ
gap t u = t - u + (u - t)

gap-unix :
    (t : Time) (n : ℤ)
    → IsUnix t
    → dist n (unix_nano t) < max_duration
    → gap (unix n) t ≡ dist n (unix_nano t)
gap-unix t n u h = rw (unix_nano-IsUnix t u) (ground (arith, u, rw (unix_nano-IsUnix t u) at h))

-- No row is of an instant that is closer to `t` than `u` is.
abbrev pub IsNearest : Time → List Row → Time → Type 0
IsNearest t rows u = All (λ (q : Row). gap u t ≤ gap (unix q.taken_at) t) rows

IsClosest-IsNearest :
    (t u : Time) (rows : List Row) (r : Row)
    → IsUnix t
    → IsUnix u
    → r.taken_at ≡ unix_nano u
    → Memᴰ r rows
    → InReach (unix_nano t) rows
    → IsClosest (unix_nano t) rows r
    → IsNearest t rows u
IsClosest-IsNearest t u rows r ut uu k m reach near = All-of_mem _ rows each
  where
    InRange : Row → Type 0
    InRange q = dist q.taken_at (unix_nano t) < max_duration

    gap_of : (q : Row) → Memᴰ q rows → gap (unix q.taken_at) t ≡ dist q.taken_at (unix_nano t)
    gap_of q n = gap-unix t q.taken_at ut (All-mem InRange rows reach n)

    same : unix r.taken_at ≡ u
    same = ap unix k ∙ unix-unix_nano u uu

    each : (q : Row) → Memᴰ q rows → gap u t ≤ gap (unix q.taken_at) t
    each q n =
        subst (λ v. gap v t ≤ gap (unix q.taken_at) t) same
          (ground (
            arith,
            gap_of r m,
            gap_of q n,
            All-mem (λ (q : Row). dist r.taken_at (unix_nano t) ≤ dist q.taken_at (unix_nano t))
                rows near n,
          ))

-- The route answers 404 if the table is empty; else 200 with a snapshot that was saved, up to the
-- order of the map of sessions, than which no row of the table is closer to the instant.
abbrev pub ServesSaved :
    (d : Database) → Encoding → List (Clock × Snapshot) → Sqlite d → Time → Response → Type 0
ServesSaved d c xs s t response =
    ((d.snapshots (save_each d c xs s).db ≡ []) × (response ≡ reply 404 no_body))
    ⊎ ((x : Snapshot) × (y : Snapshot) × (r : Row) × Memᴰ x (saved_of xs)
        × Memᴰ r (d.snapshots (save_each d c xs s).db)
        × (unix r.taken_at ≡ x.taken_at)
        × IsNearest t (d.snapshots (save_each d c xs s).db) x.taken_at
        × (response ≡ reply 200 (one_snapshot y))
        × Same y x)

-- With SQLite behind the store, after any saves on an empty table, failed ones and deletions among
-- them, and whatever the ring holds: when the query parses as an instant, that instant and those
-- of the saved snapshots are ones that `UnixNano` can represent (the years 1678 to 2261), neither
-- query of the table fails and every row is within the range of a duration from the instant,
-- `GET /api/snapshot?at=…` answers 404 if the table is empty; else 200 with a saved snapshot whose
-- row is in the table, up to the order of the map of sessions, and no row of the table is of an
-- instant that is closer to the one asked for.
pub handle_snapshot-save_each :
    (parse_time : Text → Option Time) (b : ℕ) (when : Text) (t : Time) (d : Database) (c : Encoding)
    (xs : List (Clock × Snapshot)) (s : Sqlite d) (ring : Store) {under over : Option (Bytes × ℤ)}
    → parse_time (b ∷ when) ≡ some t
    → IsUnix t
    → All (λ (x : Snapshot). IsUnix x.taken_at) (saved_of xs)
    → d.snapshots s.db ≡ []
    → d.below (unix_nano t) (save_each d c xs s).db ≡ ok under
    → d.above (unix_nano t) (save_each d c xs s).db ≡ ok over
    → InReach (unix_nano t) (d.snapshots (save_each d c xs s).db)
    → ServesSaved d c xs s t (
        handle_snapshot parse_time
          (b ∷ when)
          (set_persister (some (persister d c (save_each d c xs s))) ring))
handle_snapshot-save_each parse_time b when t d c xs s ring h ut us empty u o reach =
    let p : Persister = persister d c (save_each d c xs s) in
    elim (at-save_each d c xs s t empty u o reach) [
      | inl (rows, e) ↦ inl (rows, handle_snapshot-persister parse_time p ring b when t none h e)
      | inr (x, y, r, m, n, k, near, e, same) ↦ inr (
        x,
        y,
        r,
        m,
        n,
        ap unix k ∙ unix-unix_nano x.taken_at (unix_of x m),
        IsClosest-IsNearest t x.taken_at rows_after r ut (unix_of x m) k n reach near,
        handle_snapshot-persister parse_time p ring b when t (some y) h e,
        same,
      )
    ]
  where
    rows_after : List Row
    rows_after = d.snapshots (save_each d c xs s).db

    unix_of : (x : Snapshot) → Memᴰ x (saved_of xs) → IsUnix x.taken_at
    unix_of x m = All-mem (λ (x : Snapshot). IsUnix x.taken_at) (saved_of xs) us m
