-- ===== src/Persist/Timeline.antt =====
-- `History` of SQLite gives the timeline that the ring would give of the same snapshots.
use mathlib.Core.List.{Permᴰ}
use mathlib.Core.List.Permᴰ as Perms
use pglockr.Prelude.{
  ◌≡◌, refl, sym, ◌∙◌, ap, ap₂, subst, Bool, false, not, ◌&&◌, List, [], ◌∷◌, map, ok, All, All-mem,
  Memᴰ, arith, Bool-cases, inl, inr, length, ltb, filterb, ◌⊎◌,
}
use pglockr.Prelude.Int.{ℤ, pos, negsuc, ltb_ℤ}
use pglockr.Prelude.Time.{
  Time, zero_time, is_zero, unix, unix_nano, IsUnix, unix_nano-IsUnix, unix-unix_nano,
}
use pglockr.Graph.{Snapshot}
use pglockr.Store.{Meta, meta_of, in_window}
use pglockr.Store.Ring.Queries.{timeline}
use pglockr.Sorting.Members.{IsSorted}
use pglockr.Persist.{
  Encoding, Clock, Bytes, Row, Cells, Database, Sqlite, cells_of, between, earlier, meta_at,
  collect_lem, lower_bound, upper_bound, row_of, history,
}
use pglockr.Persist.Saves.{Holds}
use pglockr.Persist.Kept.{save_each, saved_of, save_each-Holds}

-- Rows that hold the snapshots, at instants that SQLite's integers can hold.
abbrev pub Represents : List Row → List Snapshot → Type 0
Represents [] [] = Unit
Represents [] (x ∷ xs) = ⊥
Represents (r ∷ rows) [] = ⊥
Represents (r ∷ rows) (x ∷ xs) = (r ≡ row_of x r.blob) × IsUnix x.taken_at × Represents rows xs

-- The bound of a window is open or an instant that SQLite's integers can hold.
abbrev pub IsBound : Time → Type 0
IsBound t = (t ≡ zero_time) ⊎ IsUnix t

lower_lem :
    (from t : Time)
    → IsBound from
    → IsUnix t
    → ltb_ℤ (unix_nano t) (lower_bound from) ≡ not (is_zero from) && ltb t from
lower_lem from t (inl e) u = rw (e, unix_nano-IsUnix t u) (ground (arith, u))
lower_lem from t (inr v) u =
    rw (unix_nano-IsUnix from v, unix_nano-IsUnix t u) (ground (arith, u, v))

upper_lem :
    (to t : Time)
    → IsBound to
    → IsUnix t
    → ltb_ℤ (upper_bound to) (unix_nano t) ≡ not (is_zero to) && ltb to t
upper_lem to t (inl e) u = rw (e, unix_nano-IsUnix t u) (ground (arith, u))
upper_lem to t (inr v) u = rw (unix_nano-IsUnix to v, unix_nano-IsUnix t u) (ground (arith, u, v))

between_lem :
    (from to : Time) (x : Snapshot) (blob : Bytes)
    → IsBound from
    → IsBound to
    → IsUnix x.taken_at
    → between (lower_bound from) (upper_bound to) (row_of x blob) ≡ in_window from to x
unfolding in_window
between_lem from to x blob f t u =
    rw (lower_lem from x.taken_at f u, upper_lem to x.taken_at t u) refl

meta_at-row_of :
    (x : Snapshot) (blob : Bytes)
    → IsUnix x.taken_at
    → meta_at (cells_of (row_of x blob)) ≡ meta_of x
unfolding meta_of
meta_at-row_of x blob u =
    ap
      (λ t. record {
        taken_at = t;
        roots = length x.roots;
        edges = length x.edges;
        sessions = length x.sessions;
      })
      (unix-unix_nano x.taken_at u)

rows-timeline :
    (from to : Time) (rows : List Row) (xs : List Snapshot)
    → IsBound from
    → IsBound to
    → Represents rows xs
    → map meta_at (map cells_of (filterb (between (lower_bound from) (upper_bound to)) rows))
      ≡ timeline from to xs
rows-timeline from to [] [] f t h = refl
rows-timeline from to [] (x ∷ xs) f t h = absurd h
rows-timeline from to (r ∷ rows) [] f t h = absurd h
rows-timeline from to (r ∷ rows) (x ∷ xs) f t (e, u, h) =
    let same : between (lower_bound from) (upper_bound to) r ≡ in_window from to x =
      ap (between (lower_bound from) (upper_bound to)) e ∙ between_lem from to x r.blob f t u in
    let meta : meta_at (cells_of r) ≡ meta_of x =
      ap (λ q. meta_at (cells_of q)) e ∙ meta_at-row_of x r.blob u in
    elim (Bool-cases (in_window from to x)) [
      | inl i ↦ rw (same, i) (ap₂ (◌∷◌) meta (rows-timeline from to rows xs f t h))
      | inr i ↦ rw (same, i) (rows-timeline from to rows xs f t h)
    ]

-- The oldest first.
abbrev pub older : Meta → Meta → Bool
older a b = ltb a.taken_at b.taken_at

unix_monotone : (a b : ℤ) → ltb_ℤ b a ≡ false → ltb (unix b) (unix a) ≡ false
unix_monotone (pos m) (pos n) h = ground (arith, h)
unix_monotone (pos m) (negsuc n) h = ground (arith, h)
unix_monotone (negsuc m) (pos n) h = ground (arith, h)
unix_monotone (negsuc m) (negsuc n) h = ground (arith, h)

All-older :
    (r : Cells) (rows : List Cells)
    → All (λ q. earlier q r ≡ false) rows
    → All (λ m. older m (meta_at r) ≡ false) (map meta_at rows)
All-older r [] h = tt
All-older r (q ∷ rows) (e, h) = (unix_monotone r.taken_at q.taken_at e, All-older r rows h)

metas-IsSorted : (rows : List Cells) → IsSorted earlier rows → IsSorted older (map meta_at rows)
metas-IsSorted [] h = tt
metas-IsSorted (r ∷ rows) (a, h) = (All-older r rows a, metas-IsSorted rows h)

-- When the table holds the rows of some snapshots, at instants that SQLite's integers can hold
-- like the bounds of the window that are set, and the query does not fail, `History` gives the
-- timeline that the ring would give of these snapshots, sorted by time.
pub history-Represents :
    (d : Database) (s : Sqlite d) (from to : Time) (xs : List Snapshot) {rows : List Cells}
    → IsBound from
    → IsBound to
    → Represents (d.snapshots s.db) xs
    → d.select_between (lower_bound from) (upper_bound to) s.db ≡ ok rows
    → (metas : List Meta) × (history d s from to ≡ ok metas)
      × Permᴰ metas (timeline from to xs)
      × IsSorted older metas
unfolding history
history-Represents d s from to xs {rows} f t h q =
    let (perm, sorted) = d.select_between_lem (lower_bound from) (upper_bound to) s.db q in
    (
      map meta_at rows,
      rw q (ap ok (collect_lem meta_at rows [])),
      subst (Permᴰ (map meta_at rows)) (rows-timeline from to (d.snapshots s.db) xs f t h)
          (Perms.map meta_at perm),
      metas-IsSorted rows sorted,
    )

-- The snapshots behind the rows.
behind_rows :
    (c : Encoding) (saved : List Snapshot) (rows : List Row)
    → All (λ (x : Snapshot). IsUnix x.taken_at) saved
    → Holds c saved rows
    → (xs : List Snapshot) × Represents rows xs × All (λ x. Memᴰ x saved) xs
behind_rows c saved [] u h = ([], tt, tt)
behind_rows c saved (r ∷ rows) u ((x, m, e, f), h) =
    let (xs, k, a) = behind_rows c saved rows u h in
    (x ∷ xs, (f, All-mem (λ (x : Snapshot). IsUnix x.taken_at) saved u m, k), (m, a))

-- `History` gives, sorted by time, the timeline of saved snapshots, one for each row of the table.
abbrev pub ReportsSaved :
    (d : Database) → Encoding → List (Clock × Snapshot) → Sqlite d → Time → Time → Type 0
ReportsSaved d c saves s from to =
    (xs : List Snapshot) × (metas : List Meta) × All (λ x. Memᴰ x (saved_of saves)) xs
    × Represents (d.snapshots (save_each d c saves s).db) xs
    × (history d (save_each d c saves s) from to ≡ ok metas)
    × Permᴰ metas (timeline from to xs)
    × IsSorted older metas

-- After any saves on an empty table, failed ones and deletions among them: when the saved snapshots
-- are of instants that `UnixNano` can represent (the years 1678 to 2261), each bound of the window
-- is open or such an instant too, and the query does not fail, `History` of the window gives,
-- sorted by time, the timeline of that window over saved snapshots, one for each row of the table.
pub history-save_each :
    (d : Database) (c : Encoding) (saves : List (Clock × Snapshot)) (s : Sqlite d) (from to : Time)
    {rows : List Cells}
    → d.snapshots s.db ≡ []
    → All (λ (x : Snapshot). IsUnix x.taken_at) (saved_of saves)
    → IsBound from
    → IsBound to
    → d.select_between (lower_bound from) (upper_bound to) (save_each d c saves s).db ≡ ok rows
    → ReportsSaved d c saves s from to
history-save_each d c saves s from to empty u f t q =
    let held = save_each-Holds d c saves [] s (subst (Holds c []) (sym empty) tt) in
    let (xs, k, a) =
      behind_rows c (saved_of saves) (d.snapshots (save_each d c saves s).db) u held in
    let (metas, e, p, o) = history-Represents d (save_each d c saves s) from to xs f t k q in
    (xs, metas, a, k, e, p, o)
