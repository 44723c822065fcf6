-- ===== src/Persist/Tests.antt =====
-- Examples of the history in SQLite and of its audit trail, on a database of lists.
use pglockr.Prelude.{
  ℕ, ◌≡◌, Bool, true, false, refl, ap, sym, ◌∙◌, inl, inr, List, [], ◌∷◌, map, ◌++◌, some, Answer,
  ok, err, length, take, drop, Memᴰ, codes, lookup, nat_eq, ok-inj, ◌*◌, arith, ◌+◌,
}
use pglockr.Prelude.Int.{ℤ, pos}
use pglockr.Prelude.Time.{Time, unix_epoch, unix_nano, zero_time}
use pglockr.Graph.{Snapshot, Sessions, Edge}
use pglockr.Graph.Builder.Tests.{session}
use pglockr.Sorting.{sort, sort_insert}
use pglockr.Audit.{Entry}
use pglockr.Persist.{
  Bytes, Row, Encoding, Sqlite, Same, Clock, encode, decode, row_of, lower_bound, upper_bound,
  maybe_prune, consider_row, nothing_found, save, at,
}
use pglockr.Persist.Kept.{save_each, FindsSaved, at-save_each}
use pglockr.Persist.Table.{tables}
use pglockr.Persist.Nearest.{InReach}
use pglockr.Persist.Saves.{Pruned, save-Pruned, Holds}
use pglockr.Persist.Trail as Trail
use pglockr.Persist.Timeline.{ReportsSaved, history-save_each}

-- Snapshots without sessions and edges, as bytes: the time, the number of roots, the roots, and
-- the cluster.
abbrev marshal_with : Sessions → List Edge → Snapshot → Answer Bytes
marshal_with [] [] x = ok (x.taken_at ∷ length x.roots ∷ (x.roots ++ x.cluster))
marshal_with [] (e ∷ es) x = err []
marshal_with (s ∷ ss) es x = err []

abbrev marshal_plain : Snapshot → Answer Bytes
marshal_plain x = marshal_with x.sessions x.edges x

abbrev plain : Time → ℕ → Bytes → Snapshot
plain t n rest = record {
  cluster = drop n rest;
  taken_at = t;
  sessions = [];
  edges = [];
  roots = take n rest;
}

abbrev unmarshal_plain : Bytes → Answer Snapshot
unmarshal_plain [] = err []
unmarshal_plain (t ∷ []) = err []
unmarshal_plain (t ∷ n ∷ rest) = ok (plain t n rest)

abbrev ungzip : Bytes → Answer Bytes
ungzip [] = err []
ungzip (b ∷ bs) = ok bs

take-length : (xs ys : List ℕ) → take (length xs) (xs ++ ys) ≡ xs
take-length [] ys = refl
take-length (x ∷ xs) ys = ap (◌∷◌ x) (take-length xs ys)

drop-length : (xs ys : List ℕ) → drop (length xs) (xs ++ ys) ≡ ys
drop-length [] ys = refl
drop-length (x ∷ xs) ys = drop-length xs ys

plain-Same :
    (x : Snapshot)
    → x.sessions ≡ []
    → x.edges ≡ []
    → Same (plain x.taken_at (length x.roots) (x.roots ++ x.cluster)) x
plain-Same x s e = record {
  clusters = drop-length x.roots x.cluster;
  times = refl;
  edges = sym e;
  roots = take-length x.roots x.cluster;
  counts = ap length (sym s);
  sessions = λ p. ap (lookup p) (sym s);
}

pub unmarshal-marshal_with :
    (ss : Sessions) (es : List Edge) (x : Snapshot) {raw : Bytes}
    → x.sessions ≡ ss
    → x.edges ≡ es
    → marshal_with ss es x ≡ ok raw
    → (y : Snapshot) × (unmarshal_plain raw ≡ ok y) × Same y x
unmarshal-marshal_with [] [] x s e h = (
  plain x.taken_at (length x.roots) (x.roots ++ x.cluster),
  ap unmarshal_plain (sym (ok-inj h)),
  plain-Same x s e,
)
unmarshal-marshal_with [] (d ∷ es) x s e h = absurd (ground (arith, h))
unmarshal-marshal_with (d ∷ ss) es x s e h = absurd (ground (arith, h))

pub read_back :
    (raw : Bytes) {written blob : Bytes}
    → ok (31 ∷ raw) ≡ ok written
    → ok written ≡ ok blob
    → (opened : Bytes) × (ungzip blob ≡ ok opened) × (ok opened ≡ ok raw)
read_back raw h k = (raw, ap ungzip (sym (ok-inj h ∙ ok-inj k)), refl)

abbrev pub plain_encoding : Encoding
plain_encoding = record {
  marshal = marshal_plain;
  unmarshal = unmarshal_plain;
  gzip_write = λ raw. ok (31 ∷ raw);
  gzip_close = ok;
  gzip_open = ungzip;
  read_all = ok;
  unmarshal-marshal = λ x h. unmarshal-marshal_with x.sessions x.edges x refl refl h;
  read_all-gzip_close = λ raw h k. read_back raw h k;
}

-- Ten minutes after 1970 began, and then.
abbrev pub at_second : ℕ → Time
at_second n = unix_epoch + (600 + n) * 1000000000

abbrev pub plain_snap : ℕ → Snapshot
plain_snap n = record {
  cluster = codes "main";
  taken_at = at_second n;
  sessions = [];
  edges = [];
  roots = 7 ∷ n ∷ [];
}

abbrev pub clock_at : ℕ → Clock
clock_at n = record { since = at_second n; pruned = at_second n; cutoff = at_second n }

-- Three snapshots, the second with a session, so that it cannot be saved; the third comes when the
-- first has expired.
abbrev pub saves : List (Clock × Snapshot)
saves =
    (clock_at 0, plain_snap 0)
    ∷ (clock_at 10, record (plain_snap 10) { sessions = (5, session 5 []) ∷ [] })
    ∷ (clock_at 20, plain_snap 20)
    ∷ (clock_at 100, plain_snap 100)
    ∷ []

abbrev pub opened : Sqlite tables
opened = record {
  db = record { rows = []; trail = [] };
  retention = pos 90000000000;
  last_prune = zero_time;
}

abbrev pub run : Sqlite tables
run = save_each tables plain_encoding saves opened

-- Of the four, the first has been deleted and the second was not saved.
run-rows : map (λ (r : Row). r.taken_at) run.db.rows ≡ pos 620000000000 ∷ pos 700000000000 ∷ []
unfolding save maybe_prune encode unix_nano
run-rows = refl

run-at : at tables plain_encoding run (at_second 50) ≡ ok (some (plain_snap 20))
unfolding at save maybe_prune encode decode unix_nano consider_row nothing_found
run-at = refl

-- The cells of a row.
abbrev pub stored : ℕ → Bytes × ℤ
stored n = (31 ∷ at_second n ∷ 2 ∷ 7 ∷ n ∷ codes "main", pos ((600 + n) * 1000000000))

pub under_50 : tables.below (unix_nano (at_second 50)) run.db ≡ ok (some (stored 20))
unfolding save maybe_prune encode unix_nano
under_50 = refl

pub over_50 : tables.above (unix_nano (at_second 50)) run.db ≡ ok (some (stored 100))
unfolding save maybe_prune encode unix_nano
over_50 = refl

pub reach_50 : InReach (unix_nano (at_second 50)) (tables.snapshots run.db)
unfolding save maybe_prune encode unix_nano
reach_50 = (omega arith, (omega arith, tt))

at-save_each_example : FindsSaved tables plain_encoding saves opened (at_second 50)
at-save_each_example =
    at-save_each tables plain_encoding saves opened (at_second 50) {under = some (stored 20)}
      {over = some (stored 100)} refl under_50 over_50 reach_50

-- The row of the first snapshot, and what is left of it and of one 100 seconds later.
abbrev first_row : Row
first_row = row_of (plain_snap 0) (stored 0).0

abbrev with_first : Sqlite tables
with_first = record {
  db = record { rows = first_row ∷ []; trail = [] };
  retention = pos 90000000000;
  last_prune = at_second 0;
}

abbrev after_last : Sqlite tables
after_last = record {
  db = record { rows = row_of (plain_snap 100) (stored 100).0 ∷ []; trail = [] };
  retention = pos 90000000000;
  last_prune = at_second 100;
}

last_save : save tables plain_encoding (clock_at 100) (plain_snap 100) with_first ≡ ok after_last
unfolding save maybe_prune encode unix_nano
last_save = refl

save-Pruned_example :
    (blob : Bytes) × (encode plain_encoding (plain_snap 100) ≡ ok blob)
    × (after_last.retention ≡ with_first.retention)
    × Pruned tables
        (clock_at 100)
        with_first
        after_last
        (first_row ∷ row_of (plain_snap 100) blob ∷ [])
save-Pruned_example =
    save-Pruned tables plain_encoding (clock_at 100) (plain_snap 100) with_first {s' = after_last}
      last_save

first_row-Holds : Holds plain_encoding (plain_snap 0 ∷ []) (tables.snapshots with_first.db)
unfolding encode
first_row-Holds = ((plain_snap 0, Memᴰ.head refl, refl, refl), tt)

found_cells :
    tables.select_between (lower_bound zero_time) (upper_bound (at_second 60)) run.db
    ≡ ok (record { taken_at = pos 620000000000; roots = 2; edges = 0; sessions = 0 } ∷ [])
unfolding save maybe_prune encode unix_nano sort sort_insert
found_cells = refl

history-save_each_example : ReportsSaved tables plain_encoding saves opened zero_time (at_second 60)
history-save_each_example =
    history-save_each tables plain_encoding saves opened zero_time (at_second 60)
      {rows = record { taken_at = pos 620000000000; roots = 2; edges = 0; sessions = 0 } ∷ []} refl
      (ground arith) (inl refl) (inr (ground arith)) found_cells

abbrev entry : ℕ → Bool → Entry
entry n sent = record {
  at = at_second n;
  actor = codes "ann";
  action = codes "cancel";
  pid = pos 7;
  victim_query = codes "select 1";
  delivered = sent;
  error = [];
}

abbrev entries : List Entry
entries = entry 0 true ∷ entry 5 false ∷ entry 5 true ∷ []

abbrev recorded : Sqlite tables
recorded = record opened { db = record { rows = []; trail = map Trail.audit_row entries } }

entries-add_all : Trail.add_all tables entries opened ≡ ok recorded
unfolding Trail.add unix_nano
entries-add_all = refl

entries-IsChronicle : Trail.IsChronicle entries
entries-IsChronicle = (
  ground arith,
  (omega arith, (omega arith, tt)),
  (ground arith, (omega arith, tt), (ground arith, tt, tt)),
)

two_rows :
    tables.select_audits (Trail.row_limit (pos 2)) recorded.db
    ≡ ok (Trail.audit_row (entry 5 true) ∷ Trail.audit_row (entry 5 false) ∷ [])
unfolding sort sort_insert unix_nano
two_rows = refl
