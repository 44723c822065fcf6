-- ===== src/Persist/Kept.antt =====
-- What `At` finds after a run of saves is a snapshot that was saved.
use pglockr.Prelude.{
  ◌≡◌, sym, ◌∙◌, ap, subst, ◌⊎◌, inl, inr, List, [], ◌∷◌, ◌++◌, append_assoc, append-nil, Memᴰ,
  Option, none, some, Answer, ok, err, Answer-cases, All-mem,
}
use pglockr.Prelude.Int.{ℤ}
use pglockr.Prelude.Time.{Time, unix_nano}
use pglockr.Graph.{Snapshot}
use pglockr.Persist.{
  Bytes, Row, Database, Encoding, Sqlite, Clock, Same, row_of, encode, as_found, save, at,
}
use pglockr.Persist.Nearest.{IsClosest, InReach, at-IsClosest}
use pglockr.Persist.Saves.{Holds, Holds-append, save-Holds, decode-encode}

-- `Put` logs the error of a save, and goes on.
abbrev pub keep : (d : Database) → Sqlite d → Answer (Sqlite d) → Sqlite d
keep d old (ok new) = new
keep d old (err e) = old

abbrev pub save_each : (d : Database) → Encoding → List (Clock × Snapshot) → Sqlite d → Sqlite d
save_each d c [] s = s
save_each d c ((now, x) ∷ xs) s = save_each d c xs (keep d s (save d c now x s))

abbrev pub saved_of : List (Clock × Snapshot) → List Snapshot
saved_of [] = []
saved_of ((now, x) ∷ xs) = x ∷ saved_of xs

keep-Holds :
    (d : Database) (c : Encoding) (now : Clock) (x : Snapshot) (saved : List Snapshot)
    (s : Sqlite d)
    → Holds c saved (d.snapshots s.db)
    → Holds c (saved ++ x ∷ []) (d.snapshots (keep d s (save d c now x s)).db)
keep-Holds d c now x saved s h = elim (Answer-cases (save d c now x s)) [
  | inl (s', e) ↦ rw e (save-Holds d c now x saved s e h)
  | inr (t, e) ↦ rw e (Holds-append c saved (x ∷ []) (d.snapshots s.db) h)
]

-- Every row of the table, after any saves, failed ones among them, has the encoding, the time and
-- the counts of one of the snapshots.
pub save_each-Holds :
    (d : Database) (c : Encoding) (xs : List (Clock × Snapshot)) (saved : List Snapshot)
    (s : Sqlite d)
    → Holds c saved (d.snapshots s.db)
    → Holds c (saved ++ saved_of xs) (d.snapshots (save_each d c xs s).db)
save_each-Holds d c [] saved s h =
    subst (λ ys. Holds c ys (d.snapshots s.db)) (sym (append-nil saved)) h
save_each-Holds d c ((now, x) ∷ xs) saved s h =
    subst (λ ys. Holds c ys (d.snapshots (save_each d c xs (keep d s (save d c now x s))).db))
      (append_assoc saved (x ∷ []) (saved_of xs))
      (save_each-Holds d c xs (saved ++ x ∷ []) (keep d s (save d c now x s))
        (keep-Holds d c now x saved s h))

-- `At` finds nothing in an empty table; else it finds, up to the order of the map of sessions, a
-- snapshot that was saved, in a row than which no other is closer to the target.
abbrev pub FindsSaved :
    (d : Database) → Encoding → List (Clock × Snapshot) → Sqlite d → Time → Type 0
FindsSaved d c xs s t =
    ((d.snapshots (save_each d c xs s).db ≡ []) × (at d c (save_each d c xs s) t ≡ ok none))
    ⊎ ((x : Snapshot) × (y : Snapshot) × (r : Row) × Memᴰ x (saved_of xs)
        × Memᴰ r (d.snapshots (save_each d c xs s).db)
        × (r.taken_at ≡ unix_nano x.taken_at)
        × IsClosest (unix_nano t) (d.snapshots (save_each d c xs s).db) r
        × (at d c (save_each d c xs s) t ≡ ok (some y))
        × Same y x)

-- After any saves on an empty table, failed ones and deletions among them: when neither query of
-- `At` fails and every row is within the range of a duration from the target, `At` succeeds. It
-- finds nothing only if the table is empty; else it finds, up to the order of the map of sessions,
-- a snapshot that was saved, in a row than which no other is closer to the target.
pub at-save_each :
    (d : Database) (c : Encoding) (xs : List (Clock × Snapshot)) (s : Sqlite d) (t : Time)
    {under over : Option (Bytes × ℤ)}
    → d.snapshots s.db ≡ []
    → d.below (unix_nano t) (save_each d c xs s).db ≡ ok under
    → d.above (unix_nano t) (save_each d c xs s).db ≡ ok over
    → InReach (unix_nano t) (d.snapshots (save_each d c xs s).db)
    → FindsSaved d c xs s t
at-save_each d c xs s t empty b a reach = elim (at-IsClosest d c (save_each d c xs s) t b a reach) [
  | inl e ↦ inl e
  | inr (r, m, near, e) ↦
      let (x, n, f, g) =
        All-mem
          (λ q.
            (x : Snapshot) × Memᴰ x (saved_of xs)
            × (encode c x ≡ ok q.blob)
            × (q ≡ row_of x q.blob))
          _ (save_each-Holds d c xs [] s (subst (Holds c []) (sym empty) tt)) m in
      let (y, h, same) = decode-encode c x f in
      inr (x, y, r, n, m, ap (λ (q : Row). q.taken_at) g, near, e ∙ ap as_found h, same)
]
