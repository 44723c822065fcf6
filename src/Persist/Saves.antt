-- ===== src/Persist/Saves.antt =====
-- `Save`: what the table holds after it, and that `At` gives back what was saved.
use mathlib.Core.List.Memᴰ.{append_left, append_right}
use pglockr.Prelude.{
  ◌≡◌, refl, sym, ◌∙◌, ap, subst, ◌⊎◌, inl, inr, Bool, true, false, List, [], ◌∷◌, ◌++◌, Memᴰ, ok,
  All, All-append, filterb, Bool-cases, Answer-cases, >>=-eq-ok, wrap_error, wrap_error-eq-ok,
  ok-inj, nat_eq, codes,
}
use pglockr.Prelude.Int.{ℤ, pos, ltb_ℤ}
use pglockr.Prelude.Time.{Time, unix_nano, add, sub, neg64}
use pglockr.Graph.{Snapshot}
use pglockr.Persist.{
  Bytes, Row, Database, Encoding, Sqlite, Clock, Same, row_of, is_unexpired, encode, decode,
  maybe_prune, save,
}

-- What is decoded from the encoding of a snapshot is that snapshot, up to the order of its map.
pub decode-encode :
    (c : Encoding) (x : Snapshot) {blob : Bytes}
    → encode c x ≡ ok blob
    → (y : Snapshot) × (decode c blob ≡ ok y) × Same y x
unfolding encode decode
decode-encode c x h =
    let (raw, e, f) = >>=-eq-ok (c.marshal x) _ h in
    let (written, g, k) = >>=-eq-ok (c.gzip_write raw) _ f in
    let (opened, o, r) = c.read_all-gzip_close raw g k in
    let (y, u, same) = c.unmarshal-marshal x e in (y, rw (o, r) u, same)

-- The rows that are left after the pruning.
abbrev pub cutoff_at : Time → ℤ → ℤ
cutoff_at now retention = unix_nano (add now (neg64 retention))

-- Nothing is deleted, or what is before the cutoff is, and then a minute has passed since the last
-- time.
abbrev pub Pruned : (d : Database) → Clock → (s s' : Sqlite d) → List Row → Type 0
Pruned d now s s' rows =
    ((d.snapshots s'.db ≡ rows) × ((s'.last_prune ≡ s.last_prune) ⊎ (s'.last_prune ≡ now.pruned)))
    ⊎ ((ltb_ℤ (pos 0) s.retention ≡ true)
        × (ltb_ℤ (sub now.since s.last_prune) (pos 60000000000) ≡ false)
        × (s'.last_prune ≡ now.pruned)
        × (d.snapshots s'.db ≡ filterb (is_unexpired (cutoff_at now.cutoff s.retention)) rows))

maybe_prune-Pruned :
    (d : Database) (now : Clock) (s : Sqlite d)
    → Pruned d now s (maybe_prune d now s) (d.snapshots s.db)
unfolding maybe_prune
maybe_prune-Pruned d now s = elim (Bool-cases (ltb_ℤ (pos 0) s.retention)) [
  | inr e ↦ rw e (inl (refl, inl refl))
  | inl e ↦ elim (Bool-cases (ltb_ℤ (sub now.since s.last_prune) (pos 60000000000))) [
    | inl f ↦ rw (e, f) (inl (refl, inl refl))
    | inr f ↦ elim (Answer-cases (d.delete_before (cutoff_at now.cutoff s.retention) s.db)) [
      | inl (db, g) ↦
          rw (e, f, g)
            (inr
              (refl, refl, refl, (d.delete_before_lem (cutoff_at now.cutoff s.retention) s.db g).0))
      | inr (t, g) ↦ rw (e, f, g) (inl (refl, inr refl))
    ]
  ]
]

maybe_prune-retention :
    (d : Database) (now : Clock) (s : Sqlite d) → (maybe_prune d now s).retention ≡ s.retention
unfolding maybe_prune
maybe_prune-retention d now s = elim (Bool-cases (ltb_ℤ (pos 0) s.retention)) [
  | inr e ↦ rw e refl
  | inl e ↦ elim (Bool-cases (ltb_ℤ (sub now.since s.last_prune) (pos 60000000000))) [
    | inl f ↦ rw (e, f) refl
    | inr f ↦ rw (e, f) refl
  ]
]

-- A `Save` that succeeds has added one row, with the encoded snapshot, its time and its counts,
-- and deletes only if there is a retention and a minute has passed since the last deletion, and
-- then only what is older than the retention.
pub save-Pruned :
    (d : Database) (c : Encoding) (now : Clock) (x : Snapshot) (s : Sqlite d) {s' : Sqlite d}
    → save d c now x s ≡ ok s'
    → (blob : Bytes) × (encode c x ≡ ok blob)
      × (s'.retention ≡ s.retention)
      × Pruned d now s s' (d.snapshots s.db ++ row_of x blob ∷ [])
unfolding save
save-Pruned d c now x s h =
    let (blob, e, f) = >>=-eq-ok (wrap_error (codes "encode snapshot: ") (encode c x)) _ h in
    let (db, g, k) =
      >>=-eq-ok (wrap_error (codes "insert snapshot: ") (d.insert_snapshot (row_of x blob) s.db)) _
        f in
    let grown : d.snapshots db ≡ d.snapshots s.db ++ row_of x blob ∷ [] =
      (d.insert_snapshot_lem (row_of x blob) s.db
        (wrap_error-eq-ok (codes "insert snapshot: ") _ g)).0 in
    let pruned : Sqlite d = maybe_prune d now (record s { db = db }) in
    (
      blob,
      wrap_error-eq-ok (codes "encode snapshot: ") (encode c x) e,
      ap (λ (q : Sqlite d). q.retention) (sym (ok-inj k))
          ∙ maybe_prune-retention d now (record s { db = db }),
      subst (λ q. Pruned d now s q (d.snapshots s.db ++ row_of x blob ∷ [])) (ok-inj k)
          (subst (Pruned d now s pruned) grown (maybe_prune-Pruned d now (record s { db = db }))),
    )

-- A row that a snapshot was saved in.
abbrev pub IsRowOf : Encoding → List Snapshot → Row → Type 0
IsRowOf c saved r = (x : Snapshot) × Memᴰ x saved × (encode c x ≡ ok r.blob) × (r ≡ row_of x r.blob)

abbrev pub Holds : Encoding → List Snapshot → List Row → Type 0
Holds c saved rows = All (IsRowOf c saved) rows

All-filterb :
    (P : Row → Type 0) (p : Row → Bool) (rows : List Row) → All P rows → All P (filterb p rows)
All-filterb P p [] h = tt
All-filterb P p (r ∷ rows) (a, h) = elim (Bool-cases (p r)) [
  | inl e ↦ rw e (a, All-filterb P p rows h)
  | inr e ↦ rw e (All-filterb P p rows h)
]

pub Holds-append :
    (c : Encoding) (saved more : List Snapshot) (rows : List Row)
    → Holds c saved rows
    → Holds c (saved ++ more) rows
Holds-append c saved more [] h = tt
Holds-append c saved more (r ∷ rows) ((x, m, e, f), h) =
    ((x, append_left more m, e, f), Holds-append c saved more rows h)

Holds-Pruned :
    (d : Database) (c : Encoding) (now : Clock) (saved : List Snapshot) (s s' : Sqlite d)
    (rows : List Row)
    → Pruned d now s s' rows
    → Holds c saved rows
    → Holds c saved (d.snapshots s'.db)
Holds-Pruned d c now saved s s' rows (inl (e, _)) h = subst (Holds c saved) (sym e) h
Holds-Pruned d c now saved s s' rows (inr (_, _, _, e)) h =
    subst (Holds c saved) (sym e)
      (All-filterb (IsRowOf c saved) (is_unexpired (cutoff_at now.cutoff s.retention)) rows h)

-- Every row of the table stays a row of a saved snapshot.
pub save-Holds :
    (d : Database) (c : Encoding) (now : Clock) (x : Snapshot) (saved : List Snapshot)
    (s : Sqlite d) {s' : Sqlite d}
    → save d c now x s ≡ ok s'
    → Holds c saved (d.snapshots s.db)
    → Holds c (saved ++ x ∷ []) (d.snapshots s'.db)
save-Holds d c now x saved s {s'} h k =
    let (blob, e, _, p) = save-Pruned d c now x s h in
    let both : Holds c (saved ++ x ∷ []) (d.snapshots s.db ++ row_of x blob ∷ []) =
      All-append (IsRowOf c (saved ++ x ∷ [])) (d.snapshots s.db) (row_of x blob ∷ [])
        (Holds-append c saved (x ∷ []) (d.snapshots s.db) k)
        ((x, append_right saved (Memᴰ.head refl), e, refl), tt) in
    Holds-Pruned d c now (saved ++ x ∷ []) s s' (d.snapshots s.db ++ row_of x blob ∷ []) p both
