-- ===== src/Persist/Schema.antt =====
-- The tables of internal/persist/sqlite.go and audit.go, and the database as an interface: the
-- statements that the code executes, with what SQLite documents of them.
use mathlib.Core.List.{Permᴰ}
use pglockr.Prelude.{
  ℕ, ◌≡◌, Bool, true, false, not, ◌&&◌, List, [], ◌∷◌, ◌++◌, map, Memᴰ, Option, none, some, Answer,
  ok, take, filterb, All, Text, nat_eq,
}
use pglockr.Prelude.Int.{ℤ, ltb_ℤ}
use pglockr.Sorting.{sort}
use pglockr.Sorting.Members.{IsSorted}

abbrev pub Bytes : Type 0
Bytes = List ℕ

-- A row of the table `snapshots`.
pub record Row : Type 0 where
  pub cluster : Text
  pub taken_at : ℤ
  pub roots : ℕ
  pub edges : ℕ
  pub sessions : ℕ
  pub blob : Bytes

-- What `History` selects of a row.
pub record Cells : Type 0 where
  pub taken_at : ℤ
  pub roots : ℕ
  pub edges : ℕ
  pub sessions : ℕ

abbrev pub cells_of : Row → Cells
cells_of r = record {
  taken_at = r.taken_at;
  roots = r.roots;
  edges = r.edges;
  sessions = r.sessions;
}

-- A row of the table `audit`.
pub record AuditRow : Type 0 where
  pub at : ℤ
  pub actor : Text
  pub action : Text
  pub pid : ℤ
  pub victim_query : Text
  pub delivered : ℤ
  pub error : Text

abbrev pub between : ℤ → ℤ → Row → Bool
between lo hi r = not (ltb_ℤ r.taken_at lo) && not (ltb_ℤ hi r.taken_at)

abbrev pub is_unexpired : ℤ → Row → Bool
is_unexpired cutoff r = not (ltb_ℤ r.taken_at cutoff)

abbrev pub earlier : Cells → Cells → Bool
earlier a b = ltb_ℤ a.taken_at b.taken_at

-- `ORDER BY at DESC, id DESC` on rows in the order of their ids: of rows of one instant the later
-- comes first.
abbrev pub newer : AuditRow → AuditRow → Bool
newer a b = ltb_ℤ b.at a.at

-- The database with the statements that the code executes on it. `snapshots` and `audits` are the
-- rows of the two tables in the order of their ids; the code does not see them. A statement that
-- fails changes nothing.
pub record Database : Type 1 where
  pub State : Type 0
  pub snapshots : State → List Row
  pub audits : State → List AuditRow
  pub insert_snapshot : Row → State → Answer State
  pub delete_before : ℤ → State → Answer State
  pub below : ℤ → State → Answer (Option (Bytes × ℤ))
  pub above : ℤ → State → Answer (Option (Bytes × ℤ))
  pub select_between : ℤ → ℤ → State → Answer (List Cells)
  pub insert_audit : AuditRow → State → Answer State
  pub select_audits : ℕ → State → Answer (List AuditRow)
  pub insert_snapshot_lem :
      (r : Row) (s : State) {s' : State}
      → insert_snapshot r s ≡ ok s'
      → (snapshots s' ≡ snapshots s ++ r ∷ []) × (audits s' ≡ audits s)
  pub delete_before_lem :
      (cutoff : ℤ) (s : State) {s' : State}
      → delete_before cutoff s ≡ ok s'
      → (snapshots s' ≡ filterb (is_unexpired cutoff) (snapshots s)) × (audits s' ≡ audits s)
  pub below-none :
      (t : ℤ) (s : State) → below t s ≡ ok none → All (λ r. ltb_ℤ t r.taken_at ≡ true) (snapshots s)
  pub below-some :
      (t : ℤ) (s : State) {blob : Bytes} {ts : ℤ}
      → below t s ≡ ok (some (blob, ts))
      → (r : Row) × Memᴰ r (snapshots s)
        × (r.blob ≡ blob)
        × (r.taken_at ≡ ts)
        × (ltb_ℤ t ts ≡ false)
        × All (λ r'. (ltb_ℤ t r'.taken_at ≡ false) → ltb_ℤ ts r'.taken_at ≡ false) (snapshots s)
  pub above-none :
      (t : ℤ) (s : State) → above t s ≡ ok none → All (λ r. ltb_ℤ r.taken_at t ≡ true) (snapshots s)
  pub above-some :
      (t : ℤ) (s : State) {blob : Bytes} {ts : ℤ}
      → above t s ≡ ok (some (blob, ts))
      → (r : Row) × Memᴰ r (snapshots s)
        × (r.blob ≡ blob)
        × (r.taken_at ≡ ts)
        × (ltb_ℤ ts t ≡ false)
        × All (λ r'. (ltb_ℤ r'.taken_at t ≡ false) → ltb_ℤ r'.taken_at ts ≡ false) (snapshots s)
  pub select_between_lem :
      (lo hi : ℤ) (s : State) {rows : List Cells}
      → select_between lo hi s ≡ ok rows
      → Permᴰ rows (map cells_of (filterb (between lo hi) (snapshots s))) × IsSorted earlier rows
  pub insert_audit_lem :
      (r : AuditRow) (s : State) {s' : State}
      → insert_audit r s ≡ ok s'
      → (audits s' ≡ audits s ++ r ∷ []) × (snapshots s' ≡ snapshots s)
  pub select_audits_lem :
      (n : ℕ) (s : State) {rows : List AuditRow}
      → select_audits n s ≡ ok rows
      → rows ≡ take n (sort newer (audits s))
