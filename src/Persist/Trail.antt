-- ===== src/Persist/Trail.antt =====
-- internal/persist/audit.go: the audit trail in SQLite, and its agreement with the sink in memory.
use pglockr.Prelude.{
  ℕ, suc, ◌-◌, All-reverse, map-take, map-reverse, drop, ◌≤◌, ◌≡◌, ◌&&◌, refl, sym, ◌∙◌, ap, ap₂,
  Bool, true, false, not, List, [], ◌∷◌, ◌++◌, map, reverse, take, take_whole, append_assoc,
  append-nil, Answer, ok, ◌>>=◌, if◌then◌else◌, All, arith, Bool-cases, inl, inr, length,
  length-reverse, ltb, ltb→lt, >>=-eq-ok, ok-inj,
}
use mathlib.Core.List.{reverse-cons}
use pglockr.Prelude.Int.{ℤ, pos, negsuc}
use pglockr.Prelude.Time.{unix, unix_nano, IsUnix, unix_nano-IsUnix, unix-unix_nano}
use pglockr.Audit.{Entry, Sink}
use pglockr.Audit.Memory as Memory
use pglockr.Sorting.{sort_insert, sort}
use pglockr.Persist.{AuditRow, Database, Sqlite, newer, collect, collect_lem}

-- `boolToInt`
abbrev pub bool_to_int : Bool → ℤ
bool_to_int b = if b then pos 1 else pos 0

abbrev pub audit_row : Entry → AuditRow
audit_row e = record {
  at = unix_nano e.at;
  actor = e.actor;
  action = e.action;
  pid = e.pid;
  victim_query = e.victim_query;
  delivered = bool_to_int e.delivered;
  error = e.error;
}

abbrev pub is_nonzero : ℤ → Bool
is_nonzero (pos n) = ltb 0 n
is_nonzero (negsuc n) = true

-- The body of the loop of `Recent`.
abbrev pub entry_at : AuditRow → Entry
entry_at r = record {
  at = unix r.at;
  actor = r.actor;
  action = r.action;
  pid = r.pid;
  victim_query = r.victim_query;
  delivered = is_nonzero r.delivered;
  error = r.error;
}

-- `limit <= 0 || limit > 1000`
abbrev pub row_limit : ℤ → ℕ
row_limit (pos n) = if ltb 0 n && not (ltb 1000 n) then n else 1000
row_limit (negsuc n) = 1000

module _ (d : Database) where
  -- `Record`
  unfoldable pub add : Entry → Sqlite d → Answer (Sqlite d)
  add e s = do db ← d.insert_audit (audit_row e) s.db; ok (record s { db = db })

  -- `Recent`
  pub recent : ℤ → Sqlite d → Answer (List Entry)
  recent limit s = do rows ← d.select_audits (row_limit limit) s.db; ok (collect entry_at rows [])

  -- `SQLite` as the sink of the audit trail.
  abbrev pub sqlite_sink : Sink (Sqlite d)
  sqlite_sink = record { keep = add; list = recent }

  -- A run of records, up to the first that fails.
  abbrev pub add_all : List Entry → Sqlite d → Answer (Sqlite d)
  add_all [] s = ok s
  add_all (e ∷ es) s = add e s >>= (λ s'. add_all es s')

-- Each at an instant that SQLite's integers can hold, and none before the one before it.
abbrev pub IsChronicle : List Entry → Type 0
IsChronicle [] = Unit
IsChronicle (e ∷ es) = IsUnix e.at × All (λ (f : Entry). e.at ≤ f.at) es × IsChronicle es

entry_at-audit_row : (e : Entry) → IsUnix e.at → entry_at (audit_row e) ≡ e
entry_at-audit_row e u =
    ap₂ (λ a b. record e { at = a; delivered = b }) (unix-unix_nano e.at u) (bit e.delivered)
  where
    bit : (b : Bool) → is_nonzero (bool_to_int b) ≡ b
    bit true = refl
    bit false = refl

sort_insert-last :
    (x : AuditRow) (ys : List AuditRow)
    → All (λ y. newer x y ≡ false) ys
    → sort_insert newer x ys ≡ ys ++ x ∷ []
unfolding sort_insert
sort_insert-last x [] h = refl
sort_insert-last x (y ∷ ys) (e, h) = rw e (ap (◌∷◌ y) (sort_insert-last x ys h))

not_newer :
    (e f : Entry)
    → IsUnix e.at
    → IsUnix f.at
    → e.at ≤ f.at
    → newer (audit_row e) (audit_row f) ≡ false
not_newer e f u v l = rw (unix_nano-IsUnix e.at u, unix_nano-IsUnix f.at v) (ground (arith, l))

older_last :
    (e : Entry) (es : List Entry)
    → IsUnix e.at
    → All (λ (f : Entry). e.at ≤ f.at) es
    → IsChronicle es
    → All (λ y. newer (audit_row e) y ≡ false) (map audit_row es)
older_last e [] u h k = tt
older_last e (f ∷ es) u (l, h) (v, a, k) = (not_newer e f u v l, older_last e es u h k)

sort-chronicle :
    (es : List Entry) → IsChronicle es → sort newer (map audit_row es) ≡ reverse (map audit_row es)
unfolding sort
sort-chronicle [] k = refl
sort-chronicle (e ∷ es) (u, h, k) =
    ap (sort_insert newer (audit_row e)) (sort-chronicle es k)
    ∙ sort_insert-last (audit_row e) (reverse (map audit_row es)) (
        All-reverse (λ y. newer (audit_row e) y ≡ false) (map audit_row es) (older_last e es u h k))
    ∙ sym (reverse-cons (audit_row e) (map audit_row es))

entries_back : (es : List Entry) → IsChronicle es → map entry_at (map audit_row es) ≡ es
entries_back [] k = refl
entries_back (e ∷ es) (u, h, k) = ap₂ (◌∷◌) (entry_at-audit_row e u) (entries_back es k)

audits-add_all :
    (d : Database) (es : List Entry) (s : Sqlite d) {s' : Sqlite d}
    → add_all d es s ≡ ok s'
    → d.audits s'.db ≡ d.audits s.db ++ map audit_row es
unfolding add
audits-add_all d [] s h =
    ap (λ (q : Sqlite d). d.audits q.db) (sym (ok-inj h)) ∙ sym (append-nil (d.audits s.db))
audits-add_all d (e ∷ es) s h =
    let (t, f, g) = >>=-eq-ok (add d e s) _ h in
    let (db, k, l) = >>=-eq-ok (d.insert_audit (audit_row e) s.db) _ f in
    audits-add_all d es t g
    ∙ ap (λ (q : Sqlite d). d.audits q.db ++ map audit_row es) (sym (ok-inj l))
    ∙ ap (λ rows. rows ++ map audit_row es) (d.insert_audit_lem (audit_row e) s.db k).0
    ∙ append_assoc (d.audits s.db) (audit_row e ∷ []) (map audit_row es)

-- When entries are recorded in the order of their times into an empty trail and none of the
-- records nor the query fails, `Recent` gives the last of them, newest first, as many as the
-- limit, or 1000 if the limit is not within 1 to 1000.
pub recent-chronicle :
    (d : Database) (limit : ℤ) (es : List Entry) (s : Sqlite d) {s' : Sqlite d}
    {rows : List AuditRow}
    → d.audits s.db ≡ []
    → IsChronicle es
    → add_all d es s ≡ ok s'
    → d.select_audits (row_limit limit) s'.db ≡ ok rows
    → recent d limit s' ≡ ok (take (row_limit limit) (reverse es))
unfolding recent
recent-chronicle d limit es s {s'} {rows} empty k h q =
    let table : d.audits s'.db ≡ map audit_row es =
      audits-add_all d es s h ∙ ap (λ rows. rows ++ map audit_row es) empty in
    let sorted : rows ≡ take (row_limit limit) (reverse (map audit_row es)) =
      d.select_audits_lem (row_limit limit) s'.db q
      ∙ ap (λ t. take (row_limit limit) (sort newer t)) table
      ∙ ap (take (row_limit limit)) (sort-chronicle es k) in
    rw q (
      ap ok (
        collect_lem entry_at rows []
        ∙ ap (map entry_at) sorted
        ∙ map-take entry_at (row_limit limit) (reverse (map audit_row es))
        ∙ ap (take (row_limit limit))
            (map-reverse entry_at (map audit_row es) ∙ ap reverse (entries_back es k))))

-- The two sinks agree: when entries are recorded in the order of their times into an empty trail
-- and into a new sink in memory that has room for them all, and nothing fails, `Recent` of both
-- gives the same entries for every limit from 1 to 1000.
pub recent-Memory :
    (d : Database) (k n : ℕ) (es : List Entry) (s : Sqlite d) {s' : Sqlite d} {rows : List AuditRow}
    → suc k ≤ 1000
    → length es ≤ Memory.capacity n
    → d.audits s.db ≡ []
    → IsChronicle es
    → add_all d es s ≡ ok s'
    → d.select_audits (row_limit (pos (suc k))) s'.db ≡ ok rows
    → recent d (pos (suc k)) s'
      ≡ ok (Memory.recent (pos (suc k)) (Memory.add_all es (Memory.new_memory n)))
recent-Memory d k n es s {s'} l room empty c h q =
    let m : Memory.Memory = Memory.add_all es (Memory.new_memory n) in
    let none_left : length es - Memory.capacity n ≡ 0 = omega (arith, room) in
    let whole : m.entries ≡ es = Memory.entries-new_memory n es ∙ ap (λ j. drop j es) none_left in
    let limit : row_limit (pos (suc k)) ≡ suc k = ground (arith, l) in
    recent-chronicle d (pos (suc k)) es s empty c h q
    ∙ ap ok (
        ap (λ j. take j (reverse es)) limit
        ∙ clamped (suc k) es
        ∙ ap (λ ys. take (Memory.clamp_limit (pos (suc k)) (length ys)) (reverse ys)) (sym whole)
        ∙ sym (Memory.recent_lem (pos (suc k)) m))
  where
    clamped :
        (j : ℕ) (ys : List Entry)
        → take j (reverse ys) ≡ take (if ltb (length ys) j then length ys else j) (reverse ys)
    clamped j ys = elim (Bool-cases (ltb (length ys) j)) [
      | inr e ↦ rw e refl
      | inl e ↦ rw e (
          take_whole (reverse ys) j (omega (arith, length-reverse ys, ltb→lt _ _ e))
          ∙ sym (take_whole (reverse ys) (length ys) (omega (arith, length-reverse ys))))
    ]
