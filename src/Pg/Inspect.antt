-- ===== src/Pg/Inspect.antt =====
-- internal/pg/inspect.go: the lock inspector. What the driver does is a parameter: it refuses the
-- query, or it yields rows, each scanned or not, and then an error or none.
use pglockr.Prelude.{
  ℕ, Bool, List, [], ◌∷◌, ◌++◌, Option, none, some, Answer, ok, err, wrap_error, Text, codes,
}

-- `LockRow`
pub record LockRow : Type 0 where
  pub lock_type : Text
  pub object : Text
  pub mode : Text
  pub granted : Bool
  pub pid : ℕ

-- `HotObject`
pub record HotObject : Type 0 where
  pub object : Text
  pub waiters : ℕ
  pub holders : ℕ

pub record Rows (A : Type 0) : Type 0 where
  pub scans : List (Answer A)
  pub failure : Option Text

module _ {A : Type 0} where
  -- `return out, rows.Err()`
  abbrev pub at_end : List A → Option Text → Answer (List A)
  at_end out none = ok out
  at_end out (some e) = err e

  -- `for rows.Next()`, which ends at the first row that does not scan.
  unfoldable pub scan_rows : List (Answer A) → List A → Option Text → Answer (List A)
  scan_rows [] out failure = at_end out failure
  scan_rows (ok r ∷ rs) out failure = scan_rows rs (out ++ r ∷ []) failure
  scan_rows (err e ∷ rs) out failure = err e

  abbrev pub scanned : Answer (Rows A) → Answer (List A)
  scanned (err e) = err e
  scanned (ok rows) = scan_rows rows.scans [] rows.failure

-- `Locks`
unfoldable pub locks : Answer (Rows LockRow) → Answer (List LockRow)
locks query = scanned (wrap_error (codes "query locks: ") query)

-- `HotObjects`
pub hot_objects : Answer (Rows HotObject) → Answer (List HotObject)
hot_objects query = scanned (wrap_error (codes "query hot objects: ") query)
