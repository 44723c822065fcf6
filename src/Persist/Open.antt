-- ===== src/Persist/Open.antt =====
-- internal/persist: `Open`, which opens the database and creates its tables, with `initAudit`. What
-- the library `database/sql` answers is a parameter.
use pglockr.Prelude.{◌∷◌, ◌++◌, refl, inl, inr, Answer, Answer-cases, Text, codes, wrap_error}
use pglockr.Lifecycle.{
  database, acquired, Proc, Run, ◌>>◌, lift, note, or_error, or_release, IsTidy, HoldsOnSuccess,
  or_release-HoldsOnSuccess, held-acquired, released_last,
}

-- `sql.Open`, the execution of the two schemas, and the quoting of `%q`.
pub record Opener : Type 0 where
  pub sql_open : Text → Answer (Unit {0})
  pub exec_schema : Answer (Unit {0})
  pub exec_audit_schema : Answer (Unit {0})
  pub quoted : Text → Text

abbrev dsn_of : Text → Text
dsn_of path =
    codes "file:"
    ++ path
    ++ codes "?_pragma=journal_mode(WAL)&_pragma=busy_timeout(5000)&_pragma=synchronous(NORMAL)"

-- `initAudit`
abbrev init_audit : Opener → Answer (Unit {0})
init_audit o = o.exec_audit_schema

-- `Open`
pub open_db : {N : Type 0} → Opener → Text → Run N Text (Unit {0})
open_db o path = do
  lift (
      or_error (λ e. e)
        (wrap_error (codes "open sqlite " ++ o.quoted path ++ codes ": ")
          (o.sql_open (dsn_of path))))
  note (acquired database)
  or_release database (or_error (λ e. e) (wrap_error (codes "init schema: ") o.exec_schema))
  or_release database (or_error (λ e. e) (wrap_error (codes "init audit schema: ") (init_audit o)))

-- `Open` leaves its caller the database if it succeeds, and nothing to release if it fails.
pub open_db-HoldsOnSuccess :
    {N : Type 0} (o : Opener) (path : Text) (p : Proc N)
    → IsTidy p
    → HoldsOnSuccess database p (open_db o path p)
unfolding open_db
open_db-HoldsOnSuccess {N} o path p t = elim (Answer-cases (o.sql_open (dsn_of path))) [
  | inr (e, g) ↦ rw g (t, refl, refl)
  | inl (u, g) ↦ elim (Answer-cases o.exec_schema) [
    | inr (e, h) ↦ rw g (
        rw h (
          released_last {N = N} database p.deferred (acquired database ∷ p.log)
              (held-acquired database p.log t),
          refl,
          refl,
        ))
    | inl (v, h) ↦ rw g (
        rw h (
          or_release-HoldsOnSuccess database p
            (or_error (λ e. e) (wrap_error (codes "init audit schema: ") o.exec_audit_schema)) t))
  ]
]
