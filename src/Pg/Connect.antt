-- ===== src/Pg/Connect.antt =====
-- internal/pg/client.go: `Connect`, which opens the pool and detects the version of the server.
-- What the driver answers is a parameter; a version that is detected is not negative.
use pglockr.Prelude.{
  ℕ, ◌++◌, refl, inl, inr, Answer, ok, err, Answer-cases, Text, codes, wrap_error,
}
use pglockr.Lifecycle.{
  pool, acquired, Proc, Run, ◌>>◌, lift, note, or_error, or_release, IsTidy, HoldsOnSuccess,
  or_release-HoldsOnSuccess,
}

-- The driver: `pgxpool.ParseConfig`, `pgxpool.NewWithConfig`, the row of `versionNumSQL` and
-- `strconv.Atoi`, with the quoting of `%q`.
pub record Driver : Type 0 where
  pub parse_config : Text → Answer (Unit {0})
  pub new_pool : Answer (Unit {0})
  pub version_row : Answer Text
  pub atoi : Text → Answer ℕ
  pub quoted : Text → Text

abbrev parsed_version : Driver → Answer Text → Answer ℕ
parsed_version d (ok s) =
    wrap_error (codes "parse server_version_num " ++ d.quoted s ++ codes ": ") (d.atoi s)
parsed_version d (err e) = err (codes "detect version: " ++ e)

-- `detectVersion`
pub detect_version : Driver → Answer ℕ
detect_version d = parsed_version d d.version_row

-- `Connect`
pub connect : {N : Type 0} → Driver → Text → Run N Text ℕ
connect d dsn = do
  lift (or_error (λ e. e) (wrap_error (codes "parse dsn: ") (d.parse_config dsn)))
  lift (or_error (λ e. e) (wrap_error (codes "connect pool: ") d.new_pool))
  note (acquired pool)
  or_release pool (or_error (λ e. e) (detect_version d))

-- `Connect` leaves its caller the pool if it succeeds, and nothing to release if it fails.
pub connect-HoldsOnSuccess :
    {N : Type 0} (d : Driver) (dsn : Text) (p : Proc N)
    → IsTidy p
    → HoldsOnSuccess pool p (connect d dsn p)
unfolding connect detect_version
connect-HoldsOnSuccess d dsn p t = elim (Answer-cases (d.parse_config dsn)) [
  | inr (e, g) ↦ rw g (t, refl, refl)
  | inl (u, g) ↦ elim (Answer-cases d.new_pool) [
    | inr (e, h) ↦ rw g (rw h (t, refl, refl))
    | inl (v, h) ↦
        rw g (rw h (or_release-HoldsOnSuccess pool p (or_error (λ e. e) (detect_version d)) t))
  ]
]
