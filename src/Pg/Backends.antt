-- ===== src/Pg/Backends.antt =====
-- internal/pg/signal.go: the two signals, and the service of internal/signal on top of them.
use pglockr.Prelude.{
  ◌≡◌, ◌↔◌, sym, ◌∙◌, ap, ◌&&◌, Bool, true, false, ◌++◌, none, some, Answer, ok, err, arith, Text,
  codes,
}
use pglockr.Prelude.Int.{ℤ}
use pglockr.Prelude.Time.{Time}
use pglockr.Audit.{Sink}
use pglockr.Signal.{Reply, Signaler, Service, action_cancel, action_terminate, do_signal, succeeded}
use pglockr.Signal.Trail.{reply_to, delivered-do_signal}

-- The answer to `SELECT fn(pid)`, and how `%d` writes a number.
module _ (query : Text → ℤ → Answer Bool) (show_int : ℤ → Text) where
  abbrev signal_reply : Text → ℤ → Answer Bool → Reply
  signal_reply fn pid (ok sent) = (sent, none)
  signal_reply fn pid (err e) = (false, some (fn ++ codes "(" ++ show_int pid ++ codes "): " ++ e))

  -- `signal`
  pub signal : Text → ℤ → Reply
  signal fn pid = signal_reply fn pid (query fn pid)

  -- `Cancel` and `Terminate`, as the service uses the client.
  pub signaler : Signaler
  signaler = record {
    cancel = signal (codes "pg_cancel_backend");
    terminate = signal (codes "pg_terminate_backend");
  }

  abbrev is_delivered : Reply → Bool
  is_delivered r = r.0 && succeeded r.1

  is_delivered_iff :
      (fn : Text) (pid : ℤ) (a : Answer Bool)
      → (is_delivered (signal_reply fn pid a) ≡ true) ↔ (a ≡ ok true)
  is_delivered_iff fn pid (ok true) = ground arith
  is_delivered_iff fn pid (ok false) = ground arith
  is_delivered_iff fn pid (err e) = ground arith

  -- A service on top of the client reports a cancel as delivered exactly when PostgreSQL answers
  -- `true` to `pg_cancel_backend` for that process, and a terminate exactly when it does so to
  -- `pg_terminate_backend`.
  pub do_signal-signaler :
      {S : Type 0} ⦃sinks : Sink S⦄ (pid : ℤ) (actor : Text) (now : Time) (s : Service S)
      → s.sig ≡ signaler
      → (((do_signal action_cancel pid actor now s).0.delivered ≡ true)
          ↔ (query (codes "pg_cancel_backend") pid ≡ ok true))
        × (((do_signal action_terminate pid actor now s).0.delivered ≡ true)
            ↔ (query (codes "pg_terminate_backend") pid ≡ ok true))
  unfolding signaler signal
  do_signal-signaler pid actor now s e =
      let (c, c') =
        is_delivered_iff (codes "pg_cancel_backend") pid (query (codes "pg_cancel_backend") pid) in
      let (t, t') =
        is_delivered_iff (codes "pg_terminate_backend") pid
          (query (codes "pg_terminate_backend") pid) in
      let cancelled =
        delivered-do_signal action_cancel pid actor now s
        ∙ ap (λ sig. is_delivered (reply_to action_cancel pid sig)) e in
      let terminated =
        delivered-do_signal action_terminate pid actor now s
        ∙ ap (λ sig. is_delivered (reply_to action_terminate pid sig)) e in
      (
        (λ h. c (sym cancelled ∙ h), λ h. cancelled ∙ c' h),
        (λ h. t (sym terminated ∙ h), λ h. terminated ∙ t' h),
      )
