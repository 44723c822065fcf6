-- ===== src/Command/Process/Stages.antt =====
-- What holds of each stage of `run` with a configuration.
use pglockr.Prelude.{
  ℕ, ◌≡◌, refl, sym, ◌∙◌, ap, subst, Bool, true, false, List, [], ◌∷◌, Option, none, some, ◌⊎◌, inl,
  inr, Answer, ok, err, Text,
}
use pglockr.Store.{Store, new, set_persister}
use pglockr.Audit.Memory.{new_memory}
use pglockr.Pg.Connect.{connect, connect-HoldsOnSuccess}
use pglockr.Persist.Open.{open_db, open_db-HoldsOnSuccess}
use pglockr.Config.{Config}
use pglockr.Command.{Identity, build_identity, preflight}
use pglockr.Lifecycle.{
  Resource, signals, pool, database, acquired, Proc, Run, after, ◌>>=◌, ◌>>◌, defer, does, note,
  lift, pure, or_error, as_error, returned, held, deeds, IsTidy, HoldsOnSuccess, held-unwind,
  deeds-unwind,
}
use pglockr.Command.Process.{
  AuditSink, in_memory, in_history, observed, Deed, printed, polls, listens, RunError, bad_config,
  bad_connection, bad_history, bad_ui, bad_listener, bad_identity, World, Step, to_nat, print_if,
  open_if, open_history, serve_from, run_with,
}

abbrev pub told : Option Text → List Deed
told none = []
told (some t) = printed t ∷ []

abbrev pub listens_in : List Deed → Bool
listens_in [] = false
listens_in (printed t ∷ ds) = listens_in ds
listens_in (polls b p ∷ ds) = listens_in ds
listens_in (listens a id s sink ∷ ds) = true

abbrev pub is_identity_error : RunError → Bool
is_identity_error (bad_config e) = false
is_identity_error (bad_connection e) = false
is_identity_error (bad_history e) = false
is_identity_error (bad_ui e) = false
is_identity_error (bad_listener e) = false
is_identity_error (bad_identity e) = true

-- The store that the server answers from, and the sink.
abbrev pub store_if : Bool → World → Config → Store × AuditSink
store_if false w cfg = (new (to_nat cfg.poll.ring_size), in_memory (new_memory 1000))
store_if true w cfg = (set_persister (some w.history) (new (to_nat cfg.poll.ring_size)), in_history)

abbrev pub stored : World → Config → Store × AuditSink
stored w cfg = store_if cfg.persist.enabled w cfg

-- What a server that listens has done before, newest first.
abbrev pub served_deeds : World → Config → Identity → List Deed
served_deeds w cfg id =
    listens cfg.http_addr id (stored w cfg).0 (stored w cfg).1
    ∷ polls cfg.redaction (observed cfg (stored w cfg).0)
    ∷ told (preflight w.capabilities)

-- How a run with a configuration and its identity source ends: before the server listens, with an
-- error; or with what the server returns.
abbrev pub Ends : World → Config → Identity → RunError ⊎ Unit {0} → List Deed → Type 0
Ends w cfg id res ds =
    ((e : RunError) × (res ≡ inl e) × (is_identity_error e ≡ false) × (listens_in ds ≡ false))
    ⊎ ((res ≡ or_error bad_listener (w.listen cfg.http_addr)) × (ds ≡ served_deeds w cfg id))

told-listens_in : (o : Option Text) → listens_in (told o) ≡ false
told-listens_in none = refl
told-listens_in (some t) = refl

after-after :
    {N E A B C : Type 0} (x : (E ⊎ A) × Proc N) (f : A → Run N E B) (g : B → Run N E C)
    → after (after x f) g ≡ after x (λ a p. after (f a p) g)
after-after (inl e, p) f g = refl
after-after (inr a, p) f g = refl

module _ (w : World) (cfg : Config) (id : Identity)
    (found : build_identity w.hash_token cfg.auth ≡ inr id) where
  -- Where a stage has come to: what is held is deferred.
  abbrev pub Stage : (RunError ⊎ Unit {0}) × Proc Deed → Type 0
  Stage (res, q) = IsTidy q × Ends w cfg id res (deeds q.log)

  abbrev Told : Proc Deed → Type 0
  Told p = deeds p.log ≡ told (preflight w.capabilities)

  before_listening :
      (e : RunError) (p : Proc Deed)
      → is_identity_error e ≡ false
      → IsTidy p
      → listens_in (deeds p.log) ≡ false
      → Stage (inl e, p)
  before_listening e p i t l = (t, inl (e, refl, i, l))

  stored_if : {b : Bool} → cfg.persist.enabled ≡ b → stored w cfg ≡ store_if b w cfg
  stored_if e = ap (λ b. store_if b w cfg) e

  Told-listens_in : (p : Proc Deed) → Told p → listens_in (deeds p.log) ≡ false
  Told-listens_in p d = ap listens_in d ∙ told-listens_in (preflight w.capabilities)

  serve_from-Stage :
      (p : Proc Deed) (s : Store × AuditSink)
      → s ≡ stored w cfg
      → IsTidy p
      → Told p
      → Stage (serve_from w cfg s p)
  unfolding serve_from
  serve_from-Stage p s same t d = subst (λ s. Stage (serve_from w cfg s p)) (sym same) (by_ui w.ui)
    where
      st : Store × AuditSink
      st = stored w cfg

      polling : Proc Deed
      polling = record p { log = does (polls cfg.redaction (observed cfg st.0)) ∷ p.log }

      listening : Identity → Step (Unit {0})
      listening identity = do
        note (does (listens cfg.http_addr identity st.0 st.1))
        lift (or_error bad_listener (w.listen cfg.http_addr))

      by_ui :
          (ui : Answer (Unit {0}))
          → Stage (
              after
                (or_error bad_ui ui, polling)
                (λ u.
                  lift (as_error bad_identity (build_identity w.hash_token cfg.auth))
                  >>= listening))
      by_ui (err e) = before_listening (bad_ui e) polling refl t (Told-listens_in p d)
      by_ui (ok u) =
          subst (λ o. Stage (after (as_error bad_identity o, polling) listening)) (sym found)
            (
              t,
              inr (
                refl,
                ap
                    (λ ds.
                      listens cfg.http_addr id st.0 st.1
                      ∷ polls cfg.redaction (observed cfg st.0)
                      ∷ ds)
                    d,
              ),
            )

  -- A call that acquires a resource, which is deferred, and what comes after it.
  acquired_step :
      {A : Type 0} (f : Text → RunError) (r : Resource) (p : Proc Deed)
      (out : (Text ⊎ A) × Proc Deed) (k : A → Step (Unit {0}))
      → ((e : Text) → is_identity_error (f e) ≡ false)
      → HoldsOnSuccess r p out
      → Told p
      → ((a : A) (q : Proc Deed) → IsTidy q → Told q → Stage (k a q))
      → Stage (after (as_error f out.0, out.1) (λ a. defer r >> k a))
  acquired_step f r p (inl e, q) k i h d next =
      before_listening (f e) q (i e) (h.0 ∙ ap some (sym h.1))
        (ap listens_in h.2 ∙ Told-listens_in p d)
  acquired_step f r p (inr a, q) k i h d next =
      next a (record q { deferred = r ∷ q.deferred }) (h.0 ∙ ap (λ rs. some (r ∷ rs)) (sym h.1))
        (h.2 ∙ d)

  history-Stage :
      (b : Bool) (p : Proc Deed)
      → cfg.persist.enabled ≡ b
      → IsTidy p
      → Told p
      → Stage (after (open_if b w cfg (new (to_nat cfg.poll.ring_size)) p) (serve_from w cfg))
  history-Stage false p e t d = serve_from-Stage p (store_if false w cfg) (sym (stored_if e)) t d
  history-Stage true p e t d =
      let out : (Text ⊎ Unit {0}) × Proc Deed = open_db w.opener cfg.persist.path p in
      let s : Store × AuditSink = store_if true w cfg in
      subst Stage
        (sym (
          after-after (as_error bad_history out.0, out.1) (λ u. defer database >> pure s)
            (serve_from w cfg)))
        (acquired_step bad_history database p out (λ u. serve_from w cfg s) (λ e. refl)
          (open_db-HoldsOnSuccess w.opener cfg.persist.path p t) d
          (λ u q. serve_from-Stage q s (sym (stored_if e))))

  -- From the preflight on.
  preflight-Stage :
      (o : Option Text) (p : Proc Deed)
      → preflight w.capabilities ≡ o
      → IsTidy p
      → deeds p.log ≡ []
      → Stage (
          after
            (print_if o p)
            (λ u. open_history w cfg (new (to_nat cfg.poll.ring_size)) >>= serve_from w cfg))
  unfolding open_history
  preflight-Stage none p e t d = history-Stage cfg.persist.enabled p refl t (d ∙ sym (ap told e))
  preflight-Stage (some text) p e t d =
      history-Stage cfg.persist.enabled (record p { log = does (printed text) ∷ p.log }) refl t
        (ap (λ ds. printed text ∷ ds) d ∙ sym (ap told e))

  connected :
      (p : Proc Deed) (out : (Text ⊎ ℕ) × Proc Deed)
      → HoldsOnSuccess pool p out
      → deeds p.log ≡ []
      → Stage (
          after
            (as_error bad_connection out.0, out.1)
            (λ num.
              defer pool
              >> (print_if (preflight w.capabilities)
                  >> (open_history w cfg (new (to_nat cfg.poll.ring_size)) >>= serve_from w cfg))))
  connected p (inl e, q) h d =
      before_listening (bad_connection e) q refl (h.0 ∙ ap some (sym h.1)) (ap listens_in (h.2 ∙ d))
  connected p (inr num, q) h d =
      preflight-Stage (preflight w.capabilities) (record q { deferred = pool ∷ q.deferred }) refl
        (h.0 ∙ ap (λ rs. some (pool ∷ rs)) (sym h.1)) (h.2 ∙ d)

  pub run_with-Stage : Stage (run_with w cfg (record { log = []; deferred = [] }))
  unfolding run_with
  run_with-Stage =
      let p : Proc Deed = record { log = acquired signals ∷ []; deferred = signals ∷ [] } in
      connected p (connect w.driver cfg.cluster.dsn p)
        (connect-HoldsOnSuccess w.driver cfg.cluster.dsn p refl) refl

  pub returned-Stage :
      (out : (RunError ⊎ Unit {0}) × Proc Deed)
      → Stage out
      → (held (returned out).1 ≡ some []) × Ends w cfg id (returned out).0 (deeds (returned out).1)
  returned-Stage (res, q) (t, e) = (
    held-unwind q.deferred q.log t,
    subst (Ends w cfg id res) (sym (deeds-unwind q.deferred q.log)) e,
  )
