-- ===== src/Command/Process/Released.antt =====
-- What `run` leaves behind, and when the server listens.
use pglockr.Prelude.{◌≡◌, refl, List, [], some, ◌⊎◌, inl, inr, Text}
use pglockr.Config.{Config}
use pglockr.Config.Validate.{LoadError}
use pglockr.Config.Load.{load}
use pglockr.Command.{Identity, build_identity}
use pglockr.Command.Starts.{load-build_identity}
use pglockr.Lifecycle.{Effect, after, as_error, returned, held, deeds}
use pglockr.Command.Process.{Deed, RunError, bad_config, World, run_with, run_steps, run}
use pglockr.Command.Process.Stages.{Ends, run_with-Stage, returned-Stage}

-- The identity source of a configuration that was loaded.
identity_found :
    (w : World) (path : Text) {cfg : Config}
    → load w.files path ≡ inr cfg
    → (id : Identity) × (build_identity w.hash_token cfg.auth ≡ inr id)
identity_found w path {cfg} e = elim (load-build_identity w.hash_token w.files path e) [
  | inl (m, b) ↦ (_, b)
  | inr (m, (out, b, t)) ↦ (_, b)
]

-- However `run` ends, everything that it acquired is released, once and in the reverse order.
-- Without a configuration it does nothing else. With one, its identity source is found, and either
-- `run` ends with another error and no server has listened; or the last that it did was to have
-- the server listen, with that identity source and on the store that the poller had begun to fill,
-- after the output of the preflight, and it ends as the server does.
pub held-run :
    (w : World) (path : Text)
    → (held (run w path).1 ≡ some [])
      × (((e : LoadError) × (load w.files path ≡ inl e) × (run w path ≡ (inl (bad_config e), [])))
          ⊎ ((cfg : Config) × (id : Identity) × (load w.files path ≡ inr cfg)
              × (build_identity w.hash_token cfg.auth ≡ inr id)
              × Ends w cfg id (run w path).0 (deeds (run w path).1)))
unfolding run run_steps
held-run w path = by_load (load w.files path) refl
  where
    ran : LoadError ⊎ Config → (RunError ⊎ Unit {0}) × List (Effect Deed)
    ran r =
        returned (after (as_error bad_config r, record { log = []; deferred = [] }) (run_with w))

    by_load :
        (r : LoadError ⊎ Config)
        → load w.files path ≡ r
        → (held (ran r).1 ≡ some [])
          × (((e : LoadError) × (load w.files path ≡ inl e) × (ran r ≡ (inl (bad_config e), [])))
              ⊎ ((cfg : Config) × (id : Identity) × (load w.files path ≡ inr cfg)
                  × (build_identity w.hash_token cfg.auth ≡ inr id)
                  × Ends w cfg id (ran r).0 (deeds (ran r).1)))
    by_load (inl e) f = (refl, inl (e, f, refl))
    by_load (inr cfg) f =
        let (id, b) = identity_found w path f in
        let (t, ends) = returned-Stage w cfg id b _ (run_with-Stage w cfg id b) in
        (t, inr (cfg, id, f, b, ends))
