-- ===== src/Api/Routes/Access.antt =====
-- What a request can see and change, by who sends it.
use pglockr.Prelude.{
  ℕ, ◌≡◌, refl, sym, ◌∙◌, ap, ◌⊎◌, inl, inr, Bool, true, false, [], ◌∷◌, Option, none, some, All,
  text_beq_iff, Text, codes, Bool-cases, arith,
}
use pglockr.Prelude.Int.{ℤ}
use pglockr.Audit.{Sink}
use pglockr.Auth.{Principal, operator, admin, at_least, check_origin}
use pglockr.Signal.{Action, do_signal, action_cancel, action_terminate}
use pglockr.Api.{
  Body, signal_result, one_snapshot, timeline, entries, health, caller, clusters, lock_rows,
  objects, no_body, reply, handle_signal, handle_me, handle_snapshot, handle_history, handle_locks,
  handle_hot_objects, handle_clusters,
}
use pglockr.Api.Routes
use pglockr.Api.Routes.{
  Env, Router, App, Http, Route, Entry, Reaction, Endpoint, Guard, answers, streams, scrapes,
  serves_file, hit, miss, api_mount, route_pattern, entry_pattern,
}
use pglockr.Api.Routes.Dispatch.{signals, admit, perform, run_route, behind}

-- A reaction without anything of the cluster but whether it answers.
abbrev pub is_public : Reaction → Bool
is_public (answers resp) = body_is_public resp.body
  where
    body_is_public : Body → Bool
    body_is_public no_body = true
    body_is_public (signal_result e res) = false
    body_is_public (one_snapshot snap) = false
    body_is_public (timeline ms) = false
    body_is_public (entries es) = false
    body_is_public (health works t) = true
    body_is_public (caller p) = false
    body_is_public (clusters sts) = false
    body_is_public (lock_rows rows) = false
    body_is_public (objects objs) = false
is_public streams = false
is_public scrapes = true
is_public (serves_file p) = true

-- A response with entries of the audit trail.
abbrev pub shows_trail : Reaction → Bool
shows_trail (answers resp) = has_entries resp.body
  where
    has_entries : Body → Bool
    has_entries no_body = false
    has_entries (signal_result e res) = false
    has_entries (one_snapshot snap) = false
    has_entries (timeline ms) = false
    has_entries (entries es) = true
    has_entries (health works t) = false
    has_entries (caller p) = false
    has_entries (clusters sts) = false
    has_entries (lock_rows rows) = false
    has_entries (objects objs) = false
shows_trail streams = false
shows_trail scrapes = false
shows_trail (serves_file p) = false

module _ {S : Type 0} ⦃sinks : Sink S⦄ (env : Env) (r : Http) (app : App S) where
  -- A signal to a process, on behalf of an operator whose request has an origin that passes.
  abbrev pub Acted : Principal → App S → Type 0
  Acted p after =
      (action : Action) × (n : ℤ) × (at_least p.role operator ≡ true)
      × (check_origin r.asks ≡ true)
      × (env.atoi (r.param (codes "pid")) ≡ some n)
      × (after ≡ record app { service = (do_signal action n p.name r.now app.service).2 })

  -- What a route may come to for a principal.
  abbrev pub Within : Principal → Option Text → Reaction × App S → Type 0
  Within p method out =
      ((out.1 ≡ app) ⊎ ((method ≡ some (codes "POST")) × Acted p out.1))
      × (shows_trail out.0 ≡ true → at_least p.role admin ≡ true)

  signal-shows :
      (action : Action) (o : Option ℤ) (c : Option Principal)
      → shows_trail (answers (handle_signal action o c r.now app.service).0) ≡ false
  unfolding handle_signal
  signal-shows action none c = refl
  signal-shows action (some n) c = ground arith

  read-shows :
      (when from to : Text)
      → (shows_trail (answers (handle_snapshot env.parse_time when app.store)) ≡ false)
        × (shows_trail (answers (handle_history env.parse_time from to app.store)) ≡ false)
        × (shows_trail (answers (handle_locks env.locks)) ≡ false)
        × (shows_trail (answers (handle_hot_objects env.hot_objects)) ≡ false)
  unfolding handle_snapshot handle_history handle_locks handle_hot_objects
  read-shows when from to = (ground arith, ground arith, ground arith, ground arith)

  acted :
      (action : Action) (o : Option ℤ) (p : Principal)
      → env.atoi (r.param (codes "pid")) ≡ o
      → at_least p.role operator ≡ true
      → check_origin r.asks ≡ true
      → ((signals env action (some p) r app).1 ≡ app)
        ⊎ Acted p (signals env action (some p) r app).1
  unfolding handle_signal
  acted action none p e a c = rw e (inl refl)
  acted action (some n) p e a c = rw e (inr (action, n, a, c, refl, refl))

  -- A route of the group of the actions.
  action-Within :
      (action : Action) (p : Principal)
      → let out : Reaction × App S =
          behind
            (admit env (Guard.requires operator ∷ Guard.same_origin ∷ []) r (some p))
            app
            (λ c. signals env action c r app) in
        ((out.1 ≡ app) ⊎ Acted p out.1) × (shows_trail out.0 ≡ false)
  unfolding admit
  action-Within action p = elim (Bool-cases (at_least p.role operator)) [
    | inr e ↦ rw e (inl refl, refl)
    | inl e ↦ elim (Bool-cases (check_origin r.asks)) [
      | inr f ↦ rw e (rw f (inl refl, refl))
      | inl f ↦ rw e (
          rw f (
            rw (e, f) at (acted action (env.atoi (r.param (codes "pid"))) p refl e f),
            signal-shows action (env.atoi (r.param (codes "pid"))) (some p),
          ))
    ]
  ]

  audit-Within :
      (p : Principal)
      → Within p (some (codes "GET")) (
          behind
            (admit env (Guard.requires admin ∷ []) r (some p))
            app
            (λ c. perform env Endpoint.audit c r app))
  unfolding admit perform
  audit-Within p = elim (Bool-cases (at_least p.role admin)) [
    | inr e ↦ rw e (inl refl, λ h. cc)
    | inl e ↦ rw e (inl refl, λ h. refl)
  ]

  -- A route that only reads.
  read-Within :
      (p : Principal) (shown : Reaction)
      → shows_trail shown ≡ false
      → Within p (some (codes "GET")) (shown, app)
  read-Within p shown f = (inl refl, λ h. absurd (ground arith))

  posted-Within :
      (p : Principal) (out : Reaction × App S)
      → ((out.1 ≡ app) ⊎ Acted p out.1) × (shows_trail out.0 ≡ false)
      → Within p (some (codes "POST")) out
  posted-Within p out (inl e, f) = (inl e, λ h. absurd (ground arith))
  posted-Within p out (inr a, f) = (inr (refl, a), λ h. absurd (ground arith))

  -- Every route below `/api`.
  pub api-Within :
      (p : Principal)
      → All (λ (rt : Route). Within p rt.method (run_route env rt (some p) r app)) Routes.api_routes
  unfolding Routes.api_routes run_route perform admit handle_me handle_clusters
  api-Within p =
      let shown =
        read-shows (r.query (codes "at")) (r.query (codes "from")) (r.query (codes "to")) in
      (
        read-Within p (answers (handle_me (some p))) refl,
        (
          read-Within p (answers (handle_clusters app.status)) refl,
          (
            read-Within p
                (answers (handle_snapshot env.parse_time (r.query (codes "at")) app.store)) shown.0,
            (
              read-Within p
                  (answers (
                    handle_history env.parse_time (r.query (codes "from")) (r.query (codes "to"))
                      app.store))
                  shown.1,
              (
                read-Within p streams refl,
                (
                  read-Within p (answers (handle_locks env.locks)) shown.2,
                  (
                    read-Within p (answers (handle_hot_objects env.hot_objects)) shown.3,
                    (
                      posted-Within p _ (action-Within action_cancel p),
                      (posted-Within p _ (action-Within action_terminate p), (audit-Within p, tt)),
                    ),
                  ),
                ),
              ),
            ),
          ),
        ),
      )

  -- What any request of a principal may come to.
  abbrev pub Allowed : Principal → Reaction × App S → Type 0
  Allowed p out =
      ((out.1 ≡ app) ⊎ ((r.method ≡ codes "POST") × Acted p out.1))
      × (shows_trail out.0 ≡ true → at_least p.role admin ≡ true)

  pub Within-Allowed :
      (p : Principal) (method : Option Text) (out : Reaction × App S)
      → Routes.fits method r.method ≡ true
      → Within p method out
      → Allowed p out
  Within-Allowed p method out f (inl e, t) = (inl e, t)
  Within-Allowed p method out f (inr (m, a), t) = (
    inr (
      sym ((text_beq_iff (codes "POST") r.method).0 (sym (ap (λ o. Routes.fits o r.method) m) ∙ f)),
      a,
    ),
    t,
  )

  -- An answer that changes nothing and shows nothing.
  pub plain-Allowed : (p : Principal) (status : ℕ) → Allowed p (answers (reply status no_body), app)
  plain-Allowed p status = (inl refl, λ h. absurd (ground arith))
