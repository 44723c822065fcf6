-- ===== src/Api/Routes/Serve.antt =====
-- What any request to the server comes to.
use pglockr.Prelude.{
  ◌≡◌, refl, sym, subst, ◌⊎◌, inl, inr, Bool, true, false, List, [], map, none, some, get_elem?,
  All, Text, codes, Option-cases, arith,
}
use pglockr.Prelude.Indexed.{get_elem?-map, All-get_elem?}
use pglockr.Audit.{Sink}
use pglockr.Auth.{Principal, admin, at_least}
use pglockr.Api.{handle_healthz}
use pglockr.Api.Routes
use pglockr.Api.Routes.{
  Env, Router, App, Http, Route, Entry, Reaction, Endpoint, Guard, answers, streams, scrapes,
  serves_file, hit, miss, api_mount, route_pattern, entry_pattern,
}
use pglockr.Api.Routes.Dispatch.{
  admit, perform, run_route, run_mounted, run_entry, run_found, serve, at_found,
}
use pglockr.Api.Routes.Access.{
  is_public, shows_trail, Within, Acted, Allowed, Within-Allowed, plain-Allowed, api-Within,
}

module _ {S : Type 0} ⦃sinks : Sink S⦄ (env : Env) (router : Router) (r : Http) (app : App S) where
  mounted-Allowed :
      (p : Principal) (rts : List Route) (f : Routes.Found) (prefix : Text)
      → All (λ (rt : Route). Within env r app p rt.method (run_route env rt (some p) r app)) rts
      → router.pick prefix (map route_pattern rts) r.method r.path ≡ f
      → Allowed env r app p (at_found f rts app (λ o. run_found env o (some p) r app))
  mounted-Allowed p rts (miss status) prefix all e = plain-Allowed env r app p status
  mounted-Allowed p rts (hit n) prefix all e = elim (Option-cases (get_elem? rts n)) [
    | inl g ↦ rw g (plain-Allowed env r app p 404)
    | inr (rt, g) ↦
        subst (λ o. Allowed env r app p (run_found env o (some p) r app)) (sym g)
          (Within-Allowed env r app p rt.method (run_route env rt (some p) r app)
            (router.pick_lem prefix (map route_pattern rts) r.method r.path n (route_pattern rt) e
              (get_elem?-map route_pattern rts n g))
            (All-get_elem?
              (λ (rt : Route). Within env r app p rt.method (run_route env rt (some p) r app)) rts n
              all g))
  ]

  abbrev EntryKeeps : Entry → Type 0
  EntryKeeps entry =
      (env.identity r.asks ≡ none
        → ((run_entry env router (some entry) r app).1 ≡ app)
          × (is_public (run_entry env router (some entry) r app).0 ≡ true))
      × ((p : Principal)
          → env.identity r.asks ≡ some p
          → Allowed env r app p (run_entry env router (some entry) r app))

  mount-EntryKeeps : EntryKeeps api_mount
  unfolding admit run_mounted
  mount-EntryKeeps = (
    λ e. rw e (refl, refl),
    λ p e.
        rw e (mounted-Allowed p Routes.api_routes _ (codes "/api") (api-Within env r app p) refl),
  )

  entries-Keep : (has_metrics : Bool) → All EntryKeeps (Routes.routes has_metrics)
  unfolding Routes.routes admit run_route perform handle_healthz
  entries-Keep true = (
    (λ e. (refl, refl), λ p e. (inl refl, λ h. absurd (ground arith))),
    (
      (λ e. (refl, refl), λ p e. (inl refl, λ h. absurd (ground arith))),
      (mount-EntryKeeps, ((λ e. (refl, refl), λ p e. (inl refl, λ h. absurd (ground arith))), tt)),
    ),
  )
  entries-Keep false = (
    (λ e. (refl, refl), λ p e. (inl refl, λ h. absurd (ground arith))),
    (mount-EntryKeeps, ((λ e. (refl, refl), λ p e. (inl refl, λ h. absurd (ground arith))), tt)),
  )

  -- An `Allowed` answer of each of some entries is one of what is found among them.
  found-Keeps :
      (es : List Entry) (f : Routes.Found)
      → All EntryKeeps es
      → (env.identity r.asks ≡ none
          → ((at_found f es app (λ o. run_entry env router o r app)).1 ≡ app)
            × (is_public (at_found f es app (λ o. run_entry env router o r app)).0 ≡ true))
        × ((p : Principal)
            → env.identity r.asks ≡ some p
            → Allowed env r app p (at_found f es app (λ o. run_entry env router o r app)))
  found-Keeps es (miss status) all = (λ e. (refl, refl), λ p e. plain-Allowed env r app p status)
  found-Keeps es (hit n) all = elim (Option-cases (get_elem? es n)) [
    | inl g ↦ rw g (λ e. (refl, refl), λ p e. plain-Allowed env r app p 404)
    | inr (entry, g) ↦ rw g (All-get_elem? EntryKeeps es n all g)
  ]

-- Whatever chi finds for a request: without a principal, nothing changes and the answer shows
-- nothing but the health, the metrics and the files of the UI. With one, either nothing changes,
-- or the request is a `POST` of an operator at least, with an origin that passes and a process id,
-- and the service has done the signal on that process in the caller's name; and the audit trail is
-- shown only to an admin.
pub serve_lem :
    {S : Type 0} ⦃sinks : Sink S⦄ (env : Env) (router : Router) (has_metrics : Bool) (r : Http)
    (app : App S)
    → let out : Reaction × App S = serve env router has_metrics r app in
      (env.identity r.asks ≡ none → (out.1 ≡ app) × (is_public out.0 ≡ true))
      × ((p : Principal)
          → env.identity r.asks ≡ some p
          → ((out.1 ≡ app) ⊎ ((r.method ≡ codes "POST") × Acted env r app p out.1))
            × (shows_trail out.0 ≡ true → at_least p.role admin ≡ true))
unfolding serve
serve_lem env router has_metrics r app =
    found-Keeps env router r app (Routes.routes has_metrics)
      (router.pick [] (map entry_pattern (Routes.routes has_metrics)) r.method r.path)
      (entries-Keep env router r app has_metrics)
