-- ===== src/Api/Routes/Dispatch.antt =====
-- internal/api: what the server makes of a request, by the table of routes.
use pglockr.Prelude.{
  Bool, List, [], ◌∷◌, map, Option, none, some, if◌then◌else◌, get_elem?, Text, codes, text_beq,
  nat_beq,
}
use pglockr.Audit.{Sink}
use pglockr.Auth.{Principal, Outcome, served, refused, authenticated, require_role}
use pglockr.Signal.{Action, action_cancel, action_terminate}
use pglockr.Api.{
  Response, reply, no_body, require_same_origin, handle_healthz, handle_me, handle_clusters,
  handle_snapshot, handle_history, handle_locks, handle_hot_objects, handle_signal, handle_audit,
}
use pglockr.Api.Routes.{
  Http, Stat, present, absent, unreadable, Env, App, Reaction, answers, streams, scrapes,
  serves_file, Endpoint, healthz, metrics, me, clusters, snapshot, history, stream, locks,
  hot_objects, cancel, terminate, audit, spa, Guard, authenticates, same_origin, requires, Route,
  Entry, handles, mounts, routes, Found, hit, miss, Router, route_pattern, entry_pattern,
}

-- A middleware before what it wraps, on the principal of the context.
abbrev pub pass : Env → Guard → Http → Option Principal → Outcome
pass env authenticates r ctx = authenticated (env.identity r.asks) served
pass env (requires least) r ctx = require_role least served ctx
pass env same_origin r ctx = require_same_origin (refused 403) r.asks (served ctx)

abbrev and_then : Outcome → (Option Principal → Outcome) → Outcome
and_then (served ctx) next = next ctx
and_then (refused status) next = refused status

-- A chain of middleware.
unfoldable pub admit : Env → List Guard → Http → Option Principal → Outcome
admit env [] r ctx = served ctx
admit env (g ∷ gs) r ctx = and_then (pass env g r ctx) (λ c. admit env gs r c)

-- `trimLeadingSlash`
abbrev trim_leading_slash : Text → Text
trim_leading_slash [] = []
trim_leading_slash (c ∷ p) = if nat_beq c b'/' then p else c ∷ p

abbrev file_for : Stat → Text → Text
file_for present p = p
file_for absent p = codes "/"
file_for unreadable p = p

-- `spaHandler`: the path that the file server is given.
unfoldable pub spa_path : (Text → Stat) → Text → Text
spa_path stat p = if text_beq p (codes "/") then p else file_for (stat (trim_leading_slash p)) p

-- The sink is never nil in the command; a call on a nil one panics, which `Recoverer` answers.
abbrev audit_answer : {S : Type 0} ⦃sinks : Sink S⦄ → Env → Text → Option S → Response
audit_answer env limit none = reply 500 no_body
audit_answer env limit (some m) = handle_audit env.atoi limit m

-- `handleCancel` and `handleTerminate`
abbrev pub signals :
    {S : Type 0} ⦃sinks : Sink S⦄
    → Env
    → Action
    → Option Principal
    → Http
    → App S
    → Reaction × App S
signals env action ctx r app =
    let (resp, s) = handle_signal action (env.atoi (r.param (codes "pid"))) ctx r.now app.service in
    (answers resp, record app { service = s })

unfoldable pub perform :
    {S : Type 0} ⦃sinks : Sink S⦄
    → Env
    → Endpoint
    → Option Principal
    → Http
    → App S
    → Reaction × App S
perform env healthz ctx r app = (answers (handle_healthz app.status), app)
perform env metrics ctx r app = (scrapes, app)
perform env me ctx r app = (answers (handle_me ctx), app)
perform env clusters ctx r app = (answers (handle_clusters app.status), app)
perform env snapshot ctx r app =
    (answers (handle_snapshot env.parse_time (r.query (codes "at")) app.store), app)
perform env history ctx r app = (
  answers (handle_history env.parse_time (r.query (codes "from")) (r.query (codes "to")) app.store),
  app,
)
perform env stream ctx r app = (streams, app)
perform env locks ctx r app = (answers (handle_locks env.locks), app)
perform env hot_objects ctx r app = (answers (handle_hot_objects env.hot_objects), app)
perform env cancel ctx r app = signals env action_cancel ctx r app
perform env terminate ctx r app = signals env action_terminate ctx r app
perform env audit ctx r app =
    (answers (audit_answer env (r.query (codes "limit")) app.service.sink), app)
perform env spa ctx r app = (serves_file (spa_path env.stat r.path), app)

abbrev pub behind :
    {S : Type 0} → Outcome → App S → (Option Principal → Reaction × App S) → Reaction × App S
behind (served ctx) app next = next ctx
behind (refused status) app next = (answers (reply status no_body), app)

-- A route's handler behind its middleware.
unfoldable pub run_route :
    {S : Type 0} ⦃sinks : Sink S⦄ → Env → Route → Option Principal → Http → App S → Reaction × App S
run_route env rt ctx r app =
    behind (admit env rt.guards r ctx) app (λ c. perform env rt.endpoint c r app)

abbrev pub run_found :
    {S : Type 0} ⦃sinks : Sink S⦄
    → Env
    → Option Route
    → Option Principal
    → Http
    → App S
    → Reaction × App S
run_found env none ctx r app = (answers (reply 404 no_body), app)
run_found env (some rt) ctx r app = run_route env rt ctx r app

abbrev pub at_found :
    {A S : Type 0} → Found → List A → App S → (Option A → Reaction × App S) → Reaction × App S
at_found (hit n) xs app next = next (get_elem? xs n)
at_found (miss status) xs app next = (answers (reply status no_body), app)

-- A mounted table. Its middleware runs before it is searched.
unfoldable pub run_mounted :
    {S : Type 0} ⦃sinks : Sink S⦄
    → Env
    → Router
    → Text
    → List Route
    → Option Principal
    → Http
    → App S
    → Reaction × App S
run_mounted env router prefix rts ctx r app =
    at_found (router.pick prefix (map route_pattern rts) r.method r.path) rts app
      (λ o. run_found env o ctx r app)

abbrev pub run_entry :
    {S : Type 0} ⦃sinks : Sink S⦄ → Env → Router → Option Entry → Http → App S → Reaction × App S
run_entry env router none r app = (answers (reply 404 no_body), app)
run_entry env router (some (handles rt)) r app = run_route env rt none r app
run_entry env router (some (mounts prefix gs rts)) r app =
    behind (admit env gs r none) app (λ c. run_mounted env router prefix rts c r app)

-- A request to the handler that `Handler` returns.
unfoldable pub serve :
    {S : Type 0} ⦃sinks : Sink S⦄ → Env → Router → Bool → Http → App S → Reaction × App S
serve env router has_metrics r app =
    at_found (router.pick [] (map entry_pattern (routes has_metrics)) r.method r.path)
      (routes has_metrics) app (λ o. run_entry env router o r app)
