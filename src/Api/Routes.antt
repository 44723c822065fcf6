-- ===== src/Api/Routes.antt =====
-- internal/api: the table of routes of `Handler` in server.go, its middleware, and the handler of
-- the embedded UI. Chi's matching of a method and a path with the patterns of a table is a
-- parameter, with one law: a route that it picks is of the table and fits the method. So is the
-- embedded file system.
pub mod Dispatch
pub mod Access
pub mod Serve
pub mod Tests
use pglockr.Prelude.{
  ℕ, ◌≡◌, Bool, true, false, List, [], ◌∷◌, map, Option, none, some, Answer, if◌then◌else◌,
  get_elem?, Text, codes, text_beq, nat_beq,
}
use pglockr.Prelude.Int.{ℤ}
use pglockr.Prelude.Time.{Time}
use pglockr.Store.{Store}
use pglockr.Audit.{Sink}
use pglockr.Auth.{
  Role, Principal, Request, Outcome, served, refused, authenticated, require_role, operator, admin,
}
use pglockr.Poller.{Status}
use pglockr.Pg.Inspect.{LockRow, HotObject}
use pglockr.Signal.{Service, Action, action_cancel, action_terminate}
use pglockr.Api.{
  Response, reply, no_body, require_same_origin, handle_healthz, handle_me, handle_clusters,
  handle_snapshot, handle_history, handle_locks, handle_hot_objects, handle_signal, handle_audit,
}

-- What the handlers ask of a request: beside what internal/auth asks, the values of its query, the
-- parameters that chi finds in its path, and when it is handled.
pub record Http : Type 0 where
  pub method : Text
  pub path : Text
  pub query : Text → Text
  pub param : Text → Text
  pub asks : Request
  pub now : Time

-- What `fs.Stat` says of a name in the embedded UI: `absent` is `fs.ErrNotExist`.
pub data Stat : Type 0 where
  present absent unreadable : Stat

-- What the handlers call beside the state: the identity source, `strconv.Atoi`, `time.Parse`, the
-- inspector, and the embedded UI.
pub record Env : Type 0 where
  pub identity : Request → Option Principal
  pub atoi : Text → Option ℤ
  pub parse_time : Text → Option Time
  pub locks : Answer (List LockRow)
  pub hot_objects : Answer (List HotObject)
  pub stat : Text → Stat

-- The state behind the server. The sink of the audit trail is the one of the service.
pub record App (S : Type 0) : Type 0 where
  pub store : Store
  pub status : Status
  pub service : Service S

-- What a request comes to: a response, the stream, the scrape of the metrics, or the file server's
-- answer for a path.
pub data Reaction : Type 0 where
  answers : Response → Reaction
  streams scrapes : Reaction
  serves_file : Text → Reaction

pub data Endpoint : Type 0 where
  healthz metrics me clusters snapshot history stream locks hot_objects : Endpoint
  cancel terminate audit spa : Endpoint

pub data Guard : Type 0 where
  authenticates same_origin : Guard
  requires : Role → Guard

-- `method` is `none` for `Handle`.
pub record Route : Type 0 where
  pub method : Option Text
  pub pattern : Text
  pub guards : List Guard
  pub endpoint : Endpoint

-- A line of the table of `Handler`.
pub data Entry : Type 0 where
  handles : Route → Entry
  mounts : Text → List Guard → List Route → Entry

abbrev pub get : Text → List Guard → Endpoint → Route
get p gs e = record { method = some (codes "GET"); pattern = p; guards = gs; endpoint = e }

abbrev post : Text → List Guard → Endpoint → Route
post p gs e = record { method = some (codes "POST"); pattern = p; guards = gs; endpoint = e }

abbrev any : Text → Endpoint → Route
any p e = record { method = none; pattern = p; guards = []; endpoint = e }

-- The group of the actions.
abbrev acting : List Guard
acting = requires operator ∷ same_origin ∷ []

-- The routes below `/api`.
unfoldable pub api_routes : List Route
api_routes =
    get (codes "/me") [] me
    ∷ get (codes "/clusters") [] clusters
    ∷ get (codes "/snapshot") [] snapshot
    ∷ get (codes "/history") [] history
    ∷ get (codes "/stream") [] stream
    ∷ get (codes "/locks") [] locks
    ∷ get (codes "/hot-objects") [] hot_objects
    ∷ post (codes "/sessions/{pid}/cancel") acting cancel
    ∷ post (codes "/sessions/{pid}/terminate") acting terminate
    ∷ get (codes "/audit") (requires admin ∷ []) audit
    ∷ []

abbrev pub api_mount : Entry
api_mount = mounts (codes "/api") (authenticates ∷ []) api_routes

abbrev with_metrics : Bool → List Entry → List Entry
with_metrics true es = handles (any (codes "/metrics") metrics) ∷ es
with_metrics false es = es

-- `Handler`: the table, with or without a handler for the metrics.
unfoldable pub routes : Bool → List Entry
routes has_metrics =
    handles (get (codes "/healthz") [] healthz)
    ∷ with_metrics has_metrics (api_mount ∷ handles (any (codes "/*") spa) ∷ [])

-- What chi finds for a request: the index of a route, or the status 404 or 405.
pub data Found : Type 0 where
  hit miss : ℕ → Found

abbrev pub Pattern : Type 0
Pattern = Option Text × Text

abbrev pub fits : Option Text → Text → Bool
fits none method = true
fits (some m) method = text_beq m method

-- Chi: for the prefix that a table is mounted at, the patterns of the table, and a method and a
-- path.
pub record Router : Type 0 where
  pub pick : Text → List Pattern → Text → Text → Found
  pub pick_lem :
      (prefix : Text) (ps : List Pattern) (method path : Text) (n : ℕ) (p : Pattern)
      → pick prefix ps method path ≡ hit n
      → get_elem? ps n ≡ some p
      → fits p.0 method ≡ true

abbrev pub route_pattern : Route → Pattern
route_pattern rt = (rt.method, rt.pattern)

abbrev pub entry_pattern : Entry → Pattern
entry_pattern (handles rt) = route_pattern rt
entry_pattern (mounts p gs rts) = (none, p)
