-- ===== src/Api.antt =====
-- internal/api: the routes under `/api` that act or that are guarded by a role, and the handlers of
-- the snapshots. A request is what internal/auth asks of it; the identity source, the parser of
-- numbers and times (`strconv.Atoi`, `time.Parse`) and PostgreSQL are parameters. A body is the
-- value that is encoded.
pub mod Actions
pub mod Reads
pub mod Locks
pub mod Past
pub mod Durable
pub mod Stream
pub mod Routes
pub mod Tests
use pglockr.Prelude.{
  ℕ, zero, suc, Bool, true, false, not, List, [], ◌∷◌, Option, none, some, Answer, ok, err,
  if◌then◌else◌, ltb, Text, codes, text_beq,
}
use pglockr.Prelude.Int.{ℤ, pos, negsuc}
use pglockr.Prelude.Time.{Time, zero_time}
use pglockr.Graph.{Snapshot}
use pglockr.Store.{Store, Meta, latest, at, history}
use pglockr.Auth.{Role, Principal, Request, operator, admin, at_least, check_origin}
use pglockr.Audit.{Entry, Sink}
use pglockr.Poller.{Status}
use pglockr.Pg.Inspect.{LockRow, HotObject}
use pglockr.Signal.{Action, Service, Result, do_signal}

-- A response: its status and its body. A body that `http.Error` writes is left out.
pub data Body : Type 0 where
  no_body : Body
  signal_result : Option Text → Result → Body
  one_snapshot : Snapshot → Body
  timeline : List Meta → Body
  entries : List Entry → Body
  health : Bool → Time → Body
  caller : Principal → Body
  clusters : List Status → Body
  lock_rows : List LockRow → Body
  objects : List HotObject → Body

pub record Response : Type 0 where
  pub status : ℕ
  pub body : Body

abbrev pub reply : ℕ → Body → Response
reply status body = record { status = status; body = body }

-- `auth.RequireRole` before a handler that is given the principal.
abbrev pub with_role : {A : Type 0} → (ℕ → A) → Role → Option Principal → (Principal → A) → A
with_role fail least none next = fail 401
with_role fail least (some p) next = if at_least p.role least then next p else fail 403

abbrev signal_answer : Option Text → Result → Response
signal_answer none res = reply 200 (signal_result none res)
signal_answer (some e) res = reply 502 (signal_result (some e) res)

-- Whom the attempt is attributed to.
abbrev actor_of : Option Principal → Text
actor_of none = codes "unknown"
actor_of (some p) = p.name

-- `doSignal`, on what `strconv.Atoi` makes of the path's `pid` and on the principal of the context.
pub handle_signal :
    {S : Type 0} ⦃sinks : Sink S⦄
    → Action
    → Option ℤ
    → Option Principal
    → Time
    → Service S
    → Response × Service S
handle_signal action none ctx now s = (reply 400 no_body, s)
handle_signal action (some pid) ctx now s =
    let (res, e, s') = do_signal action pid (actor_of ctx) now s in (signal_answer e res, s')

-- `requireSameOrigin` before a handler.
abbrev require_same_origin : {A : Type 0} → A → Request → A → A
require_same_origin refused r next = if check_origin r then next else refused

-- `POST /api/sessions/{pid}/cancel` and `/terminate`: `Authenticate`, `RequireRole(operator)`,
-- `requireSameOrigin`, and the handler.
pub post_signal :
    {S : Type 0} ⦃sinks : Sink S⦄
    → (Request → Option Principal)
    → Action
    → Option ℤ
    → Request
    → Time
    → Service S
    → Response × Service S
post_signal authenticate action pid r now s =
    with_role (λ status. (reply status no_body, s)) operator (authenticate r)
      (λ p. require_same_origin (reply 403 no_body, s) r (handle_signal action pid (some p) now s))

-- `handleAudit`, on any sink: `limit` is the text of the query.
pub handle_audit : {S : Type 0} ⦃sinks : Sink S⦄ → (Text → Option ℤ) → Text → S → Response
handle_audit {S} ⦃sinks⦄ atoi limit m =
    if text_beq limit [] then shown (sinks.list (pos 100) m) else parsed (atoi limit)
  where
    shown : Answer (List Entry) → Response
    shown (ok es) = reply 200 (entries es)
    shown (err e) = reply 500 no_body

    parsed : Option ℤ → Response
    parsed none = reply 400 no_body
    parsed (some (pos zero)) = reply 400 no_body
    parsed (some (pos (suc n))) = shown (sinks.list (pos (suc n)) m)
    parsed (some (negsuc n)) = reply 400 no_body

-- `GET /api/audit`
pub get_audit :
    {S : Type 0} ⦃sinks : Sink S⦄
    → (Request → Option Principal)
    → (Text → Option ℤ)
    → Text
    → Request
    → S
    → Response
get_audit authenticate atoi limit r m =
    with_role (λ status. reply status no_body) admin (authenticate r)
      (λ p. handle_audit atoi limit m)

abbrev pub found_or : ℕ → Option Snapshot → Response
found_or status none = reply status no_body
found_or status (some snap) = reply 200 (one_snapshot snap)

-- `handleSnapshot`
pub handle_snapshot : (Text → Option Time) → Text → Store → Response
handle_snapshot parse_time when s =
    if text_beq when [] then found_or 503 (latest s) else parsed (parse_time when)
  where
    parsed : Option Time → Response
    parsed none = reply 400 no_body
    parsed (some t) = found_or 404 (at s t)

-- `parseOptTime`
abbrev parse_opt_time : (Text → Option Time) → Text → Option Time
parse_opt_time parse_time v = if text_beq v [] then some zero_time else parse_time v

-- `handleHistory`
pub handle_history : (Text → Option Time) → Text → Text → Store → Response
handle_history parse_time from to s =
    window (parse_opt_time parse_time from) (parse_opt_time parse_time to)
  where
    window : Option Time → Option Time → Response
    window none to = reply 400 no_body
    window (some f) none = reply 400 no_body
    window (some f) (some t) = reply 200 (timeline (history s f t))

-- `handleHealthz`, on the status of the poller; the word in the body tells the same as `connected`.
pub handle_healthz : Status → Response
handle_healthz st = reply (if st.connected then 200 else 503) (health st.connected st.last_poll)

-- `handleMe`
pub handle_me : Option Principal → Response
handle_me none = reply 401 no_body
handle_me (some p) = reply 200 (caller p)

-- `handleClusters`
pub handle_clusters : Status → Response
handle_clusters st = reply 200 (clusters (st ∷ []))

-- `handleLocks`, on what `Locks` returns.
pub handle_locks : Answer (List LockRow) → Response
handle_locks (ok rows) = reply 200 (lock_rows rows)
handle_locks (err e) = reply 502 no_body

-- `handleHotObjects`, on what `HotObjects` returns.
pub handle_hot_objects : Answer (List HotObject) → Response
handle_hot_objects (ok objs) = reply 200 (objects objs)
handle_hot_objects (err e) = reply 502 no_body
