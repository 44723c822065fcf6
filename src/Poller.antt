-- ===== src/Poller.antt =====
-- internal/poller/poller.go: one poll, the loop of `Run` with its backoff, and the status. A round
-- of the loop is given what it asks its surroundings: what the source returns, the clock, and
-- whether the context is cancelled. The poll interval is positive (internal/config), so that a
-- duration that the loop sleeps is a natural number; what is left of an interval is cut off at 0.
pub mod Backoff
pub mod Runs
pub mod Observed
pub mod Stores
pub mod Tests
use pglockr.Prelude.{
  ℕ, ◌-◌, ◌*◌, Bool, true, false, List, [], ◌∷◌, Option, none, some, if◌then◌else◌, ltb, Text,
  Answer, ok, err,
}
use pglockr.Prelude.Time.{Time, zero_time}
use pglockr.Graph.{Sessions}
use pglockr.Graph.Builder.{Labels, build}
use pglockr.Store.{Store, put}

pub record Status : Type 0 where
  pub cluster : Text
  pub connected : Bool
  pub last_poll : Time
  pub last_error : Text

-- The poller with the store that it fills and the local `backoff` of `Run`. `slept` is what `Run`
-- last waited for, and `running` whether it has not returned.
pub record Poller : Type 0 where
  pub cluster : Text
  pub interval : ℕ
  pub store : Store
  pub status : Status
  pub backoff : ℕ
  pub slept : ℕ
  pub running : Bool

-- What a round meets. `walk` is the order of a map iteration in `Build`, `elapsed` is
-- `time.Since(start)` after the poll, `done` is `ctx.Err() != nil` after it, and `cancelled` is
-- whether the context is done before the sleep ends.
pub record Round : Type 0 where
  pub polled : Answer (Sessions × Labels)
  pub walk : List ℕ → List ℕ
  pub built_at : Time
  pub polled_at : Time
  pub elapsed : ℕ
  pub done : Bool
  pub cancelled : Bool

-- `30 * time.Second`
abbrev pub max_backoff : ℕ
max_backoff = 30 * 1000000000

-- `New`, and the start of `Run`.
pub start : Text → Store → ℕ → Poller
start cluster store interval = record {
  cluster = cluster;
  interval = interval;
  store = store;
  status = record { cluster = cluster; connected = false; last_poll = zero_time; last_error = [] };
  backoff = interval;
  slept = 0;
  running = true;
}

-- `setOK`
abbrev pub set_ok : Time → Status → Status
set_ok now s = record s { connected = true; last_poll = now; last_error = [] }

-- `setError`
abbrev pub set_error : Text → Status → Status
set_error e s = record s { connected = false; last_error = e }

-- `pollOnce`: the error, and the poller.
pub poll_once : Round → Poller → Option Text × Poller
poll_once r p = poll r.polled
  where
    poll : Answer (Sessions × Labels) → Option Text × Poller
    poll (err e) = (some e, p)
    poll (ok (sessions, labels)) = (
      none,
      record p {
        store = put (build r.walk p.cluster r.built_at sessions labels) p.store;
        status = set_ok r.polled_at p.status;
      },
    )

-- The backoff after a failure that has been slept out.
abbrev pub doubled : ℕ → ℕ
doubled b =
    if ltb b max_backoff then (if ltb max_backoff (b * 2) then max_backoff else b * 2) else b

-- The body of the loop after `pollOnce`.
after_poll : Round → Option Text × Poller → Poller
after_poll r (none, p) = record p {
  backoff = p.interval;
  slept = p.interval - r.elapsed;
  running = not_cancelled r.cancelled;
}
  where
    not_cancelled : Bool → Bool
    not_cancelled true = false
    not_cancelled false = true
after_poll r (some e, p) =
    if r.done
    then record p { running = false }
    else if r.cancelled
    then record p { status = set_error e p.status; slept = p.backoff; running = false }
    else record p { status = set_error e p.status; slept = p.backoff; backoff = doubled p.backoff }

-- A round of the loop of `Run`; a loop that has returned makes no more.
pub round : Round → Poller → Poller
unfolding after_poll
round r p = let next = after_poll r (poll_once r p) in if p.running then next else p

-- `Run`, as long as it has rounds.
pub run : List Round → Poller → Poller
run [] p = p
run (r ∷ rs) p = run rs (round r p)
