-- ===== src/Api/Stream.antt =====
-- internal/api/stream.go: the stream of snapshots to one client, as a run over what happens while
-- it lasts. Whether the upgrade is accepted, a write succeeds and a ping is answered comes from
-- the WebSocket library; the puts of the poller come in between, each as a whole: those between
-- `Subscribe` and `Latest`, and those of the loop's events. A put while a frame is written is one
-- after the write.
pub mod Turns
pub mod Sent
pub mod Drained
pub mod Tests
use pglockr.Prelude.{
  ℕ, Bool, true, false, not, List, [], ◌∷◌, ◌++◌, Option, none, some, if◌then◌else◌,
}
use pglockr.Graph.{Snapshot}
use pglockr.Store.{latest}
use pglockr.Store.Hub.{Hub, subscribe, unsubscribe, receive, put_whole}

-- What the `select` of the loop wakes up to, with what the call in its case then returns; and a
-- `Put` of the poller.
pub data Event : Type 0 where
  cancelled : Event
  ready pinged : Bool → Event
  polled : Snapshot → Event

-- The frames that the client was sent, oldest first, the hub, and whether the handler still runs.
pub record Progress : Type 0 where
  pub sent : List Snapshot
  pub hub : Hub
  pub running : Bool

-- The deferred `unsub()`.
abbrev pub leave : ℕ → Progress → Progress
leave id p = record p { hub = unsubscribe id p.hub; running = false }

-- `writeWS`, and the return on its error.
abbrev pub write : ℕ → Bool → Snapshot → Progress → Progress
write id works snap p = if works then record p { sent = p.sent ++ snap ∷ [] } else leave id p

-- The case `snap, ok := <-sub`, which an open and empty channel does not let happen.
abbrev pub on_frame : ℕ → Bool → Option Snapshot → Bool → Progress → Progress
on_frame id works (some snap) closed p = write id works snap p
on_frame id works none true p = leave id p
on_frame id works none false p = p

-- One turn of the loop, for the subscription `id` with the channel at `a`.
pub turn : ℕ → ℕ → Event → Progress → Progress
turn id a cancelled p = leave id p
turn id a (ready works) p =
    let (frame, h) = receive a p.hub in
    on_frame id works frame (p.hub.channels a).closed (record p { hub = h })
turn id a (pinged answered) p = if answered then p else leave id p
turn id a (polled snap) p = record p { hub = put_whole snap p.hub }

-- The loop. What happens after the return is not of the stream.
pub stream_loop : ℕ → ℕ → List Event → Progress → Progress
stream_loop id a [] p = p
stream_loop id a (e ∷ es) p =
    let rest = stream_loop id a es (turn id a e p) in if p.running then rest else p

abbrev pub greet : ℕ → Bool → Option Snapshot → Progress → Progress
greet id works none p = p
greet id works (some snap) p = write id works snap p

abbrev refused : Hub → Progress
refused h = record { sent = []; hub = h; running = false }

-- Puts of the poller, one after the other.
pub meanwhile : List Snapshot → Hub → Hub
meanwhile [] h = h
meanwhile (x ∷ xs) h = meanwhile xs (put_whole x h)

-- `handleStream`: whether `Accept` succeeds, whether the origin is the host, whether the first
-- write succeeds, and what is put after `Subscribe` and before `Latest`.
pub handle_stream : Bool → Bool → Bool → List Snapshot → List Event → Hub → Progress
handle_stream accepted same_origin works between events h =
    if not accepted
    then refused h
    else if not same_origin
    then refused h
    else (let (id, a, h') = subscribe h in
        let h'' = meanwhile between h' in
        stream_loop id a events
          (greet id works (latest h''.store) (record { sent = []; hub = h''; running = true })))
