-- ===== src/Api/Stream/Tests.antt =====
-- A stream on a hub with another subscriber: the client misses a frame, and then its write fails.
use mathlib.Core.List.{Sublistᴰ, head?}
use pglockr.Prelude.{◌≡◌, ◌⊎◌, refl, true, false, List, [], ◌∷◌, ◌++◌}
use pglockr.Graph.{Snapshot}
use pglockr.Store.{latest}
use pglockr.Store.Ring
use pglockr.Store.Ring.Queries.{newest}
use pglockr.Store.Tests.{snap, three, hub as watched, hub-IsValid as watched-IsValid}
use pglockr.Store.Hub.{subscribe}
use pglockr.Api.Stream.{Event, ready, pinged, polled, Progress, handle_stream}
use pglockr.Prelude.Sublists.{pending}
use pglockr.Api.Stream.Sent.{history_of, handle_stream_lem}
use pglockr.Api.Stream.Drained.{one_by_one, catch_up, handle_stream-one_by_one}

abbrev events : List Event
events =
    polled (snap 40 [])
    ∷ polled (snap 50 [])
    ∷ ready true
    ∷ pinged true
    ∷ polled (snap 60 [])
    ∷ ready false
    ∷ []

watched_ring : Ring.IsValid watched.store
unfolding subscribe
watched_ring = Ring.new-IsValid 2

-- Two puts come between `Subscribe` and `Latest`.
abbrev between : List Snapshot
between = snap 20 [] ∷ snap 30 [] ∷ []

handle_stream_lem_example :
    let out : Progress = handle_stream true true true between events watched in
    (out.hub.crashed ≡ false)
    × Sublistᴰ out.sent (history_of watched between events)
    × ((out.running ≡ true) × (out.hub.subs ≡ (subscribe watched).2.subs)
        ⊎ (out.running ≡ false) × (out.hub.subs ≡ watched.subs))
unfolding subscribe
handle_stream_lem_example = handle_stream_lem true between events watched-IsValid watched_ring refl

handle_stream-one_by_one_example :
    let out : Progress =
      handle_stream true true true between (catch_up between (one_by_one three)) watched in
    (out.sent
      ≡ pending (newest between (latest watched.store)) ++ (pending (head? between) ++ three))
    × (out.running ≡ true)
unfolding subscribe
handle_stream-one_by_one_example =
    handle_stream-one_by_one between three watched-IsValid watched_ring refl
