-- ===== src/Store/Hub/Interleave.antt =====
-- What the poller and the subscribers do to a hub, in any order: the sends of a `Put` one by one,
-- with the steps of other goroutines in between. There is one poller, so no second `Put` begins
-- before the end of the first.
pub mod Kept
pub mod Safe
pub mod Tests
use pglockr.Prelude.{
  ℕ, ◌≡◌, false, Bool, List, [], ◌∷◌, ◌++◌, Option, none, some, if◌then◌else◌, nat_beq, nat_eq,
  lookup, elem,
}
use pglockr.Prelude.Sublists.{pending}
use pglockr.Graph.{Snapshot}
use pglockr.Store.Hub.{Hub, subscribe, unsubscribe, receive, begin_put, send}

-- Where the poller is: outside of `Put`, or in the loop of its sends, with the channels that are
-- left.
pub data Phase : Type 0 where
  idle : Phase
  sending : Snapshot → List ℕ → Phase

-- A hub in use. Beside what the program keeps: the snapshots of the puts that are over, oldest
-- first, and what was received from each channel.
pub record World : Type 0 where
  pub hub : Hub
  pub phase : Phase
  pub over : List Snapshot
  pub got : ℕ → List Snapshot

-- The channels that the poller has yet to send on.
abbrev pub targets : Phase → List ℕ
targets idle = []
targets (sending snap addrs) = addrs

-- The snapshot of the put that goes on.
abbrev pub in_flight : Phase → List Snapshot
in_flight idle = []
in_flight (sending snap addrs) = snap ∷ []

abbrev pub took : (ℕ → List Snapshot) → ℕ → Option Snapshot → ℕ → List Snapshot
took got a frame b = if nat_beq a b then got b ++ pending frame else got b

-- The poller enters `Put`.
abbrev pub entered : Snapshot → World → World
entered snap w = record w {
  hub = (begin_put snap w.hub).1;
  phase = sending snap (begin_put snap w.hub).0;
}

-- Its next send.
abbrev pub sent_one : Snapshot → ℕ → List ℕ → World → World
sent_one snap a addrs w = record w { hub = send snap a w.hub; phase = sending snap addrs }

-- The end of the loop.
abbrev pub returned : Snapshot → World → World
returned snap w = record w { phase = idle; over = w.over ++ snap ∷ [] }

abbrev pub received : ℕ → World → World
received a w = record w { hub = (receive a w.hub).1; got = took w.got a (receive a w.hub).0 }

-- The channel of this subscription is among these.
abbrev pub is_target : Option ℕ → List ℕ → Bool
is_target none addrs = false
is_target (some a) addrs = elem a addrs

-- The steps of the goroutines, in which nobody unsubscribes while the poller has yet to send on its
-- channel.
pub data Step (w : World) : World → Type 0 where
  enters : (snap : Snapshot) → w.phase ≡ idle → Step w (entered snap w)
  sends :
      (snap : Snapshot) (a : ℕ) (addrs : List ℕ)
      → w.phase ≡ sending snap (a ∷ addrs)
      → Step w (sent_one snap a addrs w)
  returns : (snap : Snapshot) → w.phase ≡ sending snap [] → Step w (returned snap w)
  subscribes : Step w (record w { hub = (subscribe w.hub).2 })
  receives : (a : ℕ) → Step w (received a w)
  unsubscribes :
      (id : ℕ)
      → is_target (lookup id w.hub.subs) (targets w.phase) ≡ false
      → Step w (record w { hub = unsubscribe id w.hub })

-- What can come of a hub that nothing was put into.
pub data Reach (h : Hub) : World → Type 0 where
  here : Reach h (record { hub = h; phase = idle; over = []; got = λ a. [] })
  later : {w v : World} → Reach h w → Step w v → Reach h v
