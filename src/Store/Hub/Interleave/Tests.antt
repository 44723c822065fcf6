-- ===== src/Store/Hub/Interleave/Tests.antt =====
-- A put of a snapshot to two subscribers, one of which leaves after its own send and before the
-- other's.
use mathlib.Core.List.{Sublistᴰ}
use pglockr.Prelude.{
  ℕ, ◌≡◌, refl, true, false, none, lookup, insert, delete, nat_eq, arith, ◌++◌, [], ◌∷◌,
}
use pglockr.Store.Hub.{Hub, subscribe, unsubscribe, receive, begin_put, send}
use pglockr.Store.Hub.Publish.{IsValid}
use pglockr.Store.Hub.Subscribers.{subscribe-IsValid}
use pglockr.Store.Hub.Interleave.{
  World, idle, Reach, here, later, enters, sends, unsubscribes, receives, entered, sent_one,
  received, targets, in_flight, is_target,
}
use pglockr.Store.Hub.Interleave.Kept.{delivered}
use pglockr.Store.Hub.Interleave.Safe.{interleaved_lem, finished}
use pglockr.Store.Tests.{hub, hub-IsValid, snap}

-- Two subscribers.
abbrev crowd : Hub
crowd = (subscribe hub).2

abbrev fresh : World
fresh = record { hub = crowd; phase = idle; over = []; got = λ a. [] }

-- The first has its frame, takes it, and leaves.
abbrev half : World
half = sent_one (snap 10 []) 0 (1 ∷ []) (entered (snap 10 []) fresh)

abbrev left : World
left = record (received 0 half) { hub = unsubscribe 0 (received 0 half).hub }

crowd-calm : crowd.crashed ≡ false
unfolding subscribe
crowd-calm = refl

crowd-empty : (a : ℕ) → (crowd.channels a).frame ≡ none
unfolding subscribe
crowd-empty a = ground arith

left-Reach : Reach crowd left
unfolding begin_put subscribe insert send receive unsubscribe lookup delete
left-Reach =
    later
      (later (later (later here (enters (snap 10 []) refl)) (sends (snap 10 []) 0 (1 ∷ []) refl))
        (receives 0))
      (unsubscribes 0 refl)

interleaved_lem_example :
    (left.hub.crashed ≡ false)
    × ((finished left.phase left.hub).crashed ≡ false)
    × IsValid left.hub
    × ((a : ℕ) → Sublistᴰ (delivered left a) (left.over ++ in_flight left.phase))
    × ((id : ℕ)
        → is_target (lookup id left.hub.subs) (targets left.phase) ≡ true
        → (finished left.phase (unsubscribe id left.hub)).crashed ≡ true)
interleaved_lem_example =
    interleaved_lem (subscribe-IsValid hub-IsValid) crowd-calm crowd-empty left-Reach
