-- ===== src/Store/Hub/Interleave/Safe.antt =====
-- What holds however the steps of a poller and of its subscribers are mixed.
use mathlib.Core.List.{Sublistᴰ}
use pglockr.Prelude.{
  ℕ, ◌≡◌, sym, subst, true, false, [], ◌++◌, Option, none, some, if◌then◌else◌, nat_eq, lookup,
  arith, Bool, All, elem,
}
use pglockr.Prelude.Sublists.{pending, more}
use pglockr.Store.Hub.{Hub, unsubscribe, close_found, publish}
use pglockr.Store.Hub.Publish.{IsValid, Open, publish_open}
use pglockr.Store.Hub.Race.{publish_closed, close_found_closed}
use pglockr.Store.Hub.Interleave.{
  Phase, idle, sending, World, targets, in_flight, is_target, Reach, here, later,
}
use pglockr.Store.Hub.Interleave.Kept.{Keeps, delivered, Step-Keeps}

pub Reach-Keeps :
    {h : Hub} {w : World}
    → IsValid h
    → h.crashed ≡ false
    → ((a : ℕ) → (h.channels a).frame ≡ none)
    → Reach h w
    → Keeps w
Reach-Keeps {h} v c f here = record {
  valid = v;
  calm = c;
  ahead = tt;
  once = tt;
  order = λ a. subst (λ o. Sublistᴰ (pending o) []) (sym (f a)) Sublistᴰ.slnil;
}
Reach-Keeps v c f (later r s) = Step-Keeps s (Reach-Keeps v c f r)

-- The rest of the put that goes on, with nothing in between.
abbrev pub finished : Phase → Hub → Hub
finished idle h = h
finished (sending snap addrs) h = publish snap addrs h

finished-calm :
    (p : Phase) (h : Hub)
    → h.crashed ≡ false
    → All (Open h) (targets p)
    → (finished p h).crashed ≡ false
finished-calm idle h c o = c
finished-calm (sending snap addrs) h c o = (publish_open snap addrs h c o).0

finished_closed :
    (p : Phase) (o : Option ℕ) (id : ℕ) (h : Hub)
    → is_target o (targets p) ≡ true
    → (finished p (close_found id o h)).crashed ≡ true
finished_closed p none id h e = absurd (ground arith)
finished_closed idle (some a) id h e = absurd (ground arith)
finished_closed (sending snap addrs) (some a) id h e =
    publish_closed snap a addrs (close_found id (some a) h) (close_found_closed id a h) e

in_order : (w : World) (a : ℕ) → Keeps w → Sublistᴰ (delivered w a) (w.over ++ in_flight w.phase)
in_order w a k = widened (elem a (targets w.phase)) (k.order a)
  where
    widened :
        (b : Bool)
        → Sublistᴰ (delivered w a) (if b then w.over else w.over ++ in_flight w.phase)
        → Sublistᴰ (delivered w a) (w.over ++ in_flight w.phase)
    widened true s = more (in_flight w.phase) s
    widened false s = s

-- Of a valid hub that has not panicked, on whose channels nothing waits, however the poller's
-- puts, send by send, and the steps of subscribers follow one another, if nobody unsubscribes
-- while the poller has yet to send on its channel: nothing panics, now or when the put that goes
-- on is completed; the hub is valid; and what each channel has delivered and holds is, in order
-- and each at most once, some of the snapshots that were put. If somebody does unsubscribe then,
-- the completion of the put panics.
pub interleaved_lem :
    {h : Hub} {w : World}
    → IsValid h
    → h.crashed ≡ false
    → ((a : ℕ) → (h.channels a).frame ≡ none)
    → Reach h w
    → (w.hub.crashed ≡ false)
      × ((finished w.phase w.hub).crashed ≡ false)
      × IsValid w.hub
      × ((a : ℕ) → Sublistᴰ (delivered w a) (w.over ++ in_flight w.phase))
      × ((id : ℕ)
          → is_target (lookup id w.hub.subs) (targets w.phase) ≡ true
          → (finished w.phase (unsubscribe id w.hub)).crashed ≡ true)
unfolding unsubscribe
interleaved_lem {h} {w} v c f r =
    let k = Reach-Keeps v c f r in
    (
      k.calm,
      finished-calm w.phase w.hub k.calm k.ahead,
      k.valid,
      λ a. in_order w a k,
      λ id e. finished_closed w.phase (lookup id w.hub.subs) id w.hub e,
    )
