-- ===== src/Store/Hub/Race.antt =====
-- `Put` copies the channels under the lock and sends after it; an unsubscribe in between closes a
-- channel that `Put` still sends on.
use pglockr.Prelude.{
  ℕ, ◌≡◌, ◌∙◌, ap, true, List, [], ◌∷◌, some, if◌then◌else◌, nat_beq_iff, lookup, nat_eq, arith,
  elem,
}
use pglockr.Graph.{Snapshot}
use pglockr.Store.Hub.Subscribers.{elem-lookup}
use pglockr.Store.Hub.{Hub, close_found, unsubscribe, begin_put, send, publish}

publish_crashed :
    (snap : Snapshot) (addrs : List ℕ) (h : Hub)
    → h.crashed ≡ true
    → (publish snap addrs h).crashed ≡ true
unfolding publish
publish_crashed snap [] h e = e
publish_crashed snap (a ∷ addrs) h e =
    ap (λ c. (if c then h else publish snap addrs (send snap a h)).crashed) e ∙ e

-- Closed channels stay closed.
closed-send :
    (snap : Snapshot) (a b : ℕ) (h : Hub)
    → (h.channels b).closed ≡ true
    → ((send snap a h).channels b).closed ≡ true
unfolding send
closed-send snap a b h e = ground (arith, nat_beq_iff a b)

send_closed :
    (snap : Snapshot) (a : ℕ) (h : Hub)
    → (h.channels a).closed ≡ true
    → (send snap a h).crashed ≡ true
unfolding send
send_closed snap a h e = ground arith

pub publish_closed :
    (snap : Snapshot) (b : ℕ) (addrs : List ℕ) (h : Hub)
    → (h.channels b).closed ≡ true
    → elem b addrs ≡ true
    → (publish snap addrs h).crashed ≡ true
unfolding publish
publish_closed snap b [] h c e = absurd (ground arith)
publish_closed snap b (a ∷ addrs) h c e = ground (
  arith,
  nat_beq_iff b a,
  send_closed snap a h,
  publish_crashed snap addrs (send snap a h),
  closed-send snap a b h,
  publish_closed snap b addrs (send snap a h),
)

pub close_found_closed : (i a : ℕ) (h : Hub) → ((close_found i (some a) h).channels a).closed ≡ true
unfolding close_found
close_found_closed i a h = ground arith

-- If a subscriber unsubscribes between the lock of a `Put` and its sends, the send panics.
pub unsubscribe_between :
    (snap : Snapshot) (i a : ℕ) (h : Hub)
    → lookup i h.subs ≡ some a
    → let (addrs, h') = begin_put snap h in (publish snap addrs (unsubscribe i h')).crashed ≡ true
unfolding unsubscribe begin_put
unsubscribe_between snap i a h e =
    let (addrs, h') = begin_put snap h in
    publish_closed snap a addrs (unsubscribe i h')
      (ap (λ o. ((close_found i o h').channels a).closed) e ∙ close_found_closed i a h')
      (elem-lookup i a h.subs e)
