-- ===== src/Api/Stream/Turns.antt =====
-- What each turn of a stream's loop keeps to.
use mathlib.Core.List.{Sublistᴰ}
use pglockr.Prelude.{
  ℕ, ◌≡◌, refl, sym, ◌∙◌, ap, subst, ◌⊎◌, inl, inr, Bool, true, false, List, [], ◌∷◌, ◌++◌,
  append-nil, Option, none, some, if◌then◌else◌, All, elem, nat_eq, insert, arith, nat_beq_iff,
  lookup-insert,
}
use pglockr.Prelude.Sublists.{pending, prefix}
use pglockr.Graph.{Snapshot}
use pglockr.Store.Hub.{Hub, Channel, subscribe, receive, put_whole, addresses, offer}
use pglockr.Store.Hub.Publish.{IsValid, put_whole_open, offer-order}
use pglockr.Store.Hub.Subscribers.{unsubscribe-subscribe, unsubscribe-crashed, elem-lookup}
use pglockr.Api.Stream.{
  Event, cancelled, ready, pinged, polled, Progress, leave, write, on_frame, turn,
}

-- The snapshots that the poller puts during the stream.
abbrev pub polls : List Event → List Snapshot
polls [] = []
polls (cancelled ∷ es) = polls es
polls (ready works ∷ es) = polls es
polls (pinged answered ∷ es) = polls es
polls (polled x ∷ es) = x ∷ polls es

module _ {h : Hub} (v : IsValid h) where
  -- While the handler runs: its subscription is there, and what it has sent and will send next is
  -- in order among the history.
  pub record Goes (history : List Snapshot) (p : Progress) : Type 0 where
    pub subs_kept : p.hub.subs ≡ (subscribe h).2.subs
    pub all_open : All (λ a. (p.hub.channels a).closed ≡ false) (addresses (subscribe h).2.subs)
    pub calm : p.hub.crashed ≡ false
    pub order : Sublistᴰ (p.sent ++ pending (p.hub.channels h.next_addr).frame) history

  -- After its return: the subscribers are those of before.
  pub record Gone (history : List Snapshot) (p : Progress) : Type 0 where
    pub restored : p.hub.subs ≡ h.subs
    pub calm : p.hub.crashed ≡ false
    pub order : Sublistᴰ p.sent history

  abbrev pub Stands : List Snapshot → Progress → Type 0
  Stands history p = ((p.running ≡ true) × Goes history p) ⊎ ((p.running ≡ false) × Gone history p)

  leave-Stands :
      {history : List Snapshot} (p : Progress)
      → p.hub.subs ≡ (subscribe h).2.subs
      → p.hub.crashed ≡ false
      → Sublistᴰ p.sent history
      → Stands history (leave h.next_id p)
  leave-Stands p e c s = inr (
    refl,
    record {
      restored = unsubscribe-subscribe p.hub v e;
      calm = unsubscribe-crashed h.next_id p.hub ∙ c;
      order = s;
    },
  )

  pub write-Stands :
      (history : List Snapshot) (works : Bool) (x : Snapshot) (p : Progress)
      → p.running ≡ true
      → p.hub.subs ≡ (subscribe h).2.subs
      → All (λ a. (p.hub.channels a).closed ≡ false) (addresses (subscribe h).2.subs)
      → p.hub.crashed ≡ false
      → Sublistᴰ ((p.sent ++ x ∷ []) ++ pending (p.hub.channels h.next_addr).frame) history
      → Stands history (write h.next_id works x p)
  write-Stands history true x p r e o c s =
      inl (r, record { subs_kept = e; all_open = o; calm = c; order = s })
  write-Stands history false x p r e o c s = leave-Stands p e c (
      prefix p.sent (x ∷ []) history
        (prefix (p.sent ++ x ∷ []) (pending (p.hub.channels h.next_addr).frame) history s))

  -- The address of the subscription is among the subscribers'.
  subscribed : elem h.next_addr (addresses (subscribe h).2.subs) ≡ true
  unfolding subscribe
  subscribed =
      elem-lookup h.next_id h.next_addr (insert h.next_id h.next_addr h.subs)
        (ground (arith, lookup-insert h.next_id h.next_id h.next_addr h.subs))

  receive_open :
      (g : Hub) (addrs : List ℕ)
      → All (λ a. (g.channels a).closed ≡ false) addrs
      → All (λ a. ((receive h.next_addr g).1.channels a).closed ≡ false) addrs
  unfolding receive
  receive_open g [] o = tt
  receive_open g (a ∷ addrs) (p, o) =
      (ground (arith, p, nat_beq_iff h.next_addr a), receive_open g addrs o)

  put_open :
      (x : Snapshot) (g : Hub) (addrs : List ℕ)
      → ((b : ℕ)
          → (put_whole x g).channels b
            ≡ (if elem b (addresses g.subs) then offer x (g.channels b) else g.channels b))
      → All (λ a. (g.channels a).closed ≡ false) addrs
      → All (λ a. ((put_whole x g).channels a).closed ≡ false) addrs
  put_open x g [] f o = tt
  put_open x g (a ∷ addrs) f (p, o) = (ground (arith, p, f a), put_open x g addrs f o)

  open_at :
      (f : ℕ → Channel) (a : ℕ) (addrs : List ℕ)
      → All (λ b. (f b).closed ≡ false) addrs
      → elem a addrs ≡ true
      → (f a).closed ≡ false
  open_at f a [] o m = absurd (ground (arith, m))
  open_at f a (b ∷ addrs) (p, o) m = ground (arith, p, nat_beq_iff a b, open_at f a addrs o)

  pub emptied : (g : Hub) → ((receive h.next_addr g).1.channels h.next_addr).frame ≡ none
  unfolding receive
  emptied g = ground (arith, nat_beq_iff h.next_addr h.next_addr)

  pub as_it_is :
      {history : List Snapshot} (p : Progress) → Stands history p → Stands (history ++ []) p
  as_it_is {history} p s = subst (λ hs. Stands hs p) (sym (append-nil history)) s

  on_frame-Stands :
      (history : List Snapshot) (works : Bool) (o : Option Snapshot) (closed : Bool) (q : Progress)
      → q.running ≡ true
      → q.hub.subs ≡ (subscribe h).2.subs
      → All (λ a. (q.hub.channels a).closed ≡ false) (addresses (subscribe h).2.subs)
      → q.hub.crashed ≡ false
      → (q.hub.channels h.next_addr).frame ≡ none
      → closed ≡ false
      → Sublistᴰ (q.sent ++ pending o) history
      → Stands history (on_frame h.next_id works o closed q)
  on_frame-Stands history works (some x) closed q r e o c f k s =
      write-Stands history works x q r e o c
        (rw f (subst (λ xs. Sublistᴰ xs history) (sym (append-nil (q.sent ++ x ∷ []))) s))
  on_frame-Stands history works none true q r e o c f k s = absurd (ground (arith, k))
  on_frame-Stands history works none false q r e o c f k s =
      inl (r, record { subs_kept = e; all_open = o; calm = c; order = rw f s })

  pub ready-Stands :
      (history : List Snapshot) (works : Bool) (p : Progress)
      → p.running ≡ true
      → Goes history p
      → Stands history (turn h.next_id h.next_addr (ready works) p)
  unfolding turn receive
  ready-Stands history works p r g =
      let addrs : List ℕ = addresses (subscribe h).2.subs in
      on_frame-Stands history works (p.hub.channels h.next_addr).frame
        (p.hub.channels h.next_addr).closed (record p { hub = (receive h.next_addr p.hub).1 }) r
        g.subs_kept (receive_open p.hub addrs g.all_open) g.calm (emptied p.hub)
        (open_at p.hub.channels h.next_addr addrs g.all_open subscribed) g.order

  -- The calls of `put_whole` on a hub with this subscription.
  put_running :
      {history : List Snapshot} (x : Snapshot) (p : Progress)
      → Goes history p
      → ((put_whole x p.hub).crashed ≡ false)
        × ((put_whole x p.hub).subs ≡ p.hub.subs)
        × ((b : ℕ)
            → (put_whole x p.hub).channels b ≡ (
                if elem b (addresses p.hub.subs)
                then offer x (p.hub.channels b)
                else p.hub.channels b))
  put_running x p g =
      put_whole_open x p.hub
        (subst (λ ss. All (λ a. (p.hub.channels a).closed ≡ false) (addresses ss)) (sym g.subs_kept)
          g.all_open)
        g.calm

  pub put_offered :
      {history : List Snapshot} (x : Snapshot) (p : Progress)
      → Goes history p
      → (put_whole x p.hub).channels h.next_addr ≡ offer x (p.hub.channels h.next_addr)
  put_offered x p g =
      let old : Channel = p.hub.channels h.next_addr in
      (put_running x p g).2 h.next_addr
      ∙ ap (λ b. if b then offer x old else old)
          (ap (λ ss. elem h.next_addr (addresses ss)) g.subs_kept ∙ subscribed)

  pub put-Goes :
      (history : List Snapshot) (x : Snapshot) (p : Progress)
      → Goes history p
      → Goes (history ++ x ∷ []) (record p { hub = put_whole x p.hub })
  put-Goes history x p g =
      let (c, e, f) = put_running x p g in
      let old : Channel = p.hub.channels h.next_addr in
      record {
        subs_kept = e ∙ g.subs_kept;
        all_open = put_open x p.hub (addresses (subscribe h).2.subs) f g.all_open;
        calm = c;
        order =
            subst (λ (w : Channel). Sublistᴰ (p.sent ++ pending w.frame) (history ++ x ∷ []))
              (sym (put_offered x p g)) (offer-order old.frame old.closed x p.sent history g.order);
      }

  pub turn-Stands :
      (history : List Snapshot) (e : Event) (p : Progress)
      → p.running ≡ true
      → Goes history p
      → Stands (history ++ polls (e ∷ [])) (turn h.next_id h.next_addr e p)
  unfolding turn
  turn-Stands history cancelled p r g = as_it_is _ (
      leave-Stands p g.subs_kept g.calm
        (prefix p.sent (pending (p.hub.channels h.next_addr).frame) history g.order))
  turn-Stands history (ready works) p r g = as_it_is _ (ready-Stands history works p r g)
  turn-Stands history (pinged true) p r g = as_it_is _ (inl (r, g))
  turn-Stands history (pinged false) p r g = as_it_is _ (
      leave-Stands p g.subs_kept g.calm
        (prefix p.sent (pending (p.hub.channels h.next_addr).frame) history g.order))
  turn-Stands history (polled x) p r g = inl (r, put-Goes history x p g)

  pub polls-cons : (e : Event) (es : List Event) → polls (e ∷ []) ++ polls es ≡ polls (e ∷ es)
  polls-cons cancelled es = refl
  polls-cons (ready works) es = refl
  polls-cons (pinged answered) es = refl
  polls-cons (polled x) es = refl
