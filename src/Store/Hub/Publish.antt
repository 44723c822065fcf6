-- ===== src/Store/Hub/Publish.antt =====
-- Subscribers' channels stay open and apart, and a `Put` that nothing comes between offers its
-- snapshot to each of them.
use mathlib.Core.List.{Sublistᴰ}
use pglockr.Prelude.{
  append-nil, Option, none, some, subst, Bool, true, ◌++◌, ℕ, ◌<◌, ◌≡◌, refl, ◌∙◌, ap, false, List,
  [], ◌∷◌, if◌then◌else◌, nat_beq_iff, nat_eq, arith, All, elem, Distinct,
}
use pglockr.Prelude.Sublists.{pending, more, both_more}
use pglockr.Graph.{Snapshot}
use pglockr.Store.{put}
use pglockr.Store.Hub.{Hub, Channel, update, addresses, begin_put, offer, send, publish, put_whole}

abbrev pub Open : Hub → ℕ → Type 0
Open h a = (h.channels a).closed ≡ false

abbrev pub ids : List (ℕ × ℕ) → List ℕ
ids [] = []
ids ((i, a) ∷ ss) = i ∷ ids ss

pub record IsValid (h : Hub) : Type 0 where
  pub subs_open : All (λ a. (h.channels a).closed ≡ false) (addresses h.subs)
  pub apart : Distinct (addresses h.subs)
  pub old_addrs : All (λ a. a < h.next_addr) (addresses h.subs)
  pub old_ids : All (λ i. i < h.next_id) (ids h.subs)

-- The hub after one send on an open channel.
abbrev pub offered : Snapshot → ℕ → Hub → Hub
offered snap a h = record h { channels = update h.channels a (offer snap (h.channels a)) }

pub send-Open : (snap : Snapshot) (a : ℕ) (h : Hub) → Open h a → send snap a h ≡ offered snap a h
unfolding send
send-Open snap a h p = rw p

pub offered-Open : (snap : Snapshot) (a b : ℕ) (h : Hub) → Open h b → Open (offered snap a h) b
offered-Open snap a b h p = ground (arith, nat_beq_iff a b)

pub All-offered :
    (snap : Snapshot) (a : ℕ) (h : Hub) (addrs : List ℕ)
    → All (Open h) addrs
    → All (Open (offered snap a h)) addrs
All-offered snap a h [] o = tt
All-offered snap a h (b ∷ bs) (p, o) = (offered-Open snap a b h p, All-offered snap a h bs o)

offer_again :
    (snap : Snapshot) (a b : ℕ) (addrs : List ℕ) (h : Hub)
    → (if elem b addrs
        then offer snap ((offered snap a h).channels b)
        else (offered snap a h).channels b)
      ≡ (if elem b (a ∷ addrs) then offer snap (h.channels b) else h.channels b)
offer_again snap a b addrs h = ground (arith, nat_beq_iff a b)

pub publish_open :
    (snap : Snapshot) (addrs : List ℕ) (h : Hub)
    → h.crashed ≡ false
    → All (λ a. (h.channels a).closed ≡ false) addrs
    → ((publish snap addrs h).crashed ≡ false)
      × ((b : ℕ)
          → (publish snap addrs h).channels b
            ≡ (if elem b addrs then offer snap (h.channels b) else h.channels b))
unfolding publish
publish_open snap [] h e o = (e, λ b. refl)
publish_open snap (a ∷ addrs) h e (p, o) =
    let step : publish snap (a ∷ addrs) h ≡ publish snap addrs (offered snap a h) =
      ap (λ c. if c then h else publish snap addrs (send snap a h)) e
      ∙ ap (publish snap addrs) (send-Open snap a h p) in
    let (c, f) = publish_open snap addrs (offered snap a h) e (All-offered snap a h addrs o) in
    (
      ap (λ (g : Hub). g.crashed) step ∙ c,
      λ b. ap (λ (g : Hub). g.channels b) step ∙ f b ∙ offer_again snap a b addrs h,
    )

publish_subs :
    (snap : Snapshot) (addrs : List ℕ) (h : Hub)
    → ((publish snap addrs h).subs ≡ h.subs)
      × ((publish snap addrs h).next_id ≡ h.next_id)
      × ((publish snap addrs h).next_addr ≡ h.next_addr)
unfolding publish send
publish_subs snap [] h = (refl, refl, refl)
publish_subs snap (a ∷ addrs) h = ground (arith, publish_subs snap addrs (send snap a h))

elem-closed :
    (h : Hub) (snap : Snapshot) (b : ℕ) (x y : Channel)
    → x.closed ≡ false
    → (if elem b (addresses h.subs) then offer snap x else x).closed ≡ false
elem-closed h snap b x y e = ground arith

-- An offer leaves in order what was delivered on a channel.
pub offer-order :
    (o : Option Snapshot) (closed : Bool) (x : Snapshot) (sent history : List Snapshot)
    → Sublistᴰ (sent ++ pending o) history
    → Sublistᴰ
        (sent ++ pending (offer x (record { frame = o; closed = closed })).frame)
        (history ++ x ∷ [])
offer-order none closed x sent history s =
    both_more (x ∷ []) (subst (λ xs. Sublistᴰ xs history) (append-nil sent) s)
offer-order (some y) closed x sent history s = more (x ∷ []) s

-- `Put` with nothing in between, on a hub whose subscribers' channels are open.
pub put_whole_open :
    (snap : Snapshot) (h : Hub)
    → All (λ a. (h.channels a).closed ≡ false) (addresses h.subs)
    → h.crashed ≡ false
    → ((put_whole snap h).crashed ≡ false)
      × ((put_whole snap h).subs ≡ h.subs)
      × ((b : ℕ)
          → (put_whole snap h).channels b
            ≡ (if elem b (addresses h.subs) then offer snap (h.channels b) else h.channels b))
unfolding put_whole begin_put
put_whole_open snap h o e =
    let (addrs, h') = begin_put snap h in
    let (c, f) = publish_open snap addrs h' e o in (c, (publish_subs snap addrs h').0, f)

publish-store :
    (snap : Snapshot) (addrs : List ℕ) (h : Hub) → (publish snap addrs h).store ≡ h.store
unfolding publish send
publish-store snap [] h = refl
publish-store snap (a ∷ addrs) h = ground (arith, publish-store snap addrs (send snap a h))

-- The sends leave the store as `Put` has made it.
pub store-put_whole : (snap : Snapshot) (h : Hub) → (put_whole snap h).store ≡ put snap h.store
unfolding put_whole begin_put
store-put_whole snap h = publish-store snap (begin_put snap h).0 (begin_put snap h).1

-- What waits in a channel after a `Put`, for a subscriber's channel and for another.
abbrev pub waiting : Snapshot → Bool → Option Snapshot → Option Snapshot
waiting snap true none = some snap
waiting snap false none = none
waiting snap subscribed (some old) = some old

offer-waiting :
    (snap : Snapshot) (subscribed : Bool) (c : Channel)
    → ((if subscribed then offer snap c else c).frame ≡ waiting snap subscribed c.frame)
      × ((if subscribed then offer snap c else c).closed ≡ c.closed)
offer-waiting snap subscribed c = by_frame subscribed c.frame
  where
    by_frame :
        (b : Bool) (o : Option Snapshot)
        → let old : Channel = record { frame = o; closed = c.closed } in
          ((if b then offer snap old else old).frame ≡ waiting snap b o)
          × ((if b then offer snap old else old).closed ≡ c.closed)
    by_frame true none = (refl, refl)
    by_frame false none = (refl, refl)
    by_frame true (some old) = (refl, refl)
    by_frame false (some old) = (refl, refl)

-- On a valid hub that has not panicked, a `Put` that nothing comes between does not panic, changes
-- no subscriber and closes no channel. Its snapshot then waits in the channel of each subscriber
-- whose channel was empty; a snapshot that waited before still does, and in no other channel does
-- anything come to wait.
pub put_whole_lem :
    (snap : Snapshot) {h : Hub}
    → IsValid h
    → h.crashed ≡ false
    → ((put_whole snap h).crashed ≡ false)
      × ((put_whole snap h).subs ≡ h.subs)
      × ((b : ℕ)
          → (((put_whole snap h).channels b).frame
              ≡ waiting snap (elem b (addresses h.subs)) (h.channels b).frame)
            × (((put_whole snap h).channels b).closed ≡ (h.channels b).closed))
put_whole_lem snap {h} v e =
    let (c, k, f) = put_whole_open snap h v.subs_open e in
    (
      c,
      k,
      λ b.
          let (w, d) = offer-waiting snap (elem b (addresses h.subs)) (h.channels b) in
          (ap (λ (a : Channel). a.frame) (f b) ∙ w, ap (λ (a : Channel). a.closed) (f b) ∙ d),
    )
