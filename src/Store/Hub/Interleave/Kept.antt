-- ===== src/Store/Hub/Interleave/Kept.antt =====
-- What each step of a poller and of its subscribers keeps to.
use mathlib.Core.List.{Sublistᴰ}
use pglockr.Prelude.{
  ℕ, ◌≡◌, refl, sym, subst, true, false, List, [], ◌∷◌, ◌++◌, append-nil, Option, none, some,
  if◌then◌else◌, nat_beq, nat_beq_iff, nat_eq, lookup, arith, inl, inr, Bool, Bool-cases, All, elem,
  elem-head, Distinct,
}
use pglockr.Prelude.Sublists.{pending, more, prefix}
use pglockr.Graph.{Snapshot}
use pglockr.Store.Hub.{
  Hub, Channel, update, subscribe, unsubscribe, close_found, receive, begin_put, addresses, offer,
}
use pglockr.Store.Hub.Publish.{IsValid, Open, offered, send-Open, All-offered, offer-order}
use pglockr.Store.Hub.Subscribers.{subscribe-IsValid, unsubscribe-IsValid, All-closed}
use pglockr.Store.Hub.Interleave.{
  Phase, idle, sending, World, targets, in_flight, entered, sent_one, returned, received, is_target,
  Step, enters, sends, returns, subscribes, receives, unsubscribes,
}

-- The snapshots that a channel can have been offered: not the one of the put that goes on as long
-- as the poller has yet to send it.
abbrev pub offers : Phase → List Snapshot → ℕ → List Snapshot
offers p over a = if elem a (targets p) then over else over ++ in_flight p

-- What was received from a channel, and the frame that waits in it.
abbrev pub delivered : World → ℕ → List Snapshot
delivered w a = w.got a ++ pending (w.hub.channels a).frame

pub record Keeps (w : World) : Type 0 where
  pub valid : IsValid w.hub
  pub calm : w.hub.crashed ≡ false
  pub ahead : All (Open w.hub) (targets w.phase)
  pub once : Distinct (targets w.phase)
  pub order : (a : ℕ) → Sublistᴰ (delivered w a) (offers w.phase w.over a)

pub enters-Keeps : (snap : Snapshot) {w : World} → w.phase ≡ idle → Keeps w → Keeps (entered snap w)
unfolding begin_put
enters-Keeps snap {w} e k = record {
  valid = record {
    subs_open = k.valid.subs_open;
    apart = k.valid.apart;
    old_addrs = k.valid.old_addrs;
    old_ids = k.valid.old_ids;
  };
  calm = k.calm;
  ahead = k.valid.subs_open;
  once = k.valid.apart;
  order = λ a. started a (elem a (addresses w.hub.subs));
}
  where
    whole : (a : ℕ) → Sublistᴰ (delivered w a) w.over
    whole a =
        subst (Sublistᴰ (delivered w a)) (append-nil w.over)
          (subst (λ p. Sublistᴰ (delivered w a) (offers p w.over a)) e (k.order a))

    started :
        (a : ℕ) (b : Bool) → Sublistᴰ (delivered w a) (if b then w.over else w.over ++ snap ∷ [])
    started a true = whole a
    started a false = more (snap ∷ []) (whole a)

update_same : (f : ℕ → Channel) (a : ℕ) (c : Channel) → update f a c a ≡ c
update_same f a c = ground (arith, nat_beq_iff a a)

module _ (f : ℕ → Channel) (got : ℕ → List Snapshot) (over : List Snapshot) (snap : Snapshot)
    (a : ℕ) (addrs : List ℕ) (n : elem a addrs ≡ false) where
  sends-order :
      ((b : ℕ)
        → Sublistᴰ
            (got b ++ pending (f b).frame)
            (if elem b (a ∷ addrs) then over else over ++ snap ∷ []))
      → (b : ℕ)
      → Sublistᴰ
          (got b ++ pending (update f a (offer snap (f a)) b).frame)
          (if elem b addrs then over else over ++ snap ∷ [])
  sends-order s b = elim (Bool-cases (nat_beq a b)) [
    | inr e ↦
        let d : nat_beq b a ≡ false = ground (arith, nat_beq_iff a b, nat_beq_iff b a) in
        rw e (rw d at (s b))
    | inl e ↦
        subst
          (λ c.
            Sublistᴰ (got c ++ pending (update f a (offer snap (f a)) c).frame)
              (if elem c addrs then over else over ++ snap ∷ []))
          ((nat_beq_iff a b).0 e) at_a
  ]
    where
      before : Sublistᴰ (got a ++ pending (f a).frame) over
      before =
          subst
            (λ c. Sublistᴰ (got a ++ pending (f a).frame) (if c then over else over ++ snap ∷ []))
            (elem-head a addrs refl) (s a)

      at_a :
          Sublistᴰ
            (got a ++ pending (update f a (offer snap (f a)) a).frame)
            (if elem a addrs then over else over ++ snap ∷ [])
      at_a =
          subst
            (λ c.
              Sublistᴰ (got a ++ pending (update f a (offer snap (f a)) a).frame)
                (if c then over else over ++ snap ∷ []))
            (sym n)
            (subst (λ (c : Channel). Sublistᴰ (got a ++ pending c.frame) (over ++ snap ∷ []))
              (sym (update_same f a (offer snap (f a))))
              (offer-order (f a).frame (f a).closed snap (got a) over before))

at_phase : {w : World} {p : Phase} → w.phase ≡ p → Keeps w → Keeps (record w { phase = p })
at_phase {w} e k = subst (λ p. Keeps (record w { phase = p })) e k

offered-IsValid : (snap : Snapshot) (a : ℕ) {h : Hub} → IsValid h → IsValid (offered snap a h)
offered-IsValid snap a {h} v = record {
  subs_open = All-offered snap a h (addresses h.subs) v.subs_open;
  apart = v.apart;
  old_addrs = v.old_addrs;
  old_ids = v.old_ids;
}

pub sends-Keeps :
    (snap : Snapshot) (a : ℕ) (addrs : List ℕ) {w : World}
    → w.phase ≡ sending snap (a ∷ addrs)
    → Keeps w
    → Keeps (sent_one snap a addrs w)
sends-Keeps snap a addrs {w} e k =
    let s : Keeps (record w { phase = sending snap (a ∷ addrs) }) = at_phase e k in
    subst (λ h. Keeps (record w { hub = h; phase = sending snap addrs }))
      (sym (send-Open snap a w.hub s.ahead.0))
      (record {
        valid = offered-IsValid snap a s.valid;
        calm = s.calm;
        ahead = All-offered snap a w.hub addrs s.ahead.1;
        once = s.once.1;
        order = sends-order w.hub.channels w.got w.over snap a addrs s.once.0 s.order;
      })

returns-Keeps :
    (snap : Snapshot) {w : World} → w.phase ≡ sending snap [] → Keeps w → Keeps (returned snap w)
returns-Keeps snap {w} e k =
    let s : Keeps (record w { phase = sending snap [] }) = at_phase e k in
    record {
      valid = s.valid;
      calm = s.calm;
      ahead = tt;
      once = tt;
      order = λ a.
          subst (Sublistᴰ (delivered w a)) (sym (append-nil (w.over ++ snap ∷ []))) (s.order a);
    }

All-frames :
    (f g : ℕ → Channel) (xs : List ℕ)
    → ((b : ℕ) → (f b).closed ≡ false → (g b).closed ≡ false)
    → All (λ a. (f a).closed ≡ false) xs
    → All (λ a. (g a).closed ≡ false) xs
All-frames f g [] k o = tt
All-frames f g (x ∷ xs) k (p, o) = (k x p, All-frames f g xs k o)

subscribes-Keeps : {w : World} → Keeps w → Keeps (record w { hub = (subscribe w.hub).2 })
unfolding subscribe
subscribes-Keeps {w} k =
    let n : ℕ = w.hub.next_addr in
    let fresh : Channel = record { frame = none; closed = false } in
    record {
      valid = subscribe-IsValid k.valid;
      calm = k.calm;
      ahead =
          All-frames w.hub.channels (update w.hub.channels n fresh) (targets w.phase)
            (λ b p. ground arith) k.ahead;
      once = k.once;
      order = λ b. elim (Bool-cases (nat_beq n b)) [
        | inl e ↦ rw e (
            subst (λ xs. Sublistᴰ xs (offers w.phase w.over b)) (sym (append-nil (w.got b)))
              (prefix (w.got b) (pending (w.hub.channels b).frame) (offers w.phase w.over b)
                (k.order b)))
        | inr e ↦ rw e (k.order b)
      ];
    }

abbrev emptied : (ℕ → Channel) → ℕ → ℕ → Channel
emptied f a = update f a (record { frame = none; closed = (f a).closed })

receive-IsValid : (a : ℕ) {h : Hub} → IsValid h → IsValid (receive a h).1
unfolding receive
receive-IsValid a {h} v = record {
  subs_open =
      All-frames h.channels (emptied h.channels a) (addresses h.subs)
        (λ b p. ground (arith, nat_beq_iff a b)) v.subs_open;
  apart = v.apart;
  old_addrs = v.old_addrs;
  old_ids = v.old_ids;
}

receives-Keeps : (a : ℕ) {w : World} → Keeps w → Keeps (received a w)
unfolding receive
receives-Keeps a {w} k = record {
  valid = receive-IsValid a k.valid;
  calm = k.calm;
  ahead =
      All-frames w.hub.channels (emptied w.hub.channels a) (targets w.phase)
        (λ b p. ground (arith, nat_beq_iff a b)) k.ahead;
  once = k.once;
  order = λ b. elim (Bool-cases (nat_beq a b)) [
    | inl e ↦ rw e (
        subst (λ xs. Sublistᴰ xs (offers w.phase w.over b))
          (sym (append-nil (w.got b ++ pending (w.hub.channels a).frame)))
          (subst
            (λ c. Sublistᴰ (w.got b ++ pending (w.hub.channels c).frame) (offers w.phase w.over b))
            (sym ((nat_beq_iff a b).0 e)) (k.order b)))
    | inr e ↦ rw e (k.order b)
  ];
}

same_frame :
    (f : ℕ → Channel) (a b : ℕ)
    → (update f a (record { frame = (f a).frame; closed = true }) b).frame ≡ (f b).frame
same_frame f a b = ground (arith, nat_beq_iff a b)

close_found-Keeps :
    (id : ℕ) (o : Option ℕ) {w : World}
    → is_target o (targets w.phase) ≡ false
    → IsValid (close_found id o w.hub)
    → Keeps w
    → Keeps (record w { hub = close_found id o w.hub })
unfolding close_found
close_found-Keeps id none t v k = k
close_found-Keeps id (some a) {w} t v k = record {
  valid = v;
  calm = k.calm;
  ahead = All-closed w.hub.channels a _ (targets w.phase) k.ahead t;
  once = k.once;
  order = λ b.
      subst (λ o. Sublistᴰ (w.got b ++ pending o) (offers w.phase w.over b))
        (sym (same_frame w.hub.channels a b)) (k.order b);
}

pub Step-Keeps : {w v : World} → Step w v → Keeps w → Keeps v
unfolding unsubscribe
Step-Keeps (enters snap e) k = enters-Keeps snap e k
Step-Keeps (sends snap a addrs e) k = sends-Keeps snap a addrs e k
Step-Keeps (returns snap e) k = returns-Keeps snap e k
Step-Keeps subscribes k = subscribes-Keeps k
Step-Keeps (receives a) k = receives-Keeps a k
Step-Keeps {w} (unsubscribes id t) k =
    close_found-Keeps id (lookup id w.hub.subs) t (unsubscribe-IsValid id k.valid) k
