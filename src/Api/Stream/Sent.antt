-- ===== src/Api/Stream/Sent.antt =====
-- What a client of the stream is sent, and that it leaves nothing behind.
use mathlib.Core.List.{Sublistᴰ, head?}
use mathlib.Core.List.Sublistᴰ
use pglockr.Prelude.{
  ◌≡◌, refl, sym, ◌∙◌, ap, subst, ◌⊎◌, inl, inr, Bool, true, false, List, [], ◌∷◌, ◌++◌,
  append_assoc, append-nil, Option, none, some, if◌then◌else◌, nat_eq, arith, nat_beq_iff,
}
use pglockr.Prelude.Sublists.{pending, prefix, more}
use pglockr.Graph.{Snapshot}
use pglockr.Store.{latest}
use pglockr.Store.Ring
use pglockr.Store.Ring.Refine.{put_all}
use pglockr.Store.Ring.Queries.{newest, latest-put_all_of}
use pglockr.Store.Hub.{Hub, Channel, subscribe, put_whole, offer}
use pglockr.Store.Hub.Publish.{IsValid, store-put_whole}
use pglockr.Store.Hub.Subscribers.{subscribe-IsValid}
use pglockr.Api.Stream.{Event, Progress, turn, stream_loop, greet, meanwhile, handle_stream}
use pglockr.Api.Stream.Turns.{
  polls, Goes, Stands, write-Stands, turn-Stands, as_it_is, polls-cons, put-Goes, put_offered,
}

module _ {h : Hub} (v : IsValid h) where
  -- What the loop makes of a turn that ends the stream, and of one that does not.
  if_running-Stands :
      (history ys : List Snapshot) (p rest : Progress)
      → (p.running ≡ true → Goes v history p → Stands v (history ++ ys) rest)
      → Stands v history p
      → Stands v (history ++ ys) (if p.running then rest else p)
  if_running-Stands history ys p rest f (inl (r, g)) =
      subst (λ b. Stands v (history ++ ys) (if b then rest else p)) (sym r) (f r g)
  if_running-Stands history ys p rest f (inr (r, g)) =
      subst (λ b. Stands v (history ++ ys) (if b then rest else p)) (sym r)
        (inr (r, record { restored = g.restored; calm = g.calm; order = more ys g.order }))

  stream_loop-Stands :
      (es : List Event) (history : List Snapshot) (p : Progress)
      → Stands v history p
      → Stands v (history ++ polls es) (stream_loop h.next_id h.next_addr es p)
  unfolding stream_loop
  stream_loop-Stands [] history p s = as_it_is v p s
  stream_loop-Stands (e ∷ es) history p s =
      let after : Progress = turn h.next_id h.next_addr e p in
      let whole : (history ++ polls (e ∷ [])) ++ polls es ≡ history ++ polls (e ∷ es) =
        append_assoc history (polls (e ∷ [])) (polls es)
        ∙ ap (λ xs. history ++ xs) (polls-cons v e es) in
      if_running-Stands history (polls (e ∷ es)) p (stream_loop h.next_id h.next_addr es after)
        (λ r g.
          subst (λ hs. Stands v hs (stream_loop h.next_id h.next_addr es after)) whole
            (stream_loop-Stands es (history ++ polls (e ∷ [])) after
              (turn-Stands v history e p r g)))
        s

  -- After `Subscribe`, and after the puts before `Latest`.
  abbrev pub opened : List Snapshot → Progress
  opened between = record { sent = []; hub = meanwhile between (subscribe h).2; running = true }

  pub fresh_frame : ((subscribe h).2.channels h.next_addr).frame ≡ none
  unfolding subscribe
  fresh_frame = ground (arith, nat_beq_iff h.next_addr h.next_addr)

  -- Puts on a running stream whose channel is full change no frame of it.
  full-meanwhile :
      (x : Snapshot) (xs history : List Snapshot) (p : Progress)
      → Goes v history p
      → (p.hub.channels h.next_addr).frame ≡ some x
      → ((meanwhile xs p.hub).channels h.next_addr).frame ≡ some x
  unfolding meanwhile
  full-meanwhile x [] history p g e = e
  full-meanwhile x (y ∷ xs) history p g e =
      full-meanwhile x xs (history ++ y ∷ []) (record p { hub = put_whole y p.hub })
        (put-Goes v history y p g)
        (ap (λ (w : Channel). w.frame) (put_offered v y p g)
          ∙ ap
              (λ o.
                (offer y
                  (record { frame = o; closed = (p.hub.channels h.next_addr).closed })).frame)
              e)

  meanwhile-Goes :
      (xs history : List Snapshot) (p : Progress)
      → Goes v history p
      → Goes v (history ++ xs) (record p { hub = meanwhile xs p.hub })
  unfolding meanwhile
  meanwhile-Goes [] history p g = subst (λ hs. Goes v hs p) (sym (append-nil history)) g
  meanwhile-Goes (x ∷ xs) history p g =
      subst (λ hs. Goes v hs (record p { hub = meanwhile xs (put_whole x p.hub) }))
        (append_assoc history (x ∷ []) xs)
        (meanwhile-Goes xs (history ++ x ∷ []) (record p { hub = put_whole x p.hub })
          (put-Goes v history x p g))

  subscribe-Goes : h.crashed ≡ false → Goes v [] (opened [])
  unfolding subscribe meanwhile
  subscribe-Goes c = record {
    subs_kept = refl;
    all_open = (subscribe-IsValid v).subs_open;
    calm = c;
    order = subst (λ o. Sublistᴰ (pending o) []) (sym fresh_frame) Sublistᴰ.slnil;
  }

  -- The channel keeps the first snapshot that is put before `Latest`.
  pub opened_frame :
      (between : List Snapshot)
      → h.crashed ≡ false
      → ((opened between).hub.channels h.next_addr).frame ≡ head? between
  unfolding meanwhile
  opened_frame [] c = fresh_frame
  opened_frame (x ∷ xs) c =
      full-meanwhile x xs (x ∷ []) (record (opened []) { hub = put_whole x (subscribe h).2 })
        (put-Goes v [] x (opened []) (subscribe-Goes c))
        (ap (λ (w : Channel). w.frame) (put_offered v x (opened []) (subscribe-Goes c))
          ∙ ap
              (λ o.
                (offer x (record {
                  frame = o;
                  closed = ((subscribe h).2.channels h.next_addr).closed;
                })).frame)
              fresh_frame)

  opened-Goes : (between : List Snapshot) → h.crashed ≡ false → Goes v between (opened between)
  unfolding meanwhile
  opened-Goes between c = meanwhile-Goes between [] (opened []) (subscribe-Goes c)

  pub greet-Stands :
      (works : Bool) (o : Option Snapshot) (between : List Snapshot)
      → h.crashed ≡ false
      → Stands v (pending o ++ pending (head? between)) (greet h.next_id works o (opened between))
  greet-Stands works none between c =
      let g = opened-Goes between c in
      inl (
        refl,
        record {
          subs_kept = g.subs_kept;
          all_open = g.all_open;
          calm = g.calm;
          order =
              subst (λ o. Sublistᴰ (pending o) (pending (head? between)))
                (sym (opened_frame between c)) (Sublistᴰ.refl (pending (head? between)));
        },
      )
  greet-Stands works (some x) between c =
      let g = opened-Goes between c in
      write-Stands v (x ∷ pending (head? between)) works x (opened between) refl g.subs_kept
        g.all_open g.calm
        (subst (λ o. Sublistᴰ (x ∷ pending o) (x ∷ pending (head? between)))
          (sym (opened_frame between c)) (Sublistᴰ.refl (x ∷ pending (head? between))))

  -- What is said of a stream at any moment.
  outcome :
      (history : List Snapshot) (p : Progress)
      → Stands v history p
      → (p.hub.crashed ≡ false)
        × Sublistᴰ p.sent history
        × ((p.running ≡ true) × (p.hub.subs ≡ (subscribe h).2.subs)
            ⊎ (p.running ≡ false) × (p.hub.subs ≡ h.subs))
  outcome history p (inl (r, g)) = (
    g.calm,
    prefix p.sent (pending (p.hub.channels h.next_addr).frame) history g.order,
    inl (r, g.subs_kept),
  )
  outcome history p (inr (r, g)) = (g.calm, g.order, inr (r, g.restored))

pub store-meanwhile : (xs : List Snapshot) (h : Hub) → (meanwhile xs h).store ≡ put_all xs h.store
unfolding meanwhile
store-meanwhile [] h = refl
store-meanwhile (x ∷ xs) h =
    store-meanwhile xs (put_whole x h) ∙ ap (put_all xs) (store-put_whole x h)

pub greeting_lem :
    (between : List Snapshot) (h : Hub)
    → Ring.IsValid h.store
    → latest (meanwhile between (subscribe h).2).store ≡ newest between (latest h.store)
unfolding subscribe
greeting_lem between h v =
    ap latest (store-meanwhile between (subscribe h).2) ∙ latest-put_all_of between v

-- The snapshots from which the frames of a stream are taken.
abbrev pub history_of : Hub → List Snapshot → List Event → List Snapshot
history_of h between events =
    (pending (newest between (latest h.store)) ++ pending (head? between)) ++ polls events

-- Of a stream that is accepted, on a valid hub with a valid ring that has not panicked, with any
-- whole puts between its steps: nothing panics. The client is sent some of the following, in this
-- order: the last snapshot that is put between `Subscribe` and `Latest`, or if there is none, the
-- latest of before; the first that is put between the two, which is the same one again if it is
-- the only one; and what is put after `Latest`, each at most once. When the handler has returned,
-- the subscribers are those of before; as long as it runs, its subscription is among them.
pub handle_stream_lem :
    {h : Hub} (works : Bool) (between : List Snapshot) (events : List Event)
    → IsValid h
    → Ring.IsValid h.store
    → h.crashed ≡ false
    → let out : Progress = handle_stream true true works between events h in
      (out.hub.crashed ≡ false)
      × Sublistᴰ out.sent (history_of h between events)
      × ((out.running ≡ true) × (out.hub.subs ≡ (subscribe h).2.subs)
          ⊎ (out.running ≡ false) × (out.hub.subs ≡ h.subs))
unfolding handle_stream subscribe
handle_stream_lem {h} works between events v u c =
    let met : Option Snapshot = latest (meanwhile between (subscribe h).2).store in
    outcome v (history_of h between events) _ (
      stream_loop-Stands v events
        (pending (newest between (latest h.store)) ++ pending (head? between))
        (greet h.next_id works met (opened v between))
        (subst
          (λ o.
            Stands v (pending o ++ pending (head? between))
              (greet h.next_id works met (opened v between)))
          (greeting_lem between h u) (greet-Stands v works met between c)))
