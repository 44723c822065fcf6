-- ===== src/Api/Stream/Drained.antt =====
-- A client that keeps up is sent every snapshot.
use mathlib.Core.List.{head?}
use pglockr.Prelude.{
  ◌≡◌, refl, sym, ◌∙◌, ap, subst, inl, inr, true, false, List, [], ◌∷◌, ◌++◌, append_assoc,
  append-nil, Option, none, some, if◌then◌else◌, nat_eq, arith,
}
use pglockr.Prelude.Sublists.{pending}
use pglockr.Graph.{Snapshot}
use pglockr.Store.{latest}
use pglockr.Store.Ring
use pglockr.Store.Ring.Queries.{newest}
use pglockr.Store.Hub.{Hub, Channel, subscribe, receive, put_whole, offer}
use pglockr.Store.Hub.Publish.{IsValid}
use pglockr.Api.Stream.{
  Event, ready, polled, Progress, on_frame, turn, stream_loop, greet, meanwhile, handle_stream,
}
use pglockr.Api.Stream.Turns.{Goes, ready-Stands, put-Goes, put_offered, emptied}
use pglockr.Api.Stream.Sent.{opened, opened_frame, greet-Stands, greeting_lem}

-- Each snapshot that the poller puts is taken before the next.
abbrev pub one_by_one : List Snapshot → List Event
one_by_one [] = []
one_by_one (x ∷ xs) = polled x ∷ ready true ∷ one_by_one xs

-- What waits since the subscription is taken first.
abbrev pub catch_up : List Snapshot → List Event → List Event
catch_up [] events = events
catch_up (x ∷ more) events = ready true ∷ events

module _ {h : Hub} (v : IsValid h) where
  -- All is sent, and nothing waits.
  record Drained (sent : List Snapshot) (p : Progress) : Type 0 where
    runs : p.running ≡ true
    history : List Snapshot
    goes : Goes v history p
    empty : (p.hub.channels h.next_addr).frame ≡ none
    frames : p.sent ≡ sent

  take :
      (x : Snapshot) (q : Progress)
      → (q.hub.channels h.next_addr).frame ≡ some x
      → turn h.next_id h.next_addr (ready true) q
        ≡ record q { sent = q.sent ++ x ∷ []; hub = (receive h.next_addr q.hub).1 }
  unfolding turn receive
  take x q e =
      ap
        (λ o.
          on_frame h.next_id true o (q.hub.channels h.next_addr).closed
            (record q { hub = (receive h.next_addr q.hub).1 }))
        e

  -- The client takes the frame that waits.
  take-Drained :
      {history : List Snapshot} (x : Snapshot) (sent : List Snapshot) (q : Progress)
      → q.running ≡ true
      → Goes v history q
      → (q.hub.channels h.next_addr).frame ≡ some x
      → q.sent ≡ sent
      → Drained (sent ++ x ∷ []) (turn h.next_id h.next_addr (ready true) q)
  take-Drained {history} x sent q r g e k =
      let same = take x q e in
      let running = ap (λ (p : Progress). p.running) same ∙ r in
      elim (ready-Stands v history true q r g) [
        | inl (r', g') ↦ record {
          runs = running;
          history = history;
          goes = g';
          empty = ap (λ (p : Progress). (p.hub.channels h.next_addr).frame) same ∙ emptied v q.hub;
          frames = ap (λ (p : Progress). p.sent) same ∙ ap (λ ys. ys ++ x ∷ []) k;
        }
        | inr (r', g') ↦ absurd (ground (arith, sym running ∙ r'))
      ]

  drain-Drained :
      (x : Snapshot) (sent : List Snapshot) (p : Progress)
      → Drained sent p
      → Drained
          (sent ++ x ∷ [])
          (turn h.next_id h.next_addr (ready true) (turn h.next_id h.next_addr (polled x) p))
  unfolding turn
  drain-Drained x sent p d =
      take-Drained x sent (record p { hub = put_whole x p.hub }) d.runs
        (put-Goes v d.history x p d.goes)
        (ap (λ (w : Channel). w.frame) (put_offered v x p d.goes)
          ∙ ap
              (λ o.
                (offer x
                  (record { frame = o; closed = (p.hub.channels h.next_addr).closed })).frame)
              d.empty)
        d.frames

  -- The loop goes on as long as the handler runs.
  stream_loop-cons :
      (e : Event) (es : List Event) (p : Progress)
      → p.running ≡ true
      → stream_loop h.next_id h.next_addr (e ∷ es) p
        ≡ stream_loop h.next_id h.next_addr es (turn h.next_id h.next_addr e p)
  unfolding stream_loop
  stream_loop-cons e es p r =
      ap
        (λ b.
          if b then stream_loop h.next_id h.next_addr es (turn h.next_id h.next_addr e p) else p)
        r

  polled-running :
      (x : Snapshot) (p : Progress) → (turn h.next_id h.next_addr (polled x) p).running ≡ p.running
  unfolding turn
  polled-running x p = refl

  stream_loop-Drained :
      (xs sent : List Snapshot) (p : Progress)
      → Drained sent p
      → Drained (sent ++ xs) (stream_loop h.next_id h.next_addr (one_by_one xs) p)
  unfolding stream_loop
  stream_loop-Drained [] sent p d = subst (λ ys. Drained ys p) (sym (append-nil sent)) d
  stream_loop-Drained (x ∷ xs) sent p d =
      let mid : Progress = turn h.next_id h.next_addr (polled x) p in
      let next : Progress = turn h.next_id h.next_addr (ready true) mid in
      let steps : stream_loop h.next_id h.next_addr (one_by_one (x ∷ xs)) p
          ≡ stream_loop h.next_id h.next_addr (one_by_one xs) next =
        stream_loop-cons (polled x) (ready true ∷ one_by_one xs) p d.runs
        ∙ stream_loop-cons (ready true) (one_by_one xs) mid (polled-running x p ∙ d.runs) in
      subst (Drained (sent ++ x ∷ xs)) (sym steps) (
        subst (λ ys. Drained ys (stream_loop h.next_id h.next_addr (one_by_one xs) next))
          (append_assoc sent (x ∷ []) xs)
          (stream_loop-Drained xs (sent ++ x ∷ []) next (drain-Drained x sent p d)))

  greet-frame :
      (o : Option Snapshot) (between : List Snapshot)
      → h.crashed ≡ false
      → ((greet h.next_id true o (opened v between)).hub.channels h.next_addr).frame ≡ head? between
  greet-frame none between c = opened_frame v between c
  greet-frame (some x) between c = opened_frame v between c

  greet-frames :
      (o : Option Snapshot) (between : List Snapshot)
      → ((greet h.next_id true o (opened v between)).sent ≡ pending o)
        × ((greet h.next_id true o (opened v between)).running ≡ true)
  greet-frames none between = (refl, refl)
  greet-frames (some x) between = (refl, refl)

  greet-Goes :
      (o : Option Snapshot) (between : List Snapshot)
      → h.crashed ≡ false
      → Goes v (pending o ++ pending (head? between)) (greet h.next_id true o (opened v between))
  greet-Goes o between c = elim (greet-Stands v true o between c) [
    | inl (r, g) ↦ g
    | inr (r, g) ↦ absurd (ground (arith, sym (greet-frames o between).1 ∙ r))
  ]

  -- After the greeting the client takes what was put before `Latest`, if anything was.
  catch_up-Drained :
      (between xs : List Snapshot) (o : Option Snapshot)
      → h.crashed ≡ false
      → Drained (pending o ++ (pending (head? between) ++ xs)) (
          stream_loop h.next_id h.next_addr
            (catch_up between (one_by_one xs))
            (greet h.next_id true o (opened v between)))
  catch_up-Drained [] xs o c =
      stream_loop-Drained xs (pending o) (greet h.next_id true o (opened v [])) (record {
        runs = (greet-frames o []).1;
        history = pending o ++ [];
        goes = greet-Goes o [] c;
        empty = greet-frame o [] c;
        frames = (greet-frames o []).0;
      })
  catch_up-Drained (x ∷ more) xs o c =
      let start : Progress = greet h.next_id true o (opened v (x ∷ more)) in
      let next : Progress = turn h.next_id h.next_addr (ready true) start in
      let (frames, runs) = greet-frames o (x ∷ more) in
      let whole = pending o ++ x ∷ xs in
      subst (Drained whole) (sym (stream_loop-cons (ready true) (one_by_one xs) start runs)) (
        subst (λ ys. Drained ys (stream_loop h.next_id h.next_addr (one_by_one xs) next))
          (append_assoc (pending o) (x ∷ []) xs)
          (stream_loop-Drained xs (pending o ++ x ∷ []) next (
            take-Drained x (pending o) start runs (greet-Goes o (x ∷ more) c)
              (greet-frame o (x ∷ more) c) frames)))

-- On a valid hub with a valid ring that has not panicked, a client that takes each frame before the
-- poller puts the next snapshot is sent the last snapshot that is put between `Subscribe` and
-- `Latest`, or if there is none, the latest of before, if any; then the first that is put between
-- the two, if any, which was put before the greeting or is the same; and then every snapshot that
-- is put after `Latest`; and the stream goes on.
pub handle_stream-one_by_one :
    {h : Hub} (between xs : List Snapshot)
    → IsValid h
    → Ring.IsValid h.store
    → h.crashed ≡ false
    → let out : Progress =
        handle_stream true true true between (catch_up between (one_by_one xs)) h in
      (out.sent ≡ pending (newest between (latest h.store)) ++ (pending (head? between) ++ xs))
      × (out.running ≡ true)
unfolding handle_stream subscribe
handle_stream-one_by_one {h} between xs v u c =
    let met : Option Snapshot = latest (meanwhile between (subscribe h).2).store in
    let d = catch_up-Drained v between xs met c in
    (
      d.frames ∙ ap (λ o. pending o ++ (pending (head? between) ++ xs)) (greeting_lem between h u),
      d.runs,
    )
