-- ===== src/Signal/Trail.antt =====
-- What an attempt leaves in the audit trail.
use pglockr.Prelude.{
  ℕ, suc, ◌≡◌, ◌<◌, refl, sym, ◌∙◌, ap, Bool, true, false, ◌&&◌, List, [], ◌∷◌, ◌++◌, reverse,
  head-reverse, get_last?-take_last, length, get_last?, ◌≢◌, get_last?-concat, Option, none, some,
  ◌⊎◌, inl, inr, arith, Text, text_beq, text_beq_iff, take, take_last, if◌then◌else◌,
}
use mathlib.Core.List.{head?}
use pglockr.Prelude.Int.{ℤ, pos}
use pglockr.Prelude.Time.{Time}
use pglockr.Audit.{Entry, Sink, kept}
use pglockr.Audit.Memory.{Memory, memory_sink, add, recent, recent_lem, entries-add, clamp_limit}
use pglockr.Signal.Record.{known_query, IsEntry, entry_of-IsEntry}
use pglockr.Signal.{
  Action, Reply, Signaler, Service, Result, action_cancel, action_terminate, victim_query, entry_of,
  do_signal, send, result, succeeded,
}

-- What PostgreSQL answers to an action.
abbrev pub reply_to : Action → ℤ → Signaler → Reply
reply_to action pid sig =
    if text_beq action action_cancel
    then sig.cancel pid
    else if text_beq action action_terminate
    then sig.terminate pid
    else (false, none)

first_of_take : (xs : List Entry) (n : ℕ) → head? (take (suc n) xs) ≡ head? xs
first_of_take [] n = refl
first_of_take (x ∷ xs) n = refl

head-recent :
    (xs : List Entry) → head? (take (clamp_limit (pos 1) (length xs)) (reverse xs)) ≡ get_last? xs
head-recent [] = refl
head-recent (x ∷ xs) =
    let one : clamp_limit (pos 1) (length (x ∷ xs)) ≡ 1 = ground arith in
    ap (λ n. head? (take n (reverse (x ∷ xs)))) one
    ∙ first_of_take (reverse (x ∷ xs)) 0
    ∙ head-reverse (x ∷ xs)

newest-add : (e : Entry) (m : Memory) → 0 < m.cap → head? (recent (pos 1) (add e m)) ≡ some e
newest-add e m h =
    ap head? (recent_lem (pos 1) (add e m))
    ∙ head-recent (add e m).entries
    ∙ ap get_last? (entries-add e m)
    ∙ get_last?-take_last m.cap (m.entries ++ e ∷ []) h
    ∙ get_last?-concat m.entries e

result-delivered :
    (action : Action) (pid : ℤ) (now : Time) (r : Reply)
    → (result action pid now r).delivered ≡ r.0 && succeeded r.1
result-delivered action pid now (true, none) = refl
result-delivered action pid now (false, none) = refl
result-delivered action pid now (true, some e) = refl
result-delivered action pid now (false, some e) = refl

send-same :
    {S : Type 0} (action : Action) (pid : ℤ) (s : Service S)
    → ((send action pid s).0 ≡ reply_to action pid s.sig)
      × ((send action pid s).1.query_lookup ≡ s.query_lookup)
      × ((send action pid s).1.sink ≡ s.sink)
      × ((send action pid s).1.obs ≡ s.obs)
unfolding send
send-same action pid s = ground arith

send-sig :
    {S : Type 0} (action : Action) (pid : ℤ) (s : Service S) → (send action pid s).1.sig ≡ s.sig
unfolding send
send-sig action pid s = ground arith

send-sent :
    {S : Type 0} (action : Action) (pid : ℤ) (s : Service S)
    → ((action ≡ action_cancel) ⊎ (action ≡ action_terminate)
        → (send action pid s).1.sent ≡ s.sent ++ (action, pid) ∷ [])
      × (action ≢ action_cancel → action ≢ action_terminate → (send action pid s).1.sent ≡ s.sent)
unfolding send
send-sent action pid s = (known, unknown)
  where
    known :
        (action ≡ action_cancel) ⊎ (action ≡ action_terminate)
        → (send action pid s).1.sent ≡ s.sent ++ (action, pid) ∷ []
    known (inl h) = ground (arith, (text_beq_iff action action_cancel).1 h)
    known (inr h) = ground (arith, (text_beq_iff action action_terminate).1 h)

    unknown :
        action ≢ action_cancel → action ≢ action_terminate → (send action pid s).1.sent ≡ s.sent
    unknown h j =
        ground
          (arith, text_beq_iff action action_cancel, text_beq_iff action action_terminate, h, j)

-- With a sink in memory that can hold an entry, every attempt adds one to it, whatever PostgreSQL
-- answers and whatever the action is. The newest entry tells when who asked for what action on
-- which process, and the victim's query if that is looked up and found, else none; if PostgreSQL
-- answered without an error, whether it delivered the signal, and no error; else that it did not,
-- and the error. The result says of the delivery what the entry says; and the error that is
-- returned is PostgreSQL's.
pub do_signal_lem :
    (action : Action) (pid : ℤ) (actor : Text) (now : Time) (s : Service Memory) (m : Memory)
    → s.sink ≡ some m
    → 0 < m.cap
    → let reply : Reply = reply_to action pid s.sig in
      let out : Result × Option Text × Service Memory = do_signal action pid actor now s in
      ((m' : Memory) × (entry : Entry) × ((out.2).sink ≡ some m')
        × (m'.entries ≡ take_last m.cap (m.entries ++ entry ∷ []))
        × (head? (recent (pos 1) m') ≡ some entry)
        × IsEntry action pid actor now (known_query s.query_lookup pid) reply entry
        × ((out.0).delivered ≡ entry.delivered))
      × (out.1 ≡ reply.1)
unfolding do_signal
do_signal_lem action pid actor now s m k h =
    let (r, l, k', o) = send-same action pid s in
    (
      (
        add entry m,
        entry,
        rw r (rw l (rw k' (rw k refl))),
        entries-add entry m,
        newest-add entry m h,
        entry_of-IsEntry action pid actor now s.query_lookup reply,
        rw r (result-delivered action pid now reply),
      ),
      ap (λ q. q.1) r,
    )
  where
    reply : Reply
    reply = reply_to action pid s.sig

    entry : Entry
    entry = entry_of action pid actor now (victim_query s.query_lookup pid) reply

-- What an attempt leaves of a service, whatever its sink is.
pub do_signal-kept :
    {S : Type 0} ⦃sinks : Sink S⦄ (action : Action) (pid : ℤ) (actor : Text) (now : Time)
    (s : Service S) (m : S)
    → s.sink ≡ some m
    → let entry : Entry =
        entry_of action pid actor now
          (victim_query s.query_lookup pid)
          (reply_to action pid s.sig) in
      let after : Service S = (do_signal action pid actor now s).2 in
      (after.sink ≡ some (kept m (sinks.keep entry m)))
      × (after.sig ≡ s.sig)
      × (after.query_lookup ≡ s.query_lookup)
unfolding do_signal
do_signal-kept action pid actor now s m k =
    let (r, l, k', o) = send-same action pid s in
    (rw r (rw l (rw k' (rw k refl))), send-sig action pid s, l)

-- With an observer, a signal goes to PostgreSQL only for the two actions, and then exactly one,
-- of that action and process; the observer is told of every attempt, with what the result says.
pub do_signal-sent :
    {S : Type 0} ⦃sinks : Sink S⦄ (action : Action) (pid : ℤ) (actor : Text) (now : Time)
    (s : Service S) (seen : List (Action × Bool))
    → s.obs ≡ some seen
    → let out : Result × Option Text × Service S = do_signal action pid actor now s in
      (((action ≡ action_cancel) ⊎ (action ≡ action_terminate)
          → (out.2).sent ≡ s.sent ++ (action, pid) ∷ [])
        × (action ≢ action_cancel → action ≢ action_terminate → (out.2).sent ≡ s.sent))
      × ((out.2).obs ≡ some (seen ++ (action, (out.0).delivered) ∷ []))
unfolding do_signal
do_signal-sent action pid actor now s seen k =
    let (r, l, k', o) = send-same action pid s in
    (
      send-sent action pid s,
      rw r (
          rw o (
            rw k (
              ap (λ d. some (seen ++ (action, d) ∷ []))
                (sym (result-delivered action pid now (reply_to action pid s.sig)))))),
    )

-- What `Do` reports of the delivery is PostgreSQL's answer.
pub delivered-do_signal :
    {S : Type 0} ⦃sinks : Sink S⦄ (action : Action) (pid : ℤ) (actor : Text) (now : Time)
    (s : Service S)
    → (do_signal action pid actor now s).0.delivered
      ≡ (reply_to action pid s.sig).0 && succeeded (reply_to action pid s.sig).1
unfolding do_signal
delivered-do_signal action pid actor now s =
    result-delivered action pid now (send action pid s).0
    ∙ ap (λ (r : Reply). r.0 && succeeded r.1) (send-same action pid s).0
