-- ===== src/Signal.antt =====
-- internal/signal/signal.go: a signal to a backend, with its audit entry.
-- PostgreSQL's answer to a signal is a parameter: whether it was delivered, and the error.
pub mod Record
pub mod Trail
pub mod Tests
use pglockr.Prelude.{
  ℕ, ◌&&◌, Bool, true, false, List, [], ◌∷◌, ◌++◌, Option, none, some, if◌then◌else◌, Text, codes,
  text_beq,
}
use pglockr.Prelude.Int.{ℤ}
use pglockr.Prelude.Time.{Time}
use pglockr.Audit.{Entry, Sink, kept}

abbrev pub Action : Type 0
Action = Text

abbrev pub action_cancel : Action
action_cancel = codes "cancel"

abbrev pub action_terminate : Action
action_terminate = codes "terminate"

-- `delivered, err`
abbrev pub Reply : Type 0
Reply = Bool × Option Text

pub record Signaler : Type 0 where
  pub cancel : ℤ → Reply
  pub terminate : ℤ → Reply

-- `Service`, with the sink and the observer that it may have: the state of the sink, and what
-- the observer was told. The signals that were sent are those to PostgreSQL, oldest first.
pub record Service (S : Type 0) : Type 0 where
  pub sig : Signaler
  pub query_lookup : Option (ℤ → Option Text)
  pub sink : Option S
  pub obs : Option (List (Action × Bool))
  pub sent : List (Action × ℤ)

pub record Result : Type 0 where
  pub action : Action
  pub pid : ℤ
  pub delivered : Bool
  pub at : Time

-- The `switch`: an action that is neither of the two sends nothing.
send : {S : Type 0} → Action → ℤ → Service S → Reply × Service S
send action pid s =
    if text_beq action action_cancel
    then (s.sig.cancel pid, record s { sent = s.sent ++ (action, pid) ∷ [] })
    else if text_beq action action_terminate
    then (s.sig.terminate pid, record s { sent = s.sent ++ (action, pid) ∷ [] })
    else ((false, none), s)

abbrev or_empty : Option Text → Text
or_empty none = []
or_empty (some t) = t

abbrev pub victim_query : Option (ℤ → Option Text) → ℤ → Text
victim_query none pid = []
victim_query (some find) pid = or_empty (find pid)

abbrev pub succeeded : Option Text → Bool
succeeded none = true
succeeded (some e) = false

abbrev record_in : {S : Type 0} → Sink S → Entry → Option S → Option S
record_in sinks e none = none
record_in sinks e (some m) = some (kept m (sinks.keep e m))

abbrev observe : Action → Bool → Option (List (Action × Bool)) → Option (List (Action × Bool))
observe a d none = none
observe a d (some seen) = some (seen ++ (a, d) ∷ [])

abbrev result : Action → ℤ → Time → Reply → Result
result action pid now (d, none) = record { action = action; pid = pid; delivered = d; at = now }
result action pid now (d, some e) = record {
  action = action;
  pid = pid;
  delivered = false;
  at = now;
}

-- The entry of an attempt.
abbrev pub entry_of : Action → ℤ → Text → Time → Text → Reply → Entry
entry_of action pid actor now query (d, e) = record {
  at = now;
  actor = actor;
  action = action;
  pid = pid;
  victim_query = query;
  delivered = d && succeeded e;
  error = or_empty e;
}

-- `Do`: the result and the error, and the service. The log is left out.
pub do_signal :
    {S : Type 0} ⦃sinks : Sink S⦄
    → Action
    → ℤ
    → Text
    → Time
    → Service S
    → Result × Option Text × Service S
unfolding send
do_signal ⦃sinks⦄ action pid actor now s =
    let (reply, s') = send action pid s in
    let entry = entry_of action pid actor now (victim_query s'.query_lookup pid) reply in
    (
      result action pid now reply,
      reply.1,
      record s' {
        sink = record_in sinks entry s'.sink;
        obs = observe action entry.delivered s'.obs;
      },
    )
