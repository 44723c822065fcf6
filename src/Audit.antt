-- ===== src/Audit.antt =====
-- internal/audit/audit.go: the trail of actions, and its bounded sink in memory.
pub mod Memory
pub mod Tests
use pglockr.Prelude.{ℕ, Text, Bool, List, Answer, ok, err}
use pglockr.Prelude.Int.{ℤ}
use pglockr.Prelude.Time.{Time}

pub record Entry : Type 0 where
  pub at : Time
  pub actor : Text
  pub action : Text
  pub pid : ℤ
  pub victim_query : Text
  pub delivered : Bool
  pub error : Text

-- `Sink`, on the state of the sink: `Record` and `Recent`.
pub record Sink (S : Type 0) : Type 0 where
  pub keep : Entry → S → Answer S
  pub list : ℤ → S → Answer (List Entry)

-- The sink after a `Record`, of which an error is only logged.
abbrev pub kept : {S : Type 0} → S → Answer S → S
kept old (ok new) = new
kept old (err e) = old
