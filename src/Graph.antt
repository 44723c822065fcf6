-- ===== src/Graph.antt =====
-- internal/graph: the data types of types.go.
pub mod Builder
use pglockr.Prelude.{ℕ, ◌≡◌, ◌↔◌, Bool, true, ◌&&◌, List, [], ◌∷◌, arith, Text, Eq, nat_beq}
use pglockr.Prelude.Time.{Time}

-- A process id of PostgreSQL is never negative. Strings are lists of code points.
pub record Session : Type 0 where
  pub pid : ℕ
  pub user : Text
  pub app_name : Text
  pub client_addr : Text
  pub state : Text
  pub wait_event_type : Text
  pub wait_event : Text
  pub backend_type : Text
  pub xact_start : Time
  pub query_start : Time
  pub wait_start : Time
  pub query : Text
  pub blocked_by : List ℕ
  pub is_root : Bool

pub record Edge : Type 0 where
  pub waiter_pid : ℕ
  pub blocker_pid : ℕ
  pub lock_type : Text
  pub relation : Text
  pub waiter_mode : Text
  pub blocker_mode : Text

pub record EdgeKey : Type 0 where
  pub waiter_pid : ℕ
  pub blocker_pid : ℕ

-- `Sessions` is a Go map keyed by process id.
abbrev pub Sessions : Type 0
Sessions = List (ℕ × Session)

-- The keys of the map.
unfoldable pub keys : Sessions → List ℕ
keys [] = []
keys ((w, s) ∷ ss) = w ∷ keys ss

pub record Snapshot : Type 0 where
  pub cluster : Text
  pub taken_at : Time
  pub sessions : Sessions
  pub edges : List Edge
  pub roots : List ℕ

abbrev key_beq : EdgeKey → EdgeKey → Bool
key_beq a b = nat_beq a.waiter_pid b.waiter_pid && nat_beq a.blocker_pid b.blocker_pid

pub key_beq_iff : (a b : EdgeKey) → (key_beq a b ≡ true) ↔ (a ≡ b)
key_beq_iff a b = ground arith

instance abbrev pub key_eq : Eq EdgeKey
key_eq = record { beq = key_beq; beq_iff = key_beq_iff }
