-- ===== src/Metrics.antt =====
-- internal/metrics/metrics.go: the counters, and the gauges that are taken when they are asked
-- for. A counter of Prometheus is a number for each of its labels; a histogram is the list of its
-- observations, newest last.
pub mod Counts
pub mod Tests
use pglockr.Prelude.{
  ℕ, zero, suc, ◌+◌, Bool, true, false, List, [], ◌∷◌, ◌++◌, Option, none, some, if◌then◌else◌,
  length, lookup, insert, Eq, Text, codes, text_beq, text_eq,
}
use pglockr.Prelude.Time.{Duration}
use pglockr.Graph.{Snapshot}

-- `boolLabel`
abbrev pub bool_label : Bool → Text
bool_label b = if b then codes "true" else codes "false"

-- `Metrics`: for each cluster, and for each action with its outcome.
pub record Metrics : Type 0 where
  pub polls : List (Text × ℕ)
  pub poll_errors : List (Text × ℕ)
  pub durations : List (Text × Duration)
  pub actions : List (Text × List (Text × ℕ))

abbrev pub count : Option ℕ → ℕ
count none = 0
count (some n) = n

abbrev pub counters : Option (List (Text × ℕ)) → List (Text × ℕ)
counters none = []
counters (some m) = m

-- `WithLabelValues(label).Inc()`
abbrev pub inc : Text → List (Text × ℕ) → List (Text × ℕ)
inc label m = insert label (count (lookup label m) + 1) m

-- `ObservePoll`
pub observe_poll : Text → Duration → Bool → Metrics → Metrics
observe_poll cluster d failed m = record m {
  polls = inc cluster m.polls;
  poll_errors = if failed then inc cluster m.poll_errors else m.poll_errors;
  durations = m.durations ++ (cluster, d) ∷ [];
}

-- `ObserveAction`
pub observe_action : Text → Bool → Metrics → Metrics
observe_action action delivered m = record m {
  actions =
      insert action (inc (bool_label delivered) (counters (lookup action m.actions))) m.actions;
}

-- A gauge that `Collect` sends: its name and its value; each has the cluster as its label.
pub data Gauge : Type 0 where
  connected sessions root_blockers blocked_edges : ℕ → Gauge

-- `b2f`
abbrev pub b2f : Bool → ℕ
b2f b = if b then 1 else 0

abbrev pub sizes : Option Snapshot → List Gauge
sizes none = []
sizes (some snap) =
    sessions (length snap.sessions)
    ∷ root_blockers (length snap.roots)
    ∷ blocked_edges (length snap.edges)
    ∷ []

-- `Collect`, on what the poller says of its connection and on the latest snapshot.
pub collect : Text × Bool → Option Snapshot → Text × List Gauge
collect (cluster, works) latest = (cluster, connected (b2f works) ∷ sizes latest)

-- The descriptions of the gauges, by the names that they have in Prometheus.
abbrev pub name_of : Gauge → Text
name_of (connected n) = codes "pglockr_connected"
name_of (sessions n) = codes "pglockr_sessions"
name_of (root_blockers n) = codes "pglockr_root_blockers"
name_of (blocked_edges n) = codes "pglockr_blocked_edges"

-- `Describe`
pub describe : List Text
describe =
    codes "pglockr_connected"
    ∷ codes "pglockr_sessions"
    ∷ codes "pglockr_root_blockers"
    ∷ codes "pglockr_blocked_edges"
    ∷ []
