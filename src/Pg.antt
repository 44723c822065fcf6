-- ===== src/Pg.antt =====
-- internal/pg: the access to the target cluster. What the driver returns is a parameter: the rows
-- that a query yields, each scanned into the nullable columns of the code, or the text of an
-- error, at whatever point of the query it came.
pub mod Rows
pub mod Backends
pub mod Connect
pub mod Inspect
pub mod Tests
use pglockr.Prelude.{
  ℕ, Bool, true, false, not, ◌&&◌, ◌||◌, List, [], ◌∷◌, ◌++◌, map, Option, none, some, Answer, ok,
  err, ◌>>=◌, wrap_error, if◌then◌else◌, leb, Text, codes, insert, nat_eq,
}
use pglockr.Prelude.Int.{ℤ}
use pglockr.Prelude.Time.{Time, zero_time}
use pglockr.Graph.{Session, Sessions, EdgeKey, key_eq}
use pglockr.Graph.Builder.{LockLabel, Labels}

-- A row of the snapshot query; the driver has written the address out.
pub record SessionRow : Type 0 where
  pub pid : ℕ
  pub usename : Option Text
  pub app_name : Option Text
  pub client_addr : Option Text
  pub state : Option Text
  pub wait_event_type : Option Text
  pub wait_event : Option Text
  pub backend : Option Text
  pub xact_start : Option Time
  pub query_start : Option Time
  pub wait_start : Option Time
  pub query : Option Text
  pub blocked_by : List ℕ

-- A row of the query for the labels.
pub record LabelRow : Type 0 where
  pub waiter : ℕ
  pub blocker : ℕ
  pub lock_type : Text
  pub waiter_mode : Text
  pub blocker_mode : Text
  pub relation : Option Text

-- The two forms of the snapshot query.
pub data SnapshotSql : Type 0 where
  with_waitstart without_waitstart : SnapshotSql

-- What the pool answers, and the version that `Connect` has detected.
pub record Client : Type 0 where
  pub version_num : ℕ
  pub session_rows : SnapshotSql → Answer (List SessionRow)
  pub label_rows : Answer (List LabelRow)

-- `deref`
abbrev pub deref : Option Text → Text
deref none = []
deref (some s) = s

-- `derefTime`
abbrev pub deref_time : Option Time → Time
deref_time none = zero_time
deref_time (some t) = t

-- `hasWaitstart`
abbrev pub has_waitstart : Client → Bool
has_waitstart c = leb 140000 c.version_num

-- The session that a row is scanned into. `toIntSlice` widens the process ids, and changes none.
abbrev pub session_of : SessionRow → Session
session_of r = record {
  pid = r.pid;
  user = deref r.usename;
  app_name = deref r.app_name;
  client_addr = deref r.client_addr;
  state = deref r.state;
  wait_event_type = deref r.wait_event_type;
  wait_event = deref r.wait_event;
  backend_type = deref r.backend;
  xact_start = deref_time r.xact_start;
  query_start = deref_time r.query_start;
  wait_start = deref_time r.wait_start;
  query = deref r.query;
  blocked_by = r.blocked_by;
  is_root = false;
}

-- `for rows.Next()` of `querySessions`
pub collect_sessions : List SessionRow → Sessions → Sessions
collect_sessions [] ss = ss
collect_sessions (r ∷ rs) ss = collect_sessions rs (insert r.pid (session_of r) ss)

-- `querySessions`
pub query_sessions : Client → Answer Sessions
query_sessions c = do
  rows ← c.session_rows (if has_waitstart c then with_waitstart else without_waitstart)
  ok (collect_sessions rows [])

abbrev pub label_of : LabelRow → LockLabel
label_of r = record {
  lock_type = r.lock_type;
  relation = deref r.relation;
  waiter_mode = r.waiter_mode;
  blocker_mode = r.blocker_mode;
}

-- `for rows.Next()` of `queryEdgeLabels`
pub collect_labels : List LabelRow → Labels → Labels
collect_labels [] ls = ls
collect_labels (r ∷ rs) ls =
    collect_labels rs
      (insert (record { waiter_pid = r.waiter; blocker_pid = r.blocker }) (label_of r) ls)

-- `queryEdgeLabels`
pub query_edge_labels : Client → Answer Labels
query_edge_labels c = do rows ← c.label_rows; ok (collect_labels rows [])

-- `Snapshot`
pub snapshot : Client → Answer (Sessions × Labels)
snapshot c = do
  sessions ← wrap_error (codes "query sessions: ") (query_sessions c)
  labels ← wrap_error (codes "query edge labels: ") (query_edge_labels c)
  ok (sessions, labels)

-- `Capabilities`, the record and the method, on the row that the driver scans: the role, whether
-- it is a superuser, and its memberships.
pub record Capabilities : Type 0 where
  pub role : Text
  pub is_superuser : Bool
  pub can_read_stats : Bool
  pub can_signal : Bool

unfoldable pub capabilities : Answer (Text × Bool × Bool × Bool) → Answer Capabilities
capabilities row = do
  scanned ← wrap_error (codes "inspect role capabilities: ") row
  ok (record {
    role = scanned.0;
    is_superuser = scanned.1;
    can_read_stats = scanned.1 || scanned.2;
    can_signal = scanned.1 || scanned.3;
  })
