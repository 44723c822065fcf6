-- ===== src/Pg/Tests.antt =====
-- A cluster with two sessions, of which one waits for the other.
use pglockr.Prelude.{
  ℕ, ◌≡◌, refl, List, [], ◌∷◌, none, some, Answer, ok, err, codes, insert, nat_eq,
}
use pglockr.Graph.{Sessions, key_eq}
use pglockr.Graph.Builder.{Labels}
use pglockr.Pg.{
  Client, SessionRow, LabelRow, SnapshotSql, with_waitstart, without_waitstart, session_of,
  label_of, collect_sessions, collect_labels, query_sessions, query_edge_labels, snapshot,
}
use pglockr.Pg.Rows.{IsSnapshot, snapshot-eq-ok}

abbrev session_row : ℕ → List ℕ → SessionRow
session_row pid blockers = record {
  pid = pid;
  usename = some (codes "app");
  app_name = none;
  client_addr = none;
  state = some (codes "active");
  wait_event_type = none;
  wait_event = none;
  backend = some (codes "client backend");
  xact_start = none;
  query_start = none;
  wait_start = none;
  query = some (codes "update t set a = 'x'");
  blocked_by = blockers;
}

abbrev label_row : LabelRow
label_row = record {
  waiter = 2;
  blocker = 1;
  lock_type = codes "transactionid";
  waiter_mode = codes "ShareLock";
  blocker_mode = codes "ExclusiveLock";
  relation = none;
}

-- Version 13 has no column `waitstart`.
abbrev rows_of : SnapshotSql → Answer (List SessionRow)
rows_of with_waitstart = err (codes "no column waitstart")
rows_of without_waitstart = ok (session_row 1 [] ∷ session_row 2 (1 ∷ []) ∷ [])

abbrev pub client : Client
client = record { version_num = 130012; session_rows = rows_of; label_rows = ok (label_row ∷ []) }

abbrev pub sessions : Sessions
sessions = (1, session_of (session_row 1 [])) ∷ (2, session_of (session_row 2 (1 ∷ []))) ∷ []

abbrev pub labels : Labels
labels = (record { waiter_pid = 2; blocker_pid = 1 }, label_of label_row) ∷ []

pub snapshot-client : snapshot client ≡ ok (sessions, labels)
unfolding snapshot query_sessions query_edge_labels collect_sessions collect_labels insert
snapshot-client = refl

snapshot-eq-ok_example : IsSnapshot client sessions labels
snapshot-eq-ok_example = snapshot-eq-ok client {ss = sessions} {labels = labels} snapshot-client
