-- ===== src/Audit/Tests.antt =====
-- A sink of two that three entries are recorded in.
use pglockr.Prelude.{ℕ, true, List, [], ◌∷◌, codes}
use pglockr.Prelude.Int.{pos}
use pglockr.Audit.{Entry}

abbrev attempt : ℕ → Entry
attempt n = record {
  at = n;
  actor = codes "alice";
  action = codes "cancel";
  pid = pos n;
  victim_query = [];
  delivered = true;
  error = [];
}

abbrev attempts : List Entry
attempts = attempt 1 ∷ attempt 2 ∷ attempt 3 ∷ []
