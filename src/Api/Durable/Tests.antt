-- ===== src/Api/Durable/Tests.antt =====
-- Two signals, of which the last is asked for.
use pglockr.Prelude.{
  ◌≡◌, refl, List, [], ◌∷◌, map, take, reverse, Option, none, some, ok, true, codes, Text, arith,
}
use pglockr.Prelude.Int.{ℤ, pos}
use pglockr.Prelude.Time.{unix_nano}
use pglockr.Audit.{Entry}
use pglockr.Audit.Memory.{Memory, memory_sink, new_memory}
use pglockr.Signal.{Service, action_cancel, action_terminate}
use pglockr.Sorting.{sort_insert, sort}
use pglockr.Persist.{Sqlite}
use pglockr.Persist.Table.{tables}
use pglockr.Persist.Trail
use pglockr.Persist.Trail.{sqlite_sink}
use pglockr.Persist.Tests.{opened, at_second}
use pglockr.Api.{reply, entries, handle_audit}
use pglockr.Api.Durable.{Attempt, do_each, left, handle_audit-do_each}

abbrev with_sink : {S : Type 0} → S → Service S
with_sink m = record {
  sig = record { cancel = λ p. (true, none); terminate = λ p. (true, none) };
  query_lookup = none;
  sink = some m;
  obs = none;
  sent = [];
}

abbrev attempts : List Attempt
attempts =
    (record { action = action_cancel; pid = pos 7; actor = codes "ann"; now = at_second 0 })
    ∷ (record { action = action_terminate; pid = pos 7; actor = codes "ann"; now = at_second 5 })
    ∷ []

abbrev one : Text → Option ℤ
one t = some (pos 1)

abbrev both : List Entry
both = left tables one 49 [] 0 1000 attempts (with_sink (new_memory 1000)) (with_sink opened)

abbrev recorded : Sqlite tables
recorded = record opened { db = record { rows = []; trail = map Trail.audit_row both } }

both-add_all : Trail.add_all tables both opened ≡ ok recorded
unfolding Trail.add unix_nano
both-add_all = refl

both-IsChronicle : Trail.IsChronicle both
both-IsChronicle = (ground arith, (omega arith, tt), (ground arith, tt, tt))

newest :
    tables.select_audits (Trail.row_limit (pos 1)) recorded.db
    ≡ ok (take 1 (reverse (map Trail.audit_row both)))
unfolding sort sort_insert unix_nano
newest = refl

handle_audit-do_each_example :
    (m : Memory) × ((do_each attempts (with_sink (new_memory 1000))).sink ≡ some m)
    × ((do_each ⦃sinks = sqlite_sink tables⦄ attempts (with_sink opened)).sink ≡ some recorded)
    × (handle_audit one (49 ∷ []) m ≡ reply 200 (entries (take 1 (reverse both))))
    × (handle_audit ⦃sinks = sqlite_sink tables⦄ one (49 ∷ []) recorded
        ≡ handle_audit one (49 ∷ []) m)
handle_audit-do_each_example =
    handle_audit-do_each tables one 49 [] 0 1000 attempts (with_sink (new_memory 1000))
      (with_sink opened) {q = opened} {q' = recorded} refl refl refl refl refl (omega arith)
      both-IsChronicle both-add_all newest (omega arith) refl
