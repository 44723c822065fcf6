-- ===== src/Api/Durable.antt =====
-- The audit trail of the API in SQLite and in memory.
mod Tests
use pglockr.Prelude.{
  ℕ, suc, ◌≤◌, ◌≡◌, refl, sym, ◌∙◌, ap, List, [], ◌∷◌, take, reverse, Option, none, some, Answer,
  ok, err, >>=-eq-ok, length, Text, text_beq, if◌then◌else◌, arith,
}
use pglockr.Prelude.Int.{ℤ, pos}
use pglockr.Prelude.Time.{Time}
use pglockr.Audit.{Entry, Sink, kept}
use pglockr.Audit.Memory as Memory
use pglockr.Audit.Memory.{Memory, memory_sink, new_memory}
use pglockr.Signal.{Action, Signaler, Service, victim_query, entry_of, do_signal}
use pglockr.Signal.Trail.{reply_to, do_signal-kept}
use pglockr.Persist.{Database, Sqlite, AuditRow}
use pglockr.Persist.Trail.{
  IsChronicle, add, add_all, recent, row_limit, sqlite_sink, recent-chronicle, recent-Memory,
}
use pglockr.Api.{Response, reply, entries, handle_audit}

-- A call of `Do`.
pub record Attempt : Type 0 where
  pub action : Action
  pub pid : ℤ
  pub actor : Text
  pub now : Time

abbrev pub do_each : {S : Type 0} ⦃sinks : Sink S⦄ → List Attempt → Service S → Service S
do_each [] s = s
do_each (a ∷ attempts) s = do_each attempts (do_signal a.action a.pid a.actor a.now s).2

-- The entries of attempts, given what PostgreSQL answers and what is known of a query.
abbrev pub entries_of : Signaler → Option (ℤ → Option Text) → List Attempt → List Entry
entries_of sig find [] = []
entries_of sig find (a ∷ attempts) =
    entry_of a.action a.pid a.actor a.now (victim_query find a.pid) (reply_to a.action a.pid sig)
    ∷ entries_of sig find attempts

abbrev keep_all : {S : Type 0} → Sink S → List Entry → S → S
keep_all sinks [] m = m
keep_all sinks (e ∷ es) m = keep_all sinks es (kept m (sinks.keep e m))

sink-do_each :
    {S : Type 0} ⦃sinks : Sink S⦄ (attempts : List Attempt) (s : Service S) (m : S)
    → s.sink ≡ some m
    → (do_each attempts s).sink ≡ some (keep_all sinks (entries_of s.sig s.query_lookup attempts) m)
sink-do_each [] s m e = e
sink-do_each {S} ⦃sinks⦄ (a ∷ attempts) s m e =
    let (k, g, l) = do_signal-kept a.action a.pid a.actor a.now s m e in
    let next : Service S = (do_signal a.action a.pid a.actor a.now s).2 in
    let entry : Entry =
      entry_of a.action a.pid a.actor a.now (victim_query s.query_lookup a.pid)
        (reply_to a.action a.pid s.sig) in
    let m' : S = kept m (sinks.keep entry m) in
    sink-do_each attempts next m' k
    ∙ ap (λ sig. some (keep_all sinks (entries_of sig next.query_lookup attempts) m')) g
    ∙ ap (λ find. some (keep_all sinks (entries_of s.sig find attempts) m')) l

keep_all-Memory : (es : List Entry) (m : Memory) → keep_all memory_sink es m ≡ Memory.add_all es m
keep_all-Memory [] m = refl
keep_all-Memory (e ∷ es) m = keep_all-Memory es (Memory.add e m)

keep_all-Sqlite :
    (d : Database) (es : List Entry) (q : Sqlite d) {q' : Sqlite d}
    → add_all d es q ≡ ok q'
    → keep_all (sqlite_sink d) es q ≡ q'
keep_all-Sqlite d [] q e = cc
keep_all-Sqlite d (x ∷ es) q e =
    let (t, f, g) = >>=-eq-ok (add d x q) _ e in
    ap (λ o. keep_all (sqlite_sink d) es (kept q o)) f ∙ keep_all-Sqlite d es t g

handle_audit-limit :
    {S : Type 0} ⦃sinks : Sink S⦄ (atoi : Text → Option ℤ) (c : ℕ) (cs : Text) (k : ℕ) (m : S)
    {es : List Entry}
    → atoi (c ∷ cs) ≡ some (pos (suc k))
    → sinks.list (pos (suc k)) m ≡ ok es
    → handle_audit atoi (c ∷ cs) m ≡ reply 200 (entries es)
unfolding handle_audit
handle_audit-limit atoi c cs k m h e = rw (h, e) refl

module _ (d : Database) (atoi : Text → Option ℤ) (c : ℕ) (cs : Text) (k n : ℕ)
    (attempts : List Attempt) (s : Service Memory) (t : Service (Sqlite d)) where
  -- The entries that the attempts leave.
  abbrev pub left : List Entry
  left = entries_of s.sig s.query_lookup attempts

  -- Of two services that differ only in their sinks, a new one in memory with room for every
  -- attempt and an empty one in SQLite, after the same attempts, at instants in order: if no
  -- insertion fails nor the query, and the limit is a number from 1 to 1000, `GET /api/audit`
  -- answers the same for both, 200 with the entries of the last attempts, as many as the limit,
  -- newest first.
  pub handle_audit-do_each :
      {q q' : Sqlite d} {rows : List AuditRow}
      → s.sink ≡ some (new_memory n)
      → t.sink ≡ some q
      → t.sig ≡ s.sig
      → t.query_lookup ≡ s.query_lookup
      → d.audits q.db ≡ []
      → length left ≤ Memory.capacity n
      → IsChronicle left
      → add_all d left q ≡ ok q'
      → d.select_audits (row_limit (pos (suc k))) q'.db ≡ ok rows
      → suc k ≤ 1000
      → atoi (c ∷ cs) ≡ some (pos (suc k))
      → (m : Memory) × ((do_each attempts s).sink ≡ some m)
        × ((do_each ⦃sinks = sqlite_sink d⦄ attempts t).sink ≡ some q')
        × (handle_audit atoi (c ∷ cs) m ≡ reply 200 (entries (take (suc k) (reverse left))))
        × (handle_audit ⦃sinks = sqlite_sink d⦄ atoi (c ∷ cs) q' ≡ handle_audit atoi (c ∷ cs) m)
  handle_audit-do_each {q} {q'} sm sq same_sig same_find empty room ordered added found few h =
      let m : Memory = Memory.add_all left (new_memory n) in
      let limit : row_limit (pos (suc k)) ≡ suc k = ground (arith, few) in
      let shown : recent d (pos (suc k)) q' ≡ ok (take (suc k) (reverse left)) =
        recent-chronicle d (pos (suc k)) left q empty ordered added found
        ∙ ap (λ j. ok (take j (reverse left))) limit in
      let agree : ok (Memory.recent (pos (suc k)) m) ≡ ok (take (suc k) (reverse left)) =
        sym (recent-Memory d k n left q few room empty ordered added found) ∙ shown in
      let from_memory = handle_audit-limit atoi c cs k m h agree in
      let from_sqlite = handle_audit-limit ⦃sinks = sqlite_sink d⦄ atoi c cs k q' h shown in
      (
        m,
        sink-do_each attempts s (new_memory n) sm ∙ ap some (keep_all-Memory left (new_memory n)),
        sink-do_each ⦃sinks = sqlite_sink d⦄ attempts t q sq
            ∙ ap (λ sig. some (keep_all (sqlite_sink d) (entries_of sig t.query_lookup attempts) q))
                same_sig
            ∙ ap (λ find. some (keep_all (sqlite_sink d) (entries_of s.sig find attempts) q))
                same_find
            ∙ ap some (keep_all-Sqlite d left q added),
        from_memory,
        from_sqlite ∙ sym from_memory,
      )
