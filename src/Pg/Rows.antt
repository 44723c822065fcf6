-- ===== src/Pg/Rows.antt =====
-- What a snapshot of the cluster consists of.
use pglockr.Prelude.{
  ℕ, ◌≡◌, refl, sym, ◌∙◌, ap, true, false, ltb, leb, Text, List, [], ◌∷◌, Option, none, some, ok,
  arith, if◌then◌else◌, nat_beq, nat_beq_iff, lookup, insert, lookup-insert, nat_eq, elem, Distinct,
  codes, >>=-eq-ok, wrap_error, wrap_error-eq-ok, ok-inj, ◌&&◌, subst,
}
use pglockr.Prelude.Time.{Time, zero_time}
use pglockr.Graph.{Session, Sessions, keys, EdgeKey, key_eq}
use pglockr.Graph.Builder.{LockLabel, Labels}
use pglockr.Pg.{
  Client, SessionRow, LabelRow, session_of, label_of, collect_sessions, collect_labels,
  query_sessions, query_edge_labels, snapshot, deref, deref_time, has_waitstart, with_waitstart,
  without_waitstart,
}

-- A column's value, with another for NULL.
abbrev pub or_null {ℓ} : {A : Type ℓ} → A → Option A → A
or_null other none = other
or_null other (some x) = x

-- The session of a row, column by column.
abbrev pub row_session : SessionRow → Session
row_session r = record {
  pid = r.pid;
  user = or_null [] r.usename;
  app_name = or_null [] r.app_name;
  client_addr = or_null [] r.client_addr;
  state = or_null [] r.state;
  wait_event_type = or_null [] r.wait_event_type;
  wait_event = or_null [] r.wait_event;
  backend_type = or_null [] r.backend;
  xact_start = or_null zero_time r.xact_start;
  query_start = or_null zero_time r.query_start;
  wait_start = or_null zero_time r.wait_start;
  query = or_null [] r.query;
  blocked_by = r.blocked_by;
  is_root = false;
}

-- The label of a row.
abbrev pub row_label : LabelRow → LockLabel
row_label r = record {
  lock_type = r.lock_type;
  relation = or_null [] r.relation;
  waiter_mode = r.waiter_mode;
  blocker_mode = r.blocker_mode;
}

deref-or_null : (o : Option Text) → deref o ≡ or_null [] o
deref-or_null none = refl
deref-or_null (some t) = refl

deref_time-or_null : (o : Option Time) → deref_time o ≡ or_null zero_time o
deref_time-or_null none = refl
deref_time-or_null (some t) = refl

session_of-row_session : (r : SessionRow) → session_of r ≡ row_session r
session_of-row_session r = cc (
  deref-or_null r.usename,
  deref-or_null r.app_name,
  deref-or_null r.client_addr,
  deref-or_null r.state,
  deref-or_null r.wait_event_type,
  deref-or_null r.wait_event,
  deref-or_null r.backend,
  deref_time-or_null r.xact_start,
  deref_time-or_null r.query_start,
  deref_time-or_null r.wait_start,
  deref-or_null r.query,
)

label_of-row_label : (r : LabelRow) → label_of r ≡ row_label r
label_of-row_label r = cc (deref-or_null r.relation)

-- The session of the last row of a process.
abbrev pub last_row : ℕ → List SessionRow → Option Session → Option Session
last_row p [] found = found
last_row p (r ∷ rs) found = last_row p rs (if nat_beq r.pid p then some (row_session r) else found)

lookup-collect_sessions :
    (p : ℕ) (rs : List SessionRow) (ss : Sessions)
    → lookup p (collect_sessions rs ss) ≡ last_row p rs (lookup p ss)
unfolding collect_sessions
lookup-collect_sessions p [] ss = refl
lookup-collect_sessions p (r ∷ rs) ss =
    lookup-collect_sessions p rs (insert r.pid (session_of r) ss)
    ∙ ap (last_row p rs) (
        lookup-insert r.pid p (session_of r) ss
        ∙ ap (λ s. if nat_beq r.pid p then some s else lookup p ss) (session_of-row_session r))

elem-keys-insert :
    (p q : ℕ) (s : Session) (ss : Sessions)
    → elem p (keys (insert q s ss)) ≡ (if nat_beq p q then true else elem p (keys ss))
unfolding keys insert
elem-keys-insert p q s [] = ground (arith, nat_beq_iff p q)
elem-keys-insert p q s ((w, t) ∷ ss) =
    ground (arith, nat_beq_iff p q, nat_beq_iff w q, nat_beq_iff p w, elem-keys-insert p q s ss)

keys-insert-Distinct :
    (q : ℕ) (s : Session) (ss : Sessions) → Distinct (keys ss) → Distinct (keys (insert q s ss))
unfolding keys insert
keys-insert-Distinct q s [] d = (refl, tt)
keys-insert-Distinct q s ((w, t) ∷ ss) (n, d) =
    ground (arith, nat_beq_iff w q, elem-keys-insert w q s ss, keys-insert-Distinct q s ss d)

pub collect_sessions-Distinct :
    (rs : List SessionRow) (ss : Sessions)
    → Distinct (keys ss)
    → Distinct (keys (collect_sessions rs ss))
unfolding collect_sessions
collect_sessions-Distinct [] ss d = d
collect_sessions-Distinct (r ∷ rs) ss d =
    collect_sessions-Distinct rs (insert r.pid (session_of r) ss)
      (keys-insert-Distinct r.pid (session_of r) ss d)

abbrev pub last_label : EdgeKey → List LabelRow → Option LockLabel → Option LockLabel
last_label k [] found = found
last_label k (r ∷ rs) found = last_label k rs (
    if nat_beq r.waiter k.waiter_pid && nat_beq r.blocker k.blocker_pid
    then some (row_label r)
    else found)

lookup-collect_labels :
    (k : EdgeKey) (rs : List LabelRow) (ls : Labels)
    → lookup k (collect_labels rs ls) ≡ last_label k rs (lookup k ls)
unfolding collect_labels
lookup-collect_labels k [] ls = refl
lookup-collect_labels k (r ∷ rs) ls =
    lookup-collect_labels k rs
      (insert (record { waiter_pid = r.waiter; blocker_pid = r.blocker }) (label_of r) ls)
    ∙ ap (last_label k rs) (
        lookup-insert (record { waiter_pid = r.waiter; blocker_pid = r.blocker }) k (label_of r) ls
        ∙ ap
            (λ l.
              if nat_beq r.waiter k.waiter_pid && nat_beq r.blocker k.blocker_pid
              then some l
              else lookup k ls)
            (label_of-row_label r))

query_sessions-eq-ok :
    (c : Client) {ss : Sessions}
    → query_sessions c ≡ ok ss
    → (rows : List SessionRow) × (c.session_rows
          (if has_waitstart c then with_waitstart else without_waitstart)
        ≡ ok rows)
      × (collect_sessions rows [] ≡ ss)
unfolding query_sessions
query_sessions-eq-ok c h =
    let (rows, e, f) =
      >>=-eq-ok (c.session_rows (if has_waitstart c then with_waitstart else without_waitstart)) _
        h in
    (rows, e, ok-inj f)

query_edge_labels-eq-ok :
    (c : Client) {labels : Labels}
    → query_edge_labels c ≡ ok labels
    → (rows : List LabelRow) × (c.label_rows ≡ ok rows) × (collect_labels rows [] ≡ labels)
unfolding query_edge_labels
query_edge_labels-eq-ok c h = let (rows, e, f) = >>=-eq-ok c.label_rows _ h in (rows, e, ok-inj f)

snapshot-parts :
    (c : Client) {ss : Sessions} {labels : Labels}
    → snapshot c ≡ ok (ss, labels)
    → (query_sessions c ≡ ok ss) × (query_edge_labels c ≡ ok labels)
unfolding snapshot
snapshot-parts c h =
    let (ss', e, f) = >>=-eq-ok (wrap_error (codes "query sessions: ") (query_sessions c)) _ h in
    let (labels', e', f') =
      >>=-eq-ok (wrap_error (codes "query edge labels: ") (query_edge_labels c)) _ f in
    (
      wrap_error-eq-ok (codes "query sessions: ") (query_sessions c) e
          ∙ ap (λ q. ok q.0) (ok-inj f'),
      wrap_error-eq-ok (codes "query edge labels: ") (query_edge_labels c) e'
          ∙ ap (λ q. ok q.1) (ok-inj f'),
    )

threshold :
    (n : ℕ)
    → (if leb 140000 n then with_waitstart else without_waitstart)
      ≡ (if ltb n 140000 then without_waitstart else with_waitstart)
threshold n = ground arith

-- No process id stands in it twice; a process has the session of its last row, and a pair of
-- processes the label of its last row; the rows are those of the two queries, the first in the
-- form with the column `waitstart` from version 14 on.
abbrev pub IsSnapshot : Client → Sessions → Labels → Type 0
IsSnapshot c ss labels =
    Distinct (keys ss)
    × ((rows : List SessionRow) × (c.session_rows
            (if ltb c.version_num 140000 then without_waitstart else with_waitstart)
          ≡ ok rows)
        × ((p : ℕ) → lookup p ss ≡ last_row p rows none))
    × ((rows : List LabelRow) × (c.label_rows ≡ ok rows)
        × ((k : EdgeKey) → lookup k labels ≡ last_label k rows none))

-- A snapshot of the cluster, when it succeeds, comes from rows of both queries; the first asks for
-- the column `waitstart` unless the version of the server is below 14. No process id stands in it
-- twice. A process has the session of its last row: each field is that column's value, where NULL
-- is the empty text or the zero time, and it is not yet a root. A pair of processes has the label
-- of its last row, where a relation that is NULL is the empty text.
pub snapshot-eq-ok :
    (c : Client) {ss : Sessions} {labels : Labels}
    → snapshot c ≡ ok (ss, labels)
    → IsSnapshot c ss labels
unfolding keys lookup
snapshot-eq-ok c h =
    let (s, l) = snapshot-parts c h in
    let (rows, e, f) = query_sessions-eq-ok c s in
    let (rows', e', f') = query_edge_labels-eq-ok c l in
    (
      subst (λ ss. Distinct (keys ss)) f (collect_sessions-Distinct rows [] tt),
      (
        rows,
        ap c.session_rows (sym (threshold c.version_num)) ∙ e,
        λ p. ap (lookup p) (sym f) ∙ lookup-collect_sessions p rows [],
      ),
      (rows', e', λ k. ap (lookup k) (sym f') ∙ lookup-collect_labels k rows' []),
    )
