-- ===== src/Signal/Record.antt =====
-- internal/signal/signal.go: the entry that `Do` leaves, field by field.
use pglockr.Prelude.{◌≡◌, refl, ◌∙◌, Bool, true, false, [], Option, none, some, Text}
use pglockr.Prelude.Int.{ℤ}
use pglockr.Prelude.Time.{Time}
use pglockr.Audit.{Entry}
use pglockr.Signal.{Action, Reply, victim_query, entry_of}

-- The text of the victim's query: empty if nothing looks queries up, or it finds none.
abbrev found_text : Option Text → Text
found_text none = []
found_text (some q) = q

abbrev pub known_query : Option (ℤ → Option Text) → ℤ → Text
known_query none pid = []
known_query (some find) pid = found_text (find pid)

-- The delivery and the error that an entry has for what PostgreSQL answered.
abbrev pub Tells : Reply → Bool → Text → Type 0
Tells (d, none) delivered error = (delivered ≡ d) × (error ≡ [])
Tells (d, some e) delivered error = (delivered ≡ false) × (error ≡ e)

-- The entry of an attempt, field by field.
abbrev pub IsEntry : Action → ℤ → Text → Time → Text → Reply → Entry → Type 0
IsEntry action pid actor now query reply e =
    (e.at ≡ now)
    × (e.actor ≡ actor)
    × (e.action ≡ action)
    × (e.pid ≡ pid)
    × (e.victim_query ≡ query)
    × Tells reply e.delivered e.error

victim_query-known_query :
    (find : Option (ℤ → Option Text)) (pid : ℤ) → victim_query find pid ≡ known_query find pid
victim_query-known_query none pid = refl
victim_query-known_query (some find) pid = of_text (find pid)
  where
    of_text : (o : Option Text) → victim_query (some (λ p. o)) pid ≡ found_text o
    of_text none = refl
    of_text (some q) = refl

entry_of-Tells :
    (action : Action) (pid : ℤ) (actor : Text) (now : Time) (query : Text) (r : Reply)
    → let e : Entry = entry_of action pid actor now query r in Tells r e.delivered e.error
entry_of-Tells action pid actor now query (true, none) = (refl, refl)
entry_of-Tells action pid actor now query (false, none) = (refl, refl)
entry_of-Tells action pid actor now query (true, some e) = (refl, refl)
entry_of-Tells action pid actor now query (false, some e) = (refl, refl)

pub entry_of-IsEntry :
    (action : Action) (pid : ℤ) (actor : Text) (now : Time) (find : Option (ℤ → Option Text))
    (r : Reply)
    → IsEntry action pid actor now
        (known_query find pid)
        r
        (entry_of action pid actor now (victim_query find pid) r)
entry_of-IsEntry action pid actor now find r = (
  fields r,
  actor_of r,
  action_of r,
  pid_of r,
  query_of r ∙ victim_query-known_query find pid,
  entry_of-Tells action pid actor now (victim_query find pid) r,
)
  where
    of : Reply → Entry
    of r = entry_of action pid actor now (victim_query find pid) r

    fields : (r : Reply) → (of r).at ≡ now
    fields (d, o) = refl

    actor_of : (r : Reply) → (of r).actor ≡ actor
    actor_of (d, o) = refl

    action_of : (r : Reply) → (of r).action ≡ action
    action_of (d, o) = refl

    pid_of : (r : Reply) → (of r).pid ≡ pid
    pid_of (d, o) = refl

    query_of : (r : Reply) → (of r).victim_query ≡ victim_query find pid
    query_of (d, o) = refl
