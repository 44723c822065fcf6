-- ===== src/Metrics/Counts.antt =====
-- The counters count the calls.
use pglockr.Prelude.{
  Option, none, some, All, Memᴰ, ℕ, ◌+◌, ◌≤◌, ◌≡◌, refl, ◌∙◌, ap, ap₂, Bool, true, false, ◌&&◌, not,
  List, [], ◌∷◌, inl, inr, arith, Bool-cases, if◌then◌else◌, Text, text_beq, text_beq_iff, text_eq,
  lookup, lookup-insert, length,
}
use pglockr.Prelude.Time.{Duration}
use pglockr.Metrics.{
  Metrics, count, counters, inc, bool_label, observe_poll, observe_action, collect, describe,
  name_of, Gauge, connected, sessions, root_blockers, blocked_edges,
}
use pglockr.Graph.{Snapshot}

abbrev pub one_if : Bool → ℕ
one_if b = if b then 1 else 0

count-inc :
    (label k : Text) (m : List (Text × ℕ))
    → count (lookup k (inc label m)) ≡ one_if (text_beq label k) + count (lookup k m)
count-inc label k m = elim (Bool-cases (text_beq label k)) [
  | inl e ↦
      ap count (lookup-insert label k (count (lookup label m) + 1) m)
      ∙ rw (e, (text_beq_iff label k).0 e) (omega arith)
  | inr e ↦ ap count (lookup-insert label k (count (lookup label m) + 1) m) ∙ rw e (omega arith)
]

-- A poll as it is observed.
pub record Poll : Type 0 where
  pub cluster : Text
  pub took : Duration
  pub failed : Bool

abbrev pub observe_polls : List Poll → Metrics → Metrics
observe_polls [] m = m
observe_polls (p ∷ ps) m = observe_polls ps (observe_poll p.cluster p.took p.failed m)

-- The number of polls of a cluster, and of those that failed.
abbrev pub tally : Text → List Poll → ℕ
tally k [] = 0
tally k (p ∷ ps) = one_if (text_beq p.cluster k) + tally k ps

abbrev pub tally_failed : Text → List Poll → ℕ
tally_failed k [] = 0
tally_failed k (p ∷ ps) = one_if (p.failed && text_beq p.cluster k) + tally_failed k ps

polls-observe_polls :
    (k : Text) (ps : List Poll) (m : Metrics)
    → count (lookup k (observe_polls ps m).polls) ≡ tally k ps + count (lookup k m.polls)
unfolding observe_poll
polls-observe_polls k [] m = omega arith
polls-observe_polls k (p ∷ ps) m = omega (
  arith,
  polls-observe_polls k ps (observe_poll p.cluster p.took p.failed m),
  count-inc p.cluster k m.polls,
)

errors_step :
    (k label : Text) (failed : Bool) (m : List (Text × ℕ))
    → count (lookup k (if failed then inc label m else m))
      ≡ one_if (failed && text_beq label k) + count (lookup k m)
errors_step k label true m = count-inc label k m
errors_step k label false m = omega arith

errors-observe_polls :
    (k : Text) (ps : List Poll) (m : Metrics)
    → count (lookup k (observe_polls ps m).poll_errors)
      ≡ tally_failed k ps + count (lookup k m.poll_errors)
unfolding observe_poll
errors-observe_polls k [] m = omega arith
errors-observe_polls k (p ∷ ps) m = omega (
  arith,
  errors-observe_polls k ps (observe_poll p.cluster p.took p.failed m),
  errors_step k p.cluster p.failed m.poll_errors,
)

tally_failed-le : (k : Text) (ps : List Poll) → tally_failed k ps ≤ tally k ps
tally_failed-le k [] = omega arith
tally_failed-le k (p ∷ ps) = ground (arith, tally_failed-le k ps)

abbrev pub new_metrics : Metrics
new_metrics = record { polls = []; poll_errors = []; durations = []; actions = [] }

-- After any polls of any clusters, the counters of a cluster are the number of its polls and of
-- its failed polls, and the second is never more than the first.
pub observe_polls_lem :
    (k : Text) (ps : List Poll)
    → (count (lookup k (observe_polls ps new_metrics).polls) ≡ tally k ps)
      × (count (lookup k (observe_polls ps new_metrics).poll_errors) ≡ tally_failed k ps)
      × (count (lookup k (observe_polls ps new_metrics).poll_errors)
          ≤ count (lookup k (observe_polls ps new_metrics).polls))
unfolding lookup
observe_polls_lem k ps =
    let a : count (lookup k (observe_polls ps new_metrics).polls) ≡ tally k ps =
      polls-observe_polls k ps new_metrics ∙ omega arith in
    let b : count (lookup k (observe_polls ps new_metrics).poll_errors) ≡ tally_failed k ps =
      errors-observe_polls k ps new_metrics ∙ omega arith in
    (a, b, omega (arith, a, b, tally_failed-le k ps))

-- The attempts of an action with an outcome that the counters of actions count.
abbrev pub observe_actions : List (Text × Bool) → Metrics → Metrics
observe_actions [] m = m
observe_actions ((a, d) ∷ attempts) m = observe_actions attempts (observe_action a d m)

abbrev pub counted : Text → Bool → Metrics → ℕ
counted a d m = count (lookup (bool_label d) (counters (lookup a m.actions)))

abbrev same_outcome : Bool → Bool → Bool
same_outcome true d = d
same_outcome false d = not d

abbrev pub tally_actions : Text → Bool → List (Text × Bool) → ℕ
tally_actions a d [] = 0
tally_actions a d ((b, e) ∷ attempts) =
    one_if (text_beq b a && same_outcome e d) + tally_actions a d attempts

label-same : (e d : Bool) → text_beq (bool_label e) (bool_label d) ≡ same_outcome e d
label-same true true = refl
label-same true false = refl
label-same false true = refl
label-same false false = refl

counted-observe_action :
    (a b : Text) (d e : Bool) (m : Metrics)
    → counted a d (observe_action b e m) ≡ one_if (text_beq b a && same_outcome e d) + counted a d m
unfolding observe_action
counted-observe_action a b d e m =
    let here : List (Text × ℕ) = inc (bool_label e) (counters (lookup b m.actions)) in
    ap (λ o. count (lookup (bool_label d) (counters o))) (lookup-insert b a here m.actions)
    ∙ (elim (Bool-cases (text_beq b a)) [
      | inl k ↦ rw k (
          count-inc (bool_label e) (bool_label d) (counters (lookup b m.actions))
          ∙ ap₂ (λ n c. one_if n + count (lookup (bool_label d) (counters (lookup c m.actions))))
              (label-same e d) ((text_beq_iff b a).0 k))
      | inr k ↦ rw k (omega arith)
    ])

-- After any attempts, the counter of an action with an outcome is the number of the attempts of
-- that action with that outcome.
pub observe_actions_lem :
    (a : Text) (d : Bool) (attempts : List (Text × Bool))
    → counted a d (observe_actions attempts new_metrics) ≡ tally_actions a d attempts
unfolding lookup
observe_actions_lem a d attempts = from_any attempts new_metrics ∙ omega arith
  where
    from_any :
        (attempts : List (Text × Bool)) (m : Metrics)
        → counted a d (observe_actions attempts m) ≡ tally_actions a d attempts + counted a d m
    from_any [] m = omega arith
    from_any ((b, e) ∷ attempts) m =
        omega (arith, from_any attempts (observe_action b e m), counted-observe_action a b d e m)

-- The gauges of a cluster: 1 or 0 for the connection, and with a snapshot its sizes.
abbrev pub gauges : Bool → Option Snapshot → List Gauge
gauges works none = connected (one_if works) ∷ []
gauges works (some snap) =
    connected (one_if works)
    ∷ sessions (length snap.sessions)
    ∷ root_blockers (length snap.roots)
    ∷ blocked_edges (length snap.edges)
    ∷ []

pub collect_lem :
    (cluster : Text) (works : Bool) (o : Option Snapshot)
    → collect (cluster, works) o ≡ (cluster, gauges works o)
unfolding collect
collect_lem cluster works none = refl
collect_lem cluster works (some snap) = refl

-- Every gauge that `Collect` sends has a description that `Describe` sends.
pub collect-described :
    (status : Text × Bool) (o : Option Snapshot)
    → All (λ g. Memᴰ (name_of g) describe) (collect status o).1
unfolding collect describe
collect-described (cluster, works) none = (Memᴰ.head refl, tt)
collect-described (cluster, works) (some snap) = (
  Memᴰ.head refl,
  (
    Memᴰ.tail (Memᴰ.head refl),
    (
      Memᴰ.tail (Memᴰ.tail (Memᴰ.head refl)),
      (Memᴰ.tail (Memᴰ.tail (Memᴰ.tail (Memᴰ.head refl))), tt),
    ),
  ),
)
