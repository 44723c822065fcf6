-- ===== src/Poller/Tests.antt =====
-- Polls of a source that fails, recovers and is cancelled.
use pglockr.Prelude.{
  ℕ, ◌≡◌, ◌≤◌, refl, Bool, true, false, List, [], ◌∷◌, ◌++◌, ◌⊎◌, All, codes, length, ok, err,
  take_last, Answer, some, lookup, text_eq, get_last?, Memᴰ,
}
use pglockr.Graph.{Sessions}
use pglockr.Graph.Builder.{Labels}
use pglockr.Graph.Builder.Tests.{chain, row_lock, in_order}
use pglockr.Store.{new}
use pglockr.Store.Ring.{contents}
use pglockr.Store.Ring.Refine.{capacity}
use pglockr.Poller.{Poller, Round, start, run}
use pglockr.Prelude.Int.{pos}
use pglockr.Poller.Observed
use pglockr.Poller.Observed.{Timed, Observed, observed_run, rounds, scrape, scrape_lem}
use pglockr.Metrics.{Metrics, count, name_of, describe}
use pglockr.Metrics.Counts.{new_metrics, gauges}
use pglockr.Poller.Backoff.{IsFailure, backoff_cap, closed_form, run-failures, run-bounds}
use pglockr.Poller.Runs.{IsLive, taken, health, run_lem}

abbrev one_round : Answer (Sessions × Labels) → Bool → Round
one_round polled stop = record {
  polled = polled;
  walk = in_order;
  built_at = 9;
  polled_at = 9;
  elapsed = 1;
  done = stop;
  cancelled = stop;
}

abbrev failing : Round
failing = one_round (err (codes "refused")) false

abbrev working : Round
working = one_round (ok (chain, row_lock)) false

abbrev stopping : Round
stopping = one_round (err (codes "cancelled")) true

abbrev second : ℕ
second = 1000000000

abbrev failures : List Round
failures = failing ∷ failing ∷ []

failures-IsFailure : All IsFailure failures
failures-IsFailure =
    (((codes "refused", refl), refl, refl), (((codes "refused", refl), refl, refl), tt))

failing-IsFailure : IsFailure failing
failing-IsFailure = ((codes "refused", refl), refl, refl)

run-failures_example :
    ((run (failures ++ failing ∷ []) (start (codes "main") (new 2) second)).running ≡ true)
    × ((run (failures ++ failing ∷ []) (start (codes "main") (new 2) second)).slept
        ≡ closed_form (length failures) second)
run-failures_example =
    run-failures (codes "main") (new 2) second failures failing failures-IsFailure failing-IsFailure

run-bounds_example :
    let before : Poller = run (failing ∷ working ∷ []) (start (codes "main") (new 2) second) in
    let after : Poller =
      run ((failing ∷ working ∷ []) ++ failing ∷ []) (start (codes "main") (new 2) second) in
    (before.slept ≤ backoff_cap second)
    × ((before.running ≡ false) ⊎ (second ≤ after.slept) × (after.slept ≤ backoff_cap second))
run-bounds_example =
    run-bounds (codes "main") (new 2) second (failing ∷ working ∷ []) failing failing-IsFailure

mixed-IsLive : All IsLive (working ∷ failing ∷ [])
mixed-IsLive = ((refl, refl), ((refl, refl), tt))

run_lem_example :
    let p : Poller = run (working ∷ failing ∷ []) (start (codes "main") (new 2) second) in
    (contents p.store ≡ take_last (capacity 2) (taken (codes "main") (working ∷ failing ∷ [])))
    × ((p.status.connected, p.status.last_error) ≡ health (working ∷ failing ∷ []) (false, []))
    × (p.running ≡ true)
run_lem_example = run_lem (codes "main") 2 second (working ∷ failing ∷ []) mixed-IsLive

abbrev fresh : Poller
fresh = start (codes "main") (new 2) second

fresh-running : fresh.running ≡ true
unfolding start
fresh-running = refl

abbrev timed : List Timed
timed = (record { met = failing; took = pos 5 }) ∷ (record { met = working; took = pos 7 }) ∷ []

timed-IsLive : All IsLive (rounds timed)
timed-IsLive = ((refl, refl), ((refl, refl), tt))

scrape_lem_example :
    let o : Observed =
      observed_run timed
        (record { poller = start (codes "main") (new 2) second; obs = some new_metrics }) in
    (o.poller ≡ run (rounds timed) (start (codes "main") (new 2) second))
    × ((m : Metrics) × (o.obs ≡ some m)
        × (count (lookup (codes "main") m.polls) ≡ length timed)
        × (count (lookup (codes "main") m.poll_errors) ≡ Observed.failures timed))
    × (scrape o.poller ≡ (
      codes "main",
      gauges
          (health (rounds timed) (false, [])).0
          (get_last? (taken (codes "main") (rounds timed))),
    ))
    × All (λ g. Memᴰ (name_of g) describe) (scrape o.poller).1
scrape_lem_example = scrape_lem (codes "main") 2 second timed timed-IsLive
