-- ===== src/Poller/Observed.antt =====
-- internal/poller/poller.go with its observer, internal/metrics: what `Run` tells it of each poll,
-- and what a scrape finds. The command gives `Collect` the poller's status and the store's latest
-- snapshot.
use mathlib.Core.Option
use pglockr.Prelude.{
  ℕ, ◌+◌, ◌≡◌, refl, ◌∙◌, ap, ap₂, Bool, true, false, List, [], ◌∷◌, map, Option, none, some,
  if◌then◌else◌, Answer, ok, err, All, Memᴰ, length, get_last?, lookup, text_eq, text_beq,
  text_beq_iff, Text, arith,
}
use pglockr.Prelude.Time.{Duration}
use pglockr.Graph.{Sessions}
use pglockr.Graph.Builder.{Labels}
use pglockr.Store.{new, latest}
use pglockr.Store.Ring.Queries.{latest-put_all}
use pglockr.Poller.{Poller, Round, start, poll_once, round, run, after_poll}
use pglockr.Poller.Runs.{IsLive, run_of, taken, health}
use pglockr.Metrics.{Metrics, Gauge, count, observe_poll, collect, name_of, describe}
use pglockr.Metrics.Counts.{
  Poll, observe_polls, tally, tally_failed, new_metrics, observe_polls_lem, collect-described,
  gauges, collect_lem,
}

-- A round, and the time that its poll took for the observer.
pub record Timed : Type 0 where
  pub met : Round
  pub took : Duration

-- A poller with its observer, which may be nil.
pub record Observed : Type 0 where
  pub poller : Poller
  pub obs : Option Metrics

abbrev is_set : Option Text → Bool
is_set none = false
is_set (some e) = true

-- `p.obs.ObservePoll` behind its guard.
abbrev tell : Option Metrics → Text → Duration → Option Text → Option Metrics
tell obs cluster took e = Option.map (observe_poll cluster took (is_set e)) obs

-- A round of the loop of `Run`, with the call of the observer after `pollOnce`.
pub observed_round : Timed → Observed → Observed
observed_round t o =
    if o.poller.running
    then record {
      poller = round t.met o.poller;
      obs = tell o.obs o.poller.cluster t.took (poll_once t.met o.poller).0;
    }
    else o

pub observed_run : List Timed → Observed → Observed
observed_run [] o = o
observed_run (t ∷ ts) o = observed_run ts (observed_round t o)

-- What a scrape collects.
pub scrape : Poller → Text × List Gauge
scrape p = collect (p.status.cluster, p.status.connected) (latest p.store)

abbrev pub rounds : List Timed → List Round
rounds ts = map (λ (t : Timed). t.met) ts

abbrev failed_of : Answer (Sessions × Labels) → Bool
failed_of (ok a) = false
failed_of (err e) = true

-- The polls as the observer is told of them.
abbrev told : Text → List Timed → List Poll
told c [] = []
told c (t ∷ ts) =
    (record { cluster = c; took = t.took; failed = failed_of t.met.polled }) ∷ told c ts

-- The number of polls that failed.
abbrev pub failures : List Timed → ℕ
failures [] = 0
failures (t ∷ ts) = (if failed_of t.met.polled then 1 else 0) + failures ts

poll_once-failed : (r : Round) (p : Poller) → is_set (poll_once r p).0 ≡ failed_of r.polled
unfolding poll_once
poll_once-failed r p = ground arith

round-cluster :
    (r : Round) (p : Poller)
    → ((round r p).cluster ≡ p.cluster) × ((round r p).status.cluster ≡ p.status.cluster)
unfolding round poll_once after_poll
round-cluster r p = ground arith

observed_once :
    (t : Timed) (p : Poller) (m : Metrics)
    → p.running ≡ true
    → observed_round t (record { poller = p; obs = some m }) ≡ record {
      poller = round t.met p;
      obs = some (observe_poll p.cluster t.took (failed_of t.met.polled) m);
    }
unfolding observed_round
observed_once t p m h =
    ap
      (λ b.
        if b
        then record {
          poller = round t.met p;
          obs = tell (some m) p.cluster t.took (poll_once t.met p).0;
        }
        else record { poller = p; obs = some m })
      h
    ∙ ap (λ f. record { poller = round t.met p; obs = some (observe_poll p.cluster t.took f m) })
        (poll_once-failed t.met p)

-- The observer changes nothing of the loop, and is told of every poll.
observed_run-live :
    (ts : List Timed) (p : Poller) (m : Metrics)
    → All IsLive (rounds ts)
    → p.running ≡ true
    → observed_run ts (record { poller = p; obs = some m })
      ≡ record { poller = run (rounds ts) p; obs = some (observe_polls (told p.cluster ts) m) }
unfolding observed_run run
observed_run-live [] p m a h = refl
observed_run-live (t ∷ ts) p m (l, a) h =
    let q : Poller = round t.met p in
    let m' : Metrics = observe_poll p.cluster t.took (failed_of t.met.polled) m in
    let on : q.running ≡ true = (run_of (t.met ∷ []) p (l, tt) h).2 in
    ap (observed_run ts) (observed_once t p m h)
    ∙ observed_run-live ts q m' a on
    ∙ ap (λ c. record { poller = run (rounds ts) q; obs = some (observe_polls (told c ts) m') })
        (round-cluster t.met p).0

run-cluster : (rs : List Round) (p : Poller) → (run rs p).status.cluster ≡ p.status.cluster
unfolding run
run-cluster [] p = refl
run-cluster (r ∷ rs) p = run-cluster rs (round r p) ∙ (round-cluster r p).1

tally-told : (c : Text) (ts : List Timed) → tally c (told c ts) ≡ length ts
tally-told c [] = refl
tally-told c (t ∷ ts) =
    let same : text_beq c c ≡ true = (text_beq_iff c c).1 refl in
    rw same (omega (arith, tally-told c ts))

tally_failed-told : (c : Text) (ts : List Timed) → tally_failed c (told c ts) ≡ failures ts
tally_failed-told c [] = refl
tally_failed-told c (t ∷ ts) =
    let same : text_beq c c ≡ true = (text_beq_iff c c).1 refl in
    rw same (ground (arith, tally_failed-told c ts))

-- Over rounds that are not cancelled, with the observer of the command: the loop does what it does
-- without one; the counter of the cluster's polls is the number of the rounds, and that of its
-- failed polls the number of those that failed. A scrape then finds, for the cluster, 1 or 0 for
-- whether there was a poll and the last one succeeded, and if any poll gave a snapshot, the numbers
-- of sessions, of roots and of edges of the last one; and each gauge that it finds has a
-- description.
pub scrape_lem :
    (cluster : Text) (n interval : ℕ) (ts : List Timed)
    → All IsLive (rounds ts)
    → let o : Observed =
        observed_run ts
          (record { poller = start cluster (new n) interval; obs = some new_metrics }) in
      (o.poller ≡ run (rounds ts) (start cluster (new n) interval))
      × ((m : Metrics) × (o.obs ≡ some m)
          × (count (lookup cluster m.polls) ≡ length ts)
          × (count (lookup cluster m.poll_errors) ≡ failures ts))
      × (scrape o.poller ≡ (
        cluster,
        gauges (health (rounds ts) (false, [])).0 (get_last? (taken cluster (rounds ts))),
      ))
      × All (λ g. Memᴰ (name_of g) describe) (scrape o.poller).1
unfolding scrape start
scrape_lem cluster n interval ts a =
    let p : Poller = start cluster (new n) interval in
    let o : Observed = observed_run ts (record { poller = p; obs = some new_metrics }) in
    let e = observed_run-live ts p new_metrics a refl in
    let (s, h, g) = run_of (rounds ts) p a refl in
    let m : Metrics = observe_polls (told cluster ts) new_metrics in
    let (polls, errors, le) = observe_polls_lem cluster (told cluster ts) in
    let found : scrape (run (rounds ts) p) ≡ (
      cluster,
      gauges (health (rounds ts) (false, [])).0 (get_last? (taken cluster (rounds ts))),
    ) =
      ap₂ collect (ap₂ (λ c b. (c, b)) (run-cluster (rounds ts) p) (ap (λ x. x.0) h))
        (ap latest s ∙ latest-put_all n (taken cluster (rounds ts)))
      ∙ collect_lem cluster (health (rounds ts) (false, [])).0
          (get_last? (taken cluster (rounds ts))) in
    (
      ap (λ (o : Observed). o.poller) e,
      (
        m,
        ap (λ (o : Observed). o.obs) e,
        polls ∙ tally-told cluster ts,
        errors ∙ tally_failed-told cluster ts,
      ),
      ap (λ (o : Observed). scrape o.poller) e ∙ found,
      collect-described _ (latest o.poller.store),
    )
