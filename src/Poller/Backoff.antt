-- ===== src/Poller/Backoff.antt =====
-- How long the loop waits.
use pglockr.Prelude.{
  ℕ, suc, ◌+◌, ◌*◌, ◌^◌, ◌≡◌, ◌≤◌, refl, sym, ◌∙◌, ap, true, false, List, [], ◌∷◌, ◌++◌, ◌⊎◌, inl,
  inr, Bool-cases, arith, length, if◌then◌else◌, ltb, Text, Answer, ok, err, All,
}
use native.Mathlib.Nat.{pow-suc, mul_assoc}
use pglockr.Graph.{Sessions}
use pglockr.Graph.Builder.{Labels}
use pglockr.Store.{Store}
use pglockr.Poller.{Poller, Round, start, poll_once, doubled, round, run, max_backoff}

-- A round whose poll fails and that is not cancelled.
abbrev pub IsFailure : Round → Type 0
IsFailure r = ((e : Text) × (r.polled ≡ err e)) × (r.done ≡ false) × (r.cancelled ≡ false)

-- What the wait grows to.
abbrev pub backoff_cap : ℕ → ℕ
backoff_cap i = if ltb i max_backoff then max_backoff else i

round-fails :
    (r : Round) (p : Poller)
    → IsFailure r
    → p.running ≡ true
    → ((round r p).running ≡ true)
      × ((round r p).backoff ≡ doubled p.backoff)
      × ((round r p).slept ≡ p.backoff)
      × ((round r p).interval ≡ p.interval)
unfolding round poll_once
round-fails r p ((e, pe), d, c) h = rw h (rw pe (rw d (rw c (refl, refl, refl, refl))))

doubled-le : (i b : ℕ) → i ≤ b → b ≤ backoff_cap i → (i ≤ doubled b) × (doubled b ≤ backoff_cap i)
doubled-le i b l h = ground arith

-- The lesser of the interval doubled `k` times and the cap; an interval above the cap is never
-- doubled.
abbrev pub closed_form : ℕ → ℕ → ℕ
closed_form k i =
    if ltb i max_backoff
    then (if ltb max_backoff (i * 2 ^ k) then max_backoff else i * 2 ^ k)
    else i

doubled-closed_form : (k i : ℕ) → doubled (closed_form k i) ≡ closed_form (suc k) i
doubled-closed_form k i = ground (arith, double)
  where
    double : i * 2 ^ suc k ≡ i * 2 ^ k * 2
    double = ap (◌*◌ i) (pow-suc 2 k) ∙ sym (mul_assoc i (2 ^ k) 2)

run-snoc : (rs : List Round) (r : Round) (p : Poller) → run (rs ++ r ∷ []) p ≡ round r (run rs p)
unfolding run
run-snoc [] r p = refl
run-snoc (x ∷ rs) r p = run-snoc rs r (round x p)

run-failures_of :
    (k i : ℕ) (rs : List Round) (p : Poller)
    → All IsFailure rs
    → p.running ≡ true
    → p.backoff ≡ closed_form k i
    → ((run rs p).running ≡ true) × ((run rs p).backoff ≡ closed_form (k + length rs) i)
unfolding run
run-failures_of k i [] p a h b = (h, b ∙ ap (λ n. closed_form n i) (omega arith))
run-failures_of k i (r ∷ rs) p (f, fs) h b =
    let (h', b', s', i') = round-fails r p f h in
    let (h'', b'') =
      run-failures_of (suc k) i rs (round r p) fs h'
        (b' ∙ ap doubled b ∙ doubled-closed_form k i) in
    (h'', b'' ∙ ap (λ n. closed_form n i) (omega arith))

-- When the first `k` polls fail and then one more does, none of them cancelled, the loop runs on,
-- and what it has waited after that last failure is the interval doubled `k` times, but 30 seconds
-- at most; an interval of 30 seconds or more stays as it is. So it waits the interval itself after
-- the first failure.
pub run-failures :
    (cluster : Text) (store : Store) (i : ℕ) (rs : List Round) (r : Round)
    → All IsFailure rs
    → IsFailure r
    → ((run (rs ++ r ∷ []) (start cluster store i)).running ≡ true)
      × ((run (rs ++ r ∷ []) (start cluster store i)).slept ≡ closed_form (length rs) i)
unfolding start
run-failures cluster store i rs r a f =
    let (h, b) = run-failures_of 0 i rs (start cluster store i) a refl undoubled in
    let (h', b', s', i') = round-fails r (run rs (start cluster store i)) f h in
    let last = run-snoc rs r (start cluster store i) in
    (
      ap (λ (p : Poller). p.running) last ∙ h',
      ap (λ (p : Poller). p.slept) last ∙ s' ∙ b ∙ ap (λ n. closed_form n i) (omega arith),
    )
  where
    undoubled : i ≡ closed_form 0 i
    undoubled = ground arith

-- The wait and the interval stay in their bounds.
InBounds : ℕ → Poller → Type 0
InBounds i p =
    (p.interval ≡ i) × (i ≤ p.backoff) × (p.backoff ≤ backoff_cap i) × (p.slept ≤ backoff_cap i)

round-InBounds : (i : ℕ) (r : Round) (p : Poller) → InBounds i p → InBounds i (round r p)
unfolding InBounds round poll_once
round-InBounds i r p (e, l, h, w) = by_poll r.polled refl
  where
    by_poll : (a : Answer (Sessions × Labels)) → r.polled ≡ a → InBounds i (round r p)
    by_poll (ok (sessions, labels)) pa = rw pa (grind (arith, e, l, h, w))
    by_poll (err t) pa = rw pa (ground (arith, e, l, h, w))

run-InBounds : (i : ℕ) (rs : List Round) (p : Poller) → InBounds i p → InBounds i (run rs p)
unfolding run
run-InBounds i [] p b = b
run-InBounds i (r ∷ rs) p b = run-InBounds i rs (round r p) (round-InBounds i r p b)

-- Whatever happens, the loop never waits longer than the longer of the interval and 30 seconds. And
-- unless the loop has returned before, after a failed poll that is not cancelled it has waited at
-- least the interval, and no longer than that either.
pub run-bounds :
    (cluster : Text) (store : Store) (i : ℕ) (rs : List Round) (r : Round)
    → IsFailure r
    → let before : Poller = run rs (start cluster store i) in
      let after : Poller = run (rs ++ r ∷ []) (start cluster store i) in
      (before.slept ≤ backoff_cap i)
      × ((before.running ≡ false) ⊎ (i ≤ after.slept) × (after.slept ≤ backoff_cap i))
unfolding InBounds start
run-bounds cluster store i rs r f =
    let (e, l, b, w) =
      run-InBounds i rs (start cluster store i) (refl, ground arith, ground arith, ground arith) in
    (w, by_running l b (Bool-cases (run rs (start cluster store i)).running))
  where
    before : Poller
    before = run rs (start cluster store i)

    after : Poller
    after = run (rs ++ r ∷ []) (start cluster store i)

    by_running :
        i ≤ before.backoff
        → before.backoff ≤ backoff_cap i
        → (before.running ≡ true) ⊎ (before.running ≡ false)
        → (before.running ≡ false) ⊎ (i ≤ after.slept) × (after.slept ≤ backoff_cap i)
    by_running l b (inr h) = inl h
    by_running l b (inl h) =
        let slept : after.slept ≡ before.backoff =
          ap (λ (p : Poller). p.slept) (run-snoc rs r (start cluster store i))
          ∙ (round-fails r before f h).2 in
        inr (omega (arith, slept, l), omega (arith, slept, b))
