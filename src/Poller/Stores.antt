-- ===== src/Poller/Stores.antt =====
-- Invariants of the store under the loop: what every put of a poll keeps, every run keeps.
use pglockr.Prelude.{
  ℕ, ◌≡◌, refl, sym, subst, true, false, List, [], ◌∷◌, All, arith, Text, Answer, ok, err,
  Bool-cases, ◌⊎◌, inl, inr,
}
use pglockr.Graph.{Sessions}
use pglockr.Graph.Builder.{Labels, build}
use pglockr.Store.{Store, put}
use pglockr.Poller.{Poller, Round, start, poll_once, round, run}

module _ (P : Store → Type 0) (cluster : Text) where
  -- Putting what the round polls keeps the property.
  abbrev pub Keeps : Round → Type 0
  Keeps r =
      (ss : Sessions) (labels : Labels)
      → r.polled ≡ ok (ss, labels)
      → (s : Store) → P s
      → P (put (build r.walk cluster r.built_at ss labels) s)

  abbrev Holds : Poller → Type 0
  Holds p = (p.cluster ≡ cluster) × P p.store

  round-Holds : (r : Round) (p : Poller) → Keeps r → Holds p → Holds (round r p)
  unfolding round poll_once
  round-Holds r p k (e, h) = by_running (Bool-cases p.running)
    where
      by_poll :
          (q : Answer (Sessions × Labels)) → r.polled ≡ q → p.running ≡ true → Holds (round r p)
      by_poll (ok (ss, labels)) q g =
          let put_whole : P (put (build r.walk p.cluster r.built_at ss labels) p.store) =
            subst (λ c. P (put (build r.walk c r.built_at ss labels) p.store)) (sym e)
              (k ss labels q p.store h) in
          rw g (rw q (e, put_whole))
      by_poll (err t) q g = rw g (rw q (ground (arith, e, h)))

      by_running : (p.running ≡ true) ⊎ (p.running ≡ false) → Holds (round r p)
      by_running (inl g) = by_poll r.polled refl g
      by_running (inr g) = rw g (e, h)

  run-Holds : (rs : List Round) (p : Poller) → All Keeps rs → Holds p → Holds (run rs p)
  unfolding run
  run-Holds [] p a h = h
  run-Holds (r ∷ rs) p (k, a) h = run-Holds rs (round r p) a (round-Holds r p k h)

  pub store-run :
      (store : Store) (interval : ℕ) (rs : List Round)
      → All Keeps rs
      → P store
      → P (run rs (start cluster store interval)).store
  unfolding start
  store-run store interval rs a h = (run-Holds rs (start cluster store interval) a (refl, h)).1
