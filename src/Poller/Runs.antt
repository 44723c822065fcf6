-- ===== src/Poller/Runs.antt =====
-- What the loop leaves in the store and in the status.
use pglockr.Prelude.{
  ℕ, ◌≡◌, refl, ◌∙◌, ap, Bool, true, false, List, [], ◌∷◌, ◌++◌, Text, Answer, ok, err, All,
  take_last,
}
use pglockr.Graph.{Sessions, Snapshot}
use pglockr.Graph.Builder.{Labels, build}
use pglockr.Store.{new}
use pglockr.Store.Ring.{contents}
use pglockr.Store.Ring.Refine.{put_all, contents-put_all, capacity}
use pglockr.Poller.{Poller, Round, start, poll_once, round, run}

-- A round that is not cancelled.
abbrev pub IsLive : Round → Type 0
IsLive r = (r.done ≡ false) × (r.cancelled ≡ false)

abbrev one_taken : Text → Round → Answer (Sessions × Labels) → List Snapshot
one_taken c r (ok (sessions, labels)) = build r.walk c r.built_at sessions labels ∷ []
one_taken c r (err e) = []

-- The snapshots that the polls of the rounds give, oldest first.
abbrev pub taken : Text → List Round → List Snapshot
taken c [] = []
taken c (r ∷ rs) = one_taken c r r.polled ++ taken c rs

-- Whether the last round's poll succeeded, and the error that it left.
abbrev pub health : List Round → Bool × Text → Bool × Text
health [] h = h
health (r ∷ rs) h = health rs (of_one r.polled)
  where
    of_one : Answer (Sessions × Labels) → Bool × Text
    of_one (ok a) = (true, [])
    of_one (err e) = (false, e)

-- What rounds that are not cancelled do to a poller.
abbrev pub Ran : List Round → Poller → Type 0
Ran rs p =
    ((run rs p).store ≡ put_all (taken p.cluster rs) p.store)
    × (((run rs p).status.connected, (run rs p).status.last_error)
        ≡ health rs (p.status.connected, p.status.last_error))
    × ((run rs p).running ≡ true)

pub run_of : (rs : List Round) (p : Poller) → All IsLive rs → p.running ≡ true → Ran rs p
unfolding run round poll_once
run_of [] p a h = (refl, refl, h)
run_of (r ∷ rs) p ((d, c), a) h = by_poll r.polled refl (λ q. run_of rs q a)
  where
    by_poll :
        (q : Answer (Sessions × Labels))
        → r.polled ≡ q
        → ((q : Poller) → q.running ≡ true → Ran rs q)
        → Ran (r ∷ rs) p
    by_poll (ok (sessions, labels)) e next = rw e (rw h (rw c (next _ refl)))
    by_poll (err t) e next = rw e (rw h (rw d (rw c (next _ refl))))

-- Over rounds that are not cancelled, the loop runs on, a store that was new retains the snapshots
-- of the successful polls, the last of them as many as its capacity, oldest first; and the status
-- tells whether the last poll succeeded, and its error if it did not.
pub run_lem :
    (cluster : Text) (n interval : ℕ) (rs : List Round)
    → All IsLive rs
    → let p : Poller = run rs (start cluster (new n) interval) in
      (contents p.store ≡ take_last (capacity n) (taken cluster rs))
      × ((p.status.connected, p.status.last_error) ≡ health rs (false, []))
      × (p.running ≡ true)
unfolding start
run_lem cluster n interval rs a =
    let (s, h, g) = run_of rs (start cluster (new n) interval) a refl in
    (ap contents s ∙ contents-put_all n (taken cluster rs), h, g)
