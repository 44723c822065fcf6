-- ===== src/Store/Tests.antt =====
-- A ring of two that three snapshots are put into, a hub with one subscriber, and a diff.
use pglockr.Prelude.{
  ℕ, ◌+◌, ◌^◌, ◌≡◌, ◌≢◌, ◌≤◌, refl, sym, ◌∙◌, subst, insert, not, ◌&&◌, false, List, [], ◌∷◌, All,
  none, some, codes, elem, lookup, nat_eq, Memᴰ, Distinct, arith,
}
use pglockr.Prelude.Time.{max_duration}
use pglockr.Graph.{Snapshot, keys}
use pglockr.Graph.Builder.Tests.{session}
use pglockr.Store.{Store, new, nearest}
use pglockr.Store.Ring
use pglockr.Store.Ring.{contents, put-IsValid, new-IsValid}
use pglockr.Store.Ring.Refine.{put_all, put_all-IsValid, contents-put_all}
use pglockr.Store.Ring.Nearest.{gap, InRange, nearest_closest}
use pglockr.Store.Hub.{Hub, subscribe, put_whole, addresses}
use pglockr.Store.Hub.Publish
use pglockr.Store.Hub.Publish.{waiting, put_whole_lem}
use pglockr.Store.Hub.Subscribers.{subscribe-IsValid}
use pglockr.Store.Diff.{diff_snapshots}
use pglockr.Store.Diff.Laws.{diff_snapshots_lem, absent, moved}

abbrev pub snap : ℕ → List ℕ → Snapshot
snap t blockers = record {
  cluster = codes "main";
  taken_at = t;
  sessions = (5, session 5 blockers) ∷ [];
  edges = [];
  roots = [];
}

abbrev pub three : List Snapshot
three = snap 10 [] ∷ snap 20 (1 ∷ []) ∷ snap 30 [] ∷ []

abbrev ring : Store
ring = put_all three (new 2)

ring-IsValid : Ring.IsValid ring
ring-IsValid = put_all-IsValid three (new-IsValid 2)

ring-contents : contents ring ≡ snap 20 (1 ∷ []) ∷ snap 30 [] ∷ []
ring-contents = contents-put_all 2 three

contents-put_all_example : contents (put_all three (new 2)) ≡ snap 20 (1 ∷ []) ∷ snap 30 [] ∷ []
contents-put_all_example = contents-put_all 2 three

ring-nonempty : contents ring ≢ []
ring-nonempty e = ground (arith, sym ring-contents ∙ e)

ring-InRange : All (InRange 24) (contents ring)
ring-InRange = subst (All (InRange 24)) (sym ring-contents) (ground arith, (ground arith, tt))

nearest_closest_example :
    (y : Snapshot) × (nearest ring 24 ≡ some y)
    × Memᴰ y (contents ring)
    × All (λ u. gap 24 y.taken_at ≤ gap 24 u.taken_at) (contents ring)
nearest_closest_example = nearest_closest 24 ring-IsValid ring-nonempty ring-InRange

ring-past : All (λ x. x.taken_at + max_duration ≤ 2 ^ 64) (contents ring)
ring-past =
    subst (All (λ x. x.taken_at + max_duration ≤ 2 ^ 64)) (sym ring-contents)
      (ground arith, (ground arith, tt))

abbrev empty_hub : Hub
empty_hub = record {
  store = new 2;
  subs = [];
  next_id = 0;
  channels = λ a. record { frame = none; closed = false };
  next_addr = 0;
  saved = [];
  crashed = false;
}

empty_hub-IsValid : Publish.IsValid empty_hub
empty_hub-IsValid = record { subs_open = tt; apart = tt; old_addrs = tt; old_ids = tt }

abbrev pub hub : Hub
hub = (subscribe empty_hub).2

pub hub-IsValid : Publish.IsValid hub
hub-IsValid = subscribe-IsValid empty_hub-IsValid

hub-running : hub.crashed ≡ false
unfolding subscribe
hub-running = refl

put_whole_lem_example :
    ((put_whole (snap 10 []) hub).crashed ≡ false)
    × ((put_whole (snap 10 []) hub).subs ≡ hub.subs)
    × ((b : ℕ)
        → (((put_whole (snap 10 []) hub).channels b).frame
            ≡ waiting (snap 10 []) (elem b (addresses hub.subs)) (hub.channels b).frame)
          × (((put_whole (snap 10 []) hub).channels b).closed ≡ (hub.channels b).closed))
put_whole_lem_example = put_whole_lem (snap 10 []) hub-IsValid hub-running

hub-subscriber : lookup 0 hub.subs ≡ some 0
unfolding subscribe lookup insert
hub-subscriber = refl

one-Distinct : Distinct (keys (snap 10 []).sessions)
unfolding keys
one-Distinct = (refl, tt)

diff_snapshots_lem_example :
    (elem 5 (diff_snapshots (snap 10 []) (snap 20 (1 ∷ []))).added
      ≡ not (absent (lookup 5 (snap 20 (1 ∷ [])).sessions))
        && absent (lookup 5 (snap 10 []).sessions))
    × (elem 5 (diff_snapshots (snap 10 []) (snap 20 (1 ∷ []))).removed
        ≡ not (absent (lookup 5 (snap 10 []).sessions))
          && absent (lookup 5 (snap 20 (1 ∷ [])).sessions))
    × (elem 5 (diff_snapshots (snap 10 []) (snap 20 (1 ∷ []))).changed
        ≡ moved (lookup 5 (snap 10 []).sessions) (lookup 5 (snap 20 (1 ∷ [])).sessions))
diff_snapshots_lem_example = diff_snapshots_lem (snap 10 []) (snap 20 (1 ∷ [])) 5 one-Distinct
