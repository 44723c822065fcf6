-- ===== src/Graph/Builder/Tests.antt =====
-- Three sessions: 3 waits for 2, which waits for 1.
use pglockr.Prelude.{
  ℕ, ◌≡◌, ◌↔◌, refl, ◌&&◌, false, List, [], ◌∷◌, codes, elem, Distinct, Memᴰ, nat_eq, lookup,
}
use mathlib.Core.List.{Permᴰ}
use pglockr.Graph.{Session, Sessions, Edge, keys, key_eq}
use pglockr.Graph.Builder.{Labels, build}
use pglockr.Graph.Builder.Collect.{blocks}
use pglockr.Graph.Builder.Edges.{Confirmed, Labelled, mem-edges-build_iff}
use pglockr.Graph.Builder.Roots.{IsWalk, waits_for_nobody, elem-roots-build}
use pglockr.Graph.Builder.Order.{build_deterministic}

abbrev pub session : ℕ → List ℕ → Session
session p blockers = record {
  pid = p;
  user = codes "app";
  app_name = [];
  client_addr = [];
  state = codes "active";
  wait_event_type = [];
  wait_event = [];
  backend_type = [];
  xact_start = 7;
  query_start = 7;
  wait_start = 7;
  query = codes "select 'x'";
  blocked_by = blockers;
  is_root = false;
}

abbrev pub chain : Sessions
chain = (3, session 3 (2 ∷ [])) ∷ (2, session 2 (1 ∷ [])) ∷ (1, session 1 []) ∷ []

abbrev turned : Sessions
turned = (2, session 2 (1 ∷ [])) ∷ (3, session 3 (2 ∷ [])) ∷ (1, session 1 []) ∷ []

abbrev pub row_lock : Labels
row_lock =
    (
      record { waiter_pid = 2; blocker_pid = 1 },
      record {
        lock_type = codes "tuple";
        relation = codes "accounts";
        waiter_mode = codes "ExclusiveLock";
        blocker_mode = codes "ExclusiveLock";
      },
    )
    ∷ []

abbrev locked : Edge
locked = record {
  waiter_pid = 2;
  blocker_pid = 1;
  lock_type = codes "tuple";
  relation = codes "accounts";
  waiter_mode = codes "ExclusiveLock";
  blocker_mode = codes "ExclusiveLock";
}

abbrev pub in_order : List ℕ → List ℕ
in_order ks = ks

pub in_order-IsWalk : IsWalk in_order
in_order-IsWalk = record { visits = λ p ks. refl; once = λ ks d. d }

chain-Distinct : Distinct (keys chain)
unfolding keys
chain-Distinct = (refl, (refl, (refl, tt)))

chain-turned : Permᴰ chain turned
chain-turned = Permᴰ.swap refl refl

mem-edges-build_iff_example : Memᴰ locked (build in_order [] 9 chain row_lock).edges ↔ (
    Confirmed chain locked.waiter_pid locked.blocker_pid
    × Labelled
        (lookup
          (record { waiter_pid = locked.waiter_pid; blocker_pid = locked.blocker_pid })
          row_lock)
        locked)
mem-edges-build_iff_example = mem-edges-build_iff in_order [] 9 chain row_lock locked

elem-roots-build_example :
    elem 1 (build in_order [] 9 chain row_lock).roots ≡ blocks chain 1 && waits_for_nobody chain 1
elem-roots-build_example = elem-roots-build in_order in_order-IsWalk [] 9 chain row_lock 1

build_deterministic_example :
    ((build in_order [] 9 chain row_lock).edges ≡ (build in_order [] 9 turned row_lock).edges)
    × ((build in_order [] 9 chain row_lock).roots ≡ (build in_order [] 9 turned row_lock).roots)
build_deterministic_example =
    build_deterministic in_order in_order in_order-IsWalk in_order-IsWalk [] 9 row_lock chain-turned
      chain-Distinct
