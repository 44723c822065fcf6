-- ===== src/Store/Hub.antt =====
-- internal/store/store.go: subscribers, and `Put` as the steps that other goroutines can come
-- between. A channel is a cell of a heap: `Put` copies the channels out of the map under the lock
-- and sends on them after it has given the lock back.
pub mod Publish
pub mod Subscribers
pub mod Race
pub mod Interleave
use pglockr.Prelude.{
  ℕ, ◌+◌, Bool, true, false, List, [], ◌∷◌, ◌++◌, Option, none, some, if◌then◌else◌, nat_beq,
  lookup, insert, delete, nat_eq,
}
use pglockr.Graph.{Snapshot}
use pglockr.Store.{Store, put}

-- A channel of capacity 1: the frame that waits in it, and whether it is closed.
pub record Channel : Type 0 where
  pub frame : Option Snapshot
  pub closed : Bool

-- The store with the memory that its channels live in, what its persister was asked to save (oldest
-- first), and whether the process has panicked.
pub record Hub : Type 0 where
  pub store : Store
  pub subs : List (ℕ × ℕ)
  pub next_id : ℕ
  pub channels : ℕ → Channel
  pub next_addr : ℕ
  pub saved : List Snapshot
  pub crashed : Bool

abbrev pub update : (ℕ → Channel) → ℕ → Channel → ℕ → Channel
update f a c b = if nat_beq a b then c else f b

-- `Subscribe`: the id, the address of the channel, and the hub.
unfoldable pub subscribe : Hub → ℕ × ℕ × Hub
subscribe h = (
  h.next_id,
  h.next_addr,
  record h {
    subs = insert h.next_id h.next_addr h.subs;
    next_id = h.next_id + 1;
    channels = update h.channels h.next_addr (record { frame = none; closed = false });
    next_addr = h.next_addr + 1;
  },
)

pub close_found : ℕ → Option ℕ → Hub → Hub
close_found id none h = h
close_found id (some a) h = record h {
  subs = delete id h.subs;
  channels = update h.channels a (record { frame = (h.channels a).frame; closed = true });
}

-- The function that `Subscribe` returns.
pub unsubscribe : ℕ → Hub → Hub
unfolding close_found
unsubscribe id h = close_found id (lookup id h.subs) h

-- A client takes the frame that waits in its channel.
unfoldable pub receive : ℕ → Hub → Option Snapshot × Hub
receive a h = (
  (h.channels a).frame,
  record h {
    channels = update h.channels a (record { frame = none; closed = (h.channels a).closed });
  },
)

abbrev pub addresses : List (ℕ × ℕ) → List ℕ
addresses [] = []
addresses ((id, a) ∷ ss) = a ∷ addresses ss

abbrev save_if : Bool → Snapshot → List Snapshot → List Snapshot
save_if true snap saved = saved ++ snap ∷ []
save_if false snap saved = saved

abbrev is_set {ℓ} : {A : Type ℓ} → Option A → Bool
is_set none = false
is_set (some a) = true

-- `Put` up to the sends: the ring, the copy of the channels, and the call of `Save`. An error of
-- `Save` is only logged.
pub begin_put : Snapshot → Hub → List ℕ × Hub
begin_put snap h = (
  addresses h.subs,
  record h { store = put snap h.store; saved = save_if (is_set h.store.persist) snap h.saved },
)

abbrev first_of_two : Option Snapshot → Snapshot → Option Snapshot
first_of_two none snap = some snap
first_of_two (some old) snap = some old

-- `select { case ch <- snap: default: }` on a channel that is open.
abbrev pub offer : Snapshot → Channel → Channel
offer snap c = record c { frame = first_of_two c.frame snap }

-- The same on any channel: a send on a closed channel panics.
pub send : Snapshot → ℕ → Hub → Hub
send snap a h =
    if (h.channels a).closed
    then record h { crashed = true }
    else record h { channels = update h.channels a (offer snap (h.channels a)) }

-- The loop of sends, which a panic ends.
pub publish : Snapshot → List ℕ → Hub → Hub
publish snap [] h = h
publish snap (a ∷ addrs) h =
    let rest = publish snap addrs (send snap a h) in if h.crashed then h else rest

-- `Put` with nothing in between.
pub put_whole : Snapshot → Hub → Hub
put_whole snap h = let (addrs, h') = begin_put snap h in publish snap addrs h'
