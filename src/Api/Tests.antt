-- ===== src/Api/Tests.antt =====
-- An operator's request, and a store with three snapshots.
use pglockr.Prelude.{ℕ, ◌≡◌, refl, true, [], ◌∷◌, Option, none, some, ◌⊎◌, codes, Text, arith}
use pglockr.Prelude.Int.{ℤ, pos}
use pglockr.Prelude.Time.{Time}
use pglockr.Auth.{Principal, Request, operator, at_least, check_origin}
use pglockr.Audit.Memory.{Memory, memory_sink}
use pglockr.Signal.{Service, action_cancel}
use pglockr.Signal.Tests.{service, trail}
use pglockr.Store.{new, set_persister}
use pglockr.Api.{Response, handle_snapshot, post_signal}
use pglockr.Persist.Table.{tables}
use pglockr.Persist.Kept.{save_each}
use pglockr.Persist.Tests.{
  plain_encoding, saves, opened, stored, at_second, under_50, over_50, reach_50,
}
use pglockr.Api.Past.{ServesSaved, persister, handle_snapshot-save_each}
use pglockr.Api.Actions.{Refusal, Newest, post_signal_lem}
use pglockr.Pg.Inspect.{LockRow}

abbrev pub request : Request
request = record { header = λ h. []; cookie = λ c. none; host = codes "example.com" }

abbrev as_operator : Request → Option Principal
as_operator r = some (record { name = codes "bob"; role = operator })

post_signal_lem_example :
    let out : Response × Service Memory =
      post_signal as_operator action_cancel (some (pos 7)) request 9 service in
    ((out.1 ≡ service)
      × Refusal (as_operator request) (check_origin request) (some (pos 7)) (out.0).status)
    ⊎ ((p : Principal) × (n : ℤ) × (as_operator request ≡ some p)
        × (at_least p.role operator ≡ true)
        × (check_origin request ≡ true)
        × (some (pos 7) ≡ some n)
        × Newest (out.1).sink p.name action_cancel n)
post_signal_lem_example =
    post_signal_lem as_operator action_cancel request 9 service (some (pos 7)) trail refl
      (omega arith)

abbrev no_time : Text → Option Time
no_time t = none

abbrev lock_of : ℕ → LockRow
lock_of pid = record {
  lock_type = codes "tuple";
  object = codes "accounts";
  mode = codes "ShareLock";
  granted = true;
  pid = pid;
}

abbrev second_50 : Text → Option Time
second_50 v = some (at_second 50)

-- The history of Persist/Tests behind a ring of two.
handle_snapshot-save_each_example : ServesSaved tables plain_encoding saves opened (at_second 50) (
    handle_snapshot second_50 (codes "50") (
      set_persister
        (some (persister tables plain_encoding (save_each tables plain_encoding saves opened)))
        (new 2)))
handle_snapshot-save_each_example =
    handle_snapshot-save_each second_50 53 (48 ∷ []) (at_second 50) tables plain_encoding saves
      opened (new 2) {under = some (stored 20)} {over = some (stored 100)} refl (ground arith)
      (ground arith) refl under_50 over_50 reach_50
