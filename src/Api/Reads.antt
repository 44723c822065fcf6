-- ===== src/Api/Reads.antt =====
-- What the read handlers answer from a store and from a sink.
use pglockr.Prelude.{ℕ, ◌≡◌, refl, ap, List, [], ◌∷◌, Option, none, get_last?, Text}
use pglockr.Prelude.Time.{Time}
use pglockr.Graph.{Snapshot}
use pglockr.Store.{new}
use pglockr.Store.Ring.Refine.{put_all}
use pglockr.Store.Ring.Queries.{latest-put_all}
use pglockr.Api.{reply, no_body, handle_snapshot, found_or}

-- Without a time, the snapshot that the API serves is the last one put into the store, and the
-- answer is 503 as long as there is none; a time that does not parse is answered 400.
pub handle_snapshot_lem :
    (parse_time : Text → Option Time) (n : ℕ) (xs : List Snapshot)
    → (handle_snapshot parse_time [] (put_all xs (new n)) ≡ found_or 503 (get_last? xs))
      × ((c : ℕ) (when : Text)
          → parse_time (c ∷ when) ≡ none
          → handle_snapshot parse_time (c ∷ when) (put_all xs (new n)) ≡ reply 400 no_body)
unfolding handle_snapshot
handle_snapshot_lem parse_time n xs =
    (ap (found_or 503) (latest-put_all n xs), λ c when h. rw h refl)
