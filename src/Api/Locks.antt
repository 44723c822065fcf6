-- ===== src/Api/Locks.antt =====
-- What the lock inspector's routes answer.
use pglockr.Prelude.{
  ◌≡◌, refl, sym, ◌∙◌, ap, List, [], ◌∷◌, ◌++◌, map, append_assoc, append-nil, Option, none, some,
  Answer, ok, err, Text,
}
use pglockr.Pg.Inspect.{LockRow, scan_rows, locks}
use pglockr.Api.{reply, no_body, lock_rows, handle_locks}

scan_rows-ok :
    {A : Type 0} (xs out : List A) (failure : Option Text)
    → scan_rows (map ok xs) out failure ≡ scan_rows [] (out ++ xs) failure
unfolding scan_rows
scan_rows-ok [] out failure = ap (λ ys. scan_rows [] ys failure) (sym (append-nil out))
scan_rows-ok (x ∷ xs) out failure =
    scan_rows-ok xs (out ++ x ∷ []) failure
    ∙ ap (λ ys. scan_rows [] ys failure) (append_assoc out (x ∷ []) xs)

scan_rows-err :
    {A : Type 0} (xs : List A) (e : Text) (rest : List (Answer A)) (out : List A)
    (failure : Option Text)
    → scan_rows (map ok xs ++ err e ∷ rest) out failure ≡ err e
unfolding scan_rows
scan_rows-err [] e rest out failure = refl
scan_rows-err (x ∷ xs) e rest out failure = scan_rows-err xs e rest (out ++ x ∷ []) failure

-- `GET /api/locks` answers 200 with every row of the query, in its order, when each is scanned and
-- the query ends well; it answers 502 when the query is refused, when a row does not scan,
-- whatever comes after it, and when the query fails at its end.
pub handle_locks_lem :
    (xs : List LockRow) (e : Text) (rest : List (Answer LockRow)) (failure : Option Text)
    → (handle_locks (locks (ok (record { scans = map ok xs; failure = none })))
        ≡ reply 200 (lock_rows xs))
      × (handle_locks (locks (err e)) ≡ reply 502 no_body)
      × (handle_locks (locks (ok (record { scans = map ok xs ++ err e ∷ rest; failure = failure })))
          ≡ reply 502 no_body)
      × (handle_locks (locks (ok (record { scans = map ok xs; failure = some e })))
          ≡ reply 502 no_body)
unfolding handle_locks locks scan_rows
handle_locks_lem xs e rest failure = (
  ap handle_locks (scan_rows-ok xs [] none),
  refl,
  ap handle_locks (scan_rows-err xs e rest [] failure),
  ap handle_locks (scan_rows-ok xs [] (some e)),
)
