-- ===== src/Command/Redacted.antt =====
-- With redaction on, no query text of the cluster reaches the store or the audit trail unmasked.
use pglockr.Prelude.{
  ℕ, ◌-◌, ◌≡◌, refl, sym, ◌∙◌, ap, subst, Bool, true, List, [], ◌∷◌, ◌++◌, Option, none, some, ok,
  err, ok-inj, arith, All, All-append, All-drop, Distinct, lookup, nat_eq, Text, length, get_last?,
}
use mathlib.Core.Option
use pglockr.Prelude.Int.{ℤ, pos, negsuc}
use pglockr.Graph.{Session, Sessions, Snapshot, keys}
use pglockr.Graph.Builder.{Labels, build}
use pglockr.Graph.Builder.Collect.{blocks}
use pglockr.Graph.Builder.Roots.{IsWalk, mark, lookup-sessions-build}
use pglockr.Pg
use pglockr.Pg.{Client}
use pglockr.Pg.Rows.{snapshot-eq-ok}
use pglockr.Redact.{mask}
use pglockr.Redact.Source.{Polled, mask_query, snapshot, snapshot_lem}
use pglockr.Store.{Store, new, put, latest}
use pglockr.Store.Ring.{IsValid, contents, new-IsValid, put-IsValid}
use pglockr.Store.Ring.Refine.{contents-put, contents-put_all, capacity}
use pglockr.Store.Ring.Queries.{latest-contents}
use pglockr.Poller.{Round, start, run}
use pglockr.Poller.Stores.{Keeps, store-run}
use pglockr.Command.{victim_lookup, choose_source, query_of, query_in}

-- A text that `Mask` returns.
abbrev pub IsMasked : Text → Type 0
IsMasked q = (raw : Text) × (q ≡ mask raw)

-- Every session of the map has a masked query.
abbrev pub HasMasked : Sessions → Type 0
HasMasked ss = (p : ℕ) (s : Session) → lookup p ss ≡ some s → IsMasked s.query

-- A round that polls a client of the cluster with redaction on, at whatever state the cluster is
-- in.
abbrev pub IsRedacted : Round → Type 0
IsRedacted r = IsWalk r.walk × ((c : Client) × (r.polled ≡ choose_source true (Pg.snapshot c)))

map-some :
    (f : Session → Session) (o : Option Session) (s : Session)
    → Option.map f o ≡ some s
    → (t : Session) × (o ≡ some t) × (f t ≡ s)
map-some f none s e = absurd (ground (arith, e))
map-some f (some t) s e = (t, refl, ground (arith, e))

mark-query : (b : Bool) (s : Session) → (mark b s).query ≡ s.query
mark-query b s = ground arith

-- The sessions of a poll with redaction on.
redacted-HasMasked :
    (raw : Polled) (ss : Sessions) (labels : Labels)
    → snapshot raw ≡ ok (ss, labels)
    → ((ss : Sessions) (labels : Labels) → raw ≡ ok (ss, labels) → Distinct (keys ss))
    → HasMasked ss
unfolding keys
redacted-HasMasked (err e) ss labels h d p s l =
    absurd (ground (arith, sym ((snapshot_lem [] [] e tt).1) ∙ h))
redacted-HasMasked (ok (rs, ls)) ss labels h d p s l =
    let (out, e, f) = (snapshot_lem rs ls [] (d rs ls refl)).0 in
    let same : out ≡ ss = ap (λ q. q.0) (ok-inj (sym e ∙ h)) in
    let (t, k, m) = map-some mask_query (lookup p rs) s (sym (f p) ∙ ap (lookup p) same ∙ l) in
    (t.query, ap (λ u. u.query) (sym m))

build-HasMasked :
    (walk : List ℕ → List ℕ) (w : IsWalk walk) (cluster : Text) (at : ℕ) (ss : Sessions)
    (labels : Labels)
    → HasMasked ss
    → HasMasked (build walk cluster at ss labels).sessions
build-HasMasked walk w cluster at ss labels h p s l =
    let (t, e, f) =
      map-some (mark (blocks ss p)) (lookup p ss) s
        (sym (lookup-sessions-build walk w cluster at ss labels p) ∙ l) in
    let (raw, q) = h p t e in (raw, ap (λ u. u.query) (sym f) ∙ mark-query (blocks ss p) t ∙ q)

-- What the store keeps to.
abbrev IsClean : Store → Type 0
IsClean s = IsValid s × All (λ x. HasMasked x.sessions) (contents s)

put-IsClean : (x : Snapshot) (s : Store) → HasMasked x.sessions → IsClean s → IsClean (put x s)
put-IsClean x s h (v, a) = (
  put-IsValid x v,
  subst (All (λ y. HasMasked y.sessions)) (sym (contents-put x v)) (
      All-drop (λ y. HasMasked y.sessions) (length (contents s ++ x ∷ []) - s.cap)
        (contents s ++ x ∷ [])
        (All-append (λ y. HasMasked y.sessions) (contents s) (x ∷ []) a (h, tt))),
)

Keeps-IsClean :
    (cluster : Text) (rs : List Round) → All IsRedacted rs → All (Keeps IsClean cluster) rs
Keeps-IsClean cluster [] a = tt
Keeps-IsClean cluster (r ∷ rs) ((w, (c, e)), a) = (
  λ ss labels k s h.
      put-IsClean (build r.walk cluster r.built_at ss labels) s
        (build-HasMasked r.walk w cluster r.built_at ss labels (
          redacted-HasMasked (Pg.snapshot c) ss labels (sym e ∙ k)
            (λ rs ls q. (snapshot-eq-ok c q).0)))
        h,
  Keeps-IsClean cluster rs a,
)

new-IsClean : (n : ℕ) → IsClean (new n)
new-IsClean n = (
  new-IsValid n,
  subst (All (λ x. HasMasked x.sessions)) (sym (contents-put_all n []))
      (All-drop (λ x. HasMasked x.sessions) (0 - capacity n) [] tt),
)

-- A text that is masked, if there is one.
abbrev pub MaskedIfAny : Option Text → Type 0
MaskedIfAny none = Unit
MaskedIfAny (some q) = IsMasked q

last-All :
    (P : Snapshot → Type 0) (xs : List Snapshot) (x : Snapshot)
    → All P xs
    → get_last? xs ≡ some x
    → P x
last-All P [] x a e = absurd (ground (arith, e))
last-All P (y ∷ []) x (h, a) e = subst P (some_same e) h
  where
    some_same : some y ≡ some x → y ≡ x
    some_same k = ground (arith, k)
last-All P (y ∷ z ∷ zs) x (h, a) e = last-All P (z ∷ zs) x a e

query_of-masked : (ss : Sessions) (p : ℕ) → HasMasked ss → MaskedIfAny (query_of (lookup p ss))
query_of-masked ss p h = by_found (lookup p ss) refl
  where
    by_found : (o : Option Session) → lookup p ss ≡ o → MaskedIfAny (query_of o)
    by_found none e = tt
    by_found (some s) e = h p s e

victim-masked :
    (s : Store) (pid : ℤ)
    → IsValid s
    → All (λ x. HasMasked x.sessions) (contents s)
    → MaskedIfAny (victim_lookup s pid)
unfolding victim_lookup
victim-masked s (negsuc n) v m = tt
victim-masked s (pos p) v m = by_latest (latest s) refl
  where
    by_latest : (o : Option Snapshot) → latest s ≡ o → MaskedIfAny (query_in p o)
    by_latest none e = tt
    by_latest (some x) e =
        query_of-masked x.sessions p
          (last-All (λ y. HasMasked y.sessions) (contents s) x m (sym (latest-contents v) ∙ e))

-- With redaction on, whatever the cluster returns and however long the loop runs, every query text
-- in the snapshots that the store retains, and every text that the lookup of a victim's query
-- gives to the audit trail, is one that `Mask` returns.
pub redaction_lem :
    (cluster : Text) (n interval : ℕ) (rs : List Round)
    → All IsRedacted rs
    → All (λ x. HasMasked x.sessions) (contents (run rs (start cluster (new n) interval)).store)
      × ((pid : ℤ)
          → MaskedIfAny (victim_lookup (run rs (start cluster (new n) interval)).store pid))
redaction_lem cluster n interval rs a =
    let (v, m) =
      store-run IsClean cluster (new n) interval rs (Keeps-IsClean cluster rs a) (new-IsClean n) in
    (m, λ pid. victim-masked _ pid v m)
