-- ===== src/Redact/Source.antt =====
-- internal/redact/source.go: the source that masks every query text of what another source polls.
use pglockr.Prelude.{
  ℕ, ◌≡◌, refl, ◌∙◌, false, List, [], ◌∷◌, Option, none, some, arith, nat_beq_iff, lookup, insert,
  lookup-insert, nat_eq, elem, Distinct, Answer, ok, err, ◌>>=◌,
}
use mathlib.Core.Option
use pglockr.Graph.{Session, Sessions, keys}
use pglockr.Graph.Builder.{Labels}
use pglockr.Redact.{mask}

-- What a `poller.Source` returns.
abbrev pub Polled : Type 0
Polled = Answer (Sessions × Labels)

abbrev pub mask_query : Session → Session
mask_query s = record s { query = mask s.query }

-- `for pid, sess := range sessions`
pub mask_sessions : Sessions → Sessions → Sessions
mask_sessions [] ss = ss
mask_sessions ((pid, s) ∷ it) ss = mask_sessions it (insert pid (mask_query s) ss)

-- `Snapshot` of the wrapping source, on what the inner one returns.
pub snapshot : Polled → Polled
snapshot inner = do polled ← inner; ok (mask_sessions polled.0 polled.0, polled.1)

abbrev or_masked : Option Session → Option Session → Option Session
or_masked none old = old
or_masked (some s) old = some (mask_query s)

lookup_of_new : (p : ℕ) (ss : Sessions) → elem p (keys ss) ≡ false → lookup p ss ≡ none
unfolding lookup keys
lookup_of_new p [] e = refl
lookup_of_new p ((q, s) ∷ ss) e = ground (arith, nat_beq_iff p q, lookup_of_new p ss)

lookup-mask_sessions :
    (p : ℕ) (it ss : Sessions)
    → Distinct (keys it)
    → lookup p (mask_sessions it ss) ≡ or_masked (lookup p it) (lookup p ss)
unfolding mask_sessions lookup keys
lookup-mask_sessions p [] ss d = refl
lookup-mask_sessions p ((q, s) ∷ it) ss (n, d) = ground (
  arith,
  nat_beq_iff p q,
  lookup_of_new q it n,
  lookup-insert q p (mask_query s) ss,
  lookup-mask_sessions p it (insert q (mask_query s) ss) d,
)

-- If the inner source returns no process id twice, every session that the wrapping source
-- returns is one of the inner source, with the query text masked and nothing else changed; no
-- session is lost, and the labels are those of the inner source. An error of the inner source is
-- passed on.
pub snapshot_lem :
    (ss : Sessions) (labels : Labels) (e : List ℕ)
    → Distinct (keys ss)
    → ((out : Sessions) × (snapshot (ok (ss, labels)) ≡ ok (out, labels))
        × ((p : ℕ)
            → lookup p out
              ≡ Option.map (λ (s : Session). record s { query = mask s.query }) (lookup p ss)))
      × (snapshot (err e) ≡ err e)
unfolding snapshot
snapshot_lem ss labels e d =
    ((mask_sessions ss ss, refl, λ p. lookup-mask_sessions p ss ss d ∙ same (lookup p ss)), refl)
  where
    same :
        (o : Option Session)
        → or_masked o o ≡ Option.map (λ (s : Session). record s { query = mask s.query }) o
    same none = refl
    same (some s) = refl
