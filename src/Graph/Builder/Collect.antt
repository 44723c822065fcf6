-- ===== src/Graph/Builder/Collect.antt =====
-- What the first loop of `Build` collects: an edge for each confirmed pair, and the blockers.
use pglockr.Prelude.{
  ℕ, ◌≡◌, ◌∙◌, sym, Bool, false, ◌||◌, List, [], ◌∷◌, ◌++◌, map, append_assoc, append-nil, arith,
  elem, elem-append, Distinct, Distinct-concat,
}
use pglockr.Graph.{Sessions, Edge, EdgeKey}
use pglockr.Graph.Builder.{Labels, Scan, label_edge, scan_blockers, scan_one, scan_sessions}
use mathlib.Core.List.{map-append}

-- The confirmed (waiter, blocker) pairs, in the order of the loops.
abbrev pub pairs_of : ℕ → List ℕ → List EdgeKey
pairs_of w [] = []
pairs_of w (b ∷ bs) = record { waiter_pid = w; blocker_pid = b } ∷ pairs_of w bs

abbrev pub pairs : Sessions → List EdgeKey
pairs [] = []
pairs ((w, s) ∷ ss) = pairs_of w s.blocked_by ++ pairs ss

abbrev pub key_edge : Labels → EdgeKey → Edge
key_edge labels k = label_edge labels k.waiter_pid k.blocker_pid

-- Some session waits for `p`.
abbrev pub blocks : Sessions → ℕ → Bool
blocks [] p = false
blocks ((w, s) ∷ ss) p = elem p s.blocked_by || blocks ss p

module _ (labels : Labels) where
  edges-scan_blockers :
      (w : ℕ) (bs : List ℕ) (acc : Scan)
      → (scan_blockers labels w bs acc).edges ≡ acc.edges ++ map (key_edge labels) (pairs_of w bs)
  unfolding scan_blockers
  edges-scan_blockers w [] acc = sym (append-nil acc.edges)
  edges-scan_blockers w (b ∷ bs) acc = edges-scan_blockers w bs _ ∙ append_assoc acc.edges _ _

  pub edges-scan_sessions :
      (ss : Sessions) (acc : Scan)
      → (scan_sessions labels ss acc).edges ≡ acc.edges ++ map (key_edge labels) (pairs ss)
  unfolding scan_sessions
  edges-scan_sessions [] acc = sym (append-nil acc.edges)
  edges-scan_sessions ((w, s) ∷ ss) acc =
      rw
        (
          edges-scan_sessions ss (scan_blockers labels w s.blocked_by acc),
          edges-scan_blockers w s.blocked_by acc,
          map-append,
        )
        (append_assoc acc.edges (map (key_edge labels) (pairs_of w s.blocked_by))
          (map (key_edge labels) (pairs ss)))

  elem-scan_blockers :
      (p w : ℕ) (bs : List ℕ) (acc : Scan)
      → elem p (scan_blockers labels w bs acc).is_blocker ≡ elem p acc.is_blocker || elem p bs
  unfolding scan_blockers
  elem-scan_blockers p w [] acc = ground arith
  elem-scan_blockers p w (b ∷ bs) acc = ground (
    arith,
    elem-scan_blockers p w bs (scan_one labels w b acc),
    elem-append p acc.is_blocker (b ∷ []),
  )

  pub elem-scan_sessions :
      (p : ℕ) (ss : Sessions) (acc : Scan)
      → elem p (scan_sessions labels ss acc).is_blocker ≡ elem p acc.is_blocker || blocks ss p
  unfolding scan_sessions
  elem-scan_sessions p [] acc = ground arith
  elem-scan_sessions p ((w, s) ∷ ss) acc = ground (
    arith,
    elem-scan_sessions p ss (scan_blockers labels w s.blocked_by acc),
    elem-scan_blockers p w s.blocked_by acc,
  )

  scan_blockers-Distinct :
      (w : ℕ) (bs : List ℕ) (acc : Scan)
      → Distinct acc.is_blocker
      → Distinct (scan_blockers labels w bs acc).is_blocker
  unfolding scan_blockers
  scan_blockers-Distinct w [] acc d = d
  scan_blockers-Distinct w (b ∷ bs) acc d =
      scan_blockers-Distinct w bs (scan_one labels w b acc)
        (ground (arith, Distinct-concat acc.is_blocker b d))

  pub scan_sessions-Distinct :
      (ss : Sessions) (acc : Scan)
      → Distinct acc.is_blocker
      → Distinct (scan_sessions labels ss acc).is_blocker
  unfolding scan_sessions
  scan_sessions-Distinct [] acc d = d
  scan_sessions-Distinct ((w, s) ∷ ss) acc d =
      scan_sessions-Distinct ss _ (scan_blockers-Distinct w s.blocked_by acc d)
