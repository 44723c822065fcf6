-- ===== src/Store/Ring/Queries.antt =====
-- `Latest` and `History` read the retained snapshots.
use pglockr.Prelude.{
  ℕ, zero, suc, ◌+◌, ◌-◌, ◌*◌, ◌%◌, ◌≤◌, ◌≡◌, sym, ◌∙◌, ap, inl, inr, List, [], ◌∷◌, ◌++◌, map,
  append_assoc, append-nil, Option, some, refl, arith, get_or, nat_beq, nat_beq_iff, Bool-cases,
  get_last?, get_last?-concat, get_last?-take_last, filterb, take_last,
}
use pglockr.Prelude.Time.{Time}
use pglockr.Graph.{Snapshot}
use pglockr.Store.{
  Store, Meta, empty_snapshot, new, put, latest, history_loop, report, ring_history, in_window,
  meta_of,
}
use pglockr.Store.Ring.{IsValid, contents, new-IsValid, put-IsValid}
use pglockr.Store.Ring.Window.{window, window-concat, mod-add_self}
use pglockr.Store.Ring.Refine.{put_all, put_all-IsValid, contents-put, contents-put_all, capacity}

-- `Latest` is the newest retained snapshot, and there is none only if nothing is retained.
pub latest-contents : {s : Store} → IsValid s → latest s ≡ get_last? (contents s)
unfolding latest
latest-contents {s} v = elim (Bool-cases (nat_beq s.size 0)) [
  | inl e ↦
      let z : s.size ≡ 0 = (nat_beq_iff s.size 0).0 e in
      rw e (ap (λ n. get_last? (window s.buf s.cap (s.head + s.cap - s.size) n)) (sym z))
  | inr e ↦
      let count : s.size ≡ suc (s.size - 1) = ground arith in
      let index : (s.head + s.cap - s.size) + (s.size - 1) ≡ s.head + s.cap - 1 =
        omega (arith, v.size_in) in
      rw e (
        sym (
          ap (λ n. get_last? (window s.buf s.cap (s.head + s.cap - s.size) n)) count
          ∙ ap get_last? (window-concat s.buf s.cap (s.head + s.cap - s.size) (s.size - 1))
          ∙ get_last?-concat (window s.buf s.cap (s.head + s.cap - s.size) (s.size - 1)) _
          ∙ ap (λ k. some (get_or s.buf (k % s.cap) empty_snapshot)) index))
]

latest-put : (x : Snapshot) {s : Store} → IsValid s → latest (put x s) ≡ some x
latest-put x {s} v =
    latest-contents (put-IsValid x v)
    ∙ ap get_last? (contents-put x v)
    ∙ get_last?-take_last s.cap (contents s ++ x ∷ []) (omega (arith, v.head_in))
    ∙ get_last?-concat (contents s) x

-- The last of some snapshots; if there are none, what there was before.
abbrev pub newest : List Snapshot → Option Snapshot → Option Snapshot
newest [] before = before
newest (x ∷ xs) before = newest xs (some x)

-- `Latest` after puts is the last snapshot that was put.
pub latest-put_all_of :
    (xs : List Snapshot) {s : Store} → IsValid s → latest (put_all xs s) ≡ newest xs (latest s)
latest-put_all_of [] v = refl
latest-put_all_of (x ∷ xs) v =
    latest-put_all_of xs (put-IsValid x v) ∙ ap (newest xs) (latest-put x v)

-- What `History` reports of a list of snapshots.
abbrev pub timeline : Time → Time → List Snapshot → List Meta
timeline from to xs = map meta_of (filterb (in_window from to) xs)

report-timeline :
    (from to : Time) (snap : Snapshot) (out : List Meta) (xs : List Snapshot)
    → report from to snap out ++ timeline from to xs ≡ out ++ timeline from to (snap ∷ xs)
unfolding report
report-timeline from to snap out xs = elim (Bool-cases (in_window from to snap)) [
  | inl e ↦ rw e (append_assoc out (meta_of snap ∷ []) (timeline from to xs))
  | inr e ↦ rw e
]

history_loop-window :
    (s : Store) (from to : Time) (n i : ℕ) (out : List Meta)
    → s.size ≤ s.cap
    → history_loop s from to n i out
      ≡ out ++ timeline from to (window s.buf s.cap (s.head + s.cap - s.size + i) n)
unfolding history_loop
history_loop-window s from to zero i out l = sym (append-nil out)
history_loop-window s from to (suc n) i out l =
    let index : s.head + s.cap * 2 - s.size + i ≡ s.head + s.cap - s.size + i + s.cap =
      omega arith in
    let cell : (s.head + s.cap * 2 - s.size + i) % s.cap ≡ (s.head + s.cap - s.size + i) % s.cap =
      ap (λ k. k % s.cap) index ∙ mod-add_self (s.head + s.cap - s.size + i) s.cap in
    let next : s.head + s.cap - s.size + (i + 1) ≡ s.head + s.cap - s.size + i + 1 = omega arith in
    let snap : Snapshot = get_or s.buf ((s.head + s.cap - s.size + i) % s.cap) empty_snapshot in
    let rest : List Snapshot = window s.buf s.cap (s.head + s.cap - s.size + i + 1) n in
    ap (λ k. history_loop s from to n (i + 1) (report from to (get_or s.buf k empty_snapshot) out))
      cell
    ∙ history_loop-window s from to n (i + 1) (report from to snap out) l
    ∙ ap (λ k. report from to snap out ++ timeline from to (window s.buf s.cap k n)) next
    ∙ report-timeline from to snap out rest

pub ring_history-contents :
    {s : Store} (from to : Time)
    → IsValid s
    → ring_history s from to ≡ timeline from to (contents s)
unfolding ring_history
ring_history-contents {s} from to v =
    history_loop-window s from to s.size 0 [] v.size_in
    ∙ ap (λ k. timeline from to (window s.buf s.cap k s.size)) (omega arith)

-- After any puts on a new store, `Latest` is the last snapshot that was put.
pub latest-put_all : (n : ℕ) (xs : List Snapshot) → latest (put_all xs (new n)) ≡ get_last? xs
latest-put_all n xs =
    latest-contents (put_all-IsValid xs (new-IsValid n))
    ∙ ap get_last? (contents-put_all n xs)
    ∙ get_last?-take_last (capacity n) xs (ground arith)

-- After any puts on a new store, its timeline is that of the last snapshots, as many as the
-- capacity.
pub ring_history-put_all :
    (n : ℕ) (xs : List Snapshot) (from to : Time)
    → ring_history (put_all xs (new n)) from to ≡ timeline from to (take_last (capacity n) xs)
ring_history-put_all n xs from to =
    ring_history-contents from to (put_all-IsValid xs (new-IsValid n))
    ∙ ap (timeline from to) (contents-put_all n xs)
