-- ===== src/Store/Ring/Refine.antt =====
-- `Put` is what a bounded list does: append, and drop from the front what is too much.
use pglockr.Prelude.{
  ℕ, suc, ◌+◌, ◌-◌, ◌%◌, ◌≤◌, ◌<◌, ◌≡◌, refl, sym, ◌∙◌, ap, ap₂, inl, inr, List, [], ◌∷◌, ◌++◌,
  arith, get_or, set, get_or-set_self, length, drop, take_last, take_last-append, append-nil,
  append_assoc, length-append, ltb, Bool-cases, ltb→lt, ltb→le, lt→ltb, le→ltb, if◌then◌else◌,
  drop-append_of_le,
}
use native.Mathlib.Nat.{mod-eq_of_lt}
use pglockr.Graph.{Snapshot}
use pglockr.Store.{Store, empty_snapshot, new, put}
use pglockr.Store.Ring.{IsValid, contents, new-IsValid, put-IsValid}
use pglockr.Store.Ring.Window.{
  window, window_turn, window-concat, window-set_ne, drop-one-window, length-window, mod_cases,
  mod-add_self,
}

pub length-contents : (s : Store) → length (contents s) ≡ s.size
length-contents s = length-window s.buf s.cap (s.head + s.cap - s.size) s.size

-- The run of cells that ends at the write, once it is made.
window-written :
    (buf : List Snapshot) (cap head h n : ℕ) (x : Snapshot)
    → length buf ≡ cap
    → head < cap
    → n < cap
    → h + n ≡ head + cap
    → window (set buf head x) cap h (suc n) ≡ window buf cap h n ++ x ∷ []
window-written buf cap head h n x a b c e =
    window-concat (set buf head x) cap h n
    ∙ ap₂ (λ xs y. xs ++ y ∷ []) (window-set_ne buf cap head h n x b (omega arith) (omega arith))
        (ap (λ k. get_or (set buf head x) k empty_snapshot) last
          ∙ get_or-set_self buf head x empty_snapshot (omega arith))
  where
    last : (h + n) % cap ≡ head
    last = ap (λ k. k % cap) e ∙ mod-add_self head cap ∙ mod-eq_of_lt b

-- The index at which the retained snapshots start may be written without the turn of `head`.
module _ (x : Snapshot) {s : Store} (v : IsValid s) where
  open s use {buf, cap, head, size}

  start_turn :
      (n : ℕ)
      → n ≤ cap
      → window (set buf head x) cap ((head + 1) % cap + cap - n) n
        ≡ window (set buf head x) cap (head + 1 + cap - n) n
  start_turn n l = elim (mod_cases (head + 1) cap (omega arith)) [
    | inl (_, e) ↦ ap (λ k. window (set buf head x) cap (k + cap - n) n) e
    | inr (p, e) ↦
        ap (λ k. window (set buf head x) cap (k + cap - n) n) e
        ∙ sym (window_turn (set buf head x) cap (head + 1 - cap + cap - n) n)
        ∙ ap (λ k. window (set buf head x) cap k n) (omega arith)
  ]

  put_growing : size < cap → contents (put x s) ≡ contents s ++ x ∷ []
  unfolding put
  put_growing l =
      let from : head + 1 + cap - (size + 1) ≡ head + cap - size = omega arith in
      let count : size + 1 ≡ suc size = omega arith in
      rw (lt→ltb size cap l) (
        start_turn (size + 1) (omega arith)
        ∙ ap₂ (window (set buf head x) cap) from count
        ∙ window-written buf cap head (head + cap - size) size x v.storage v.head_in l
            (omega arith))

  put_full : size ≡ cap → contents (put x s) ≡ drop 1 (contents s) ++ x ∷ []
  unfolding put
  put_full l =
      let count : size ≡ suc (size - 1) = omega arith in
      let from : head + 1 + cap - size ≡ head + cap - size + 1 = omega arith in
      rw (le→ltb size cap (omega arith)) (
        start_turn size (omega arith)
        ∙ ap (window (set buf head x) cap (head + 1 + cap - size)) count
        ∙ window-written buf cap head (head + 1 + cap - size) (size - 1) x v.storage v.head_in
            (omega arith) (omega arith)
        ∙ ap (λ xs. xs ++ x ∷ [])
            (ap (λ k. window buf cap k (size - 1)) from
              ∙ sym (drop-one-window buf cap (head + cap - size) size)))

  -- On a valid store, `Put` appends the snapshot, and drops the oldest ones beyond the capacity.
  pub contents-put : contents (put x s) ≡ take_last cap (contents s ++ x ∷ [])
  contents-put = elim (Bool-cases (ltb size cap)) [
    | inl e ↦
        let none_dropped : 0 ≡ length (contents s ++ x ∷ []) - cap =
          omega (arith, ltb→lt size cap e, total) in
        put_growing (ltb→lt _ _ e) ∙ ap (λ n. drop n (contents s ++ x ∷ [])) none_dropped
    | inr e ↦
        let one_dropped : 1 ≡ length (contents s ++ x ∷ []) - cap =
          omega (arith, ltb→le size cap e, total) in
        put_full (omega (arith, ltb→le size cap e))
        ∙ sym (
            drop-append_of_le 1 (contents s) (x ∷ [])
              (omega (arith, length-contents s, ltb→le size cap e)))
        ∙ ap (λ n. drop n (contents s ++ x ∷ [])) one_dropped
  ]
    where
      total : length (contents s ++ x ∷ []) ≡ size + 1
      total = length-append (contents s) (x ∷ []) ∙ omega (arith, length-contents s)

-- The puts of a list of snapshots, in order.
abbrev pub put_all : List Snapshot → Store → Store
put_all [] s = s
put_all (x ∷ xs) s = put_all xs (put x s)

pub put_all-IsValid : (xs : List Snapshot) {s : Store} → IsValid s → IsValid (put_all xs s)
put_all-IsValid [] v = v
put_all-IsValid (x ∷ xs) v = put_all-IsValid xs (put-IsValid x v)

cap-put : (x : Snapshot) (s : Store) → (put x s).cap ≡ s.cap
unfolding put
cap-put x s = refl

contents-put_all_of :
    (xs : List Snapshot) {s : Store}
    → IsValid s
    → contents (put_all xs s) ≡ take_last s.cap (contents s ++ xs)
contents-put_all_of [] {s} v =
    let none_dropped : 0 ≡ length (contents s ++ []) - s.cap =
      omega (arith, length-append (contents s) [], length-contents s, v.size_in) in
    sym (append-nil (contents s)) ∙ ap (λ n. drop n (contents s ++ [])) none_dropped
contents-put_all_of (x ∷ xs) {s} v =
    contents-put_all_of xs (put-IsValid x v)
    ∙ ap₂ (λ n ys. take_last n (ys ++ xs)) (cap-put x s) (contents-put x v)
    ∙ take_last-append s.cap (contents s ++ x ∷ []) xs
    ∙ ap (take_last s.cap) (append_assoc (contents s) (x ∷ []) xs)

-- The capacity of a new store.
abbrev pub capacity : ℕ → ℕ
capacity n = if ltb n 1 then 1 else n

-- A new store that is given snapshots retains the last of them, as many as its capacity.
pub contents-put_all :
    (n : ℕ) (xs : List Snapshot) → contents (put_all xs (new n)) ≡ take_last (capacity n) xs
unfolding new
contents-put_all n xs = contents-put_all_of xs (new-IsValid n)
