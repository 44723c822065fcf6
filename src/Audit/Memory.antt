-- ===== src/Audit/Memory.antt =====
-- The sink `Memory`: the last entries, as many as its capacity.
use pglockr.Prelude.{
  ℕ, zero, suc, ◌-◌, ◌≤◌, ◌≡◌, refl, sym, ◌∙◌, ap, ap₂, List, [], ◌∷◌, ◌++◌, reverse, Option, none,
  some, arith, if◌then◌else◌, ltb, ltb→le, Bool-cases, inl, inr, length-drop, length-reverse,
  take_whole, length, length-append, drop, take, take_last, take_last-append, append-nil,
  append_assoc, get_elem?, ok,
}
use mathlib.Core.List.{reverse-cons, reverse-reverse}
use pglockr.Prelude.Int.{ℤ, pos, negsuc}
use pglockr.Audit.{Entry, Sink}

pub record Memory : Type 0 where
  pub entries : List Entry
  pub cap : ℕ

-- `NewMemory`
pub new_memory : ℕ → Memory
new_memory capacity = record { entries = []; cap = if ltb capacity 1 then 1 else capacity }

-- `Record`
pub add : Entry → Memory → Memory
add e m =
    let grown = m.entries ++ e ∷ [] in
    record m {
      entries = if ltb m.cap (length grown) then drop (length grown - m.cap) grown else grown;
    }

-- `limit <= 0 || limit > n`
abbrev pub clamp_limit : ℤ → ℕ → ℕ
clamp_limit (pos zero) n = n
clamp_limit (pos (suc k)) n = if ltb n (suc k) then n else suc k
clamp_limit (negsuc k) n = n

abbrev add_found : Option Entry → List Entry → List Entry
add_found none out = out
add_found (some e) out = out ++ e ∷ []

-- `for i := n - 1; i >= n - limit; i--`, with `k` rounds left.
pub recent_loop : List Entry → ℕ → ℕ → List Entry → List Entry
recent_loop es zero i out = out
recent_loop es (suc k) i out = recent_loop es k (i - 1) (add_found (get_elem? es i) out)

-- `Recent`
pub recent : ℤ → Memory → List Entry
recent limit m = let n = length m.entries in recent_loop m.entries (clamp_limit limit n) (n - 1) []

-- `Memory` is a `Sink` that never fails.
instance abbrev pub memory_sink : Sink Memory
memory_sink = record { keep = λ e m. ok (add e m); list = λ limit m. ok (recent limit m) }

-- A run of `Record` calls.
abbrev pub add_all : List Entry → Memory → Memory
add_all [] m = m
add_all (e ∷ es) m = add_all es (add e m)

pub entries-add :
    (e : Entry) (m : Memory) → (add e m).entries ≡ take_last m.cap (m.entries ++ e ∷ [])
unfolding add
entries-add e m = elim (Bool-cases (ltb m.cap (length (m.entries ++ e ∷ [])))) [
  | inl h ↦ rw h
  | inr h ↦
      let whole : 0 ≡ length (m.entries ++ e ∷ []) - m.cap = omega (arith, ltb→le _ _ h) in
      rw h (ap (λ k. drop k (m.entries ++ e ∷ [])) whole)
]

cap-add : (e : Entry) (m : Memory) → (add e m).cap ≡ m.cap
unfolding add
cap-add e m = refl

entries-add_all :
    (es : List Entry) (m : Memory)
    → length m.entries ≤ m.cap
    → (add_all es m).entries ≡ take_last m.cap (m.entries ++ es)
entries-add_all [] m l =
    let whole : 0 ≡ length (m.entries ++ []) - m.cap = omega (arith, length-append m.entries []) in
    sym (append-nil m.entries) ∙ ap (λ k. drop k (m.entries ++ [])) whole
entries-add_all (e ∷ es) m l =
    entries-add_all es (add e m) (bounded (ap length (entries-add e m)))
    ∙ ap₂ (λ n xs. take_last n (xs ++ es)) (cap-add e m) (entries-add e m)
    ∙ take_last-append m.cap (m.entries ++ e ∷ []) es
    ∙ ap (take_last m.cap) (append_assoc m.entries (e ∷ []) es)
  where
    bounded :
        length (add e m).entries ≡ length (take_last m.cap (m.entries ++ e ∷ []))
        → length (add e m).entries ≤ (add e m).cap
    bounded h = omega (
      arith,
      h,
      cap-add e m,
      length-drop (length (m.entries ++ e ∷ []) - m.cap) (m.entries ++ e ∷ []),
    )

get_elem?-middle : (xs ys : List Entry) (e : Entry) → get_elem? (xs ++ e ∷ ys) (length xs) ≡ some e
get_elem?-middle [] ys e = refl
get_elem?-middle (x ∷ xs) ys e = get_elem?-middle xs ys e

-- The loop of `Recent`, on the entries from the newest to the oldest.
recent_loop_lem :
    (rs ys out : List Entry) (k : ℕ)
    → k ≤ length rs
    → recent_loop (reverse rs ++ ys) k (length rs - 1) out ≡ out ++ take k rs
unfolding recent_loop
recent_loop_lem rs ys out zero l = sym (append-nil out)
recent_loop_lem [] ys out (suc k) l = absurd (omega arith)
recent_loop_lem (r ∷ rs) ys out (suc k) l =
    let whole : reverse (r ∷ rs) ++ ys ≡ reverse rs ++ r ∷ ys =
      ap (λ xs. xs ++ ys) (reverse-cons r rs) ∙ append_assoc (reverse rs) (r ∷ []) ys in
    let index : suc (length rs) - 1 ≡ length (reverse rs) = omega (arith, length-reverse rs) in
    let next : length (reverse rs) - 1 ≡ length rs - 1 = omega (arith, length-reverse rs) in
    ap₂ (λ xs i. recent_loop xs (suc k) i out) whole index
    ∙ ap (λ o. recent_loop (reverse rs ++ r ∷ ys) k (length (reverse rs) - 1) (add_found o out))
        (get_elem?-middle (reverse rs) ys r)
    ∙ ap (λ i. recent_loop (reverse rs ++ r ∷ ys) k i (out ++ r ∷ [])) next
    ∙ recent_loop_lem rs (r ∷ ys) (out ++ r ∷ []) k (omega arith)
    ∙ append_assoc out (r ∷ []) (take k rs)

clamp_limit-le : (limit : ℤ) (n : ℕ) → clamp_limit limit n ≤ n
clamp_limit-le (pos zero) n = omega arith
clamp_limit-le (pos (suc k)) n = ground arith
clamp_limit-le (negsuc k) n = omega arith

-- `Recent` is the retained entries from the newest to the oldest, cut off at the limit if that is
-- positive.
pub recent_lem :
    (limit : ℤ) (m : Memory)
    → recent limit m ≡ take (clamp_limit limit (length m.entries)) (reverse m.entries)
unfolding recent
recent_lem limit m =
    let rs : List Entry = reverse m.entries in
    let k : ℕ = clamp_limit limit (length m.entries) in
    let whole : m.entries ≡ reverse rs ++ [] =
      sym (append-nil (reverse rs) ∙ reverse-reverse m.entries) in
    let index : length m.entries - 1 ≡ length rs - 1 = omega (arith, length-reverse m.entries) in
    ap₂ (λ xs i. recent_loop xs k i []) whole index
    ∙ recent_loop_lem rs [] [] k
        (omega (arith, clamp_limit-le limit (length m.entries), length-reverse m.entries))

-- The capacity of a new sink.
abbrev pub capacity : ℕ → ℕ
capacity n = if ltb n 1 then 1 else n

pub entries-new_memory :
    (n : ℕ) (es : List Entry) → (add_all es (new_memory n)).entries ≡ take_last (capacity n) es
unfolding new_memory
entries-new_memory n es = entries-add_all es (new_memory n) (omega arith)

-- After any records on a new sink, `Recent` with no limit gives the last entries recorded, as many
-- as the capacity, newest first.
pub recent-add_all :
    (n : ℕ) (es : List Entry)
    → recent (pos 0) (add_all es (new_memory n)) ≡ reverse (take_last (capacity n) es)
recent-add_all n es =
    recent_lem (pos 0) (add_all es (new_memory n))
    ∙ ap (λ xs. take (length xs) (reverse xs)) (entries-new_memory n es)
    ∙ take_whole (reverse (take_last (capacity n) es)) (length (take_last (capacity n) es))
        (omega (arith, length-reverse (take_last (capacity n) es)))
