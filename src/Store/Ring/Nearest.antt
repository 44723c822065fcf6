-- ===== src/Store/Ring/Nearest.antt =====
-- `At` on the ring: the retained snapshot closest in time, within the range of a duration.
use pglockr.Prelude.{
  ℕ, zero, suc, ◌+◌, ◌-◌, ◌*◌, ◌%◌, ◌^◌, ◌≤◌, ◌<◌, ◌≡◌, ◌≢◌, refl, sym, ◌∙◌, ap, inl, inr, List, [],
  ◌∷◌, reverse, Memᴰ, Option, none, some, arith, get_or, nat_beq, nat_beq_iff, Bool-cases, true,
  false, if◌then◌else◌, All, All-reverse, All-reverse', mem-reverse, head-reverse, get_last?, ltb,
  ltb→lt, ltb→le,
}
use mathlib.Core.List.{reverse-append, reverse-reverse, head?}
use pglockr.Prelude.Int.{pos, negsuc}
use pglockr.Prelude.Time.{Time, max_duration}
use pglockr.Graph.{Snapshot}
use pglockr.Store.{Store, Best, empty_snapshot, consider, nearest_loop, nearest, distance}
use pglockr.Store.Ring.{IsValid, contents}
use pglockr.Store.Ring.Window.{window, window-concat, mod-add_self}

-- The loop of `At` over a list of snapshots.
abbrev pub nearest_of : Time → List Snapshot → Best → Best
nearest_of t [] b = b
nearest_of t (x ∷ xs) b = nearest_of t xs (consider t x b)

nearest_loop-window :
    (s : Store) (t : Time) (n i : ℕ) (b : Best)
    → s.size ≤ s.cap
    → i + n ≡ s.size
    → nearest_loop s t n i b
      ≡ nearest_of t (reverse (window s.buf s.cap (s.head + s.cap - s.size) n)) b
unfolding nearest_loop
nearest_loop-window s t zero i b l e = refl
nearest_loop-window s t (suc n) i b l e =
    let index : s.head + s.cap * 2 - 1 - i ≡ s.head + s.cap - s.size + n + s.cap = omega arith in
    let cell : (s.head + s.cap * 2 - 1 - i) % s.cap ≡ (s.head + s.cap - s.size + n) % s.cap =
      ap (λ k. k % s.cap) index ∙ mod-add_self (s.head + s.cap - s.size + n) s.cap in
    let snap : Snapshot = get_or s.buf ((s.head + s.cap - s.size + n) % s.cap) empty_snapshot in
    let rest : List Snapshot = window s.buf s.cap (s.head + s.cap - s.size) n in
    ap (λ k. nearest_loop s t n (i + 1) (consider t (get_or s.buf k empty_snapshot) b)) cell
    ∙ nearest_loop-window s t n (i + 1) (consider t snap b) l (omega arith)
    ∙ ap (λ xs. nearest_of t xs b)
        (sym (
          ap reverse (window-concat s.buf s.cap (s.head + s.cap - s.size) n)
          ∙ reverse-append rest (snap ∷ [])))

abbrev start : Best
start = record { best = none; best_diff = pos max_duration }

-- The retained snapshots from the newest to the oldest.
abbrev pub newest_first : Store → List Snapshot
newest_first s = reverse (contents s)

pub nearest-newest_first :
    {s : Store} (t : Time) → IsValid s → nearest s t ≡ (nearest_of t (newest_first s) start).best
unfolding nearest
nearest-newest_first {s} t v = elim (Bool-cases (nat_beq s.size 0)) [
  | inl e ↦
      let z : s.size ≡ 0 = (nat_beq_iff s.size 0).0 e in
      rw e (
        ap
          (λ n.
            (nearest_of t (reverse (window s.buf s.cap (s.head + s.cap - s.size) n)) start).best)
          (sym z))
  | inr e ↦
      rw e
        (ap (λ (b : Best). b.best) (nearest_loop-window s t s.size 0 start v.size_in (omega arith)))
]

-- The time between two instants, whichever is first.
abbrev pub gap : Time → Time → ℕ
gap t u = (t - u) + (u - t)

-- A gap that a duration can hold and that is not the greatest one.
abbrev pub InRange : Time → Snapshot → Type 0
InRange t x = gap t x.taken_at < max_duration

distance_in_range : (t u : Time) → gap t u < max_duration → distance t u ≡ pos (gap t u)
distance_in_range t u h = ground arith

-- A candidate and its distance.
abbrev held : Time → Snapshot → Best
held t x = record { best = some x; best_diff = pos (gap t x.taken_at) }

consider-held :
    (t : Time) (x z : Snapshot)
    → InRange t z
    → consider t z (held t x)
      ≡ (if ltb (gap t z.taken_at) (gap t x.taken_at) then held t z else held t x)
unfolding consider
consider-held t x z h = rw (distance_in_range t z.taken_at h) (ground arith)

consider_nearer :
    (t : Time) (x z : Snapshot)
    → InRange t z
    → ltb (gap t z.taken_at) (gap t x.taken_at) ≡ true
    → consider t z (held t x) ≡ held t z
consider_nearer t x z h e = consider-held t x z h ∙ ap (λ b. if b then held t z else held t x) e

consider_farther :
    (t : Time) (x z : Snapshot)
    → InRange t z
    → ltb (gap t z.taken_at) (gap t x.taken_at) ≡ false
    → consider t z (held t x) ≡ held t x
consider_farther t x z h e = consider-held t x z h ∙ ap (λ b. if b then held t z else held t x) e

consider-start : (t : Time) (z : Snapshot) → InRange t z → consider t z start ≡ held t z
unfolding consider
consider-start t z h = rw (distance_in_range t z.taken_at h) (ground arith)

abbrev Closest : Time → List Snapshot → Option Snapshot → Type 0
Closest t xs r =
    (y : Snapshot) × (r ≡ some y) × Memᴰ y xs × All (λ u. gap t y.taken_at ≤ gap t u.taken_at) xs

nearest_of-Closest :
    (t : Time) (x : Snapshot) (xs : List Snapshot)
    → All (InRange t) xs
    → Closest t (x ∷ xs) (nearest_of t xs (held t x)).best
nearest_of-Closest t x [] a = (x, refl, Memᴰ.head refl, (omega arith, tt))
nearest_of-Closest t x (z ∷ xs) (h, a) =
    elim (Bool-cases (ltb (gap t z.taken_at) (gap t x.taken_at))) [
      | inl e ↦
          let (y, r, m, (c, cs)) = nearest_of-Closest t z xs a in
          (
            y,
            ap (λ b. (nearest_of t xs b).best) (consider_nearer t x z h e) ∙ r,
            Memᴰ.tail m,
            (omega (arith, ltb→lt _ _ e), (c, cs)),
          )
      | inr e ↦
          let (y, r, m, (c, cs)) = nearest_of-Closest t x xs a in
          (
            y,
            ap (λ b. (nearest_of t xs b).best) (consider_farther t x z h e) ∙ r,
            past m,
            (c, (omega (arith, ltb→le _ _ e), cs)),
          )
    ]
  where
    past : {y : Snapshot} → Memᴰ y (x ∷ xs) → Memᴰ y (x ∷ z ∷ xs)
    past (Memᴰ.head e) = Memᴰ.head e
    past (Memᴰ.tail m) = Memᴰ.tail (Memᴰ.tail m)

Closest-All :
    (t : Time) (xs : List Snapshot)
    → xs ≢ []
    → All (InRange t) xs
    → Closest t xs (nearest_of t xs start).best
Closest-All t [] ne a = absurd (ne refl)
Closest-All t (x ∷ xs) ne (h, a) =
    let (y, r, m, c) = nearest_of-Closest t x xs a in
    (y, ap (λ b. (nearest_of t xs b).best) (consider-start t x h) ∙ r, m, c)

distance_future : (t u : Time) → u + max_duration ≤ t → distance t u ≡ pos max_duration
distance_future t u h = ground arith

consider_future :
    (t : Time) (x : Snapshot) → x.taken_at + max_duration ≤ t → consider t x start ≡ start
unfolding consider
consider_future t x h = rw (distance_future t x.taken_at h)

-- The snapshots that are at least the greatest duration before `t` are never taken.
nearest_of_future :
    (t : Time) (xs : List Snapshot)
    → All (λ x. x.taken_at + max_duration ≤ t) xs
    → nearest_of t xs start ≡ start
nearest_of_future t [] a = refl
nearest_of_future t (x ∷ xs) (h, a) =
    ap (nearest_of t xs) (consider_future t x h) ∙ nearest_of_future t xs a

-- What lies further ahead than any duration: the first snapshot looked at stays.
abbrev behind : Snapshot → Best
behind x = record { best = some x; best_diff = negsuc max_duration }

distance_past : (t u : Time) → t + 2 ^ 63 ≤ u → distance t u ≡ negsuc max_duration
distance_past t u h = ground arith

consider_past : (t : Time) (x : Snapshot) → t + 2 ^ 63 ≤ x.taken_at → consider t x start ≡ behind x
unfolding consider
consider_past t x h = rw (distance_past t x.taken_at h)

consider_past_again :
    (t : Time) (x z : Snapshot) → t + 2 ^ 63 ≤ z.taken_at → consider t z (behind x) ≡ behind x
unfolding consider
consider_past_again t x z h = rw (distance_past t z.taken_at h)

nearest_of_past :
    (t : Time) (x : Snapshot) (xs : List Snapshot)
    → All (λ z. t + 2 ^ 63 ≤ z.taken_at) xs
    → nearest_of t xs (behind x) ≡ behind x
nearest_of_past t x [] a = refl
nearest_of_past t x (z ∷ xs) (h, a) =
    ap (nearest_of t xs) (consider_past_again t x z h) ∙ nearest_of_past t x xs a

-- In a valid store with something retained, and all of it less than 2^63 - 1 nanoseconds from
-- `t`, `At` on the ring finds a retained snapshot, and none of the retained ones is closer to
-- `t`.
pub nearest_closest :
    {s : Store} (t : Time)
    → IsValid s
    → contents s ≢ []
    → All (InRange t) (contents s)
    → (y : Snapshot) × (nearest s t ≡ some y)
      × Memᴰ y (contents s)
      × All (λ u. gap t y.taken_at ≤ gap t u.taken_at) (contents s)
nearest_closest {s} t v ne a =
    let (y, r, m, c) =
      Closest-All t (newest_first s) (λ e. ne (sym (reverse-reverse (contents s)) ∙ ap reverse e))
        (All-reverse (InRange t) (contents s) a) in
    (
      y,
      nearest-newest_first t v ∙ r,
      mem-reverse (contents s) m,
      All-reverse' (λ u. gap t y.taken_at ≤ gap t u.taken_at) (contents s) c,
    )

-- If every snapshot that a valid store retains is 2^63 - 1 nanoseconds (some 292 years) or more
-- before `t`, `At` on the ring finds none.
pub nearest_far_future :
    {s : Store} (t : Time)
    → IsValid s
    → All (λ x. x.taken_at + max_duration ≤ t) (contents s)
    → nearest s t ≡ none
nearest_far_future {s} t v a =
    nearest-newest_first t v
    ∙ ap (λ (b : Best). b.best)
        (nearest_of_future t (newest_first s)
          (All-reverse (λ x. x.taken_at + max_duration ≤ t) (contents s) a))

-- If every retained snapshot is 2^63 nanoseconds or more after `t`, `At` on the ring takes the
-- newest, which need not be the closest.
pub nearest_far_past :
    {s : Store} (t : Time)
    → IsValid s
    → All (λ x. t + 2 ^ 63 ≤ x.taken_at) (contents s)
    → nearest s t ≡ get_last? (contents s)
nearest_far_past {s} t v a =
    nearest-newest_first t v
    ∙ first (newest_first s) (All-reverse (λ x. t + 2 ^ 63 ≤ x.taken_at) (contents s) a)
    ∙ head-reverse (contents s)
  where
    first :
        (xs : List Snapshot)
        → All (λ x. t + 2 ^ 63 ≤ x.taken_at) xs
        → (nearest_of t xs start).best ≡ head? xs
    first [] b = refl
    first (x ∷ xs) (h, b) =
        ap (λ b. (nearest_of t xs b).best) (consider_past t x h)
        ∙ ap (λ (b : Best). b.best) (nearest_of_past t x xs b)
