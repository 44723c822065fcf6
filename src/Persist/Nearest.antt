-- ===== src/Persist/Nearest.antt =====
-- `At` of SQLite gives the snapshot of the row closest in time.
use native.Mathlib.Nat.{le_trans}
use pglockr.Prelude.{
  ℕ, ◌≤◌, ◌<◌, ◌≡◌, refl, ◌⊎◌, inl, inr, true, false, List, [], ◌∷◌, Memᴰ, Option, none, some, ok,
  if◌then◌else◌, All, All-mem, All-of_mem, sym, ap, subst, arith, Bool-cases,
}
use pglockr.Prelude.Int.{ℤ, pos, ltb_ℤ, sub64, dist}
use pglockr.Prelude.Time.{Time, max_duration, unix_nano}
use pglockr.Persist.{
  Bytes, Row, Database, Encoding, Sqlite, Closest, abs64, consider_row, nothing_found, as_found,
  answer, decode, at,
}

distance_lem : (a b : ℤ) → dist a b ≤ max_duration → abs64 (sub64 a b) ≡ pos (dist a b)
distance_lem a b h = ground (arith, h)

ltb_pos : (m n : ℕ) → m < n → ltb_ℤ (pos m) (pos n) ≡ true
ltb_pos m n h = ground (arith, h)

-- Of the integers on one side of the target, the one nearest to it.
under_dist :
    (t u r : ℤ)
    → ltb_ℤ t u ≡ false
    → ltb_ℤ t r ≡ false
    → ((ltb_ℤ t r ≡ false) → ltb_ℤ u r ≡ false)
    → dist u t ≤ dist r t
under_dist t u r hu hr h = ground (arith, hu, hr, h hr)

over_dist :
    (t o r : ℤ)
    → ltb_ℤ o t ≡ false
    → ltb_ℤ r t ≡ false
    → ((ltb_ℤ r t ≡ false) → ltb_ℤ r o ≡ false)
    → dist o t ≤ dist r t
over_dist t o r ho hr h = ground (arith, ho, hr, h hr)

consider_row-first :
    (t ts : ℤ) (blob : Bytes)
    → dist ts t < max_duration
    → consider_row t (some (blob, ts)) nothing_found
      ≡ record { best_diff = pos (dist ts t); best_data = blob; found = true }
unfolding consider_row nothing_found
consider_row-first t ts blob h =
    rw (distance_lem ts t (ground (arith, h)), ltb_pos (dist ts t) max_duration h) refl

le_of_beat : (m n : ℕ) → ltb_ℤ (pos m) (pos n) ≡ true → m ≤ n
le_of_beat m n h = ground (arith, h)

le_of_no_beat : (m n : ℕ) → ltb_ℤ (pos m) (pos n) ≡ false → n ≤ m
le_of_no_beat m n h = ground (arith, h)

-- No row is closer to the target than this one.
abbrev pub IsClosest : ℤ → List Row → Row → Type 0
IsClosest t rows r = All (λ q. dist r.taken_at t ≤ dist q.taken_at t) rows

abbrev pub InReach : ℤ → List Row → Type 0
InReach t rows = All (λ r. dist r.taken_at t < max_duration) rows

-- The closest row in the outcome of the two considerations.
abbrev Finds : Encoding → ℤ → List Row → Closest → Type 0
Finds c t rows b =
    ((rows ≡ []) × (answer c b ≡ ok none))
    ⊎ ((r : Row) × Memᴰ r rows × IsClosest t rows r × (answer c b ≡ as_found (decode c r.blob)))

sides_apart :
    (t : ℤ) (rows : List Row)
    → All (λ r. ltb_ℤ t r.taken_at ≡ true) rows
    → All (λ r. ltb_ℤ r.taken_at t ≡ true) rows
    → rows ≡ []
sides_apart t [] a b = refl
sides_apart t (r ∷ rows) (a, _) (b, _) = absurd (ground (arith, a, b))

first_side :
    (t u r : ℤ)
    → ltb_ℤ t u ≡ false
    → ltb_ℤ r t ≡ true
    → ((ltb_ℤ t r ≡ false) → ltb_ℤ u r ≡ false)
    → dist u t ≤ dist r t
first_side t u r hu hr h = under_dist t u r hu (ground (arith, hr)) h

second_side :
    (t o r : ℤ)
    → ltb_ℤ o t ≡ false
    → ltb_ℤ t r ≡ true
    → ((ltb_ℤ r t ≡ false) → ltb_ℤ r o ≡ false)
    → dist o t ≤ dist r t
second_side t o r ho hr h = over_dist t o r ho (ground (arith, hr)) h

-- Between the nearest of the two sides, the nearer one.
both_sides :
    (t u o r : ℤ)
    → ltb_ℤ t u ≡ false
    → ltb_ℤ o t ≡ false
    → ((ltb_ℤ t r ≡ false) → ltb_ℤ u r ≡ false)
    → ((ltb_ℤ r t ≡ false) → ltb_ℤ r o ≡ false)
    → (dist u t ≤ dist r t) ⊎ (dist o t ≤ dist r t)
both_sides t u o r hu ho f g = elim (Bool-cases (ltb_ℤ t r)) [
  | inl e ↦ inr (second_side t o r ho e g)
  | inr e ↦ inl (under_dist t u r hu e f)
]

consider_row-second :
    (t ts u : ℤ) (blob first : Bytes)
    → dist ts t < max_duration
    → consider_row t
        (some (blob, ts))
        (record { best_diff = pos (dist u t); best_data = first; found = true })
      ≡ (if ltb_ℤ (pos (dist ts t)) (pos (dist u t))
          then record { best_diff = pos (dist ts t); best_data = blob; found = true }
          else record { best_diff = pos (dist u t); best_data = first; found = true })
unfolding consider_row
consider_row-second t ts u blob first h = rw (distance_lem ts t (ground (arith, h))) refl

module _ (c : Encoding) (d : Database) (db : d.State) (t : ℤ)
    (reach : InReach t (d.snapshots db)) where
  -- A row that a query gave, with its place among the rows.
  abbrev Wins : Bytes → ℤ → Type 0
  Wins blob ts =
      (r : Row) × Memᴰ r (d.snapshots db)
      × (r.blob ≡ blob)
      × (r.taken_at ≡ ts)
      × All (λ q. dist ts t ≤ dist q.taken_at t) (d.snapshots db)

  abbrev found_with : Bytes → ℤ → Closest
  found_with blob ts = record { best_diff = pos (dist ts t); best_data = blob; found = true }

  winner : (blob : Bytes) (ts : ℤ) → Wins blob ts → Finds c t (d.snapshots db) (found_with blob ts)
  winner blob ts (r, m, e, f, a) = inr (
    r,
    m,
    subst (λ ts. All (λ q. dist ts t ≤ dist q.taken_at t) (d.snapshots db)) (sym f) a,
    ap (λ b. as_found (decode c b)) (sym e),
  )

  reach_of :
      (r : Row) {ts : ℤ} → Memᴰ r (d.snapshots db) → r.taken_at ≡ ts → dist ts t < max_duration
  reach_of r m f = subst (λ ts. dist ts t < max_duration) f (All-mem _ (d.snapshots db) reach m)

  -- Of the nearest of the two sides, the nearer one wins.
  nearer :
      (w v : ℤ)
      → ((q : Row)
          → Memᴰ q (d.snapshots db)
          → (dist w t ≤ dist q.taken_at t) ⊎ (dist v t ≤ dist q.taken_at t))
      → dist w t ≤ dist v t
      → All (λ q. dist w t ≤ dist q.taken_at t) (d.snapshots db)
  nearer w v h l =
      All-of_mem _ (d.snapshots db) (λ q k. elim (h q k) [ inl e ↦ e | inr e ↦ le_trans l e ])

  finds :
      (under over : Option (Bytes × ℤ))
      → d.below t db ≡ ok under
      → d.above t db ≡ ok over
      → Finds c t (d.snapshots db) (consider_row t over (consider_row t under nothing_found))
  unfolding consider_row nothing_found
  finds none none b a =
      inl (sides_apart t (d.snapshots db) (d.below-none t db b) (d.above-none t db a), refl)
  finds (some (blob, ts)) none b a =
      let (r, m, e, f, le, near) = d.below-some t db b in
      rw (consider_row-first t ts blob (reach_of r m f)) (
        winner blob ts (
          r,
          m,
          e,
          f,
          All-of_mem _ (d.snapshots db) (λ q n.
              first_side t ts q.taken_at le (All-mem _ (d.snapshots db) (d.above-none t db a) n)
                (All-mem _ (d.snapshots db) near n)),
        ))
  finds none (some (blob, ts)) b a =
      let (r, m, e, f, le, near) = d.above-some t db a in
      rw (consider_row-first t ts blob (reach_of r m f)) (
        winner blob ts (
          r,
          m,
          e,
          f,
          All-of_mem _ (d.snapshots db) (λ q n.
              second_side t ts q.taken_at le (All-mem _ (d.snapshots db) (d.below-none t db b) n)
                (All-mem _ (d.snapshots db) near n)),
        ))
  finds (some (first, u)) (some (blob, ts)) b a =
      let (r, m, e, f, le, near) = d.below-some t db b in
      let (r', m', e', f', le', near') = d.above-some t db a in
      let sides : (q : Row)
          → Memᴰ q (d.snapshots db)
          → (dist u t ≤ dist q.taken_at t) ⊎ (dist ts t ≤ dist q.taken_at t) =
        λ q n.
          both_sides t u ts q.taken_at le le' (All-mem _ (d.snapshots db) near n)
            (All-mem _ (d.snapshots db) near' n) in
      rw
        (
          consider_row-first t u first (reach_of r m f),
          consider_row-second t ts u blob first (reach_of r' m' f'),
        )
        (elim (Bool-cases (ltb_ℤ (pos (dist ts t)) (pos (dist u t)))) [
          | inl lt ↦ rw lt (
              winner blob ts (
                r',
                m',
                e',
                f',
                nearer ts u (λ q n. elim (sides q n) [ inl x ↦ inr x | inr x ↦ inl x ])
                    (le_of_beat _ _ lt),
              ))
          | inr ge ↦ rw ge (winner first u (r, m, e, f, nearer u ts sides (le_of_no_beat _ _ ge)))
        ])

-- `At` says that nothing is found in an empty table, or decodes a row than which no other is
-- closer to the target.
abbrev pub FindsClosest : (d : Database) → Encoding → Sqlite d → Time → Type 0
FindsClosest d c s t =
    ((d.snapshots s.db ≡ []) × (at d c s t ≡ ok none))
    ⊎ ((r : Row) × Memᴰ r (d.snapshots s.db)
        × IsClosest (unix_nano t) (d.snapshots s.db) r
        × (at d c s t ≡ as_found (decode c r.blob)))

-- When neither query fails and every row is within the range of a duration from the target, `At`
-- decodes a row than which no other is closer to the target; only of an empty table it says that
-- nothing is found.
pub at-IsClosest :
    (d : Database) (c : Encoding) (s : Sqlite d) (t : Time) {under over : Option (Bytes × ℤ)}
    → d.below (unix_nano t) s.db ≡ ok under
    → d.above (unix_nano t) s.db ≡ ok over
    → InReach (unix_nano t) (d.snapshots s.db)
    → FindsClosest d c s t
unfolding at
at-IsClosest d c s t {under} {over} b a reach =
    rw (b, a) (finds c d s.db (unix_nano t) reach under over b a)
