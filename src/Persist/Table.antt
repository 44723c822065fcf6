-- ===== src/Persist/Table.antt =====
-- A database of lists, which meets the laws that are asked of SQLite: it serves the examples.
use mathlib.Core.List.{Permᴰ}
use mathlib.Core.List.Permᴰ as Perms
use pglockr.Prelude.{
  ◌≡◌, refl, sym, ap, subst, ◌⊎◌, Bool, true, false, List, [], ◌∷◌, ◌++◌, map, take, Memᴰ, Option,
  none, some, Answer, ok, err, if◌then◌else◌, All, filterb, arith, Bool-cases, Option-cases, inl,
  inr, ok-inj,
}
use pglockr.Prelude.Int.{ℤ, ltb_ℤ}
use pglockr.Sorting.{sort_insert, sort}
use pglockr.Sorting.Members.{IsSorted, sort-IsSorted}
use pglockr.Persist.{
  Bytes, Row, AuditRow, Cells, Database, cells_of, between, is_unexpired, earlier, newer,
}

pub record Tables : Type 0 where
  pub rows : List Row
  pub trail : List AuditRow

-- The row that no other beats, of those that are not rejected.
module _ (rejects : Row → Bool) (beats : Row → Row → Bool) where
  abbrev better : Row → Option Row → Row
  better r none = r
  better r (some q) = if beats q r then q else r

  abbrev pick : List Row → Option Row
  pick [] = none
  pick (r ∷ rs) = if rejects r then pick rs else some (better r (pick rs))

  pick-none : (rs : List Row) → pick rs ≡ none → All (λ r. rejects r ≡ true) rs
  pick-none [] h = tt
  pick-none (r ∷ rs) h = elim (Bool-cases (rejects r)) [
    | inl e ↦ (e, pick-none rs (rw e at h))
    | inr e ↦ absurd (ground (arith, h, e))
  ]

  -- The row that wins among some rows.
  record IsBest (rs : List Row) (r : Row) : Type 0 where
    mem : Memᴰ r rs
    admitted : rejects r ≡ false
    unbeaten : All (λ q. (rejects q ≡ false) → beats q r ≡ false) rs

  none_beats :
      (r : Row) (rs : List Row)
      → All (λ q. rejects q ≡ true) rs
      → All (λ q. (rejects q ≡ false) → beats q r ≡ false) rs
  none_beats r [] h = tt
  none_beats r (q ∷ rs) (e, h) = ((λ f. absurd (ground (arith, e, f))), none_beats r rs h)

  abbrev pair_in : Bytes × ℤ → Answer (Option (Bytes × ℤ)) → Bytes × ℤ
  pair_in p (ok (some q)) = q
  pair_in p (ok none) = p
  pair_in p (err e) = p

  -- The cells of the row that wins.
  abbrev cell : Option Row → Option (Bytes × ℤ)
  cell none = none
  cell (some r) = some (r.blob, r.taken_at)

  abbrev query : List Row → Answer (Option (Bytes × ℤ))
  query rs = ok (cell (pick rs))

  pub query-none : (rs : List Row) → query rs ≡ ok none → All (λ r. rejects r ≡ true) rs
  query-none rs h = elim (Option-cases (pick rs)) [
    | inl k ↦ pick-none rs k
    | inr (r, k) ↦ absurd (ground (arith, rw k at h))
  ]

  module _ (self : (q : Row) → beats q q ≡ false)
      (trans : (a b r : Row) → beats a b ≡ false → beats b r ≡ false → beats a r ≡ false)
      (asym : (a b : Row) → beats a b ≡ true → beats b a ≡ false) where
    none_beats_over :
        (r q : Row) (rs : List Row)
        → beats q r ≡ false
        → All (λ p. (rejects p ≡ false) → beats p q ≡ false) rs
        → All (λ p. (rejects p ≡ false) → beats p r ≡ false) rs
    none_beats_over r q [] e h = tt
    none_beats_over r q (p ∷ rs) e (k, h) = ((λ f. trans p q r (k f) e), none_beats_over r q rs e h)

    pick-cases : (rs : List Row) → (pick rs ≡ none) ⊎ ((r : Row) × (pick rs ≡ some r) × IsBest rs r)
    pick-cases [] = inl refl
    pick-cases (p ∷ rs) = elim (Bool-cases (rejects p)) [
      | inl e ↦ rw e (elim (pick-cases rs) [
        | inl k ↦ inl k
        | inr (q, k, b) ↦
            let off : (rejects p ≡ false) → beats p q ≡ false =
              λ f. absurd (ground (arith, e, f)) in
            inr (
              q,
              k,
              record { mem = Memᴰ.tail b.mem; admitted = b.admitted; unbeaten = (off, b.unbeaten) },
            )
      ])
      | inr e ↦ rw e (elim (pick-cases rs) [
        | inl k ↦ rw k (
            inr (
              p,
              refl,
              record {
                mem = Memᴰ.head refl;
                admitted = e;
                unbeaten = ((λ f. self p), none_beats p rs (pick-none rs k));
              },
            ))
        | inr (q, k, b) ↦ rw k (elim (Bool-cases (beats q p)) [
          | inl f ↦ rw f (
              inr (
                q,
                refl,
                record {
                  mem = Memᴰ.tail b.mem;
                  admitted = b.admitted;
                  unbeaten = ((λ g. asym q p f), b.unbeaten);
                },
              ))
          | inr f ↦ rw f (
              inr (
                p,
                refl,
                record {
                  mem = Memᴰ.head refl;
                  admitted = e;
                  unbeaten = ((λ g. self p), none_beats_over p q rs f b.unbeaten);
                },
              ))
        ])
      ])
    ]

    query-some :
        (rs : List Row) {blob : Bytes} {ts : ℤ}
        → query rs ≡ ok (some (blob, ts))
        → (r : Row) × IsBest rs r × (r.blob ≡ blob) × (r.taken_at ≡ ts)
    query-some rs {blob} {ts} h = elim (pick-cases rs) [
      | inl k ↦ absurd (ground (arith, rw k at h))
      | inr (r, k, b) ↦
          let e : ok (some (r.blob, r.taken_at)) ≡ ok (some (blob, ts)) = rw k at h in
          (
            r,
            b,
            ap (λ a. (pair_in (r.blob, r.taken_at) a).0) e,
            ap (λ a. (pair_in (r.blob, r.taken_at) a).1) e,
          )
    ]

ltb_ℤ-self : (a : ℤ) → ltb_ℤ a a ≡ false
ltb_ℤ-self a = ground arith

ltb_ℤ-trans : (a b c : ℤ) → ltb_ℤ b a ≡ false → ltb_ℤ c b ≡ false → ltb_ℤ c a ≡ false
ltb_ℤ-trans a b c h k = ground (arith, h, k)

ltb_ℤ-asym : (a b : ℤ) → ltb_ℤ a b ≡ true → ltb_ℤ b a ≡ false
ltb_ℤ-asym a b h = ground (arith, h)

sort_insert-Permᴰ : (x : Cells) (xs : List Cells) → Permᴰ (sort_insert earlier x xs) (x ∷ xs)
unfolding sort_insert
sort_insert-Permᴰ x [] = Perms.refl (x ∷ [])
sort_insert-Permᴰ x (y ∷ ys) = elim (Bool-cases (earlier x y)) [
  | inl e ↦ rw e (Perms.refl (x ∷ y ∷ ys))
  | inr e ↦ rw e (Permᴰ.trans (Permᴰ.cons refl (sort_insert-Permᴰ x ys)) (Permᴰ.swap refl refl))
]

sort-Permᴰ : (xs : List Cells) → Permᴰ (sort earlier xs) xs
unfolding sort
sort-Permᴰ [] = Permᴰ.nil
sort-Permᴰ (x ∷ xs) =
    Permᴰ.trans (sort_insert-Permᴰ x (sort earlier xs)) (Permᴰ.cons refl (sort-Permᴰ xs))

-- `taken_at <= ? ORDER BY taken_at DESC LIMIT 1`
abbrev is_above : ℤ → Row → Bool
is_above t r = ltb_ℤ t r.taken_at

abbrev is_later : Row → Row → Bool
is_later q r = ltb_ℤ r.taken_at q.taken_at

-- `taken_at >= ? ORDER BY taken_at ASC LIMIT 1`
abbrev is_below : ℤ → Row → Bool
is_below t r = ltb_ℤ r.taken_at t

abbrev is_earlier : Row → Row → Bool
is_earlier q r = ltb_ℤ q.taken_at r.taken_at

pub below-some :
    (t : ℤ) (rows : List Row) {blob : Bytes} {ts : ℤ}
    → query (is_above t) is_later rows ≡ ok (some (blob, ts))
    → (r : Row) × Memᴰ r rows
      × (r.blob ≡ blob)
      × (r.taken_at ≡ ts)
      × (ltb_ℤ t ts ≡ false)
      × All (λ r'. (ltb_ℤ t r'.taken_at ≡ false) → ltb_ℤ ts r'.taken_at ≡ false) rows
below-some t rows h =
    let (r, b, e, f) =
      query-some (is_above t) is_later (λ q. ltb_ℤ-self q.taken_at)
        (λ a b r h k. ltb_ℤ-trans a.taken_at b.taken_at r.taken_at h k)
        (λ a b h. ltb_ℤ-asym b.taken_at a.taken_at h) rows h in
    (
      r,
      b.mem,
      e,
      f,
      subst (λ ts. ltb_ℤ t ts ≡ false) f b.admitted,
      subst (λ ts. All (λ r'. (ltb_ℤ t r'.taken_at ≡ false) → ltb_ℤ ts r'.taken_at ≡ false) rows) f
          b.unbeaten,
    )

pub above-some :
    (t : ℤ) (rows : List Row) {blob : Bytes} {ts : ℤ}
    → query (is_below t) is_earlier rows ≡ ok (some (blob, ts))
    → (r : Row) × Memᴰ r rows
      × (r.blob ≡ blob)
      × (r.taken_at ≡ ts)
      × (ltb_ℤ ts t ≡ false)
      × All (λ r'. (ltb_ℤ r'.taken_at t ≡ false) → ltb_ℤ r'.taken_at ts ≡ false) rows
above-some t rows h =
    let (r, b, e, f) =
      query-some (is_below t) is_earlier (λ q. ltb_ℤ-self q.taken_at)
        (λ a b r h k. ltb_ℤ-trans r.taken_at b.taken_at a.taken_at k h)
        (λ a b h. ltb_ℤ-asym a.taken_at b.taken_at h) rows h in
    (
      r,
      b.mem,
      e,
      f,
      subst (λ ts. ltb_ℤ ts t ≡ false) f b.admitted,
      subst (λ ts. All (λ r'. (ltb_ℤ r'.taken_at t ≡ false) → ltb_ℤ r'.taken_at ts ≡ false) rows) f
          b.unbeaten,
    )

pub select_between_lem :
    (cells : List Cells) {rows : List Cells}
    → ok (sort earlier cells) ≡ ok rows
    → Permᴰ rows cells × IsSorted earlier rows
select_between_lem cells h = (
  subst (λ rows. Permᴰ rows cells) (ok-inj h) (sort-Permᴰ cells),
  subst (IsSorted earlier) (ok-inj h) (
      sort-IsSorted earlier (λ a b h. ltb_ℤ-asym a.taken_at b.taken_at h)
        (λ a b c h k. ltb_ℤ-trans a.taken_at b.taken_at c.taken_at h k) cells),
)

abbrev pub tables : Database
tables = record {
  State = Tables;
  snapshots = λ s. s.rows;
  audits = λ s. s.trail;
  insert_snapshot = λ r s. ok (record s { rows = s.rows ++ r ∷ [] });
  delete_before = λ cutoff s. ok (record s { rows = filterb (is_unexpired cutoff) s.rows });
  below = λ t s. query (is_above t) is_later s.rows;
  above = λ t s. query (is_below t) is_earlier s.rows;
  select_between = λ lo hi s. ok (sort earlier (map cells_of (filterb (between lo hi) s.rows)));
  insert_audit = λ r s. ok (record s { trail = s.trail ++ r ∷ [] });
  select_audits = λ n s. ok (take n (sort newer s.trail));
  insert_snapshot_lem = λ r s h.
      (ap (λ (s : Tables). s.rows) (sym (ok-inj h)), ap (λ (s : Tables). s.trail) (sym (ok-inj h)));
  delete_before_lem = λ cutoff s h.
      (ap (λ (s : Tables). s.rows) (sym (ok-inj h)), ap (λ (s : Tables). s.trail) (sym (ok-inj h)));
  below-none = λ t s h. query-none (is_above t) is_later s.rows h;
  below-some = λ t s h. below-some t s.rows h;
  above-none = λ t s h. query-none (is_below t) is_earlier s.rows h;
  above-some = λ t s h. above-some t s.rows h;
  select_between_lem =
      λ lo hi s h. select_between_lem (map cells_of (filterb (between lo hi) s.rows)) h;
  insert_audit_lem = λ r s h.
      (ap (λ (s : Tables). s.trail) (sym (ok-inj h)), ap (λ (s : Tables). s.rows) (sym (ok-inj h)));
  select_audits_lem = λ n s h. sym (ok-inj h);
}
