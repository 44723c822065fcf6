-- ===== src/Store/Ring/Window.antt =====
-- Runs of consecutive cells of a ring buffer, at indices taken modulo its capacity.
use pglockr.Prelude.{
  ℕ, zero, suc, ◌+◌, ◌-◌, ◌*◌, ◌%◌, ◌≤◌, ◌<◌, ◌≡◌, ◌≢◌, refl, ◌∙◌, ap, ap₂, ◌⊎◌, inl, inr, List, [],
  ◌∷◌, ◌++◌, arith, get_or, set, get_or-set_ne, length, drop,
}
use native.Mathlib.Nat.{mod-eq_of_lt, mod-eq-sub-mod}
use native.Mathlib.Decide.{dec_lt}
use pglockr.Graph.{Snapshot}
use pglockr.Store.{empty_snapshot}

pub mod_cases :
    (h cap : ℕ) → h < cap * 2 → ((h < cap) × (h % cap ≡ h)) ⊎ ((cap ≤ h) × (h % cap ≡ h - cap))
mod_cases h cap l = elim (dec_lt h cap) [
  | yes p ↦ inl (p, mod-eq_of_lt p)
  | no p ↦ inr (
    omega arith,
    mod-eq-sub-mod {n = h} {m = cap} (omega arith)
        ∙ mod-eq_of_lt {n = h - cap} {m = cap} (omega arith),
  )
]

pub mod-add_self : (h cap : ℕ) → (h + cap) % cap ≡ h % cap
mod-add_self h cap =
    mod-eq-sub-mod {n = h + cap} {m = cap} (omega arith) ∙ ap (λ k. k % cap) (omega arith)

module _ (buf : List Snapshot) (cap : ℕ) where
  -- The `n` cells from index `h` on.
  abbrev pub window : ℕ → ℕ → List Snapshot
  window h zero = []
  window h (suc n) = get_or buf (h % cap) empty_snapshot ∷ window (h + 1) n

  pub length-window : (h n : ℕ) → length (window h n) ≡ n
  length-window h zero = refl
  length-window h (suc n) = ap suc (length-window (h + 1) n)

  -- A run may start one turn later.
  pub window_turn : (h n : ℕ) → window (h + cap) n ≡ window h n
  window_turn h zero = refl
  window_turn h (suc n) =
      ap₂ ◌∷◌ (ap (λ k. get_or buf k empty_snapshot) (mod-add_self h cap))
        (ap (λ k. window k n) (omega arith) ∙ window_turn (h + 1) n)

  pub window-concat :
      (h n : ℕ) → window h (suc n) ≡ window h n ++ get_or buf ((h + n) % cap) empty_snapshot ∷ []
  window-concat h zero = ap (λ k. get_or buf (k % cap) empty_snapshot ∷ []) (omega arith)
  window-concat h (suc n) = ap (◌∷◌ (get_or buf (h % cap) empty_snapshot)) (
      window-concat (h + 1) n
      ∙ ap (λ k. window (h + 1) n ++ get_or buf (k % cap) empty_snapshot ∷ []) (omega arith))

  pub drop-one-window : (h n : ℕ) → drop 1 (window h n) ≡ window (h + 1) (n - 1)
  drop-one-window h zero = refl
  drop-one-window h (suc n) = ap (window (h + 1)) (omega arith)

-- A write just before a run that goes round once at most leaves it alone.
pub window-set_ne :
    (buf : List Snapshot) (cap i h n : ℕ) (x : Snapshot)
    → i < cap
    → i < h
    → h + n ≤ i + cap
    → window (set buf i x) cap h n ≡ window buf cap h n
window-set_ne buf cap i h zero x a b c = refl
window-set_ne buf cap i h (suc n) x a b c =
    ap₂ ◌∷◌ (get_or-set_ne buf x empty_snapshot other)
      (window-set_ne buf cap i (h + 1) n x a (omega arith) (omega arith))
  where
    other : i ≢ h % cap
    other = omega (arith, mod_cases h cap)
