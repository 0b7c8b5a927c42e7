-- ===== src/Prelude/Family.antt =====
-- Threads by number: a family with one member changed, and sums over the first `n` members.
use Prim.Native.Nat.{ℕ, zero, suc, ◌+◌, ◌≤◌, ◌<◌}
use mathlib.Core.Path.{◌≡◌, refl}
use mathlib.Core.Logic.{ite}
use native.Mathlib.Decide.{ℕ_discrete}
use native.Mathlib.Omega.{arith}

-- The family `f` with `a` at `i`.
abbrev pub update {ℓ} : {A : Type ℓ} → (ℕ → A) → ℕ → A → ℕ → A
update f i a j = ite (ℕ_discrete j i) a (f j)

module _ {ℓ} {A : Type ℓ} (weight : A → ℕ) where
  unfoldable pub sum_below : ℕ → (ℕ → A) → ℕ
  sum_below zero f = 0
  sum_below (suc n) f = weight (f n) + sum_below n f

  -- A change above the range does not count.
  sum_below-update_above :
      (n i : ℕ) (f : ℕ → A) (a : A) → n ≤ i → sum_below n (update f i a) ≡ sum_below n f
  unfolding sum_below
  sum_below-update_above zero i f a h = refl
  sum_below-update_above (suc n) i f a h = ground (arith, sum_below-update_above n i f a)

  -- A change at `i` trades the old weight for the new one.
  pub sum_below-update :
      (n i : ℕ) (f : ℕ → A) (a : A)
      → i < n
      → weight (f i) + sum_below n (update f i a) ≡ weight a + sum_below n f
  unfolding sum_below
  sum_below-update zero i f a h = absurd (omega arith)
  sum_below-update (suc n) i f a h = elim (ℕ_discrete i n) [
    | yes top ↦ ground (arith, sum_below-update_above n i f a)
    | no below ↦ ground (arith, sum_below-update n i f a)
  ]

  pub weight-le-sum_below : (n i : ℕ) (f : ℕ → A) → i < n → weight (f i) ≤ sum_below n f
  unfolding sum_below
  weight-le-sum_below zero i f h = absurd (omega arith)
  weight-le-sum_below (suc n) i f h = elim (ℕ_discrete i n) [
    | yes top ↦ ground arith
    | no below ↦ omega (arith, weight-le-sum_below n i f (omega arith))
  ]

  pub sum_below-eq-zero : (n : ℕ) (f : ℕ → A) → ((i : ℕ) → weight (f i) ≡ 0) → sum_below n f ≡ 0
  unfolding sum_below
  sum_below-eq-zero zero f h = refl
  sum_below-eq-zero (suc n) f h = omega (arith, h n, sum_below-eq-zero n f h)
