-- ===== src/Prelude/Total.antt =====
-- Sums over the indices below a bound.
use Prim.Native.Nat.{ℕ, zero, suc, ◌+◌, ◌≤◌, ◌<◌}
use mathlib.Core.Path.{◌≡◌, refl, ap}
use mathlib.Core.Logic.{◌≢◌}
use native.Mathlib.Omega.{arith}
use native.Mathlib.Decide.{ℕ_discrete}

unfoldable pub total : (ℕ → ℕ) → ℕ → ℕ
total f zero = 0
total f (suc k) = f k + total f k

pub total_congr : (f g : ℕ → ℕ) (k : ℕ) → ((j : ℕ) → j < k → f j ≡ g j) → total f k ≡ total g k
unfolding total
total_congr f g zero h = refl
total_congr f g (suc k) h =
    omega (arith, h k (omega arith), total_congr f g k (λ j l. h j (omega arith)))

pub total_change :
    (f g : ℕ → ℕ) (k i : ℕ)
    → i < k
    → ((j : ℕ) → j < k → j ≢ i → f j ≡ g j)
    → total g k + f i ≡ total f k + g i
unfolding total
total_change f g zero i l h = absurd (omega arith)
total_change f g (suc k) i l h = elim (ℕ_discrete k i) [
  | yes e ↦
      omega (arith, total_congr f g k (λ j m. h j (omega arith) (omega arith)), ap f e, ap g e)
  | no e ↦
      omega
        (arith, h k (omega arith) e, total_change f g k i (omega arith) (λ j m. h j (omega arith)))
]

pub le-total : (f : ℕ → ℕ) (k i : ℕ) → i < k → f i ≤ total f k
unfolding total
le-total f zero i l = absurd (omega arith)
le-total f (suc k) i l = elim (ℕ_discrete k i) [
  | yes e ↦ omega (arith, ap f e)
  | no e ↦ omega (arith, le-total f k i (omega arith))
]

pub total_mono : (f g : ℕ → ℕ) (k : ℕ) → ((j : ℕ) → f j ≤ g j) → total f k ≤ total g k
unfolding total
total_mono f g zero h = omega arith
total_mono f g (suc k) h = omega (arith, h k, total_mono f g k h)
