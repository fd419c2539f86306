-- ===== src/Prelude/Modular.antt =====
-- Positions on a ring of `m` cycles: `(c + j) % m` lies `j` places after `c`.
use Prim.Native.Nat.{ℕ, ◌+◌, ◌-◌, ◌%◌, ◌<◌, ◌≤◌}
use mathlib.Core.Path.{◌≡◌}
use mathlib.Core.Logic.{◌≢◌, ◌⊎◌, inl, inr}
use native.Mathlib.Omega.{arith}
use native.Mathlib.Decide.{dec_lt}
use native.Mathlib.Nat.{mod-lt, mod-eq_of_lt, mod-eq-sub-mod, mod-add-mod}

-- A number below `2 * m`, reduced.
pub mod_cases :
    (n m : ℕ) → n < m + m → ((n < m) × (n % m ≡ n)) ⊎ ((m ≤ n) × (n % m + m ≡ n) × (n % m < m))
mod_cases n m h = elim (dec_lt n m) [
  | yes p ↦ inl (p, mod-eq_of_lt p)
  | no p ↦ inr (
    omega arith,
    omega (
      arith,
      mod-eq-sub-mod {n = n} {m = m} (omega arith),
      mod-eq_of_lt {n = n - m} {m = m} (omega arith),
    ),
    omega (
      arith,
      mod-eq-sub-mod {n = n} {m = m} (omega arith),
      mod-eq_of_lt {n = n - m} {m = m} (omega arith),
    ),
  )
]

pub mod_below : {n m : ℕ} → n < m → n % m ≡ n
mod_below h = mod-eq_of_lt h

pub mod_bound : (n m : ℕ) → 0 < m → n % m < m
mod_bound n m h = mod-lt n h

pub mod_suc : (n m : ℕ) → (n % m + 1) % m ≡ (n + 1) % m
mod_suc n m = mod-add-mod n m 1

module _ (m c : ℕ) (below : c < m) where
  -- The distance from `c` up to the position `j` places after it.
  pub ahead : (j : ℕ) → j < m → ((c + j) % m + m - c) % m ≡ j
  ahead j h = omega (
    arith,
    mod_cases (c + j) m (omega arith),
    mod_cases ((c + j) % m + m - c) m (omega (arith, mod_cases (c + j) m (omega arith))),
  )

  -- `i` places back from a position that is at least `i` places after `c`.
  pub back : (j i : ℕ) → j < m → i ≤ j → ((c + j) % m + m - i) % m ≡ (c + (j - i)) % m
  back j i h le = omega (
    arith,
    mod_cases (c + j) m (omega arith),
    mod_cases ((c + j) % m + m - i) m (omega (arith, mod_bound (c + j) m)),
    mod_cases (c + (j - i)) m (omega arith),
  )

  -- More places back than that leads round to the other side of `c`.
  pub back_past : (j i : ℕ) → j < i → i ≤ m → (((c + j) % m + m - i) % m + m - c) % m ≡ m - (i - j)
  back_past j i h le = omega (
    arith,
    mod_cases (c + j) m (omega arith),
    mod_cases ((c + j) % m + m - i) m (omega (arith, mod_bound (c + j) m)),
    mod_cases (((c + j) % m + m - i) % m + m - c) m
        (omega (arith, mod_bound ((c + j) % m + m - i) m)),
  )

-- A distance of less than a turn never leads back to the start.
pub mod_apart : (x n m : ℕ) → 0 < n → n < m → (x + n) % m ≢ x % m
mod_apart x n m p h e =
    omega (arith, mod_cases (x % m + n) m (omega (arith, mod_bound x m)), mod-add-mod x m n)
