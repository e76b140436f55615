-- ===== src/Generation/Cycle.antt =====
-- How long a generation stays unique.
use ps_msgr.Prelude.{ℕ, zero, suc, ◌+◌, ◌-◌, ◌%◌, ◌<◌, ◌≡◌, arith}
use ps_msgr.Generation.{next_generation}

-- the generation `k` publishes after `g`
unfoldable pub after : ℕ → ℕ → ℕ
after zero g = g
after (suc k) g = next_generation (after k g)

next_generation_lem : (g : ℕ) → 0 < g → g < 0x100000000 → next_generation g ≡ g % 0xFFFFFFFF + 1
unfolding next_generation
next_generation_lem g p h = ground arith

pub after_lem : (k g : ℕ) → 0 < g → g < 0x100000000 → after k g ≡ (g - 1 + k) % 0xFFFFFFFF + 1
unfolding after
after_lem zero g p h = omega arith
after_lem (suc k) g p h = omega (
  arith,
  after_lem k g p h,
  next_generation_lem (after k g) (omega (arith, after_lem k g p h))
      (omega (arith, after_lem k g p h)),
)

-- Publishes give generations that are 32-bit words and never 0, and two of them are equal exactly when
-- a multiple of 2^32 - 1 publishes lies between.
pub after_unique :
    (k d g : ℕ)
    → 0 < g
    → g < 0x100000000
    → (0 < after k g)
      × (after k g < 0x100000000)
      × (after (k + d) g ≡ after k g → d % 0xFFFFFFFF ≡ 0)
      × (d % 0xFFFFFFFF ≡ 0 → after (k + d) g ≡ after k g)
after_unique k d g p h =
    let a = after_lem k g p h in
    let b = after_lem (k + d) g p h in
    (omega arith, omega arith, λ e. omega arith, λ e. omega arith)
