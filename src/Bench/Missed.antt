-- ===== src/Bench/Missed.antt =====
-- What the count of missed values says.
use ps_msgr.Prelude.{ℕ, ◌+◌, ◌-◌, ◌/◌, ◌^◌, ◌<◌, ◌≡◌, refl, List, [], ◌∷◌, length, arith}
use ps_msgr.Generation.Cycle.{after, after_lem}
use ps_msgr.Bench.{Wake, count_missed}

-- The reader reads the values that are `ks` publishes behind one another, the last step first; it has
-- seen the generation `g` before them.
abbrev pub published : List ℕ → ℕ
published [] = 0
published (k ∷ ks) = k + published ks

unfoldable pub wake_of : (g : ℕ) → (ks : List ℕ) → Wake
wake_of g [] = record { seen = g; missed = 0 }
wake_of g (k ∷ ks) = count_missed (wake_of g ks) (after (published (k ∷ ks)) g)

-- Each step is at least one publish, and fewer than there are generations.
abbrev pub IsSteps : List ℕ → Type 0
IsSteps [] = Unit
IsSteps (k ∷ ks) = (0 < k) × (k < 0xFFFFFFFF) × IsSteps ks

seen_lem : (g : ℕ) → (ks : List ℕ) → (wake_of g ks).seen ≡ after (published ks) g
unfolding wake_of count_missed after
seen_lem g [] = refl
seen_lem g (k ∷ ks) = refl

-- The values that a reader misses are the publishes but those that it reads. The count says one more for
-- every time that the generation has wrapped round: it skips 0, which the count does not know.
pub count_missed_lem :
    (g : ℕ)
    → (ks : List ℕ) → 0 < g
    → g < 2 ^ 32
    → IsSteps ks
    → (wake_of g ks).missed + length ks ≡ published ks + (g - 1 + published ks) / 0xFFFFFFFF
unfolding wake_of count_missed
count_missed_lem g [] p h _ = omega arith
count_missed_lem g (k ∷ ks) p h s = omega (
  arith,
  count_missed_lem g ks p h s.2,
  seen_lem g ks,
  after_lem (published ks) g p h,
  after_lem (k + published ks) g p h,
  s.0,
  s.1,
)
