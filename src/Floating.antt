-- ===== src/Floating.antt =====
-- The values of a `double`, as `strtod` returns them to examples/c/motor_writer.c and to
-- bench/psmsgr-bench.c, and the programs' comparisons of them. Their arithmetic is not modelled.
use ps_msgr.Prelude.{ℕ, ◌*◌, ◌^◌, ◌<◌, ◌≤◌, Bool, true, false, ◌&&◌, ◌||◌, not, leb, ◌==◌, List}

-- `finite negative n k` is n / 2^k, or that less than 0.
pub data Double : Type 0 where
  nan : Double
  infinite : (negative : Bool) → Double
  finite : (negative : Bool) (n k : ℕ) → Double

-- What `strtod` returns, and the text that it leaves; `nothing` says that it has read nothing.
pub record Read : Type 0 where
  pub value : Double
  pub rest : List ℕ
  pub nothing : Bool

-- `x > 0`
abbrev pub is_positive : Double → Bool
is_positive Double.nan = false
is_positive (Double.infinite negative) = not negative
is_positive (Double.finite negative n k) = not negative && not (n == 0)

-- `x <= most`
abbrev pub is_at_most : Double → (most : ℕ) → Bool
is_at_most Double.nan most = false
is_at_most (Double.infinite negative) most = negative
is_at_most (Double.finite negative n k) most = negative || leb n (most * 2 ^ k)

-- A number above 0, and not above `most`.
abbrev pub IsWithin : (most : ℕ) → Double → Type 0
IsWithin most Double.nan = ⊥
IsWithin most (Double.infinite negative) = ⊥
IsWithin most (Double.finite true n k) = ⊥
IsWithin most (Double.finite false n k) = (0 < n) × (n ≤ most * 2 ^ k)

-- A number above 0, which may be infinite.
abbrev pub IsAbove : Double → Type 0
IsAbove Double.nan = ⊥
IsAbove (Double.infinite true) = ⊥
IsAbove (Double.infinite false) = Unit
IsAbove (Double.finite true n k) = ⊥
IsAbove (Double.finite false n k) = 0 < n
