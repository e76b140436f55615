-- ===== src/Prelude/Bits.antt =====
-- Masks and shifts of C as arithmetic: `x & (2^k - 1)` is the remainder, and an `|` of disjoint
-- fields is a sum.
use Prim.Native.Nat.{ℕ, zero, suc, ◌+◌, ◌*◌, ◌/◌, ◌%◌, ◌≤◌, ◌<◌, min, max}
use Prim.Native.Nat.{bit_and, bit_or, digits, bit_and-bitwise, bit_or-bitwise}
use mathlib.Core.Path.{◌≡◌, refl, sym, ap, ap₂, ◌∙◌}
use native.Mathlib.Nat.{mod-lt, mod-eq_of_lt, add-mul-mod_self_right, mod-add-div'}
use native.Mathlib.Omega.{arith}

-- The native operations recur on fuel: any fuel from the first argument on gives the same digits.
digits-enough :
    (e : ℕ → ℕ) (op : ℕ → ℕ → ℕ) (n m a b : ℕ)
    → a ≤ n
    → a ≤ m
    → digits e op n a b ≡ digits e op m a b
digits-enough e op n m zero b p q = nothing n m
  where
    nothing : (n m : ℕ) → digits e op n 0 b ≡ digits e op m 0 b
    nothing zero zero = refl
    nothing zero (suc m) = refl
    nothing (suc n) zero = refl
    nothing (suc n) (suc m) = refl
digits-enough e op zero m (suc a) b p q = absurd (omega arith)
digits-enough e op (suc n) zero (suc a) b p q = absurd (omega arith)
digits-enough e op (suc n) (suc m) (suc a) b p q =
    omega (arith, digits-enough e op n m (suc a / 2) (b / 2) (omega arith) (omega arith))

-- One binary digit of `&`.
pub bit_and_digit : (a b : ℕ) → bit_and a b ≡ bit_and (a / 2) (b / 2) * 2 + min (a % 2) (b % 2)
bit_and_digit zero b = omega (arith, bit_and-bitwise 0 b, bit_and-bitwise 0 (b / 2))
bit_and_digit (suc a) b = omega (
  arith,
  bit_and-bitwise (suc a) b,
  bit_and-bitwise (suc a / 2) (b / 2),
  digits-enough (λ _. zero) min a (suc a / 2) (suc a / 2) (b / 2) (omega arith) (omega arith),
)

zero-bit_or : (b : ℕ) → bit_or 0 b ≡ b
zero-bit_or b = bit_or-bitwise 0 b

-- One binary digit of `|`.
pub bit_or_digit : (a b : ℕ) → bit_or a b ≡ bit_or (a / 2) (b / 2) * 2 + max (a % 2) (b % 2)
bit_or_digit zero b = omega (arith, zero-bit_or b, zero-bit_or (b / 2))
bit_or_digit (suc a) b = omega (
  arith,
  bit_or-bitwise (suc a) b,
  bit_or-bitwise (suc a / 2) (b / 2),
  digits-enough (λ b. b) max a (suc a / 2) (suc a / 2) (b / 2) (omega arith) (omega arith),
)

pub bit_and-zero : (k a : ℕ) → a ≤ k → bit_and a 0 ≡ 0
bit_and-zero zero a h = omega (arith, bit_and-bitwise a 0, zero_at a h)
  where
    zero_at : (a : ℕ) → a ≤ 0 → bit_and a 0 ≡ 0
    zero_at zero h = refl
    zero_at (suc a) h = absurd (omega arith)
bit_and-zero (suc k) a h = omega (arith, bit_and_digit a 0, bit_and-zero k (a / 2) (omega arith))

-- `k` one bits
abbrev pub ones : ℕ → ℕ
ones zero = 0
ones (suc k) = ones k * 2 + 1

-- The digit laws at a second operand written as its digits.
bit_and_digits : (x b c : ℕ) → c < 2 → bit_and x (b * 2 + c) ≡ bit_and (x / 2) b * 2 + min (x % 2) c
bit_and_digits x b c h =
    bit_and_digit x (b * 2 + c) ∙ ap₂ (λ u v. bit_and (x / 2) u * 2 + min (x % 2) v) half low
  where
    half : (b * 2 + c) / 2 ≡ b
    half = omega arith

    low : (b * 2 + c) % 2 ≡ c
    low = omega arith

mod_double : (x o : ℕ) → (x / 2) % (o + 1) * 2 + x % 2 ≡ x % (o * 2 + 1 + 1)
mod_double x o = sym (
    ap (λ k. k % (o * 2 + 1 + 1)) split
    ∙ add-mul-mod_self_right _ (x / 2 / (o + 1)) _
    ∙ mod-eq_of_lt below)
  where
    below : (x / 2) % (o + 1) * 2 + x % 2 < o * 2 + 1 + 1
    below = omega (arith, mod-lt (x / 2) {m = o + 1} (omega arith))

    split : x ≡ (x / 2) % (o + 1) * 2 + x % 2 + x / 2 / (o + 1) * (o * 2 + 1 + 1)
    split = omega (arith, mod-add-div' (x / 2) (o + 1))

-- A mask of `k` one bits keeps the remainder modulo 2^k.
pub bit_and-ones : (k x : ℕ) → bit_and x (ones k) ≡ x % (ones k + 1)
bit_and-ones zero x = omega (arith, bit_and-zero x x (omega arith))
bit_and-ones (suc k) x = omega (
  arith,
  bit_and_digits x (ones k) 1 (omega arith),
  bit_and-ones k (x / 2),
  mod_double x (ones k),
)

-- A mask whose low `j` bits are clear drops those bits.
pub bit_and_shift : (x b : ℕ) → bit_and x (b * 2) ≡ bit_and (x / 2) b * 2
bit_and_shift x b = omega (arith, bit_and_digits x b 0 (omega arith), same)
  where
    same : bit_and x (b * 2 + 0) ≡ bit_and x (b * 2)
    same = ap (bit_and x) (omega arith)

bit_or-zero : (k a : ℕ) → a ≤ k → bit_or a 0 ≡ a
bit_or-zero zero zero h = zero-bit_or 0
bit_or-zero zero (suc a) h = absurd (omega arith)
bit_or-zero (suc k) a h = omega (arith, bit_or_digit a 0, bit_or-zero k (a / 2) (omega arith))

bit_or-double : (a b : ℕ) → bit_or (a * 2) b ≡ bit_or a (b / 2) * 2 + b % 2
bit_or-double a b =
    bit_or_digit (a * 2) b
    ∙ ap₂ (λ u v. bit_or u (b / 2) * 2 + max v (b % 2)) half low
    ∙ omega arith
  where
    half : a * 2 / 2 ≡ a
    half = omega arith

    low : a * 2 % 2 ≡ 0
    low = omega arith

-- A value below 16 and a multiple of 16 share no bit.
pub bit_or-shifted : (a b : ℕ) → b < 16 → bit_or (a * 16) b ≡ a * 16 + b
bit_or-shifted a b h = omega (
  arith,
  ap (λ k. bit_or k b) (e a 8),
  bit_or-double (a * 8) b,
  ap (λ k. bit_or k (b / 2)) (e a 4),
  bit_or-double (a * 4) (b / 2),
  ap (λ k. bit_or k (b / 2 / 2)) (e a 2),
  bit_or-double (a * 2) (b / 2 / 2),
  bit_or-double a (b / 2 / 2 / 2),
  ap (bit_or a) none_left,
  bit_or-zero a a (omega arith),
)
  where
    e : (a m : ℕ) → a * (m * 2) ≡ a * m * 2
    e a m = omega arith

    none_left : b / 2 / 2 / 2 / 2 ≡ 0
    none_left = omega arith

-- `x & ~1u`
pub bit_and_even : (x : ℕ) → bit_and x 0xFFFFFFFE ≡ x / 2 % 0x80000000 * 2
bit_and_even x = omega (arith, bit_and_shift x 0x7FFFFFFF, bit_and-ones 31 (x / 2))
