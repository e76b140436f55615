-- ===== src/Generation.antt =====
-- src/state.c: the change token that a publish carries.
pub mod Cycle
use ps_msgr.Prelude.{ℕ, ◌+◌, ◌/◌, ◌*◌, ◌%◌, ◌^◌, bit_xor, Option, none, some, ◌==◌, if◌then◌else◌}

-- 0 is never a valid generation.
unfoldable pub next_generation : ℕ → ℕ
next_generation gen = if gen == 0xFFFFFFFF then 1 else gen + 1

-- The fallback of `random_generation` where `getrandom` fails: the clocks and the pid, mixed in
-- 64 bits. `drawn` is what `getrandom` stored, if it returned all four bytes.
unfoldable pub random_generation : Option ℕ → (monotonic realtime pid : ℕ) → ℕ
random_generation drawn monotonic realtime pid =
    let x : ℕ = bit_xor (bit_xor monotonic (realtime * 2 ^ 17 % 2 ^ 64)) pid in
    let y : ℕ = bit_xor x (x / 2 ^ 33) in
    let z : ℕ = y * 0xff51afd7ed558ccd % 2 ^ 64 in
    let w : ℕ = bit_xor z (z / 2 ^ 33) in
    let g : ℕ = elim drawn [ none ↦ w % 2 ^ 32 | some d ↦ d ] in if g == 0 then 1 else g
