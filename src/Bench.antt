-- ===== src/Bench.antt =====
-- bench/psmsgr-bench.c: the samples, the row that is printed of them, the period of the writer process, and
-- the count of missed values. `qsort` and `strtoul` are arguments.
pub mod Reservoir
pub mod Rows
pub mod Missed
pub mod Schedule
pub mod Operations
pub mod Measuring
pub mod Setup
pub mod Uncontended
pub mod Process
pub mod Contended
pub mod WakeUp
pub mod Cleanup
pub mod Settings
pub mod Values
pub mod Legal
pub mod Discipline
pub mod Polling
pub mod Beside
pub mod Closing
pub mod Working
pub mod Rowed
pub mod Program
use ps_msgr.Prelude.{
  ℕ, zero, suc, ◌+◌, ◌-◌, ◌*◌, ◌/◌, ◌%◌, ◌^◌, bit_xor, Bool, true, false, ◌||◌, not, Option, none,
  some, List, [], ◌∷◌, ltb, leb, ◌==◌, if◌then◌else◌, update,
}

-- `v` is an array of `cap` entries, `n` of them used.
pub record Samples : Type 0 where
  pub v : ℕ → ℕ
  pub cap : ℕ
  pub n : ℕ
  pub seen : ℕ
  pub min : ℕ
  pub max : ℕ
  pub rng : ℕ

unfoldable pub samples_init : (cap : ℕ) → Samples
samples_init cap = record {
  v = λ _. 0;
  cap = cap;
  n = 0;
  seen = 0;
  min = 2 ^ 64 - 1;
  max = 0;
  rng = 0x9E3779B97F4A7C15;
}

unfoldable pub xorshift64 : ℕ → ℕ
xorshift64 x =
    let a : ℕ = bit_xor x (x * 2 ^ 13 % 2 ^ 64) in
    let b : ℕ = bit_xor a (a / 2 ^ 7) in bit_xor b (b * 2 ^ 17 % 2 ^ 64)

-- The part of `samples_add` behind the count, the minimum and the maximum.
unfoldable pub samples_keep : Samples → (x : ℕ) → Samples
samples_keep s x =
    let rng : ℕ = xorshift64 s.rng in
    let j : ℕ = rng % s.seen in
    if ltb s.n s.cap
    then record s { v = update s.v s.n x; n = s.n + 1 }
    else if ltb j s.cap
    then record s { rng = rng; v = update s.v j x }
    else record s { rng = rng }

unfoldable pub samples_add : Samples → (x : ℕ) → Samples
samples_add s x =
    samples_keep
      (record s {
        seen = (s.seen + 1) % 2 ^ 64;
        min = if ltb x s.min then x else s.min;
        max = if ltb s.max x then x else s.max;
      })
      x

-- The figures of a row, before they are divided by the operations per sample. `sort` is `qsort` with
-- `cmp_u64`, on the first entries of an array.
pub record Row : Type 0 where
  pub lowest : ℕ
  pub median : ℕ
  pub p99 : ℕ
  pub highest : ℕ

unfoldable pub print_row : (sort : (ℕ → ℕ) → ℕ → ℕ → ℕ) → Samples → Row
print_row sort s =
    let v : ℕ → ℕ = sort s.v s.n in
    if ltb 0 s.n
    then record {
      lowest = s.min;
      median = v (s.n / 2);
      p99 = v (s.n - 1 - s.n / 100);
      highest = s.max;
    }
    else record { lowest = 0; median = 0; p99 = 0; highest = 0 }

-- The reader's last generation and the count of missed values, in `bench_wake`. The count is an
-- `int64_t`, and does not reach its bound.
pub record Wake : Type 0 where
  pub seen : ℕ
  pub missed : ℕ

-- A value with this generation was read.
unfoldable pub count_missed : Wake → (generation : ℕ) → Wake
count_missed w generation = record {
  seen = generation;
  missed = w.missed + (generation + 2 ^ 32 - w.seen + 2 ^ 32 - 1) % 2 ^ 32;
}

-- What `strtoul` stores and returns: `rest` is `end`.
pub record Parsed : Type 0 where
  pub value : ℕ
  pub rest : List ℕ
  pub failed : Bool
  pub nothing : Bool

abbrev pub is_end : List ℕ → Bool
is_end [] = true
is_end (c ∷ cs) = false

unfoldable pub parse_u32 : (strtoul : List ℕ → Parsed) → (s : List ℕ) → (least : ℕ) → Option ℕ
parse_u32 strtoul s least =
    let p : Parsed = strtoul s in
    if p.failed || p.nothing || not (is_end p.rest) || ltb p.value least || ltb (2 ^ 32 - 1) p.value
    then none
    else some p.value

-- `--rate`
unfoldable pub parse_rate : (strtoul : List ℕ → Parsed) → (s : List ℕ) → Option ℕ
parse_rate strtoul s = elim (parse_u32 strtoul s 1) [
  | none ↦ none
  | some rate ↦ if leb rate 1000000 then some rate else none
]

abbrev pub period_of : (rate : ℕ) → ℕ
period_of rate = 1000000000 / rate
