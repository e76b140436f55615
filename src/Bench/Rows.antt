-- ===== src/Bench/Rows.antt =====
-- The figures of a row are in order.
use ps_msgr.Prelude.{
  ℕ, ◌-◌, ◌/◌, ◌^◌, ◌<◌, ◌≤◌, ◌≡◌, refl, sym, subst, true, List, ◌∷◌, ltb, length, arith,
}
use ps_msgr.Kernel.Resources.{is_in}
use ps_msgr.Bench.{Samples, Row, print_row}
use ps_msgr.Bench.Reservoir.{samples_of, IsReservoir, samples_of-IsReservoir}

-- Documented behaviour of `qsort` with `cmp_u64`: the first `n` entries are ascending, and each of them
-- was one of the first `n`.
abbrev pub IsSort : ((ℕ → ℕ) → ℕ → ℕ → ℕ) → Type 0
IsSort sort =
    ((v : ℕ → ℕ) → (n i j : ℕ) → i ≤ j → j < n → sort v n i ≤ sort v n j)
    × ((v : ℕ → ℕ) → (n i : ℕ) → i < n → (k : ℕ) × (k < n) × (sort v n i ≡ v k))

-- One of the samples.
abbrev pub IsSample : (xs : List ℕ) → (y : ℕ) → Type 0
IsSample xs y = is_in y xs ≡ true

module _ (sort : (ℕ → ℕ) → ℕ → ℕ → ℕ) (ok : IsSort sort) (cap : ℕ) (xs : List ℕ) (s : Samples)
    (r : IsReservoir cap xs s) where
  sorted-IsSample : (i : ℕ) → i < s.n → IsSample xs (sort s.v s.n i)
  sorted-IsSample i lt =
      let o : (k : ℕ) × (k < s.n) × (sort s.v s.n i ≡ s.v k) = ok.1 s.v s.n i lt in
      subst (λ y. IsSample xs y) (sym o.2) (r.among o.0 o.1)

  -- Of the sorted array, the figures from the middle and from near the end.
  figures :
      0 < s.n
      → (s.min ≤ sort s.v s.n (s.n / 2))
        × (sort s.v s.n (s.n / 2) ≤ sort s.v s.n (s.n - 1 - s.n / 100))
        × (sort s.v s.n (s.n - 1 - s.n / 100) ≤ s.max)
        × IsSample xs (sort s.v s.n (s.n / 2))
        × IsSample xs (sort s.v s.n (s.n - 1 - s.n / 100))
  figures some =
      let median : IsSample xs (sort s.v s.n (s.n / 2)) = sorted-IsSample (s.n / 2) (omega arith) in
      let p99 : IsSample xs (sort s.v s.n (s.n - 1 - s.n / 100)) =
        sorted-IsSample (s.n - 1 - s.n / 100) (omega arith) in
      (
        r.least _ median,
        ok.0 s.v s.n (s.n / 2) (s.n - 1 - s.n / 100) (omega arith) (omega arith),
        r.greatest _ p99,
        median,
        p99,
      )

-- The figures of this row are in order, and median and percentile are samples.
abbrev pub IsOrdered : (xs : List ℕ) → Row → Type 0
IsOrdered xs row =
    (row.lowest ≤ row.median)
    × (row.median ≤ row.p99)
    × (row.p99 ≤ row.highest)
    × IsSample xs row.median
    × IsSample xs row.p99

print_row-some :
    (sort : (ℕ → ℕ) → ℕ → ℕ → ℕ)
    → (s : Samples) → 0 < s.n
    → print_row sort s ≡ record {
      lowest = s.min;
      median = sort s.v s.n (s.n / 2);
      p99 = sort s.v s.n (s.n - 1 - s.n / 100);
      highest = s.max;
    }
unfolding print_row
print_row-some sort s some = rw (above some) refl
  where
    above : {n : ℕ} → 0 < n → ltb 0 n ≡ true
    above lt = ground arith

-- The figures of a row that is made of at least one sample, with room for at least one, are in order:
-- minimum, median, 99th percentile, maximum; and median and percentile are samples that were taken.
pub print_row-IsOrdered :
    (sort : (ℕ → ℕ) → ℕ → ℕ → ℕ)
    → IsSort sort
    → (cap x : ℕ) → (xs : List ℕ) → 0 < cap
    → length (x ∷ xs) < 2 ^ 64
    → IsOrdered (x ∷ xs) (print_row sort (samples_of cap (x ∷ xs)))
print_row-IsOrdered sort ok cap x xs room few =
    let s : Samples = samples_of cap (x ∷ xs) in
    let r : IsReservoir cap (x ∷ xs) s = samples_of-IsReservoir cap (x ∷ xs) few in
    let some : 0 < s.n = ground (arith, r.n_ok, room) in
    subst (IsOrdered (x ∷ xs)) (sym (print_row-some sort s some))
      (figures sort ok cap (x ∷ xs) s r some)
