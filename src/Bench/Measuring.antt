-- ===== src/Bench/Measuring.antt =====
-- bench/psmsgr-bench.c: `measure`, and how often it calls the operation.
use ps_msgr.Prelude.{
  ℕ, zero, suc, ◌+◌, ◌-◌, ◌*◌, ◌%◌, ◌^◌, ◌≡◌, refl, subst, ap, not, Bool-cases, inl, inr, Option,
  none, some, List, [], ◌∷◌, length, if◌then◌else◌, arith,
}
use ps_msgr.Kernel.{Sys, Prog, ret, ◌>>=◌, sys}
use ps_msgr.Kernel.Monitor.{Returns, Returns-after}
use ps_msgr.Bench.{Samples, samples_init, samples_add, Row, print_row}
use ps_msgr.Bench.Reservoir.{samples_of}
use ps_msgr.Bench.Operations.{◌>>?◌}

module _ {S : Type 0} (op : S → Prog (Option S)) where
  unfoldable pub repeat : ℕ → S → Prog (Option S)
  repeat zero c = ret (some c)
  repeat (suc k) c = let rest : (S → Prog (Option S)) = repeat k in op c >>? rest

  -- `n` samples of `batch` operations each. A time is a difference of 64-bit words.
  unfoldable pub take_samples : (batch n : ℕ) → Samples → S → Prog (Option (Samples × S))
  take_samples batch zero s c = ret (some (s, c))
  take_samples batch (suc k) s c =
      let rest : (Samples → S → Prog (Option (Samples × S))) = take_samples batch k in
      do
        t₀ ← sys Sys.clock_monotonic
        repeat batch c >>? (λ c'. do
          t₁ ← sys Sys.clock_monotonic
          rest (samples_add s ((t₁.value + 2 ^ 64 - t₀.value) % 2 ^ 64)) c')

  -- The row, and what the operations leave.
  unfoldable pub measure :
      (sort : (ℕ → ℕ) → ℕ → ℕ → ℕ) → (warmup batch n : ℕ) → S → Prog (Option (Row × S))
  measure sort warmup batch n c = repeat warmup c >>? (λ c'. do
    m ← sys (Sys.malloc (n * 8))
    if not m.okay
        then ret none
        else (take_samples batch n (samples_init n) c'
            >>? (λ x. ret (some (print_row sort x.0, x.1)))))

-- Unless the process has ended.
abbrev pub IfAny {ℓ} : {A : Type ℓ} → (A → Type 0) → Option A → Type 0
IfAny P none = Unit
IfAny P (some a) = P a

>>?-rule :
    {A B : Type 0} (P : A → Type 0) (Q : B → Type 0) (p : Prog (Option A)) (f : A → Prog (Option B))
    → Returns (IfAny P) p
    → ((a : A) → P a → Returns (IfAny Q) (f a))
    → Returns (IfAny Q) (p >>? f)
>>?-rule P Q p f e next = Returns-after (IfAny P) (IfAny Q) p _ e (λ o k. go o k)
  where
    go : (o : _) → IfAny P o → Returns (IfAny Q) (elim o [ none ↦ ret none | some a ↦ f a ])
    go none k = tt
    go (some a) k = next a k

module _ {S : Type 0} (op : S → Prog (Option S)) (P : ℕ → S → Type 0)
    (steps : (k : ℕ) (c : S) → P k c → Returns (IfAny (P (k + 1))) (op c)) where
  repeat-Returns :
      (m k k' : ℕ) (c : S) → k' ≡ k + m → P k c → Returns (IfAny (P k')) (repeat op m c)
  unfolding repeat
  repeat-Returns zero k k' c e p = subst (λ j. P j c) {x = k} (omega arith) p
  repeat-Returns (suc m) k k' c e p =
      >>?-rule (P (k + 1)) (P k') (op c) (repeat op m) (steps k c p)
        (λ c' p'. repeat-Returns m (k + 1) k' c' (omega arith) p')

  -- The samples are those of so many times.
  abbrev Taken : (cap n k : ℕ) → Samples × S → Type 0
  Taken cap n k (s, c) = ((xs : List ℕ) × (length xs ≡ n) × (s ≡ samples_of cap xs)) × P k c

  take_samples-Returns :
      (cap batch n done k k' : ℕ) (s : Samples) (c : S)
      → k' ≡ k + n * batch
      → Taken cap done k (s, c)
      → Returns (IfAny (Taken cap (n + done) k')) (take_samples op batch n s c)
  unfolding take_samples samples_of
  take_samples-Returns cap batch zero done k k' s c e (t, p) =
      ((t.0, omega (arith, t.1), t.2), subst (λ j. P j c) {x = k} (omega arith) p)
  take_samples-Returns cap batch (suc n) done k k' s c e (t, p) = (
    tt,
    λ t₀.
        >>?-rule (P (k + batch)) (Taken cap (suc n + done) k') (repeat op batch c) _
          (repeat-Returns batch k (k + batch) c refl p)
          (λ c' p'. (
            tt,
            λ t₁.
                (let x : ℕ = (t₁.value + 2 ^ 64 - t₀.value) % 2 ^ 64 in
                  subst
                    (λ j.
                      Returns (IfAny (Taken cap j k'))
                        (take_samples op batch n (samples_add s x) c'))
                    {x = n + (done + 1)} (omega arith)
                    (take_samples-Returns cap batch n (done + 1) (k + batch) k' (samples_add s x) c'
                      (omega arith)
                      ((x ∷ t.0, omega (arith, t.1), ap (λ s'. samples_add s' x) t.2), p'))),
          )),
  )

  -- Let each call of the operation either end the process or lead from its `k`-th call to the next. Then
  -- `measure`, unless the process ends, has called it exactly `warmup + n * batch` times, whatever the clock
  -- says, and prints the row of `n` samples.
  pub measure-Returns :
      (sort : (ℕ → ℕ) → ℕ → ℕ → ℕ) (warmup batch n : ℕ) (c : S)
      → P 0 c
      → Returns
          (IfAny (λ x.
            ((xs : List ℕ) × (length xs ≡ n) × (x.0 ≡ print_row sort (samples_of n xs)))
            × P (warmup + n * batch) x.1))
          (measure op sort warmup batch n c)
  unfolding measure samples_of
  measure-Returns sort warmup batch n c p =
      >>?-rule (P warmup) _ (repeat op warmup c) _
        (repeat-Returns warmup 0 warmup c (omega arith) p)
        (λ c' p'. (
          tt,
          λ m. elim (Bool-cases m.okay) [
            | inr e ↦ rw e tt
            | inl e ↦ rw e (
                >>?-rule (Taken n (n + 0) (warmup + n * batch)) _
                  (take_samples op batch n (samples_init n) c') _
                  (take_samples-Returns n batch n 0 warmup (warmup + n * batch) (samples_init n) c'
                    refl (([], refl, refl), p'))
                  (λ x t. ((t.0.0, omega (arith, t.0.1), ap (print_row sort) t.0.2), t.1)))
          ],
        ))
