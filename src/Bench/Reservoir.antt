-- ===== src/Bench/Reservoir.antt =====
-- What the samples of a row are.
use ps_msgr.Prelude.{
  ℕ, zero, suc, ◌+◌, ◌%◌, ◌^◌, ◌<◌, ◌≤◌, ◌≡◌, refl, subst, ap, ◌∙◌, Bool, true, false, List, [],
  ◌∷◌, ltb, ◌==◌, ==_iff, if◌then◌else◌, length, update, arith, Bool-cases, inl, inr,
}
use ps_msgr.Kernel.Resources.{is_in, is_in-head}
use ps_msgr.Bench.{Samples, samples_init, xorshift64, samples_keep, samples_add}

-- The samples behind the calls that added these, the last one first.
unfoldable pub samples_of : (cap : ℕ) → List ℕ → Samples
samples_of cap [] = samples_init cap
samples_of cap (x ∷ xs) = samples_add (samples_of cap xs) x

-- The first `n` entries, the last one first.
abbrev pub entries : (v : ℕ → ℕ) → (n : ℕ) → List ℕ
entries v zero = []
entries v (suc n) = v n ∷ entries v n

-- The samples stand for `xs`: the count is exact, all of `xs` lie between the minimum and the maximum,
-- the array is as full as it can be, its entries are among `xs`, and are all of them if they fit.
pub record IsReservoir (cap : ℕ) (xs : List ℕ) (s : Samples) : Type 0 where
  pub cap_ok : s.cap ≡ cap
  pub seen_ok : s.seen ≡ length xs
  pub n_ok : s.n ≡ (if ltb cap (length xs) then cap else length xs)
  pub least : (x : ℕ) → is_in x xs ≡ true → s.min ≤ x
  pub greatest : (x : ℕ) → is_in x xs ≡ true → x ≤ s.max
  pub among : (i : ℕ) → i < s.n → is_in (s.v i) xs ≡ true
  pub whole : length xs ≤ cap → entries s.v s.n ≡ xs

is_in-tail : (y x : ℕ) → (xs : List ℕ) → is_in y xs ≡ true → is_in y (x ∷ xs) ≡ true
is_in-tail y x xs e = elim (Bool-cases (y == x)) [
  | inl same ↦ rw same refl
  | inr other ↦ rw other e
]

-- One of two values, of which the one was added and the other is added now.
is_in-choice :
    (b : Bool)
    → (x y : ℕ) → (xs : List ℕ) → (b ≡ false → is_in y xs ≡ true)
    → is_in (if b then x else y) (x ∷ xs) ≡ true
is_in-choice true x y xs w = is_in-head x xs
is_in-choice false x y xs w = is_in-tail y x xs (w refl)

entries-update : (v : ℕ → ℕ) → (j x n : ℕ) → n ≤ j → entries (update v j x) n ≡ entries v n
entries-update v j x zero le = refl
entries-update v j x (suc n) le =
    rw (not_same j n (omega arith)) (ap (λ ys. v n ∷ ys) (entries-update v j x n (omega arith)))
  where
    not_same : (a b : ℕ) → b < a → (a == b) ≡ false
    not_same a b lt = ground arith

entries-add : (v : ℕ → ℕ) → (n x : ℕ) → entries (update v n x) (n + 1) ≡ x ∷ entries v n
entries-add v n x =
    ap (entries (update v n x)) {y = suc n} (omega arith)
    ∙ (rw ((==_iff n n).1 refl) (ap (λ ys. x ∷ ys) (entries-update v n x n (omega arith))))

least_next :
    (low x : ℕ)
    → (xs : List ℕ) → ((y : ℕ) → is_in y xs ≡ true → low ≤ y)
    → (y : ℕ) → is_in y (x ∷ xs) ≡ true
    → (if ltb x low then x else low) ≤ y
least_next low x xs w y e = elim (Bool-cases (y == x)) [
  | inl same ↦ ground arith
  | inr other ↦ ground (arith, w y (subst (λ b. (if b then true else is_in y xs) ≡ true) other e))
]

greatest_next :
    (high x : ℕ)
    → (xs : List ℕ) → ((y : ℕ) → is_in y xs ≡ true → y ≤ high)
    → (y : ℕ) → is_in y (x ∷ xs) ≡ true
    → y ≤ (if ltb high x then x else high)
greatest_next high x xs w y e = elim (Bool-cases (y == x)) [
  | inl same ↦ ground arith
  | inr other ↦ ground (arith, w y (subst (λ b. (if b then true else is_in y xs) ≡ true) other e))
]

samples_init-IsReservoir : (cap : ℕ) → IsReservoir cap [] (samples_init cap)
unfolding samples_init
samples_init-IsReservoir cap = record {
  cap_ok = refl;
  seen_ok = refl;
  n_ok = ground arith;
  least = λ x e. cc;
  greatest = λ x e. cc;
  among = λ i lt. absurd (omega arith);
  whole = λ _. refl;
}

samples_add-IsReservoir :
    (cap x : ℕ)
    → (xs : List ℕ) → (s : Samples) → length xs + 1 < 2 ^ 64
    → IsReservoir cap xs s
    → IsReservoir cap (x ∷ xs) (samples_add s x)
unfolding samples_add samples_keep
samples_add-IsReservoir cap x xs s hl r = elim (Bool-cases (ltb s.n s.cap)) [
  | inl room ↦ rw room (record {
    cap_ok = r.cap_ok;
    seen_ok = omega (arith, r.seen_ok);
    n_ok = ground (arith, r.n_ok, r.cap_ok, room);
    least = least_next s.min x xs r.least;
    greatest = greatest_next s.max x xs r.greatest;
    among = λ i lt. is_in-choice (s.n == i) x (s.v i) xs (λ other. r.among i (ground arith));
    whole = λ le. entries-add s.v s.n x ∙ ap (λ ys. x ∷ ys) (r.whole (omega arith));
  })
  | inr full ↦ rw full (elim (Bool-cases (ltb (xorshift64 s.rng % ((s.seen + 1) % 2 ^ 64)) s.cap)) [
    | inl drawn ↦ rw drawn (record {
      cap_ok = r.cap_ok;
      seen_ok = omega (arith, r.seen_ok);
      n_ok = ground (arith, r.n_ok, r.cap_ok, full);
      least = least_next s.min x xs r.least;
      greatest = greatest_next s.max x xs r.greatest;
      among = λ i lt.
          is_in-choice (xorshift64 s.rng % ((s.seen + 1) % 2 ^ 64) == i) x (s.v i) xs
            (λ _. r.among i lt);
      whole = λ le. absurd (ground (arith, r.n_ok, r.cap_ok, full, le));
    })
    | inr spared ↦ rw spared (record {
      cap_ok = r.cap_ok;
      seen_ok = omega (arith, r.seen_ok);
      n_ok = ground (arith, r.n_ok, r.cap_ok, full);
      least = least_next s.min x xs r.least;
      greatest = greatest_next s.max x xs r.greatest;
      among = λ i lt. is_in-tail (s.v i) x xs (r.among i lt);
      whole = λ le. absurd (ground (arith, r.n_ok, r.cap_ok, full, le));
    })
  ])
]

-- However many samples are added, as long as their count is a 64-bit word: the count is exact, the
-- minimum and the maximum bound every sample, the array holds as many samples as it has entries, each
-- one that was added, and while all of them fit it holds exactly them, in their order.
pub samples_of-IsReservoir :
    (cap : ℕ) → (xs : List ℕ) → length xs < 2 ^ 64 → IsReservoir cap xs (samples_of cap xs)
unfolding samples_of
samples_of-IsReservoir cap [] h = samples_init-IsReservoir cap
samples_of-IsReservoir cap (x ∷ xs) h =
    samples_add-IsReservoir cap x xs (samples_of cap xs) (omega arith)
      (samples_of-IsReservoir cap xs (omega arith))
