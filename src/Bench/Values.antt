-- ===== src/Bench/Values.antt =====
-- bench/psmsgr-bench.c: which values of the options are accepted.
use ps_msgr.Prelude.{
  ℕ, ◌-◌, ◌≤◌, ◌<◌, ◌^◌, ◌≡◌, ◌≢◌, refl, subst, true, false, none, some, List, [], ◌∷◌, arith, ◌&&◌,
}
use ps_msgr.Floating.{Double, Read, is_positive, is_at_most, IsWithin}
use ps_msgr.Bench.{Parsed, is_end, parse_u32, parse_rate}
use ps_msgr.Bench.Settings.{Item, parse_seconds, IsNumber, IsValid}

at_end : (t : List ℕ) → is_end t ≡ true → t ≡ []
at_end [] e = refl
at_end (c ∷ cs) e = cc

not_at_end : (t : List ℕ) → is_end t ≡ false → t ≢ []
not_at_end [] e k = cc
not_at_end (c ∷ cs) e k = cc

-- The two comparisons are those of a number above 0, and not above `most`.
tests-IsWithin :
    (x : Double) (most : ℕ) → (is_positive x && is_at_most x most) ≡ true → IsWithin most x
tests-IsWithin Double.nan most e = cc
tests-IsWithin (Double.infinite true) most e = cc
tests-IsWithin (Double.infinite false) most e = cc
tests-IsWithin (Double.finite true n k) most e = cc
tests-IsWithin (Double.finite false n k) most e = (ground arith, ground arith)

IsWithin-tests :
    (x : Double) (most : ℕ) → IsWithin most x → (is_positive x && is_at_most x most) ≡ true
IsWithin-tests Double.nan most w = absurd w
IsWithin-tests (Double.infinite negative) most w = absurd w
IsWithin-tests (Double.finite true n k) most w = absurd w
IsWithin-tests (Double.finite false n k) most w = ground (arith, w.0, w.1)

module _ (strtoul : List ℕ → Parsed) (strtod : List ℕ → Read) where
  pub parse_u32-some :
      (t : List ℕ) (least v : ℕ)
      → parse_u32 strtoul t least ≡ some v
      → IsNumber strtoul strtod least (2 ^ 32 - 1) t × (least ≤ v) × (v < 2 ^ 32)
  unfolding parse_u32
  parse_u32-some t least v e =
      let ended : is_end (strtoul t).rest ≡ true = ground arith in
      (
        (ground arith, ground arith, at_end _ ended, ground arith, ground arith),
        ground arith,
        ground arith,
      )

  pub parse_u32-none :
      (t : List ℕ) (least : ℕ)
      → parse_u32 strtoul t least ≡ none
      → ¬ IsNumber strtoul strtod least (2 ^ 32 - 1) t
  unfolding parse_u32
  parse_u32-none t least e (a, b, c, d, f) =
      let ended : is_end (strtoul t).rest ≡ true = rw c refl in absurd (ground (arith, ended))

  pub parse_rate-some :
      (t : List ℕ) (v : ℕ)
      → parse_rate strtoul t ≡ some v
      → IsNumber strtoul strtod 1 1000000 t × (0 < v) × (v ≤ 1000000)
  unfolding parse_rate parse_u32
  parse_rate-some t v e =
      let ended : is_end (strtoul t).rest ≡ true = ground arith in
      (
        (ground arith, ground arith, at_end _ ended, ground arith, ground arith),
        ground arith,
        ground arith,
      )

  pub parse_rate-none :
      (t : List ℕ) → parse_rate strtoul t ≡ none → ¬ IsNumber strtoul strtod 1 1000000 t
  unfolding parse_rate parse_u32
  parse_rate-none t e (a, b, c, d, f) =
      let ended : is_end (strtoul t).rest ≡ true = rw c refl in absurd (ground (arith, ended))

  abbrev pub IsDuration : List ℕ → Type 0
  IsDuration t = IsValid strtoul strtod (Item.seconds t)

  pub parse_seconds-some :
      (t : List ℕ) (v : Double)
      → parse_seconds strtoul strtod t ≡ some v
      → IsDuration t × IsWithin 3600 v
  unfolding parse_seconds
  parse_seconds-some t v e =
      let ended : is_end (strtod t).rest ≡ true = ground arith in
      let tested : (is_positive (strtod t).value && is_at_most (strtod t).value 3600) ≡ true =
        ground arith in
      let within : IsWithin 3600 (strtod t).value = tests-IsWithin (strtod t).value 3600 tested in
      let same : (strtod t).value ≡ v = ground arith in
      ((ground arith, at_end _ ended, within), subst (IsWithin 3600) same within)

  pub parse_seconds-none : (t : List ℕ) → parse_seconds strtoul strtod t ≡ none → ¬ IsDuration t
  unfolding parse_seconds
  parse_seconds-none t e (a, b, c) =
      let ended : is_end (strtod t).rest ≡ true = rw b refl in
      let tested = IsWithin-tests (strtod t).value 3600 c in absurd (ground (arith, ended, tested))
