-- ===== src/Bench/Legal.antt =====
-- bench/psmsgr-bench.c: what the parsing of the command line lets through.
use ps_msgr.Prelude.{
  ℕ, ◌≡◌, ◌≢◌, ◌⊎◌, refl, Bool, true, false, Option, none, some, List, [], ◌∷◌, inl, inr, arith,
}
use ps_msgr.Floating.{Read}
use ps_msgr.Bench.{Parsed}
use ps_msgr.Bench.Settings.{
  Item, Settings, default_settings, Parsing, with_value, parse_item, parse_from, parse_options,
  IsLegal, IsValid, IsLegalRun,
}
use ps_msgr.Bench.Values.{
  parse_u32-some, parse_u32-none, parse_rate-some, parse_rate-none, parse_seconds-some,
  parse_seconds-none,
}

module _ (strtoul : List ℕ → Parsed) (strtod : List ℕ → Read) where
  -- What one option does.
  abbrev Judged : Item → Parsing → Type 0
  Judged i (Parsing.run s) = IsValid strtoul strtod i × IsLegal strtoul strtod s
  Judged i (Parsing.exit status) =
      ((status ≡ 0) × (i ≡ Item.help))
      ⊎ ((status ≡ 2) × (i ≢ Item.help) × (¬ IsValid strtoul strtod i))

  with_value-Judged :
      {A : Type 0} (i : Item) (o : Option A) (f : A → Settings)
      → i ≢ Item.help
      → ((v : A) → o ≡ some v → IsValid strtoul strtod i × IsLegal strtoul strtod (f v))
      → (o ≡ none → ¬ IsValid strtoul strtod i)
      → Judged i (with_value strtoul strtod o f)
  unfolding with_value
  with_value-Judged i none f other good bad = inr (refl, other, bad refl)
  with_value-Judged i (some v) f other good bad = good v refl

  parse_item-Judged :
      (s : Settings) (i : Item)
      → IsLegal strtoul strtod s
      → Judged i (parse_item strtoul strtod s i)
  unfolding parse_item
  parse_item-Judged s (Item.iterations t) l =
      with_value-Judged (Item.iterations t) _ _ (λ e. cc)
        (λ v e.
          let n = parse_u32-some strtoul strtod t 1 v e in
          (
            n.0,
            record {
              some_samples = (n.1, n.2);
              some_operations = l.some_operations;
              some_warmup = l.some_warmup;
              rate_ok = l.rate_ok;
              interval_ok = l.interval_ok;
              seconds_ok = l.seconds_ok;
            },
          ))
        (parse_u32-none strtoul strtod t 1)
  parse_item-Judged s (Item.warmup t) l =
      with_value-Judged (Item.warmup t) _ _ (λ e. cc)
        (λ v e.
          let n = parse_u32-some strtoul strtod t 0 v e in
          (
            n.0,
            record {
              some_samples = l.some_samples;
              some_operations = l.some_operations;
              some_warmup = n.2;
              rate_ok = l.rate_ok;
              interval_ok = l.interval_ok;
              seconds_ok = l.seconds_ok;
            },
          ))
        (parse_u32-none strtoul strtod t 0)
  parse_item-Judged s (Item.batch t) l =
      with_value-Judged (Item.batch t) _ _ (λ e. cc)
        (λ v e.
          let n = parse_u32-some strtoul strtod t 1 v e in
          (
            n.0,
            record {
              some_samples = l.some_samples;
              some_operations = (n.1, n.2);
              some_warmup = l.some_warmup;
              rate_ok = l.rate_ok;
              interval_ok = l.interval_ok;
              seconds_ok = l.seconds_ok;
            },
          ))
        (parse_u32-none strtoul strtod t 1)
  parse_item-Judged s (Item.rate t) l =
      with_value-Judged (Item.rate t) _ _ (λ e. cc)
        (λ v e.
          let n = parse_rate-some strtoul strtod t v e in
          (
            n.0,
            record {
              some_samples = l.some_samples;
              some_operations = l.some_operations;
              some_warmup = l.some_warmup;
              rate_ok = (n.1, n.2);
              interval_ok = l.interval_ok;
              seconds_ok = l.seconds_ok;
            },
          ))
        (parse_rate-none strtoul strtod t)
  parse_item-Judged s (Item.poll_us t) l =
      with_value-Judged (Item.poll_us t) _ _ (λ e. cc)
        (λ v e.
          let n = parse_u32-some strtoul strtod t 0 v e in
          (
            n.0,
            record {
              some_samples = l.some_samples;
              some_operations = l.some_operations;
              some_warmup = l.some_warmup;
              rate_ok = l.rate_ok;
              interval_ok = n.2;
              seconds_ok = l.seconds_ok;
            },
          ))
        (parse_u32-none strtoul strtod t 0)
  parse_item-Judged s (Item.dir t) l = (
    tt,
    record {
      some_samples = l.some_samples;
      some_operations = l.some_operations;
      some_warmup = l.some_warmup;
      rate_ok = l.rate_ok;
      interval_ok = l.interval_ok;
      seconds_ok = l.seconds_ok;
    },
  )
  parse_item-Judged s (Item.seconds t) l =
      with_value-Judged (Item.seconds t) _ _ (λ e. cc)
        (λ v e.
          let n = parse_seconds-some strtoul strtod t v e in
          (
            n.0,
            record {
              some_samples = l.some_samples;
              some_operations = l.some_operations;
              some_warmup = l.some_warmup;
              rate_ok = l.rate_ok;
              interval_ok = l.interval_ok;
              seconds_ok = n.1;
            },
          ))
        (parse_seconds-none strtoul strtod t)
  parse_item-Judged s Item.csv l = (
    tt,
    record {
      some_samples = l.some_samples;
      some_operations = l.some_operations;
      some_warmup = l.some_warmup;
      rate_ok = l.rate_ok;
      interval_ok = l.interval_ok;
      seconds_ok = l.seconds_ok;
    },
  )
  parse_item-Judged s Item.help l = inl (refl, refl)
  parse_item-Judged s Item.unknown l = inr (refl, λ e. cc, λ v. v)

  -- One option, and then the rest.
  one_option :
      (i : Item) (is : List Item) (extra : Bool) (p : Parsing) (rest : Settings → Parsing)
      → Judged i p
      → ((s : Settings) → IsLegal strtoul strtod s → IsLegalRun strtoul strtod is extra (rest s))
      → IsLegalRun strtoul strtod
          (i ∷ is)
          extra
          (elim p [ Parsing.exit status ↦ Parsing.exit status | Parsing.run s' ↦ rest s' ])
  one_option i is extra (Parsing.exit status) rest (inl (z, h)) next = inl (z, inl h)
  one_option i is extra (Parsing.exit status) rest (inr (z, other, bad)) next =
      inr (z, inl (other, bad))
  one_option i is extra (Parsing.run s) rest j next = all (rest s) (next s j.1)
    where
      all :
          (p : Parsing)
          → IsLegalRun strtoul strtod is extra p
          → IsLegalRun strtoul strtod (i ∷ is) extra p
      all (Parsing.run s') (v, l) = ((j.0, v), l)
      all (Parsing.exit status) (inl (z, h)) = inl (z, inr (j.0, h))
      all (Parsing.exit status) (inr (z, w)) = inr (z, inr (j.0, w))

  parse_from-IsLegal :
      (s : Settings) (is : List Item) (extra : Bool)
      → IsLegal strtoul strtod s
      → IsLegalRun strtoul strtod is extra (parse_from strtoul strtod s is extra)
  unfolding parse_from
  parse_from-IsLegal s [] true l = inr (refl, refl)
  parse_from-IsLegal s [] false l = (refl, l)
  parse_from-IsLegal s (i ∷ is) extra l =
      one_option i is extra (parse_item strtoul strtod s i)
        (λ s'. parse_from strtoul strtod s' is extra) (parse_item-Judged s i l)
        (λ s' l'. parse_from-IsLegal s' is extra l')

  -- Whatever options are given, in whatever order and however often: the program exits with 0 exactly if
  -- --help comes behind valid options only; with 2 exactly if, behind valid options only, there comes
  -- another one with an invalid value or an unknown one, or if something is left over behind them; and
  -- else runs with settings that are legal: at least one sample and one operation per sample, a rate from
  -- 1 to 1000000, a duration above 0 and of an hour at most, and 32-bit words throughout.
  pub parse_options-IsLegal :
      (is : List Item) (extra : Bool)
      → IsLegalRun strtoul strtod is extra (parse_options strtoul strtod is extra)
  unfolding parse_options
  parse_options-IsLegal is extra = parse_from-IsLegal default_settings is extra (record {
    some_samples = (omega arith, omega arith);
    some_operations = (omega arith, omega arith);
    some_warmup = omega arith;
    rate_ok = (omega arith, omega arith);
    interval_ok = omega arith;
    seconds_ok = (omega arith, omega arith);
  })
