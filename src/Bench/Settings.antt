-- ===== src/Bench/Settings.antt =====
-- bench/psmsgr-bench.c: the command line. `getopt_long` gives the options one by one; it, `strtoul` and
-- `strtod` are arguments.
use ps_msgr.Prelude.{
  ℕ, ◌≤◌, ◌<◌, ◌^◌, ◌≡◌, ◌≢◌, ◌&&◌, not, ◌-◌, ◌⊎◌, Bool, true, false, Option, none, some, List, [],
  ◌∷◌, if◌then◌else◌,
}
use ps_msgr.Floating.{Double, Read, is_positive, is_at_most, IsWithin}
use ps_msgr.Bench.{Parsed, is_end, parse_u32, parse_rate}

pub data Item : Type 0 where
  iterations warmup batch rate poll_us dir seconds : (text : List ℕ) → Item
  csv help unknown : Item

pub record Settings : Type 0 where
  pub iterations : ℕ
  pub warmup : ℕ
  pub batch : ℕ
  pub seconds : Double
  pub rate : ℕ
  pub poll_us : ℕ
  pub base : Option (List ℕ)
  pub csv : Bool

abbrev pub default_settings : Settings
default_settings = record {
  iterations = 100000;
  warmup = 1000;
  batch = 1;
  seconds = Double.finite false 5 0;
  rate = 500;
  poll_us = 100;
  base = none;
  csv = false;
}

-- Run with the settings, or exit with this status.
pub data Parsing : Type 0 where
  run : Settings → Parsing
  exit : (status : ℕ) → Parsing

module _ (strtoul : List ℕ → Parsed) (strtod : List ℕ → Read) where
  -- An option whose value is not valid ends the parsing with 2.
  unfoldable pub with_value : {A : Type 0} → Option A → (A → Settings) → Parsing
  with_value none f = Parsing.exit 2
  with_value (some v) f = Parsing.run (f v)

  -- `end != optarg && *end == '\0' && seconds > 0 && seconds <= 3600`
  unfoldable pub parse_seconds : List ℕ → Option Double
  parse_seconds t =
      if not (strtod t).nothing
        && is_end (strtod t).rest
        && is_positive (strtod t).value
        && is_at_most (strtod t).value 3600
      then some (strtod t).value
      else none

  unfoldable pub parse_item : Settings → Item → Parsing
  parse_item s (Item.iterations t) =
      with_value (parse_u32 strtoul t 1) (λ v. record s { iterations = v })
  parse_item s (Item.warmup t) = with_value (parse_u32 strtoul t 0) (λ v. record s { warmup = v })
  parse_item s (Item.batch t) = with_value (parse_u32 strtoul t 1) (λ v. record s { batch = v })
  parse_item s (Item.rate t) = with_value (parse_rate strtoul t) (λ v. record s { rate = v })
  parse_item s (Item.poll_us t) = with_value (parse_u32 strtoul t 0) (λ v. record s { poll_us = v })
  parse_item s (Item.dir t) = Parsing.run (record s { base = some t })
  parse_item s (Item.seconds t) = with_value (parse_seconds t) (λ v. record s { seconds = v })
  parse_item s Item.csv = Parsing.run (record s { csv = true })
  parse_item s Item.help = Parsing.exit 0
  parse_item s Item.unknown = Parsing.exit 2

  -- `extra` says that arguments are left behind the options.
  unfoldable pub parse_from : Settings → List Item → (extra : Bool) → Parsing
  parse_from s [] extra = if extra then Parsing.exit 2 else Parsing.run s
  parse_from s (i ∷ is) extra = elim (parse_item s i) [
    | Parsing.exit status ↦ Parsing.exit status
    | Parsing.run s' ↦ parse_from s' is extra
  ]

  unfoldable pub parse_options : List Item → (extra : Bool) → Parsing
  parse_options = parse_from default_settings

  -- What the rest of the program relies on.
  pub record IsLegal (s : Settings) : Type 0 where
    pub some_samples : (0 < s.iterations) × (s.iterations < 2 ^ 32)
    pub some_operations : (0 < s.batch) × (s.batch < 2 ^ 32)
    pub some_warmup : s.warmup < 2 ^ 32
    pub rate_ok : (0 < s.rate) × (s.rate ≤ 1000000)
    pub interval_ok : s.poll_us < 2 ^ 32
    pub seconds_ok : IsWithin 3600 s.seconds

  -- A number from `least` to `most`, up to the end of the text.
  abbrev pub IsNumber : (least most : ℕ) → List ℕ → Type 0
  IsNumber least most t =
      ((strtoul t).failed ≡ false)
      × ((strtoul t).nothing ≡ false)
      × ((strtoul t).rest ≡ [])
      × (least ≤ (strtoul t).value)
      × ((strtoul t).value ≤ most)

  -- An option with a value that it can have; --help is none of these.
  abbrev pub IsValid : Item → Type 0
  IsValid (Item.iterations t) = IsNumber 1 (2 ^ 32 - 1) t
  IsValid (Item.warmup t) = IsNumber 0 (2 ^ 32 - 1) t
  IsValid (Item.batch t) = IsNumber 1 (2 ^ 32 - 1) t
  IsValid (Item.rate t) = IsNumber 1 1000000 t
  IsValid (Item.poll_us t) = IsNumber 0 (2 ^ 32 - 1) t
  IsValid (Item.dir t) = Unit
  IsValid (Item.seconds t) =
      ((strtod t).nothing ≡ false) × ((strtod t).rest ≡ []) × IsWithin 3600 (strtod t).value
  IsValid Item.csv = Unit
  IsValid Item.help = ⊥
  IsValid Item.unknown = ⊥

  -- Valid options only, and nothing left over.
  abbrev pub AllValid : List Item → (extra : Bool) → Type 0
  AllValid [] extra = extra ≡ false
  AllValid (i ∷ is) extra = IsValid i × AllValid is extra

  -- Behind valid options comes --help.
  abbrev pub AsksHelp : List Item → Type 0
  AsksHelp [] = ⊥
  AsksHelp (i ∷ is) = (i ≡ Item.help) ⊎ (IsValid i × AsksHelp is)

  -- Behind valid options comes one that is not, and is not --help; or something is left over.
  abbrev pub IsWrong : List Item → (extra : Bool) → Type 0
  IsWrong [] extra = extra ≡ true
  IsWrong (i ∷ is) extra = ((i ≢ Item.help) × (¬ IsValid i)) ⊎ (IsValid i × IsWrong is extra)

  abbrev pub IsLegalRun : List Item → (extra : Bool) → Parsing → Type 0
  IsLegalRun is extra (Parsing.run s) = AllValid is extra × IsLegal s
  IsLegalRun is extra (Parsing.exit status) =
      ((status ≡ 0) × AsksHelp is) ⊎ ((status ≡ 2) × IsWrong is extra)
