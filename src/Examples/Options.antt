-- ===== src/Examples/Options.antt =====
-- examples/c: the command lines of motor_writer.c and motor_reader.c, as `getopt_long` gives their options one
-- by one. `strtoull`, `strtol` and `strtod` are arguments: the number, and the text behind it.
-- `(uint64_t)(1e9 / rate)` is an argument of the rate.
use ps_msgr.Floating.{Double, Read, is_positive}
use ps_msgr.Prelude.{
  ℕ, ◌-◌, ◌<◌, ◌^◌, inl, inr, Bool, true, false, ◌||◌, ◌&&◌, not, ltb, ◌==◌, Option, none, some,
  List, [], ◌∷◌, if◌then◌else◌, Bool-cases, arith,
}

-- `--rate` is the writer's, `--timeout` the reader's; `unknown` is an option that the program does not have.
pub data MotorItem : Type 0 where
  dir_is count_is rate_is timeout_is : (text : List ℕ) → MotorItem
  unknown : MotorItem

abbrev pub is_done : List ℕ → Bool
is_done [] = true
is_done (c ∷ cs) = false

pub record WriterSettings : Type 0 where
  pub dir : Option (List ℕ)
  pub rate : Double
  pub count : ℕ

abbrev pub writer_defaults : WriterSettings
writer_defaults = record { dir = none; rate = Double.finite false 10 0; count = 0 }

pub record ReaderSettings : Type 0 where
  pub dir : Option (List ℕ)
  pub count : ℕ
  pub timeout_ms : Option ℕ

-- A timeout below 0 is none.
abbrev pub reader_defaults : ReaderSettings
reader_defaults = record { dir = none; count = 0; timeout_ms = some 300 }

abbrev pub is_legal : (timeout_ms : ℕ) → Bool
is_legal timeout_ms = not (timeout_ms == 0) && not (ltb (2 ^ 31 - 1) timeout_ms)

module _ (strtoull : List ℕ → ℕ × List ℕ) where
  -- none is `usage`, which exits with 2. `extra` says that arguments are left.
  module _ (strtod : List ℕ → Read) where
    unfoldable pub writer_options :
        WriterSettings → List MotorItem → (extra : Bool) → Option WriterSettings
    writer_options s [] extra = if extra || not (is_positive s.rate) then none else some s
    writer_options s (MotorItem.dir_is text ∷ is) extra =
        writer_options (record s { dir = some text }) is extra
    writer_options s (MotorItem.count_is text ∷ is) extra =
        let rest : Option WriterSettings =
          writer_options (record s { count = (strtoull text).0 }) is extra in
        if is_done (strtoull text).1 then rest else none
    writer_options s (MotorItem.rate_is text ∷ is) extra =
        let rest : Option WriterSettings =
          writer_options (record s { rate = (strtod text).value }) is extra in
        if is_done (strtod text).rest then rest else none
    writer_options s (MotorItem.timeout_is text ∷ is) extra = none
    writer_options s (MotorItem.unknown ∷ is) extra = none

  module _ (strtol : List ℕ → Option ℕ × List ℕ) where
    unfoldable pub reader_options :
        ReaderSettings → List MotorItem → (extra : Bool) → Option (ReaderSettings × ℕ)
    reader_options s [] extra = elim s.timeout_ms [
      | none ↦ none
      | some ms ↦ if extra || not (is_legal ms) then none else some (s, ms)
    ]
    reader_options s (MotorItem.dir_is text ∷ is) extra =
        reader_options (record s { dir = some text }) is extra
    reader_options s (MotorItem.count_is text ∷ is) extra =
        let rest : Option (ReaderSettings × ℕ) =
          reader_options (record s { count = (strtoull text).0 }) is extra in
        if is_done (strtoull text).1 then rest else none
    reader_options s (MotorItem.timeout_is text ∷ is) extra =
        let rest : Option (ReaderSettings × ℕ) =
          reader_options (record s { timeout_ms = (strtol text).0 }) is extra in
        if is_done (strtol text).1 then rest else none
    reader_options s (MotorItem.rate_is text ∷ is) extra = none
    reader_options s (MotorItem.unknown ∷ is) extra = none

    abbrev Fits : Option (ReaderSettings × ℕ) → Type 0
    Fits none = Unit
    Fits (some (s, ms)) = (0 < ms) × (ms < 2 ^ 31)

    tested : (b : Bool) (o : Option (ReaderSettings × ℕ)) → Fits o → Fits (if b then o else none)
    tested true o f = f
    tested false o f = tt

    -- A timeout that is accepted is positive, and no conversion to `int32_t` changes it.
    reader_options-Fits :
        (s : ReaderSettings) (is : List MotorItem) (extra : Bool) → Fits (reader_options s is extra)
    unfolding reader_options
    reader_options-Fits s [] extra = at_end s.timeout_ms
      where
        at_end :
            (o : Option ℕ)
            → Fits (elim o [
              | none ↦ none
              | some ms ↦ if extra || not (is_legal ms) then none else some (s, ms)
            ])
        at_end none = tt
        at_end (some ms) = elim (Bool-cases (extra || not (is_legal ms))) [
          | inl e ↦ rw e tt
          | inr e ↦ rw e (ground arith, ground arith)
        ]
    reader_options-Fits s (MotorItem.dir_is text ∷ is) extra =
        reader_options-Fits (record s { dir = some text }) is extra
    reader_options-Fits s (MotorItem.count_is text ∷ is) extra =
        tested _ _ (reader_options-Fits (record s { count = (strtoull text).0 }) is extra)
    reader_options-Fits s (MotorItem.timeout_is text ∷ is) extra =
        tested _ _ (reader_options-Fits (record s { timeout_ms = (strtol text).0 }) is extra)
    reader_options-Fits s (MotorItem.rate_is text ∷ is) extra = tt
    reader_options-Fits s (MotorItem.unknown ∷ is) extra = tt
