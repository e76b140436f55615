-- ===== src/Examples/Commands.antt =====
-- examples/c: the two programs from their command lines on.
use ps_msgr.Prelude.{
  ℕ, ◌<◌, ◌≤◌, ◌^◌, ◌≡◌, ◌⊎◌, refl, inl, inr, Bool, true, false, ◌||◌, not, Option, none, some,
  List, [], ◌∷◌, if◌then◌else◌, Bool-cases, arith,
}
use ps_msgr.Floating.{Double, Read, is_positive, IsAbove}
use ps_msgr.Reader.{Info}
use ps_msgr.Kernel.{Prog, ret}
use ps_msgr.Kernel.Resources.{Held, Ensures, Ensures-mono}
use ps_msgr.Lock.Discipline.{bare}
use ps_msgr.Examples.MotorWriter.{MotorStatus, motor_writer}
use ps_msgr.Examples.MotorReader.{Message, motor_reader}
use ps_msgr.Examples.Options.{
  MotorItem, is_done, is_legal, WriterSettings, writer_defaults, ReaderSettings, reader_defaults,
  writer_options, reader_options,
}
use ps_msgr.Examples.Shutdown.{motor_writer-Ensures}
use ps_msgr.Examples.Reading.{values, Exits, motor_reader-Ensures}

is_done-nil : (text : List ℕ) → is_done text ≡ true → text ≡ []
is_done-nil [] e = refl
is_done-nil (c ∷ cs) e = cc

not_done-nil : (text : List ℕ) → is_done text ≡ false → text ≡ [] → ⊥
not_done-nil [] e k = cc
not_done-nil (c ∷ cs) e k = cc

positive-IsAbove : (x : Double) → is_positive x ≡ true → IsAbove x
positive-IsAbove Double.nan e = cc
positive-IsAbove (Double.infinite true) e = cc
positive-IsAbove (Double.infinite false) e = tt
positive-IsAbove (Double.finite true n k) e = cc
positive-IsAbove (Double.finite false n k) e = ground arith

IsAbove-positive : (x : Double) → IsAbove x → is_positive x ≡ true
IsAbove-positive Double.nan a = absurd a
IsAbove-positive (Double.infinite true) a = absurd a
IsAbove-positive (Double.infinite false) a = refl
IsAbove-positive (Double.finite true n k) a = absurd a
IsAbove-positive (Double.finite false n k) a = ground arith

-- Settings that are given exactly if the command line is one of the program's, with this count.
abbrev Judged : {S : Type 0} → (S → ℕ) → (C : Type 0) → (count : ℕ) → Option S → Type 0
Judged count_of C count none = ¬ C
Judged count_of C count (some s) = C × (count_of s ≡ count)

-- One argument more, which is to be a number up to its end.
judged :
    {S : Type 0} (count_of : S → ℕ) (C : Type 0) (count : ℕ) (text : List ℕ) (o : Option S)
    → Judged count_of C count o
    → Judged count_of ((text ≡ []) × C) count (if is_done text then o else none)
judged count_of C count text none j = elim (Bool-cases (is_done text)) [
  | inl e ↦ rw e (λ c. j c.1)
  | inr e ↦ rw e (λ c. j c.1)
]
judged count_of C count text (some s) j = elim (Bool-cases (is_done text)) [
  | inl e ↦ rw e ((is_done-nil text e, j.0), j.1)
  | inr e ↦ rw e (λ c. not_done-nil text e c.0)
]

module _ (strtoull : List ℕ → ℕ × List ℕ) where
  -- The count: the last one that is given, else `count`.
  abbrev pub last_count : (count : ℕ) → List MotorItem → ℕ
  last_count count [] = count
  last_count count (MotorItem.count_is text ∷ is) = last_count (strtoull text).0 is
  last_count count (MotorItem.dir_is _ ∷ is) = last_count count is
  last_count count (MotorItem.rate_is _ ∷ is) = last_count count is
  last_count count (MotorItem.timeout_is _ ∷ is) = last_count count is
  last_count count (MotorItem.unknown ∷ is) = last_count count is

  last_count-word :
      ((text : List ℕ) → (strtoull text).0 < 2 ^ 64)
      → (count : ℕ) → count < 2 ^ 64
      → (is : List MotorItem) → last_count count is < 2 ^ 64
  last_count-word words count h [] = h
  last_count-word words count h (MotorItem.count_is text ∷ is) =
      last_count-word words (strtoull text).0 (words text) is
  last_count-word words count h (MotorItem.dir_is _ ∷ is) = last_count-word words count h is
  last_count-word words count h (MotorItem.rate_is _ ∷ is) = last_count-word words count h is
  last_count-word words count h (MotorItem.timeout_is _ ∷ is) = last_count-word words count h is
  last_count-word words count h (MotorItem.unknown ∷ is) = last_count-word words count h is

  module _ (strtod : List ℕ → Read) where
    -- A command line of motor_writer: its options only, every number read up to its end, nothing left
    -- over, and the last rate, `rate` if none is given, above 0.
    abbrev pub IsWriterLine : (rate : Double) → List MotorItem → (extra : Bool) → Type 0
    IsWriterLine rate [] extra = (extra ≡ false) × IsAbove rate
    IsWriterLine rate (MotorItem.dir_is _ ∷ is) extra = IsWriterLine rate is extra
    IsWriterLine rate (MotorItem.count_is text ∷ is) extra =
        ((strtoull text).1 ≡ []) × IsWriterLine rate is extra
    IsWriterLine rate (MotorItem.rate_is text ∷ is) extra =
        ((strtod text).rest ≡ []) × IsWriterLine (strtod text).value is extra
    IsWriterLine rate (MotorItem.timeout_is _ ∷ is) extra = ⊥
    IsWriterLine rate (MotorItem.unknown ∷ is) extra = ⊥

    writer_options-Judged :
        (s : WriterSettings) (is : List MotorItem) (extra : Bool)
        → Judged
            (λ x. x.count)
            (IsWriterLine s.rate is extra)
            (last_count s.count is)
            (writer_options strtoull strtod s is extra)
    unfolding writer_options
    writer_options-Judged s [] true = λ c. cc
    writer_options-Judged s [] false = elim (Bool-cases (is_positive s.rate)) [
      | inl e ↦ rw e ((refl, positive-IsAbove s.rate e), refl)
      | inr e ↦ rw e (λ c. cc (IsAbove-positive s.rate c.1, e))
    ]
    writer_options-Judged s (MotorItem.dir_is text ∷ is) extra =
        writer_options-Judged (record s { dir = some text }) is extra
    writer_options-Judged s (MotorItem.count_is text ∷ is) extra =
        judged (λ x. x.count) _ _ (strtoull text).1 _
          (writer_options-Judged (record s { count = (strtoull text).0 }) is extra)
    writer_options-Judged s (MotorItem.rate_is text ∷ is) extra =
        judged (λ x. x.count) _ _ (strtod text).rest _
          (writer_options-Judged (record s { rate = (strtod text).value }) is extra)
    writer_options-Judged s (MotorItem.timeout_is text ∷ is) extra = λ c. c
    writer_options-Judged s (MotorItem.unknown ∷ is) extra = λ c. c

    module _ (encode : MotorStatus → ℕ → ℕ) (period_of_rate : Double → ℕ) where
      abbrev writer_with :
          (own size rounds : ℕ) (env : Option (List ℕ))
          → Option WriterSettings
          → Prog (ℕ × List MotorStatus)
      writer_with own size rounds env none = ret (2, [])
      writer_with own size rounds env (some s) =
          motor_writer encode (period_of_rate s.rate) s.count own size rounds s.dir env

      -- `period_of_rate` is `(uint64_t)(1e9 / rate)`.
      unfoldable pub motor_writer_main :
          (own size rounds : ℕ) (env : Option (List ℕ)) (items : List MotorItem) (extra : Bool)
          → Prog (ℕ × List MotorStatus)
      motor_writer_main own size rounds env items extra =
          writer_with own size rounds env
            (writer_options strtoull strtod writer_defaults items extra)

      module _ (fds maps : List ℕ) where
        writer_with-Ensures :
            (own size rounds : ℕ) (env : Option (List ℕ)) (C : Type 0) (count : ℕ)
            (o : Option WriterSettings)
            → Judged (λ x. x.count) C count o
            → Ensures
                (λ h x. (h ≡ bare fds maps) × (((x.0 ≡ 2) × (¬ C)) ⊎ ((x.0 ≤ 1) × C)))
                (bare fds maps)
                (writer_with own size rounds env o)
        writer_with-Ensures own size rounds env C count none j = (refl, inl (refl, j))
        writer_with-Ensures own size rounds env C count (some s) j =
            Ensures-mono (λ h x. (h ≡ bare fds maps) × (x.0 ≤ 1)) _ (bare fds maps) _
              (λ h x r. (r.0, inr (r.1, j.0)))
              (motor_writer-Ensures encode (period_of_rate s.rate) s.count fds maps own size rounds
                s.dir env)

        -- Whatever its command line, whatever the kernel answers, whenever the signal comes and however
        -- long it publishes, motor_writer makes no call on a closed descriptor or on unmapped memory, and
        -- has closed and unmapped all that it opened when it exits: with 2 exactly if the command line is
        -- not one of its own, and with 0 or 1 if it is.
        pub motor_writer_main-Ensures :
            (own size rounds : ℕ) (env : Option (List ℕ)) (items : List MotorItem) (extra : Bool)
            → Ensures
                (λ h x.
                  (h ≡ bare fds maps)
                  × (((x.0 ≡ 2) × (¬ IsWriterLine (Double.finite false 10 0) items extra))
                      ⊎ ((x.0 ≤ 1) × IsWriterLine (Double.finite false 10 0) items extra)))
                (bare fds maps)
                (motor_writer_main own size rounds env items extra)
        unfolding motor_writer_main
        motor_writer_main-Ensures own size rounds env items extra =
            writer_with-Ensures own size rounds env _ _ _
              (writer_options-Judged writer_defaults items extra)

  module _ (strtol : List ℕ → Option ℕ × List ℕ) where
    -- A timeout of a millisecond or more that an `int32_t` holds.
    abbrev IsTimeout : Option ℕ → Type 0
    IsTimeout none = ⊥
    IsTimeout (some ms) = (0 < ms) × (ms < 2 ^ 31)

    -- A command line of motor_reader: its options only, every number read up to its end, nothing left
    -- over, and the last timeout, `timeout` if none is given, is legal.
    abbrev pub IsReaderLine : (timeout : Option ℕ) → List MotorItem → (extra : Bool) → Type 0
    IsReaderLine timeout [] extra = (extra ≡ false) × IsTimeout timeout
    IsReaderLine timeout (MotorItem.dir_is _ ∷ is) extra = IsReaderLine timeout is extra
    IsReaderLine timeout (MotorItem.count_is text ∷ is) extra =
        ((strtoull text).1 ≡ []) × IsReaderLine timeout is extra
    IsReaderLine timeout (MotorItem.timeout_is text ∷ is) extra =
        ((strtol text).1 ≡ []) × IsReaderLine (strtol text).0 is extra
    IsReaderLine timeout (MotorItem.rate_is _ ∷ is) extra = ⊥
    IsReaderLine timeout (MotorItem.unknown ∷ is) extra = ⊥

    at_end-Judged :
        (s : ReaderSettings) (extra : Bool) (o : Option ℕ)
        → Judged
            (λ (x : ReaderSettings × ℕ). x.0.count)
            ((extra ≡ false) × IsTimeout o)
            s.count
            (elim o [
              | none ↦ none
              | some ms ↦ if extra || not (is_legal ms) then none else some (s, ms)
            ])
    at_end-Judged s extra none = λ c. c.1
    at_end-Judged s extra (some ms) = elim (Bool-cases (extra || not (is_legal ms))) [
      | inl e ↦ rw e (λ c. absurd (ground (arith, c.0, c.1.0, c.1.1, e)))
      | inr e ↦ rw e ((ground arith, (ground arith, ground arith)), refl)
    ]

    reader_options-Judged :
        (s : ReaderSettings) (is : List MotorItem) (extra : Bool)
        → Judged
            (λ (x : ReaderSettings × ℕ). x.0.count)
            (IsReaderLine s.timeout_ms is extra)
            (last_count s.count is)
            (reader_options strtoull strtol s is extra)
    unfolding reader_options
    reader_options-Judged s [] extra = at_end-Judged s extra s.timeout_ms
    reader_options-Judged s (MotorItem.dir_is text ∷ is) extra =
        reader_options-Judged (record s { dir = some text }) is extra
    reader_options-Judged s (MotorItem.count_is text ∷ is) extra =
        judged (λ (x : ReaderSettings × ℕ). x.0.count) _ _ (strtoull text).1 _
          (reader_options-Judged (record s { count = (strtoull text).0 }) is extra)
    reader_options-Judged s (MotorItem.timeout_is text ∷ is) extra =
        judged (λ (x : ReaderSettings × ℕ). x.0.count) _ _ (strtol text).1 _
          (reader_options-Judged (record s { timeout_ms = (strtol text).0 }) is extra)
    reader_options-Judged s (MotorItem.rate_is text ∷ is) extra = λ c. c
    reader_options-Judged s (MotorItem.unknown ∷ is) extra = λ c. c

    module _ (before : Info) (junk : ℕ → ℕ) where
      abbrev reader_with :
          (size rounds : ℕ) (env : Option (List ℕ))
          → Option (ReaderSettings × ℕ)
          → Prog (ℕ × List Message)
      reader_with size rounds env none = ret (2, [])
      reader_with size rounds env (some (s, ms)) =
          motor_reader before junk ms s.count size rounds s.dir env

      unfoldable pub motor_reader_main :
          (size rounds : ℕ) (env : Option (List ℕ)) (items : List MotorItem) (extra : Bool)
          → Prog (ℕ × List Message)
      motor_reader_main size rounds env items extra =
          reader_with size rounds env (reader_options strtoull strtol reader_defaults items extra)

      module _ (fds maps : List ℕ) where
        -- `C` says that the command line is one of the program's, and `count` is the count that it gives.
        abbrev pub ReaderEnds : (C : Type 0) (count : ℕ) → Held → ℕ × List Message → Type 0
        ReaderEnds C count h x =
            (h ≡ bare fds maps)
            × (((x.0 ≡ 2) × (¬ C)) ⊎ ((x.0 ≤ 1) × C))
            × (0 < count → values x.1 ≤ count)

        reader_with-Ensures :
            (size rounds : ℕ) (env : Option (List ℕ)) (C : Type 0) (count : ℕ)
            (o : Option (ReaderSettings × ℕ))
            → count < 2 ^ 64
            → Judged (λ (x : ReaderSettings × ℕ). x.0.count) C count o
            → Ensures (ReaderEnds C count) (bare fds maps) (reader_with size rounds env o)
        reader_with-Ensures size rounds env C count none small j =
            (refl, inl (refl, j), λ _. omega arith)
        reader_with-Ensures size rounds env C count (some (s, ms)) small j =
            Ensures-mono (Exits fds maps before junk ms s.count (omega (arith, j.1, small))) _
              (bare fds maps) _
              (λ h x r.
                (r.0, inr (r.1, j.0), λ pos. omega (arith, j.1, r.2 (omega (arith, j.1, pos)))))
              (motor_reader-Ensures fds maps before junk ms s.count (omega (arith, j.1, small)) size
                rounds s.dir env)

        -- Whatever its command line, whatever the kernel answers, whenever the signal comes and however
        -- long it reads, motor_reader makes no call on a closed descriptor or on unmapped memory, has closed
        -- and unmapped all that it opened when it exits, and has printed no more values than the last
        -- `--count` says, if that is not 0. It exits with 2 exactly if the command line is not one of its
        -- own, and with 0 or 1 if it is. `strtoull` returns 64-bit words.
        pub motor_reader_main-Ensures :
            ((text : List ℕ) → (strtoull text).0 < 2 ^ 64)
            → (size rounds : ℕ) (env : Option (List ℕ)) (items : List MotorItem) (extra : Bool)
            → Ensures
                (ReaderEnds (IsReaderLine (some 300) items extra) (last_count 0 items))
                (bare fds maps)
                (motor_reader_main size rounds env items extra)
        unfolding motor_reader_main
        motor_reader_main-Ensures words size rounds env items extra =
            reader_with-Ensures size rounds env _ _ _ (last_count-word words 0 (omega arith) items)
              (reader_options-Judged reader_defaults items extra)
