-- ===== src/Tests/Clients.antt =====
-- The theorems on whole clients of the library, each at a concrete input.
use ps_msgr.Prelude.{
  ℕ, suc, ◌+◌, ◌/◌, ◌%◌, ◌^◌, ◌≤◌, ◌≡◌, refl, ap, Option, none, some, ◌⊎◌, true, false, [], ◌∷◌,
  List, length, arith,
}
use ps_msgr.Layout.{Header}
use ps_msgr.Memory.{File}
use ps_msgr.Writer.{Writer}
use ps_msgr.Reader.{Info}
use ps_msgr.System.{System}
use ps_msgr.System.Soundness.{IsSound}
use ps_msgr.System.Whole.{IsIdle}
use ps_msgr.Kernel.{ret}
use ps_msgr.Kernel.Resources.{Ensures}
use ps_msgr.Lock.Discipline.{bare}
use ps_msgr.Examples.MotorWriter.{MotorStatus, motor_status_v1, publish_loop}
use ps_msgr.Examples.Publishing.{sees, Finds, IsRun, publish_loop-IsRun}
use ps_msgr.Floating.{Double, Read}
use ps_msgr.Examples.Options.{MotorItem}
use ps_msgr.Examples.Commands.{
  IsWriterLine, motor_writer_main, motor_writer_main-Ensures, last_count, IsReaderLine, ReaderEnds,
  motor_reader_main, motor_reader_main-Ensures,
}
use ps_msgr.Bench.{Parsed, print_row, parse_u32, parse_rate, period_of}
use ps_msgr.Bench.Process.{publish_until}
use ps_msgr.Bench.Schedule.{logs, Sleeps, Counted, publish_until-IsCount}
use ps_msgr.Bench.Reservoir.{samples_of}
use ps_msgr.Bench.Setup.{Config, Platform}
use ps_msgr.Bench.Operations.{OpCtx}
use ps_msgr.Bench.Measuring.{measure, IfAny, measure-Returns}
use ps_msgr.Bench.Uncontended.{measure_rows, writer_rows}
use ps_msgr.Bench.Contended.{bench_contended}
use ps_msgr.Bench.WakeUp.{bench_wake}
use ps_msgr.Bench.Discipline.{Alive}
use ps_msgr.Bench.Beside.{Restored, bench_wake-Ensures}
use ps_msgr.Bench.Working.{stores_to, FindsFile, Still, Closed, Has}
use ps_msgr.Bench.Rowed.{tests_of, printed, writer_rows-Ends}
use ps_msgr.Bench.Settings.{Item, IsLegalRun, parse_options}
use ps_msgr.Bench.Legal.{parse_options-IsLegal}
use ps_msgr.Kernel.Monitor.{Returns}
use ps_msgr.Name.{ascii, Paths}
use ps_msgr.Handle.{fresh_handle}
use ps_msgr.Kernel.Monitor.{Ends}
use ps_msgr.Handle.Linear.{ticks, Serves}
use ps_msgr.Handle.Asking.{reads, peeks, session, InTime, session-InTime}
use ps_msgr.Tests.{ascending, publishing, publishing-IsCalm, header, empty_file, writer}

abbrev motor_paths : Paths
motor_paths = record {
  dir = ascii "/tmp";
  data_path = ascii "/tmp/psmsgr.motor.state";
  lock = ascii "/tmp/psmsgr.motor.lock";
  data_base = ascii "psmsgr.motor.state";
}

session-InTime_example :
    Ends ticks
      (Serves publishing ascending)
      (λ t' gs. InTime publishing ascending (peeks ∷ reads (λ _. 0) 8 ∷ []) 20 t' gs)
      20
      (session (peeks ∷ reads (λ _. 0) 8 ∷ []) (fresh_handle motor_paths))
session-InTime_example =
    session-InTime publishing ascending publishing-IsCalm (peeks ∷ reads (λ _. 0) 8 ∷ []) 20
      (fresh_handle motor_paths) tt

-- A channel of three slots for a motor status.
abbrev motor_header : Header
motor_header = record header { slot_stride = 64; capacity = 24; payload_type = motor_status_v1 }

abbrev motor_writer_handle : Writer
motor_writer_handle = record writer { capacity = 24 }

abbrev motor_file : File
motor_file = record empty_file { header = motor_header }

abbrev motor_system : System
motor_system = record {
  file = motor_file;
  writer = motor_writer_handle;
  pending = [];
  commits = λ _. 0;
}

motor_system-IsSound : IsSound 3 24 motor_system
motor_system-IsSound = record {
  two = omega arith;
  few = omega arith;
  count_ok = refl;
  capacity_ok = refl;
  live = λ h. absurd (h refl);
  counted = λ i lt. omega arith;
  safe = record {
    count_ok = refl;
    capacity_ok = refl;
    linked = refl;
    opened = λ h. absurd (h refl);
  };
}

motor-IsIdle : IsIdle 3 24 motor_file motor_writer_handle
motor-IsIdle = record {
  system = motor_system;
  file_ok = refl;
  writer_ok = refl;
  idle = refl;
  sound = motor_system-IsSound;
}

-- Two publishes, five hundred milliseconds apart. The bytes are those of the sequence number.
abbrev low_bytes : MotorStatus → ℕ → ℕ
low_bytes s k = s.sequence / 256 ^ k % 256

publish_loop-IsRun_example :
    Ends sees Finds
      (IsRun 3 low_bytes 500000000 2 7 (λ f. f ≡ motor_file) 1)
      (record { file = motor_file; signal = false })
      (publish_loop low_bytes 500000000 2 7 3 motor_writer_handle 1 1000)
publish_loop-IsRun_example =
    publish_loop-IsRun 3 low_bytes 500000000 2 7 (λ f. f ≡ motor_file) motor_writer_handle 1000
      motor_file motor-IsIdle refl refl (omega arith) (omega arith)

-- Readers of numbers that find 7, and a half, in every text.
abbrev sevens : List ℕ → ℕ × List ℕ
sevens _ = (7, [])

abbrev halves : List ℕ → Read
halves _ = record { value = Double.finite false 1 1; rest = []; nothing = false }

motor_writer_main-Ensures_example :
    Ensures
      (λ h x.
        (h ≡ bare (0 ∷ []) [])
        × (((x.0 ≡ 2)
              × (¬ IsWriterLine sevens halves
                  (Double.finite false 10 0)
                  (MotorItem.rate_is (ascii "0.5") ∷ [])
                  false))
            ⊎ ((x.0 ≤ 1)
                × IsWriterLine sevens halves
                    (Double.finite false 10 0)
                    (MotorItem.rate_is (ascii "0.5") ∷ [])
                    false)))
      (bare (0 ∷ []) [])
      (motor_writer_main sevens halves low_bytes
        (λ _. 2000000000)
        32
        128
        9
        none
        (MotorItem.rate_is (ascii "0.5") ∷ [])
        false)
motor_writer_main-Ensures_example =
    motor_writer_main-Ensures sevens halves low_bytes (λ _. 2000000000) (0 ∷ []) [] 32 128 9 none
      (MotorItem.rate_is (ascii "0.5") ∷ []) false

abbrev no_info : Info
no_info = record { generation = 0; length = 0; timestamp_ns = 0; flags = 0 }

abbrev sevens_or_less : List ℕ → Option ℕ × List ℕ
sevens_or_less _ = (some 7, [])

motor_reader_main-Ensures_example :
    Ensures
      (ReaderEnds sevens sevens_or_less no_info
        (λ _. 0)
        (0 ∷ [])
        []
        (IsReaderLine sevens sevens_or_less (some 300) (MotorItem.count_is (ascii "7") ∷ []) false)
        (last_count sevens 0 (MotorItem.count_is (ascii "7") ∷ [])))
      (bare (0 ∷ []) [])
      (motor_reader_main sevens sevens_or_less no_info
        (λ _. 0)
        96
        9
        none
        (MotorItem.count_is (ascii "7") ∷ [])
        false)
motor_reader_main-Ensures_example =
    motor_reader_main-Ensures sevens sevens_or_less no_info (λ _. 0) (0 ∷ []) [] (λ _. omega arith)
      96 9 none (MotorItem.count_is (ascii "7") ∷ []) false

-- Three samples of two operations, behind one operation: seven.
measure-Returns_example :
    Returns
      (IfAny (λ x.
        ((xs : List ℕ) × (length xs ≡ 3) × (x.0 ≡ print_row (λ v _. v) (samples_of 3 xs)))
        × (x.1 ≡ 7)))
      (measure (λ k. ret (some (k + 1))) (λ v _. v) 1 2 3 0)
measure-Returns_example =
    measure-Returns (λ k. ret (some (k + 1))) (λ k c. c ≡ k) (λ k c e. ap (λ x. x + 1) e) (λ v _. v)
      1 2 3 0 refl

abbrev platform : Platform
platform = record {
  options_size = 32;
  writer_size = 128;
  reader_size = 96;
  rounds = 9;
  env = none;
  decimal = λ n. (48 + n % 10) ∷ [];
  sort = λ v _. v;
  nanoseconds = λ _. 500000000;
}

abbrev config : Config
config = record {
  iterations = 3;
  warmup = 1;
  batch = 2;
  seconds_ns = 1000;
  rate = 500;
  poll_us = 100;
  dir = ascii "/tmp/psmsgr-bench-abcdef";
}

abbrev ctx : OpCtx
ctx = record { w = some (7, motor_writer_handle); r = none; buf = λ _. 0; size = 16; fill = 0 }

writer_rows-Ends_example :
    Ends stores_to FindsFile
      (Still (λ f x.
        (printed x.0 ≡ tests_of (writer_rows platform config)) × Has 3 24 (Closed 3 24) f x.1))
      motor_file
      (measure_rows platform config 2 3 (writer_rows platform config) ctx)
writer_rows-Ends_example =
    writer_rows-Ends 3 24 platform config motor_file ctx (motor-IsIdle, refl, omega arith)

bench_wake-Ensures_example :
    Ensures
      (Alive (Restored (0 ∷ []) [] platform config))
      (bare (0 ∷ []) [])
      (bench_contended platform config (λ _. 0))
    × Ensures
        (Alive (Restored (0 ∷ []) [] platform config))
        (bare (0 ∷ []) [])
        (bench_wake platform config no_info (λ _. 0) true)
bench_wake-Ensures_example = bench_wake-Ensures (0 ∷ []) [] platform config no_info (λ _. 0) true

-- A reader of numbers that finds 7 in every text.
abbrev seven : List ℕ → Parsed
seven _ = record { value = 7; rest = []; failed = false; nothing = false }

seven_is_a_rate : parse_rate seven (ascii "7") ≡ some 7
unfolding parse_rate parse_u32
seven_is_a_rate = refl

-- A second of seven publishes, from the time 0 on.
publish_until-IsCount_example :
    Ends logs Sleeps
      (Counted 3 24 1000000000 (period_of 7) (0 + period_of 7) 0 [])
      (record { file = motor_file; slept = 0; publishes = [] })
      (publish_until true 16 1000000000
        (period_of 7)
        4096
        (suc (suc 1000000000))
        (0 + period_of 7)
        0
        (λ _. 0)
        motor_writer_handle)
publish_until-IsCount_example =
    publish_until-IsCount seven (ascii "7") 7 0 1000000000 seven_is_a_rate (omega arith) 3 24 true
      16 4096 1000000000 (omega arith) (omega arith) (λ _. 0) motor_writer_handle motor_file
      motor-IsIdle refl

parse_options-IsLegal_example :
    IsLegalRun seven halves
      (Item.rate (ascii "7") ∷ Item.seconds (ascii "0.5") ∷ [])
      false
      (parse_options seven halves (Item.rate (ascii "7") ∷ Item.seconds (ascii "0.5") ∷ []) false)
parse_options-IsLegal_example =
    parse_options-IsLegal seven halves (Item.rate (ascii "7") ∷ Item.seconds (ascii "0.5") ∷ [])
      false
