-- ===== src/Examples/MotorWriter.antt =====
-- examples/c/motor_writer.c with examples/motor_status.h: `main` behind the parsing of the command line by
-- `getopt_long`. A line that `printf` writes is a status in the result. The layout of the struct and its
-- floats are an argument: `encode` gives the bytes of a status.
use ps_msgr.Prelude.{
  ℕ, zero, suc, ◌+◌, ◌*◌, ◌%◌, ◌^◌, true, not, Option, none, some, List, [], ◌∷◌, ◌==◌,
  if◌then◌else◌,
}
use ps_msgr.Result.{Rc}
use ps_msgr.Name.{ascii}
use ps_msgr.Options.{Options, defaults, recreate_flag}
use ps_msgr.Writer.{Writer}
use ps_msgr.System.{Call}
use ps_msgr.Kernel.{Sys, Prog, ret, stuck, ◌>>=◌, ◌>>◌, sys}
use ps_msgr.Lock.{is_ok}
use ps_msgr.Opening.Session.{writer_open, writer_close}
use ps_msgr.Opening.Writing.{writer_call}

abbrev pub motor_channel : List ℕ
motor_channel = ascii "motor"

abbrev pub motor_status_v1 : ℕ
motor_status_v1 = 0x00010001

-- `sizeof(struct motor_status)`
abbrev pub motor_status_size : ℕ
motor_status_size = 24

-- `struct motor_status`. The speed is in rpm, the current in quarters of an ampere, the temperature in
-- halves of a degree: all that the floats hold.
pub record MotorStatus : Type 0 where
  pub sequence : ℕ
  pub speed_rpm : ℕ
  pub current_a : ℕ
  pub temperature_c : ℕ

unfoldable pub motor_status : (seq : ℕ) → MotorStatus
motor_status seq = record {
  sequence = seq;
  speed_rpm = 1500 + seq % 100 * 5;
  current_a = 8 + seq % 8;
  temperature_c = 80 + seq % 40;
}

abbrev pub motor_options : (own : ℕ) → (dir : Option (List ℕ)) → Options
motor_options own dir = record (defaults own) {
  capacity = motor_status_size;
  payload_type = motor_status_v1;
  flags = recreate_flag;
  dir = dir;
}

-- The exit status, the lines that were printed, and the handle.
pub record Published : Type 0 where
  pub status : ℕ
  pub lines : List MotorStatus
  pub writer : Writer

abbrev pub next_seq : ℕ → ℕ
next_seq seq = (seq + 1) % 2 ^ 64

module _ (encode : MotorStatus → ℕ → ℕ) (period_ns count map : ℕ) where
  -- The loop, with so many rounds. `stopped` is a load of `stop`, which the signal's handler sets.
  unfoldable pub publish_loop : (rounds : ℕ) → Writer → (seq next_ns : ℕ) → Prog Published
  publish_loop zero w seq next_ns = stuck
  publish_loop (suc k) w seq next_ns =
      let rest : (Writer → Prog Published) =
        λ w'. publish_loop k w' (next_seq seq) ((next_ns + period_ns) % 2 ^ 64) in
      do
        s ← sys Sys.stopped
        if s.okay then ret (record { status = 0; lines = []; writer = w }) else (do
          x ←
              writer_call map w
                (λ now. Call.publishes (some (encode (motor_status seq))) motor_status_size now)
          if not (is_ok x.0)
              then ret (record { status = 1; lines = []; writer = x.1 })
              else if seq == count
              then ret (record { status = 0; lines = motor_status seq ∷ []; writer = x.1 })
              else (do
                sys (Sys.sleep_until ((next_ns + period_ns) % 2 ^ 64))
                r ← rest x.1
                ret (record r { lines = motor_status seq ∷ r.lines })))

-- On the result of `writer_open`: the exit status, and the lines.
unfoldable pub motor_writer_opened :
    (encode : MotorStatus → ℕ → ℕ)
    → (period_ns count rounds : ℕ) → Rc
    → Option (ℕ × Writer)
    → Prog (ℕ × List MotorStatus)
motor_writer_opened encode period_ns count rounds rc none = ret (1, [])
motor_writer_opened encode period_ns count rounds rc (some (map, w)) =
    if not (is_ok rc) then ret (1, []) else (do
      t ← sys Sys.clock_monotonic
      r ← publish_loop encode period_ns count map rounds w 1 t.value
      writer_close (some (map, r.writer))
      ret (r.status, r.lines))

-- `own` and `size` are the sizes of the structs of the options and of the handle, `rounds` bounds the loops.
unfoldable pub motor_writer :
    (encode : MotorStatus → ℕ → ℕ)
    → (period_ns count : ℕ) → (own size rounds : ℕ) → (dir env : Option (List ℕ))
    → Prog (ℕ × List MotorStatus)
motor_writer encode period_ns count own size rounds dir env = do
  x ← writer_open own size rounds (some motor_channel) env (some (motor_options own dir)) true
  motor_writer_opened encode period_ns count rounds x.0 x.1
