-- ===== src/Examples/MotorReader.antt =====
-- examples/c/motor_reader.c with examples/motor_status.h: `main` behind the parsing of the command line by
-- `getopt_long`. A line that the program prints is an entry of the result. A local that C leaves
-- indeterminate is an argument: `before` is what `info` holds, and `junk` what `s` does.
use ps_msgr.Prelude.{
  ℕ, zero, suc, ◌+◌, ◌-◌, ◌*◌, ◌%◌, ◌^◌, Bool, true, false, ◌&&◌, ◌||◌, not, Option, none, some,
  List, [], ◌∷◌, ◌==◌, bit_and, ltb, if◌then◌else◌,
}
use ps_msgr.Result.{Rc}
use ps_msgr.Reader.{Info}
use ps_msgr.Kernel.{Sys, Prog, ret, stuck, ◌>>=◌, ◌>>◌, sys}
use ps_msgr.Lock.{is_ok}
use ps_msgr.Handle.{Handle, info_attached, reader_open, reader_close, read, peek, written}
use ps_msgr.Handle.Wait.{wait}
use ps_msgr.Handle.Queries.{Liveness, describe_sized, desc_bytes, writer_alive}
use ps_msgr.Examples.MotorWriter.{motor_channel, motor_status_v1, motor_status_size}

-- `desc.payload_type`: the word at offset 8 of the description.
abbrev pub payload_type_of : (desc : ℕ → ℕ) → ℕ
payload_type_of desc = desc 8 + desc 9 * 256 + desc 10 * 256 ^ 2 + desc 11 * 256 ^ 3

unfoldable pub payload_ok : Handle → Info → Prog (Bool × Handle)
payload_ok r info =
    if bit_and info.flags info_attached == 0 then ret (info.length == motor_status_size, r) else (do
      d ← describe_sized r true (λ _. 0) desc_bytes
      if is_ok d.0 && not (payload_type_of d.2 == motor_status_v1)
          then ret (false, d.1)
          else ret (info.length == motor_status_size, d.1))

-- `status` holds the bytes of `s`. An age is a difference of 64-bit words.
pub data Message : Type 0 where
  waiting : Message
  last_value : (stale : Bool) (age_ns : ℕ) → Message
  value : (status : ℕ → ℕ) → Message

-- The exit status, the lines that were printed, and the handle.
pub record Printed : Type 0 where
  pub status : ℕ
  pub lines : List Message
  pub handle : Handle

abbrev pub ended : (status : ℕ) → Handle → Printed
ended status r = record { status = status; lines = []; handle = r }

unfoldable pub print : Message → Prog Printed → Prog Printed
print l rest = do x ← rest; ret (record x { lines = l ∷ x.lines })

abbrev pub is_alive : Liveness → Bool
is_alive Liveness.alive = true
is_alive _ = false

-- BUSY, or NODATA
abbrev pub passes : Rc → Bool
passes Rc.nodata = true
passes Rc.busy = true
passes _ = false

-- OK, or TOOSMALL
abbrev pub has_info : Rc → Bool
has_info Rc.ok = true
has_info Rc.toosmall = true
has_info _ = false

module _ (before : Info) (junk : ℕ → ℕ) where
  -- No new value in time. `rest` is the next round.
  unfoldable pub on_timeout : (rest : Handle → Prog Printed) → Handle → Prog Printed
  on_timeout rest r = do
    g ← peek r true (λ _. 0)
    if not (is_ok g.rc) then print Message.waiting (rest g.handle) else (do
      let info : Info = written before g.info
      p ← payload_ok g.handle info
      if not p.0 then ret (ended 1 p.1) else (do
        a ← writer_alive p.1
        t ← sys Sys.clock_monotonic
        print (Message.last_value (is_alive a.0) ((t.value + 2 ^ 64 - info.timestamp_ns) % 2 ^ 64))
            (rest a.1)))

  -- There is a new value. `rest` is the next round, after a value with a generation, or after none.
  unfoldable pub on_value : (rest : Option ℕ → Handle → Prog Printed) → Handle → Prog Printed
  on_value rest r = do
    g ← read r true true junk motor_status_size
    if passes g.rc
        then rest none g.handle
        else (if not (has_info g.rc) then ret (ended 1 g.handle) else (do
          let info : Info = written before g.info
          p ← payload_ok g.handle info
          if not p.0
              then ret (ended 1 p.1)
              else print (Message.value g.buf) (rest (some info.generation) p.1)))

  -- On the result of `wait`.
  unfoldable pub on_wait :
      (again : Handle → Prog Printed)
      → (rest : Option ℕ → Handle → Prog Printed) → Rc × Handle
      → Prog Printed
  on_wait again rest (Rc.timeout, r) = on_timeout again r
  on_wait again rest (Rc.intr, r) = again r
  on_wait again rest (Rc.ok, r) = on_value rest r
  on_wait again rest (rc, r) = ret (ended 1 r)

  module _ (timeout_ms count : ℕ) where
    -- `seen` is the generation of the last value that was printed, `n` the number of values.
    abbrev pub next_round :
        (rest : (seen n : ℕ) → Handle → Prog Printed)
        → (seen n : ℕ) → Option ℕ
        → Handle
        → Prog Printed
    next_round rest seen n none r = rest seen n r
    next_round rest seen n (some generation) r = rest generation ((n + 1) % 2 ^ 64) r

    -- The loop, with so many rounds, each with a wait of so many rounds.
    unfoldable pub read_loop : (rounds : ℕ) → (seen n : ℕ) → Handle → Prog Printed
    read_loop zero seen n r = stuck
    read_loop (suc k) seen n r =
        let rest : ((seen n : ℕ) → Handle → Prog Printed) = read_loop k in
        do
          s ← sys Sys.stopped
          if s.okay || not (count == 0 || ltb n count) then ret (ended 0 r) else (do
            w ← wait k r seen (some timeout_ms)
            on_wait (rest seen n) (next_round rest seen n) w)

    -- On the handle of `reader_open`, which is none unless the code is OK.
    unfoldable pub motor_reader_opened : (rounds : ℕ) → Option Handle → Prog (ℕ × List Message)
    motor_reader_opened rounds none = ret (1, [])
    motor_reader_opened rounds (some r) = do
      x ← read_loop rounds 0 0 r
      reader_close (some x.handle)
      ret (x.status, x.lines)

    -- `size` is the size of the library's handle.
    unfoldable pub motor_reader :
        (size rounds : ℕ) → (dir env : Option (List ℕ)) → Prog (ℕ × List Message)
    motor_reader size rounds dir env = do
      x ← reader_open size (some motor_channel) dir env true
      if not (is_ok x.0) then ret (1, []) else motor_reader_opened rounds x.1
