-- ===== src/Bench/WakeUp.antt =====
-- bench/psmsgr-bench.c: the latency from a publish of the writer process to a reader that waits, or that peeks
-- every so often.
use ps_msgr.Prelude.{
  ℕ, zero, suc, ◌+◌, ◌-◌, ◌*◌, ◌%◌, ◌^◌, Bool, true, false, not, ◌&&◌, ◌||◌, Option, none, some,
  List, ◌++◌, ◌==◌, ltb, if◌then◌else◌,
}
use ps_msgr.Name.{ascii}
use ps_msgr.Result.{Rc}
use ps_msgr.Options.{no_notify_flag}
use ps_msgr.Reader.{Info}
use ps_msgr.Kernel.{Sys, Prog, ret, stuck, ◌>>=◌, ◌>>◌, sys}
use ps_msgr.Lock.{is_ok}
use ps_msgr.Handle.{Handle, written, read, peek, reader_close}
use ps_msgr.Handle.Wait.{wait}
use ps_msgr.Dump.View.{is_busy}
use ps_msgr.Bench.{Samples, samples_init, samples_add, Wake, count_missed, print_row}
use ps_msgr.Bench.Setup.{Config, Platform, Entry, chan_name, open_reader}
use ps_msgr.Bench.Operations.{◌>>?◌}
use ps_msgr.Bench.Process.{writer_start, writer_finish, child}

abbrev pub wake_size : ℕ
wake_size = 16

-- The samples, the generations, the locals `buf` and `info`, and the handle.
pub record Woken : Type 0 where
  pub samples : Samples
  pub wake : Wake
  pub buf : ℕ → ℕ
  pub info : Info
  pub handle : Handle

-- What the payload begins with.
abbrev pub stamp_of : (ℕ → ℕ) → ℕ
stamp_of buf =
    buf 0
    + buf 1 * 256
    + buf 2 * 256 ^ 2
    + buf 3 * 256 ^ 3
    + buf 4 * 256 ^ 4
    + buf 5 * 256 ^ 5
    + buf 6 * 256 ^ 6
    + buf 7 * 256 ^ 7

abbrev pub is_timeout : Rc → Bool
is_timeout Rc.timeout = true
is_timeout _ = false

-- Before a read: go on to it, begin the loop again, or `die`.
pub data Turn : Type 0 where
  reads again : Woken → Turn
  dies : Turn

-- `wait` for a tenth of a second.
unfoldable pub by_wait : (rounds : ℕ) → Woken → Prog Turn
by_wait rounds x = do
  w ← wait rounds x.handle x.wake.seen (some 100)
  let y : Woken = record x { handle = w.1 }
  if is_timeout w.0
      then ret (Turn.again y)
      else if not (is_ok w.0)
      then ret Turn.dies
      else ret (Turn.reads y)

-- `peek`, and sleep if there is nothing new.
unfoldable pub by_peek : (poll_us : ℕ) → Woken → Prog Turn
by_peek poll_us x = do
  g ← peek x.handle true (λ _. 0)
  let y : Woken = record x { info = written x.info g.info; handle = g.handle }
  if not (is_ok g.rc) && not (is_busy g.rc)
      then ret Turn.dies
      else if not (is_ok g.rc) || y.info.generation == x.wake.seen
      then (do sys (Sys.nanosleep (poll_us * 1000)); ret (Turn.again y))
      else ret (Turn.reads y)

-- A read that is not busy is a sample; none is `die`.
unfoldable pub take_value : Woken → Prog (Option Woken)
take_value x = do
  g ← read x.handle true true x.buf wake_size
  t ← sys Sys.clock_monotonic
  let y : Woken = record x { buf = g.buf; info = written x.info g.info; handle = g.handle }
  if is_busy g.rc
      then ret (some y)
      else if not (is_ok g.rc)
      then ret none
      else ret (
          some (record y {
            samples = samples_add x.samples ((t.value + 2 ^ 64 - stamp_of g.buf) % 2 ^ 64);
            wake = count_missed x.wake y.info.generation;
          }))

unfoldable pub wake_turn : (rest : Woken → Prog (Option Woken)) → Turn → Prog (Option Woken)
wake_turn rest Turn.dies = ret none
wake_turn rest (Turn.again y) = rest y
wake_turn rest (Turn.reads y) = take_value y >>? rest

module _ (turn : Woken → Prog Turn) where
  -- The loop, with so many rounds.
  unfoldable pub wake_loop : (rounds : ℕ) → (end_at : ℕ) → Woken → Prog (Option Woken)
  wake_loop zero end_at x = stuck
  wake_loop (suc k) end_at x =
      let rest : (Woken → Prog (Option Woken)) = wake_loop k end_at in
      do
        t ← sys Sys.clock_monotonic
        if not (ltb t.value end_at) then ret (some x) else (do a ← turn x; wake_turn rest a)

module _ (p : Platform) (cfg : Config) (before : Info) (junk : ℕ → ℕ) where
  abbrev pub wake_test : (notify : Bool) → List ℕ
  wake_test true = ascii "wait wake-up"
  wake_test false = ascii "poll wake-up (" ++ (p.decimal cfg.poll_us ++ ascii " us)")

  abbrev pub wake_by : (notify : Bool) → Woken → Prog Turn
  wake_by true = by_wait p.rounds
  wake_by false = by_peek cfg.poll_us

  abbrev pub wake_channel : (notify : Bool) → List ℕ
  wake_channel notify = chan_name p cfg (if notify then ascii "wake" else ascii "poll") wake_size

  -- The first read gets the writer's initial value.
  unfoldable pub first_value : Handle → Prog (Option Woken)
  first_value r = do
    g ← read r true true junk wake_size
    let info : Info = written before g.info
    if not (is_ok g.rc)
        then ret none
        else ret (
            some (record {
              samples = samples_init cfg.iterations;
              wake = record { seen = info.generation; missed = 0 };
              buf = g.buf;
              info = info;
              handle = g.handle;
            }))

  -- With the writer process running, and the reader open.
  unfoldable pub wake_from : (notify : Bool) → ℕ × ℕ → Handle → Prog (Option Entry)
  wake_from notify wp r = do
    m ← sys (Sys.malloc (cfg.iterations * 8))
    if not m.okay
        then ret none
        else (first_value r >>? (λ x. do
          t ← sys Sys.clock_monotonic
          wake_loop (wake_by notify) p.rounds ((t.value + cfg.seconds_ns) % 2 ^ 64) x >>? (λ y.
              writer_finish p cfg wp >>? (λ _. do
                reader_close (some y.handle)
                ret (
                    some (record {
                      test = wake_test notify;
                      size = wake_size;
                      row = print_row p.sort y.samples;
                      per = 1;
                      busy = none;
                      missed = some y.wake.missed;
                    }))))))

  -- `junk` and `before` are what C leaves in the locals.
  unfoldable pub bench_wake : (notify : Bool) → Prog (Option Entry)
  bench_wake notify =
      writer_start p cfg
      >>? (λ wp. open_reader p cfg (wake_channel notify) >>? (λ r. wake_from notify wp r))

  unfoldable pub wake_child : (notify : Bool) → (parent in_ out : ℕ) → Prog (Option (Unit {0}))
  wake_child notify =
      child p cfg (wake_channel notify) wake_size (if notify then 0 else no_notify_flag) true
