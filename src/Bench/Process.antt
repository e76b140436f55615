-- ===== src/Bench/Process.antt =====
-- bench/psmsgr-bench.c: the writer process. Behind `fork` there are two processes: `child` is the program of
-- the one, and the other goes on in `writer_start`. `none` is the end of a process with status 1.
use ps_msgr.Prelude.{
  ℕ, zero, suc, ◌+◌, ◌/◌, ◌%◌, ◌^◌, Bool, true, false, ◌&&◌, ◌||◌, not, Option, none, some, List,
  ◌==◌, ltb, bit_and, if◌then◌else◌,
}
use ps_msgr.Writer.{Writer}
use ps_msgr.System.{Call}
use ps_msgr.Kernel.{Sys, Answer, Prog, ret, stuck, ◌>>=◌, ◌>>◌, sys}
use ps_msgr.Lock.{is_ok}
use ps_msgr.Opening.Session.{writer_close}
use ps_msgr.Opening.Writing.{writer_call}
use ps_msgr.Handle.Wait.{is_eintr}
use ps_msgr.Bench.{period_of}
use ps_msgr.Bench.Setup.{Config, Platform, open_writer}
use ps_msgr.Bench.Operations.{◌>>?◌}

-- EINTR
abbrev pub interrupted : Answer → Bool
interrupted a = not a.okay && is_eintr a.errno

-- A call that is made again while it is interrupted, so many times.
unfoldable pub retrying : (rounds : ℕ) → Sys → Prog Answer
retrying zero s = stuck
retrying (suc k) s =
    let rest : Prog Answer = retrying k s in do a ← sys s; if interrupted a then rest else ret a

-- The payload begins with the time.
abbrev pub stamped : (t : ℕ) → (ℕ → ℕ) → ℕ → ℕ
stamped t buf k = if ltb k 8 then t / 256 ^ k % 256 else buf k

unfoldable pub stamp_buf : (stamp : Bool) → (ℕ → ℕ) → Prog (ℕ → ℕ)
stamp_buf false buf = ret buf
stamp_buf true buf = do t ← sys Sys.clock_monotonic; ret (stamped t.value buf)

module _ (stamp : Bool) (size end_at period map : ℕ) where
  -- The loop of the publishes, with so many rounds: their count, and the handle.
  unfoldable pub publish_until :
      (rounds : ℕ) → (next count : ℕ) → (buf : ℕ → ℕ) → Writer → Prog (Option (ℕ × Writer))
  publish_until zero next count buf w = stuck
  publish_until (suc k) next count buf w =
      let rest : ((ℕ → ℕ) → Writer → Prog (Option (ℕ × Writer))) =
        publish_until k ((next + period) % 2 ^ 64) (count + 1) in
      if not (ltb next end_at) then ret (some (count, w)) else (do
        retrying k (Sys.sleep_until next)
        b ← stamp_buf stamp buf
        x ← writer_call map w (λ now. Call.publishes (some b) size now)
        if not (is_ok x.0) then ret none else rest b x.1)

module _ (p : Platform) (cfg : Config) where
  -- The publishes from now on, and the report of their count.
  unfoldable pub child_runs :
      (stamp : Bool) → (size out : ℕ) → ℕ × Writer → Prog (Option (Unit {0}))
  child_runs stamp size out (map, w) = do
    t ← sys Sys.clock_monotonic
    publish_until stamp size ((t.value + cfg.seconds_ns) % 2 ^ 64) (period_of cfg.rate) map p.rounds
          ((t.value + period_of cfg.rate) % 2 ^ 64) 0 (λ _. 0) w
        >>? (λ x. do
          writer_close (some (map, x.1))
          o ← sys (Sys.write_word out x.0)
          if o.okay then ret (some tt) else ret none)

  -- With the channel open: the first publish, and the report that the writer is ready.
  unfoldable pub child_opened :
      (stamp : Bool) → (size out : ℕ) → ℕ × Writer → Prog (Option (Unit {0}))
  child_opened stamp size out (map, w) = do
    m ← sys (Sys.malloc size)
    if not m.okay then ret none else (do
      x ← writer_call map w (λ now. Call.publishes (some (λ _. 0)) size now)
      if not (is_ok x.0) then ret none else (do
        o ← sys (Sys.write_word out 0)
        if not o.okay then ret none else child_runs stamp size out (map, x.1)))

  -- The child's whole life; some is the exit status 0, none is 1.
  unfoldable pub child :
      (name : List ℕ)
      → (size flags : ℕ) → (stamp : Bool) → (parent in_ out : ℕ) → Prog (Option (Unit {0}))
  child name size flags stamp parent in_ out = do
    d ← sys Sys.pdeathsig
    if not d.okay then ret none else (do
      pp ← sys Sys.getppid
      if not (pp.value == parent) then ret none else (do
        sys (Sys.close in_)
        open_writer p cfg name size flags >>? (λ w. child_opened stamp size out w)))

  -- The parent's side of the start.
  unfoldable pub started : (pid in_ out : ℕ) → Prog (Option (ℕ × ℕ))
  started pid in_ out = do
    sys (Sys.close out)
    r ← sys (Sys.read_word in_)
    if not r.okay then ret none else ret (some (pid, in_))

  -- In the parent: the child, and the descriptor that it reports to.
  unfoldable pub writer_start : Prog (Option (ℕ × ℕ))
  writer_start = do
    e ← sys Sys.pipe
    if not e.okay then ret none else (do
      sys Sys.getpid
      f ← sys Sys.fork
      if not f.okay then ret none else started f.value e.value e.other)

  -- `WIFEXITED` and `WEXITSTATUS`, of a status that `waitpid` has set, or that is still 0.
  abbrev pub is_success : Answer → Bool
  is_success a = not a.okay || (bit_and a.value 0x7F == 0 && a.value / 256 % 256 == 0)

  -- The count of the writer's publishes.
  unfoldable pub writer_finish : ℕ × ℕ → Prog (Option ℕ)
  writer_finish (pid, in_) = do
    c ← retrying p.rounds (Sys.read_word in_)
    sys (Sys.close in_)
    s ← retrying p.rounds (Sys.waitpid pid)
    if not c.okay || not (is_success s) then ret none else ret (some c.value)
