-- ===== src/Bench/Contended.antt =====
-- bench/psmsgr-bench.c: a reader that polls against the writer process.
use ps_msgr.Prelude.{
  ℕ, zero, suc, ◌+◌, ◌-◌, ◌*◌, ◌%◌, ◌^◌, true, false, not, Option, none, some, List, [], ◌∷◌, ltb,
  if◌then◌else◌,
}
use ps_msgr.Name.{ascii}
use ps_msgr.Kernel.{Sys, Prog, ret, stuck, ◌>>=◌, ◌>>◌, sys}
use ps_msgr.Lock.{is_ok}
use ps_msgr.Handle.{Handle, Got, read, reader_close}
use ps_msgr.Dump.View.{is_busy}
use ps_msgr.Bench.{Samples, samples_init, samples_add, print_row}
use ps_msgr.Bench.Setup.{Config, Platform, Entry, payload_sizes, chan_name, open_reader}
use ps_msgr.Bench.Operations.{◌>>?◌}
use ps_msgr.Bench.Process.{writer_start, writer_finish, child}
use ps_msgr.Bench.Uncontended.{bench_sizes}

-- The samples, the reads that were busy, and the handle.
pub record Polled : Type 0 where
  pub samples : Samples
  pub busy : ℕ
  pub handle : Handle

-- A read that took `took`; none is `die`.
unfoldable pub count_read : Samples → (busy : ℕ) → (took : ℕ) → Got → Option Polled
count_read s busy took g =
    if is_ok g.rc
    then some (record { samples = samples_add s took; busy = busy; handle = g.handle })
    else if is_busy g.rc
    then some (record { samples = s; busy = busy + 1; handle = g.handle })
    else none

-- The loop, with so many rounds. The reads share a buffer.
unfoldable pub poll :
    (rounds : ℕ) → (size end_at t₀ : ℕ) → (buf : ℕ → ℕ) → Polled → Prog (Option Polled)
poll zero size end_at t₀ buf x = stuck
poll (suc k) size end_at t₀ buf x =
    let rest : (ℕ → (ℕ → ℕ) → Polled → Prog (Option Polled)) = poll k size end_at in
    if not (ltb t₀ end_at) then ret (some x) else (do
      g ← read x.handle true true buf size
      t₁ ← sys Sys.clock_monotonic
      elim (count_read x.samples x.busy ((t₁.value + 2 ^ 64 - t₀) % 2 ^ 64) g) [
        | none ↦ ret none
        | some y ↦ rest t₁.value g.buf y
      ])

module _ (p : Platform) (cfg : Config) (junk : ℕ → ℕ) where
  -- With the writer process running, and the reader open.
  unfoldable pub contended_from : (size : ℕ) → ℕ × ℕ → Handle → Prog (Option Entry)
  contended_from size wp r = do
    m ← sys (Sys.malloc (cfg.iterations * 8))
    if not m.okay then ret none else (do
      t ← sys Sys.clock_monotonic
      t₀ ← sys Sys.clock_monotonic
      poll p.rounds size ((t.value + cfg.seconds_ns) % 2 ^ 64) t₀.value junk
            (record { samples = samples_init cfg.iterations; busy = 0; handle = r })
          >>? (λ x. writer_finish p cfg wp >>? (λ _. do
            reader_close (some x.handle)
            ret (
                some (record {
                  test = ascii "read (writer active)";
                  size = size;
                  row = print_row p.sort x.samples;
                  per = 1;
                  busy = some x.busy;
                  missed = none;
                })))))

  -- One size. `junk` is what `malloc` finds in the buffer.
  unfoldable pub contended_size : (size : ℕ) → Prog (Option Entry)
  contended_size size = do
    m ← sys (Sys.malloc size)
    if not m.okay
        then ret none
        else (writer_start p cfg >>? (λ wp.
            open_reader p cfg (chan_name p cfg (ascii "contended") size)
            >>? (λ r. contended_from size wp r)))

  unfoldable pub bench_contended : Prog (Option (List Entry))
  bench_contended =
      bench_sizes p cfg (λ size. contended_size size >>? (λ e. ret (some (e ∷ [])))) payload_sizes

  -- The writer process of a size.
  unfoldable pub contended_child : (size : ℕ) → (parent in_ out : ℕ) → Prog (Option (Unit {0}))
  contended_child size = child p cfg (chan_name p cfg (ascii "contended") size) size 0 false
