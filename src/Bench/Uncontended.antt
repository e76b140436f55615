-- ===== src/Bench/Uncontended.antt =====
-- bench/psmsgr-bench.c: the rows of the clock, and of the operations that nobody else takes part in.
use ps_msgr.Prelude.{ℕ, ◌/◌, Option, none, some, List, [], ◌∷◌, ◌++◌, ltb, not, if◌then◌else◌}
use ps_msgr.Name.{ascii}
use ps_msgr.Options.{no_notify_flag}
use ps_msgr.Kernel.{Sys, Prog, ret, ◌>>=◌, ◌>>◌, sys}
use ps_msgr.Opening.Session.{writer_close}
use ps_msgr.Handle.{reader_close}
use ps_msgr.Bench.Setup.{
  Config, Platform, Entry, payload_sizes, chan_name, open_writer, open_reader,
}
use ps_msgr.Bench.Operations.{
  ◌>>?◌, OpCtx, OpFn, op_nothing, op_clock_gettime, op_clock_syscall, op_getppid, op_now,
  op_publish, op_fill_publish, op_begin_fill_commit, op_begin_commit, op_read, op_peek,
}
use ps_msgr.Bench.Measuring.{measure}

abbrev clock_batch : ℕ
clock_batch = 100

module _ (p : Platform) (cfg : Config) where
  -- The rows of some operations, one after the other; the context goes from one to the next.
  unfoldable pub measure_rows :
      (batch n : ℕ) → List (List ℕ × OpFn) → OpCtx → Prog (Option (List Entry × OpCtx))
  measure_rows batch n [] c = ret (some ([], c))
  measure_rows batch n ((test, op) ∷ ops) c =
      let rest : (OpCtx → Prog (Option (List Entry × OpCtx))) = measure_rows batch n ops in
      measure op p.sort cfg.warmup batch n c >>? (λ x. rest x.1 >>? (λ y. ret (
        some (
          record { test = test; size = c.size; row = x.0; per = batch; busy = none; missed = none }
              ∷ y.0,
          y.1,
        ))))

  abbrev clock_rows : List (List ℕ × OpFn)
  clock_rows =
      (ascii "clock_gettime", op_clock_gettime)
      ∷ (ascii "clock_gettime syscall", op_clock_syscall)
      ∷ (ascii "getppid syscall", op_getppid)
      ∷ (ascii "psmsgr_now_ns", op_now)
      ∷ []

  abbrev no_ctx : OpCtx
  no_ctx = record { w = none; r = none; buf = λ _. 0; size = 0; fill = 0 }

  unfoldable pub bench_clock : Prog (Option (List Entry))
  bench_clock =
      let n : ℕ =
        if ltb 100 (cfg.iterations / clock_batch) then cfg.iterations / clock_batch else 100 in
      measure_rows cfg.batch cfg.iterations ((ascii "timer overhead", op_nothing) ∷ []) no_ctx
      >>? (λ x. measure_rows clock_batch n clock_rows x.1 >>? (λ y. ret (some (x.0 ++ y.0))))

  abbrev pub writer_rows : List (List ℕ × OpFn)
  writer_rows =
      (ascii "publish NO_NOTIFY", op_publish)
      ∷ (ascii "fill/publish NO_NOTIFY", op_fill_publish)
      ∷ (ascii "begin/fill/commit NO_NOTIFY", op_begin_fill_commit)
      ∷ (ascii "begin/commit NO_NOTIFY", op_begin_commit)
      ∷ []

  abbrev plain_rows : List (List ℕ × OpFn)
  plain_rows =
      (ascii "publish", op_publish) ∷ (ascii "read", op_read) ∷ (ascii "peek", op_peek) ∷ []

  unfoldable pub bench_nonotify : OpCtx → Prog (Option (List Entry × OpCtx))
  bench_nonotify c =
      open_writer p cfg (chan_name p cfg (ascii "nonotify") c.size) c.size no_notify_flag >>? (λ w.
        measure_rows cfg.batch cfg.iterations writer_rows (record c { w = some w })
        >>? (λ x. do writer_close x.1.w; ret (some x)))

  unfoldable pub bench_plain : OpCtx → Prog (Option (List Entry × OpCtx))
  bench_plain c = open_writer p cfg (chan_name p cfg (ascii "plain") c.size) c.size 0 >>? (λ w.
      open_reader p cfg (chan_name p cfg (ascii "plain") c.size) >>? (λ r.
        measure_rows cfg.batch cfg.iterations plain_rows (record c { w = some w; r = some r })
        >>? (λ x. do reader_close x.1.r; writer_close x.1.w; ret (some x))))

  -- One size; the buffer is cleared.
  unfoldable pub bench_size : (size : ℕ) → Prog (Option (List Entry))
  bench_size size = do
    m ← sys (Sys.malloc size)
    if not m.okay
        then ret none
        else (bench_nonotify (record { w = none; r = none; buf = λ _. 0; size = size; fill = 0 })
            >>? (λ x. bench_plain x.1 >>? (λ y. ret (some (x.0 ++ y.0)))))

  unfoldable pub bench_sizes :
      (bench : ℕ → Prog (Option (List Entry))) → List ℕ → Prog (Option (List Entry))
  bench_sizes bench [] = ret (some [])
  bench_sizes bench (size ∷ more) =
      let rest : Prog (Option (List Entry)) = bench_sizes bench more in
      bench size >>? (λ x. rest >>? (λ y. ret (some (x ++ y))))

  unfoldable pub bench_uncontended : Prog (Option (List Entry))
  bench_uncontended = bench_sizes bench_size payload_sizes
