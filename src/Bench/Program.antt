-- ===== src/Bench/Program.antt =====
-- bench/psmsgr-bench.c: `main` behind the command line. `cleanup` runs at the exit, also when `die` has ended
-- the process; the system's description, which is printed first, is left out.
use ps_msgr.Prelude.{
  ℕ, zero, suc, true, false, not, Option, none, some, List, [], ◌∷◌, ◌++◌, if◌then◌else◌,
}
use ps_msgr.Name.{ascii}
use ps_msgr.Reader.{Info}
use ps_msgr.Kernel.{Sys, Prog, ret, ◌>>=◌, ◌>>◌, sys}
use ps_msgr.Bench.Setup.{Config, Platform, Entry}
use ps_msgr.Bench.Settings.{Settings}
use ps_msgr.Bench.Operations.{◌>>?◌}
use ps_msgr.Bench.Uncontended.{bench_clock, bench_uncontended}
use ps_msgr.Bench.Contended.{bench_contended}
use ps_msgr.Bench.WakeUp.{bench_wake}
use ps_msgr.Bench.Cleanup.{cleanup}

-- `--dir`, else `$PSMSGR_DIR` unless it is empty, else /dev/shm.
abbrev base_of : Option (List ℕ) → (env : Option (List ℕ)) → List ℕ
base_of (some base) env = base
base_of none (some (c ∷ cs)) = c ∷ cs
base_of none _ = ascii "/dev/shm"

-- What `snprintf` leaves in `cfg.dir`, which has room for 511 bytes.
abbrev first : ℕ → List ℕ → List ℕ
first zero xs = []
first (suc k) [] = []
first (suc k) (x ∷ xs) = x ∷ first k xs

abbrev config_of : Platform → Settings → (dir : List ℕ) → Config
config_of p s dir = record {
  iterations = s.iterations;
  warmup = s.warmup;
  batch = s.batch;
  seconds_ns = p.nanoseconds s.seconds;
  rate = s.rate;
  poll_us = s.poll_us;
  dir = dir;
}

module _ (p : Platform) (before : Info) (junk : ℕ → ℕ) where
  -- The rows, unless `die` ends the process.
  unfoldable pub benches : Config → Prog (Option (List Entry))
  benches cfg = bench_clock p cfg >>? (λ a. bench_uncontended p cfg >>? (λ b.
      bench_contended p cfg junk >>? (λ c. bench_wake p cfg before junk true >>? (λ d.
        bench_wake p cfg before junk false >>? (λ e. ret (some (a ++ b ++ c ++ (d ∷ e ∷ []))))))))

  abbrev exits_with : Option (List Entry) → ℕ × List Entry
  exits_with none = (1, [])
  exits_with (some rows) = (0, rows)

  -- `mkdtemp` answers with the name that it has made. The rows that were printed before `die` are left out.
  unfoldable pub bench_main : Settings → Prog (ℕ × List Entry)
  bench_main s = do
    m ← sys (Sys.mkdtemp (first 511 (base_of s.base p.env ++ ascii "/psmsgr-bench-XXXXXX")))
    if not m.okay then ret (1, []) else (do
      sys Sys.getpid
      o ← benches (config_of p s m.name)
      cleanup p (config_of p s m.name)
      ret (exits_with o))
