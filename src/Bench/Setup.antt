-- ===== src/Bench/Setup.antt =====
-- bench/psmsgr-bench.c: the settings, the names of the channels, and how they are opened.
use ps_msgr.Prelude.{ℕ, Option, none, some, List, [], ◌∷◌, ◌++◌, true, not, if◌then◌else◌}
use ps_msgr.Floating.{Double}
use ps_msgr.Name.{ascii}
use ps_msgr.Options.{Options, defaults}
use ps_msgr.Writer.{Writer}
use ps_msgr.Kernel.{Prog, ret, ◌>>=◌}
use ps_msgr.Lock.{is_ok}
use ps_msgr.Opening.Session.{writer_open}
use ps_msgr.Handle.{Handle, reader_open}
use ps_msgr.Bench.{Row}

-- `config`; `seconds_ns` is the duration of a run, `(uint64_t)(cfg.seconds * 1e9)`.
pub record Config : Type 0 where
  pub iterations : ℕ
  pub warmup : ℕ
  pub batch : ℕ
  pub seconds_ns : ℕ
  pub rate : ℕ
  pub poll_us : ℕ
  pub dir : List ℕ

-- What is not of the program: the sizes of the library's structs, `$PSMSGR_DIR`, how `printf` writes a
-- number, `qsort`, `(uint64_t)(seconds * 1e9)`, and the rounds of the library's loops.
pub record Platform : Type 0 where
  pub options_size : ℕ
  pub writer_size : ℕ
  pub reader_size : ℕ
  pub rounds : ℕ
  pub env : Option (List ℕ)
  pub decimal : ℕ → List ℕ
  pub sort : (ℕ → ℕ) → ℕ → ℕ → ℕ
  pub nanoseconds : Double → ℕ

-- A row that is printed; `busy` and `missed` are none where they do not apply.
pub record Entry : Type 0 where
  pub test : List ℕ
  pub size : ℕ
  pub row : Row
  pub per : ℕ
  pub busy : Option ℕ
  pub missed : Option ℕ

abbrev pub payload_sizes : List ℕ
payload_sizes = 16 ∷ 256 ∷ 4096 ∷ 65536 ∷ []

module _ (p : Platform) (cfg : Config) where
  abbrev pub chan_name : (what : List ℕ) → (size : ℕ) → List ℕ
  chan_name what size = what ++ (ascii "-" ++ p.decimal size)

  abbrev pub bench_options : (capacity flags : ℕ) → Options
  bench_options capacity flags = record (defaults p.options_size) {
    capacity = capacity;
    flags = flags;
    dir = some cfg.dir;
  }

  -- `none` is a call of `die`.
  unfoldable pub open_writer : (name : List ℕ) → (capacity flags : ℕ) → Prog (Option (ℕ × Writer))
  open_writer name capacity flags = do
    x ←
        writer_open p.options_size p.writer_size p.rounds (some name) p.env
          (some (bench_options capacity flags)) true
    if not (is_ok x.0) then ret none else ret x.1

  unfoldable pub open_reader : (name : List ℕ) → Prog (Option Handle)
  open_reader name = do
    x ← reader_open p.reader_size (some name) (some cfg.dir) p.env true
    if not (is_ok x.0) then ret none else ret x.1
