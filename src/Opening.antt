-- ===== src/Opening.antt =====
-- src/state.c: opening a channel for writing. The file is created, reused, replaced or refused.
pub mod Decisions
pub mod Reuse
pub mod Session
pub mod Reading
pub mod Creation
pub mod Discipline
pub mod Order
pub mod Lifetime
pub mod Sweep
pub mod Sweeping
pub mod Swept
pub mod Writing
pub mod Calling
use ps_msgr.Prelude.{
  ℕ, ◌+◌, ◌*◌, Bool, true, false, ◌&&◌, ◌||◌, not, Option, none, some, List, ◌++◌, bit_and, ltb,
  ◌==◌, if◌then◌else◌, length,
}
use ps_msgr.Layout.{
  Header, magic_word, minor, header_bytes, latest_none, state_retired, psmi_latest_slot,
  psmi_latest_valid, psmi_slot_stride, psmi_file_size, header_valid,
}
use ps_msgr.Result.{Rc}
use ps_msgr.Name.{Paths, ascii, name_valid, paths_init}
use ps_msgr.Generation.{next_generation, random_generation}
use ps_msgr.Options.{Options, load_options, config_flags_of, new_header, recreate_flag}
use ps_msgr.Writer.{Writer, writer_attach}
use ps_msgr.Kernel.{Sys, Answer, Stat, Prog, ret, call, stuck, ◌>>=◌, ◌>>◌, sys, is_enoent}
use ps_msgr.Lock.{is_ok, is_sys, lock_channel}

-- A result code with the mapping and the handle that it stands for if it is OK.
pub record Opened : Type 0 where
  pub rc : Rc
  pub map : ℕ
  pub writer : Writer

unfoldable pub read_header : (fd : ℕ) → Prog (Rc × Stat × Header)
read_header fd = do
  f ← sys (Sys.fstat fd)
  if not f.okay
      then ret (Rc.sys, f.stat, f.header)
      else if not f.stat.regular || ltb f.stat.size header_bytes
      then ret (Rc.format, f.stat, f.header)
      else (do
        p ← sys (Sys.pread_header fd)
        if not p.okay
            then ret (Rc.sys, f.stat, p.header)
            else ret ((if p.value == header_bytes then Rc.ok else Rc.format), f.stat, p.header))

-- Tells attached readers and waiters to reattach.
unfoldable pub retire : (map : ℕ) → Prog (Unit {0})
retire map = do
  sys (Sys.or_state map state_retired)
  sys (Sys.add_notify map)
  sys (Sys.futex_wake map)
  ret tt

unfoldable pub retire_old : Option ℕ → Prog (Unit {0})
retire_old none = ret tt
retire_old (some map) = retire map

unfoldable pub unmap_old : Option ℕ → (size : ℕ) → Prog (Unit {0})
unmap_old none size = ret tt
unmap_old (some map) size = do sys (Sys.munmap map size); ret tt

unfoldable pub random_gen : Prog ℕ
random_gen = do
  r ← sys Sys.random
  if r.okay then ret (random_generation (some r.value) 0 0 0) else (do
    m ← sys Sys.clock_monotonic
    t ← sys Sys.clock_realtime
    p ← sys Sys.getpid
    ret (random_generation none m.value t.value p.value))

-- `fail:` of `create_file`, with the mapping if it was made.
unfoldable pub create_fail :
    Writer → (fd : ℕ) → (map : Option ℕ) → (size : ℕ) → (tmp : List ℕ) → Prog Opened
create_fail w fd map size tmp = do
  unmap_old map size
  sys (Sys.close fd)
  sys (Sys.unlink tmp)
  ret (record { rc = Rc.sys; map = 0; writer = w })

-- From the mapped temporary file on.
unfoldable pub create_mapped :
    Writer
    → Options
    → Paths
    → (old : Option ℕ) → (gen fd size map : ℕ) → (tmp : List ℕ) → Prog Opened
create_mapped w o p old gen fd size map tmp = do
  t ← sys Sys.clock_realtime
  sys (Sys.store_header map (new_header o t.value))
  r ← sys (Sys.rename tmp p.data_path)
  if not r.okay then create_fail w fd (some map) size tmp else (do
    sys (Sys.close fd)
    retire_old old
    ret (record {
      rc = Rc.ok;
      map = map;
      writer = writer_attach w size (new_header o t.value) latest_none gen;
    }))

-- From the open temporary file on.
unfoldable pub create_opened :
    Writer → Options → Paths → (old : Option ℕ) → (gen fd size : ℕ) → (tmp : List ℕ) → Prog Opened
create_opened w o p old gen fd size tmp = do
  c ← sys (Sys.fchmod fd o.mode)
  if not c.okay then create_fail w fd none size tmp else (do
    a ← sys (Sys.fallocate fd size)
    if not a.okay then create_fail w fd none size tmp else (do
      x ← sys (Sys.mmap fd size)
      if not x.okay
          then create_fail w fd none size tmp
          else create_mapped w o p old gen fd size x.value tmp))

unfoldable pub create_file : Writer → Options → Paths → (old : Option ℕ) → (gen : ℕ) → Prog Opened
create_file w o p old gen =
    let size : ℕ = psmi_file_size o.slot_count (psmi_slot_stride o.capacity) in
    do
      m ← sys (Sys.malloc (length p.data_path + 12))
      if not m.okay then ret (record { rc = Rc.sys; map = 0; writer = w }) else (do
        f ← sys (Sys.mkostemp (p.data_path ++ ascii ".tmp.XXXXXX"))
        if not f.okay
            then ret (record { rc = Rc.sys; map = 0; writer = w })
            else create_opened w o p old gen f.value size f.name)

pub data Decision : Type 0 where
  create reuse : Decision
  refuse : Rc → Decision

-- What becomes of an existing file: `h` is its header, `state` its state word, and `valid` says that
-- the header and `latest` are valid.
unfoldable pub decide : (o : Options) → (valid : Bool) → (state : ℕ) → (h : Header) → Decision
decide o valid state h =
    let recreate : Bool = not (bit_and o.flags recreate_flag == 0) in
    if not valid
    then (if recreate then create else refuse Rc.format)
    else if not (bit_and state state_retired == 0)
    then create
    else if not (h.capacity == o.capacity)
        || not (h.slot_count == o.slot_count)
        || not (h.payload_type == o.payload_type)
        || not (h.config_flags == config_flags_of o)
    then (if recreate then create else refuse Rc.mismatch)
    else if not (h.version_minor == minor)
    then create
    else reuse

unfoldable pub act :
    Writer
    → Options
    → Paths
    → (old : Option ℕ) → (map_size : ℕ) → Header
    → (latest gen : ℕ) → Decision
    → Prog Opened
act w o p old map_size h latest gen create = do
  r ← create_file w o p old gen
  unmap_old old map_size
  ret r
act w o p old map_size h latest gen (refuse rc) = do
  unmap_old old map_size
  ret (record { rc = rc; map = 0; writer = w })
act w o p none map_size h latest gen reuse =
    ret (record { rc = Rc.ok; map = 0; writer = writer_attach w map_size h latest gen })
act w o p (some map) map_size h latest gen reuse =
    ret (record { rc = Rc.ok; map = map; writer = writer_attach w map_size h latest gen })

-- The file is valid and mapped: its dynamic words.
unfoldable pub open_valid : Writer → Options → Paths → (map map_size : ℕ) → Header → Prog Opened
open_valid w o p map map_size h = do
  l ← sys (Sys.load_latest map)
  if not (psmi_latest_valid l.value h.slot_count)
      then (do g ← random_gen; act w o p (some map) map_size h latest_none g (decide o false 0 h))
      else if l.value == latest_none
      then (do
        g ← random_gen
        s ← sys (Sys.load_state map)
        act w o p (some map) map_size h latest_none g (decide o true s.value h))
      else (do
        g ← sys (Sys.load_generation map (psmi_latest_slot l.value) h.slot_stride)
        s ← sys (Sys.load_state map)
        act w o p (some map) map_size h (psmi_latest_slot l.value) (next_generation g.value)
            (decide o true s.value h))

-- The file is not valid; its header is mapped if it has the magic word, so that it can be retired.
unfoldable pub open_invalid : Writer → Options → Paths → (old : Option ℕ) → Header → Prog Opened
open_invalid w o p old h = do
  g ← random_gen
  act w o p old header_bytes h latest_none g (decide o false 0 h)

-- `mmap` of `size` bytes, and `close`; `none` if it fails.
unfoldable pub map_and_close : (fd size : ℕ) → Prog (Option ℕ)
map_and_close fd size = do
  m ← sys (Sys.mmap fd size)
  sys (Sys.close fd)
  ret (if m.okay then some m.value else none)

-- Behind `mmap`, which may have failed.
unfoldable pub open_mapped :
    Writer
    → (opens : (map size : ℕ) → Header → Prog Opened) → (size : ℕ) → Header
    → Option ℕ
    → Prog Opened
open_mapped w opens size h none = ret (record { rc = Rc.sys; map = 0; writer = w })
open_mapped w opens size h (some map) = opens map size h

unfoldable pub open_existing :
    Writer → Options → Paths → (fd : ℕ) → Rc × Stat × Header → Prog Opened
open_existing w o p fd (rc, st, h) =
    let size : ℕ = psmi_file_size h.slot_count h.slot_stride in
    if is_sys rc
    then (do sys (Sys.close fd); ret (record { rc = Rc.sys; map = 0; writer = w }))
    else if is_ok rc && header_valid h st.size
    then (do m ← map_and_close fd size; open_mapped w (open_valid w o p) size h m)
    else if is_ok rc && h.magic == magic_word
    then (do
      m ← map_and_close fd header_bytes
      open_mapped w (λ map _ h'. open_invalid w o p (some map) h') header_bytes h m)
    else (do sys (Sys.close fd); open_invalid w o p none h)

unfoldable pub open_data : Writer → Options → Paths → Prog Opened
open_data w o p = do
  f ← sys (Sys.open_rdwr p.data_path)
  if f.okay
      then (do r ← read_header f.value; open_existing w o p f.value r)
      else if is_enoent f.errno
      then (do g ← random_gen; create_file w o p none g)
      else ret (record { rc = Rc.sys; map = 0; writer = w })
