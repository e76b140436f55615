-- ===== src/Handle.antt =====
-- src/state.c: the reader's handle, which attaches to the channel's file when it is used.
pub mod Wait
pub mod Queries
pub mod Discipline
pub mod Calls
pub mod Announcing
pub mod Sync
pub mod Deadline
pub mod Describe
pub mod Linear
pub mod Asking
use ps_msgr.Prelude.{
  ℕ, zero, suc, ◌+◌, Bool, true, false, ◌&&◌, ◌||◌, not, Option, none, some, List, [], ◌∷◌, bit_and,
  ltb, ◌==◌, if◌then◌else◌, length,
}
use ps_msgr.Layout.{Header, config_no_notify, state_retired, psmi_file_size, header_valid}
use ps_msgr.Result.{Rc}
use ps_msgr.Name.{Paths, name_valid, paths_init, channel_dir}
use ps_msgr.Options.{no_notify_flag}
use ps_msgr.Reader.{Info}
use ps_msgr.Kernel.{Sys, Answer, Stat, Prog, ret, ◌>>=◌, ◌>>◌, sys, is_enoent}
use ps_msgr.Lock.{is_ok}
use ps_msgr.Kernel.Texts.{make_paths, is_empty_dir, name_of}
use ps_msgr.Opening.{read_header}

-- `struct psmsgr_state_reader`; `hdr` is the mapping, `none` while unattached.
pub record Handle : Type 0 where
  pub hdr : Option ℕ
  pub map_size : ℕ
  pub slot_count : ℕ
  pub slot_stride : ℕ
  pub capacity : ℕ
  pub payload_type : ℕ
  pub config_flags : ℕ
  pub announces : Bool
  pub dev : ℕ
  pub ino : ℕ
  pub paths : Paths

abbrev pub attach_retries : ℕ
attach_retries = 2

abbrev pub info_attached : ℕ
info_attached = 1

-- The handle that `calloc` clears and `paths_init` completes.
abbrev pub fresh_handle : Paths → Handle
fresh_handle p = record {
  hdr = none;
  map_size = 0;
  slot_count = 0;
  slot_stride = 0;
  capacity = 0;
  payload_type = 0;
  config_flags = 0;
  announces = false;
  dev = 0;
  ino = 0;
  paths = p;
}

-- `out` says that the pointer is not NULL, `size` is the size of the struct.
unfoldable pub reader_open :
    (size : ℕ) → (name dir env : Option (List ℕ)) → (out : Bool) → Prog (Rc × Option Handle)
reader_open size name dir env false = ret (Rc.inval, none)
reader_open size name dir env true =
    if not (name_valid name) || is_empty_dir dir then ret (Rc.inval, none) else (do
      c ← sys (Sys.malloc size)
      if not c.okay then ret (Rc.sys, none) else (do
        p ← make_paths dir env (name_of name)
        ret (elim p [ none ↦ (Rc.sys, none) | some paths ↦ (Rc.ok, some (fresh_handle paths)) ])))

-- `munmap` of `map`, the handle's `hdr`.
unfoldable pub detach : Handle → (map : ℕ) → Prog Handle
detach r map = do sys (Sys.munmap map r.map_size); ret (record r { hdr = none })

unfoldable pub detach_if : Handle → Option ℕ → Prog (Unit {0})
detach_if r none = ret tt
detach_if r (some map) = do detach r map; ret tt

unfoldable pub reader_close : Option Handle → Prog (Unit {0})
reader_close none = ret tt
reader_close (some r) = detach_if r r.hdr

abbrev pub attached : Handle → Header → Stat → (size map : ℕ) → Handle
attached r h st size map = record r {
  hdr = some map;
  map_size = size;
  slot_count = h.slot_count;
  slot_stride = h.slot_stride;
  capacity = h.capacity;
  payload_type = h.payload_type;
  config_flags = h.config_flags;
  announces = true;
  dev = st.dev;
  ino = st.ino;
}

-- The result code, the handle, and the mapping if the code is OK.
unfoldable pub attach_to : Handle → (fd : ℕ) → Rc × Stat × Header → Prog (Rc × Handle × ℕ)
attach_to r fd (rc, st, h) =
    let size : ℕ = psmi_file_size h.slot_count h.slot_stride in
    if not (is_ok rc)
    then (do sys (Sys.close fd); ret (rc, r, 0))
    else if not (header_valid h st.size)
    then (do sys (Sys.close fd); ret (Rc.format, r, 0))
    else (do
      m ← sys (Sys.mmap fd size)
      sys (Sys.close fd)
      ret (if m.okay then (Rc.ok, attached r h st size m.value, m.value) else (Rc.sys, r, 0)))

unfoldable pub attach : Handle → Prog (Rc × Handle × ℕ)
attach r = do
  f ← sys (Sys.open_rdonly r.paths.data_path)
  if not f.okay
      then ret ((if is_enoent f.errno then Rc.nodata else Rc.sys), r, 0)
      else (do x ← read_header f.value; attach_to r f.value x)

unfoldable pub retired : (map : ℕ) → Prog Bool
retired map = do s ← sys (Sys.load_state map); ret (not (bit_and s.value state_retired == 0))

-- A file that is retired is left again.
unfoldable pub settle :
    (again : Handle → Prog (Rc × Handle × ℕ)) → Rc × Handle × ℕ → Prog (Rc × Handle × ℕ)
settle again a = do old ← retired a.2; if not old then ret a else (do r' ← detach a.1 a.2; again r')

-- The attach loop of `reader_sync`, on an unattached handle.
unfoldable pub attach_loop : ℕ → Handle → Prog (Rc × Handle × ℕ)
attach_loop zero r = ret (Rc.nodata, r, 0)
attach_loop (suc k) r =
    let again : (Handle → Prog (Rc × Handle × ℕ)) = attach_loop k in
    do a ← attach r; if not (is_ok a.0) then ret a else settle again a

unfoldable pub sync_from : Handle → Option ℕ → Prog (Rc × Handle × ℕ)
sync_from r none = attach_loop attach_retries r
sync_from r (some map) = do
  old ← retired map
  if not old then ret (Rc.ok, r, map) else (do r' ← detach r map; attach_loop attach_retries r')

-- The result code, the handle, and its mapping if the code is OK.
unfoldable pub reader_sync : Handle → Prog (Rc × Handle × ℕ)
reader_sync r = sync_from r r.hdr

abbrev check_from : Handle → (map : ℕ) → Answer → Prog (Rc × Handle)
check_from r map a =
    if a.okay
    then (if a.stat.dev == r.dev && a.stat.ino == r.ino
        then ret (Rc.ok, r)
        else (do r' ← detach r map; ret (Rc.ok, r')))
    else if not (is_enoent a.errno)
    then ret (Rc.sys, r)
    else (do r' ← detach r map; ret (Rc.ok, r'))

unfoldable pub check_attached : Handle → Option ℕ → Prog (Rc × Handle)
check_attached r none = ret (Rc.ok, r)
check_attached r (some map) = do a ← sys (Sys.lstat r.paths.data_path); check_from r map a

unfoldable pub identity_check : Handle → Prog (Rc × Handle)
identity_check r = check_attached r r.hdr

-- Bit 0 of `flags` is set, which `read_latest` leaves 0.
unfoldable pub announce : Handle → Option Info → Option Info × Handle
announce r none = (none, r)
announce r (some i) =
    if r.announces
    then (some (record i { flags = i.flags + info_attached }), record r { announces = false })
    else (some i, r)

-- What `read` and `peek` return: the code, `*info` if it was written, `buf` if it was written to, and
-- the handle.
pub record Got : Type 0 where
  pub rc : Rc
  pub info : Option Info
  pub buf : ℕ → ℕ
  pub handle : Handle

abbrev pub handed_out : (copy : Bool) → Rc → Bool
handed_out copy Rc.ok = true
handed_out copy Rc.toosmall = copy
handed_out copy _ = false

abbrev pub refused : Rc → (ℕ → ℕ) → Handle → Got
refused rc buf r = record { rc = rc; info = none; buf = buf; handle = r }

unfoldable pub get : Handle → (buf : ℕ → ℕ) → (size : ℕ) → (copy : Bool) → Prog Got
get r buf size copy = do
  s ← reader_sync r
  if not (is_ok s.0) then ret (refused s.0 buf s.1) else (do
    a ← sys (Sys.read_latest s.2 s.1.slot_count s.1.capacity size copy buf)
    if handed_out copy a.reading.rc
        then ret (record {
          rc = a.reading.rc;
          info = (announce s.1 a.reading.info).0;
          buf = a.reading.buf;
          handle = (announce s.1 a.reading.info).1;
        })
        else ret (record {
          rc = a.reading.rc;
          info = a.reading.info;
          buf = a.reading.buf;
          handle = s.1;
        }))

-- The caller's `*info` behind a call.
abbrev pub written : (before : Info) → Option Info → Info
written before none = before
written before (some info) = info

-- `psmsgr_state_read` on a handle that is not NULL; `info` and `has_buf` say which pointers are not.
unfoldable pub read : Handle → (has_buf info : Bool) → (buf : ℕ → ℕ) → (size : ℕ) → Prog Got
read r has_buf info buf size =
    if not info || (not has_buf && not (size == 0))
    then ret (refused Rc.inval buf r)
    else get r buf size true

-- `psmsgr_state_peek` on a handle that is not NULL.
unfoldable pub peek : Handle → (info : Bool) → (buf : ℕ → ℕ) → Prog Got
peek r info buf = if not info then ret (refused Rc.inval buf r) else get r buf 0 false

-- `psmsgr_state_desc`
pub record Desc : Type 0 where
  pub capacity : ℕ
  pub slot_count : ℕ
  pub payload_type : ℕ
  pub flags : ℕ

abbrev pub desc_of : Handle → Desc
desc_of r = record {
  capacity = r.capacity;
  slot_count = r.slot_count;
  payload_type = r.payload_type;
  flags = if bit_and r.config_flags config_no_notify == 0 then 0 else no_notify_flag;
}
