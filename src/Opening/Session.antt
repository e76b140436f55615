-- ===== src/Opening/Session.antt =====
-- src/state.c: `psmsgr_state_writer_open` and `psmsgr_state_writer_close`.
use ps_msgr.Prelude.{ℕ, Bool, true, false, not, Option, none, some, List, if◌then◌else◌}
use ps_msgr.Result.{Rc}
use ps_msgr.Name.{Paths, name_valid}
use ps_msgr.Options.{Options, load_options}
use ps_msgr.Writer.{Writer}
use ps_msgr.Kernel.{Sys, Prog, ret, ◌>>=◌, ◌>>◌, sys}
use ps_msgr.Kernel.Texts.{make_paths, name_of}
use ps_msgr.Lock.{is_ok, lock_channel}
use ps_msgr.Opening.{open_data}
use ps_msgr.Opening.Sweep.{remove_stale_tmp}

-- The handle that `calloc` clears and `lock_channel` gives its descriptor.
abbrev pub blank_writer : (lock_fd : ℕ) → Writer
blank_writer lock_fd = record {
  map_size = 0;
  slot_count = 0;
  slot_stride = 0;
  capacity = 0;
  notify = false;
  latest = 0;
  gen = 0;
  open_slot = 0;
  open_seq = 0;
  lock_fd = lock_fd;
}

-- With the lock: the code, the mapping and the handle if it is OK.
unfoldable pub open_locked : Options → Paths → (lock_fd : ℕ) → Prog (Rc × Option (ℕ × Writer))
open_locked o p lock_fd = do
  remove_stale_tmp p
  r ← open_data (blank_writer lock_fd) o p
  if not (is_ok r.rc) then (do sys (Sys.close lock_fd); ret (r.rc, none)) else (do
    pid ← sys Sys.getpid
    sys (Sys.store_pid r.map pid.value)
    ret (Rc.ok, some (r.map, r.writer)))

unfoldable pub open_paths :
    (size rounds : ℕ) → Options → Option Paths → Prog (Rc × Option (ℕ × Writer))
open_paths size rounds o none = ret (Rc.sys, none)
open_paths size rounds o (some p) = do
  c ← sys (Sys.malloc size)
  if not c.okay then ret (Rc.sys, none) else (do
    l ← lock_channel rounds p.lock o.mode
    if not (is_ok l.0) then ret (l.0, none) else open_locked o p l.1)

-- Behind `load_options`.
unfoldable pub open_named :
    (size rounds : ℕ)
    → (name env : Option (List ℕ)) → Option Options
    → Prog (Rc × Option (ℕ × Writer))
open_named size rounds name env none = ret (Rc.inval, none)
open_named size rounds name env (some o) =
    if not (name_valid name)
    then ret (Rc.inval, none)
    else (do p ← make_paths o.dir env (name_of name); open_paths size rounds o p)

-- `out` says that the pointer is not NULL; `own` and `size` are the sizes of the structs of the options
-- and of the handle, and `rounds` bounds the loop of `lock_channel`.
unfoldable pub writer_open :
    (own size rounds : ℕ)
    → (name env : Option (List ℕ)) → Option Options
    → (out : Bool) → Prog (Rc × Option (ℕ × Writer))
writer_open own size rounds name env opt false = ret (Rc.inval, none)
writer_open own size rounds name env opt true =
    open_named size rounds name env (load_options own opt)

unfoldable pub writer_close : Option (ℕ × Writer) → Prog (Unit {0})
writer_close none = ret tt
writer_close (some (map, w)) = do sys (Sys.munmap map w.map_size); sys (Sys.close w.lock_fd); ret tt
