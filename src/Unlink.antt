-- ===== src/Unlink.antt =====
-- src/state.c: `psmsgr_state_unlink`.
pub mod Discipline
pub mod Order
use ps_msgr.Prelude.{
  ℕ, Bool, true, false, ◌&&◌, ◌||◌, not, Option, none, some, List, ◌==◌, if◌then◌else◌,
}
use ps_msgr.Layout.{Header, magic_word, header_bytes}
use ps_msgr.Result.{Rc}
use ps_msgr.Name.{Paths, name_valid}
use ps_msgr.Kernel.{Answer, Errno, Sys, Stat, Prog, ret, ◌>>=◌, ◌>>◌, sys, is_enoent}
use ps_msgr.Lock.{is_ok, is_sys, lock_channel}
use ps_msgr.Opening.Sweep.{remove_stale_tmp}
use ps_msgr.Opening.{read_header, retire, unmap_old}
use ps_msgr.Kernel.Texts.{make_paths, is_empty_dir, name_of}

abbrev pub unlinked : (okay : Bool) → Errno → Rc
unlinked true e = Rc.ok
unlinked false e = if is_enoent e then Rc.nodata else Rc.sys

-- The header of the old file, mapped so that it can be retired.
unfoldable pub map_header : (fd : ℕ) → Rc × Stat × Header → Prog (Option ℕ)
map_header fd (rc, st, h) =
    if is_ok rc && h.magic == magic_word
    then (do m ← sys (Sys.mmap fd header_bytes); ret (if m.okay then some m.value else none))
    else ret none

unfoldable pub retire_if : Rc → Option ℕ → Prog (Unit {0})
retire_if rc none = ret tt
retire_if rc (some map) = do
  if is_ok rc then retire map else ret tt
  unmap_old (some map) header_bytes

-- The file is unlinked first: readers that wake up and attach again find the path gone.
unfoldable pub unlink_then_retire : Paths → Option ℕ → Prog Rc
unlink_then_retire p old = do
  u ← sys (Sys.unlink p.data_path)
  retire_if (unlinked u.okay u.errno) old
  ret (unlinked u.okay u.errno)

-- The data file, which is open as `fd`.
unfoldable pub unlink_data : Paths → (fd : ℕ) → Prog Rc
unlink_data p fd = do
  x ← read_header fd
  old ← map_header fd x
  sys (Sys.close fd)
  unlink_then_retire p old

unfoldable pub unlink_lock : Paths → Rc → Prog Rc
unlink_lock p rc = if is_sys rc then ret rc else (do
  u ← sys (Sys.unlink p.lock)
  ret (if not u.okay && not (is_enoent u.errno) then Rc.sys else rc))

-- What is left once the data file is dealt with: the lock file goes while the lock is held.
unfoldable pub unlink_end : Paths → (lock_fd : ℕ) → Rc → Prog Rc
unlink_end p lock_fd rc = do rc' ← unlink_lock p rc; sys (Sys.close lock_fd); ret rc'

unfoldable pub unlink_opened : Paths → Answer → Prog Rc
unlink_opened p f =
    if f.okay then unlink_data p f.value else ret (if is_enoent f.errno then Rc.nodata else Rc.sys)

-- Behind `lock_channel`, with the lock held.
unfoldable pub unlink_locked : Paths → (lock_fd : ℕ) → Prog Rc
unlink_locked p lock_fd = do
  remove_stale_tmp p
  f ← sys (Sys.open_rdwr p.data_path)
  rc ← unlink_opened p f
  unlink_end p lock_fd rc

unfoldable pub unlink_channel : (rounds : ℕ) → Paths → Prog Rc
unlink_channel rounds p = do
  l ← lock_channel rounds p.lock 0o600
  if not (is_ok l.0) then ret l.0 else unlink_locked p l.1

-- `psmsgr_state_unlink`; `rounds` bounds the loop of `lock_channel`.
unfoldable pub unlink : (rounds : ℕ) → (name dir env : Option (List ℕ)) → Prog Rc
unlink rounds name dir env = if not (name_valid name) || is_empty_dir dir then ret Rc.inval else (do
  p ← make_paths dir env (name_of name)
  elim p [ none ↦ ret Rc.sys | some paths ↦ unlink_channel rounds paths ])
