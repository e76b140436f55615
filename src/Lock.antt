-- ===== src/Lock.antt =====
-- src/state.c: the writer's lock file.
pub mod Discipline
use ps_msgr.Prelude.{ℕ, zero, suc, Bool, true, false, ◌&&◌, not, List, ◌==◌, if◌then◌else◌}
use ps_msgr.Result.{Rc}
use ps_msgr.Kernel.{
  Sys, Answer, Stat, Prog, ret, stuck, ◌>>=◌, ◌>>◌, sys, is_enoent, is_eexist, is_held,
}

abbrev pub is_ok : Rc → Bool
is_ok Rc.ok = true
is_ok _ = false

abbrev pub is_sys : Rc → Bool
is_sys Rc.sys = true
is_sys _ = false

unfoldable pub same_file : Stat → Stat → Bool
same_file a b = a.dev == b.dev && a.ino == b.ino

-- Whether `path` still names the inode open as `fd`, and `*err`.
unfoldable pub names_inode : (path : List ℕ) → (fd : ℕ) → Prog (Bool × Rc)
names_inode path fd = do
  f ← sys (Sys.fstat fd)
  if not f.okay then ret (false, Rc.sys) else (do
    p ← sys (Sys.lstat path)
    if not p.okay
        then ret (false, (if is_enoent p.errno then Rc.ok else Rc.sys))
        else ret (same_file f.stat p.stat, Rc.ok))

-- The lock is held by another: `again` starts over.
unfoldable pub lock_held : (again : Prog (Rc × ℕ)) → (path : List ℕ) → (fd : ℕ) → Prog (Rc × ℕ)
lock_held again path fd = do
  (current, err) ← names_inode path fd
  sys (Sys.close fd)
  if not (is_ok err) then ret (err, 0) else if current then ret (Rc.writer_exists, 0) else again

unfoldable pub lock_taken : (again : Prog (Rc × ℕ)) → (path : List ℕ) → (fd : ℕ) → Prog (Rc × ℕ)
lock_taken again path fd = do
  (current, err) ← names_inode path fd
  if current
      then ret (Rc.ok, fd)
      else (do sys (Sys.close fd); if not (is_ok err) then ret (err, 0) else again)

-- `fcntl(F_OFD_SETLK)` on the open lock file, and what follows.
unfoldable pub try_lock : (again : Prog (Rc × ℕ)) → (path : List ℕ) → (fd : ℕ) → Prog (Rc × ℕ)
try_lock again path fd = do
  l ← sys (Sys.set_lock fd)
  if l.okay
      then lock_taken again path fd
      else if is_held l.errno
      then lock_held again path fd
      else (do sys (Sys.close fd); ret (Rc.sys, 0))

-- The mode of a file that this call created is set exactly.
unfoldable pub lock_opened :
    (again : Prog (Rc × ℕ)) → (path : List ℕ) → (mode fd : ℕ) → (created : Bool) → Prog (Rc × ℕ)
lock_opened again path mode fd false = try_lock again path fd
lock_opened again path mode fd true = do
  m ← sys (Sys.fchmod fd mode)
  if m.okay then try_lock again path fd else (do sys (Sys.close fd); ret (Rc.sys, 0))

-- The result code and `*out`; the first argument bounds the rounds of the loop.
unfoldable pub lock_channel : ℕ → (path : List ℕ) → (mode : ℕ) → Prog (Rc × ℕ)
lock_channel zero path mode = stuck
lock_channel (suc rounds) path mode =
    let again : Prog (Rc × ℕ) = lock_channel rounds path mode in
    do
      e ← sys (Sys.open_excl path)
      if e.okay
          then lock_opened again path mode e.value true
          else if is_eexist e.errno
          then (do
            o ← sys (Sys.open_rdwr path)
            if o.okay
                then lock_opened again path mode o.value false
                else if is_enoent o.errno
                then again
                else ret (Rc.sys, 0))
          else ret (Rc.sys, 0)
