-- ===== src/Kernel.antt =====
-- The system calls that src/state.c, the tools and the examples make, as the nodes of a program: a
-- program makes a call, and goes on with the kernel's answer. The kernel is not modelled; a program is
-- right if it is for every answer. Loads and stores of a mapped file that other processes share stand
-- here too.
pub mod Resources
pub mod Texts
pub mod Monitor
use ps_msgr.Prelude.{ℕ, Bool, true, false, List}
use ps_msgr.Layout.{Header, Slot}
use ps_msgr.Memory.{File, Store}
use ps_msgr.Reader.{Reading}

-- The values of `errno` that the code tells apart.
pub data Errno : Type 0 where
  enoent eexist eagain eacces eintr etimedout other : Errno

pub record Stat : Type 0 where
  pub dev : ℕ
  pub ino : ℕ
  pub regular : Bool
  pub size : ℕ

-- A mapping is named by its address. `lock` calls are of open file descriptions (OFD).
pub data Sys : Type 0 where
  open_excl open_rdwr open_rdonly mkostemp : (path : List ℕ) → Sys
  fchmod : (fd mode : ℕ) → Sys
  fallocate : (fd size : ℕ) → Sys
  set_lock get_lock : (fd : ℕ) → Sys
  fstat : (fd : ℕ) → Sys
  lstat : (path : List ℕ) → Sys
  pread_header : (fd : ℕ) → Sys
  pread_latest : (fd : ℕ) → Sys
  pread_slot : (fd off : ℕ) → Sys
  mmap : (fd size : ℕ) → Sys
  munmap : (map size : ℕ) → Sys
  close : (fd : ℕ) → Sys
  unlink : (path : List ℕ) → Sys
  rename : (from to : List ℕ) → Sys
  opendir : (path : List ℕ) → Sys
  unlinkat : (fd : ℕ) (name : List ℕ) → Sys
  closedir : (fd : ℕ) → Sys
  clock_monotonic clock_realtime getpid getppid : Sys
  random : Sys
  stopped : Sys
  malloc : (size : ℕ) → Sys
  nanosleep : (ns : ℕ) → Sys
  futex_wait : (map expected ns : ℕ) → Sys
  futex_wake : (map : ℕ) → Sys
  load_latest load_state load_notify : (map : ℕ) → Sys
  load_generation : (map slot stride : ℕ) → Sys
  store_header : (map : ℕ) (h : Header) → Sys
  store_pid : (map pid : ℕ) → Sys
  or_state : (map bits : ℕ) → Sys
  add_notify : (map : ℕ) → Sys
  enter : (map : ℕ) → Sys
  make_stores : (map : ℕ) (stores : List Store) → Sys
  sleep_until : (ns : ℕ) → Sys
  pipe fork pdeathsig : Sys
  write_word : (fd value : ℕ) → Sys
  read_word : (fd : ℕ) → Sys
  waitpid : (pid : ℕ) → Sys
  mkdtemp rmdir : (path : List ℕ) → Sys
  read_latest : (map slot_count capacity size : ℕ) (copy : Bool) (buf : ℕ → ℕ) → Sys

-- What the kernel answers: each call reads the fields that it defines. `pread_latest` and `pread_slot`
-- are okay if they have read as much as was asked for; `read_word` and `write_word` move eight bytes, and
-- are okay if they have moved all. `stopped` is a load of a tool's `stop`, okay if the signal's handler
-- has set it. `enter` begins a call of the writer, which finds the file so and the clock at that value;
-- `make_stores` makes the call's stores. `opendir` answers with the stream's descriptor and with the
-- entries that `readdir` gives, `pipe` with the end that is read and with the `other` one.
pub record Answer : Type 0 where
  pub okay : Bool
  pub value : ℕ
  pub other : ℕ
  pub errno : Errno
  pub stat : Stat
  pub header : Header
  pub slot : Slot
  pub reading : Reading
  pub file : File
  pub name : List ℕ
  pub entries : List (List ℕ)

-- `stuck` is a loop that has used up its rounds.
pub data Prog (A : Type 0) : Type 0 where
  ret : A → Prog A
  call : Sys → (Answer → Prog A) → Prog A
  stuck : Prog A

infixl 5 ◌>>=◌ ◌>>◌
abbrev pub ◌>>=◌ : {A B : Type 0} → Prog A → (A → Prog B) → Prog B
ret a >>= f = f a
call s k >>= f = call s (λ a. k a >>= f)
stuck >>= f = stuck

abbrev pub ◌>>◌ : {A B : Type 0} → Prog A → Prog B → Prog B
m >> k = m >>= λ _. k

abbrev pub sys : Sys → Prog Answer
sys s = call s ret

abbrev pub is_enoent : Errno → Bool
is_enoent Errno.enoent = true
is_enoent _ = false

abbrev pub is_eexist : Errno → Bool
is_eexist Errno.eexist = true
is_eexist _ = false

-- EAGAIN or EACCES: the lock is held by another
abbrev pub is_held : Errno → Bool
is_held Errno.eagain = true
is_held Errno.eacces = true
is_held _ = false
