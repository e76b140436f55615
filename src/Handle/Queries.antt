-- ===== src/Handle/Queries.antt =====
-- src/state.c: `psmsgr_state_describe_sized` and `psmsgr_state_writer_alive`.
use ps_msgr.Prelude.{ℕ, ◌/◌, ◌%◌, ◌^◌, Bool, true, false, ◌||◌, not, ltb, ◌==◌, if◌then◌else◌}
use ps_msgr.Result.{Rc}
use ps_msgr.Kernel.{Sys, Prog, ret, ◌>>=◌, ◌>>◌, sys, is_enoent}
use ps_msgr.Lock.{is_ok}
use ps_msgr.Handle.{Handle, Desc, desc_of, reader_sync, identity_check}

-- `sizeof` the description
abbrev pub desc_bytes : ℕ
desc_bytes = 16

abbrev pub desc_word : Desc → ℕ → ℕ
desc_word d i =
    if i == 0
    then d.capacity
    else if i == 1
    then d.slot_count
    else if i == 2
    then d.payload_type
    else d.flags

-- Byte `k` of the description in memory, on the little-endian hosts that are supported.
abbrev pub desc_byte : Desc → ℕ → ℕ
desc_byte d k = desc_word d (k / 4) / 256 ^ (k % 4) % 256

-- `desc` is the caller's memory, of `size` bytes; what lies behind them is left alone.
unfoldable pub describe_sized :
    Handle → (has_desc : Bool) → (desc : ℕ → ℕ) → (size : ℕ) → Prog (Rc × Handle × (ℕ → ℕ))
describe_sized r has_desc desc size =
    if not has_desc || size == 0 then ret (Rc.inval, r, desc) else (do
      s ← reader_sync r
      if not (is_ok s.0)
          then ret (s.0, s.1, desc)
          else ret (
            Rc.ok,
            s.1,
            λ k.
                if not (ltb k size)
                then desc k
                else if ltb k desc_bytes
                then desc_byte (desc_of s.1) k
                else 0,
          ))

pub data Liveness : Type 0 where
  dead alive : Liveness
  failed : Rc → Liveness

-- `F_UNLCK`
abbrev pub f_unlck : ℕ
f_unlck = 2

-- `l_type` is what `fcntl(F_OFD_GETLK)` leaves there.
abbrev liveness_of : (okay : Bool) → (l_type : ℕ) → Liveness
liveness_of false l_type = failed Rc.sys
liveness_of true l_type = if l_type == f_unlck then dead else alive

unfoldable pub query_lock : Handle → Prog (Liveness × Handle)
query_lock r = do
  f ← sys (Sys.open_rdonly r.paths.lock)
  if not f.okay then ret ((if is_enoent f.errno then dead else failed Rc.sys), r) else (do
    l ← sys (Sys.get_lock f.value)
    sys (Sys.close f.value)
    ret (liveness_of l.okay l.value, r))

-- `psmsgr_state_writer_alive` on a handle that is not NULL.
unfoldable pub writer_alive : Handle → Prog (Liveness × Handle)
writer_alive r = do
  c ← identity_check r
  if not (is_ok c.0) then ret (failed c.0, c.1) else (do s ← reader_sync c.1; query_lock s.1)
