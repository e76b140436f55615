-- ===== src/Reader.antt =====
-- src/state.c: `read_latest`, the lock-free read. A reader's loads happen one after another while the
-- writer goes on: `m t` is the mapped file when the reader makes its load number `t`.
pub mod Snapshot
pub mod Quiet
pub mod Monotone
use ps_msgr.Prelude.{
  ℕ, zero, suc, ◌+◌, ◌*◌, ◌%◌, ◌^◌, ◌≤◌, Bool, ◌&&◌, ◌||◌, not, Option, none, some, ltb, leb, ◌==◌,
  if◌then◌else◌,
}
use ps_msgr.Layout.{latest_none, psmi_latest, psmi_latest_slot, psmi_latest_valid}
use ps_msgr.Memory.{File, seq_at, latest_of}
use ps_msgr.Result.{Rc}

-- `psmsgr_state_info`, less the field that stays 0
pub record Info : Type 0 where
  pub generation : ℕ
  pub length : ℕ
  pub timestamp_ns : ℕ
  pub flags : ℕ

-- The C library's `memcpy`, which reads the bytes in any order: byte `k` of `n` is read `moment n k`
-- loads after the call. A 32-bit word of the slot's header is read whole.
pub record Memcpy : Type 0 where
  pub moment : ℕ → ℕ → ℕ
  pub moment_le : (n k : ℕ) → moment n k ≤ n

abbrev pub read_retries : ℕ
read_retries = 64

-- The result code, `*info` if it was written, what `buf` holds then, and the number of the next load.
pub record Reading : Type 0 where
  pub rc : Rc
  pub info : Option Info
  pub buf : ℕ → ℕ
  pub time : ℕ

pub data Attempt : Type 0 where
  returns : Reading → Attempt
  again : (buf : ℕ → ℕ) (time : ℕ) → Attempt

abbrev pub timestamp_of : (lo hi : ℕ) → ℕ
timestamp_of lo hi = hi * 2 ^ 32 + lo

module _ (cpy : Memcpy) (m : ℕ → File) where
  -- `psmi_seq_copy` out of slot `i`: its header's words at their offsets, and its payload.
  unfoldable pub copy_info : (i t : ℕ) → Info
  copy_info i t = record {
    generation = ((m (t + cpy.moment 20 4)).slots i).generation;
    length = ((m (t + cpy.moment 20 16)).slots i).length;
    timestamp_ns =
        timestamp_of ((m (t + cpy.moment 20 8)).slots i).timestamp_lo
          ((m (t + cpy.moment 20 12)).slots i).timestamp_hi;
    flags = 0;
  }

  unfoldable pub copy_payload : (i t n : ℕ) → (ℕ → ℕ) → ℕ → ℕ
  copy_payload i t n buf k = if ltb k n then ((m (t + cpy.moment n k)).slots i).payload k else buf k

  module _ (slot_count capacity size : ℕ) (copy skip_seq_recheck : Bool) where
    -- After the copies: the recheck of `seq`, and what is returned if it has not changed.
    unfoldable pub recheck : (i q : ℕ) → Info → (ℕ → ℕ) → ℕ → Attempt
    recheck i q info buf t =
        if seq_at (m t) i == q || skip_seq_recheck
        then (if ltb capacity info.length
            then returns (record { rc = Rc.format; info = none; buf = buf; time = t + 1 })
            else if not copy || leb info.length size
            then returns (record { rc = Rc.ok; info = some info; buf = buf; time = t + 1 })
            else returns (record { rc = Rc.toosmall; info = some info; buf = buf; time = t + 1 }))
        else again buf (t + 1)

    -- The copies out of slot `i`, whose `seq` was loaded as `q`.
    unfoldable pub copy_slot : (i q : ℕ) → (ℕ → ℕ) → ℕ → Attempt
    copy_slot i q buf t =
        let info : Info = copy_info i t in
        if copy && leb info.length size && leb info.length capacity
        then recheck i q info (copy_payload i (t + 20) info.length buf) (t + 20 + info.length)
        else recheck i q info buf (t + 20)

    -- One round of the loop, with its first load at `t`.
    unfoldable pub attempt : (ℕ → ℕ) → ℕ → Attempt
    attempt buf t =
        let latest : ℕ = latest_of (m t) in
        if latest == latest_none
        then returns (record { rc = Rc.nodata; info = none; buf = buf; time = t + 1 })
        else if not (psmi_latest_valid latest slot_count)
        then returns (record { rc = Rc.format; info = none; buf = buf; time = t + 1 })
        else let i : ℕ = psmi_latest_slot latest in
          let q : ℕ = seq_at (m (t + 1)) i in
          if q % 2 == 0 && psmi_latest i q == latest
          then copy_slot i q buf (t + 2)
          else again buf (t + 2)

    -- The loop, with the rounds left; `sched_yield` between rounds lets time pass, as any load does.
    unfoldable pub rounds : ℕ → (ℕ → ℕ) → ℕ → Reading
    rounds zero buf t = record { rc = Rc.busy; info = none; buf = buf; time = t }
    rounds (suc k) buf t = elim (attempt buf t) [ returns r ↦ r | again buf' t' ↦ rounds k buf' t' ]

    unfoldable pub read_latest : (ℕ → ℕ) → ℕ → Reading
    read_latest buf t = rounds read_retries buf t
