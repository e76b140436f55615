-- ===== src/Handle/Wait.antt =====
-- src/state.c: `psmsgr_state_wait`.
use ps_msgr.Prelude.{
  ℕ, zero, suc, ◌+◌, ◌*◌, ◌%◌, ◌^◌, ◌-◌, Bool, true, false, ◌&&◌, not, Option, none, some, ltb, leb,
  ◌==◌, bit_and, if◌then◌else◌,
}
use ps_msgr.Layout.{config_no_notify}
use ps_msgr.Result.{Rc}
use ps_msgr.Reader.{Reading}
use ps_msgr.Kernel.{Errno, Sys, Prog, ret, stuck, ◌>>=◌, sys}
use ps_msgr.Lock.{is_ok}
use ps_msgr.Handle.{Handle, reader_sync, retired, identity_check}

abbrev pub wait_slice_ns : ℕ
wait_slice_ns = 1000000000

abbrev pub unattached_poll_ns : ℕ
unattached_poll_ns = 10000000

abbrev pub ns_per_ms : ℕ
ns_per_ms = 1000000

-- A timeout that is not negative is `some`; `clock` is read if it is one.
unfoldable pub deadline_of : (clock : ℕ) → Option ℕ → ℕ
deadline_of clock none = 2 ^ 64 - 1
deadline_of clock (some ms) = (clock + ms * ns_per_ms) % 2 ^ 64

-- The time to sleep, before the deadline: at most `most`.
unfoldable pub slice : (deadline now most : ℕ) → ℕ
slice deadline now most = if ltb (deadline - now) most then deadline - now else most

-- A peek shows a value other than the one that the caller has.
unfoldable pub is_news : Reading → (last_generation : ℕ) → Bool
is_news g last = is_ok g.rc && (elim g.info [ none ↦ false | some i ↦ not (i.generation == last) ])

abbrev pub is_nodata : Rc → Bool
is_nodata Rc.nodata = true
is_nodata _ = false

abbrev pub is_format : Rc → Bool
is_format Rc.format = true
is_format _ = false

abbrev pub is_eintr : Errno → Bool
is_eintr Errno.eintr = true
is_eintr _ = false

-- Unattached: polls the attach.
unfoldable pub wait_unattached :
    (again : Handle → Prog (Rc × Handle)) → Handle → (deadline : ℕ) → Prog (Rc × Handle)
wait_unattached again r deadline = do
  t ← sys Sys.clock_monotonic
  if leb deadline t.value then ret (Rc.timeout, r) else (do
    z ← sys (Sys.nanosleep (slice deadline t.value unattached_poll_ns))
    if not z.okay && is_eintr z.errno then ret (Rc.intr, r) else again r)

-- The answer of `futex_wait`.
unfoldable pub woken :
    (again : Handle → Prog (Rc × Handle)) → Handle → (okay : Bool) → Errno → Prog (Rc × Handle)
woken again r true e = again r
woken again r false Errno.eintr = ret (Rc.intr, r)
woken again r false Errno.etimedout = do
  c ← identity_check r
  if not (is_ok c.0) then ret c else again c.1
woken again r false Errno.eagain = again r
woken again r false e = ret (Rc.sys, r)

-- Attached, behind the load of `notify` and the check that the file is not retired.
unfoldable pub wait_changed :
    (again : Handle → Prog (Rc × Handle))
    → Handle
    → (map notify last deadline : ℕ) → Prog (Rc × Handle)
wait_changed again r map notify last deadline = do
  g ← sys (Sys.read_latest map r.slot_count r.capacity 0 false (λ _. 0))
  if is_news g.reading last
      then ret (Rc.ok, r)
      else if is_format g.reading.rc
      then ret (Rc.format, r)
      else (do
        t ← sys Sys.clock_monotonic
        if leb deadline t.value then ret (Rc.timeout, r) else (do
          f ← sys (Sys.futex_wait map notify (slice deadline t.value wait_slice_ns))
          woken again r f.okay f.errno))

unfoldable pub wait_attached :
    (again : Handle → Prog (Rc × Handle)) → Handle → (map last deadline : ℕ) → Prog (Rc × Handle)
wait_attached again r map last deadline =
    if not (bit_and r.config_flags config_no_notify == 0) then ret (Rc.notsup, r) else (do
      n ← sys (Sys.load_notify map)
      old ← retired map
      if old then again r else wait_changed again r map n.value last deadline)

-- The loop; the first argument bounds its rounds.
unfoldable pub wait_loop : ℕ → (last deadline : ℕ) → Handle → Prog (Rc × Handle)
wait_loop zero last deadline r = stuck
wait_loop (suc rounds) last deadline r =
    let again : (Handle → Prog (Rc × Handle)) = wait_loop rounds last deadline in
    do
      s ← reader_sync r
      if is_ok s.0
          then wait_attached again s.1 s.2 last deadline
          else if is_nodata s.0
          then wait_unattached again s.1 deadline
          else ret (s.0, s.1)

-- `psmsgr_state_wait` on a handle that is not NULL; a negative `timeout_ms` is `none`.
unfoldable pub wait :
    ℕ → Handle → (last_generation : ℕ) → (timeout_ms : Option ℕ) → Prog (Rc × Handle)
wait rounds r last none = wait_loop rounds last (deadline_of 0 none) r
wait rounds r last (some ms) = do
  t ← sys Sys.clock_monotonic
  wait_loop rounds last (deadline_of t.value (some ms)) r
