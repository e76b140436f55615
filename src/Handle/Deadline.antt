-- ===== src/Handle/Deadline.antt =====
-- `psmsgr_state_wait` returns, and when it returns TIMEOUT.
use ps_msgr.Prelude.{
  ℕ, zero, suc, ◌+◌, ◌-◌, ◌*◌, ◌%◌, ◌^◌, ◌≤◌, ◌<◌, ◌≡◌, ◌≢◌, refl, sym, ap, ◌∙◌, Bool, true, false,
  ◌&&◌, not, Option, none, some, leb, ◌==◌, bit_and, arith, Bool-cases, inl, inr,
}
use ps_msgr.Layout.{config_no_notify}
use ps_msgr.Result.{Rc}
use ps_msgr.Kernel.{Errno, Prog}
use ps_msgr.Kernel.Monitor.{Ends, Ends-then}
use ps_msgr.Lock.{is_ok}
use ps_msgr.Opening.Reading.{fails}
use ps_msgr.Handle.{Handle, retired, sync_from, reader_sync, check_attached, identity_check}
use ps_msgr.Handle.Wait.{
  wait_unattached, woken, wait_changed, wait_attached, wait_loop, wait, is_news, is_nodata,
  is_format, is_eintr, deadline_of,
}
use ps_msgr.Handle.Sync.{
  Passed, passed, Advances, Synced, Checked, sync_from-Ends, check_attached-Ends,
}

module _ (started most : ℕ) where
  -- TIMEOUT is returned when the clock has reached the deadline.
  abbrev pub InTime : (deadline : ℕ) → Passed → Rc × Handle → Type 0
  InTime deadline m x = x.0 ≡ Rc.timeout → deadline ≤ m.clock

  module _ (last deadline : ℕ) where
    -- So many rounds are enough from here.
    abbrev Enough : (rounds : ℕ) → Passed → Type 0
    Enough rounds m =
        (m.readings ≤ deadline + 1)
        × (m.retirements ≤ most)
        × (deadline + 1 + most < rounds + m.readings + m.retirements)

    abbrev Good : Passed → Prog (Rc × Handle) → Type 0
    Good m p = Ends passed (Advances started most) (InTime deadline) m p

    module _ (rounds : ℕ) (again : Handle → Prog (Rc × Handle))
        (loop : (m : Passed) (r : Handle) → Enough rounds m → Good m (again r)) where
      -- A round that starts in `m`, and has read no clock so far.
      abbrev Round : Passed → Type 0
      Round m =
          (m.readings ≤ deadline + 1)
          × (m.retirements ≤ most)
          × (deadline + 1 + most < rounds + 1 + m.readings + m.retirements)

      abbrev read_at : Passed → ℕ → Passed
      read_at m now = record m { readings = m.readings + 1; clock = now }

      -- The clock is short of the deadline: another round may follow.
      next-Round :
          (m : Passed) (now : ℕ)
          → Round m
          → m.readings ≤ now
          → leb deadline now ≡ false
          → Enough rounds (read_at m now)
      next-Round m now i h e = ground (arith, i, h)

      wait_unattached-Ends :
          (m : Passed) (r : Handle) → Round m → Good m (wait_unattached again r deadline)
      unfolding wait_unattached
      wait_unattached-Ends m r i t h = elim (Bool-cases (leb deadline t.value)) [
        | inl e ↦ rw e (λ _. ground arith)
        | inr e ↦ rw e (λ z _. elim (Bool-cases (not z.okay && is_eintr z.errno)) [
          | inl k ↦ rw k (λ x. cc)
          | inr k ↦ rw k (loop _ r (next-Round m t.value i h.0 e))
        ])
      ]

      woken-Ends :
          (m : Passed) (r : Handle) (okay : Bool) (e : Errno)
          → Enough rounds m
          → Good m (woken again r okay e)
      unfolding woken identity_check
      woken-Ends m r true e i = loop m r i
      woken-Ends m r false Errno.etimedout i =
          Ends-then passed (Advances started most) (Checked started most m) (InTime deadline) m
            (check_attached r r.hdr) _ (check_attached-Ends started most r.hdr m r)
            (λ m' c d. elim (Bool-cases (is_ok c.0)) [
              | inl e ↦ rw (e, d.0) (loop m c.1 i)
              | inr e ↦ rw e (λ x. absurd (cc (sym x ∙ d.1 e)))
            ])
      woken-Ends m r false Errno.eagain i = loop m r i
      woken-Ends m r false Errno.eintr i = λ x. cc
      woken-Ends m r false Errno.enoent i = λ x. cc
      woken-Ends m r false Errno.eexist i = λ x. cc
      woken-Ends m r false Errno.eacces i = λ x. cc
      woken-Ends m r false Errno.other i = λ x. cc

      wait_changed-Ends :
          (m : Passed) (r : Handle) (map notify : ℕ)
          → Round m
          → Good m (wait_changed again r map notify last deadline)
      unfolding wait_changed
      wait_changed-Ends m r map notify i g _ = elim (Bool-cases (is_news g.reading last)) [
        | inl e ↦ rw e (λ x. cc)
        | inr e ↦ rw e (elim (Bool-cases (is_format g.reading.rc)) [
          | inl e' ↦ rw e' (λ x. cc)
          | inr e' ↦ rw e' (λ t h. elim (Bool-cases (leb deadline t.value)) [
            | inl k ↦ rw k (λ _. ground arith)
            | inr k ↦ rw k (λ f _.
                woken-Ends (read_at m t.value) r f.okay f.errno (next-Round m t.value i h.0 k))
          ])
        ])
      ]

      wait_attached-Ends :
          (m : Passed) (r : Handle) (map : ℕ)
          → Round m
          → Good m (wait_attached again r map last deadline)
      unfolding wait_attached retired
      wait_attached-Ends m r map i =
          elim (Bool-cases (bit_and r.config_flags config_no_notify == 0)) [
            | inr e ↦ rw e (λ x. cc)
            | inl e ↦ rw e (λ n _ s few. elim (Bool-cases (bit_and s.value 1 == 0)) [
              | inl k ↦ rw k (wait_changed-Ends m r map n.value i)
              | inr k ↦ rw k (loop _ r (ground (arith, i, few (rw k refl))))
            ])
          ]

    fails-InTime : (rc : Rc) → fails rc ≡ true → rc ≢ Rc.timeout
    fails-InTime rc e x = cc (sym e ∙ ap fails x)

    wait_loop-Ends :
        (rounds : ℕ) (m : Passed) (r : Handle)
        → Enough rounds m
        → Good m (wait_loop rounds last deadline r)
    unfolding wait_loop reader_sync
    wait_loop-Ends zero m r i = absurd (omega (arith, i))
    wait_loop-Ends (suc rounds) m r i =
        let again = wait_loop rounds last deadline in
        let loop = wait_loop-Ends rounds in
        Ends-then passed (Advances started most) (Synced started most m) (InTime deadline) m
          (sync_from r r.hdr) _ (sync_from-Ends started most m r.hdr m r (refl, omega arith, i.1))
          (λ m' s d. elim (Bool-cases (is_ok s.0)) [
            | inl e ↦ rw e (wait_attached-Ends rounds again loop m' s.1 s.2 (omega (arith, i, d.0)))
            | inr e ↦ rw e (elim (Bool-cases (is_nodata s.0)) [
              | inl k ↦ rw k (wait_unattached-Ends rounds again loop m' s.1 (omega (arith, i, d.0)))
              | inr k ↦ rw k (λ x. absurd (fails-InTime s.0 (d.1 e) x))
            ])
          ])

  abbrev pub after_reading : (readings clock : ℕ) → Passed
  after_reading readings clock = record { readings = readings; clock = clock; retirements = 0 }

  bounded_deadline : (timeout_ms : Option ℕ) (clock : ℕ) → deadline_of clock timeout_ms < 2 ^ 64
  unfolding deadline_of
  bounded_deadline none clock = omega arith
  bounded_deadline (some ms) clock = omega arith

  in_time :
      (rounds readings : ℕ) (r : Handle) (last : ℕ) (timeout_ms : Option ℕ) (clock : ℕ)
      → readings ≤ 1
      → 2 ^ 64 + most + 1 < rounds
      → Ends passed
          (Advances started most)
          (InTime (deadline_of clock timeout_ms))
          (after_reading readings clock)
          (wait_loop rounds last (deadline_of clock timeout_ms) r)
  in_time rounds readings r last timeout_ms clock le h =
      let b = bounded_deadline timeout_ms clock in
      wait_loop-Ends last (deadline_of clock timeout_ms) rounds (after_reading readings clock) r
        (omega (arith, le), omega arith, omega (arith, b, h))

  -- The clock has reached the time of a timeout of so many milliseconds, of 1000000 nanoseconds each,
  -- from the first reading on; of a call without a timeout, the end of its range.
  abbrev pub IsDue : (timeout_ms : Option ℕ) → Passed → Rc × Handle → Type 0
  IsDue none m x = x.0 ≡ Rc.timeout → 2 ^ 64 - 1 ≤ m.clock
  IsDue (some ms) m x = x.0 ≡ Rc.timeout → (started + ms * 1000000) % 2 ^ 64 ≤ m.clock

  -- A wait returns, and in time. If the clock advances by a nanosecond or more from one reading to the
  -- next, and no more than `most` files are found retired, then 2^64 + `most` + 2 rounds are enough for
  -- every other answer of the kernel: wake-ups without cause, failures, a channel that comes and goes.
  -- With `timeout_ms`, TIMEOUT is returned only when the clock has reached `started`, which is what it
  -- said when the call first read it, and so many milliseconds more, as a 64-bit word; without a
  -- timeout, only when the clock is at the end of its range.
  pub wait-Ends :
      (rounds : ℕ) (r : Handle) (last : ℕ) (timeout_ms : Option ℕ)
      → 2 ^ 64 + most + 1 < rounds
      → Ends passed
          (Advances started most)
          (IsDue timeout_ms)
          (after_reading 0 0)
          (wait rounds r last timeout_ms)
  unfolding wait deadline_of
  wait-Ends rounds r last none h = in_time rounds 0 r last none 0 (omega arith) h
  wait-Ends rounds r last (some ms) h =
      λ t first. rw (first.1 refl) (in_time rounds 1 r last (some ms) started (omega arith) h)
