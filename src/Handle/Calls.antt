-- ===== src/Handle/Calls.antt =====
-- What a reader holds after each call.
use ps_msgr.Prelude.{
  ℕ, zero, suc, ◌≡◌, refl, sym, subst, ap, ◌∙◌, Bool, true, false, ◌&&◌, ◌||◌, not, Option, none,
  some, List, leb, ◌==◌, if◌then◌else◌, bit_and, Bool-cases, inl, inr,
}
use ps_msgr.Layout.{config_no_notify}
use ps_msgr.Result.{Rc}
use ps_msgr.Kernel.{Errno, Prog, ret, ◌>>=◌}
use ps_msgr.Kernel.Resources.{Held, is_in-head, Ensures, Ensures-then}
use ps_msgr.Lock.{is_ok}
use ps_msgr.Handle.{identity_check, Handle, get, read, handed_out, announce}
use ps_msgr.Handle.Wait.{
  wait_unattached, woken, wait_changed, wait_attached, wait_loop, wait, is_news, is_nodata,
  is_format, is_eintr, deadline_of,
}
use ps_msgr.Opening.Reading.{fails}
use ps_msgr.Handle.Discipline.{
  owned, Keeps, Checked, sync-rule, retired-rule, identity_check-Ensures,
}

announce-hdr : (r : Handle) (i : _) → (announce r i).1.hdr ≡ r.hdr
unfolding announce
announce-hdr r none = refl
announce-hdr r (some i) = elim (Bool-cases r.announces) [ inl e ↦ rw e refl | inr e ↦ rw e refl ]

module _ (fds maps : List ℕ) where
  pub get-Ensures :
      (r : Handle) (buf : ℕ → ℕ) (size : ℕ) (copy : Bool)
      → Ensures (λ h g. Keeps fds maps h g.handle) (owned fds maps r.hdr) (get r buf size copy)
  unfolding get
  get-Ensures r buf size copy =
      sync-rule fds maps _ r _ (λ s f bad gone. rw bad refl)
        (λ s good here. rw good (
          is_in-head s.2 maps,
          λ a _. elim (Bool-cases (handed_out copy a.reading.rc)) [
            | inl e ↦ rw e (ap (owned fds maps) (sym (announce-hdr s.1 a.reading.info ∙ here)))
            | inr e ↦ rw e (ap (owned fds maps) (sym here))
          ],
        ))

  -- Whatever the kernel answers, a read uses no memory that is not mapped, and leaves the reader with
  -- the mapping of its handle and no descriptor.
  pub read-Ensures :
      (r : Handle) (has_buf info : Bool) (buf : ℕ → ℕ) (size : ℕ)
      → Ensures
          (λ h g. Keeps fds maps h g.handle)
          (owned fds maps r.hdr)
          (read r has_buf info buf size)
  unfolding read
  read-Ensures r has_buf info buf size =
      elim (Bool-cases (not info || (not has_buf && not (size == 0)))) [
        | inl e ↦ rw e refl
        | inr e ↦ rw e (get-Ensures r buf size true)
      ]

  -- The codes that `wait` returns: OK, TIMEOUT, INTR, SYS, FORMAT and NOTSUP.
  abbrev pub wait_code : Rc → Bool
  wait_code Rc.ok = true
  wait_code Rc.timeout = true
  wait_code Rc.intr = true
  wait_code Rc.sys = true
  wait_code Rc.format = true
  wait_code Rc.notsup = true
  wait_code _ = false

  abbrev pub Waited : Held → Rc × Handle → Type 0
  Waited h x = Keeps fds maps h x.1 × (wait_code x.0 ≡ true)

  fails-wait : (rc : Rc) → fails rc ≡ true → is_nodata rc ≡ false → wait_code rc ≡ true
  fails-wait Rc.ok e n = refl
  fails-wait Rc.inval e n = e
  fails-wait Rc.sys e n = refl
  fails-wait Rc.nodata e n = sym n
  fails-wait Rc.toosmall e n = e
  fails-wait Rc.toobig e n = e
  fails-wait Rc.busy e n = e
  fails-wait Rc.timeout e n = refl
  fails-wait Rc.intr e n = refl
  fails-wait Rc.writer_exists e n = e
  fails-wait Rc.mismatch e n = e
  fails-wait Rc.format e n = refl
  fails-wait Rc.notsup e n = refl
  fails-wait Rc.state e n = e

  -- A mapped handle that stops here, or goes on.
  stay :
      (r : Handle) (map : ℕ) (p : Prog (Rc × Handle))
      → r.hdr ≡ some map
      → Ensures Waited (owned fds maps r.hdr) p
      → Ensures Waited (owned fds maps (some map)) p
  stay r map p here e = subst (λ x. Ensures Waited (owned fds maps x) p) here e

  module _ (again : Handle → Prog (Rc × Handle))
      (loop : (r : Handle) → Ensures Waited (owned fds maps r.hdr) (again r)) where
    wait_unattached-Ensures :
        (r : Handle) (deadline : ℕ)
        → Ensures Waited (owned fds maps r.hdr) (wait_unattached again r deadline)
    unfolding wait_unattached
    wait_unattached-Ensures r deadline = (
      tt,
      λ t _. elim (Bool-cases (leb deadline t.value)) [
        | inl e ↦ rw e (refl, refl)
        | inr e ↦ rw e (
          tt,
          λ z _. elim (Bool-cases (not z.okay && is_eintr z.errno)) [
            | inl e' ↦ rw e' (refl, refl)
            | inr e' ↦ rw e' (loop r)
          ],
        )
      ],
    )

    checked :
        (r : Handle)
        → Ensures Waited
            (owned fds maps r.hdr)
            (identity_check r >>= λ c. if not (is_ok c.0) then ret c else again c.1)
    checked r =
        Ensures-then (Checked fds maps) Waited (owned fds maps r.hdr) (identity_check r) _
          (identity_check-Ensures fds maps r)
          (λ h c p. elim (Bool-cases (is_ok c.0)) [
            | inl e ↦ rw e (subst (λ x. Ensures Waited x (again c.1)) (sym p.0) (loop c.1))
            | inr e ↦ rw e (p.0, rw (p.1 e) refl)
          ])

    woken-Ensures :
        (r : Handle) (okay : Bool) (e : Errno)
        → Ensures Waited (owned fds maps r.hdr) (woken again r okay e)
    unfolding woken
    woken-Ensures r true e = loop r
    woken-Ensures r false Errno.eintr = (refl, refl)
    woken-Ensures r false Errno.etimedout = checked r
    woken-Ensures r false Errno.eagain = loop r
    woken-Ensures r false Errno.enoent = (refl, refl)
    woken-Ensures r false Errno.eexist = (refl, refl)
    woken-Ensures r false Errno.eacces = (refl, refl)
    woken-Ensures r false Errno.other = (refl, refl)

    wait_changed-Ensures :
        (r : Handle) (map notify last deadline : ℕ)
        → r.hdr ≡ some map
        → Ensures Waited (owned fds maps (some map)) (wait_changed again r map notify last deadline)
    unfolding wait_changed
    wait_changed-Ensures r map notify last deadline here =
        let kept = ap (owned fds maps) (sym here) in
        (
          is_in-head map maps,
          λ g _. elim (Bool-cases (is_news g.reading last)) [
            | inl e ↦ rw e (kept, refl)
            | inr e ↦ rw e (elim (Bool-cases (is_format g.reading.rc)) [
              | inl e' ↦ rw e' (kept, refl)
              | inr e' ↦ rw e' (
                tt,
                λ t _. elim (Bool-cases (leb deadline t.value)) [
                  | inl e'' ↦ rw e'' (kept, refl)
                  | inr e'' ↦ rw e'' (
                    is_in-head map maps,
                    λ f _.
                        stay r map (woken again r f.okay f.errno) here
                          (woken-Ensures r f.okay f.errno),
                  )
                ],
              )
            ])
          ],
        )

    wait_attached-Ensures :
        (r : Handle) (map last deadline : ℕ)
        → r.hdr ≡ some map
        → Ensures Waited (owned fds maps (some map)) (wait_attached again r map last deadline)
    unfolding wait_attached
    wait_attached-Ensures r map last deadline here =
        elim (Bool-cases (bit_and r.config_flags config_no_notify == 0)) [
          | inr e ↦ rw e (ap (owned fds maps) (sym here), refl)
          | inl e ↦ rw e (
            is_in-head map maps,
            λ n _.
                retired-rule fds maps Waited map
                  (λ old. if old then again r else wait_changed again r map n.value last deadline)
                  (λ old. elim (Bool-cases old) [
                    | inl o ↦ rw o (stay r map (again r) here (loop r))
                    | inr o ↦ rw o (wait_changed-Ensures r map n.value last deadline here)
                  ]),
          )
        ]

  wait_loop-Ensures :
      (rounds last deadline : ℕ) (r : Handle)
      → Ensures Waited (owned fds maps r.hdr) (wait_loop rounds last deadline r)
  unfolding wait_loop
  wait_loop-Ensures zero last deadline r = tt
  wait_loop-Ensures (suc rounds) last deadline r =
      let again = wait_loop rounds last deadline in
      let loop = wait_loop-Ensures rounds last deadline in
      sync-rule fds maps Waited r _
        (λ s bad no_ok gone. rw no_ok (elim (Bool-cases (is_nodata s.0)) [
          | inl e ↦ rw e (wait_unattached-Ensures again loop s.1 deadline)
          | inr e ↦ rw e (refl, fails-wait s.0 bad e)
        ]))
        (λ s good here. rw good (wait_attached-Ensures again loop s.1 s.2 last deadline here))

  -- Whatever the kernel answers and however long it goes on, a wait uses no memory that is not mapped,
  -- leaves the reader with the mapping of its handle and no descriptor, and returns none but the codes
  -- of `wait_code`: never NODATA, BUSY or TOOSMALL.
  pub wait-Ensures :
      (rounds : ℕ) (r : Handle) (last : ℕ) (timeout_ms : Option ℕ)
      → Ensures Waited (owned fds maps r.hdr) (wait rounds r last timeout_ms)
  unfolding wait
  wait-Ensures rounds r last none = wait_loop-Ensures rounds last (deadline_of 0 none) r
  wait-Ensures rounds r last (some ms) =
      (tt, λ t _. wait_loop-Ensures rounds last (deadline_of t.value (some ms)) r)
