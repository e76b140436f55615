-- ===== src/Examples/Shutdown.antt =====
-- What the programs of examples/c hold while they run, and when they exit.
use ps_msgr.Prelude.{
  ℕ, zero, suc, ◌≤◌, ◌≡◌, refl, ap, ◌∙◌, true, Option, none, some, List, ◌∷◌, ◌==◌, Bool-cases, inl,
  inr, arith,
}
use ps_msgr.Result.{Rc}
use ps_msgr.Writer.{Writer}
use ps_msgr.Kernel.Resources.{Held, is_in, is_in-head, Ensures, Ensures-then}
use ps_msgr.Lock.{is_ok}
use ps_msgr.Lock.Discipline.{bare}
use ps_msgr.Opening.Discipline.{holds}
use ps_msgr.Opening.Writing.{writer_call}
use ps_msgr.Opening.Calling.{writer_call-Ensures}
use ps_msgr.Opening.Session.{writer_open, writer_close}
use ps_msgr.Opening.Lifetime.{SessionResult, writer_open-Ensures, writer_close-Ensures}
use ps_msgr.Examples.MotorWriter.{
  MotorStatus, motor_channel, motor_options, Published, publish_loop, motor_writer_opened,
  motor_writer,
}

module _ (encode : MotorStatus → ℕ → ℕ) (period_ns count : ℕ) where
  -- The same things are held, and the handle has the same lock.
  abbrev Goes : Held → (lock : ℕ) → Held → Published → Type 0
  Goes h lock h' r = (h' ≡ h) × (r.writer.lock_fd ≡ lock) × (r.status ≤ 1)

  publish_loop-Ensures :
      (h : Held) (map : ℕ)
      → is_in map h.maps ≡ true
      → (rounds : ℕ) (w : Writer) (seq next_ns : ℕ)
      → Ensures (Goes h w.lock_fd) h (publish_loop encode period_ns count map rounds w seq next_ns)
  unfolding publish_loop
  publish_loop-Ensures h map here zero w seq next_ns = tt
  publish_loop-Ensures h map here (suc k) w seq next_ns = (
    tt,
    λ s _. elim (Bool-cases s.okay) [
      | inl e ↦ rw e (refl, refl, omega arith)
      | inr e ↦ rw e (
          Ensures-then _ (Goes h w.lock_fd) h (writer_call map w _) _
            (writer_call-Ensures h map w _ here)
            (λ h' x d. rw d.0 (elim (Bool-cases (is_ok x.0)) [
              | inr bad ↦ rw bad (refl, d.1, omega arith)
              | inl ok ↦ rw ok (elim (Bool-cases (seq == count)) [
                | inl last ↦ rw last (refl, d.1, omega arith)
                | inr more ↦ rw more (
                  tt,
                  λ _ _.
                      Ensures-then (Goes h x.1.lock_fd) (Goes h w.lock_fd) h
                        (publish_loop encode period_ns count map k x.1 _ _) _
                        (publish_loop-Ensures h map here k x.1 _ _)
                        (λ h'' r z. (z.0, z.1 ∙ d.1, z.2)),
                )
              ])
            ])))
    ],
  )

  module _ (fds maps : List ℕ) where
    opened-Ensures :
        (rounds : ℕ) (h : Held) (rc : Rc) (w : Option (ℕ × Writer))
        → SessionResult fds maps h (rc, w)
        → Ensures
            (λ h' x. (h' ≡ bare fds maps) × (x.0 ≤ 1))
            h
            (motor_writer_opened encode period_ns count rounds rc w)
    unfolding motor_writer_opened
    opened-Ensures rounds h rc none s = (s.1, omega arith)
    opened-Ensures rounds h rc (some (map, w)) s =
        rw (ap is_ok s.0, s.1)
          (
            tt,
            λ t _.
                Ensures-then (Goes (holds w.lock_fd fds maps (map ∷ maps)) w.lock_fd) _
                  (holds w.lock_fd fds maps (map ∷ maps))
                  (publish_loop encode period_ns count map rounds w 1 t.value) _
                  (publish_loop-Ensures (holds w.lock_fd fds maps (map ∷ maps)) map
                    (is_in-head map maps) rounds w 1 t.value)
                  (λ h' r z.
                    Ensures-then (λ h'' _. h'' ≡ bare fds maps) _ h'
                      (writer_close (some (map, r.writer))) _
                      (writer_close-Ensures fds maps h' (Rc.ok, some (map, r.writer))
                        (refl, rw (z.0, z.1) refl))
                      (λ h'' _ e. (e, z.2))),
          )

    -- Whatever the kernel answers, whenever the signal comes and however long it publishes, motor_writer,
    -- once its command line is accepted, makes no call on a closed descriptor or on unmapped memory, exits with 0 or 1, and has then closed
    -- and unmapped all that it opened: the writer's lock is released.
    pub motor_writer-Ensures :
        (own size rounds : ℕ) (dir env : Option (List ℕ))
        → Ensures
            (λ h x. (h ≡ bare fds maps) × (x.0 ≤ 1))
            (bare fds maps)
            (motor_writer encode period_ns count own size rounds dir env)
    unfolding motor_writer
    motor_writer-Ensures own size rounds dir env =
        Ensures-then (SessionResult fds maps) _ (bare fds maps)
          (writer_open own size rounds (some motor_channel) env (some (motor_options own dir)) true)
          _
          (writer_open-Ensures fds maps own size rounds (some motor_channel) env
            (some (motor_options own dir)) true)
          (λ h x s. opened-Ensures rounds h x.0 x.1 s)
