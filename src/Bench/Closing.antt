-- ===== src/Bench/Closing.antt =====
-- What the writer process holds, and what the cleaning up does.
use ps_msgr.Prelude.{
  ℕ, zero, suc, ◌+◌, ◌%◌, ◌^◌, ◌≡◌, refl, subst, ap, Bool, true, false, not, Option, none, some,
  List, [], ◌∷◌, ◌==◌, ltb, Bool-cases, inl, inr, if◌then◌else◌, arith,
}
use ps_msgr.Writer.{Writer}
use ps_msgr.Kernel.{Sys, ret}
use ps_msgr.Kernel.Resources.{Held, is_in, is_in-head, remove-head, Ensures, Ensures-then}
use ps_msgr.Lock.{is_ok}
use ps_msgr.Lock.Discipline.{bare}
use ps_msgr.Opening.Discipline.{holds}
use ps_msgr.Opening.Writing.{writer_call}
use ps_msgr.Opening.Calling.{writer_call-Ensures}
use ps_msgr.Opening.Session.{writer_open, writer_close}
use ps_msgr.Opening.Lifetime.{SessionResult, writer_open-Ensures, writer_close-Ensures}
use ps_msgr.Unlink.{unlink}
use ps_msgr.Unlink.Discipline.{unlink-Ensures}
use ps_msgr.Result.{Rc}
use ps_msgr.Bench.{period_of}
use ps_msgr.Bench.Setup.{Config, Platform, payload_sizes, bench_options, open_writer}
use ps_msgr.Bench.Process.{retrying, stamp_buf, publish_until, child_runs, child_opened, child}
use ps_msgr.Bench.Cleanup.{kinds, unlink_sizes, unlink_kinds, cleanup}
use ps_msgr.Bench.Discipline.{Alive, >>?-Ensures, retrying-Ensures}

stamp_buf-Ensures :
    (h : Held) (stamp : Bool) (buf : ℕ → ℕ) → Ensures (λ h' _. h' ≡ h) h (stamp_buf stamp buf)
unfolding stamp_buf
stamp_buf-Ensures h true buf = (tt, λ _ _. refl)
stamp_buf-Ensures h false buf = refl

-- The same is held, and the handle has this lock.
abbrev pub Locked : Held → (lock : ℕ) → Held → ℕ × Writer → Type 0
Locked h lock h' x = (h' ≡ h) × (x.1.lock_fd ≡ lock)

module _ (stamp : Bool) (size end_at period map : ℕ) (h : Held)
    (here : is_in map h.maps ≡ true) where
  publish_until-Ensures :
      (rounds next count : ℕ) (buf : ℕ → ℕ) (w : Writer)
      → Ensures
          (Alive (Locked h w.lock_fd))
          h
          (publish_until stamp size end_at period map rounds next count buf w)
  unfolding publish_until
  publish_until-Ensures zero next count buf w = tt
  publish_until-Ensures (suc k) next count buf w = elim (Bool-cases (ltb next end_at)) [
    | inr e ↦ rw e (refl, refl)
    | inl e ↦ rw e (
        Ensures-then (λ h' _. h' ≡ h) _ h (retrying k (Sys.sleep_until next)) _
          (retrying-Ensures h (Sys.sleep_until next) tt (λ a. refl) k)
          (λ h₁ _ e₁. rw e₁ (
            Ensures-then (λ h' _. h' ≡ h) _ h (stamp_buf stamp buf) _
              (stamp_buf-Ensures h stamp buf)
              (λ h₂ b e₂. rw e₂ (
                Ensures-then _ _ h (writer_call map w _) _ (writer_call-Ensures h map w _ here)
                  (λ h₃ x e₃. rw e₃.0 (elim (Bool-cases (is_ok x.0)) [
                    | inr bad ↦ rw bad tt
                    | inl ok ↦ rw ok (
                        subst
                          (λ l. Ensures (Alive (Locked h l)) h (
                            publish_until stamp size end_at period map k ((next + period) % 2 ^ 64)
                              (count + 1) b x.1))
                          e₃.1
                          (publish_until-Ensures k ((next + period) % 2 ^ 64) (count + 1) b x.1))
                  ])))))))
  ]

module _ (fds maps : List ℕ) (p : Platform) (cfg : Config) where
  open_writer-Ensures :
      (name : List ℕ) (capacity flags : ℕ)
      → Ensures
          (Alive (λ h (x : ℕ × Writer). h ≡ holds x.1.lock_fd fds maps (x.0 ∷ maps)))
          (bare fds maps)
          (open_writer p cfg name capacity flags)
  unfolding open_writer
  open_writer-Ensures name capacity flags =
      Ensures-then (SessionResult fds maps) _ (bare fds maps)
        (writer_open p.options_size p.writer_size p.rounds (some name) p.env
          (some (bench_options p cfg capacity flags)) true)
        _
        (writer_open-Ensures fds maps p.options_size p.writer_size p.rounds (some name) p.env
          (some (bench_options p cfg capacity flags)) true)
        (λ h x s. opened h x.0 x.1 s)
    where
      opened :
          (h : Held) (rc : Rc) (w : Option (ℕ × Writer))
          → SessionResult fds maps h (rc, w)
          → Ensures
              (Alive (λ h' (x : ℕ × Writer). h' ≡ holds x.1.lock_fd fds maps (x.0 ∷ maps)))
              h
              (if not (is_ok rc) then ret none else ret w)
      opened h rc none s = elim (Bool-cases (is_ok rc)) [ inl e ↦ rw e tt | inr e ↦ rw e tt ]
      opened h rc (some x) s = rw (ap is_ok s.0) (s.1)

module _ (fds maps : List ℕ) (p : Platform) (cfg : Config) where
  beside : (lock out : ℕ) (xs : List ℕ) → is_in out (lock ∷ out ∷ xs) ≡ true
  beside lock out xs = ground arith

  -- The channel is open, and so is the pipe's end.
  abbrev Open : (out : ℕ) → ℕ × Writer → Held
  Open out (map, w) = holds w.lock_fd (out ∷ fds) maps (map ∷ maps)

  abbrev Done : (out : ℕ) → Held → Unit {0} → Type 0
  Done out h x = h ≡ bare (out ∷ fds) maps

  child_runs-Ensures :
      (stamp : Bool) (size out : ℕ) (x : ℕ × Writer)
      → Ensures (Alive (Done out)) (Open out x) (child_runs p cfg stamp size out x)
  unfolding child_runs
  child_runs-Ensures stamp size out (map, w) = (
    tt,
    λ t _.
        >>?-Ensures (Locked (Open out (map, w)) w.lock_fd) (Done out) (Open out (map, w)) _ _
          (publish_until-Ensures stamp size ((t.value + cfg.seconds_ns) % 2 ^ 64)
            (period_of cfg.rate) map (Open out (map, w)) (is_in-head map maps) p.rounds
            ((t.value + period_of cfg.rate) % 2 ^ 64) 0 (λ _. 0) w)
          (λ h y e.
            Ensures-then (λ h' _. h' ≡ bare (out ∷ fds) maps) _ h (writer_close (some (map, y.1))) _
              (writer_close-Ensures (out ∷ fds) maps h (Rc.ok, some (map, y.1))
                (refl, rw (e.0, e.1) refl))
              (λ h' _ e'. rw e' (
                is_in-head out fds,
                λ o _. elim (Bool-cases o.okay) [ inl k ↦ rw k refl | inr k ↦ rw k tt ],
              ))),
  )

  child_opened-Ensures :
      (stamp : Bool) (size out : ℕ) (x : ℕ × Writer)
      → Ensures (Alive (Done out)) (Open out x) (child_opened p cfg stamp size out x)
  unfolding child_opened
  child_opened-Ensures stamp size out (map, w) = (
    tt,
    λ m _. elim (Bool-cases m.okay) [
      | inr e ↦ rw e tt
      | inl e ↦ rw e (
          Ensures-then _ _ (Open out (map, w)) (writer_call map w _) _
            (writer_call-Ensures (Open out (map, w)) map w _ (is_in-head map maps))
            (λ h x e₁. elim (Bool-cases (is_ok x.0)) [
              | inr bad ↦ rw bad tt
              | inl ok ↦
                  rw (ok, e₁.0)
                    (
                      beside w.lock_fd out fds,
                      λ o _. elim (Bool-cases o.okay) [
                        | inr k ↦ rw k tt
                        | inl k ↦ rw k (
                            subst
                              (λ l.
                                Ensures (Alive (Done out)) (holds l (out ∷ fds) maps (map ∷ maps))
                                  (child_runs p cfg stamp size out (map, x.1)))
                              e₁.1 (child_runs-Ensures stamp size out (map, x.1)))
                      ],
                    )
            ]))
    ],
  )

  -- Whatever the kernel answers, the writer process, which has inherited both ends of the pipe, makes no call
  -- on a closed descriptor or on unmapped memory; if it exits with 0, it has released the writer's lock
  -- and unmapped the channel, and holds the pipe's end to write to, but not the other.
  pub child-Ensures :
      (name : List ℕ) (size flags : ℕ) (stamp : Bool) (parent in_ out : ℕ)
      → Ensures
          (Alive (Done out))
          (bare (in_ ∷ out ∷ fds) maps)
          (child p cfg name size flags stamp parent in_ out)
  unfolding child
  child-Ensures name size flags stamp parent in_ out = (
    tt,
    λ d _. elim (Bool-cases d.okay) [
      | inr e ↦ rw e tt
      | inl e ↦ rw e (
        tt,
        λ pp _. elim (Bool-cases (pp.value == parent)) [
          | inr k ↦ rw k tt
          | inl k ↦ rw k (
            is_in-head in_ (out ∷ fds),
            λ _ _. rw (remove-head in_ (out ∷ fds)) (
                >>?-Ensures (λ h x. h ≡ Open out x) (Done out) (bare (out ∷ fds) maps)
                  (open_writer p cfg name size flags) _
                  (open_writer-Ensures (out ∷ fds) maps p cfg name size flags)
                  (λ h x e₁. rw e₁ (child_opened-Ensures stamp size out x))),
          )
        ],
      )
    ],
  )

  unlink_sizes-Ensures :
      (kind : List ℕ) (ss : List ℕ)
      → Ensures (λ h _. h ≡ bare fds maps) (bare fds maps) (unlink_sizes p cfg kind ss)
  unfolding unlink_sizes
  unlink_sizes-Ensures kind [] = refl
  unlink_sizes-Ensures kind (size ∷ more) =
      Ensures-then (λ h _. h ≡ bare fds maps) _ (bare fds maps) (unlink p.rounds _ _ p.env) _
        (unlink-Ensures fds maps p.rounds _ _ p.env)
        (λ h _ e. rw e (unlink_sizes-Ensures kind more))

  unlink_kinds-Ensures :
      (ks : List (List ℕ))
      → Ensures (λ h _. h ≡ bare fds maps) (bare fds maps) (unlink_kinds p cfg ks)
  unfolding unlink_kinds
  unlink_kinds-Ensures [] = refl
  unlink_kinds-Ensures (kind ∷ more) =
      Ensures-then (λ h _. h ≡ bare fds maps) _ (bare fds maps)
        (unlink_sizes p cfg kind payload_sizes) _ (unlink_sizes-Ensures kind payload_sizes)
        (λ h _ e. rw e (unlink_kinds-Ensures more))

  cleanup-Ensures : Ensures (λ h _. h ≡ bare fds maps) (bare fds maps) (cleanup p cfg)
  unfolding cleanup
  cleanup-Ensures =
      Ensures-then (λ h _. h ≡ bare fds maps) _ (bare fds maps) (unlink_kinds p cfg kinds) _
        (unlink_kinds-Ensures kinds)
        (λ h₁ _ e₁. rw e₁ (
          Ensures-then (λ h _. h ≡ bare fds maps) _ (bare fds maps) (unlink p.rounds _ _ p.env) _
            (unlink-Ensures fds maps p.rounds _ _ p.env)
            (λ h₂ _ e₂. rw e₂ (
              Ensures-then (λ h _. h ≡ bare fds maps) _ (bare fds maps) (unlink p.rounds _ _ p.env)
                _ (unlink-Ensures fds maps p.rounds _ _ p.env)
                (λ h₃ _ e₃. rw e₃ (tt, λ _ _. refl))))))
