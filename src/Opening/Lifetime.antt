-- ===== src/Opening/Lifetime.antt =====
-- A writer's session: open, and close.
use ps_msgr.Prelude.{
  ℕ, ◌≡◌, ◌≢◌, refl, sym, ap, ◌∙◌, Bool, true, false, Option, none, some, List, ◌∷◌, arith,
  Bool-cases, inl, inr,
}
use ps_msgr.Result.{Rc}
use ps_msgr.Name.{Paths, name_valid}
use ps_msgr.Options.{Options, load_options}
use ps_msgr.Writer.{Writer}
use ps_msgr.Kernel.{Sys, Answer, ◌>>=◌}
use ps_msgr.Kernel.Texts.{make_paths}
use ps_msgr.Kernel.Resources.{Held, after, is_in-head, Ensures, Ensures-then}
use ps_msgr.Lock.{is_ok, lock_channel}
use ps_msgr.Lock.Discipline.{bare, LockResult, is_not_ok, lock_channel-Ensures}
use ps_msgr.Opening.{open_data}
use ps_msgr.Opening.Sweeping.{remove_stale_tmp-rule}
use ps_msgr.Opening.Session.{
  blank_writer, open_locked, open_paths, open_named, writer_open, writer_close,
}
use ps_msgr.Opening.Discipline.{holds, OpenResult, open_data-Ensures}

module _ (fds maps : List ℕ) where
  -- A handle stands for its mapping, and for the descriptor of its lock; without a handle nothing is
  -- held.
  abbrev pub SessionResult : Held → Rc × Option (ℕ × Writer) → Type 0
  SessionResult h (rc, none) = (rc ≢ Rc.ok) × (h ≡ bare fds maps)
  SessionResult h (rc, some (map, w)) = (rc ≡ Rc.ok) × (h ≡ holds w.lock_fd fds maps (map ∷ maps))

  unlocked :
      (lock : ℕ) (a : Answer) → after (Sys.close lock) a (holds lock fds maps maps) ≡ bare fds maps
  unlocked lock a = ground arith

  not_ok : (rc : Rc) → is_ok rc ≡ false → rc ≢ Rc.ok
  not_ok rc e k = cc (sym e ∙ ap is_ok k)

  open_locked-Ensures :
      (o : Options) (p : Paths) (lock : ℕ)
      → Ensures SessionResult (holds lock fds maps maps) (open_locked o p lock)
  unfolding open_locked
  open_locked-Ensures o p lock =
      remove_stale_tmp-rule SessionResult (holds lock fds maps maps) p _ (
        Ensures-then (OpenResult lock fds maps (blank_writer lock)) SessionResult
          (holds lock fds maps maps) (open_data (blank_writer lock) o p) _
          (open_data-Ensures lock fds maps (blank_writer lock) o p)
          (λ h r x. elim x [
            | inr (bad, e) ↦
                rw (bad, e) (is_in-head lock fds, λ a _. (not_ok r.rc bad, unlocked lock a))
            | inl (ok, own, e) ↦
                rw (ap is_ok ok, e)
                  (tt, λ pid _. (is_in-head r.map maps, λ _ _. (refl, rw own refl)))
          ]))

  open_paths-Ensures :
      (size rounds : ℕ) (o : Options) (p : Option Paths)
      → Ensures SessionResult (bare fds maps) (open_paths size rounds o p)
  unfolding open_paths
  open_paths-Ensures size rounds o none = (λ k. cc, refl)
  open_paths-Ensures size rounds o (some p) = (
    tt,
    λ c _. elim (Bool-cases c.okay) [
      | inr e ↦ rw e (λ k. cc, refl)
      | inl e ↦ rw e (
          Ensures-then (LockResult fds maps) SessionResult (bare fds maps)
            (lock_channel rounds p.lock o.mode) _
            (lock_channel-Ensures fds maps rounds p.lock o.mode)
            (λ h l x. elim x [
              | inr (ne, e') ↦ rw (is_not_ok l.0 ne, e') (ne, refl)
              | inl (ok, e') ↦ rw (ap is_ok ok, e') (open_locked-Ensures o p l.1)
            ]))
    ],
  )

  open_named-Ensures :
      (size rounds : ℕ) (name env : Option (List ℕ)) (opt : Option Options)
      → Ensures SessionResult (bare fds maps) (open_named size rounds name env opt)
  unfolding open_named make_paths
  open_named-Ensures size rounds name env none = (λ k. cc, refl)
  open_named-Ensures size rounds name env (some o) = elim (Bool-cases (name_valid name)) [
    | inr e ↦ rw e (λ k. cc, refl)
    | inl e ↦ rw e (tt, λ m _. open_paths-Ensures size rounds o _)
  ]

  pub writer_open-Ensures :
      (own size rounds : ℕ) (name env : Option (List ℕ)) (opt : Option Options) (out : Bool)
      → Ensures SessionResult (bare fds maps) (writer_open own size rounds name env opt out)
  unfolding writer_open
  writer_open-Ensures own size rounds name env opt false = (λ k. cc, refl)
  writer_open-Ensures own size rounds name env opt true =
      open_named-Ensures size rounds name env (load_options own opt)

  pub writer_close-Ensures :
      (h : Held) (r : Rc × Option (ℕ × Writer))
      → SessionResult h r
      → Ensures (λ h' _. h' ≡ bare fds maps) h (writer_close r.1)
  unfolding writer_close
  writer_close-Ensures h (rc, none) e = e.1
  writer_close-Ensures h (rc, some (map, w)) e =
      rw (e.1) (is_in-head map maps, λ _ _. (is_in-head w.lock_fd fds, λ a _. ground arith))

  -- Whatever the kernel answers, `psmsgr_state_writer_open` returns a handle exactly with OK, which then
  -- stands for one mapping and for the lock with its descriptor; closing what it returned leaves the
  -- process with exactly the descriptors, mappings and locks that it had before. No call between uses a
  -- descriptor that is not open or memory that is not mapped.
  pub writer_open-writer_close :
      (own size rounds : ℕ) (name env : Option (List ℕ)) (opt : Option Options) (out : Bool)
      → Ensures SessionResult (bare fds maps) (writer_open own size rounds name env opt out)
        × Ensures
            (λ h _. h ≡ bare fds maps)
            (bare fds maps)
            (writer_open own size rounds name env opt out >>= λ r. writer_close r.1)
  writer_open-writer_close own size rounds name env opt out =
      let opens = writer_open-Ensures own size rounds name env opt out in
      (
        opens,
        Ensures-then SessionResult (λ h _. h ≡ bare fds maps) (bare fds maps)
            (writer_open own size rounds name env opt out) (λ r. writer_close r.1) opens
            writer_close-Ensures,
      )
