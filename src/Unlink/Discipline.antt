-- ===== src/Unlink/Discipline.antt =====
-- What `psmsgr_state_unlink` holds.
use ps_msgr.Prelude.{
  ℕ, ◌≡◌, refl, sym, subst, ap, true, false, ◌&&◌, ◌||◌, not, Option, none, some, List, ◌∷◌, ◌==◌,
  if◌then◌else◌, arith, Bool-cases, inl, inr,
}
use ps_msgr.Layout.{Header, magic_word}
use ps_msgr.Result.{Rc}
use ps_msgr.Name.{Paths, name_valid, paths_init}
use ps_msgr.Kernel.Texts.{make_paths, is_empty_dir, name_of}
use ps_msgr.Kernel.{Sys, Answer, Stat, Prog, ret, sys, ◌>>=◌, is_enoent}
use ps_msgr.Kernel.Resources.{Held, after, remove-head, is_in, is_in-head, Ensures, Ensures-then}
use ps_msgr.Lock.{is_ok, is_sys, lock_channel}
use ps_msgr.Lock.Discipline.{bare, LockResult, is_not_ok, lock_channel-Ensures}
use ps_msgr.Opening.{read_header, retire, unmap_old}
use ps_msgr.Opening.Reading.{fails, read_header-Ensures}
use ps_msgr.Opening.Creation.{mapped, base, opened, close-rule}
use ps_msgr.Opening.Sweeping.{remove_stale_tmp-rule}
use ps_msgr.Unlink.{
  map_header, retire_if, unlinked, unlink_then_retire, unlink_data, unlink_lock, unlink_end,
  unlink_opened, unlink_locked, unlink_channel, unlink,
}

module _ (lock : ℕ) (fds maps : List ℕ) where
  abbrev Kept : Held → Rc → Type 0
  Kept h rc = h ≡ base lock fds maps maps

  map_header-rule :
      {B : Type 0} (Q : Held → B → Type 0) (fd : ℕ) (x : Rc × Stat × Header) (f : Option ℕ → Prog B)
      → ((old : Option ℕ) → Ensures Q (opened lock fds maps fd (mapped lock fds maps old)) (f old))
      → Ensures Q (opened lock fds maps fd maps) (map_header fd x >>= f)
  unfolding map_header
  map_header-rule Q fd (rc, st, h) f next = elim (Bool-cases (is_ok rc && h.magic == magic_word)) [
    | inr e ↦ rw e (next none)
    | inl e ↦ rw e (
      is_in-head fd (lock ∷ fds),
      λ m _. elim (Bool-cases m.okay) [
        | inl e' ↦ rw e' (next (some m.value))
        | inr e' ↦ rw e' (next none)
      ],
    )
  ]

  retire_if-rule :
      {B : Type 0} (Q : Held → B → Type 0) (rc : Rc) (old : Option ℕ) (f : Unit {0} → Prog B)
      → Ensures Q (base lock fds maps maps) (f tt)
      → Ensures Q (base lock fds maps (mapped lock fds maps old)) (retire_if rc old >>= f)
  unfolding retire_if retire unmap_old
  retire_if-rule Q rc none f next = next
  retire_if-rule Q rc (some map) f next =
      let here = is_in-head map maps in
      let unmaps =
        subst (λ x. Ensures Q (base lock fds maps x) (f tt)) (sym (remove-head map maps)) next in
      elim (Bool-cases (is_ok rc)) [
        | inr e ↦ rw e (here, λ _ _. unmaps)
        | inl e ↦ rw e (here, λ _ _. (here, λ _ _. (here, λ _ _. (here, λ _ _. unmaps))))
      ]

  module _ (p : Paths) where
    then_retire :
        (old : Option ℕ)
        → Ensures Kept (base lock fds maps (mapped lock fds maps old)) (unlink_then_retire p old)
    unfolding unlink_then_retire
    then_retire old = (
      tt,
      λ u _.
          retire_if-rule Kept (unlinked u.okay u.errno) old (λ _. ret (unlinked u.okay u.errno))
            refl,
    )

    unlink_data-Ensures :
        (fd : ℕ)
        → is_in fd (lock ∷ fds) ≡ false
        → Ensures Kept (opened lock fds maps fd maps) (unlink_data p fd)
    unfolding unlink_data
    unlink_data-Ensures fd fresh =
        Ensures-then
          (λ h x. (h ≡ opened lock fds maps fd maps) × (is_ok x.0 ≡ false → fails x.0 ≡ true)) Kept
          (opened lock fds maps fd maps) (read_header fd) _
          (read_header-Ensures fd _ (is_in-head fd (lock ∷ fds)))
          (λ h x same. rw (same.0) (
            map_header-rule Kept fd x _ (λ old.
              close-rule lock fds maps Kept fd (mapped lock fds maps old)
                (λ _. unlink_then_retire p old) fresh (λ _. then_retire old))))

    unlink_opened-Ensures :
        (f : Answer)
        → (f.okay ≡ true → is_in f.value (lock ∷ fds) ≡ false)
        → Ensures Kept
            (after (Sys.open_rdwr p.data_path) f (base lock fds maps maps))
            (unlink_opened p f)
    unfolding unlink_opened
    unlink_opened-Ensures f fresh = elim (Bool-cases f.okay) [
      | inl e ↦ rw e (unlink_data-Ensures f.value (fresh e))
      | inr e ↦ rw e refl
    ]

    abbrev Released : Held → Rc → Type 0
    Released h rc = h ≡ bare fds maps

    unlock :
        (rc : Rc)
        → Ensures Released (base lock fds maps maps) (sys (Sys.close lock) >>= λ _. ret rc)
    unlock rc = (is_in-head lock fds, λ a _. ground arith)

    unlink_end-Ensures :
        (rc : Rc) → Ensures Released (base lock fds maps maps) (unlink_end p lock rc)
    unfolding unlink_end unlink_lock
    unlink_end-Ensures rc = elim (Bool-cases (is_sys rc)) [
      | inl e ↦ rw e (unlock rc)
      | inr e ↦
          rw e (tt, λ u _. unlock (if not u.okay && not (is_enoent u.errno) then Rc.sys else rc))
    ]

    unlink_locked-Ensures : Ensures Released (base lock fds maps maps) (unlink_locked p lock)
    unfolding unlink_locked
    unlink_locked-Ensures = remove_stale_tmp-rule Released (base lock fds maps maps) p _ (
      tt,
      λ f fresh.
          Ensures-then Kept Released _ (unlink_opened p f) (unlink_end p lock)
            (unlink_opened-Ensures f fresh) (λ h rc e. rw e (unlink_end-Ensures rc)),
    )

unlink_channel-Ensures :
    (fds maps : List ℕ) (rounds : ℕ) (p : Paths)
    → Ensures (λ h _. h ≡ bare fds maps) (bare fds maps) (unlink_channel rounds p)
unfolding unlink_channel
unlink_channel-Ensures fds maps rounds p =
    Ensures-then (LockResult fds maps) (λ h _. h ≡ bare fds maps) (bare fds maps)
      (lock_channel rounds p.lock 0o600) _ (lock_channel-Ensures fds maps rounds p.lock 0o600)
      (λ h l r. elim r [
        | inl (ok, e) ↦ rw (ap is_ok ok, e) (unlink_locked-Ensures l.1 fds maps p)
        | inr (ne, e) ↦ rw (is_not_ok l.0 ne, e) refl
      ])

made :
    (fds maps : List ℕ) (rounds : ℕ) (p : Option Paths)
    → Ensures
        (λ h _. h ≡ bare fds maps)
        (bare fds maps)
        (elim p [ none ↦ ret Rc.sys | some paths ↦ unlink_channel rounds paths ])
made fds maps rounds none = refl
made fds maps rounds (some p) = unlink_channel-Ensures fds maps rounds p

-- Whatever the kernel answers and however many rounds the lock takes, `psmsgr_state_unlink` uses no
-- descriptor that is not open and no memory that is not mapped, and returns with exactly the descriptors,
-- mappings and locks that it was called with.
pub unlink-Ensures :
    (fds maps : List ℕ) (rounds : ℕ) (name dir env : Option (List ℕ))
    → Ensures (λ h _. h ≡ bare fds maps) (bare fds maps) (unlink rounds name dir env)
unfolding unlink make_paths
unlink-Ensures fds maps rounds name dir env =
    elim (Bool-cases (not (name_valid name) || is_empty_dir dir)) [
      | inl e ↦ rw e refl
      | inr e ↦ rw e (tt, λ m _. made fds maps rounds (paths_init dir env (name_of name) m.okay))
    ]
