-- ===== src/Lock/Discipline.antt =====
-- What `lock_channel` holds when it returns.
use ps_msgr.Prelude.{
  ℕ, zero, suc, ◌≡◌, ◌≢◌, ◌⊎◌, refl, sym, subst, ap, ◌∙◌, Bool, true, false, not, List, [], ◌∷◌,
  arith, Bool-cases, inl, inr,
}
use ps_msgr.Result.{Rc}
use ps_msgr.Kernel.{Sys, Answer, Prog, ret, call, ◌>>=◌, is_held, is_enoent, is_eexist}
use ps_msgr.Kernel.Resources.{Held, after, is_in, is_in-head, Ensures, Ensures->>=, Ensures-mono}
use ps_msgr.Lock.{is_ok, names_inode, lock_held, lock_taken, try_lock, lock_opened, lock_channel}

pub is_not_ok : (rc : Rc) → rc ≢ Rc.ok → is_ok rc ≡ false
is_not_ok Rc.ok ne = absurd (ne refl)
is_not_ok Rc.inval ne = refl
is_not_ok Rc.sys ne = refl
is_not_ok Rc.nodata ne = refl
is_not_ok Rc.toosmall ne = refl
is_not_ok Rc.toobig ne = refl
is_not_ok Rc.busy ne = refl
is_not_ok Rc.timeout ne = refl
is_not_ok Rc.intr ne = refl
is_not_ok Rc.writer_exists ne = refl
is_not_ok Rc.mismatch ne = refl
is_not_ok Rc.format ne = refl
is_not_ok Rc.notsup ne = refl
is_not_ok Rc.state ne = refl

-- `names_inode` leaves what is held alone, and reports no error when it says yes.
pub names_inode-Ensures :
    (path : List ℕ) (fd : ℕ) (h : Held)
    → is_in fd h.fds ≡ true
    → Ensures (λ h' r. (h' ≡ h) × (r.0 ≡ true → r.1 ≡ Rc.ok)) h (names_inode path fd)
unfolding names_inode
names_inode-Ensures path fd h i = (
  i,
  λ f _. elim (Bool-cases (not f.okay)) [
    | inl e ↦ rw e (refl, λ x. cc)
    | inr e ↦ rw e (
      tt,
      λ p _. elim (Bool-cases (not p.okay)) [
        | inl e' ↦ rw e' (refl, λ x. cc)
        | inr e' ↦ rw e' (refl, λ _. refl)
      ],
    )
  ],
)

pub names_inode-rule :
    {B : Type 0} (Q : Held → B → Type 0) (path : List ℕ) (fd : ℕ) (h : Held)
    (f : Bool × Rc → Prog B)
    → is_in fd h.fds ≡ true
    → ((r : Bool × Rc) → (r.0 ≡ true → r.1 ≡ Rc.ok) → Ensures Q h (f r))
    → Ensures Q h (names_inode path fd >>= f)
names_inode-rule Q path fd h f i next = Ensures->>= Q h (names_inode path fd) f (
    Ensures-mono _ _ h (names_inode path fd)
      (λ h' r p. subst (λ x. Ensures Q x (f r)) (sym p.0) (next r p.1))
      (names_inode-Ensures path fd h i))

module _ (fds maps : List ℕ) where
  abbrev pub bare : Held
  bare = record { fds = fds; maps = maps; locks = [] }

  abbrev pub locked : ℕ → Held
  locked fd = record { fds = fd ∷ fds; maps = maps; locks = fd ∷ [] }

  abbrev pub unlocked : ℕ → Held
  unlocked fd = record { fds = fd ∷ fds; maps = maps; locks = [] }

  -- On OK the caller holds one more descriptor, and the lock on it; else what it held before.
  abbrev pub LockResult : Held → Rc × ℕ → Type 0
  LockResult h r = ((r.0 ≡ Rc.ok) × (h ≡ locked r.1)) ⊎ ((r.0 ≢ Rc.ok) × (h ≡ bare))

  closed : (fd : ℕ) (a : Answer) → after (Sys.close fd) a (locked fd) ≡ bare
  closed fd a = ground arith

  closed_unlocked : (fd : ℕ) (a : Answer) → after (Sys.close fd) a (unlocked fd) ≡ bare
  closed_unlocked fd a = ground arith

  -- Closing the descriptor on top, with its lock or without.
  close_locked-rule :
      {B : Type 0} (Q : Held → B → Type 0) (fd : ℕ) (k : Answer → Prog B)
      → ((a : Answer) → Ensures Q bare (k a))
      → Ensures Q (locked fd) (call (Sys.close fd) k)
  close_locked-rule Q fd k next =
      (is_in-head fd fds, λ a _. subst (λ x. Ensures Q x (k a)) (sym (closed fd a)) (next a))

  pub close-rule :
      {B : Type 0} (Q : Held → B → Type 0) (fd : ℕ) (k : Answer → Prog B)
      → ((a : Answer) → Ensures Q bare (k a))
      → Ensures Q (unlocked fd) (call (Sys.close fd) k)
  close-rule Q fd k next = (
    is_in-head fd fds,
    λ a _. subst (λ x. Ensures Q x (k a)) (sym (closed_unlocked fd a)) (next a),
  )

  failed : (rc : Rc) (x : ℕ) → is_ok rc ≡ false → LockResult bare (rc, x)
  failed rc x e = inr (λ k. cc (sym e ∙ ap is_ok k), refl)

  module _ (again : Prog (Rc × ℕ)) (path : List ℕ) (loop : Ensures LockResult bare again) where
    lock_held-Ensures : (fd : ℕ) → Ensures LockResult (unlocked fd) (lock_held again path fd)
    unfolding lock_held
    lock_held-Ensures fd =
        names_inode-rule LockResult path fd (unlocked fd) _ (is_in-head fd fds) (λ r p.
          close-rule LockResult fd _ (λ a. elim (Bool-cases (is_ok r.1)) [
            | inr bad ↦ rw bad (failed r.1 0 bad)
            | inl good ↦ rw good (elim (Bool-cases r.0) [
              | inl e ↦ rw e (failed Rc.writer_exists 0 refl)
              | inr e ↦ rw e loop
            ])
          ]))

    lock_taken-Ensures : (fd : ℕ) → Ensures LockResult (locked fd) (lock_taken again path fd)
    unfolding lock_taken
    lock_taken-Ensures fd =
        names_inode-rule LockResult path fd (locked fd) _ (is_in-head fd fds) (λ r p.
          elim (Bool-cases r.0) [
            | inl e ↦ rw e (inl (refl, refl))
            | inr e ↦ rw e (
                close_locked-rule LockResult fd _ (λ a. elim (Bool-cases (is_ok r.1)) [
                  | inr bad ↦ rw bad (failed r.1 0 bad)
                  | inl good ↦ rw good loop
                ]))
          ])

    try_lock-Ensures : (fd : ℕ) → Ensures LockResult (unlocked fd) (try_lock again path fd)
    unfolding try_lock
    try_lock-Ensures fd = (
      is_in-head fd fds,
      λ l _. elim (Bool-cases l.okay) [
        | inl e ↦ rw e (lock_taken-Ensures fd)
        | inr e ↦ rw e (elim (Bool-cases (is_held l.errno)) [
          | inl e' ↦ rw e' (lock_held-Ensures fd)
          | inr e' ↦
              rw e' (close-rule LockResult fd (λ _. ret (Rc.sys, 0)) (λ a. failed Rc.sys 0 refl))
        ])
      ],
    )

    lock_opened-Ensures :
        (mode fd : ℕ) (created : Bool)
        → Ensures LockResult (unlocked fd) (lock_opened again path mode fd created)
    unfolding lock_opened
    lock_opened-Ensures mode fd false = try_lock-Ensures fd
    lock_opened-Ensures mode fd true = (
      is_in-head fd fds,
      λ m _. elim (Bool-cases m.okay) [
        | inl e ↦ rw e (try_lock-Ensures fd)
        | inr e ↦ rw e (close-rule LockResult fd (λ _. ret (Rc.sys, 0)) (λ a. failed Rc.sys 0 refl))
      ],
    )

  -- Whatever the kernel answers, and however many rounds the loop makes: `lock_channel` uses no
  -- descriptor that is not open, and returns OK with exactly one more descriptor, on which it holds
  -- the lock, or an error with exactly what it held before.
  pub lock_channel-Ensures :
      (rounds : ℕ) (path : List ℕ) (mode : ℕ)
      → Ensures LockResult bare (lock_channel rounds path mode)
  unfolding lock_channel
  lock_channel-Ensures zero path mode = tt
  lock_channel-Ensures (suc rounds) path mode =
      let again = lock_channel rounds path mode in
      let loop = lock_channel-Ensures rounds path mode in
      (
        tt,
        λ e _. elim (Bool-cases e.okay) [
          | inl ok ↦ rw ok (lock_opened-Ensures again path loop mode e.value true)
          | inr no' ↦ rw no' (elim (Bool-cases (is_eexist e.errno)) [
            | inr e' ↦ rw e' (failed Rc.sys 0 refl)
            | inl e' ↦ rw e' (
              tt,
              λ o _. elim (Bool-cases o.okay) [
                | inl ok' ↦ rw ok' (lock_opened-Ensures again path loop mode o.value false)
                | inr no'' ↦ rw no'' (elim (Bool-cases (is_enoent o.errno)) [
                  | inl e'' ↦ rw e'' loop
                  | inr e'' ↦ rw e'' (failed Rc.sys 0 refl)
                ])
              ],
            )
          ])
        ],
      )
