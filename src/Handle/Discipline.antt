-- ===== src/Handle/Discipline.antt =====
-- What a reader's handle holds: its mapping while it is attached, and nothing else.
use ps_msgr.Prelude.{
  ℕ, zero, suc, ◌≡◌, ◌⊎◌, refl, sym, subst, ap, ◌∙◌, Bool, true, false, ◌&&◌, Option, none, some,
  List, [], ◌∷◌, ◌==◌, Bool-cases, inl, inr,
}
use ps_msgr.Layout.{Header, psmi_file_size, header_valid}
use ps_msgr.Result.{Rc}
use ps_msgr.Kernel.{Sys, Answer, Stat, Prog, ret, call, ◌>>=◌, is_enoent}
use ps_msgr.Kernel.Resources.{Held, remove-head, is_in-head, Ensures, Ensures-then}
use ps_msgr.Lock.{is_ok}
use ps_msgr.Opening.{read_header}
use ps_msgr.Opening.Reading.{fails, read_header-Ensures}
use ps_msgr.Handle.{
  Handle, attached, attach_retries, detach, reader_close, attach_to, attach, retired, settle,
  attach_loop, sync_from, reader_sync, check_from, check_attached, identity_check, detach_if,
}

fails-is_ok : (rc : Rc) → fails rc ≡ true → is_ok rc ≡ false
fails-is_ok Rc.ok e = sym e
fails-is_ok Rc.inval e = refl
fails-is_ok Rc.sys e = refl
fails-is_ok Rc.nodata e = refl
fails-is_ok Rc.toosmall e = refl
fails-is_ok Rc.toobig e = refl
fails-is_ok Rc.busy e = refl
fails-is_ok Rc.timeout e = refl
fails-is_ok Rc.intr e = refl
fails-is_ok Rc.writer_exists e = refl
fails-is_ok Rc.mismatch e = refl
fails-is_ok Rc.format e = refl
fails-is_ok Rc.notsup e = refl
fails-is_ok Rc.state e = refl

module _ (fds maps : List ℕ) where
  abbrev pub mapped : Option ℕ → List ℕ
  mapped none = maps
  mapped (some map) = map ∷ maps

  -- What is held when the handle's `hdr` is this one.
  abbrev pub owned : Option ℕ → Held
  owned hdr = record { fds = fds; maps = mapped hdr; locks = [] }

  abbrev open_file : ℕ → Option ℕ → Held
  open_file fd hdr = record { fds = fd ∷ fds; maps = mapped hdr; locks = [] }

  -- On OK the handle is attached; else it is not.
  abbrev pub Synced : Held → Rc × Handle × ℕ → Type 0
  Synced h s =
      ((s.0 ≡ Rc.ok) × (s.1.hdr ≡ some s.2) × (h ≡ owned (some s.2)))
      ⊎ ((fails s.0 ≡ true) × (s.1.hdr ≡ none) × (h ≡ owned none))

  abbrev pub Keeps : Held → Handle → Type 0
  Keeps h r = h ≡ owned r.hdr

  pub Synced-Keeps : (h : Held) (s : Rc × Handle × ℕ) → Synced h s → Keeps h s.1
  Synced-Keeps h s (inl (a, b, c)) = c ∙ ap owned (sym b)
  Synced-Keeps h s (inr (a, b, c)) = c ∙ ap owned (sym b)

  lost :
      (rc : Rc) (r : Handle) (x : ℕ)
      → fails rc ≡ true
      → r.hdr ≡ none
      → Synced (owned none) (rc, r, x)
  lost rc r x e d = inr (e, d, refl)

  close-rule :
      {B : Type 0} (Q : Held → B → Type 0) (fd : ℕ) (hdr : Option ℕ) (k : Answer → Prog B)
      → ((a : Answer) → Ensures Q (owned hdr) (k a))
      → Ensures Q (open_file fd hdr) (call (Sys.close fd) k)
  close-rule Q fd hdr k next = (
    is_in-head fd fds,
    λ a _.
        subst (λ x. Ensures Q (record { fds = x; maps = mapped hdr; locks = [] }) (k a))
          (sym (remove-head fd fds)) (next a),
  )

  detach-rule :
      {B : Type 0} (Q : Held → B → Type 0) (r : Handle) (map : ℕ) (f : Handle → Prog B)
      → Ensures Q (owned none) (f (record r { hdr = none }))
      → Ensures Q (owned (some map)) (detach r map >>= f)
  unfolding detach
  detach-rule Q r map f next = (
    is_in-head map maps,
    λ a _.
        subst
          (λ x.
            Ensures Q (record { fds = fds; maps = x; locks = [] }) (f (record r { hdr = none })))
          (sym (remove-head map maps)) next,
  )

  pub retired-rule :
      {B : Type 0} (Q : Held → B → Type 0) (map : ℕ) (f : Bool → Prog B)
      → ((old : Bool) → Ensures Q (owned (some map)) (f old))
      → Ensures Q (owned (some map)) (retired map >>= f)
  unfolding retired
  retired-rule Q map f next = (is_in-head map maps, λ a _. next _)

  attach_to-Ensures :
      (r : Handle) (fd : ℕ) (x : Rc × Stat × Header)
      → (is_ok x.0 ≡ false → fails x.0 ≡ true)
      → r.hdr ≡ none
      → Ensures Synced (open_file fd none) (attach_to r fd x)
  unfolding attach_to
  attach_to-Ensures r fd (rc, st, h) bad d = elim (Bool-cases (is_ok rc)) [
    | inr e ↦ rw e (close-rule Synced fd none (λ _. ret (rc, r, 0)) (λ a. lost rc r 0 (bad e) d))
    | inl e ↦ rw e (elim (Bool-cases (header_valid h st.size)) [
      | inr e' ↦
          rw e' (
            close-rule Synced fd none (λ _. ret (Rc.format, r, 0)) (λ a. lost Rc.format r 0 refl d))
      | inl e' ↦ rw e' (
        is_in-head fd fds,
        λ m _. elim (Bool-cases m.okay) [
          | inl e'' ↦ rw e'' (
              close-rule Synced fd (some m.value)
                (λ _. ret (
                  Rc.ok,
                  attached r h st (psmi_file_size h.slot_count h.slot_stride) m.value,
                  m.value,
                ))
                (λ a. inl (refl, refl, refl)))
          | inr e'' ↦
              rw e''
                (close-rule Synced fd none (λ _. ret (Rc.sys, r, 0)) (λ a. lost Rc.sys r 0 refl d))
        ],
      )
    ])
  ]

  pub attach-Ensures : (r : Handle) → r.hdr ≡ none → Ensures Synced (owned none) (attach r)
  unfolding attach
  attach-Ensures r d = (
    tt,
    λ f _. elim (Bool-cases f.okay) [
      | inl e ↦ rw e (
          Ensures-then
            (λ h' x. (h' ≡ open_file f.value none) × (is_ok x.0 ≡ false → fails x.0 ≡ true)) Synced
            (open_file f.value none) (read_header f.value) _
            (read_header-Ensures f.value _ (is_in-head f.value fds))
            (λ h' x p.
              subst (λ y. Ensures Synced y (attach_to r f.value x)) (sym p.0)
                (attach_to-Ensures r f.value x p.1 d)))
      | inr e ↦ rw e (elim (Bool-cases (is_enoent f.errno)) [
        | inl e' ↦ rw e' (lost Rc.nodata r 0 refl d)
        | inr e' ↦ rw e' (lost Rc.sys r 0 refl d)
      ])
    ],
  )

  settle-Ensures :
      (again : Handle → Prog (Rc × Handle × ℕ)) (a : Rc × Handle × ℕ)
      → ((r : Handle) → r.hdr ≡ none → Ensures Synced (owned none) (again r))
      → a.0 ≡ Rc.ok
      → a.1.hdr ≡ some a.2
      → Ensures Synced (owned (some a.2)) (settle again a)
  unfolding settle
  settle-Ensures again a loop ok here = retired-rule Synced a.2 _ (λ old. elim (Bool-cases old) [
    | inr o ↦ rw o (inl (ok, here, refl))
    | inl o ↦ rw o (detach-rule Synced a.1 a.2 again (loop _ refl))
  ])

  attach_loop-Ensures :
      (k : ℕ) (r : Handle) → r.hdr ≡ none → Ensures Synced (owned none) (attach_loop k r)
  unfolding attach_loop
  attach_loop-Ensures zero r d = lost Rc.nodata r 0 refl d
  attach_loop-Ensures (suc k) r d =
      Ensures-then Synced Synced (owned none) (attach r) _ (attach-Ensures r d) (λ h' a p. elim p [
        | inr (ne, gone, e) ↦ rw (fails-is_ok a.0 ne) (inr (ne, gone, e))
        | inl (ok, here, e) ↦
            rw (ap is_ok ok, e) (settle-Ensures (attach_loop k) a (attach_loop-Ensures k) ok here)
      ])

  sync_from-Ensures :
      (r : Handle) (hdr : Option ℕ) → r.hdr ≡ hdr → Ensures Synced (owned hdr) (sync_from r hdr)
  unfolding sync_from
  sync_from-Ensures r none e = attach_loop-Ensures attach_retries r e
  sync_from-Ensures r (some map) e = retired-rule Synced map _ (λ old. elim (Bool-cases old) [
    | inr o ↦ rw o (inl (refl, e, refl))
    | inl o ↦ rw o (
        detach-rule Synced r map (attach_loop attach_retries)
          (attach_loop-Ensures attach_retries _ refl))
  ])

  pub reader_sync-Ensures : (r : Handle) → Ensures Synced (owned r.hdr) (reader_sync r)
  unfolding reader_sync
  reader_sync-Ensures r = sync_from-Ensures r r.hdr refl

  -- A call that syncs first, and goes on with the mapping if it has one.
  pub sync-rule :
      {B : Type 0} (Q : Held → B → Type 0) (r : Handle) (f : Rc × Handle × ℕ → Prog B)
      → ((s : Rc × Handle × ℕ)
          → fails s.0 ≡ true
          → is_ok s.0 ≡ false
          → s.1.hdr ≡ none
          → Ensures Q (owned s.1.hdr) (f s))
      → ((s : Rc × Handle × ℕ)
          → is_ok s.0 ≡ true
          → s.1.hdr ≡ some s.2
          → Ensures Q (owned (some s.2)) (f s))
      → Ensures Q (owned r.hdr) (reader_sync r >>= f)
  sync-rule Q r f bad good =
      Ensures-then Synced Q (owned r.hdr) (reader_sync r) f (reader_sync-Ensures r) (λ h' s p.
        elim p [
          | inr (ne, gone, e) ↦
              subst (λ x. Ensures Q x (f s)) (sym (e ∙ ap owned (sym gone)))
                (bad s ne (fails-is_ok s.0 ne) gone)
          | inl (ok, here, e) ↦ subst (λ x. Ensures Q x (f s)) (sym e) (good s (ap is_ok ok) here)
        ])

  -- The handle keeps its mapping or has none; the code is OK or SYS.
  abbrev pub Checked : Held → Rc × Handle → Type 0
  Checked h x = Keeps h x.1 × (is_ok x.0 ≡ false → x.0 ≡ Rc.sys)

  check_from-Ensures :
      (r : Handle) (map : ℕ) (a : Answer)
      → r.hdr ≡ some map
      → Ensures Checked (owned (some map)) (check_from r map a)
  check_from-Ensures r map a here = elim (Bool-cases a.okay) [
    | inl e ↦ rw e (elim (Bool-cases (a.stat.dev == r.dev && a.stat.ino == r.ino)) [
      | inl e' ↦ rw e' (ap owned (sym here), λ k. cc)
      | inr e' ↦ rw e' (detach-rule Checked r map (λ r'. ret (Rc.ok, r')) (refl, λ k. cc))
    ])
    | inr e ↦ rw e (elim (Bool-cases (is_enoent a.errno)) [
      | inl e' ↦ rw e' (detach-rule Checked r map (λ r'. ret (Rc.ok, r')) (refl, λ k. cc))
      | inr e' ↦ rw e' (ap owned (sym here), λ _. refl)
    ])
  ]

  check_attached-Ensures :
      (r : Handle) (hdr : Option ℕ)
      → r.hdr ≡ hdr
      → Ensures Checked (owned hdr) (check_attached r hdr)
  unfolding check_attached
  check_attached-Ensures r none e = (ap owned (sym e), λ k. cc)
  check_attached-Ensures r (some map) e = (tt, λ a _. check_from-Ensures r map a e)

  pub identity_check-Ensures : (r : Handle) → Ensures Checked (owned r.hdr) (identity_check r)
  unfolding identity_check
  identity_check-Ensures r = check_attached-Ensures r r.hdr refl

  detach_if-Ensures :
      (r : Handle) (hdr : Option ℕ) → Ensures (λ h _. h ≡ owned none) (owned hdr) (detach_if r hdr)
  unfolding detach_if
  detach_if-Ensures r none = refl
  detach_if-Ensures r (some map) = detach-rule (λ h _. h ≡ owned none) r map (λ _. ret tt) refl

  -- Closing a handle unmaps its file, if it is attached, and leaves nothing of it.
  pub reader_close-Ensures :
      (r : Handle) → Ensures (λ h _. h ≡ owned none) (owned r.hdr) (reader_close (some r))
  unfolding reader_close
  reader_close-Ensures r = detach_if-Ensures r r.hdr
