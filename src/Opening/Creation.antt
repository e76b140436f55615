-- ===== src/Opening/Creation.antt =====
-- What `create_file` holds while it has the lock: descriptors and mappings.
use ps_msgr.Prelude.{
  ℕ, ◌≡◌, ◌⊎◌, refl, sym, subst, true, false, Option, none, some, List, [], ◌∷◌, arith, Bool-cases,
  inl, inr,
}
use ps_msgr.Layout.{psmi_slot_stride, psmi_file_size}
use ps_msgr.Result.{Rc}
use ps_msgr.Name.{Paths}
use ps_msgr.Options.{Options}
use ps_msgr.Writer.{writer_attach, Writer}
use ps_msgr.Kernel.{Sys, Answer, Prog, ret, call, ◌>>=◌}
use ps_msgr.Kernel.Resources.{Held, after, remove-head, is_in, is_in-head, Ensures}
use ps_msgr.Lock.{is_ok}
use ps_msgr.Opening.{
  Opened, retire, retire_old, unmap_old, create_fail, create_mapped, create_opened, create_file,
}

retire-rule :
    {B : Type 0} (Q : Held → B → Type 0) (h : Held) (old : Option ℕ) (f : Unit {0} → Prog B)
    → ((map : ℕ) → old ≡ some map → is_in map h.maps ≡ true)
    → Ensures Q h (f tt)
    → Ensures Q h (retire_old old >>= f)
unfolding retire_old retire
retire-rule Q h none f i next = next
retire-rule Q h (some map) f i next =
    let here = i map refl in (here, λ _ _. (here, λ _ _. (here, λ _ _. next)))

module _ (lock : ℕ) (fds maps : List ℕ) where
  abbrev pub mapped : Option ℕ → List ℕ
  mapped none = maps
  mapped (some map) = map ∷ maps

  abbrev pub base : List ℕ → Held
  base ms = record { fds = lock ∷ fds; maps = ms; locks = lock ∷ [] }

  abbrev pub opened : ℕ → List ℕ → Held
  opened fd ms = record { fds = fd ∷ lock ∷ fds; maps = ms; locks = lock ∷ [] }

  pub close-rule :
      {B : Type 0} (Q : Held → B → Type 0) (fd : ℕ) (ms : List ℕ) (k : Answer → Prog B)
      → is_in fd (lock ∷ fds) ≡ false
      → ((a : Answer) → Ensures Q (base ms) (k a))
      → Ensures Q (opened fd ms) (call (Sys.close fd) k)
  close-rule Q fd ms k fresh next =
      (is_in-head fd (lock ∷ fds), λ a _. subst (λ x. Ensures Q x (k a)) (sym (closed a)) (next a))
    where
      closed : (a : Answer) → after (Sys.close fd) a (opened fd ms) ≡ base ms
      closed a = ground arith

  -- The old file's mapping stays; a new one is none of those held.
  abbrev pub Created : Writer → Option ℕ → Held → Opened → Type 0
  Created w old h r =
      ((r.rc ≡ Rc.ok)
        × (r.writer.lock_fd ≡ w.lock_fd)
        × (is_in r.map (mapped old) ≡ false)
        × (h ≡ base (r.map ∷ mapped old)))
      ⊎ ((is_ok r.rc ≡ false) × (h ≡ base (mapped old)))

  module _ (w : Writer) (o : Options) (p : Paths) (old : Option ℕ) (gen : ℕ) where
    abbrev unlinks : List ℕ → Answer → Prog Opened
    unlinks tmp _ = call (Sys.unlink tmp) (λ _. ret (record { rc = Rc.sys; map = 0; writer = w }))

    create_fail-Ensures :
        (fd size : ℕ) (tmp : List ℕ)
        → is_in fd (lock ∷ fds) ≡ false
        → Ensures (Created w old) (opened fd (mapped old)) (create_fail w fd none size tmp)
    unfolding create_fail unmap_old
    create_fail-Ensures fd size tmp fresh =
        close-rule (Created w old) fd (mapped old) (unlinks tmp) fresh
          (λ _. (tt, λ _ _. inr (refl, refl)))

    create_fail-mapped-Ensures :
        (fd map size : ℕ) (tmp : List ℕ)
        → is_in fd (lock ∷ fds) ≡ false
        → Ensures
            (Created w old)
            (opened fd (map ∷ mapped old))
            (create_fail w fd (some map) size tmp)
    unfolding create_fail unmap_old
    create_fail-mapped-Ensures fd map size tmp fresh = (
      is_in-head map (mapped old),
      λ _ _.
          subst (λ x. Ensures (Created w old) (opened fd x) (call (Sys.close fd) (unlinks tmp)))
            (sym (remove-head map (mapped old)))
            (close-rule (Created w old) fd (mapped old) (unlinks tmp) fresh
              (λ _. (tt, λ _ _. inr (refl, refl)))),
    )

    is_in-old : (map : ℕ) (m : ℕ) → old ≡ some m → is_in m (map ∷ mapped old) ≡ true
    is_in-old map m e = rw e (ground arith)

    create_mapped-Ensures :
        (fd size map : ℕ) (tmp : List ℕ)
        → is_in fd (lock ∷ fds) ≡ false
        → is_in map (mapped old) ≡ false
        → Ensures
            (Created w old)
            (opened fd (map ∷ mapped old))
            (create_mapped w o p old gen fd size map tmp)
    unfolding create_mapped writer_attach
    create_mapped-Ensures fd size map tmp fresh new = (
      tt,
      λ t _. (
        is_in-head map (mapped old),
        λ _ _. (
          tt,
          λ r _. elim (Bool-cases r.okay) [
            | inr e ↦ rw e (create_fail-mapped-Ensures fd map size tmp fresh)
            | inl e ↦ rw e (
                close-rule (Created w old) fd (map ∷ mapped old) _ fresh (λ _.
                  retire-rule (Created w old) (base (map ∷ mapped old)) old _ (is_in-old map)
                    (inl (refl, refl, new, refl))))
          ],
        ),
      ),
    )

    create_opened-Ensures :
        (fd size : ℕ) (tmp : List ℕ)
        → is_in fd (lock ∷ fds) ≡ false
        → Ensures (Created w old) (opened fd (mapped old)) (create_opened w o p old gen fd size tmp)
    unfolding create_opened
    create_opened-Ensures fd size tmp fresh =
        let here = is_in-head fd (lock ∷ fds) in
        let failed = create_fail-Ensures fd size tmp fresh in
        (
          here,
          λ c _. elim (Bool-cases c.okay) [
            | inr e ↦ rw e failed
            | inl e ↦ rw e (
              here,
              λ a _. elim (Bool-cases a.okay) [
                | inr e' ↦ rw e' failed
                | inl e' ↦ rw e' (
                  here,
                  λ x new. elim (Bool-cases x.okay) [
                    | inr e'' ↦ rw e'' failed
                    | inl e'' ↦ rw e'' (create_mapped-Ensures fd size x.value tmp fresh (new e''))
                  ],
                )
              ],
            )
          ],
        )

    pub create_file-Ensures :
        Ensures (Created w old) (base (mapped old)) (create_file w o p old gen)
    unfolding create_file
    create_file-Ensures = (
      tt,
      λ m _. elim (Bool-cases m.okay) [
        | inr e ↦ rw e (inr (refl, refl))
        | inl e ↦ rw e (
          tt,
          λ f new. elim (Bool-cases f.okay) [
            | inr e' ↦ rw e' (inr (refl, refl))
            | inl e' ↦ rw e' (
                create_opened-Ensures f.value
                  (psmi_file_size o.slot_count (psmi_slot_stride o.capacity)) f.name (new e'))
          ],
        )
      ],
    )
