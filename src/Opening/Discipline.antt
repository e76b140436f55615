-- ===== src/Opening/Discipline.antt =====
-- What opening a channel holds while it has the lock: descriptors and mappings.
use ps_msgr.Prelude.{
  ℕ, ◌≡◌, ◌≢◌, ◌⊎◌, refl, sym, subst, ap, ◌∙◌, Bool, true, false, ◌&&◌, Option, none, some, List,
  ◌∷◌, ◌==◌, arith, Bool-cases, inl, inr,
}
use ps_msgr.Layout.{
  Header, header_bytes, latest_none, magic_word, psmi_latest_slot, psmi_latest_valid,
  psmi_file_size, header_valid,
}
use ps_msgr.Result.{Rc}
use ps_msgr.Name.{Paths}
use ps_msgr.Options.{Options}
use ps_msgr.Generation.{next_generation}
use ps_msgr.Writer.{writer_attach, Writer}
use ps_msgr.Kernel.{Stat, Prog, ret, ◌>>=◌, is_enoent}
use ps_msgr.Kernel.Resources.{
  Held, remove, remove-head, is_in, is_in-head, Ensures, Ensures-then, Ensures-mono,
}
use ps_msgr.Lock.{is_ok, is_sys}
use ps_msgr.Opening.Decisions.{decide_lem}
use ps_msgr.Opening.Reading.{fails, read_header-Ensures}
use ps_msgr.Opening.Creation.{mapped, base, opened, close-rule, Created, create_file-Ensures}
use ps_msgr.Opening.{
  Opened, Decision, create, reuse, refuse, read_header, unmap_old, random_gen, create_file, decide,
  act, open_valid, open_invalid, map_and_close, open_mapped, open_existing, open_data,
}

random-rule :
    {B : Type 0} (Q : Held → B → Type 0) (h : Held) (f : ℕ → Prog B)
    → ((g : ℕ) → Ensures Q h (f g))
    → Ensures Q h (random_gen >>= f)
unfolding random_gen
random-rule Q h f next = (
  tt,
  λ r _. elim (Bool-cases r.okay) [
    | inl e ↦ rw e (next _)
    | inr e ↦ rw e (tt, λ _ _. (tt, λ _ _. (tt, λ _ _. next _)))
  ],
)

decide-refuses :
    (o : Options) (valid : Bool) (state : ℕ) (h : Header) (rc : Rc)
    → decide o valid state h ≡ refuse rc
    → is_ok rc ≡ false
unfolding decide
decide-refuses o false state h rc e = ground arith
decide-refuses o true state h rc e = ground arith

decide-reuse :
    (o : Options) (valid : Bool) (state : ℕ) (h : Header)
    → decide o valid state h ≡ reuse
    → valid ≡ true
decide-reuse o valid state h e = ((decide_lem o valid state h).0.0 e).0

module _ (lock : ℕ) (fds maps : List ℕ) where
  -- What is held with these mappings, and no descriptor but the lock's.
  abbrev pub holds : List ℕ → Held
  holds = base lock fds maps

  abbrev pub with_old : Option ℕ → List ℕ
  with_old = mapped lock fds maps

  -- On OK the caller holds one more mapping, its handle's, which keeps its lock; else what it held
  -- before.
  abbrev pub OpenResult : Writer → Held → Opened → Type 0
  OpenResult w h r =
      ((r.rc ≡ Rc.ok) × (r.writer.lock_fd ≡ w.lock_fd) × (h ≡ holds (r.map ∷ maps)))
      ⊎ ((is_ok r.rc ≡ false) × (h ≡ holds maps))

  unmap_old-rule :
      {B : Type 0} (Q : Held → B → Type 0) (old : Option ℕ) (size : ℕ) (f : Unit {0} → Prog B)
      → Ensures Q (holds maps) (f tt)
      → Ensures Q (holds (with_old old)) (unmap_old old size >>= f)
  unfolding unmap_old
  unmap_old-rule Q none size f next = next
  unmap_old-rule Q (some map) size f next = (
    is_in-head map maps,
    λ _ _. subst (λ x. Ensures Q (holds x) (f tt)) (sym (remove-head map maps)) next,
  )

  -- The old mapping goes, the new one stays.
  unmap_under-rule :
      (w : Writer) (old : Option ℕ) (size : ℕ) (r : Opened)
      → r.rc ≡ Rc.ok
      → r.writer.lock_fd ≡ w.lock_fd
      → is_in r.map (with_old old) ≡ false
      → Ensures (OpenResult w) (holds (r.map ∷ with_old old)) (unmap_old old size >>= λ _. ret r)
  unfolding unmap_old
  unmap_under-rule w none size r ok own new = inl (ok, own, refl)
  unmap_under-rule w (some map) size r ok own new =
      (ground arith, λ _ _. inl (ok, own, ap holds (under (r.map) map new)))
    where
      under : (a b : ℕ) → is_in a (b ∷ maps) ≡ false → remove b (a ∷ b ∷ maps) ≡ a ∷ maps
      under a b e = ground arith

  module _ (w : Writer) (o : Options) (p : Paths) where
    act-Ensures :
        (old : Option ℕ) (map_size : ℕ) (h : Header) (latest gen : ℕ) (d : Decision)
        → ((rc : Rc) → d ≡ refuse rc → is_ok rc ≡ false)
        → (old ≡ none → d ≢ reuse)
        → Ensures (OpenResult w) (holds (with_old old)) (act w o p old map_size h latest gen d)
    unfolding act writer_attach
    act-Ensures old map_size h latest gen create bad mapped =
        Ensures-then (Created lock fds maps w old) (OpenResult w) (holds (with_old old))
          (create_file w o p old gen) _ (create_file-Ensures lock fds maps w o p old gen)
          (λ h' r c. elim c [
            | inl (ok, own, new, e) ↦ rw e (unmap_under-rule w old map_size r ok own new)
            | inr (no_ok, e) ↦
                rw e (unmap_old-rule (OpenResult w) old map_size (λ _. ret r) (inr (no_ok, refl)))
          ])
    act-Ensures old map_size h latest gen (refuse rc) bad mapped =
        unmap_old-rule (OpenResult w) old map_size
          (λ _. ret (record { rc = rc; map = 0; writer = w })) (inr (bad rc refl, refl))
    act-Ensures none map_size h latest gen reuse bad mapped = absurd (mapped refl refl)
    act-Ensures (some map) map_size h latest gen reuse bad mapped = inl (refl, refl, refl)

    decided :
        (old : Option ℕ) (map_size latest gen : ℕ) (valid : Bool) (state : ℕ) (h : Header)
        → (old ≡ none → valid ≡ false)
        → Ensures
            (OpenResult w)
            (holds (with_old old))
            (act w o p old map_size h latest gen (decide o valid state h))
    decided old map_size latest gen valid state h only =
        act-Ensures old map_size h latest gen (decide o valid state h)
          (decide-refuses o valid state h)
          (λ gone e. absurd (cc (sym (only gone) ∙ decide-reuse o valid state h e)))

    open_invalid-Ensures :
        (old : Option ℕ) (h : Header)
        → Ensures (OpenResult w) (holds (with_old old)) (open_invalid w o p old h)
    unfolding open_invalid
    open_invalid-Ensures old h =
        random-rule (OpenResult w) (holds (with_old old)) _
          (λ g. decided old header_bytes latest_none g false 0 h (λ _. refl))

    open_valid-Ensures :
        (map map_size : ℕ) (h : Header)
        → Ensures (OpenResult w) (holds (map ∷ maps)) (open_valid w o p map map_size h)
    unfolding open_valid
    open_valid-Ensures map map_size h =
        let here = is_in-head map maps in
        (
          here,
          λ l _. elim (Bool-cases (psmi_latest_valid l.value h.slot_count)) [
            | inr e ↦ rw e (
                random-rule (OpenResult w) (holds (map ∷ maps)) _
                  (λ g. decided (some map) map_size latest_none g false 0 h (λ _. refl)))
            | inl e ↦ rw e (elim (Bool-cases (l.value == latest_none)) [
              | inl e' ↦ rw e' (
                  random-rule (OpenResult w) (holds (map ∷ maps)) _ (λ g. (
                    here,
                    λ s _. decided (some map) map_size latest_none g true s.value h (λ k. cc),
                  )))
              | inr e' ↦ rw e' (
                here,
                λ g _. (
                  here,
                  λ s _.
                      decided (some map) map_size (psmi_latest_slot l.value)
                        (next_generation g.value) true s.value h (λ k. cc),
                ),
              )
            ])
          ],
        )

    module _ (fd : ℕ) (fresh : is_in fd (lock ∷ fds) ≡ false) where
      map_and_close-rule :
          {B : Type 0} (Q : Held → B → Type 0) (size : ℕ) (f : Option ℕ → Prog B)
          → Ensures Q (holds maps) (f none)
          → ((map : ℕ) → Ensures Q (holds (map ∷ maps)) (f (some map)))
          → Ensures Q (opened lock fds maps fd maps) (map_and_close fd size >>= f)
      unfolding map_and_close
      map_and_close-rule Q size f missing here = (
        is_in-head fd (lock ∷ fds),
        λ m _. elim (Bool-cases m.okay) [
          | inl e ↦ rw e (
              close-rule lock fds maps Q fd (m.value ∷ maps) (λ _. f (some m.value)) fresh
                (λ _. here m.value))
          | inr e ↦ rw e (close-rule lock fds maps Q fd maps (λ _. f none) fresh (λ _. missing))
        ],
      )

      open_existing-Ensures :
          (x : Rc × Stat × Header)
          → Ensures (OpenResult w) (opened lock fds maps fd maps) (open_existing w o p fd x)
      unfolding open_existing open_mapped
      open_existing-Ensures (rc, st, h) = elim (Bool-cases (is_sys rc)) [
        | inl e ↦ rw e (
            close-rule lock fds maps (OpenResult w) fd maps
              (λ _. ret (record { rc = Rc.sys; map = 0; writer = w })) fresh
              (λ _. inr (refl, refl)))
        | inr e ↦ rw e (elim (Bool-cases (is_ok rc && header_valid h st.size)) [
          | inl e' ↦ rw e' (
              map_and_close-rule (OpenResult w) (psmi_file_size h.slot_count h.slot_stride) _
                (inr (refl, refl))
                (λ map. open_valid-Ensures map (psmi_file_size h.slot_count h.slot_stride) h))
          | inr e' ↦ rw e' (elim (Bool-cases (is_ok rc && h.magic == magic_word)) [
            | inl e'' ↦ rw e'' (
                map_and_close-rule (OpenResult w) header_bytes _ (inr (refl, refl))
                  (λ map. open_invalid-Ensures (some map) h))
            | inr e'' ↦ rw e'' (
                close-rule lock fds maps (OpenResult w) fd maps (λ _. open_invalid w o p none h)
                  fresh (λ _. open_invalid-Ensures none h))
          ])
        ])
      ]

    Created-OpenResult :
        (h : Held) (r : Opened) → Created lock fds maps w none h r → (OpenResult w) h r
    Created-OpenResult h r (inl (ok, own, new, e)) = inl (ok, own, e)
    Created-OpenResult h r (inr e) = inr e

    -- Whatever the kernel answers, `open_data`, called with the lock held, uses no descriptor that is
    -- not open and no memory that is not mapped; it returns OK with exactly one more mapping, the
    -- handle's, and the handle's descriptor of the lock unchanged, or an error with exactly what it held
    -- before. The lock is held in both cases.
    pub open_data-Ensures : Ensures (OpenResult w) (holds maps) (open_data w o p)
    unfolding open_data
    open_data-Ensures = (
      tt,
      λ f new. elim (Bool-cases f.okay) [
        | inl e ↦ rw e (
            Ensures-then
              (λ h x.
                (h ≡ opened lock fds maps f.value maps) × (is_ok x.0 ≡ false → fails x.0 ≡ true))
              (OpenResult w) (opened lock fds maps f.value maps) (read_header f.value) _
              (read_header-Ensures f.value _ (is_in-head f.value (lock ∷ fds)))
              (λ h x same. rw (same.0) (open_existing-Ensures f.value (new e) x)))
        | inr e ↦ rw e (elim (Bool-cases (is_enoent f.errno)) [
          | inl e' ↦ rw e' (
              random-rule (OpenResult w) (holds maps) _ (λ g.
                Ensures-mono (Created lock fds maps w none) (OpenResult w) (holds maps)
                  (create_file w o p none g) Created-OpenResult
                  (create_file-Ensures lock fds maps w o p none g)))
          | inr e' ↦ rw e' (inr (refl, refl))
        ])
      ],
    )
