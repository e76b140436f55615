-- ===== src/Opening/Reuse.antt =====
-- What happens to a valid file that a writer finds, on the words that it loads from it.
use ps_msgr.Prelude.{
  ℕ, ◌%◌, ◌≡◌, ◌≢◌, ◌⊎◌, Bool, true, false, Option, none, some, List, not, bit_and, ◌==◌, ◌||◌,
  Bool-cases, inl, inr, refl, arith,
}
use ps_msgr.Prelude.Bits.{bit_and-ones}
use ps_msgr.Layout.{Header, latest_none, psmi_latest_valid}
use ps_msgr.Name.{Paths}
use ps_msgr.Options.{Options, config_flags_of, recreate_flag}
use ps_msgr.Result.{Rc}
use ps_msgr.Writer.{Writer}
use ps_msgr.Kernel.{Sys, Answer, Prog, ret, ◌>>=◌}
use ps_msgr.Kernel.Monitor.{Follows, Follows-then}
use ps_msgr.Opening.{
  Opened, Decision, create, reuse, refuse, decide, random_gen, retire, retire_old, unmap_old,
  create_fail, create_mapped, create_opened, create_file, act, open_valid,
}
use ps_msgr.Opening.Decisions.{SameGeometry}

-- What was loaded from the file, and whether the making of another one was begun.
pub record Found : Type 0 where
  pub latest : Option ℕ
  pub state : Option ℕ
  pub replacing : Bool

abbrev pub found : Sys → Answer → Found → Found
found (Sys.load_latest map) a m = record m { latest = some a.value }
found (Sys.load_state map) a m = record m { state = some a.value }
found (Sys.malloc size) a m = record m { replacing = true }
found _ a m = m

abbrev pub Anyhow : Sys → Found → Type 0
Anyhow s m = Unit

module _ (o : Options) (h : Header) where
  -- `latest` was loaded, and is valid or not.
  abbrev pub HasLatest : (valid : Bool) → Found → Type 0
  HasLatest valid m = (l : ℕ) × (m.latest ≡ some l) × (psmi_latest_valid l h.slot_count ≡ valid)

  -- The state word was loaded, and its lowest bit, which retires a file, is this one.
  abbrev pub HasState : (bit : ℕ) → Found → Type 0
  HasState bit m = (s : ℕ) × (m.state ≡ some s) × (s % 2 ≡ bit)

  -- The file is used again, refused, or replaced by another one. RECREATE is the lowest bit of the flags.
  abbrev pub Fate : (map : ℕ) → Found → Opened → Type 0
  Fate map m r =
      ((m.replacing ≡ false)
        × (r.rc ≡ Rc.ok)
        × (r.map ≡ map)
        × HasLatest true m
        × HasState 0 m
        × SameGeometry o h
        × (h.version_minor ≡ 0))
      ⊎ (((m.replacing ≡ false) × (r.rc ≡ Rc.format) × HasLatest false m × (o.flags % 2 ≡ 0))
          ⊎ (((m.replacing ≡ false)
                × (r.rc ≡ Rc.mismatch)
                × HasLatest true m
                × HasState 0 m
                × (¬ SameGeometry o h)
                × (o.flags % 2 ≡ 0))
              ⊎ ((m.replacing ≡ true)
                  × ((r.rc ≡ Rc.ok) ⊎ (r.rc ≡ Rc.sys))
                  × ((HasLatest false m × (o.flags % 2 ≡ 1))
                      ⊎ (HasLatest true m
                          × (HasState 1 m
                              ⊎ (HasState 0 m
                                  × (((¬ SameGeometry o h) × (o.flags % 2 ≡ 1))
                                      ⊎ (SameGeometry o h × (h.version_minor ≢ 0))))))))))

  -- What a decision rests on.
  abbrev Right : Found → Decision → Type 0
  Right m reuse = HasLatest true m × HasState 0 m × SameGeometry o h × (h.version_minor ≡ 0)
  Right m (refuse rc) =
      ((rc ≡ Rc.format) × HasLatest false m × (o.flags % 2 ≡ 0))
      ⊎ ((rc ≡ Rc.mismatch)
          × HasLatest true m
          × HasState 0 m
          × (¬ SameGeometry o h)
          × (o.flags % 2 ≡ 0))
  Right m create =
      (HasLatest false m × (o.flags % 2 ≡ 1))
      ⊎ (HasLatest true m
          × (HasState 1 m
              ⊎ (HasState 0 m
                  × (((¬ SameGeometry o h) × (o.flags % 2 ≡ 1))
                      ⊎ (SameGeometry o h × (h.version_minor ≢ 0))))))

  low : (x : ℕ) → bit_and x 1 ≡ x % 2
  low x = bit_and-ones 1 x

  invalid-Right : (m : Found) → HasLatest false m → Right m (decide o false 0 h)
  unfolding decide
  invalid-Right m l = elim (Bool-cases (bit_and o.flags recreate_flag == 0)) [
    | inl e ↦ rw e (inl (refl, l, ground (arith, low o.flags, e)))
    | inr e ↦ rw e (inl (l, ground (arith, low o.flags, e)))
  ]

  other_geometry : Bool
  other_geometry =
      not (h.capacity == o.capacity)
      || not (h.slot_count == o.slot_count)
      || not (h.payload_type == o.payload_type)
      || not (h.config_flags == config_flags_of o)

  valid-Right :
      (m : Found) (s : ℕ) → HasLatest true m → m.state ≡ some s → Right m (decide o true s h)
  unfolding decide other_geometry
  valid-Right m s l st = elim (Bool-cases (bit_and s 1 == 0)) [
    | inr gone ↦ rw gone (inr (l, inl (s, st, ground (arith, low s, gone))))
    | inl live ↦
        let at : HasState 0 m = (s, st, ground (arith, low s, live)) in
        rw live (elim (Bool-cases other_geometry) [
          | inl other ↦
              let differs : ¬ SameGeometry o h =
                λ g. absurd (ground (arith, other, g.0, g.1, g.2, g.3)) in
              rw other (elim (Bool-cases (bit_and o.flags recreate_flag == 0)) [
                | inl e ↦ rw e (inr (refl, l, at, differs, ground (arith, low o.flags, e)))
                | inr e ↦ rw e (inr (l, inr (at, inl (differs, ground (arith, low o.flags, e)))))
              ])
          | inr same ↦
              let g : SameGeometry o h = (ground arith, ground arith, ground arith, ground arith) in
              rw same (elim (Bool-cases (h.version_minor == 0)) [
                | inl e ↦ rw e (l, at, g, ground arith)
                | inr e ↦ rw e (inr (l, inr (at, inr (g, λ z. absurd (ground (arith, z))))))
              ])
        ])
  ]

  abbrev Calls : Found → Prog Opened → Type 0
  Calls m p = Follows found Anyhow (λ m' r. (m' ≡ m) × ((r.rc ≡ Rc.ok) ⊎ (r.rc ≡ Rc.sys))) m p

  module _ (w : Writer) (p : Paths) (old : Option ℕ) (gen : ℕ) where
    create_fail-Calls :
        (m : Found) (fd : ℕ) (map : Option ℕ) (size : ℕ) (tmp : List ℕ)
        → Calls m (create_fail w fd map size tmp)
    unfolding create_fail unmap_old
    create_fail-Calls m fd none size tmp = (tt, λ _. (tt, λ _. (refl, inr refl)))
    create_fail-Calls m fd (some map) size tmp = (tt, λ _. (tt, λ _. (tt, λ _. (refl, inr refl))))

    retired-Calls :
        (m : Found) (o' : Option ℕ) (r : Opened)
        → r.rc ≡ Rc.ok
        → Calls m (retire_old o' >>= (λ _. ret r))
    unfolding retire_old retire
    retired-Calls m none r e = (refl, inl e)
    retired-Calls m (some map) r e = (tt, λ _. (tt, λ _. (tt, λ _. (refl, inl e))))

    create_opened-Calls :
        (m : Found) (fd size : ℕ) (tmp : List ℕ) → Calls m (create_opened w o p old gen fd size tmp)
    unfolding create_opened create_mapped
    create_opened-Calls m fd size tmp = (
      tt,
      λ c. elim (Bool-cases c.okay) [
        | inr k ↦ rw k (create_fail-Calls m fd none size tmp)
        | inl k ↦ rw k (
          tt,
          λ a. elim (Bool-cases a.okay) [
            | inr k' ↦ rw k' (create_fail-Calls m fd none size tmp)
            | inl k' ↦ rw k' (
              tt,
              λ x. elim (Bool-cases x.okay) [
                | inr k'' ↦ rw k'' (create_fail-Calls m fd none size tmp)
                | inl k'' ↦ rw k'' (
                  tt,
                  λ t. (
                    tt,
                    λ _. (
                      tt,
                      λ r. elim (Bool-cases r.okay) [
                        | inr z ↦ rw z (create_fail-Calls m fd (some x.value) size tmp)
                        | inl z ↦ rw z (tt, λ _. retired-Calls m old _ refl)
                      ],
                    ),
                  ),
                )
              ],
            )
          ],
        )
      ],
    )

    -- The making of a file is begun, and ends with OK or SYS.
    create_file-Begins :
        (m : Found)
        → Follows found Anyhow
            (λ m' r. (m' ≡ record m { replacing = true }) × ((r.rc ≡ Rc.ok) ⊎ (r.rc ≡ Rc.sys)))
            m
            (create_file w o p old gen)
    unfolding create_file
    create_file-Begins m = (
      tt,
      λ a. elim (Bool-cases a.okay) [
        | inr k ↦ rw k (refl, inr refl)
        | inl k ↦ rw k (
          tt,
          λ f. elim (Bool-cases f.okay) [
            | inr k' ↦ rw k' (refl, inr refl)
            | inl k' ↦ rw k' (create_opened-Calls _ f.value _ f.name)
          ],
        )
      ],
    )

  module _ (w : Writer) (p : Paths) where
    act-Fate :
        (m : Found) (map size latest gen : ℕ) (d : Decision)
        → m.replacing ≡ false
        → Right m d
        → Follows found Anyhow (Fate map) m (act w o p (some map) size h latest gen d)
    unfolding act unmap_old
    act-Fate m map size latest gen create n why =
        Follows-then found Anyhow
          (λ m' r. (m' ≡ record m { replacing = true }) × ((r.rc ≡ Rc.ok) ⊎ (r.rc ≡ Rc.sys)))
          (Fate map) m (create_file w o p (some map) gen) _
          (create_file-Begins w p (some map) gen m)
          (λ m' r x. rw x.0 (tt, λ _. inr (inr (inr (refl, x.1, why)))))
    act-Fate m map size latest gen reuse n why = inl (n, refl, refl, why.0, why.1, why.2, why.3)
    act-Fate m map size latest gen (refuse rc) n (inl why) =
        (tt, λ _. inr (inl (n, why.0, why.1, why.2)))
    act-Fate m map size latest gen (refuse rc) n (inr why) =
        (tt, λ _. inr (inr (inl (n, why.0, why.1, why.2, why.3, why.4))))

    random_gen-Keeps : (m : Found) → Follows found Anyhow (λ m' _. m' ≡ m) m random_gen
    unfolding random_gen
    random_gen-Keeps m = (
      tt,
      λ r. elim (Bool-cases r.okay) [
        | inl e ↦ rw e refl
        | inr e ↦ rw e (tt, λ _. (tt, λ _. (tt, λ _. refl)))
      ],
    )

    abbrev loaded : (l : ℕ) → Found
    loaded l = record { latest = some l; state = none; replacing = false }

    at_state :
        (l s : ℕ)
        → psmi_latest_valid l h.slot_count ≡ true
        → (map size latest gen : ℕ)
        → Follows found Anyhow
            (Fate map)
            (record { latest = some l; state = some s; replacing = false })
            (act w o p (some map) size h latest gen (decide o true s h))
    at_state l s good map size latest gen =
        let m : Found = record { latest = some l; state = some s; replacing = false } in
        act-Fate m map size latest gen (decide o true s h) refl
          (valid-Right m s (l, refl, good) refl)

    -- A valid file that is mapped at `map` is used again exactly if its `latest` is valid, its state word
    -- is not retired, it has the geometry that is asked for and the minor version 0. It is refused with
    -- FORMAT exactly if `latest` is not valid, and with MISMATCH exactly if `latest` is valid, the file is
    -- not retired and the geometry is another one, each time without RECREATE. Else the making of a new
    -- file is begun, which ends with OK or SYS. `latest` and the state are what was loaded from the file.
    pub open_valid-Fate :
        (map size : ℕ)
        → Follows found Anyhow
            (Fate map)
            (record { latest = none; state = none; replacing = false })
            (open_valid w o p map size h)
    unfolding open_valid
    open_valid-Fate map size = (
      tt,
      λ l. elim (Bool-cases (psmi_latest_valid l.value h.slot_count)) [
        | inr bad ↦ rw bad (
            Follows-then found Anyhow (λ m' _. m' ≡ loaded l.value) (Fate map) (loaded l.value)
              random_gen _ (random_gen-Keeps (loaded l.value))
              (λ m' g same. rw same (
                act-Fate (loaded l.value) map size latest_none g (decide o false 0 h) refl
                  (invalid-Right (loaded l.value) (l.value, refl, bad)))))
        | inl good ↦ rw good (elim (Bool-cases (l.value == latest_none)) [
          | inl e ↦ rw e (
              Follows-then found Anyhow (λ m' _. m' ≡ loaded l.value) (Fate map) (loaded l.value)
                random_gen _ (random_gen-Keeps (loaded l.value))
                (λ m' g same.
                  rw same (tt, λ s. at_state l.value s.value good map size latest_none g)))
          | inr e ↦ rw e (tt, λ g. (tt, λ s. at_state l.value s.value good map size _ _))
        ])
      ],
    )
