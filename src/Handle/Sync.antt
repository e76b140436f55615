-- ===== src/Handle/Sync.antt =====
-- What a sync and an identity check leave of the clock, for the wait's loop.
use ps_msgr.Prelude.{
  ℕ, zero, suc, ◌+◌, ◌≤◌, ◌<◌, ◌≡◌, refl, sym, Bool, true, false, ◌&&◌, ◌||◌, not, Option, none,
  some, ltb, ◌==◌, bit_and, arith, Bool-cases, inl, inr,
}
use ps_msgr.Layout.{Header, header_bytes, header_valid}
use ps_msgr.Result.{Rc}
use ps_msgr.Kernel.{Sys, Answer, Stat, Prog, is_enoent}
use ps_msgr.Kernel.Monitor.{Ends, Ends-then}
use ps_msgr.Lock.{is_ok}
use ps_msgr.Opening.{read_header}
use ps_msgr.Opening.Reading.{fails}
use ps_msgr.Handle.{
  Handle, attach_retries, detach, attach_to, attach, retired, settle, attach_loop, sync_from,
  check_attached,
}

-- How often the clock was read, what it said last, and how many times a file was found retired.
pub record Passed : Type 0 where
  pub readings : ℕ
  pub clock : ℕ
  pub retirements : ℕ

abbrev pub is_retired : ℕ → Bool
is_retired state = not (bit_and state 1 == 0)

abbrev tally : Bool → Passed → Passed
tally true m = record m { retirements = m.retirements + 1 }
tally false m = m

abbrev pub passed : Sys → Answer → Passed → Passed
passed Sys.clock_monotonic a m = record m { readings = m.readings + 1; clock = a.value }
passed (Sys.load_state map) a m = tally (is_retired a.value) m
passed _ a m = m

-- The first reading of the clock, in nanoseconds, is `started`, and it advances from one reading to the
-- next; no more than `most` files are found retired.
abbrev pub Advances : (started most : ℕ) → Sys → Answer → Passed → Type 0
Advances started most Sys.clock_monotonic a m =
    (m.readings ≤ a.value) × (m.readings ≡ 0 → a.value ≡ started)
Advances started most (Sys.load_state map) a m = is_retired a.value ≡ true → m.retirements < most
Advances started most _ a m = Unit

module _ (started most : ℕ) where
  -- The rest of a round reads no clock.
  abbrev pub Since : Passed → Passed → Type 0
  Since m m' =
      (m'.readings ≡ m.readings) × (m.retirements ≤ m'.retirements) × (m'.retirements ≤ most)

  abbrev pub Synced : Passed → Passed → Rc × Handle × ℕ → Type 0
  Synced m m' s = Since m m' × (is_ok s.0 ≡ false → fails s.0 ≡ true)

  read_header-Ends :
      (fd : ℕ) (m : Passed)
      → Ends passed
          (Advances started most)
          (λ m' x. (m' ≡ m) × (is_ok x.0 ≡ false → fails x.0 ≡ true))
          m
          (read_header fd)
  unfolding read_header
  read_header-Ends fd m f _ = elim (Bool-cases f.okay) [
    | inr e ↦ rw e (refl, λ _. refl)
    | inl e ↦ rw e (elim (Bool-cases (not f.stat.regular || ltb f.stat.size header_bytes)) [
      | inl e' ↦ rw e' (refl, λ _. refl)
      | inr e' ↦ rw e' (λ a _. elim (Bool-cases a.okay) [
        | inr k ↦ rw k (refl, λ _. refl)
        | inl k ↦ rw k (elim (Bool-cases (a.value == header_bytes)) [
          | inl w ↦ rw w (refl, λ z. sym z)
          | inr w ↦ rw w (refl, λ _. refl)
        ])
      ])
    ])
  ]

  module _ (m₀ : Passed) where
    attach_to-Ends :
        (m : Passed) (r : Handle) (fd : ℕ) (x : Rc × Stat × Header)
        → Since m₀ m
        → (is_ok x.0 ≡ false → fails x.0 ≡ true)
        → Ends passed (Advances started most) (Synced m₀) m (attach_to r fd x)
    unfolding attach_to
    attach_to-Ends m r fd (rc, st, h) same bad = elim (Bool-cases (is_ok rc)) [
      | inr e ↦ rw e (λ _ _. (same, bad))
      | inl e ↦ rw e (elim (Bool-cases (header_valid h st.size)) [
        | inr e' ↦ rw e' (λ _ _. (same, λ _. refl))
        | inl e' ↦ rw e' (λ a _. elim (Bool-cases a.okay) [
          | inr k ↦ rw k (λ _ _. (same, λ _. refl))
          | inl k ↦ rw k (λ _ _. (same, λ z. sym z))
        ])
      ])
    ]

    attach-Ends :
        (m : Passed) (r : Handle)
        → Since m₀ m
        → Ends passed (Advances started most) (Synced m₀) m (attach r)
    unfolding attach
    attach-Ends m r same f _ = elim (Bool-cases f.okay) [
      | inl e ↦ rw e (
          Ends-then passed (Advances started most)
            (λ m' x. (m' ≡ m) × (is_ok x.0 ≡ false → fails x.0 ≡ true)) (Synced m₀) m
            (read_header f.value) _ (read_header-Ends f.value m)
            (λ m' x e'. rw (e'.0) (attach_to-Ends m r f.value x same e'.1)))
      | inr e ↦ rw e (elim (Bool-cases (is_enoent f.errno)) [
        | inl k ↦ rw k (same, λ _. refl)
        | inr k ↦ rw k (same, λ _. refl)
      ])
    ]

    settle-Ends :
        (m : Passed) (again : Handle → Prog (Rc × Handle × ℕ)) (a : Rc × Handle × ℕ)
        → ((m' : Passed) (r : Handle)
            → Since m₀ m'
            → Ends passed (Advances started most) (Synced m₀) m' (again r))
        → Since m₀ m
        → is_ok a.0 ≡ true
        → Ends passed (Advances started most) (Synced m₀) m (settle again a)
    unfolding settle retired detach
    settle-Ends m again a loop same ok s few = elim (Bool-cases (bit_and s.value 1 == 0)) [
      | inl e ↦ rw e (same, λ bad. cc)
      | inr e ↦
          rw e (λ _ _. loop _ _ (same.0, omega (arith, same.1), omega (arith, few (rw e refl))))
    ]

    attach_loop-Ends :
        (k : ℕ) (m : Passed) (r : Handle)
        → Since m₀ m
        → Ends passed (Advances started most) (Synced m₀) m (attach_loop k r)
    unfolding attach_loop
    attach_loop-Ends zero m r same = (same, λ _. refl)
    attach_loop-Ends (suc k) m r same =
        Ends-then passed (Advances started most) (Synced m₀) (Synced m₀) m (attach r) _
          (attach-Ends m r same)
          (λ m' a d. elim (Bool-cases (is_ok a.0)) [
            | inr e ↦ rw e d
            | inl e ↦ rw e (settle-Ends m' (attach_loop k) a (attach_loop-Ends k) d.0 e)
          ])

    pub sync_from-Ends :
        (hdr : Option ℕ) (m : Passed) (r : Handle)
        → Since m₀ m
        → Ends passed (Advances started most) (Synced m₀) m (sync_from r hdr)
    unfolding sync_from retired detach
    sync_from-Ends none m r same = attach_loop-Ends attach_retries m r same
    sync_from-Ends (some map) m r same = λ s few. elim (Bool-cases (bit_and s.value 1 == 0)) [
      | inl e ↦ rw e (same, λ z. sym z)
      | inr e ↦ rw e (λ _ _.
          attach_loop-Ends attach_retries _ _
            (same.0, omega (arith, same.1), omega (arith, few (rw e refl))))
    ]

  abbrev pub Checked : Passed → Passed → Rc × Handle → Type 0
  Checked m m' x = (m' ≡ m) × (is_ok x.0 ≡ false → x.0 ≡ Rc.sys)

  pub check_attached-Ends :
      (hdr : Option ℕ) (m : Passed) (r : Handle)
      → Ends passed (Advances started most) (Checked m) m (check_attached r hdr)
  unfolding check_attached detach
  check_attached-Ends none m r = (refl, λ e. cc)
  check_attached-Ends (some map) m r = λ a _. elim (Bool-cases a.okay) [
    | inl e ↦ rw e (elim (Bool-cases (a.stat.dev == r.dev && a.stat.ino == r.ino)) [
      | inl k ↦ rw k (refl, λ z. cc)
      | inr k ↦ rw k (λ _ _. (refl, λ z. cc))
    ])
    | inr e ↦ rw e (elim (Bool-cases (is_enoent a.errno)) [
      | inl k ↦ rw k (λ _ _. (refl, λ z. cc))
      | inr k ↦ rw k (refl, λ z. refl)
    ])
  ]
