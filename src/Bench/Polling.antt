-- ===== src/Bench/Polling.antt =====
-- What a reader holds that polls or waits in a row of the benchmark.
use ps_msgr.Prelude.{
  ℕ, zero, suc, refl, sym, subst, Bool, true, false, not, ◌&&◌, ◌||◌, Option, none, some, List,
  ◌==◌, ltb, Bool-cases, inl, inr, if◌then◌else◌,
}
use ps_msgr.Result.{Rc}
use ps_msgr.Name.{Paths, name_valid, paths_init}
use ps_msgr.Reader.{Info}
use ps_msgr.Kernel.{Prog, ret, ◌>>=◌}
use ps_msgr.Kernel.Texts.{make_paths, is_empty_dir}
use ps_msgr.Kernel.Resources.{Held, Ensures, Ensures-then}
use ps_msgr.Lock.{is_ok}
use ps_msgr.Lock.Discipline.{bare}
use ps_msgr.Handle.{Handle, fresh_handle, reader_open, read, peek, written}
use ps_msgr.Handle.Wait.{wait}
use ps_msgr.Handle.Discipline.{owned, Keeps}
use ps_msgr.Handle.Calls.{Waited, get-Ensures, read-Ensures, wait-Ensures}
use ps_msgr.Dump.View.{is_busy}
use ps_msgr.Dump.Discipline.{Leaves}
use ps_msgr.Bench.Operations.{◌>>?◌}
use ps_msgr.Bench.Setup.{Config, Platform, open_reader}
use ps_msgr.Bench.Contended.{Polled, count_read, poll}
use ps_msgr.Bench.WakeUp.{
  wake_size, Woken, is_timeout, Turn, by_wait, by_peek, take_value, wake_turn, wake_loop, wake_by,
  first_value,
}
use ps_msgr.Bench.Discipline.{Alive, >>?-Ensures}

module _ (fds maps : List ℕ) where
  made :
      (o : Option Paths)
      → let x : Rc × Option Handle = elim o [
        | none ↦ (Rc.sys, none)
        | some paths ↦ (Rc.ok, some (fresh_handle paths))
      ] in
        Ensures
          (Alive (Keeps fds maps))
          (bare fds maps)
          (if not (is_ok x.0) then ret none else ret x.1)
  made none = tt
  made (some p) = refl

  pub open_reader-Ensures :
      (p : Platform) (cfg : Config) (name : List ℕ)
      → Ensures (Alive (Keeps fds maps)) (bare fds maps) (open_reader p cfg name)
  unfolding open_reader reader_open make_paths
  open_reader-Ensures p cfg name =
      elim (Bool-cases (not (name_valid (some name)) || is_empty_dir (some cfg.dir))) [
        | inl e ↦ rw e tt
        | inr e ↦ rw e (
          tt,
          λ c _. elim (Bool-cases c.okay) [
            | inr k ↦ rw k tt
            | inl k ↦ rw k (tt, λ m _. made (paths_init (some cfg.dir) p.env name m.okay))
          ],
        )
      ]

  -- A program whose result has a handle, unless the process ends.
  abbrev Keeping : {A : Type 0} → (A → Handle) → Handle → Prog (Option A) → Type 0
  Keeping h r p = Ensures (Alive (λ held a. Keeps fds maps held (h a))) (owned fds maps r.hdr) p

  after_call :
      {A B : Type 0} (h : A → Handle) (k : B → Handle) (r : Handle) (p : Prog A)
      (f : A → Prog (Option B))
      → Leaves fds maps h r p
      → ((a : A) → Keeping k (h a) (f a))
      → Keeping k r (p >>= f)
  after_call h k r p f e next =
      Ensures-then (λ held a. Keeps fds maps held (h a)) _ (owned fds maps r.hdr) p f e
        (λ held a same.
          subst (λ x. Ensures (Alive (λ held' b. Keeps fds maps held' (k b))) x (f a)) (sym same)
            (next a))

  after_step :
      {A B : Type 0} (h : A → Handle) (k : B → Handle) (r : Handle) (p : Prog (Option A))
      (f : A → Prog (Option B))
      → Keeping h r p
      → ((a : A) → Keeping k (h a) (f a))
      → Keeping k r (p >>? f)
  after_step h k r p f e next =
      >>?-Ensures (λ held a. Keeps fds maps held (h a)) (λ held b. Keeps fds maps held (k b))
        (owned fds maps r.hdr) p f e
        (λ held a same.
          subst (λ x. Ensures (Alive (λ held' b. Keeps fds maps held' (k b))) x (f a)) (sym same)
            (next a))

  pub poll-Keeping :
      (rounds size end_at t₀ : ℕ) (buf : ℕ → ℕ) (x : Polled)
      → Keeping (λ (y : Polled). y.handle) x.handle (poll rounds size end_at t₀ buf x)
  unfolding poll count_read
  poll-Keeping zero size end_at t₀ buf x = tt
  poll-Keeping (suc k) size end_at t₀ buf x = elim (Bool-cases (ltb t₀ end_at)) [
    | inr e ↦ rw e refl
    | inl e ↦ rw e (
        after_call (λ g. g.handle) (λ (y : Polled). y.handle) x.handle
          (read x.handle true true buf size) _ (read-Ensures fds maps x.handle true true buf size)
          (λ g. (
            tt,
            λ t₁ _. elim (Bool-cases (is_ok g.rc)) [
              | inl o ↦ rw o (poll-Keeping k size end_at t₁.value g.buf _)
              | inr o ↦ rw o (elim (Bool-cases (is_busy g.rc)) [
                | inl b ↦ rw b (poll-Keeping k size end_at t₁.value g.buf _)
                | inr b ↦ rw b tt
              ])
            ],
          )))
  ]

  take_value-Keeping : (x : Woken) → Keeping (λ (y : Woken). y.handle) x.handle (take_value x)
  unfolding take_value
  take_value-Keeping x =
      after_call (λ g. g.handle) (λ (y : Woken). y.handle) x.handle
        (read x.handle true true x.buf wake_size) _
        (read-Ensures fds maps x.handle true true x.buf wake_size)
        (λ g. (
          tt,
          λ t _. elim (Bool-cases (is_busy g.rc)) [
            | inl b ↦ rw b refl
            | inr b ↦ rw b (elim (Bool-cases (is_ok g.rc)) [ inl o ↦ rw o refl | inr o ↦ rw o tt ])
          ],
        ))

  -- The handle behind a turn; a process that dies may hold anything.
  abbrev After : Held → Turn → Type 0
  After held Turn.dies = Unit
  After held (Turn.again y) = Keeps fds maps held y.handle
  After held (Turn.reads y) = Keeps fds maps held y.handle

  by_wait-After :
      (rounds : ℕ) (x : Woken) → Ensures After (owned fds maps x.handle.hdr) (by_wait rounds x)
  unfolding by_wait
  by_wait-After rounds x =
      Ensures-then (Waited fds maps) After (owned fds maps x.handle.hdr)
        (wait rounds x.handle x.wake.seen (some 100)) _
        (wait-Ensures fds maps rounds x.handle x.wake.seen (some 100))
        (λ held w k. elim (Bool-cases (is_timeout w.0)) [
          | inl e ↦ rw e (k.0)
          | inr e ↦ rw e (elim (Bool-cases (is_ok w.0)) [ inl o ↦ rw o (k.0) | inr o ↦ rw o tt ])
        ])

  by_peek-After :
      (poll_us : ℕ) (x : Woken) → Ensures After (owned fds maps x.handle.hdr) (by_peek poll_us x)
  unfolding by_peek peek
  by_peek-After poll_us x =
      Ensures-then (λ held g. Keeps fds maps held g.handle) After (owned fds maps x.handle.hdr)
        (peek x.handle true (λ _. 0)) _ (get-Ensures fds maps x.handle (λ _. 0) 0 false)
        (λ held g k. elim (Bool-cases (not (is_ok g.rc) && not (is_busy g.rc))) [
          | inl e ↦ rw e tt
          | inr e ↦
              rw e
                (elim (Bool-cases
                  (not (is_ok g.rc) || (written x.info g.info).generation == x.wake.seen)) [
                    | inl z ↦ rw z (tt, λ _ _. k)
                    | inr z ↦ rw z k
                  ])
        ])

  wake_turn-Keeping :
      (rest : Woken → Prog (Option Woken))
      → ((y : Woken) → Keeping (λ (z : Woken). z.handle) y.handle (rest y))
      → (held : Held) (t : Turn) → After held t
      → Ensures (Alive (λ held' (z : Woken). Keeps fds maps held' z.handle)) held (wake_turn rest t)
  unfolding wake_turn
  wake_turn-Keeping rest next held Turn.dies k = tt
  wake_turn-Keeping rest next held (Turn.again y) k = rw k (next y)
  wake_turn-Keeping rest next held (Turn.reads y) k = rw k (
      after_step (λ (z : Woken). z.handle) (λ (z : Woken). z.handle) y.handle (take_value y) rest
        (take_value-Keeping y) next)

  pub wake_loop-Keeping :
      (turn : Woken → Prog Turn)
      → ((x : Woken) → Ensures After (owned fds maps x.handle.hdr) (turn x))
      → (rounds end_at : ℕ) (x : Woken)
      → Keeping (λ (z : Woken). z.handle) x.handle (wake_loop turn rounds end_at x)
  unfolding wake_loop
  wake_loop-Keeping turn ok zero end_at x = tt
  wake_loop-Keeping turn ok (suc k) end_at x = (
    tt,
    λ t _. elim (Bool-cases (ltb t.value end_at)) [
      | inr e ↦ rw e refl
      | inl e ↦ rw e (
          Ensures-then After _ (owned fds maps x.handle.hdr) (turn x) _ (ok x) (λ held a k'.
            wake_turn-Keeping (wake_loop turn k end_at) (wake_loop-Keeping turn ok k end_at) held a
              k'))
    ],
  )

  pub wake_by-After :
      (p : Platform) (cfg : Config) (before : Info) (junk : ℕ → ℕ) (notify : Bool) (x : Woken)
      → Ensures After (owned fds maps x.handle.hdr) (wake_by p cfg before junk notify x)
  wake_by-After p cfg before junk true x = by_wait-After p.rounds x
  wake_by-After p cfg before junk false x = by_peek-After cfg.poll_us x

  pub first_value-Keeping :
      (p : Platform) (cfg : Config) (before : Info) (junk : ℕ → ℕ) (r : Handle)
      → Keeping (λ (z : Woken). z.handle) r (first_value p cfg before junk r)
  unfolding first_value
  first_value-Keeping p cfg before junk r =
      after_call (λ g. g.handle) (λ (z : Woken). z.handle) r (read r true true junk wake_size) _
        (read-Ensures fds maps r true true junk wake_size)
        (λ g. elim (Bool-cases (is_ok g.rc)) [ inl o ↦ rw o refl | inr o ↦ rw o tt ])
