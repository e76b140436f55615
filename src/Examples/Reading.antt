-- ===== src/Examples/Reading.antt =====
-- What examples/c/motor_reader.c holds while it runs, and how much it prints.
use ps_msgr.Prelude.{
  ℕ, zero, suc, ◌+◌, ◌%◌, ◌^◌, ◌≤◌, ◌<◌, ◌≡◌, refl, sym, subst, true, false, not, ◌&&◌, ◌||◌,
  Option, none, some, List, [], ◌∷◌, ◌==◌, ltb, bit_and, Bool-cases, inl, inr, arith, if◌then◌else◌,
}
use ps_msgr.Result.{Rc}
use ps_msgr.Name.{Paths, name_valid, paths_init}
use ps_msgr.Reader.{Info}
use ps_msgr.Kernel.{Prog, ret, ◌>>=◌}
use ps_msgr.Kernel.Texts.{make_paths, is_empty_dir}
use ps_msgr.Kernel.Resources.{Held, Ensures, Ensures-then, Ensures-mono}
use ps_msgr.Lock.{is_ok}
use ps_msgr.Lock.Discipline.{bare}
use ps_msgr.Handle.{
  Handle, fresh_handle, info_attached, reader_open, reader_close, read, peek, written,
}
use ps_msgr.Handle.Discipline.{owned, Keeps, reader_close-Ensures}
use ps_msgr.Handle.Calls.{Waited, get-Ensures, read-Ensures, wait-Ensures}
use ps_msgr.Handle.Wait.{wait}
use ps_msgr.Handle.Queries.{describe_sized, desc_bytes, writer_alive}
use ps_msgr.Dump.Discipline.{Leaves, Leaves-then, writer_alive-Leaves, describe_sized-Leaves}
use ps_msgr.Examples.MotorWriter.{motor_channel, motor_status_v1, motor_status_size}
use ps_msgr.Examples.MotorReader.{
  payload_type_of, payload_ok, Message, Printed, ended, print, passes, has_info, on_timeout,
  on_value, on_wait, read_loop, motor_reader_opened, motor_reader,
}

-- How many of the lines are values.
abbrev pub values : List Message → ℕ
values [] = 0
values (Message.value _ ∷ ls) = suc (values ls)
values (_ ∷ ls) = values ls

module _ (fds maps : List ℕ) (before : Info) (junk : ℕ → ℕ) (timeout_ms count : ℕ) where
  -- With `n` values printed before.
  abbrev IsFew : (n : ℕ) → List Message → Type 0
  IsFew n ls = 0 < count → n ≤ count → n + values ls ≤ count

  abbrev Ran : (n : ℕ) → Held → Printed → Type 0
  Ran n held x = Keeps fds maps held x.handle × (x.status ≤ 1) × IsFew n x.lines

  abbrev Runs : (n : ℕ) → Handle → Prog Printed → Type 0
  Runs n r p = Ensures (Ran n) (owned fds maps r.hdr) p

  Runs-after :
      {A : Type 0} (h : A → Handle) (n : ℕ) (r : Handle) (p : Prog A) (f : A → Prog Printed)
      → Leaves fds maps h r p
      → ((a : A) → Runs n (h a) (f a))
      → Runs n r (p >>= f)
  Runs-after h n r p f e next =
      Ensures-then (λ held a. Keeps fds maps held (h a)) (Ran n) (owned fds maps r.hdr) p f e
        (λ held a same. subst (λ x. Ensures (Ran n) x (f a)) (sym same) (next a))

  Runs-ended : (n status : ℕ) (r : Handle) → status ≤ 1 → Runs n r (ret (ended status r))
  Runs-ended n status r le = (refl, le, λ _ h. omega arith)

  Runs-print :
      (n n' : ℕ) (r : Handle) (l : Message) (p : Prog Printed)
      → ((ls : List Message) → IsFew n' ls → IsFew n (l ∷ ls))
      → Runs n' r p
      → Runs n r (print l p)
  unfolding print
  Runs-print n n' r l p w e =
      Ensures-then (Ran n') (Ran n) (owned fds maps r.hdr) p _ e
        (λ held x k. (k.0, k.1, w x.lines k.2))

  payload_ok-Leaves : (r : Handle) (info : Info) → Leaves fds maps (λ x. x.1) r (payload_ok r info)
  unfolding payload_ok
  payload_ok-Leaves r info = elim (Bool-cases (bit_and info.flags info_attached == 0)) [
    | inl e ↦ rw e refl
    | inr e ↦ rw e (
        Leaves-then fds maps (λ d. d.1) (λ x. x.1) r (describe_sized r true (λ _. 0) desc_bytes) _
          (describe_sized-Leaves fds maps r)
          (λ d. elim (Bool-cases (is_ok d.0 && not (payload_type_of d.2 == motor_status_v1))) [
            | inl k ↦ rw k refl
            | inr k ↦ rw k refl
          ]))
  ]

  peek-Leaves : (r : Handle) → Leaves fds maps (λ g. g.handle) r (peek r true (λ _. 0))
  unfolding peek
  peek-Leaves r = get-Ensures fds maps r (λ _. 0) 0 false

  on_timeout-Runs :
      (n : ℕ) (rest : Handle → Prog Printed) (r : Handle)
      → ((r' : Handle) → Runs n r' (rest r'))
      → Runs n r (on_timeout before junk rest r)
  unfolding on_timeout
  on_timeout-Runs n rest r next =
      Runs-after (λ g. g.handle) n r (peek r true (λ _. 0)) _ (peek-Leaves r)
        (λ g. elim (Bool-cases (is_ok g.rc)) [
          | inr e ↦ rw e (Runs-print n n g.handle Message.waiting _ (λ ls w. w) (next g.handle))
          | inl e ↦ rw e (
              Runs-after (λ p. p.1) n g.handle (payload_ok g.handle (written before g.info)) _
                (payload_ok-Leaves g.handle _)
                (λ p. elim (Bool-cases p.0) [
                  | inr k ↦ rw k (Runs-ended n 1 p.1 (omega arith))
                  | inl k ↦ rw k (
                      Runs-after (λ a. a.1) n p.1 (writer_alive p.1) _
                        (writer_alive-Leaves fds maps p.1)
                        (λ a. (
                          tt,
                          λ t _.
                              Runs-print n n a.1 (Message.last_value _ _) _ (λ ls w. w) (next a.1),
                        )))
                ]))
        ])

  counted :
      {n n' : ℕ} (ls : List Message)
      → 0 < count
      → (n' ≤ count → n' + values ls ≤ count)
      → (n < count) × (n' ≡ n + 1)
      → n + suc (values ls) ≤ count
  counted ls pos w room = omega (arith, w (omega (arith, room.0, room.1)), room.1)

  on_value-Runs :
      (n n' : ℕ) (rest : Option ℕ → Handle → Prog Printed) (r : Handle)
      → ((r' : Handle) → Runs n r' (rest none r'))
      → ((g : ℕ) (r' : Handle) → Runs n' r' (rest (some g) r'))
      → (0 < count → (n < count) × (n' ≡ n + 1))
      → Runs n r (on_value before junk rest r)
  unfolding on_value
  on_value-Runs n n' rest r next more room =
      Runs-after (λ g. g.handle) n r (read r true true junk motor_status_size) _
        (read-Ensures fds maps r true true junk motor_status_size)
        (λ g. elim (Bool-cases (passes g.rc)) [
          | inl e ↦ rw e (next g.handle)
          | inr e ↦ rw e (elim (Bool-cases (has_info g.rc)) [
            | inr k ↦ rw k (Runs-ended n 1 g.handle (omega arith))
            | inl k ↦ rw k (
                Runs-after (λ p. p.1) n g.handle (payload_ok g.handle (written before g.info)) _
                  (payload_ok-Leaves g.handle _)
                  (λ p. elim (Bool-cases p.0) [
                    | inr z ↦ rw z (Runs-ended n 1 p.1 (omega arith))
                    | inl z ↦ rw z (
                        Runs-print n n' p.1 (Message.value g.buf) _
                          (λ ls w pos le. counted ls pos (w pos) (room pos)) (more _ p.1))
                  ]))
          ])
        ])

  module _ (n n' : ℕ) (again : Handle → Prog Printed) (rest : Option ℕ → Handle → Prog Printed)
      (next : (r : Handle) → Runs n r (again r)) (none_ : (r : Handle) → Runs n r (rest none r))
      (more : (g : ℕ) (r : Handle) → Runs n' r (rest (some g) r))
      (room : 0 < count → (n < count) × (n' ≡ n + 1)) where
    on_wait-Runs : (w : Rc × Handle) → Runs n w.1 (on_wait before junk again rest w)
    unfolding on_wait
    on_wait-Runs (Rc.ok, r) = on_value-Runs n n' rest r none_ more room
    on_wait-Runs (Rc.timeout, r) = on_timeout-Runs n again r next
    on_wait-Runs (Rc.intr, r) = next r
    on_wait-Runs (Rc.inval, r) = Runs-ended n 1 r (omega arith)
    on_wait-Runs (Rc.sys, r) = Runs-ended n 1 r (omega arith)
    on_wait-Runs (Rc.nodata, r) = Runs-ended n 1 r (omega arith)
    on_wait-Runs (Rc.toosmall, r) = Runs-ended n 1 r (omega arith)
    on_wait-Runs (Rc.toobig, r) = Runs-ended n 1 r (omega arith)
    on_wait-Runs (Rc.busy, r) = Runs-ended n 1 r (omega arith)
    on_wait-Runs (Rc.writer_exists, r) = Runs-ended n 1 r (omega arith)
    on_wait-Runs (Rc.mismatch, r) = Runs-ended n 1 r (omega arith)
    on_wait-Runs (Rc.format, r) = Runs-ended n 1 r (omega arith)
    on_wait-Runs (Rc.notsup, r) = Runs-ended n 1 r (omega arith)
    on_wait-Runs (Rc.state, r) = Runs-ended n 1 r (omega arith)

  module _ (small : count < 2 ^ 64) where
    not_done :
        (n : ℕ)
        → (count == 0 || ltb n count) ≡ true
        → 0 < count
        → (n < count) × ((n + 1) % 2 ^ 64 ≡ n + 1)
    not_done n e pos = (ground arith, ground arith)

    read_loop-Runs :
        (rounds seen n : ℕ) (r : Handle)
        → Runs n r (read_loop before junk timeout_ms count rounds seen n r)
    unfolding read_loop
    read_loop-Runs zero seen n r = tt
    read_loop-Runs (suc k) seen n r = (
      tt,
      λ s _. elim (Bool-cases s.okay) [
        | inl e ↦ rw e (Runs-ended n 0 r (omega arith))
        | inr e ↦ rw e (elim (Bool-cases (count == 0 || ltb n count)) [
          | inr d ↦ rw d (Runs-ended n 0 r (omega arith))
          | inl d ↦ rw d (
              Runs-after (λ w. w.1) n r (wait k r seen (some timeout_ms)) _
                (Ensures-mono (Waited fds maps) (λ held w. Keeps fds maps held w.1)
                  (owned fds maps r.hdr) _ (λ held w x. x.0)
                  (wait-Ensures fds maps k r seen (some timeout_ms)))
                (on_wait-Runs n ((n + 1) % 2 ^ 64) (read_loop before junk timeout_ms count k seen n)
                  _ (read_loop-Runs k seen n) (read_loop-Runs k seen n)
                  (λ g r'. read_loop-Runs k g ((n + 1) % 2 ^ 64) r') (not_done n d)))
        ])
      ],
    )

    -- The exit status, and the number of values.
    abbrev pub Exits : Held → ℕ × List Message → Type 0
    Exits held x = (held ≡ bare fds maps) × (x.0 ≤ 1) × (0 < count → values x.1 ≤ count)

    opened-Ensures :
        (rounds : ℕ) (r : Handle)
        → Ensures Exits
            (owned fds maps r.hdr)
            (motor_reader_opened before junk timeout_ms count rounds (some r))
    unfolding motor_reader_opened
    opened-Ensures rounds r =
        Ensures-then (Ran 0) Exits (owned fds maps r.hdr)
          (read_loop before junk timeout_ms count rounds 0 0 r) _ (read_loop-Runs rounds 0 0 r)
          (λ held x k. rw k.0 (
            Ensures-then (λ held' _. held' ≡ owned fds maps none) Exits
              (owned fds maps x.handle.hdr) (reader_close (some x.handle)) _
              (reader_close-Ensures fds maps x.handle)
              (λ held' _ same. (same, k.1, λ pos. omega (arith, k.2 pos (omega arith))))))

    made :
        (rounds : ℕ) (p : Option Paths)
        → let x : Rc × Option Handle = elim p [
          | none ↦ (Rc.sys, none)
          | some paths ↦ (Rc.ok, some (fresh_handle paths))
        ] in
          Ensures Exits (bare fds maps) (
            if not (is_ok x.0)
            then ret (1, [])
            else motor_reader_opened before junk timeout_ms count rounds x.1)
    made rounds none = (refl, omega arith, λ _. omega arith)
    made rounds (some p) = opened-Ensures rounds (fresh_handle p)

    -- Whatever the kernel answers, whenever the signal comes and however long it reads, motor_reader, once
    -- its command line is accepted, makes no call on a closed descriptor or on unmapped memory, exits with 0 or 1, has then closed and
    -- unmapped all that it opened, and has printed `--count` values at most, if that is not 0.
    pub motor_reader-Ensures :
        (size rounds : ℕ) (dir env : Option (List ℕ))
        → Ensures Exits
            (bare fds maps)
            (motor_reader before junk timeout_ms count size rounds dir env)
    unfolding motor_reader reader_open make_paths
    motor_reader-Ensures size rounds dir env =
        elim (Bool-cases (not (name_valid (some motor_channel)) || is_empty_dir dir)) [
          | inl e ↦ rw e (refl, omega arith, λ _. omega arith)
          | inr e ↦ rw e (
            tt,
            λ c _. elim (Bool-cases c.okay) [
              | inr k ↦ rw k (refl, omega arith, λ _. omega arith)
              | inl k ↦ rw k (tt, λ m _. made rounds (paths_init dir env motor_channel m.okay))
            ],
          )
        ]
