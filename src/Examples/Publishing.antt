-- ===== src/Examples/Publishing.antt =====
-- What examples/c/motor_writer.c leaves in its channel.
use ps_msgr.Prelude.{
  ℕ, zero, suc, ◌+◌, ◌^◌, ◌≤◌, ◌<◌, ◌≡◌, ◌⊎◌, refl, Bool, true, false, some, List, [], ◌∷◌, ◌==◌,
  Bool-cases, inl, inr, arith, ap,
}
use ps_msgr.Layout.{latest_none}
use ps_msgr.Memory.{File, apply_all}
use ps_msgr.Writer.{Writer}
use ps_msgr.System.{Call, outcome}
use ps_msgr.System.Publish.{Offers}
use ps_msgr.System.Whole.{IsIdle, publish-IsIdle}
use ps_msgr.Kernel.{Sys, Answer}
use ps_msgr.Kernel.Monitor.{Ends, Ends-then}
use ps_msgr.Lock.{is_ok}
use ps_msgr.Opening.Writing.{writer_call}
use ps_msgr.Examples.MotorWriter.{
  MotorStatus, motor_status, motor_status_size, next_seq, Published, publish_loop,
}

-- The channel's file, and whether `stop` was found set.
pub record Seen : Type 0 where
  pub file : File
  pub signal : Bool

-- The writer alone stores to its channel's file.
abbrev pub sees : Sys → Answer → Seen → Seen
sees (Sys.make_stores _ stores) a m = record m { file = apply_all stores m.file }
sees Sys.stopped a m = record m { signal = a.okay }
sees _ a m = m

abbrev pub Finds : Sys → Answer → Seen → Type 0
Finds (Sys.enter _) a m = a.file ≡ m.file
Finds _ a m = Unit

-- The statuses of `k` sequence numbers from `seq` on.
abbrev pub statuses : (seq k : ℕ) → List MotorStatus
statuses seq zero = []
statuses seq (suc k) = motor_status seq ∷ statuses (next_seq seq) k

module _ (n : ℕ) (encode : MotorStatus → ℕ → ℕ) where
  -- A handle of the channel, between two calls.
  abbrev pub IsOpen : File → Writer → Type 0
  IsOpen f w = IsIdle n motor_status_size f w × (w.open_slot ≡ latest_none)

  -- The file offers the status, whole.
  abbrev pub Holds : MotorStatus → File → Type 0
  Holds s f = (gen : ℕ) × (now : ℕ) × Offers gen motor_status_size now (encode s) f

  -- The file offers the last one of the lines; if there is none, it is as `P` says.
  abbrev pub HoldsLast : (P : File → Type 0) → List MotorStatus → File → Type 0
  HoldsLast P [] f = P f
  HoldsLast P (s ∷ rest) f = HoldsLast (Holds s) rest f

  call-Ends :
      (map : ℕ) (w : Writer) (seq : ℕ) (m : Seen)
      → IsOpen m.file w
      → Ends sees Finds
          (λ m' x.
            (is_ok x.0 ≡ true)
            × IsOpen m'.file x.1
            × Holds (motor_status seq) m'.file
            × (m'.signal ≡ m.signal))
          m
          (writer_call map w
            (λ now. Call.publishes (some (encode (motor_status seq))) motor_status_size now))
  unfolding writer_call outcome
  call-Ends map w seq m (i, closed) a e _ _ = rw e (
      let d =
        publish-IsIdle w (encode (motor_status seq)) motor_status_size a.value m.file i closed
          (omega arith) in
      (ap is_ok d.0, (d.1, d.2), (w.gen, a.value, d.3), refl))

  module _ (period_ns count map : ℕ) where
    -- From the sequence number `seq` on: the lines follow one another, up to `count` or until the signal.
    abbrev pub IsRun : (P : File → Type 0) → (seq : ℕ) → Seen → Published → Type 0
    IsRun P seq m r =
        (r.status ≡ 0)
        × ((k : ℕ) × (r.lines ≡ statuses seq k)
            × ((seq + k ≡ count + 1) ⊎ ((m.signal ≡ true) × (seq + k ≤ count))))
        × HoldsLast P r.lines m.file
        × IsOpen m.file r.writer

    shifted :
        (seq seq' k : ℕ) (b : Bool)
        → seq' ≡ seq + 1
        → (seq' + k ≡ count + 1) ⊎ ((b ≡ true) × (seq' + k ≤ count))
        → (seq + suc k ≡ count + 1) ⊎ ((b ≡ true) × (seq + suc k ≤ count))
    shifted seq seq' k b e (inl x) = inl (omega arith)
    shifted seq seq' k b e (inr x) = inr (x.0, omega (arith, x.1))

    publish_loop-Ends :
        (rounds : ℕ) (w : Writer) (seq next_ns : ℕ) (P : File → Type 0) (m : Seen)
        → IsOpen m.file w
        → P m.file
        → m.signal ≡ false
        → seq ≤ count
        → count < seq + rounds
        → count < 2 ^ 64
        → Ends sees Finds
            (IsRun P seq)
            m
            (publish_loop encode period_ns count map rounds w seq next_ns)
    unfolding publish_loop
    publish_loop-Ends zero w seq next_ns P m at p quiet le enough small = absurd (omega arith)
    publish_loop-Ends (suc k) w seq next_ns P m at p quiet le enough small = λ s _.
        elim (Bool-cases s.okay) [
          | inl e ↦ rw e (refl, (0, refl, inr (refl, omega arith)), p, at)
          | inr e ↦ rw e (
              Ends-then sees Finds _ (IsRun P seq) _ (writer_call map w _) _
                (call-Ends map w seq (record m { signal = false }) at)
                (λ m' x d. rw d.0 (elim (Bool-cases (seq == count)) [
                  | inl last ↦ rw last (refl, (1, refl, inl (ground arith)), d.2, d.1)
                  | inr more ↦ rw more (λ _ _.
                      Ends-then sees Finds (IsRun (Holds (motor_status seq)) (next_seq seq))
                        (IsRun P seq) m' _ _
                        (publish_loop-Ends k x.1 (next_seq seq) _ (Holds (motor_status seq)) m' d.1
                          d.2 d.3 (ground arith) (ground arith) small)
                        (λ m'' r z. (
                          z.0,
                          (
                            suc z.1.0,
                            ap (λ xs. motor_status seq ∷ xs) z.1.1,
                            shifted seq (next_seq seq) z.1.0 m''.signal (ground arith) z.1.2,
                          ),
                          z.2,
                          z.3,
                        )))
                ])))
        ]

    -- Let the channel's file, whose geometry is the motor's, be stored to by this program alone, behind an
    -- opened handle, and let `--count` be positive. Then the loop ends with status 0, whenever the signal
    -- comes: the lines that it prints are the statuses 1, 2, 3 and so on, all `count` of them if `stop` was never
    -- found set, and the file then offers the last line's bytes, whole, or what it held before the first. The
    -- handle is left between two calls.
    pub publish_loop-IsRun :
        (P : File → Type 0) (w : Writer) (now : ℕ) (f : File)
        → IsIdle n motor_status_size f w
        → w.open_slot ≡ latest_none
        → P f
        → 0 < count
        → count < 2 ^ 64
        → Ends sees Finds
            (IsRun P 1)
            (record { file = f; signal = false })
            (publish_loop encode period_ns count map (count + 1) w 1 now)
    publish_loop-IsRun P w now f i closed p some_ small =
        publish_loop-Ends (count + 1) w 1 now P (record { file = f; signal = false }) (i, closed) p
          refl (omega arith) (omega arith) small
