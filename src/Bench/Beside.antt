-- ===== src/Bench/Beside.antt =====
-- What the rows of a reader beside the writer process hold.
use ps_msgr.Prelude.{
  ℕ, ◌+◌, ◌%◌, ◌^◌, ◌≡◌, refl, Bool, Option, some, List, [], ◌∷◌, Bool-cases, inl, inr,
}
use ps_msgr.Reader.{Info}
use ps_msgr.Kernel.{Prog, ret, ◌>>=◌}
use ps_msgr.Kernel.Resources.{Held, Ensures, Ensures-then}
use ps_msgr.Lock.Discipline.{bare}
use ps_msgr.Handle.{Handle, reader_close}
use ps_msgr.Handle.Discipline.{owned, Keeps, reader_close-Ensures}
use ps_msgr.Bench.Operations.{◌>>?◌}
use ps_msgr.Bench.Setup.{Config, Platform, Entry, payload_sizes, open_reader}
use ps_msgr.Bench.Uncontended.{bench_sizes}
use ps_msgr.Bench.Process.{writer_start, writer_finish}
use ps_msgr.Bench.Contended.{Polled, poll, contended_from, contended_size, bench_contended}
use ps_msgr.Bench.WakeUp.{Woken, wake_loop, wake_by, first_value, wake_from, bench_wake}
use ps_msgr.Bench.Discipline.{Alive, >>?-Ensures, writer_start-Ensures, writer_finish-Ensures}
use ps_msgr.Bench.Polling.{
  open_reader-Ensures, poll-Keeping, first_value-Keeping, wake_loop-Keeping, wake_by-After,
}

module _ (fds maps : List ℕ) (p : Platform) (cfg : Config) where
  -- What was held before is held again.
  abbrev pub Restored : {A : Type 0} → Held → A → Type 0
  Restored h a = h ≡ bare fds maps

  -- The writer process has come to its end, and the reader is closed.
  finishes :
      {B : Type 0} (wp : ℕ × ℕ) (r : Handle) (b : B)
      → Ensures
          (Alive Restored)
          (owned (wp.1 ∷ fds) maps r.hdr)
          (writer_finish p cfg wp >>? (λ _. reader_close (some r) >>= (λ _. ret (some b))))
  finishes {B} wp r b =
      >>?-Ensures (λ h _. h ≡ owned fds maps r.hdr) Restored (owned (wp.1 ∷ fds) maps r.hdr)
        (writer_finish p cfg wp) _ (writer_finish-Ensures fds _ p cfg wp)
        (λ h _ e. rw e (
          Ensures-then (λ h' _. h' ≡ bare fds maps) _ (owned fds maps r.hdr) (reader_close (some r))
            _ (reader_close-Ensures fds maps r) (λ h' _ e'. e')))

  -- A row: the writer process is started, a reader opened, and what is done with it ends as `finishes` does.
  row :
      (name : List ℕ) (f : ℕ × ℕ → Handle → Prog (Option Entry))
      → ((wp : ℕ × ℕ) (r : Handle)
          → Ensures (Alive Restored) (owned (wp.1 ∷ fds) maps r.hdr) (f wp r))
      → Ensures
          (Alive Restored)
          (bare fds maps)
          (writer_start p cfg >>? (λ wp. open_reader p cfg name >>? (λ r. f wp r)))
  row name f ok =
      >>?-Ensures (λ h (wp : ℕ × ℕ). h ≡ bare (wp.1 ∷ fds) maps) Restored (bare fds maps)
        (writer_start p cfg) _ (writer_start-Ensures fds maps p cfg)
        (λ h wp e. rw e (
          >>?-Ensures (Keeps (wp.1 ∷ fds) maps) Restored (bare (wp.1 ∷ fds) maps)
            (open_reader p cfg name) _ (open_reader-Ensures (wp.1 ∷ fds) maps p cfg name)
            (λ h' r k. rw k (ok wp r))))

  contended_from-Ensures :
      (junk : ℕ → ℕ) (size : ℕ) (wp : ℕ × ℕ) (r : Handle)
      → Ensures
          (Alive Restored)
          (owned (wp.1 ∷ fds) maps r.hdr)
          (contended_from p cfg junk size wp r)
  unfolding contended_from
  contended_from-Ensures junk size wp r = (
    tt,
    λ m _. elim (Bool-cases m.okay) [
      | inr e ↦ rw e tt
      | inl e ↦ rw e (
        tt,
        λ t _. (
          tt,
          λ t₀ _.
              >>?-Ensures (λ h (x : Polled). Keeps (wp.1 ∷ fds) maps h x.handle) Restored
                (owned (wp.1 ∷ fds) maps r.hdr) (poll p.rounds size _ t₀.value junk _) _
                (poll-Keeping (wp.1 ∷ fds) maps p.rounds size ((t.value + cfg.seconds_ns) % 2 ^ 64)
                  t₀.value junk _)
                (λ h x k. rw k (finishes wp x.handle _)),
        ),
      )
    ],
  )

  contended_size-Ensures :
      (junk : ℕ → ℕ) (size : ℕ)
      → Ensures (Alive Restored) (bare fds maps) (contended_size p cfg junk size)
  unfolding contended_size
  contended_size-Ensures junk size = (
    tt,
    λ m _. elim (Bool-cases m.okay) [
      | inr e ↦ rw e tt
      | inl e ↦ rw e (row _ (contended_from p cfg junk size) (contended_from-Ensures junk size))
    ],
  )

  bench_sizes-Ensures :
      (bench : ℕ → Prog (Option (List Entry)))
      → ((size : ℕ) → Ensures (Alive Restored) (bare fds maps) (bench size))
      → (ss : List ℕ) → Ensures (Alive Restored) (bare fds maps) (bench_sizes p cfg bench ss)
  unfolding bench_sizes
  bench_sizes-Ensures bench ok [] = refl
  bench_sizes-Ensures bench ok (s ∷ ss) =
      >>?-Ensures Restored Restored (bare fds maps) (bench s) _ (ok s) (λ h x e. rw e (
        >>?-Ensures Restored Restored (bare fds maps) (bench_sizes p cfg bench ss) _
          (bench_sizes-Ensures bench ok ss) (λ h' y e'. e')))

  wake_from-Ensures :
      (before : Info) (junk : ℕ → ℕ) (notify : Bool) (wp : ℕ × ℕ) (r : Handle)
      → Ensures
          (Alive Restored)
          (owned (wp.1 ∷ fds) maps r.hdr)
          (wake_from p cfg before junk notify wp r)
  unfolding wake_from
  wake_from-Ensures before junk notify wp r = (
    tt,
    λ m _. elim (Bool-cases m.okay) [
      | inr e ↦ rw e tt
      | inl e ↦ rw e (
          >>?-Ensures (λ h (x : Woken). Keeps (wp.1 ∷ fds) maps h x.handle) Restored
            (owned (wp.1 ∷ fds) maps r.hdr) (first_value p cfg before junk r) _
            (first_value-Keeping (wp.1 ∷ fds) maps p cfg before junk r)
            (λ h x k. rw k (
              tt,
              λ t _.
                  >>?-Ensures (λ h' (y : Woken). Keeps (wp.1 ∷ fds) maps h' y.handle) Restored
                    (owned (wp.1 ∷ fds) maps x.handle.hdr) (wake_loop _ p.rounds _ x) _
                    (wake_loop-Keeping (wp.1 ∷ fds) maps (wake_by p cfg before junk notify)
                      (wake_by-After (wp.1 ∷ fds) maps p cfg before junk notify) p.rounds
                      ((t.value + cfg.seconds_ns) % 2 ^ 64) x)
                    (λ h' y k'. rw k' (finishes wp y.handle _)),
            )))
    ],
  )

  -- Whatever the kernel answers and however long they run, the rows of a reader beside the writer process
  -- make no call on a closed descriptor or on unmapped memory; unless `die` has ended the process, it has
  -- closed the pipe, unmapped the channel's file, and holds what it held before.
  pub bench_wake-Ensures :
      (before : Info) (junk : ℕ → ℕ) (notify : Bool)
      → Ensures (Alive Restored) (bare fds maps) (bench_contended p cfg junk)
        × Ensures (Alive Restored) (bare fds maps) (bench_wake p cfg before junk notify)
  unfolding bench_contended bench_wake
  bench_wake-Ensures before junk notify = (
    bench_sizes-Ensures _
        (λ size.
          >>?-Ensures Restored Restored (bare fds maps) (contended_size p cfg junk size) _
            (contended_size-Ensures junk size) (λ h x e. e))
        payload_sizes,
    row _ (wake_from p cfg before junk notify) (wake_from-Ensures before junk notify),
  )
