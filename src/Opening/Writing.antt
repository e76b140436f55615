-- ===== src/Opening/Writing.antt =====
-- A call of the writer on the file that it has mapped: the stores of Writer, behind what the call finds.
use ps_msgr.Prelude.{ℕ, ◌≡◌, refl, true, false, ◌&&◌, not, ltb, ◌==◌, Bool-cases, inl, inr}
use ps_msgr.Layout.{latest_none}
use ps_msgr.Memory.{File}
use ps_msgr.Result.{Rc}
use ps_msgr.Writer.{
  Writer, begin_slot, commit_slot, committed, publish, begin, commit, abort, is_null,
}
use ps_msgr.System.{Call, publishes, begins, commits_with, aborts, outcome, handle}
use ps_msgr.Kernel.{Sys, Prog, ret, ◌>>=◌, ◌>>◌, sys}

-- The call gets the value of the clock.
unfoldable pub writer_call : (map : ℕ) → Writer → (ℕ → Call) → Prog (Rc × Writer)
writer_call map w c = do
  a ← sys (Sys.enter map)
  sys (Sys.make_stores map (outcome (c a.value) w a.file).stores)
  ret ((outcome (c a.value) w a.file).rc, handle w (outcome (c a.value) w a.file).writer)

-- No call changes the lock or the size of the mapping.
pub outcome-lock_fd :
    (c : Call) (w : Writer) (f : File) → (handle w (outcome c w f).writer).lock_fd ≡ w.lock_fd
unfolding outcome publish begin commit abort committed begin_slot commit_slot
outcome-lock_fd (publishes bytes len now) w f =
    elim (Bool-cases (is_null bytes && not (len == 0))) [
      | inl e ↦ rw e refl
      | inr e ↦ rw e (elim (Bool-cases (w.open_slot == latest_none)) [
        | inr o ↦ rw o refl
        | inl o ↦
            rw o (elim (Bool-cases (ltb w.capacity len)) [ inl b ↦ rw b refl | inr b ↦ rw b refl ])
      ])
    ]
outcome-lock_fd (begins true) w f = elim (Bool-cases (w.open_slot == latest_none)) [
  | inr o ↦ rw o refl
  | inl o ↦ rw o refl
]
outcome-lock_fd (begins false) w f = refl
outcome-lock_fd (commits_with len now) w f = elim (Bool-cases (w.open_slot == latest_none)) [
  | inl o ↦ rw o refl
  | inr o ↦ rw o (elim (Bool-cases (ltb w.capacity len)) [ inl b ↦ rw b refl | inr b ↦ rw b refl ])
]
outcome-lock_fd aborts w f = elim (Bool-cases (w.open_slot == latest_none)) [
  | inl o ↦ rw o refl
  | inr o ↦ rw o refl
]
