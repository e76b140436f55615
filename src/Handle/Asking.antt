-- ===== src/Handle/Asking.antt =====
-- Any number of reads and peeks through one handle, beside a live writer.
use ps_msgr.Prelude.{List, [], ◌∷◌, ℕ, ◌+◌, ◌≤◌, true, false}
use ps_msgr.Reader.{Memcpy}
use ps_msgr.System.Timeline.{Timeline, IsCalm}
use ps_msgr.Kernel.{Prog, ret, ◌>>=◌}
use ps_msgr.Kernel.Monitor.{Ends, Ends-then}
use ps_msgr.Handle.{Handle, Got, read, peek}
use ps_msgr.Handle.Linear.{ticks, Serves, Fits, IsTrue, get-Ends}

-- A call of `psmsgr_state_read` or `psmsgr_state_peek`.
pub data Ask : Type 0 where
  reads : (buf : ℕ → ℕ) (size : ℕ) → Ask
  peeks : Ask

abbrev pub ask : Ask → Handle → Prog Got
ask (reads buf size) r = read r true true buf size
ask peeks r = peek r true (λ _. 0)

-- One call after another, with the handle that the last one leaves.
unfoldable pub session : List Ask → Handle → Prog (List Got)
session [] r = ret []
session (q ∷ qs) r = do g ← ask q r; gs ← session qs g.handle; ret (g ∷ gs)

module _ {n cap : ℕ} (T : Timeline n cap) (cpy : Memcpy) where
  abbrev pub Answered : Ask → (t t' : ℕ) → Got → Type 0
  Answered (reads buf size) t t' g = IsTrue T cpy size true buf t t' g
  Answered peeks t t' g = IsTrue T cpy 0 false (λ _. 0) t t' g

  -- Each call takes from a moment `t` to a moment `t'` that is not before it, and the next one starts
  -- there; each answer is true of the file within its call.
  abbrev pub InTime : List Ask → (t t'' : ℕ) → List Got → Type 0
  InTime [] t t'' [] = Unit
  InTime (q ∷ qs) t t'' (g ∷ gs) = (t' : ℕ) × (t ≤ t') × Answered q t t' g × InTime qs t' t'' gs
  InTime _ t t'' _ = ⊥

  ask-Ends :
      IsCalm T (22 + cap)
      → (q : Ask) (t : ℕ) (r : Handle) → Fits T cpy r
      → Ends ticks
          (Serves T cpy)
          (λ t' g. Answered q t t' g × (t ≤ t') × Fits T cpy g.handle)
          t
          (ask q r)
  unfolding read peek
  ask-Ends calm (reads buf size) t r fits = get-Ends T cpy size true buf calm t r fits
  ask-Ends calm peeks t r fits = get-Ends T cpy 0 false (λ _. 0) calm t r fits

  -- Beside a live, crashing, publishing writer, on whose file the channel's name stays, let a handle be asked to
  -- read and peek any number of times, attaching and detaching as the kernel's answers have it. Every
  -- call returns. Its result is that there is no file to read, or BUSY, or it is true of the file at a
  -- moment within the call: nothing published, or the latest value, whole. Each call starts where the one
  -- before it ended, and does not end before it starts, so results do not go back in time. The condition
  -- is that no slot is committed 2^27 times within the loads of one round.
  pub session-InTime :
      IsCalm T (22 + cap)
      → (qs : List Ask) (t : ℕ) (r : Handle) → Fits T cpy r
      → Ends ticks (Serves T cpy) (λ t' gs. InTime qs t t' gs) t (session qs r)
  unfolding session
  session-InTime calm [] t r fits = tt
  session-InTime calm (q ∷ qs) t r fits =
      Ends-then ticks (Serves T cpy) (λ t' g. Answered q t t' g × (t ≤ t') × Fits T cpy g.handle) _
        t (ask q r) _ (ask-Ends calm q t r fits)
        (λ t' g x.
          Ends-then ticks (Serves T cpy) (λ t'' gs. InTime qs t' t'' gs) _ t' (session qs g.handle)
            _ (session-InTime calm qs t' g.handle x.2) (λ t'' gs y. (t', x.1, x.0, y)))
