-- ===== src/Opening/Calling.antt =====
-- What a call of the writer holds.
use ps_msgr.Prelude.{ℕ, ◌≡◌, refl, true}
use ps_msgr.Writer.{Writer}
use ps_msgr.System.{Call}
use ps_msgr.Kernel.Resources.{Held, is_in, Ensures}
use ps_msgr.Opening.Writing.{writer_call, outcome-lock_fd}

-- A call of the writer changes nothing that is held, and keeps the handle's lock.
pub writer_call-Ensures :
    (h : Held) (map : ℕ) (w : Writer) (c : ℕ → Call)
    → is_in map h.maps ≡ true
    → Ensures (λ h' x. (h' ≡ h) × (x.1.lock_fd ≡ w.lock_fd)) h (writer_call map w c)
unfolding writer_call
writer_call-Ensures h map w c here =
    (here, λ a _. (here, λ _ _. (refl, outcome-lock_fd (c a.value) w a.file)))
