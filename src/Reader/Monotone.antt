-- ===== src/Reader/Monotone.antt =====
-- Two reads of one channel, one after the other.
use ps_msgr.Prelude.{ℕ, ◌+◌, ◌≤◌, ◌<◌, ◌≢◌, ◌⊎◌, inl, inr, Bool, false, arith}
use ps_msgr.Memory.{File}
use ps_msgr.Result.{Rc}
use ps_msgr.Reader.{Memcpy, Reading, read_latest}
use ps_msgr.Reader.Snapshot.{IsNothing, IsSnapshot, read_latest-IsLinear}
use ps_msgr.System.Timeline.{Timeline, file_at, IsCalm}

-- What the reading says is true of the file `f`.
abbrev pub Shows : (size : ℕ) (copy : Bool) → File → Reading → Type 0
Shows size copy f r = IsNothing size copy f r ⊎ IsSnapshot size copy f r

-- Beside a live, crashing, publishing writer, of two reads or peeks that are not busy, the second of
-- which starts when the first has returned, the second returns the value that was the latest at a
-- later moment, or at the same one: time does not run back for a reader. The condition is that of a
-- single read, that no slot is committed 2^27 times within the loads of one round.
pub read_latest-read_latest :
    {n cap : ℕ} (T : Timeline n cap) (cpy : Memcpy)
    → IsCalm T (22 + cap)
    → (size size' : ℕ) (copy copy' : Bool) (buf buf' : ℕ → ℕ) (t t' : ℕ)
    → let r = read_latest cpy (file_at T) n cap size copy false buf t in
      let r' = read_latest cpy (file_at T) n cap size' copy' false buf' t' in
      r.time ≤ t'
      → r.rc ≢ Rc.busy
      → r'.rc ≢ Rc.busy
      → (a : ℕ) × (b : ℕ) × (t ≤ a)
        × (a < b)
        × (b < r'.time)
        × Shows size copy (file_at T a) r
        × Shows size' copy' (file_at T b) r'
read_latest-read_latest T cpy calm size size' copy copy' buf buf' t t' after ne ne' =
    elim (read_latest-IsLinear T cpy size copy calm buf t) [
      | inl e ↦ absurd (ne e)
      | inr (a, h, k, x) ↦ elim (read_latest-IsLinear T cpy size' copy' calm buf' t') [
        | inl e ↦ absurd (ne' e)
        | inr (b, h', k', y) ↦ (a, b, h, omega arith, k', x, y)
      ]
    ]
