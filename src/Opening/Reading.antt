-- ===== src/Opening/Reading.antt =====
-- Reading the header of an open file.
use ps_msgr.Prelude.{
  ℕ, ◌≡◌, refl, sym, Bool, true, false, ◌||◌, not, ltb, ◌==◌, Bool-cases, inl, inr,
}
use ps_msgr.Layout.{header_bytes}
use ps_msgr.Result.{Rc}
use ps_msgr.Kernel.Resources.{Held, is_in, Ensures}
use ps_msgr.Lock.{is_ok}
use ps_msgr.Opening.{read_header}

-- The codes with which an attach fails.
abbrev pub fails : Rc → Bool
fails Rc.nodata = true
fails Rc.sys = true
fails Rc.format = true
fails _ = false

pub read_header-Ensures :
    (fd : ℕ) (h : Held)
    → is_in fd h.fds ≡ true
    → Ensures (λ h' r. (h' ≡ h) × (is_ok r.0 ≡ false → fails r.0 ≡ true)) h (read_header fd)
unfolding read_header
read_header-Ensures fd h i = (
  i,
  λ f _. elim (Bool-cases (not f.okay)) [
    | inl e ↦ rw e (refl, λ _. refl)
    | inr e ↦ rw e (elim (Bool-cases (not f.stat.regular || ltb f.stat.size header_bytes)) [
      | inl e' ↦ rw e' (refl, λ _. refl)
      | inr e' ↦ rw e' (
        i,
        λ p _. elim (Bool-cases (not p.okay)) [
          | inl e'' ↦ rw e'' (refl, λ _. refl)
          | inr e'' ↦ rw e'' (elim (Bool-cases (p.value == header_bytes)) [
            | inl whole ↦ rw whole (refl, λ k. sym k)
            | inr short ↦ rw short (refl, λ _. refl)
          ])
        ],
      )
    ])
  ],
)
