-- ===== src/Opening/Decisions.antt =====
-- When an existing channel is reused, replaced or refused.
use ps_msgr.Prelude.{
  ℕ, ◌%◌, ◌≡◌, ◌≢◌, ◌↔◌, Bool, true, false, arith, not, ◌==◌, ◌||◌, Bool-cases, inl, inr, refl,
}
use ps_msgr.Prelude.Bits.{bit_and-ones}
use ps_msgr.Layout.{Header}
use ps_msgr.Result.{Rc}
use ps_msgr.Options.{Options, config_flags_of}
use ps_msgr.Opening.{reuse, refuse, decide}

-- The file has the geometry, the payload type and the flags that the caller asks for.
abbrev pub SameGeometry : Options → Header → Type 0
SameGeometry o h =
    (h.capacity ≡ o.capacity)
    × (h.slot_count ≡ o.slot_count)
    × (h.payload_type ≡ o.payload_type)
    × (h.config_flags ≡ config_flags_of o)

mismatch-refused :
    (o : Options) (state : ℕ) (h : Header)
    → state % 2 ≡ 0
    → ¬ SameGeometry o h
    → o.flags % 2 ≡ 0
    → decide o true state h ≡ refuse Rc.mismatch
unfolding decide
mismatch-refused o state h live other keep =
    elim (Bool-cases (
      not (h.capacity == o.capacity)
      || not (h.slot_count == o.slot_count)
      || not (h.payload_type == o.payload_type)
      || not (h.config_flags == config_flags_of o))) [
        | inl e ↦ rw e (ground (arith, bit_and-ones 1 state, bit_and-ones 1 o.flags))
        | inr e ↦ absurd (other (ground arith, ground arith, ground arith, ground arith))
      ]

-- An existing file is reused exactly if it is valid, not retired, has the geometry that is asked for
-- and the minor version; it is refused with FORMAT exactly if it is not valid, and with MISMATCH
-- exactly if it is valid, not retired and has another geometry, each time without RECREATE; no other
-- code refuses it.
pub decide_lem :
    (o : Options) (valid : Bool) (state : ℕ) (h : Header)
    → ((decide o valid state h ≡ reuse)
        ↔ ((valid ≡ true) × (state % 2 ≡ 0) × SameGeometry o h × (h.version_minor ≡ 0)))
      × ((decide o valid state h ≡ refuse Rc.format) ↔ ((valid ≡ false) × (o.flags % 2 ≡ 0)))
      × ((decide o valid state h ≡ refuse Rc.mismatch)
          ↔ ((valid ≡ true) × (state % 2 ≡ 0) × (¬ SameGeometry o h) × (o.flags % 2 ≡ 0)))
      × ((rc : Rc) → decide o valid state h ≡ refuse rc → (rc ≢ Rc.format) → rc ≡ Rc.mismatch)
unfolding decide
decide_lem o false state h = (
  (λ e. ground (arith, bit_and-ones 1 o.flags), λ k. cc),
  (λ e. ground (arith, bit_and-ones 1 o.flags), λ k. ground (arith, bit_and-ones 1 o.flags)),
  (λ e. ground (arith, bit_and-ones 1 o.flags), λ k. cc),
  λ rc e ne. ground (arith, bit_and-ones 1 o.flags),
)
decide_lem o true state h = (
  (λ e. ground (arith, bit_and-ones 1 state), λ k. ground (arith, bit_and-ones 1 state)),
  (λ e. ground arith, λ k. cc),
  (
    λ e. (
      refl,
      ground (arith, bit_and-ones 1 state),
      λ g. ground (arith, g, bit_and-ones 1 state),
      ground (arith, bit_and-ones 1 o.flags),
    ),
    λ k. mismatch-refused o state h k.1 k.2 k.3,
  ),
  λ rc e ne. ground arith,
)
