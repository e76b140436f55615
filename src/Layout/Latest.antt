-- ===== src/Layout/Latest.antt =====
-- The word `header.latest`: the slot's index in bits 0 to 3, its commit count modulo 2^27 above.
use ps_msgr.Prelude.{
  ℕ, ◌+◌, ◌*◌, ◌/◌, ◌%◌, ◌^◌, ◌<◌, ◌≡◌, ◌≢◌, true, ◌↔◌, bit_and, bit_or, arith, ap, ◌∙◌,
}
use ps_msgr.Prelude.Bits.{bit_and-ones, bit_or-shifted}
use ps_msgr.Layout.{latest_none, psmi_latest, psmi_latest_slot, psmi_latest_valid}

tag_mask : (x : ℕ) → bit_and x 0x07FFFFFF ≡ x % 2 ^ 27
tag_mask = bit_and-ones 27

slot_mask : (x : ℕ) → bit_and x 0xF ≡ x % 16
slot_mask = bit_and-ones 4

pub psmi_latest_lem : (i seq : ℕ) → i < 16 → psmi_latest i seq ≡ seq / 2 % 2 ^ 27 * 16 + i
unfolding psmi_latest
psmi_latest_lem i seq h = ap (λ k. bit_or k i) shifted ∙ bit_or-shifted (seq / 2 % 2 ^ 27) i h
  where
    shifted : bit_and (seq / 2) 0x07FFFFFF * 16 % 2 ^ 32 ≡ seq / 2 % 2 ^ 27 * 16
    shifted = omega (arith, tag_mask (seq / 2))

pub psmi_latest_slot_lem : (latest : ℕ) → psmi_latest_slot latest ≡ latest % 16
unfolding psmi_latest_slot
psmi_latest_slot_lem = slot_mask

-- A published word names its slot, is valid, and is not `latest_none`; two words for one slot are
-- equal exactly when the commit counts agree modulo 2^27.
pub psmi_latest_roundtrip :
    (n i seq seq' : ℕ)
    → n < 17
    → i < n
    → (psmi_latest_slot (psmi_latest i seq) ≡ i)
      × (psmi_latest_valid (psmi_latest i seq) n ≡ true)
      × (psmi_latest i seq ≢ latest_none)
      × ((psmi_latest i seq ≡ psmi_latest i seq') ↔ (seq / 2 % 2 ^ 27 ≡ seq' / 2 % 2 ^ 27))
unfolding psmi_latest_valid
psmi_latest_roundtrip n i seq seq' hn hi = (
  omega (arith, l, s),
  ground (arith, l, s),
  omega (arith, l),
  (λ e. omega (arith, l, l'), λ e. omega (arith, l, l')),
)
  where
    l : psmi_latest i seq ≡ seq / 2 % 2 ^ 27 * 16 + i
    l = psmi_latest_lem i seq (omega arith)

    l' : psmi_latest i seq' ≡ seq' / 2 % 2 ^ 27 * 16 + i
    l' = psmi_latest_lem i seq' (omega arith)

    s : psmi_latest_slot (psmi_latest i seq) ≡ psmi_latest i seq % 16
    s = psmi_latest_slot_lem (psmi_latest i seq)
