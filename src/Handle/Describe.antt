-- ===== src/Handle/Describe.antt =====
-- What `psmsgr_state_describe_sized` writes.
use ps_msgr.Prelude.{
  ℕ, ◌+◌, ◌*◌, ◌/◌, ◌%◌, ◌^◌, ◌≤◌, ◌<◌, ◌≡◌, ◌⊎◌, refl, ◌∙◌, bit_and, Bool, true, false, ◌||◌, not,
  ltb, ◌==◌, if◌then◌else◌, arith, Bool-cases, inl, inr,
}
use ps_msgr.Prelude.Bits.{bit_and-ones}
use ps_msgr.Result.{Rc}
use ps_msgr.Kernel.Monitor.{Returns, Returns-then}
use ps_msgr.Lock.{is_ok}
use ps_msgr.Handle.{Handle, Desc, desc_of, reader_sync}
use ps_msgr.Handle.Queries.{desc_bytes, desc_word, desc_byte, describe_sized}

-- The 32-bit word at offset `4 * j` of a memory, little-endian.
abbrev pub word_at : (ℕ → ℕ) → ℕ → ℕ
word_at m j = m (4 * j + 0) + 256 * m (4 * j + 1) + 65536 * m (4 * j + 2) + 16777216 * m (4 * j + 3)

-- The caller's memory behind a successful call on a handle: the fields that fit whole, zeros behind
-- them up to the end of the caller's struct, and what was there before from then on. The flags are
-- PSMSGR_STATE_NO_NOTIFY, 2, exactly if the file's lowest configuration bit is set.
abbrev pub Describes : (desc : ℕ → ℕ) (size : ℕ) → Handle → (ℕ → ℕ) → Type 0
Describes desc size r out =
    (4 ≤ size → word_at out 0 ≡ r.capacity % 2 ^ 32)
    × (8 ≤ size → word_at out 1 ≡ r.slot_count % 2 ^ 32)
    × (12 ≤ size → word_at out 2 ≡ r.payload_type % 2 ^ 32)
    × (16 ≤ size → r.config_flags % 2 ≡ 0 → word_at out 3 ≡ 0)
    × (16 ≤ size → r.config_flags % 2 ≡ 1 → word_at out 3 ≡ 2)
    × ((k : ℕ) → 16 ≤ k → k < size → out k ≡ 0)
    × ((k : ℕ) → size ≤ k → out k ≡ desc k)

little_endian :
    (x : ℕ)
    → x / 256 ^ 0 % 256
        + 256 * (x / 256 ^ 1 % 256)
        + 65536 * (x / 256 ^ 2 % 256)
        + 16777216 * (x / 256 ^ 3 % 256)
      ≡ x % 2 ^ 32
little_endian x = omega arith

byte_at : (d : Desc) (j i : ℕ) → i < 4 → desc_byte d (4 * j + i) ≡ desc_word d j / 256 ^ i % 256
byte_at d j i h =
    let q : (4 * j + i) / 4 ≡ j = omega arith in
    let m : (4 * j + i) % 4 ≡ i = omega arith in rw (q, m) refl

described : (desc : ℕ → ℕ) (size : ℕ) (d : Desc) → ℕ → ℕ
described desc size d k =
    if not (ltb k size) then desc k else if ltb k desc_bytes then desc_byte d k else 0

described-byte :
    (desc : ℕ → ℕ) (size : ℕ) (d : Desc) (j i : ℕ)
    → j < 4
    → i < 4
    → 4 * j + 4 ≤ size
    → described desc size d (4 * j + i) ≡ desc_word d j / 256 ^ i % 256
unfolding described
described-byte desc size d j i hj hi h =
    let inside : ltb (4 * j + i) size ≡ true = ground arith in
    let known : ltb (4 * j + i) desc_bytes ≡ true = ground arith in
    rw (inside, known) (byte_at d j i hi)

described-word :
    (desc : ℕ → ℕ) (size : ℕ) (d : Desc) (j : ℕ)
    → j < 4
    → 4 * j + 4 ≤ size
    → word_at (described desc size d) j ≡ desc_word d j % 2 ^ 32
described-word desc size d j hj h =
    let b = λ (i : ℕ) (hi : i < 4). described-byte desc size d j i hj hi h in
    omega (
      arith,
      b 0 (omega arith),
      b 1 (omega arith),
      b 2 (omega arith),
      b 3 (omega arith),
      little_endian (desc_word d j),
    )

flags_word :
    (r : Handle)
    → (r.config_flags % 2 ≡ 0 → (desc_of r).flags ≡ 0)
      × (r.config_flags % 2 ≡ 1 → (desc_of r).flags ≡ 2)
flags_word r =
    let low : bit_and r.config_flags 1 ≡ r.config_flags % 2 = bit_and-ones 1 r.config_flags in
    (λ e. ground (arith, low), λ e. ground (arith, low))

described-Describes :
    (desc : ℕ → ℕ) (size : ℕ) (r : Handle) → Describes desc size r (described desc size (desc_of r))
unfolding described
described-Describes desc size r =
    let w = described-word desc size (desc_of r) in
    (
      λ h. w 0 (omega arith) (omega arith),
      λ h. w 1 (omega arith) (omega arith),
      λ h. w 2 (omega arith) (omega arith),
      λ h e. w 3 (omega arith) (omega arith) ∙ rw ((flags_word r).0 e) refl,
      λ h e. w 3 (omega arith) (omega arith) ∙ rw ((flags_word r).1 e) refl,
      λ k h h'. ground arith,
      λ k h. ground arith,
    )

-- A description of any size, from a caller that is older or newer than the library: on OK the words
-- that fit into `size` bytes are the capacity, the slot count and the payload type of the attached
-- channel and the flag NO_NOTIFY, set exactly if the file's configuration says so, the bytes behind the library's own struct are 0, and nothing behind `size` bytes is
-- written; on an error nothing is written.
pub describe_sized-Returns :
    (r : Handle) (has_desc : Bool) (desc : ℕ → ℕ) (size : ℕ)
    → Returns
        (λ x. ((is_ok x.0 ≡ false) × (x.2 ≡ desc)) ⊎ ((x.0 ≡ Rc.ok) × Describes desc size x.1 x.2))
        (describe_sized r has_desc desc size)
unfolding describe_sized described
describe_sized-Returns r has_desc desc size = elim (Bool-cases (not has_desc || size == 0)) [
  | inl e ↦ rw e (inl (refl, refl))
  | inr e ↦ rw e (
      Returns-then _ (reader_sync r) _ (λ s. elim (Bool-cases (is_ok s.0)) [
        | inr k ↦ rw k (inl (k, refl))
        | inl k ↦ rw k (inr (refl, described-Describes desc size s.1))
      ]))
]
