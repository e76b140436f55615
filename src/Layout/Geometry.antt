-- ===== src/Layout/Geometry.antt =====
-- Where the slots lie in the file, for every header that passes the validation.
use ps_msgr.Prelude.{ℕ, ◌+◌, ◌-◌, ◌*◌, ◌/◌, ◌%◌, ◌^◌, ◌≤◌, ◌<◌, ◌≡◌, true, bit_and, arith}
use ps_msgr.Prelude.Bits.{bit_and-ones, bit_and_shift}
use ps_msgr.Layout.{
  Header, magic_word, major, header_bytes, slot_header_bytes, min_slots, max_slots, max_capacity,
  psmi_slot_stride, psmi_file_size, header_valid,
}

align_mask : (x : ℕ) → bit_and x 0xFFFFFFC0 ≡ x / 64 % 2 ^ 26 * 64
align_mask x = omega (
  arith,
  bit_and_shift x 0x7FFFFFE0,
  bit_and_shift (x / 2) 0x3FFFFFF0,
  bit_and_shift (x / 2 / 2) 0x1FFFFFF8,
  bit_and_shift (x / 2 / 2 / 2) 0xFFFFFFC,
  bit_and_shift (x / 2 / 2 / 2 / 2) 0x7FFFFFE,
  bit_and_shift (x / 2 / 2 / 2 / 2 / 2) 0x3FFFFFF,
  bit_and-ones 26 (x / 2 / 2 / 2 / 2 / 2 / 2),
)

-- The stride is the least multiple of 64 that holds a slot's header and payload.
pub psmi_slot_stride_lem :
    (c : ℕ)
    → c ≤ max_capacity
    → (psmi_slot_stride c % 64 ≡ 0)
      × (32 + c ≤ psmi_slot_stride c)
      × (psmi_slot_stride c < 32 + c + 64)
unfolding psmi_slot_stride
psmi_slot_stride_lem c h = (omega (arith, m), omega (arith, m), omega (arith, m))
  where
    m :
        bit_and ((32 + c + 64 - 1) % 2 ^ 32) 0xFFFFFFC0
        ≡ (32 + c + 64 - 1) % 2 ^ 32 / 64 % 2 ^ 26 * 64
    m = align_mask ((32 + c + 64 - 1) % 2 ^ 32)

-- what the test `header_valid` establishes, and is established by
pub record IsValidHeader (h : Header) (file_bytes : ℕ) : Type 0 where
  pub magic_ok : h.magic ≡ magic_word
  pub major_ok : h.version_major ≡ major
  pub header_size_ok : h.header_size ≡ header_bytes
  pub slot_header_ok : h.slot_header_size ≡ slot_header_bytes
  pub slots_min : min_slots ≤ h.slot_count
  pub slots_max : h.slot_count ≤ max_slots
  pub capacity_ok : h.capacity ≤ max_capacity
  pub stride_ok : h.slot_stride ≡ psmi_slot_stride h.capacity
  pub size_ok : psmi_file_size h.slot_count h.slot_stride ≤ file_bytes

pub header_valid-IsValidHeader :
    (h : Header) (file_bytes : ℕ) → header_valid h file_bytes ≡ true → IsValidHeader h file_bytes
unfolding header_valid
header_valid-IsValidHeader h file_bytes e = ground arith

pub IsValidHeader-header_valid :
    (h : Header) (file_bytes : ℕ) → IsValidHeader h file_bytes → header_valid h file_bytes ≡ true
unfolding header_valid
IsValidHeader-header_valid h file_bytes v = ground arith

mul_le : (i n s : ℕ) → i ≤ n → i * s ≤ n * s
mul_le i n s h = grind arith

pub psmi_file_size_lem : (n s : ℕ) → n ≤ max_slots → s < 2 ^ 25 → psmi_file_size n s ≡ 128 + n * s
unfolding psmi_file_size
psmi_file_size_lem n s hn hs = omega (arith, mul_le n 16 s hn)

-- In a valid file every slot's header and payload lie behind the header and inside the file, two
-- slots do not overlap, and neither the stride nor the size wraps round.
pub slots_in_file :
    (h : Header) (file_bytes i j : ℕ)
    → header_valid h file_bytes ≡ true
    → i < j
    → j < h.slot_count
    → (psmi_file_size h.slot_count h.slot_stride ≡ 128 + h.slot_count * h.slot_stride)
      × (128 + i * h.slot_stride + 32 + h.capacity ≤ 128 + j * h.slot_stride)
      × (128 + j * h.slot_stride + 32 + h.capacity ≤ file_bytes)
slots_in_file h file_bytes i j e hij hj = (
  size,
  omega (arith, mul_le (i + 1) j h.slot_stride (omega arith), stride),
  omega (arith, mul_le (j + 1) h.slot_count h.slot_stride (omega arith), stride, size, size_ok),
)
  where
    v : IsValidHeader h file_bytes
    v = header_valid-IsValidHeader h file_bytes e

    open v use {capacity_ok, stride_ok, slots_max, size_ok}

    stride : (32 + h.capacity ≤ h.slot_stride) × (h.slot_stride < 2 ^ 25)
    stride = omega (arith, psmi_slot_stride_lem h.capacity capacity_ok, capacity_ok, stride_ok)

    size : psmi_file_size h.slot_count h.slot_stride ≡ 128 + h.slot_count * h.slot_stride
    size = psmi_file_size_lem h.slot_count h.slot_stride slots_max stride.1
