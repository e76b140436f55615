-- ===== src/Layout.antt =====
-- src/layout.h: the data file's header and slots, the encoding of `header.latest`, and the file's
-- geometry. A uint32_t is a number below 2^32; where an operator of C may wrap, `% 2 ^ 32` is written.
pub mod Latest
pub mod Geometry
use ps_msgr.Prelude.{
  ℕ, ◌+◌, ◌-◌, ◌*◌, ◌/◌, ◌%◌, ◌^◌, Bool, ◌&&◌, ◌||◌, bit_and, bit_or, ltb, leb, ◌==◌,
}

-- "PSMS", little-endian
abbrev pub magic_word : ℕ
magic_word = 0x534D5350

abbrev pub major : ℕ
major = 1

abbrev pub minor : ℕ
minor = 0

abbrev pub header_bytes : ℕ
header_bytes = 128

abbrev pub slot_header_bytes : ℕ
slot_header_bytes = 32

abbrev pub slot_align : ℕ
slot_align = 64

abbrev pub min_slots : ℕ
min_slots = 2

abbrev pub max_slots : ℕ
max_slots = 16

-- `PSMSGR_STATE_MAX_CAPACITY`, 16 MiB
abbrev pub max_capacity : ℕ
max_capacity = 16 * 2 ^ 20

-- `PSMI_LATEST_NONE`
abbrev pub latest_none : ℕ
latest_none = 0xFFFFFFFF

abbrev pub config_no_notify : ℕ
config_no_notify = 1

abbrev pub state_retired : ℕ
state_retired = 1

-- `psmi_header`, less its reserved bytes, which nothing accesses
pub record Header : Type 0 where
  pub magic : ℕ
  pub version_major : ℕ
  pub version_minor : ℕ
  pub header_size : ℕ
  pub slot_header_size : ℕ
  pub slot_count : ℕ
  pub slot_stride : ℕ
  pub capacity : ℕ
  pub payload_type : ℕ
  pub config_flags : ℕ
  pub state : ℕ
  pub latest : ℕ
  pub notify : ℕ
  pub writer_pid : ℕ
  pub created_realtime_ns : ℕ

-- `psmi_slot` and the payload behind it, by offset. The 64-bit `timestamp_ns` is two 32-bit words:
-- the format's target moves it in two accesses.
pub record Slot : Type 0 where
  pub seq : ℕ
  pub generation : ℕ
  pub timestamp_lo : ℕ
  pub timestamp_hi : ℕ
  pub length : ℕ
  pub payload : ℕ → ℕ

unfoldable pub psmi_latest : ℕ → ℕ → ℕ
psmi_latest i seq = bit_or (bit_and (seq / 2) 0x07FFFFFF * 16 % 2 ^ 32) i

unfoldable pub psmi_latest_slot : ℕ → ℕ
psmi_latest_slot latest = bit_and latest 0xF

unfoldable pub psmi_latest_valid : ℕ → ℕ → Bool
psmi_latest_valid latest slot_count =
    latest == latest_none || latest / 2 ^ 31 == 0 && ltb (psmi_latest_slot latest) slot_count

-- The mask is `~63` in 32 bits.
unfoldable pub psmi_slot_stride : ℕ → ℕ
psmi_slot_stride capacity =
    bit_and ((slot_header_bytes + capacity + slot_align - 1) % 2 ^ 32) 0xFFFFFFC0

-- in 64-bit arithmetic
unfoldable pub psmi_file_size : ℕ → ℕ → ℕ
psmi_file_size slot_count slot_stride = (header_bytes + slot_count * slot_stride % 2 ^ 64) % 2 ^ 64

-- state.c: `header_valid`, on a private copy of the header
unfoldable pub header_valid : Header → ℕ → Bool
header_valid h file_bytes =
    h.magic == magic_word
    && h.version_major == major
    && h.header_size == header_bytes
    && h.slot_header_size == slot_header_bytes
    && leb min_slots h.slot_count
    && leb h.slot_count max_slots
    && leb h.capacity max_capacity
    && h.slot_stride == psmi_slot_stride h.capacity
    && leb (psmi_file_size h.slot_count h.slot_stride) file_bytes
