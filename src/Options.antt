-- ===== src/Options.antt =====
-- include/psmsgr/state.h and src/state.c: the options of a writer, in a struct whose size the caller
-- states, so that callers and libraries of different versions work together.
pub mod Loading
use ps_msgr.Prelude.{
  ℕ, zero, suc, ◌+◌, ◌-◌, ◌*◌, ◌/◌, ◌%◌, ◌^◌, Bool, true, false, ◌&&◌, ◌||◌, not, Option, none,
  some, List, [], ◌∷◌, bit_and, ltb, leb, ◌==◌, if◌then◌else◌,
}
use ps_msgr.Layout.{
  Header, magic_word, major, minor, header_bytes, slot_header_bytes, min_slots, max_slots,
  max_capacity, latest_none, config_no_notify, psmi_slot_stride,
}
use ps_msgr.Result.{Rc}

abbrev pub recreate_flag : ℕ
recreate_flag = 1

abbrev pub no_notify_flag : ℕ
no_notify_flag = 2

abbrev pub default_slots : ℕ
default_slots = 3

-- `psmsgr_state_options`; `dir` is NULL, or a text
pub record Options : Type 0 where
  pub struct_size : ℕ
  pub capacity : ℕ
  pub slot_count : ℕ
  pub payload_type : ℕ
  pub mode : ℕ
  pub flags : ℕ
  pub dir : Option (List ℕ)

-- byte `k` of a little-endian word
abbrev pub byte_of : (word k : ℕ) → ℕ
byte_of word k = word / 256 ^ k % 256

-- The bytes of the defaults, by offset; `dir` is NULL, all of its bytes 0.
unfoldable pub default_bytes : (size : ℕ) → ℕ → ℕ
default_bytes size k =
    if ltb k 4
    then byte_of size k
    else if ltb k 8
    then 0
    else if ltb k 12
    then byte_of default_slots (k - 8)
    else if ltb k 16
    then 0
    else if ltb k 20
    then byte_of 0o644 (k - 16)
    else 0

-- `own` is `sizeof(psmsgr_state_options)`; the memory at `opt` is a function of the offset.
unfoldable pub options_init_sized : (own : ℕ) → Option (ℕ → ℕ) → (size : ℕ) → Option (ℕ → ℕ)
options_init_sized own none size = none
options_init_sized own (some opt) size =
    if ltb size 4
    then some opt
    else some (λ k. if ltb k size then (if ltb k own then default_bytes size k else 0) else opt k)

abbrev pub defaults : (own : ℕ) → Options
defaults own = record {
  struct_size = own;
  capacity = 0;
  slot_count = default_slots;
  payload_type = 0;
  mode = 0o644;
  flags = 0;
  dir = none;
}

-- `OPT_HAS`, for a field that ends at the offset `end`
abbrev pub covers : Options → (end : ℕ) → Bool
covers opt end = leb end opt.struct_size

-- the fields that the caller's struct covers, over the defaults
unfoldable pub merged : (own : ℕ) → Options → Options
merged own opt = record {
  struct_size = own;
  capacity = if covers opt 8 then opt.capacity else 0;
  slot_count = if covers opt 12 then opt.slot_count else default_slots;
  payload_type = if covers opt 16 then opt.payload_type else 0;
  mode = if covers opt 20 then opt.mode else 0o644;
  flags = if covers opt 24 then opt.flags else 0;
  dir = if covers opt own then opt.dir else none;
}

abbrev pub is_empty_text : Option (List ℕ) → Bool
is_empty_text (some []) = true
is_empty_text _ = false

-- The masks are `~07777u` and `~(RECREATE | NO_NOTIFY)`.
unfoldable pub options_bad : Options → Bool
options_bad o =
    ltb max_capacity o.capacity
    || ltb o.slot_count min_slots
    || ltb max_slots o.slot_count
    || not (bit_and o.mode 0xFFFFF000 == 0)
    || not (bit_and o.flags 0xFFFFFFFC == 0)
    || is_empty_text o.dir

-- `none` is PSMSGR_E_INVAL.
unfoldable pub load_options : (own : ℕ) → Option Options → Option Options
load_options own none = if options_bad (defaults own) then none else some (defaults own)
load_options own (some opt) =
    if opt.struct_size == 0
    then none
    else if options_bad (merged own opt)
    then none
    else some (merged own opt)

unfoldable pub config_flags_of : Options → ℕ
config_flags_of o = if bit_and o.flags no_notify_flag == 0 then 0 else config_no_notify

-- The header that `create_file` stores into a fresh file, which is zero.
unfoldable pub new_header : Options → (realtime : ℕ) → Header
new_header o realtime = record {
  magic = magic_word;
  version_major = major;
  version_minor = minor;
  header_size = header_bytes;
  slot_header_size = slot_header_bytes;
  slot_count = o.slot_count;
  slot_stride = psmi_slot_stride o.capacity;
  capacity = o.capacity;
  payload_type = o.payload_type;
  config_flags = config_flags_of o;
  state = 0;
  latest = latest_none;
  notify = 0;
  writer_pid = 0;
  created_realtime_ns = realtime;
}
