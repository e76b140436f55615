-- ===== src/Dump.antt =====
-- tools/psmsgr-dump.c: the checks of the tool that prints a channel, and what it says of `latest`.
pub mod Agreement
pub mod Format
pub mod Hex
pub mod Raw
pub mod Exit
pub mod Closing
pub mod View
pub mod Watch
pub mod Main
pub mod SameFile
pub mod Discipline
pub mod Exiting
pub mod Screens
pub mod Status
pub mod Command
use ps_msgr.Prelude.{
  ℕ, ◌/◌, ◌%◌, ◌^◌, Bool, true, false, ◌||◌, not, Option, none, some, List, bit_and, ltb, ◌==◌,
  if◌then◌else◌,
}
use ps_msgr.Layout.{
  Header, magic_word, major, header_bytes, slot_header_bytes, min_slots, max_slots, max_capacity,
  latest_none, psmi_latest, psmi_latest_slot, psmi_latest_valid, psmi_slot_stride, psmi_file_size,
}
use ps_msgr.Memory.{File, seq_at, latest_of}
use ps_msgr.Name.{ascii}

unfoldable pub header_problem : Header → (file_bytes : ℕ) → Option (List ℕ)
header_problem h file_bytes =
    if not (h.magic == magic_word)
    then some (ascii "bad magic")
    else if not (h.version_major == major)
    then some (ascii "unsupported major version")
    else if not (h.header_size == header_bytes)
    then some (ascii "bad header_size")
    else if not (h.slot_header_size == slot_header_bytes)
    then some (ascii "bad slot_header_size")
    else if ltb h.slot_count min_slots || ltb max_slots h.slot_count
    then some (ascii "slot_count out of range")
    else if ltb max_capacity h.capacity
    then some (ascii "capacity out of range")
    else if not (h.slot_stride == psmi_slot_stride h.capacity)
    then some (ascii "slot_stride does not match capacity")
    else if ltb file_bytes (psmi_file_size h.slot_count h.slot_stride)
    then some (ascii "file shorter than its slots")
    else none

-- What `print_latest` says of `latest`: the branch that it takes.
pub data Verdict : Type 0 where
  nothing_published invalid_latest stale invalid_length readable : Verdict

-- `f` is the snapshot: its `latest` and its slots.
unfoldable pub print_latest : File → (slot_count capacity : ℕ) → Verdict
print_latest f slot_count capacity =
    let latest : ℕ = latest_of f in
    let i : ℕ = psmi_latest_slot latest in
    let seq : ℕ = seq_at f i in
    if latest == latest_none
    then nothing_published
    else if not (psmi_latest_valid latest slot_count)
    then invalid_latest
    else if not (seq % 2 == 0) || not (psmi_latest i seq == latest)
    then stale
    else if ltb capacity (f.slots i).length
    then invalid_length
    else readable

-- What `print_latest` returns.
unfoldable pub readers_can : Verdict → Bool
readers_can invalid_latest = false
readers_can invalid_length = false
readers_can _ = true
