-- ===== src/Dump/Raw.antt =====
-- tools/psmsgr-dump.c: the raw view of the data file, as the lines that are printed. How a line spells its
-- numbers and the local time is left to `printf` and `strftime`.
use ps_msgr.Prelude.{
  ℕ, zero, suc, ◌+◌, ◌*◌, ◌/◌, ◌%◌, ◌^◌, Bool, true, false, ◌&&◌, ◌||◌, not, Option, none, some,
  List, [], ◌∷◌, ◌++◌, ltb, leb, ◌==◌, if◌then◌else◌, bit_and, update,
}
use ps_msgr.Name.{ascii}
use ps_msgr.Layout.{
  Header, Slot, header_bytes, latest_none, config_no_notify, state_retired, psmi_latest_slot,
}
use ps_msgr.Memory.{File, seq_at, latest_of}
use ps_msgr.Kernel.{Sys, Errno, Prog, ret, ◌>>=◌, ◌>>◌, sys, is_enoent}
use ps_msgr.Dump.{header_problem, print_latest, Verdict, readers_can}
use ps_msgr.Dump.Format.{Duration, fmt_age}

pub data Line : Type 0 where
  magic_line : (word : ℕ) (chars : List ℕ) → Line
  version_line : (major minor : ℕ) → Line
  number_line : (label : List ℕ) (n : ℕ) → Line
  slots_line : (count stride : ℕ) → Line
  flags_line : (label : List ℕ) (word : ℕ) (flag : Bool) → Line
  created_line : (ns : ℕ) → Line
  latest_line : (latest seq : ℕ) (verdict : Verdict) → Line
  slots_title : Line
  slot_line :
      (i seq generation length : ℕ) (age : Option (Option Duration)) (odd too_long is_latest : Bool)
      → Line

-- What goes to the standard error.
pub data Complaint : Type 0 where
  not_found : Complaint
  cannot_open cannot_stat : Errno → Complaint
  not_regular shorter_than_header : Complaint
  invalid_header : (problem : List ℕ) → Complaint
  changed_size : Complaint

pub record Raw : Type 0 where
  pub status : ℕ
  pub read_ok : Bool
  pub lines : List Line
  pub complaint : Option Complaint

abbrev pub exit_invalid : ℕ
exit_invalid = 1

unfoldable pub magic_char : ℕ → ℕ
magic_char c = if ltb c 32 || leb 127 c then b'.' else c

unfoldable pub print_header : Header → List Line
print_header h =
    magic_line h.magic (
      magic_char (h.magic % 256)
      ∷ magic_char (h.magic / 2 ^ 8 % 256)
      ∷ magic_char (h.magic / 2 ^ 16 % 256)
      ∷ magic_char (h.magic / 2 ^ 24 % 256)
      ∷ [])
    ∷ version_line h.version_major h.version_minor
    ∷ number_line (ascii "header_size") h.header_size
    ∷ number_line (ascii "slot_header") h.slot_header_size
    ∷ slots_line h.slot_count h.slot_stride
    ∷ number_line (ascii "capacity") h.capacity
    ∷ number_line (ascii "payload_type") h.payload_type
    ∷ flags_line (ascii "config_flags") h.config_flags
        (not (bit_and h.config_flags config_no_notify == 0))
    ∷ flags_line (ascii "state") h.state (not (bit_and h.state state_retired == 0))
    ∷ number_line (ascii "writer_pid") h.writer_pid
    ∷ created_line h.created_realtime_ns
    ∷ []

unfoldable pub print_slot : (i : ℕ) → Slot → (capacity latest now : ℕ) → Line
print_slot i s capacity latest now =
    slot_line i s.seq s.generation s.length
      (if s.seq == 0 then none else some (fmt_age (s.timestamp_lo + 2 ^ 32 * s.timestamp_hi) now))
      (not (s.seq % 2 == 0)) (ltb capacity s.length)
      (not (latest == latest_none) && psmi_latest_slot latest == i)

-- `n` slots, from slot `i` on.
unfoldable pub print_slots : (n i : ℕ) → (slots : ℕ → Slot) → (capacity latest now : ℕ) → List Line
print_slots zero i slots capacity latest now = []
print_slots (suc n) i slots capacity latest now =
    print_slot i (slots i) capacity latest now ∷ print_slots n (i + 1) slots capacity latest now

-- Reads `n` slots, from slot `i` on; `none` is a short read.
unfoldable pub read_slots : (n i fd stride : ℕ) → (slots : ℕ → Slot) → Prog (Option (ℕ → Slot))
read_slots zero i fd stride slots = ret (some slots)
read_slots (suc n) i fd stride slots = do
  a ← sys (Sys.pread_slot fd ((header_bytes + i * stride % 2 ^ 64) % 2 ^ 64))
  let rest : Prog (Option (ℕ → Slot)) = read_slots n (i + 1) fd stride (update slots i a.slot) in
      if a.okay then rest else ret none

abbrev pub refused : List Line → Complaint → Raw
refused lines c = record {
  status = exit_invalid;
  read_ok = false;
  lines = lines;
  complaint = some c;
}

-- The whole view, `f`, was read.
unfoldable pub raw_shown : Header → File → (now : ℕ) → Raw
raw_shown h f now =
    let verdict : Verdict = print_latest f h.slot_count h.capacity in
    record {
      status = if readers_can verdict then 0 else exit_invalid;
      read_ok = true;
      lines =
          print_header h
          ++ (latest_line (latest_of f) (seq_at f (psmi_latest_slot (latest_of f))) verdict
              ∷ slots_title
              ∷ print_slots h.slot_count 0 f.slots h.capacity (latest_of f) now);
      complaint = none;
    }

-- The slots have been read, behind `latest`.
unfoldable pub raw_latest : Header → (latest : ℕ) → Option (ℕ → Slot) → Prog Raw
raw_latest h latest none = ret (refused (print_header h) changed_size)
raw_latest h latest (some slots) = do
  now ← sys Sys.clock_monotonic
  ret (raw_shown h (record { header = record h { latest = latest }; slots = slots }) now.value)

-- The slots are read into an array that holds anything before.
unfoldable pub raw_problem : (fd : ℕ) → Header → Option (List ℕ) → Prog Raw
raw_problem fd h (some problem) = ret (refused (print_header h) (invalid_header problem))
raw_problem fd h none = do
  a ← sys (Sys.pread_latest fd)
  if not a.okay then ret (refused (print_header h) changed_size) else (do
    slots ← read_slots h.slot_count 0 fd h.slot_stride (λ _. a.slot)
    raw_latest h a.value slots)

-- The part of `dump_raw` between `open` and `out:`.
unfoldable pub raw_view : (fd : ℕ) → Prog Raw
raw_view fd = do
  st ← sys (Sys.fstat fd)
  if not st.okay
      then ret (refused [] (cannot_stat st.errno))
      else if not st.stat.regular
      then ret (refused [] not_regular)
      else if ltb st.stat.size header_bytes
      then ret (refused [] shorter_than_header)
      else (do
        p ← sys (Sys.pread_header fd)
        if not (p.okay && p.value == header_bytes)
            then ret (refused [] shorter_than_header)
            else raw_problem fd p.header (header_problem p.header st.stat.size))

unfoldable pub dump_raw : (path : List ℕ) → Prog Raw
dump_raw path = do
  a ← sys (Sys.open_rdonly path)
  if not a.okay
      then ret (refused [] (if is_enoent a.errno then not_found else cannot_open a.errno))
      else (do raw ← raw_view a.value; sys (Sys.close a.value); ret raw)
