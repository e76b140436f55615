-- ===== src/Tests.antt =====
-- Runs of the model, and each theorem at a concrete input. The channel has three slots of eight bytes.
mod Calls
mod Tools
mod Clients
use ps_msgr.Prelude.{
  ℕ, zero, suc, ◌+◌, ◌*◌, ◌/◌, ◌%◌, ◌^◌, ◌≤◌, ◌<◌, ◌≡◌, ◌≢◌, ◌↔◌, ◌⊎◌, refl, true, false, none,
  some, List, [], ◌∷◌, min, arith,
}
use ps_msgr.Layout.{
  Header, Slot, latest_none, header_valid, psmi_latest, psmi_latest_slot, psmi_latest_valid,
  psmi_slot_stride, psmi_file_size,
}
use ps_msgr.Layout.Latest.{psmi_latest_roundtrip}
use ps_msgr.Layout.Geometry.{psmi_slot_stride_lem, slots_in_file}
use ps_msgr.Memory.{File, Store, apply_all}
use ps_msgr.Name.{Paths, ascii, name_valid, is_stale_tmp, no_dot}
use ps_msgr.Name.Grammar.{IsName, name_valid_iff}
use ps_msgr.Name.Stale.{data_name, tmp_name, is_stale_tmp-own}
use ps_msgr.Options.{Options, defaults, merged, options_bad, load_options, new_header}
use ps_msgr.Options.Loading.{IsLegal, IsCovered, load_options_lem, new_header-valid}
use ps_msgr.Result.{Rc}
use ps_msgr.Generation.Cycle.{after, after_unique}
use ps_msgr.Writer.{Writer, publish, begin_slot, committed}
use ps_msgr.System.{
  System, Step, Call, execute, start_call, reopen, stores, calls, crashes, none_yet, next,
}
use ps_msgr.System.Later.{execute-commits}
use ps_msgr.System.Soundness.{IsSound, Step-IsSound}
use ps_msgr.System.Value.{SameValue, Publishes, Step-value}
use ps_msgr.System.Timeline.{Timeline, file_at, IsCalm}
use ps_msgr.Reader.{Memcpy, read_latest}
use ps_msgr.Reader.Snapshot.{IsLinear, read_latest-IsLinear}
use ps_msgr.Roundtrip.{read-publish}
use ps_msgr.Kernel.Resources.{Ensures}
use ps_msgr.Lock.{lock_channel}
use ps_msgr.Lock.Discipline.{LockResult, bare, lock_channel-Ensures}
use ps_msgr.Opening.{open_data, reuse, refuse, decide}
use ps_msgr.Unlink.{unlink}
use ps_msgr.Opening.Discipline.{OpenResult, open_data-Ensures}
use ps_msgr.Opening.Creation.{base}
use ps_msgr.Opening.Decisions.{SameGeometry, decide_lem}
use ps_msgr.Handle.{Handle, read}
use ps_msgr.Handle.Wait.{wait}
use ps_msgr.Handle.Discipline.{Keeps, owned}
use ps_msgr.Handle.Calls.{Waited, wait-Ensures, read-Ensures}
use ps_msgr.Dump.{header_problem, print_latest}
use ps_msgr.Dump.Agreement.{code_of, header_problem_lem, print_latest-read_latest}

abbrev header : Header
header = record {
  magic = 0x534D5350;
  version_major = 1;
  version_minor = 0;
  header_size = 128;
  slot_header_size = 32;
  slot_count = 3;
  slot_stride = 64;
  capacity = 8;
  payload_type = 0;
  config_flags = 0;
  state = 0;
  latest = latest_none;
  notify = 0;
  writer_pid = 0;
  created_realtime_ns = 0;
}

abbrev empty_slot : Slot
empty_slot = record {
  seq = 0;
  generation = 0;
  timestamp_lo = 0;
  timestamp_hi = 0;
  length = 0;
  payload = λ _. 0;
}

abbrev empty_file : File
empty_file = record { header = header; slots = λ _. empty_slot }

abbrev writer : Writer
writer = record {
  map_size = 320;
  slot_count = 3;
  slot_stride = 64;
  capacity = 8;
  notify = true;
  latest = latest_none;
  gen = 5;
  open_slot = latest_none;
  open_seq = 0;
  lock_fd = 3;
}

abbrev idle : System
idle = record { file = empty_file; writer = writer; pending = []; commits = λ _. 0 }

abbrev ascending : Memcpy
ascending = record { moment = λ n k. min n k; moment_le = λ n k. omega arith }

-- A writer that publishes four bytes over and over, a store between any two loads of the reader.
advance_from : List Store → System → System
advance_from [] s = start_call (Call.publishes (some (λ k. k)) 4 7) s
advance_from (a ∷ rest) s = execute a rest s

state_from : ℕ → System
unfolding advance_from
state_from zero = idle
state_from (suc t) = advance_from (state_from t).pending (state_from t)

idle-IsSound : IsSound 3 8 idle
idle-IsSound = record {
  two = omega arith;
  few = omega arith;
  count_ok = refl;
  capacity_ok = refl;
  live = λ h. absurd (h refl);
  counted = λ i lt. omega arith;
  safe = record {
    count_ok = refl;
    capacity_ok = refl;
    linked = refl;
    opened = λ h. absurd (h refl);
  };
}

advance-Step : (p : List Store) (s : System) → s.pending ≡ p → Step s (advance_from p s)
unfolding advance_from
advance-Step [] s e = calls s (Call.publishes (some (λ k. k)) 4 7) e
advance-Step (a ∷ rest) s e = stores s a rest e

publishing : Timeline 3 8
unfolding state_from
publishing = record {
  state_at = state_from;
  sound = idle-IsSound;
  runs = λ t. next none_yet (advance-Step (state_from t).pending (state_from t) refl);
}

advance-commits :
    (p : List Store) (s : System) (i : ℕ) → (advance_from p s).commits i ≤ s.commits i + 1
unfolding advance_from start_call
advance-commits [] s i = omega arith
advance-commits (a ∷ rest) s i = execute-commits a rest s i

commits-bounded :
    (d t u i : ℕ) → t + d ≡ u → (state_from u).commits i ≤ (state_from t).commits i + d
unfolding state_from
commits-bounded zero t u i e = let e' : t ≡ u = omega arith in rw (← e') (omega arith)
commits-bounded (suc d) t zero i e = absurd (omega arith)
commits-bounded (suc d) t (suc u) i e = omega (
  arith,
  commits-bounded d t u i (omega arith),
  advance-commits (state_from u).pending (state_from u) i,
)

publishing-IsCalm : IsCalm publishing 30
unfolding publishing
publishing-IsCalm t i = omega (arith, commits-bounded 30 t (t + 30) i refl)

read_latest-IsLinear_example :
    IsLinear publishing ascending 8 true 20
      (read_latest ascending (file_at publishing) 3 8 8 true false (λ _. 0) 20)
read_latest-IsLinear_example =
    read_latest-IsLinear publishing ascending 8 true publishing-IsCalm (λ _. 0) 20

Step-IsSound_example : IsSound 3 8 (reopen writer 320 9 idle)
Step-IsSound_example = Step-IsSound 3 8 (crashes idle writer 320 9) idle-IsSound

abbrev first_publish : Call
first_publish = Call.publishes (some (λ k. k)) 4 7

Step-value_example :
    SameValue idle.file (start_call first_publish idle).file
    ⊎ Publishes 8 idle (start_call first_publish idle)
Step-value_example = Step-value 3 8 (calls idle first_publish refl) idle-IsSound

psmi_latest_roundtrip_example :
    (psmi_latest_slot (psmi_latest 2 14) ≡ 2)
    × (psmi_latest_valid (psmi_latest 2 14) 3 ≡ true)
    × (psmi_latest 2 14 ≢ latest_none)
    × ((psmi_latest 2 14 ≡ psmi_latest 2 16) ↔ (14 / 2 % 2 ^ 27 ≡ 16 / 2 % 2 ^ 27))
psmi_latest_roundtrip_example = psmi_latest_roundtrip 3 2 14 16 (omega arith) (omega arith)

header_is_valid : header_valid header 320 ≡ true
unfolding header_valid psmi_slot_stride psmi_file_size
header_is_valid = refl

slots_in_file_example :
    (psmi_file_size 3 64 ≡ 128 + 3 * 64)
    × (128 + 0 * 64 + 32 + 8 ≤ 128 + 2 * 64)
    × (128 + 2 * 64 + 32 + 8 ≤ 320)
slots_in_file_example = slots_in_file header 320 0 2 header_is_valid (omega arith) (omega arith)

after_unique_example :
    (0 < after 3 0xFFFFFFFE)
    × (after 3 0xFFFFFFFE < 0x100000000)
    × (after (3 + 5) 0xFFFFFFFE ≡ after 3 0xFFFFFFFE → 5 % 0xFFFFFFFF ≡ 0)
    × (5 % 0xFFFFFFFF ≡ 0 → after (3 + 5) 0xFFFFFFFE ≡ after 3 0xFFFFFFFE)
after_unique_example = after_unique 3 5 0xFFFFFFFE (omega arith) (omega arith)

published_ok : (publish (some writer) (some (λ k. k + 65)) 4 7 empty_file).rc ≡ Rc.ok
unfolding publish committed begin_slot
published_ok = refl

read-publish_example :
    let o = publish (some writer) (some (λ k. k + 65)) 4 7 empty_file in
    let r =
      read_latest ascending (λ _. apply_all o.stores empty_file) 3 8 8 true false (λ _. 0) 0 in
    (o.generation ≡ some 5)
    × (r.rc ≡ Rc.ok)
    × (r.info ≡ some (record { generation = 5; length = 4; timestamp_ns = 7; flags = 0 }))
    × (true ≡ true → (k : ℕ) → k < 4 → r.buf k ≡ k + 65)
read-publish_example =
    read-publish idle-IsSound refl ascending (λ k. k + 65) 4 7 8 true (λ _. 0) 0 (omega arith)
      published_ok

name_valid_iff_example : (name_valid (some (ascii "motor.v2")) ≡ true) ↔ IsName (ascii "motor.v2")
name_valid_iff_example = name_valid_iff (ascii "motor.v2")

-- an older caller's struct, which ends behind `slot_count`
abbrev older : Options
older = record {
  struct_size = 12;
  capacity = 100;
  slot_count = 5;
  payload_type = 77;
  mode = 0xFFFFFFFF;
  flags = 99;
  dir = some [];
}

load_options_lem_example :
    ((m : Options)
      → (load_options 32 (some older) ≡ some m)
        ↔ ((older.struct_size ≢ 0) × IsCovered 32 older m × IsLegal m))
    × (load_options 32 none ≡ some (defaults 32))
load_options_lem_example = load_options_lem 32 older (omega arith) (omega arith)

older_is_loaded :
    load_options 32 (some older) ≡ some (record (defaults 32) { capacity = 100; slot_count = 5 })
unfolding load_options merged options_bad
older_is_loaded = refl

new_header-valid_example :
    header_valid (new_header (defaults 32) 99) (psmi_file_size 3 (psmi_slot_stride 0)) ≡ true
new_header-valid_example = new_header-valid (defaults 32) 99 (record {
  capacity_ok = omega arith;
  slots_min = omega arith;
  slots_max = omega arith;
  mode_ok = omega arith;
  flags_ok = omega arith;
  dir_ok = λ e. cc;
})
