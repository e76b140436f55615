-- ===== src/Tests/Calls.antt =====
-- The theorems on programs of kernel calls, each at a concrete input.
use ps_msgr.Prelude.{
  ℕ, ◌+◌, ◌^◌, ◌≤◌, ◌<◌, ◌≡◌, ◌≢◌, ◌⊎◌, refl, true, false, none, some, [], ◌∷◌, arith,
}
use ps_msgr.Layout.{psmi_latest, psmi_latest_slot, psmi_latest_valid}
use ps_msgr.Memory.{Store}
use ps_msgr.Name.{Paths, ascii}
use ps_msgr.Options.{defaults}
use ps_msgr.Options.Loading.{IsLegal}
use ps_msgr.Result.{Rc}
use ps_msgr.Writer.{publish, begin_slot, committed}
use ps_msgr.System.{System, execute, start_call, stores, none_yet, next}
use ps_msgr.System.Timeline.{file_at}
use ps_msgr.Reader.{read_latest}
use ps_msgr.Kernel.Resources.{Ensures}
use ps_msgr.Lock.Discipline.{bare}
use ps_msgr.Unlink.{unlink}
use ps_msgr.Unlink.Discipline.{unlink-Ensures}
use ps_msgr.Opening.Reuse.{found, Anyhow, Fate, open_valid-Fate}
use ps_msgr.Handle.{Handle}
use ps_msgr.Handle.Wait.{wait}
use ps_msgr.Handle.Discipline.{owned}
use ps_msgr.Handle.Calls.{Waited, wait-Ensures}
use ps_msgr.Dump.{print_latest}
use ps_msgr.Dump.Agreement.{code_of, print_latest-read_latest}
use ps_msgr.Tests.{header, empty_file, writer, idle, ascending, publishing, publishing-IsCalm}
use ps_msgr.System.Notifying.{notify_of, due, crashed, notified, woken, wakes_due, IsNotifying}
use ps_msgr.System.Wakeups.{Run-wakes}
use ps_msgr.System.{Run}
use ps_msgr.Memory.{latest_of, apply}
use ps_msgr.Reader.{rounds, attempt, copy_slot, recheck, copy_info, copy_payload}
use ps_msgr.Writer.{commit_slot, copy_in, target}
use ps_msgr.Generation.{next_generation}
use ps_msgr.System.{outcome}
use ps_msgr.Tests.{state_from, advance_from}
use ps_msgr.Prelude.{sym, ◌∙◌}
use ps_msgr.Reader.Monotone.{Shows, read_latest-read_latest}
use ps_msgr.Kernel.{◌>>=◌}
use ps_msgr.Kernel.Monitor.{Follows, Ends, Returns}
use ps_msgr.Lock.{is_ok}
use ps_msgr.Opening.{create_file, open_valid}
use ps_msgr.Opening.Order.{Progress, progress, InOrder, Named, create_file-Follows}
use ps_msgr.Handle.{get}
use ps_msgr.Handle.Announcing.{seen, Any, Announces, get-Announces}
use ps_msgr.Opening.Session.{writer_open, writer_close}
use ps_msgr.Opening.Lifetime.{SessionResult, writer_open-writer_close}
use ps_msgr.Handle.Sync.{passed, Advances}
use ps_msgr.Handle.Deadline.{IsDue, after_reading, wait-Ends}
use ps_msgr.Handle.Queries.{describe_sized}
use ps_msgr.Handle.Describe.{Describes, describe_sized-Returns}

-- A writer that has committed slot 1 and has still to store `latest`, to notify and to wake.
abbrev waking : System
waking = record idle { pending = Store.set_latest 2 ∷ Store.add_notify ∷ Store.wake_all ∷ [] }

abbrev stored : System
stored = execute (Store.set_latest 2) (Store.add_notify ∷ Store.wake_all ∷ []) waking

abbrev notifying : System
notifying = execute Store.add_notify (Store.wake_all ∷ []) stored

stored_pending : stored.pending ≡ Store.add_notify ∷ Store.wake_all ∷ []
unfolding execute
stored_pending = refl

-- A waiter that has loaded `notify` sleeps while the writer stores and notifies.
abbrev notifying_run : Run waking notifying
notifying_run =
    next
      (next none_yet
        (stores waking (Store.set_latest 2) (Store.add_notify ∷ Store.wake_all ∷ []) refl))
      (stores stored Store.add_notify (Store.wake_all ∷ []) stored_pending)

abbrev waiting_run : Run waking waking
waiting_run = none_yet

waking-IsNotifying : IsNotifying waking
waking-IsNotifying = record {
  asks = refl;
  flags_ok = refl;
  once = omega arith;
  in_order = (omega arith, (omega arith, (omega arith, tt)));
  wakes = (omega arith, (omega arith, (omega arith, tt)));
}

notifying-changes : latest_of notifying.file ≢ latest_of waking.file
unfolding execute apply
notifying-changes e = absurd (omega (arith, e))

abbrev fresh : Progress
fresh = record { tmp = []; fd = 0; allocated = 0; map = none; header = none; named = false }

defaults-IsLegal : IsLegal (defaults 32)
defaults-IsLegal = record {
  capacity_ok = omega arith;
  slots_min = omega arith;
  slots_max = omega arith;
  mode_ok = omega arith;
  flags_ok = omega arith;
  dir_ok = λ e. cc;
}

-- A reader that is attached to the file mapped at 4096.
abbrev reader : Handle
reader = record {
  hdr = some 4096;
  map_size = 320;
  slot_count = 3;
  slot_stride = 64;
  capacity = 8;
  payload_type = 0;
  config_flags = 0;
  announces = true;
  dev = 1;
  ino = 2;
  paths = record { dir = []; data_path = []; lock = []; data_base = [] };
}

wait-Ensures_example : Ensures (Waited [] []) (owned [] [] (some 4096)) (wait 3 reader 1 (some 500))
wait-Ensures_example = wait-Ensures [] [] 3 reader 1 (some 500)

print_latest-read_latest_example :
    (read_latest ascending (λ _. empty_file) 3 8 8 true false (λ _. 0) 0).rc
    ≡ code_of (print_latest empty_file 3 8) true
print_latest-read_latest_example =
    print_latest-read_latest ascending empty_file 3 8 8 true (λ _. 0) 0

abbrev channel : Paths
channel = record {
  dir = ascii "/tmp";
  data_path = ascii "/tmp/psmsgr.a.state";
  lock = ascii "/tmp/psmsgr.a.lock";
  data_base = ascii "psmsgr.a.state";
}

open_valid-Fate_example :
    Follows found Anyhow
      (Fate (defaults 32) header 4096)
      (record { latest = none; state = none; replacing = false })
      (open_valid writer (defaults 32) channel 4096 320 header)
open_valid-Fate_example = open_valid-Fate (defaults 32) header writer channel 4096 320

Run-wakes_example :
    (notify_of waking.file ≢ notify_of waking.file)
    ⊎ ((0 < woken notifying_run)
        ⊎ ((due notifying ≡ 1)
            ⊎ (((0 < notified notifying_run) × (0 < wakes_due notifying))
                ⊎ (0 < crashed waiting_run + crashed notifying_run))))
Run-wakes_example =
    Run-wakes waiting_run notifying_run waking-IsNotifying (omega arith) (omega arith)
      (λ e. notifying-changes e)

first_runs :
    let r = read_latest ascending (file_at publishing) 3 8 8 true false (λ _. 0) 20 in
    (r.rc ≡ Rc.ok) × (r.time ≡ 128)
unfolding read_latest rounds attempt copy_slot recheck copy_info copy_payload psmi_latest
    psmi_latest_slot psmi_latest_valid execute apply start_call outcome publish committed begin_slot
    commit_slot copy_in target next_generation publishing state_from advance_from
first_runs = (refl, refl)

first_calm : (read_latest ascending (file_at publishing) 3 8 8 true false (λ _. 0) 20).rc ≢ Rc.busy
first_calm e = cc (sym first_runs.0 ∙ e)

second_runs : (read_latest ascending (file_at publishing) 3 8 0 false false (λ _. 0) 128).rc ≡ Rc.ok
unfolding read_latest rounds attempt copy_slot recheck copy_info copy_payload psmi_latest
    psmi_latest_slot psmi_latest_valid execute apply start_call outcome publish committed begin_slot
    commit_slot copy_in target next_generation publishing state_from advance_from
second_runs = refl

second_calm :
    (read_latest ascending (file_at publishing) 3 8 0 false false (λ _. 0) 128).rc ≢ Rc.busy
second_calm e = cc (sym second_runs ∙ e)

read_latest-read_latest_example :
    let r = read_latest ascending (file_at publishing) 3 8 8 true false (λ _. 0) 20 in
    let r' = read_latest ascending (file_at publishing) 3 8 0 false false (λ _. 0) 128 in
    (a : ℕ) × (b : ℕ) × (20 ≤ a)
    × (a < b)
    × (b < r'.time)
    × Shows 8 true (file_at publishing a) r
    × Shows 0 false (file_at publishing b) r'
read_latest-read_latest_example =
    read_latest-read_latest publishing ascending publishing-IsCalm 8 0 true false (λ _. 0) (λ _. 0)
      20 128 (omega (arith, first_runs.1)) first_calm second_calm

create_file-Follows_example :
    Follows progress
      (InOrder channel (some 8192))
      (Named channel (some 8192))
      fresh
      (create_file writer (defaults 32) channel (some 8192) 7)
create_file-Follows_example =
    create_file-Follows channel (some 8192) writer (defaults 32) 7 defaults-IsLegal fresh

get-Announces_example :
    Follows seen Any
      (Announces true reader (record { attaches = 1; raw = none }))
      (record { attaches = 1; raw = none })
      (get reader (λ _. 0) 8 true)
get-Announces_example = get-Announces reader (λ _. 0) 8 true (record { attaches = 1; raw = none })

writer_open-writer_close_example :
    let opens = writer_open 32 64 5 (some (ascii "a")) none none true in
    Ensures (SessionResult (0 ∷ []) []) (bare (0 ∷ []) []) opens
    × Ensures (λ h _. h ≡ bare (0 ∷ []) []) (bare (0 ∷ []) []) (opens >>= λ r. writer_close r.1)
writer_open-writer_close_example =
    writer_open-writer_close (0 ∷ []) [] 32 64 5 (some (ascii "a")) none none true

wait-Ends_example :
    Ends passed
      (Advances 7000 4)
      (IsDue 7000 4 (some 500))
      (after_reading 7000 4 0 0)
      (wait (2 ^ 64 + 6) reader 1 (some 500))
wait-Ends_example = wait-Ends 7000 4 (2 ^ 64 + 6) reader 1 (some 500) (omega arith)

describe_sized-Returns_example :
    Returns
      (λ x.
        ((is_ok x.0 ≡ false) × (x.2 ≡ (λ _. 170)))
        ⊎ ((x.0 ≡ Rc.ok) × Describes (λ _. 170) 20 x.1 x.2))
      (describe_sized reader true (λ _. 170) 20)
describe_sized-Returns_example = describe_sized-Returns reader true (λ _. 170) 20

unlink-Ensures_example :
    Ensures
      (λ h _. h ≡ bare (0 ∷ []) [])
      (bare (0 ∷ []) [])
      (unlink 4 (some (ascii "motor")) none none)
unlink-Ensures_example = unlink-Ensures (0 ∷ []) [] 4 (some (ascii "motor")) none none
