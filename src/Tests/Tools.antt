-- ===== src/Tests/Tools.antt =====
-- The theorems on the walk of a directory, psmsgr-dump and psmsgr-bench, each at a concrete input.
use ps_msgr.Prelude.{
  length, none, ℕ, zero, suc, ◌+◌, ◌-◌, ◌/◌, ◌%◌, ◌<◌, ◌≡◌, refl, true, false, some, [], ◌∷◌, ltb,
  if◌then◌else◌, Bool-cases, inl, inr, arith,
}
use ps_msgr.Name.{ascii, Paths, paths_init}
use ps_msgr.Dump.Main.{main, path_of, path_size}
use ps_msgr.Handle.{fresh_handle}
use ps_msgr.Kernel.Monitor.{Follows}
use ps_msgr.Dump.Watch.{watch}
use ps_msgr.Dump.Screens.{loaded, AnyCall, Distinct, watch-Distinct}
use ps_msgr.Opening.Sweep.{remove_stale_tmp}
use ps_msgr.Opening.Swept.{sweeps, OnlyOwn, AllGone, remove_stale_tmp-OnlyOwn}
use ps_msgr.Kernel.Monitor.{Returns}
use ps_msgr.Dump.Command.{Given, is_wrong, nothing_chosen, command, ExitsAs, command-Returns}
use ps_msgr.Dump.SameFile.{path_of-paths_init}
use ps_msgr.Dump.Exiting.{Clean, main-Ensures}
use ps_msgr.Kernel.Resources.{Ensures}
use ps_msgr.Kernel.Monitor.{Ends}
use ps_msgr.Lock.Discipline.{bare}
use ps_msgr.Tests.{empty_file, ascending}
use ps_msgr.Dump.Format.{hexdump}
use ps_msgr.Dump.Hex.{read_rows, bytes_from, hexdump_lem}
use ps_msgr.Dump.Raw.{dump_raw}
use ps_msgr.Dump.Exit.{stays, Shows, Agrees, dump_raw-Agrees}
use ps_msgr.Bench.Reservoir.{samples_of, IsReservoir, samples_of-IsReservoir}
use ps_msgr.Bench.Rows.{IsSort}
use ps_msgr.Bench.Missed.{wake_of, count_missed_lem}

-- 20 bytes from a space on: two rows.
hexdump_lem_example :
    read_rows (hexdump (λ k. (32 + k) % 256) 20) ≡ bytes_from (λ k. (32 + k) % 256) 0 20
hexdump_lem_example = hexdump_lem (λ k. (32 + k) % 256) 20 (λ j. omega arith)

dump_raw-Agrees_example :
    Ends stays
      (Shows empty_file 320)
      (λ _ raw. Agrees empty_file 320 ascending 8 true (λ _. 0) 0 raw)
      tt
      (dump_raw (ascii "/dev/shm/psmsgr.a.state"))
dump_raw-Agrees_example =
    dump_raw-Agrees empty_file 320 ascending 8 true (λ _. 0) 0 (ascii "/dev/shm/psmsgr.a.state")

-- Four samples in an array of three.
samples_of-IsReservoir_example :
    IsReservoir 3 (9 ∷ 4 ∷ 7 ∷ 5 ∷ []) (samples_of 3 (9 ∷ 4 ∷ 7 ∷ 5 ∷ []))
samples_of-IsReservoir_example = samples_of-IsReservoir 3 (9 ∷ 4 ∷ 7 ∷ 5 ∷ []) (omega arith)

-- The steps are one publish, and three; the generation wraps round in the second.
count_missed_lem_example :
    (wake_of 0xFFFFFFFE (3 ∷ 1 ∷ [])).missed + 2 ≡ 4 + (0xFFFFFFFE - 1 + 4) / 0xFFFFFFFF
count_missed_lem_example =
    count_missed_lem 0xFFFFFFFE (3 ∷ 1 ∷ []) (omega arith) (omega arith)
      (omega arith, omega arith, (omega arith, omega arith, tt))

-- An ascending array of entries: the least one, everywhere.
abbrev least : (ℕ → ℕ) → ℕ → ℕ
least v zero = 0
least v (suc zero) = v 0
least v (suc (suc n)) =
    let rest : ℕ = least v (suc n) in if ltb (v (suc n)) rest then v (suc n) else rest

least_found : (v : ℕ → ℕ) → (n : ℕ) → (k : ℕ) × (k < suc n) × (least v (suc n) ≡ v k)
least_found v zero = (0, omega arith, refl)
least_found v (suc n) = elim (Bool-cases (ltb (v (suc n)) (least v (suc n)))) [
  | inl lt ↦ rw lt (suc n, omega arith, refl)
  | inr ge ↦ rw ge (
      let o : (k : ℕ) × (k < suc n) × (least v (suc n) ≡ v k) = least_found v n in
      (o.0, omega (arith, o.1), o.2))
]

least-IsSort : IsSort (λ v n _. least v n)
least-IsSort = (λ v n i j le lt. omega arith, found)
  where
    found : (v : ℕ → ℕ) → (n i : ℕ) → i < n → (k : ℕ) × (k < n) × (least v n ≡ v k)
    found v zero i lt = absurd (omega arith)
    found v (suc n) i lt = least_found v n

main-Ensures_example :
    Ensures
      (Clean (0 ∷ []) [])
      (bare (0 ∷ []) [])
      (main 96 4 none (record { name = ascii "a"; dir = none; watch = true; hex = true }))
main-Ensures_example =
    main-Ensures (0 ∷ []) [] 96 4 none
      (record { name = ascii "a"; dir = none; watch = true; hex = true })

abbrev tool_paths : Paths
tool_paths = record {
  dir = ascii "/dev/shm";
  data_path = ascii "/dev/shm/psmsgr.a.state";
  lock = ascii "/dev/shm/psmsgr.a.lock";
  data_base = ascii "psmsgr.a.state";
}

tool_paths_init : paths_init none none (ascii "a") true ≡ some tool_paths
unfolding paths_init ps_msgr.Name.channel_dir
tool_paths_init = refl

path_of-paths_init_example :
    (path_of (record { name = ascii "a"; dir = none; watch = false; hex = false }) none
      ≡ tool_paths.data_path)
    × (length (path_of (record { name = ascii "a"; dir = none; watch = false; hex = false }) none)
          + 1
        ≡ path_size (record { name = ascii "a"; dir = none; watch = false; hex = false }) none)
path_of-paths_init_example =
    path_of-paths_init (record { name = ascii "a"; dir = none; watch = false; hex = false }) none
      tool_paths tool_paths_init

watch-Distinct_example :
    Follows loaded AnyCall
      (λ m' x. m'.back ≡ false → Distinct x.0)
      (record { set = false; back = false })
      (watch 5 (fresh_handle tool_paths) false tool_paths.data_path)
watch-Distinct_example =
    watch-Distinct 5 (fresh_handle tool_paths) false tool_paths.data_path
      (record { set = false; back = false })

remove_stale_tmp-OnlyOwn_example :
    Follows sweeps
      (OnlyOwn (ascii "psmsgr.a.state"))
      (λ m' _. AllGone (ascii "psmsgr.a.state") m')
      (record { listed = []; unlinked = [] })
      (remove_stale_tmp tool_paths)
remove_stale_tmp-OnlyOwn_example = remove_stale_tmp-OnlyOwn tool_paths

-- The name has a slash.
command-Returns_example :
    Returns
      (ExitsAs (is_wrong none (Given.hex ∷ Given.dir (ascii "/tmp") ∷ []) (ascii "a/b" ∷ [])))
      (command 96 4 none nothing_chosen
        (Given.hex ∷ Given.dir (ascii "/tmp") ∷ [])
        (ascii "a/b" ∷ []))
command-Returns_example =
    command-Returns 96 4 none nothing_chosen (Given.hex ∷ Given.dir (ascii "/tmp") ∷ [])
      (ascii "a/b" ∷ [])
