-- ===== src/Lib.antt =====
-- ps-msgr: state channels. A channel is one file in shared memory that holds the latest value of an
-- opaque payload; one writer publishes, and any number of readers read without locks.
--
-- The program's parts. A writer (src/state.c) takes the lock file, opens or creates the data file,
-- maps it, and publishes: it marks a slot odd, writes payload and slot header, makes the slot even
-- again, and stores `header.latest`, which names the slot and carries the low bits of its sequence
-- word. A reader attaches to the file by name, loads `latest`, copies the slot and checks that the
-- sequence word has not changed; it detaches from a file that is retired, and waits on the word
-- `notify`. tools/psmsgr-dump.c prints a file, bench/psmsgr-bench.c times the operations, and
-- examples/c has a writer and a reader that use the library.
--
-- Which file models which part:
--   Layout: src/layout.h, the header, the slots, the encoding of `latest`, stride and file size;
--     and `header_valid` of src/state.c. Layout.Latest and Layout.Geometry hold their theorems.
--   Result: the codes of include/psmsgr/psmsgr.h and their texts in src/common.c.
--   Name: `name_valid`, `paths_init` and the test of `remove_stale_tmp`, on texts as lists of
--     bytes.
--   Options: `psmsgr_state_options`, `load_options`, and the header that `create_file` writes.
--   Generation: `next_generation` and `random_generation`.
--   Memory: the mapped file, and the stores to it. A 64-bit time stamp is two stores.
--   Writer: `begin_slot`, `commit_slot`, publish, begin, commit, abort: each returns the list of
--     its stores in program order. `psmi_seq_copy` (src/seqcopy.c) is `copy_in`.
--   System: one writer process as a step relation: a store, a call, a byte that the caller writes
--     between begin and commit, or a crash at any point and the reuse of the file by a new writer.
--     System.Guards says when a store is harmless, System.Programs that the writer's are, and
--     System.Soundness, System.Later and System.Value what follows for steps and runs;
--     System.Timeline is the file as a function of time, and System.Whole about calls that run to
--     their end. System.Notifying and System.Wakeups are about what a waiter sees of `notify`.
--   Reader: `read_latest`, which makes one load after another of a file that changes: load number
--     `t` reads `m t`. Reader.Snapshot is about a read beside a writer, Reader.Monotone about two
--     of them, Reader.Quiet about a read alone, and Roundtrip about a read behind a publish.
--   Kernel: programs over the system calls that src/state.c and the programs on top of it make,
--     with every answer that the kernel can give; Kernel.Resources says what a program holds
--     (descriptors, mappings, locks), and Kernel.Monitor follows the order of its calls, and
--     whether it returns.
--   Lock, Opening, Opening.Session: `lock_channel`, `create_file`, `open_data`, and the writer's
--     open and close. Opening.Decisions and Opening.Reuse are about the choice to create, reuse,
--     replace or refuse, and Lock.Discipline, Opening.Reading, Opening.Creation and
--     Opening.Discipline about what is held; Opening.Writing: a call of the writer on the file
--     that it has mapped, as a client makes it. Opening.Order is about the order of `create_file`,
--     Opening.Lifetime about open and close. Opening.Sweep: `remove_stale_tmp`, with
--     Opening.Sweeping and Opening.Swept; the directory's entries are an answer of `opendir`.
--   Handle, Handle.Wait, Handle.Queries: the reader's handle, `psmsgr_state_read`, `_peek`,
--     `_wait`, `_describe_sized`, `_writer_alive`. Handle.Discipline and Handle.Calls are about
--     what is held, Handle.Sync and Handle.Deadline about the end of a wait, Handle.Announcing
--     about PSMSGR_INFO_ATTACHED, and Handle.Describe about the bytes that describe writes.
--     Handle.Linear and Handle.Asking put Reader's loads into the handle's calls: any number of
--     reads and peeks beside a live writer, whose file the channel's name stays on.
--   Unlink: `psmsgr_state_unlink`, with Unlink.Discipline about what it holds and Unlink.Order
--     about the order of its calls.
--   Dump: `header_problem` and `print_latest` of tools/psmsgr-dump.c, whose Dump.Agreement compares
--     them with a reader. Dump.Format: ages and the hexdump, with Dump.Hex; Dump.Raw: `dump_raw`,
--     as the lines that it prints, with Dump.Exit about its exit status and Dump.Closing about what
--     it holds. Dump.View, Dump.Watch, Dump.Main: the view through the library, the watch loop, and
--     `main`, with Dump.Discipline and Dump.Exiting about what they hold, Dump.Screens about what
--     is drawn, Dump.Status about the exit code, and Dump.SameFile about the path. Dump.Command:
--     the command line.
--   Bench: bench/psmsgr-bench.c, its samples, the figures of a row, the writer process's
--     schedule and the count of missed values; the theorems are in Bench.Reservoir, Rows, Schedule
--     and Missed. Bench.Operations and Bench.Measuring: what a row times, and how often;
--     Bench.Uncontended, Process, Contended, WakeUp and Cleanup: the rows, the writer process and
--     the cleaning up, over the calls of the library; Bench.Setup, Settings and Program: the
--     channels' names, the command line, with Values and Legal, and `main`. Bench.Working and
--     Rowed are about the writer's rows, Bench.Discipline, Polling, Beside and Closing about what
--     the processes hold.
--   Examples: examples/c/motor_writer.c and motor_reader.c with examples/motor_status.h, as
--     programs over the calls of the library, and Examples.Options, their command lines.
--     Examples.Publishing is about what the writer leaves in the channel, Examples.Shutdown and
--     Examples.Reading about what the two hold, and how much is printed; Examples.Commands joins
--     the command lines to that.
--   Floating: the values of a `double`, as `strtod` returns them, and their comparisons.
--   Prelude: the library's names, Boolean tests, lists and bit operations on the native numbers.
--
-- Words and bounds. A 32-bit word is a number with `% 2 ^ 32` written where the C code can wrap, a
-- 64-bit one with `% 2 ^ 64`; masks are `bit_and` with the mask's value. The 64 rounds of a read,
-- the two attaches of a sync and the tool's 16 retries are the source's own. The loops of
-- `lock_channel`, `psmsgr_state_wait`, psmsgr-dump's `watch`, and those of the benchmark and the
-- examples that end by the clock or a signal, have no bound in C: they take a number of rounds and
-- are `stuck` beyond it, and what is said of them is said for every number of rounds;
-- motor_writer's loop needs one more than its count. The tag in `latest` has 27 bits, so a read is
-- told apart from a later one only while fewer than 2^27 commits of one slot fall into the loads of
-- one round; a theorem that needs this has it as the hypothesis `IsCalm`.
--
-- What the model assumes. Loads and stores of the processes interleave, each at one moment; the C
-- code's acquire and release operations and fences, which make this so for the accesses concerned,
-- are not modelled as weaker ones. A 32-bit word is read and written whole. `memcpy` out of a slot
-- reads the bytes in any order (the parameter `Memcpy`), `memcpy` into a slot writes them in
-- ascending order. Clocks, random numbers, process ids, `getenv` and the success of allocations are
-- arguments or answers, and so are `strtoul`, `strtod` and the products and quotients of doubles.
-- The reader that `psmsgr_state_wait` is given is not NULL. The test hooks are unset, but for
-- `psmi_test_skip_seq_recheck`, an argument of the read. `errno` is modelled where the code reads
-- it.
--
-- Not modelled: of tools/psmsgr-dump.c, what `printf` and `strftime` spell, the control sequences
-- of a terminal, and `getopt_long`, which is an argument. Of bench/psmsgr-bench.c, the description
-- of the system and the text of the rows; of the examples, the floats of the payload and its layout
-- and the signals' handlers. The two processes behind `fork` are two programs, `child` and what
-- follows `writer_start`. Of what main and a row of the benchmark print before `die` ends the
-- process, nothing is kept. tests/, interop/, bindings/ and the examples in other languages, which
-- are clients of the library, and `psmsgr_version` and `psmsgr_now_ns`, which compute nothing.
pub mod Prelude
pub mod Layout
pub mod Result
pub mod Memory
pub mod Name
pub mod Options
pub mod Floating
pub mod Generation
pub mod Writer
pub mod System
pub mod Reader
pub mod Kernel
pub mod Lock
pub mod Opening
pub mod Handle
pub mod Unlink
pub mod Roundtrip
pub mod Dump
pub mod Bench
pub mod Examples
mod Tests
