-- ===== src/Dump/Status.antt =====
-- The exit codes of the tool.
use ps_msgr.Prelude.{
  ℕ, ◌≤◌, ◌≡◌, ◌⊎◌, refl, Bool, true, false, ◌||◌, ◌&&◌, not, Option, none, some, List, ltb, ◌==◌,
  Bool-cases, inl, inr, arith,
}
use ps_msgr.Layout.{Header, Slot, header_bytes}
use ps_msgr.Result.{Rc}
use ps_msgr.Name.{Paths, name_valid, paths_init}
use ps_msgr.Kernel.{Sys, ret, ◌>>◌, sys}
use ps_msgr.Kernel.Monitor.{Returns, Returns-then, Returns-after, Returns-mono}
use ps_msgr.Kernel.Texts.{make_paths, is_empty_dir}
use ps_msgr.Memory.{File}
use ps_msgr.Handle.{Handle, fresh_handle, reader_open, reader_close}
use ps_msgr.Dump.{header_problem, print_latest, readers_can}
use ps_msgr.Dump.Raw.{Raw, raw_shown, raw_latest, raw_problem, raw_view, dump_raw, read_slots}
use ps_msgr.Dump.View.{dump, print_liveness, print_values}
use ps_msgr.Dump.Watch.{watch}
use ps_msgr.Dump.Main.{Arguments, path_of, show, main_opened, main, exit_usage}

abbrev IsLow : Raw → Type 0
IsLow raw = raw.status ≤ 1

raw_shown-IsLow : (h : Header) (f : File) (now : ℕ) → IsLow (raw_shown h f now)
unfolding raw_shown
raw_shown-IsLow h f now = elim (Bool-cases (readers_can (print_latest f h.slot_count h.capacity))) [
  | inl e ↦ rw e (omega arith)
  | inr e ↦ rw e (omega arith)
]

raw_latest-Returns :
    (h : Header) (latest : ℕ) (slots : Option (ℕ → Slot))
    → Returns IsLow (raw_latest h latest slots)
unfolding raw_latest
raw_latest-Returns h latest none = omega arith
raw_latest-Returns h latest (some slots) = (tt, λ now. raw_shown-IsLow h _ now.value)

raw_problem-Returns :
    (fd : ℕ) (h : Header) (problem : Option (List ℕ)) → Returns IsLow (raw_problem fd h problem)
unfolding raw_problem
raw_problem-Returns fd h (some problem) = omega arith
raw_problem-Returns fd h none = (
  tt,
  λ a. elim (Bool-cases (not a.okay)) [
    | inl e ↦ rw e (omega arith)
    | inr e ↦ rw e (
        Returns-then IsLow (read_slots h.slot_count 0 fd h.slot_stride (λ _. a.slot))
          (raw_latest h a.value) (raw_latest-Returns h a.value))
  ],
)

raw_view-Returns : (fd : ℕ) → Returns IsLow (raw_view fd)
unfolding raw_view
raw_view-Returns fd = (
  tt,
  λ st. elim (Bool-cases (not st.okay)) [
    | inl e ↦ rw e (omega arith)
    | inr e ↦ rw e (elim (Bool-cases (not st.stat.regular)) [
      | inl e' ↦ rw e' (omega arith)
      | inr e' ↦ rw e' (elim (Bool-cases (ltb st.stat.size header_bytes)) [
        | inl s ↦ rw s (omega arith)
        | inr s ↦ rw s (
          tt,
          λ p. elim (Bool-cases (not (p.okay && p.value == header_bytes))) [
            | inl x ↦ rw x (omega arith)
            | inr x ↦ rw x (raw_problem-Returns fd p.header (header_problem p.header st.stat.size))
          ],
        )
      ])
    ])
  ],
)

dump_raw-Returns : (path : List ℕ) → Returns IsLow (dump_raw path)
unfolding dump_raw
dump_raw-Returns path = (
  tt,
  λ a. elim (Bool-cases (not a.okay)) [
    | inl e ↦ rw e (omega arith)
    | inr e ↦ rw e (
        Returns-after IsLow IsLow (raw_view a.value) (λ raw. sys (Sys.close a.value) >> ret raw)
          (raw_view-Returns a.value) (λ raw low. (tt, λ _. low)))
  ],
)

dump-Returns :
    (r : Handle) (hex : Bool) (path : List ℕ) → Returns (λ d. d.status ≤ 1) (dump r hex path)
unfolding dump
dump-Returns r hex path =
    Returns-after IsLow (λ d. d.status ≤ 1) (dump_raw path) _ (dump_raw-Returns path)
      (λ raw low.
        Returns-then (λ d. d.status ≤ 1) (print_liveness r) _
          (λ l. elim (Bool-cases (not raw.read_ok)) [
            | inl e ↦ rw e low
            | inr e ↦ rw e (Returns-then (λ d. d.status ≤ 1) (print_values l.1 hex) _ (λ v. low))
          ]))

show-Returns :
    (rounds : ℕ) (r : Handle) (o : Arguments) (path : List ℕ)
    → Returns (λ x. x.0 ≤ 1) (show rounds r o path)
unfolding show
show-Returns rounds r o path = elim (Bool-cases o.watch) [
  | inl e ↦ rw e (Returns-then (λ x. x.0 ≤ 1) (watch rounds r o.hex path) _ (λ x. omega arith))
  | inr e ↦ rw e (
      Returns-after (λ d. d.status ≤ 1) (λ x. x.0 ≤ 1) (dump r o.hex path) _
        (dump-Returns r o.hex path) (λ d low. low))
]

opened-Returns :
    (rounds : ℕ) (env : Option (List ℕ)) (o : Arguments) (p : Option Paths)
    → let x : Rc × Option Handle = elim p [
      | none ↦ (Rc.sys, none)
      | some paths ↦ (Rc.ok, some (fresh_handle paths))
    ] in
      Returns (λ status. status ≤ 1) (main_opened rounds env o x.0 x.1)
unfolding main_opened
opened-Returns rounds env o none = omega arith
opened-Returns rounds env o (some p) = (
  tt,
  λ m. elim (Bool-cases (not m.okay)) [
    | inl e ↦ rw e (
        Returns-then (λ status. status ≤ 1) (reader_close (some (fresh_handle p))) (λ _. ret 1)
          (λ _. omega arith))
    | inr e ↦ rw e (
        Returns-after (λ x. x.0 ≤ 1) (λ status. status ≤ 1)
          (show rounds (fresh_handle p) o (path_of o env)) _
          (show-Returns rounds (fresh_handle p) o (path_of o env))
          (λ x low.
            Returns-then (λ status. status ≤ 1) (reader_close (some x.1)) (λ _. ret x.0)
              (λ _. low)))
  ],
)

-- The command line is a usage error: the name is not a channel's, or the directory is empty.
abbrev pub is_misused : Arguments → Bool
is_misused o = not (name_valid (some o.name)) || is_empty_dir o.dir

-- Whatever the kernel answers, the tool exits with 2 if the name is invalid or the directory empty, and
-- with 0 or 1 if not.
pub main-Returns :
    (size rounds : ℕ) (env : Option (List ℕ)) (o : Arguments)
    → Returns
        (λ status.
          ((is_misused o ≡ true) × (status ≡ exit_usage)) ⊎ ((is_misused o ≡ false) × (status ≤ 1)))
        (main size rounds env o)
unfolding main reader_open make_paths main_opened
main-Returns size rounds env o = elim (Bool-cases (is_misused o)) [
  | inl e ↦ rw e (inl (refl, refl))
  | inr e ↦ rw e (
    tt,
    λ c. elim (Bool-cases (not c.okay)) [
      | inl x ↦ rw x (inr (refl, omega arith))
      | inr x ↦ rw x (
        tt,
        λ m.
            Returns-mono (λ status. status ≤ 1) _ _ (λ status low. inr (refl, low))
              (opened-Returns rounds env o (paths_init o.dir env o.name m.okay)),
      )
    ],
  )
]
