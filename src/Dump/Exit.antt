-- ===== src/Dump/Exit.antt =====
-- The exit status of the tool, and what a reader of the same file gets.
use ps_msgr.Prelude.{
  ℕ, zero, suc, ◌+◌, ◌*◌, ◌%◌, ◌^◌, ◌<◌, ◌≤◌, ◌≡◌, ◌≢◌, refl, sym, subst, ap, ◌∙◌, Bool, true,
  false, ◌&&◌, not, Option, none, some, List, ltb, ◌==◌, if◌then◌else◌, Bool-cases, ==_iff, inl,
  inr, arith, update,
}
use ps_msgr.Layout.{
  Slot, header_bytes, header_valid, psmi_file_size, psmi_latest_valid, psmi_latest_slot,
  latest_none,
}
use ps_msgr.Layout.Geometry.{
  IsValidHeader, header_valid-IsValidHeader, psmi_slot_stride_lem, psmi_file_size_lem,
}
use ps_msgr.Memory.{File, latest_of}
use ps_msgr.Reader.{Memcpy, read_latest}
use ps_msgr.Kernel.{Sys, Answer, ret, sys, ◌>>◌}
use ps_msgr.Kernel.Monitor.{Ends, Ends-then}
use ps_msgr.Handle.Wait.{is_format}
use ps_msgr.Dump.{
  header_problem, print_latest, readers_can, Verdict, nothing_published, invalid_latest, stale,
  invalid_length, readable,
}
use ps_msgr.Dump.Agreement.{header_problem_lem, print_latest-read_latest, code_of, fits}
use ps_msgr.Dump.Raw.{
  Raw, exit_invalid, raw_shown, read_slots, raw_latest, raw_problem, raw_view, dump_raw,
}

-- `print_latest` complains exactly if readers get FORMAT.
readers_can-code_of : (v : Verdict) → (b : Bool) → readers_can v ≡ not (is_format (code_of v b))
unfolding readers_can
readers_can-code_of nothing_published b = refl
readers_can-code_of invalid_latest b = refl
readers_can-code_of stale b = refl
readers_can-code_of invalid_length b = refl
readers_can-code_of readable true = refl
readers_can-code_of readable false = refl

slot_in_range :
    (latest n : ℕ)
    → (latest == latest_none) ≡ false
    → psmi_latest_valid latest n ≡ true
    → psmi_latest_slot latest < n
unfolding psmi_latest_valid
slot_in_range latest n e v = ground arith

-- The slots that are read are the first `n`.
print_latest-slots :
    (f g : File)
    → (n capacity : ℕ) → latest_of f ≡ latest_of g
    → ((i : ℕ) → i < n → f.slots i ≡ g.slots i)
    → print_latest f n capacity ≡ print_latest g n capacity
unfolding print_latest
print_latest-slots f g n capacity e same = elim (Bool-cases (latest_of g == latest_none)) [
  | inl e0 ↦ rw e (rw e0 refl)
  | inr e1 ↦ rw e (
      rw e1 (elim (Bool-cases (psmi_latest_valid (latest_of g) n)) [
        | inr bad ↦ rw bad refl
        | inl good ↦
            rw (same (psmi_latest_slot (latest_of g)) (slot_in_range (latest_of g) n e1 good)) refl
      ]))
]

status_lem : (v : Verdict) → ((if readers_can v then 0 else exit_invalid) == 0) ≡ readers_can v
unfolding readers_can
status_lem nothing_published = refl
status_lem invalid_latest = refl
status_lem stale = refl
status_lem invalid_length = refl
status_lem readable = refl

abbrev pub stays : Sys → Answer → Unit {0} → Unit {0}
stays s a m = tt

is_some : (p : List ℕ) → some p ≢ none
is_some p e = cc

below_zero : (j : ℕ) → j < 0 → ⊥
below_zero j lt = omega arith

update_below :
    (slots want : ℕ → Slot)
    → (i : ℕ) → (s : Slot) → ((j : ℕ) → j < i → slots j ≡ want j)
    → s ≡ want i
    → (j : ℕ) → j < i + 1
    → update slots i s j ≡ want j
update_below slots want i s w e j lt = elim (Bool-cases (i == j)) [
  | inl same ↦ rw same (e ∙ ap want ((==_iff i j).0 same))
  | inr other ↦ rw other (w j (ground arith))
]

module _ (f : File) (size : ℕ) where
  -- Documented behaviour: what the calls answer for a regular file of `size` bytes that holds `f` and
  -- does not change.
  abbrev pub Shows : Sys → Answer → Unit {0} → Type 0
  Shows (Sys.open_rdonly _) a m = a.okay ≡ true
  Shows (Sys.fstat _) a m = (a.okay ≡ true) × (a.stat.regular ≡ true) × (a.stat.size ≡ size)
  Shows (Sys.pread_header _) a m =
      header_bytes ≤ size → (a.okay ≡ true) × (a.value ≡ header_bytes) × (a.header ≡ f.header)
  Shows (Sys.pread_latest _) a m = (a.okay ≡ true) × (a.value ≡ latest_of f)
  Shows (Sys.pread_slot _ off) a m =
      (i : ℕ)
      → off ≡ header_bytes + i * f.header.slot_stride
      → i < f.header.slot_count
      → header_valid f.header size ≡ true
      → (a.okay ≡ true) × (a.slot ≡ f.slots i)
  Shows _ a m = Unit

  -- All the slots that the reader of this header has.
  abbrev Whole : (ℕ → Slot) → Type 0
  Whole slots = (i : ℕ) → i < f.header.slot_count → slots i ≡ f.slots i

  problem_invalid :
      (p : List ℕ) → header_problem f.header size ≡ some p → header_valid f.header size ≡ false
  problem_invalid p e = elim (Bool-cases (header_valid f.header size)) [
    | inl ok ↦ absurd (is_some p (sym e ∙ (header_problem_lem f.header size).1 ok))
    | inr bad ↦ bad
  ]

  -- A valid file is no shorter than its header.
  holds_header : header_valid f.header size ≡ true → header_bytes ≤ size
  holds_header e = omega (
    arith,
    v.size_ok,
    psmi_file_size_lem f.header.slot_count f.header.slot_stride v.slots_max (
        omega (
          arith,
          psmi_slot_stride_lem f.header.capacity v.capacity_ok,
          v.capacity_ok,
          v.stride_ok,
        )),
  )
    where
      v : IsValidHeader f.header size
      v = header_valid-IsValidHeader f.header size e

  too_small : ltb size header_bytes ≡ true → header_valid f.header size ≡ false
  too_small e = elim (Bool-cases (header_valid f.header size)) [
    | inl ok ↦ ground (arith, e, holds_header ok)
    | inr bad ↦ bad
  ]

  slot_offset :
      header_valid f.header size ≡ true
      → (i : ℕ) → i < f.header.slot_count
      → (header_bytes + i * f.header.slot_stride % 2 ^ 64) % 2 ^ 64
        ≡ header_bytes + i * f.header.slot_stride
  unfolding psmi_file_size
  slot_offset e i lt = psmi_file_size_lem i f.header.slot_stride (omega (arith, v.slots_max)) (
      omega
        (arith, psmi_slot_stride_lem f.header.capacity v.capacity_ok, v.capacity_ok, v.stride_ok))
    where
      v : IsValidHeader f.header size
      v = header_valid-IsValidHeader f.header size e

  read_slots-Ends :
      header_valid f.header size ≡ true
      → (n i fd : ℕ) → (slots : ℕ → Slot) → n + i ≡ f.header.slot_count
      → ((j : ℕ) → j < i → slots j ≡ f.slots j)
      → Ends stays Shows
          (λ _ r. (s : ℕ → Slot) × (r ≡ some s) × Whole s)
          tt
          (read_slots n i fd f.header.slot_stride slots)
  unfolding read_slots
  read_slots-Ends v zero i fd slots e w = (slots, refl, λ j lt. w j (omega arith))
  read_slots-Ends v (suc n) i fd slots e w = λ a g.
      (let x : (a.okay ≡ true) × (a.slot ≡ f.slots i) =
          g i (slot_offset v i (omega arith)) (omega arith) v in
        rw x.0 (
          read_slots-Ends v n (i + 1) fd (update slots i a.slot) (omega arith)
            (update_below slots f.slots i a.slot w x.1)))

  module _ (cpy : Memcpy) (space : ℕ) (copy : Bool) (buf : ℕ → ℕ) (t : ℕ) where
    -- A reader of this memory, attached to it, does not get FORMAT.
    abbrev pub reader_can : Bool
    reader_can = not (
        is_format
          (read_latest cpy (λ _. f) f.header.slot_count f.header.capacity space copy false buf
            t).rc)

    abbrev pub Agrees : Raw → Type 0
    Agrees raw =
        (raw.read_ok ≡ header_valid f.header size)
        × ((raw.status == 0) ≡ (header_valid f.header size && reader_can))

    abbrev read_back : (ℕ → Slot) → File
    read_back slots = record { header = record f.header { latest = latest_of f }; slots = slots }

    raw_shown-Agrees :
        header_valid f.header size ≡ true
        → (slots : ℕ → Slot) → Whole slots
        → (now : ℕ) → Agrees (raw_shown f.header (read_back slots) now)
    unfolding raw_shown
    raw_shown-Agrees v slots w now = rw v (
      refl,
      status_lem (print_latest (read_back slots) f.header.slot_count f.header.capacity)
          ∙ ap readers_can
              (print_latest-slots (read_back slots) f f.header.slot_count f.header.capacity refl w)
          ∙ readers_can-code_of (print_latest f f.header.slot_count f.header.capacity)
              (fits cpy f f.header.slot_count f.header.capacity space copy)
          ∙ ap (λ rc. not (is_format rc))
              (sym (
                print_latest-read_latest cpy f f.header.slot_count f.header.capacity space copy buf
                  t)),
    )

    raw_problem-Ends :
        (fd : ℕ)
        → (problem : Option (List ℕ)) → header_problem f.header size ≡ problem
        → Ends stays Shows (λ _ raw. Agrees raw) tt (raw_problem fd f.header problem)
    unfolding raw_problem raw_latest
    raw_problem-Ends fd (some p) e = rw (problem_invalid p e) (refl, refl)
    raw_problem-Ends fd none e = λ a g.
        rw (g.0, g.1)
          (Ends-then stays Shows _ (λ _ raw. Agrees raw) tt
            (read_slots f.header.slot_count 0 fd f.header.slot_stride (λ _. a.slot))
            (raw_latest f.header (latest_of f))
            (read_slots-Ends ((header_problem_lem f.header size).0 e) f.header.slot_count 0 fd
              (λ _. a.slot) (omega arith) (λ j lt. absurd (below_zero j lt)))
            (λ m r x.
              subst
                (λ o.
                  Ends stays Shows (λ _ raw. Agrees raw) tt (raw_latest f.header (latest_of f) o))
                (sym x.1)
                (λ now _.
                  raw_shown-Agrees ((header_problem_lem f.header size).0 e) x.0 x.2 now.value)))

    raw_view-Ends : (fd : ℕ) → Ends stays Shows (λ _ raw. Agrees raw) tt (raw_view fd)
    unfolding raw_view
    raw_view-Ends fd = λ st g.
        rw (g.0, g.1, g.2)
          (elim (Bool-cases (ltb size header_bytes)) [
            | inl small ↦ rw small (rw (too_small small) (refl, refl))
            | inr large ↦ rw large (λ p q.
                (let x : (p.okay ≡ true) × (p.value ≡ header_bytes) × (p.header ≡ f.header) =
                    q (ground (arith, large)) in
                  rw (x.0, x.1, x.2) (raw_problem-Ends fd (header_problem f.header size) refl)))
          ])

    -- Let a channel's file keep its content while the tool runs. Then its raw view is complete exactly if a
    -- reader accepts the file's header, and its exit status is 0 exactly if, besides, a read or peek
    -- through the library does not return FORMAT.
    pub dump_raw-Agrees :
        (path : List ℕ) → Ends stays Shows (λ _ raw. Agrees raw) tt (dump_raw path)
    unfolding dump_raw
    dump_raw-Agrees path = λ a g. rw g (
        Ends-then stays Shows (λ _ raw. Agrees raw) (λ _ raw. Agrees raw) tt (raw_view a.value)
          (λ raw. sys (Sys.close a.value) >> ret raw) (raw_view-Ends a.value)
          (λ m raw ok. λ _ _. ok))
