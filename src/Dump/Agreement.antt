-- ===== src/Dump/Agreement.antt =====
-- The tool's verdicts agree with the library.
use ps_msgr.Prelude.{
  ℕ, zero, suc, ◌+◌, ◌%◌, ◌≡◌, ◌↔◌, refl, ◌∙◌, ==_iff, sym, subst, Bool, true, false, ◌&&◌, ◌||◌,
  not, none, ltb, leb, ◌==◌, if◌then◌else◌, arith, Bool-cases, inl, inr,
}
use ps_msgr.Layout.{
  Header, latest_none, psmi_latest, psmi_latest_slot, psmi_latest_valid, header_valid,
}
use ps_msgr.Memory.{File, seq_at, latest_of}
use ps_msgr.Result.{Rc}
use ps_msgr.Reader.{
  Memcpy, Reading, Attempt, again, returns, copy_info, copy_payload, recheck, copy_slot, attempt,
  rounds, read_retries, read_latest,
}
use ps_msgr.Dump.{
  header_problem, print_latest, Verdict, nothing_published, invalid_latest, stale, invalid_length,
  readable,
}

-- The tool finds no problem with a header exactly if readers accept it.
pub header_problem_lem :
    (h : Header) (file_bytes : ℕ)
    → (header_problem h file_bytes ≡ none) ↔ (header_valid h file_bytes ≡ true)
unfolding header_problem header_valid
header_problem_lem h file_bytes = (λ e. ground arith, λ e. ground arith)

-- The code that a reader gets from a snapshot with this verdict; `fits` says that the buffer is large
-- enough, or that nothing is copied.
abbrev pub code_of : Verdict → (fits : Bool) → Rc
code_of nothing_published fits = Rc.nodata
code_of invalid_latest fits = Rc.format
code_of stale fits = Rc.busy
code_of invalid_length fits = Rc.format
code_of readable fits = if fits then Rc.ok else Rc.toosmall

module _ (cpy : Memcpy) (f : File) (n cap size : ℕ) (copy : Bool) where
  abbrev pub still : (ℕ → ℕ) → ℕ → Attempt
  still = attempt cpy (λ _. f) n cap size copy false

  abbrev pub fits : Bool
  fits = not copy || leb (f.slots (psmi_latest_slot (latest_of f))).length size

  -- What the loop does with a round, when `k` rounds are left.
  abbrev next : ℕ → Attempt → Reading
  next k a = elim a [
    | returns r ↦ r
    | again buf t ↦ rounds cpy (λ _. f) n cap size copy false k buf t
  ]

  -- The round returns this code.
  abbrev Codes : Rc → Attempt → Type 0
  Codes rc (returns r) = r.rc ≡ rc
  Codes rc (again buf t) = ⊥

  next-Codes : (rc : Rc) (k : ℕ) (a : Attempt) → Codes rc a → (next k a).rc ≡ rc
  next-Codes rc k (returns r) e = e
  next-Codes rc k (again buf t) e = absurd e

  rounds-busy :
      ((buf : ℕ → ℕ) (t : ℕ) → still buf t ≡ again buf (t + 2))
      → (k : ℕ) (buf : ℕ → ℕ) (t : ℕ)
      → (rounds cpy (λ _. f) n cap size copy false k buf t).rc ≡ Rc.busy
  unfolding rounds
  rounds-busy w zero buf t = refl
  rounds-busy w (suc k) buf t =
      subst (λ x. (next k x).rc ≡ Rc.busy) (sym (w buf t)) (rounds-busy w k buf (t + 2))

  abbrev i : ℕ
  i = psmi_latest_slot (latest_of f)

  abbrev q : ℕ
  q = seq_at f i

  abbrev len : ℕ
  len = (f.slots i).length

  abbrev code_of_slot : Rc
  code_of_slot = if ltb cap len then Rc.format else if fits then Rc.ok else Rc.toosmall

  recheck-Codes :
      (buf : ℕ → ℕ) (t u : ℕ)
      → Codes code_of_slot
          (recheck cpy (λ _. f) n cap size copy false i q (copy_info cpy (λ _. f) i t) buf u)
  unfolding recheck copy_info
  recheck-Codes buf t u = rw ((==_iff q q).1 refl) (elim (Bool-cases (ltb cap len)) [
    | inl e ↦ rw e refl
    | inr e ↦ rw e (elim (Bool-cases fits) [ inl e' ↦ rw e' refl | inr e' ↦ rw e' refl ])
  ])

  copy_slot-Codes :
      (buf : ℕ → ℕ) (t : ℕ)
      → Codes code_of_slot (copy_slot cpy (λ _. f) n cap size copy false i q buf t)
  unfolding copy_slot copy_info
  copy_slot-Codes buf t = elim (Bool-cases (copy && leb len size && leb len cap)) [
    | inl e ↦ rw e (recheck-Codes (copy_payload cpy (λ _. f) i (t + 20) len buf) t (t + 20 + len))
    | inr e ↦ rw e (recheck-Codes buf t (t + 20))
  ]

  returned :
      (rc : Rc) (buf : ℕ → ℕ) (t : ℕ)
      → Codes rc (still buf t)
      → (read_latest cpy (λ _. f) n cap size copy false buf t).rc ≡ rc
  unfolding read_latest rounds
  returned rc buf t e = next-Codes rc 63 (still buf t) e

  module _ (e : (latest_of f == latest_none) ≡ false)
      (e' : psmi_latest_valid (latest_of f) n ≡ true) where
    busy :
        (q % 2 == 0 && psmi_latest i q == latest_of f) ≡ false
        → (buf : ℕ → ℕ) (t : ℕ)
        → (read_latest cpy (λ _. f) n cap size copy false buf t).rc ≡ Rc.busy
    unfolding read_latest
    busy torn = rounds-busy (λ buf t. unfold attempt in rw (e, e', torn) refl) read_retries

    settled :
        (q % 2 == 0 && psmi_latest i q == latest_of f) ≡ true
        → (buf : ℕ → ℕ) (t : ℕ)
        → (read_latest cpy (λ _. f) n cap size copy false buf t).rc ≡ code_of_slot
    settled whole buf t =
        returned code_of_slot buf t
          (unfold attempt in rw (e, e', whole) (copy_slot-Codes buf (t + 2)))

  -- A tool that reads a snapshot and a reader that reads the same memory, with no writer running,
  -- agree: the verdict on `latest` determines the code that `read_latest` returns.
  pub print_latest-read_latest :
      (buf : ℕ → ℕ) (t : ℕ)
      → (read_latest cpy (λ _. f) n cap size copy false buf t).rc
        ≡ code_of (print_latest f n cap) fits
  unfolding print_latest
  print_latest-read_latest buf t = elim (Bool-cases (latest_of f == latest_none)) [
    | inl e ↦ rw e (returned Rc.nodata buf t (unfold attempt in rw e refl))
    | inr e ↦ rw e (elim (Bool-cases (psmi_latest_valid (latest_of f) n)) [
      | inr e' ↦ rw e' (returned Rc.format buf t (unfold attempt in rw (e, e') refl))
      | inl e' ↦
          rw e' (elim (Bool-cases (not (q % 2 == 0) || not (psmi_latest i q == latest_of f))) [
            | inl e'' ↦ rw e'' (busy e e' (ground arith) buf t)
            | inr e'' ↦ rw e'' (elim (Bool-cases (ltb cap len)) [
              | inl big ↦ rw big (settled e e' (ground arith) buf t ∙ ground arith)
              | inr small ↦ rw small (settled e e' (ground arith) buf t ∙ ground arith)
            ])
          ])
    ])
  ]
