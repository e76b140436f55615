-- ===== src/Dump/Closing.antt =====
-- What `dump_raw` holds when it returns.
use ps_msgr.Prelude.{
  ℕ, zero, suc, ◌+◌, ◌≡◌, refl, ap, ◌∷◌, sym, subst, true, ◌&&◌, not, Option, none, some, List, ltb,
  ◌==◌, Bool-cases, inl, inr,
}
use ps_msgr.Layout.{Header, Slot, header_bytes}
use ps_msgr.Kernel.{Sys, Prog, ret, sys, ◌>>=◌, ◌>>◌}
use ps_msgr.Lock.Discipline.{bare}
use ps_msgr.Kernel.Resources.{Held, is_in, is_in-head, remove-head, Ensures, Ensures-then}
use ps_msgr.Dump.{header_problem}
use ps_msgr.Dump.Raw.{read_slots, raw_latest, raw_problem, raw_view, dump_raw}

-- A program that leaves what is held alone, and what follows it.
Ensures-same :
    {A B : Type 0} (Q : Held → B → Type 0) (h : Held) (p : Prog A) (f : A → Prog B)
    → Ensures (λ h' _. h' ≡ h) h p
    → ((a : A) → Ensures Q h (f a))
    → Ensures Q h (p >>= f)
Ensures-same Q h p f e next =
    Ensures-then (λ h' _. h' ≡ h) Q h p f e
      (λ h' a same. subst (λ x. Ensures Q x (f a)) (sym same) (next a))

module _ (fd : ℕ) (h : Held) (i : is_in fd h.fds ≡ true) where
  read_slots-Ensures :
      (n k stride : ℕ)
      → (slots : ℕ → Slot) → Ensures (λ h' _. h' ≡ h) h (read_slots n k fd stride slots)
  unfolding read_slots
  read_slots-Ensures zero k stride slots = refl
  read_slots-Ensures (suc n) k stride slots = (
    i,
    λ a _. elim (Bool-cases a.okay) [
      | inl e ↦ rw e (read_slots-Ensures n (k + 1) stride _)
      | inr e ↦ rw e refl
    ],
  )

  raw_latest-Ensures :
      (hd : Header)
      → (latest : ℕ) → (slots : Option (ℕ → Slot))
      → Ensures (λ h' _. h' ≡ h) h (raw_latest hd latest slots)
  unfolding raw_latest
  raw_latest-Ensures hd latest none = refl
  raw_latest-Ensures hd latest (some slots) = (tt, λ a _. refl)

  raw_problem-Ensures :
      (hd : Header)
      → (problem : Option (List ℕ)) → Ensures (λ h' _. h' ≡ h) h (raw_problem fd hd problem)
  unfolding raw_problem
  raw_problem-Ensures hd (some problem) = refl
  raw_problem-Ensures hd none = (
    i,
    λ a _. elim (Bool-cases (not a.okay)) [
      | inl e ↦ rw e refl
      | inr e ↦ rw e (
          Ensures-same (λ h' _. h' ≡ h) h
            (read_slots hd.slot_count 0 fd hd.slot_stride (λ _. a.slot)) (raw_latest hd a.value)
            (read_slots-Ensures hd.slot_count 0 hd.slot_stride (λ _. a.slot))
            (raw_latest-Ensures hd a.value))
    ],
  )

  raw_view-Ensures : Ensures (λ h' _. h' ≡ h) h (raw_view fd)
  unfolding raw_view
  raw_view-Ensures = (
    i,
    λ st _. elim (Bool-cases (not st.okay)) [
      | inl e ↦ rw e refl
      | inr e ↦ rw e (elim (Bool-cases (not st.stat.regular)) [
        | inl e' ↦ rw e' refl
        | inr e' ↦ rw e' (elim (Bool-cases (ltb st.stat.size header_bytes)) [
          | inl s ↦ rw s refl
          | inr s ↦ rw s (
            i,
            λ p _. elim (Bool-cases (not (p.okay && p.value == header_bytes))) [
              | inl x ↦ rw x refl
              | inr x ↦ rw x (raw_problem-Ensures p.header (header_problem p.header st.stat.size))
            ],
          )
        ])
      ])
    ],
  )

-- Whatever the kernel answers, the tool's raw view makes no call on a closed descriptor and returns
-- with exactly the descriptors and mappings that it was called with, and without a lock if it was called
-- without one.
pub dump_raw-Ensures :
    (path : List ℕ)
    → (fds maps : List ℕ) → Ensures (λ h' _. h' ≡ bare fds maps) (bare fds maps) (dump_raw path)
unfolding dump_raw
dump_raw-Ensures path fds maps = (
  tt,
  λ a _. elim (Bool-cases a.okay) [
    | inr e ↦ rw e refl
    | inl e ↦ rw e (
        Ensures-same _ (record (bare fds maps) { fds = a.value ∷ fds }) (raw_view a.value)
          (λ raw. sys (Sys.close a.value) >> ret raw)
          (raw_view-Ensures a.value _ (is_in-head a.value fds))
          (λ raw.
            (is_in-head a.value fds, λ _ _. ap (λ xs. bare xs maps) (remove-head a.value fds))))
  ],
)
