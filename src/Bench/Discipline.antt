-- ===== src/Bench/Discipline.antt =====
-- What the benchmark's processes hold: the reader's rows, the writer process, and the cleaning up.
use ps_msgr.Prelude.{
  ℕ, zero, suc, ◌≡◌, refl, sym, subst, true, false, not, ◌||◌, Option, none, some, List, ◌∷◌,
  Bool-cases, inl, inr, arith, if◌then◌else◌,
}
use ps_msgr.Kernel.{Sys, Answer, Prog, ret}
use ps_msgr.Kernel.Resources.{
  Held, after, is_in, remove, is_in-head, remove-head, IsAllowed, Ensures, Ensures-then,
}
use ps_msgr.Lock.Discipline.{bare}
use ps_msgr.Bench.Operations.{◌>>?◌}
use ps_msgr.Bench.Process.{interrupted, retrying, started, writer_start, is_success, writer_finish}
use ps_msgr.Bench.Setup.{Config, Platform}

-- Of a process that has not ended.
abbrev pub Alive {ℓ} : {A : Type ℓ} → (Held → A → Type 0) → Held → Option A → Type 0
Alive P h none = Unit
Alive P h (some a) = P h a

pub >>?-Ensures :
    {A B : Type 0} (P : Held → A → Type 0) (Q : Held → B → Type 0) (h : Held) (p : Prog (Option A))
    (f : A → Prog (Option B))
    → Ensures (Alive P) h p
    → ((h' : Held) (a : A) → P h' a → Ensures (Alive Q) h' (f a))
    → Ensures (Alive Q) h (p >>? f)
>>?-Ensures P Q h p f e next = Ensures-then (Alive P) (Alive Q) h p _ e go
  where
    go :
        (h' : Held) (o : _)
        → Alive P h' o
        → Ensures (Alive Q) h' (elim o [ none ↦ ret none | some a ↦ f a ])
    go h' none k = tt
    go h' (some a) k = next h' a k

pub retrying-Ensures :
    (h : Held) (s : Sys)
    → IsAllowed s h
    → ((a : Answer) → after s a h ≡ h)
    → (rounds : ℕ) → Ensures (λ h' _. h' ≡ h) h (retrying rounds s)
unfolding retrying
retrying-Ensures h s here same zero = tt
retrying-Ensures h s here same (suc k) = (
  here,
  λ a _.
      subst (λ x. Ensures (λ h' _. h' ≡ h) x (if interrupted a then retrying k s else ret a))
        (sym (same a))
        (elim (Bool-cases (interrupted a)) [
          | inl e ↦ rw e (retrying-Ensures h s here same k)
          | inr e ↦ rw e refl
        ]),
)

pipe_ends :
    (v o : ℕ) (fds : List ℕ)
    → is_in v (o ∷ fds) ≡ false
    → (is_in o (v ∷ o ∷ fds) ≡ true) × (remove o (v ∷ o ∷ fds) ≡ v ∷ fds)
pipe_ends v o fds e = (ground arith, ground arith)

-- In the parent, the descriptor of the pipe is all that stands for the writer process.
pub writer_start-Ensures :
    (fds maps : List ℕ)
    → (p : Platform) (cfg : Config)
    → Ensures (Alive (λ h wp. h ≡ bare (wp.1 ∷ fds) maps)) (bare fds maps) (writer_start p cfg)
unfolding writer_start started
writer_start-Ensures fds maps p cfg = (
  tt,
  λ e fresh. elim (Bool-cases e.okay) [
    | inr k ↦ rw k tt
    | inl k ↦ rw k (
      tt,
      λ _ _. (
        tt,
        λ f _. elim (Bool-cases f.okay) [
          | inr z ↦ rw z tt
          | inl z ↦ rw z (
            (pipe_ends e.value e.other fds (fresh k)).0,
            λ _ _. rw (pipe_ends e.value e.other fds (fresh k)).1 (
              is_in-head e.value fds,
              λ r _. elim (Bool-cases r.okay) [ inr y ↦ rw y tt | inl y ↦ rw y refl ],
            ),
          )
        ],
      ),
    )
  ],
)

-- The end of the writer process closes it.
pub writer_finish-Ensures :
    (fds maps : List ℕ)
    → (p : Platform) (cfg : Config) (wp : ℕ × ℕ)
    → Ensures (Alive (λ h _. h ≡ bare fds maps)) (bare (wp.1 ∷ fds) maps) (writer_finish p cfg wp)
unfolding writer_finish
writer_finish-Ensures fds maps p cfg (pid, in_) =
    Ensures-then (λ h _. h ≡ bare (in_ ∷ fds) maps) _ (bare (in_ ∷ fds) maps)
      (retrying p.rounds (Sys.read_word in_)) _
      (retrying-Ensures _ (Sys.read_word in_) (is_in-head in_ fds) (λ a. refl) p.rounds)
      (λ h c e. rw e (
        is_in-head in_ fds,
        λ _ _. rw (remove-head in_ fds) (
            Ensures-then (λ h' _. h' ≡ bare fds maps) _ (bare fds maps)
              (retrying p.rounds (Sys.waitpid pid)) _
              (retrying-Ensures (bare fds maps) (Sys.waitpid pid) tt (λ a. refl) p.rounds)
              (λ h' s e'. elim (Bool-cases (not c.okay || not (is_success p cfg s))) [
                | inl k ↦ rw k tt
                | inr k ↦ rw k e'
              ])),
      ))
