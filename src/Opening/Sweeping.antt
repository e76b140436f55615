-- ===== src/Opening/Sweeping.antt =====
-- What `remove_stale_tmp` removes, and what it holds.
use ps_msgr.Prelude.{ℕ, ◌≡◌, refl, sym, subst, ap, true, List, [], ◌∷◌, Bool-cases, inl, inr}
use ps_msgr.Name.{Paths, is_stale_tmp}
use ps_msgr.Kernel.{Sys, Prog, ret, ◌>>=◌, ◌>>◌, sys}
use ps_msgr.Kernel.Resources.{Held, is_in, is_in-head, remove-head, Ensures, Ensures-then}
use ps_msgr.Opening.Sweep.{sweep, remove_stale_tmp}

sweep-Ensures :
    (fd : ℕ) (data_base : List ℕ) (names : List (List ℕ)) (h : Held)
    → is_in fd h.fds ≡ true
    → Ensures (λ h' _. h' ≡ h) h (sweep fd data_base names)
unfolding sweep
sweep-Ensures fd data_base [] h i = refl
sweep-Ensures fd data_base (n ∷ names) h i = elim (Bool-cases (is_stale_tmp data_base n)) [
  | inl e ↦ rw e (i, λ _ _. sweep-Ensures fd data_base names h i)
  | inr e ↦ rw e (sweep-Ensures fd data_base names h i)
]

remove_stale_tmp-Ensures : (h : Held) (p : Paths) → Ensures (λ h' _. h' ≡ h) h (remove_stale_tmp p)
unfolding remove_stale_tmp
remove_stale_tmp-Ensures h p = (
  tt,
  λ d _. elim (Bool-cases d.okay) [
    | inr e ↦ rw e refl
    | inl e ↦ rw e (
        Ensures-then (λ h' _. h' ≡ record h { fds = d.value ∷ h.fds }) (λ h' _. h' ≡ h)
          (record h { fds = d.value ∷ h.fds }) (sweep d.value p.data_base d.entries)
          (λ _. sys (Sys.closedir d.value) >> ret tt)
          (sweep-Ensures d.value p.data_base d.entries _ (is_in-head d.value h.fds))
          (λ h' _ same. rw same (
            is_in-head d.value h.fds,
            λ _ _. ap (λ xs. record h { fds = xs }) (remove-head d.value h.fds),
          )))
  ],
)

-- What follows it runs from the same state.
pub remove_stale_tmp-rule :
    {B : Type 0} (Q : Held → B → Type 0) (h : Held) (p : Paths) (f : Unit {0} → Prog B)
    → Ensures Q h (f tt)
    → Ensures Q h (remove_stale_tmp p >>= f)
remove_stale_tmp-rule Q h p f next =
    Ensures-then (λ h' _. h' ≡ h) Q h (remove_stale_tmp p) f (remove_stale_tmp-Ensures h p)
      (λ h' _ same. subst (λ x. Ensures Q x (f tt)) (sym same) next)
