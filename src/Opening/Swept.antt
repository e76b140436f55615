-- ===== src/Opening/Swept.antt =====
-- Which entries of a directory `remove_stale_tmp` removes.
use ps_msgr.Prelude.{
  ℕ, ◌≡◌, ◌⊎◌, refl, sym, subst, ◌∙◌, Bool, true, false, List, [], ◌∷◌, ◌++◌, Bool-cases, inl, inr,
  length,
}
use ps_msgr.Name.{Paths, ascii, is_stale_tmp, no_dot}
use ps_msgr.Name.Stale.{is_stale_tmp_iff}
use ps_msgr.Kernel.{Sys, Answer, ret, ◌>>◌, sys}
use ps_msgr.Kernel.Monitor.{Follows, Follows-then}
use ps_msgr.Opening.Sweep.{sweep, remove_stale_tmp}

abbrev pub Among : List ℕ → List (List ℕ) → Type 0
Among n [] = ⊥
Among n (y ∷ ys) = (n ≡ y) ⊎ Among n ys

-- <data_base>.tmp.XXXXXX, with no dot among the last six.
abbrev pub IsOwn : (data_base n : List ℕ) → Type 0
IsOwn data_base n =
    (x : List ℕ) × (n ≡ data_base ++ (ascii ".tmp." ++ x)) × (length x ≡ 6) × (no_dot x ≡ true)

-- What the directory lists, and what has been unlinked.
pub record Swept : Type 0 where
  pub listed : List (List ℕ)
  pub unlinked : List (List ℕ)

abbrev pub listing : Bool → List (List ℕ) → Swept → Swept
listing true names m = record m { listed = names }
listing false names m = m

abbrev pub sweeps : Sys → Answer → Swept → Swept
sweeps (Sys.opendir _) a m = listing a.okay a.entries m
sweeps (Sys.unlinkat _ n) a m = record m { unlinked = n ∷ m.unlinked }
sweeps _ a m = m

-- Only an entry of the directory that is the channel's own may be unlinked, and nothing else.
abbrev pub OnlyOwn : (data_base : List ℕ) → Sys → Swept → Type 0
OnlyOwn data_base (Sys.unlinkat _ n) m = Among n m.listed × IsOwn data_base n
OnlyOwn data_base (Sys.unlink _) m = ⊥
OnlyOwn data_base (Sys.rename _ _) m = ⊥
OnlyOwn data_base _ m = Unit

module _ (base : List ℕ) where
  -- These are left to be looked at.
  abbrev Left : List (List ℕ) → Swept → Type 0
  Left names m =
      ((n : List ℕ) → Among n names → Among n m.listed)
      × ((n : List ℕ) → Among n m.listed → IsOwn base n → Among n m.unlinked ⊎ Among n names)

  abbrev pub AllGone : Swept → Type 0
  AllGone m = (n : List ℕ) → Among n m.listed → IsOwn base n → Among n m.unlinked

  next_gone :
      (n : List ℕ) (names : List (List ℕ)) (m : Swept)
      → Left (n ∷ names) m
      → Left names (record m { unlinked = n ∷ m.unlinked })
  next_gone n names m l = (
    λ k a. l.0 k (inr a),
    λ k a own. elim (l.1 k a own) [
      | inl gone ↦ inl (inr gone)
      | inr (inl same) ↦ inl (inl same)
      | inr (inr later) ↦ inr later
    ],
  )

  next_kept :
      (n : List ℕ) (names : List (List ℕ)) (m : Swept)
      → is_stale_tmp base n ≡ false
      → Left (n ∷ names) m
      → Left names m
  next_kept n names m e l = (
    λ k a. l.0 k (inr a),
    λ k a own. elim (l.1 k a own) [
      | inl gone ↦ inl gone
      | inr (inl same) ↦
          absurd (true_is_not (sym ((is_stale_tmp_iff base n).1 (subst (IsOwn base) same own)) ∙ e))
      | inr (inr later) ↦ inr later
    ],
  )
    where
      true_is_not : true ≡ false → ⊥
      true_is_not h = cc

  sweep-Follows :
      (fd : ℕ) (names : List (List ℕ)) (m : Swept)
      → Left names m
      → Follows sweeps (OnlyOwn base) (λ m' _. AllGone m') m (sweep fd base names)
  unfolding sweep
  sweep-Follows fd [] m l =
      λ n a own. elim (l.1 n a own) [ inl gone ↦ gone | inr no_more ↦ absurd no_more ]
  sweep-Follows fd (n ∷ names) m l = elim (Bool-cases (is_stale_tmp base n)) [
    | inl e ↦ rw e (
      (l.0 n (inl refl), (is_stale_tmp_iff base n).0 e),
      λ _. sweep-Follows fd names _ (next_gone n names m l),
    )
    | inr e ↦ rw e (sweep-Follows fd names m (next_kept n names m e l))
  ]

-- Whatever the directory lists and whatever the kernel answers, the walk unlinks only entries of the
-- directory whose name is <data_base>.tmp.XXXXXX with no dot in the suffix, and when it returns it has
-- tried every one of them.
pub remove_stale_tmp-OnlyOwn :
    (p : Paths)
    → Follows sweeps
        (OnlyOwn p.data_base)
        (λ m' _. AllGone p.data_base m')
        (record { listed = []; unlinked = [] })
        (remove_stale_tmp p)
unfolding remove_stale_tmp
remove_stale_tmp-OnlyOwn p = (
  tt,
  λ d. elim (Bool-cases d.okay) [
    | inr e ↦ rw e (λ n a own. a)
    | inl e ↦ rw e (
        Follows-then sweeps (OnlyOwn p.data_base) (λ m' _. AllGone p.data_base m')
          (λ m' _. AllGone p.data_base m') (record { listed = d.entries; unlinked = [] })
          (sweep d.value p.data_base d.entries) (λ _. sys (Sys.closedir d.value) >> ret tt)
          (sweep-Follows p.data_base d.value d.entries _ (λ n a. a, λ n a own. inr a))
          (λ m' _ gone. (tt, λ _. gone)))
  ],
)
