-- ===== src/Name/Stale.antt =====
-- Which directory entries `remove_stale_tmp` removes: the channel's own temporary files, and none of
-- another channel's files.
use ps_msgr.Prelude.{
  ℕ, ◌≡◌, ◌≢◌, ◌↔◌, inl, inr, refl, sym, ap, ◌∙◌, subst, true, none, some, List, [], ◌∷◌, ◌++◌,
  arith, length, length-append, Option-cases,
}
use mathlib.Core.List.{append_assoc}
use ps_msgr.Name.{ascii, strip_prefix, no_dot, stale_suffix, is_stale_tmp}

-- the names in the directory of the channel `name`
abbrev pub data_name : List ℕ → List ℕ
data_name name = ascii "psmsgr." ++ (name ++ ascii ".state")

abbrev pub lock_name : List ℕ → List ℕ
lock_name name = ascii "psmsgr." ++ (name ++ ascii ".lock")

abbrev pub tmp_name : (name suffix : List ℕ) → List ℕ
tmp_name name suffix = data_name name ++ (ascii ".tmp." ++ suffix)

strip_prefix-append : (p r : List ℕ) → strip_prefix p (p ++ r) ≡ some r
unfolding strip_prefix
strip_prefix-append [] r = refl
strip_prefix-append (c ∷ p) r = ground (arith, strip_prefix-append p r)

strip_prefix_sound : (p n r : List ℕ) → strip_prefix p n ≡ some r → n ≡ p ++ r
unfolding strip_prefix
strip_prefix_sound [] n r e = cc
strip_prefix_sound (c ∷ p) [] r e = cc
strip_prefix_sound (c ∷ p) (d ∷ n) r e = ground (arith, strip_prefix_sound p n r)

append_cancel :
    (xs ys us vs : List ℕ) → length xs ≡ length ys → xs ++ us ≡ ys ++ vs → (xs ≡ ys) × (us ≡ vs)
append_cancel [] [] us vs h e = (refl, e)
append_cancel [] (y ∷ ys) us vs h e = absurd (omega arith)
append_cancel (x ∷ xs) [] us vs h e = absurd (omega arith)
append_cancel (x ∷ xs) (y ∷ ys) us vs h e =
    let rest = append_cancel xs ys us vs (omega arith) (cc) in (cc, rest.1)

stale_suffix-none : stale_suffix none ≡ true → ⊥
unfolding stale_suffix
stale_suffix-none e = cc

stale_suffix-some : (x : List ℕ) → stale_suffix (some x) ≡ true → (length x ≡ 6) × (no_dot x ≡ true)
unfolding stale_suffix
stale_suffix-some x e = (ground arith, ground arith)

stale_suffix-intro : (x : List ℕ) → length x ≡ 6 → no_dot x ≡ true → stale_suffix (some x) ≡ true
unfolding stale_suffix
stale_suffix-intro x len dot = ground arith

append_cancel_right : (xs ys us vs : List ℕ) → length us ≡ length vs → xs ++ us ≡ ys ++ vs → us ≡ vs
append_cancel_right xs ys us vs h e =
    (append_cancel xs ys us vs
      (omega (arith, ap length e, length-append xs us, length-append ys vs)) e).1

-- The test takes exactly the names <data_base>.tmp.XXXXXX with no dot in the suffix.
pub is_stale_tmp_iff :
    (base n : List ℕ)
    → (is_stale_tmp base n ≡ true)
      ↔ ((x : List ℕ) × (n ≡ base ++ (ascii ".tmp." ++ x)) × (length x ≡ 6) × (no_dot x ≡ true))
unfolding is_stale_tmp
is_stale_tmp_iff base n = (there, back)
  where
    suffix :
        (r : List ℕ)
        → stale_suffix (strip_prefix (ascii ".tmp.") r) ≡ true
        → (x : List ℕ) × (r ≡ ascii ".tmp." ++ x) × (length x ≡ 6) × (no_dot x ≡ true)
    suffix r e = elim (Option-cases (strip_prefix (ascii ".tmp.") r)) [
      | inl h ↦ absurd (stale_suffix-none (subst (λ o. stale_suffix o ≡ true) h e))
      | inr (x, h) ↦
          let ok = stale_suffix-some x (subst (λ o. stale_suffix o ≡ true) h e) in
          (x, strip_prefix_sound (ascii ".tmp.") r x h, ok.0, ok.1)
    ]

    there :
        is_stale_tmp base n ≡ true
        → (x : List ℕ) × (n ≡ base ++ (ascii ".tmp." ++ x)) × (length x ≡ 6) × (no_dot x ≡ true)
    there e = elim (Option-cases (strip_prefix base n)) [
      | inl h ↦ absurd (ground (arith, h))
      | inr (r, h) ↦
          let (x, er, len, dot) = suffix r (ground (arith, h)) in
          (x, strip_prefix_sound base n r h ∙ ap (λ k. base ++ k) er, len, dot)
    ]

    back :
        ((x : List ℕ) × (n ≡ base ++ (ascii ".tmp." ++ x)) × (length x ≡ 6) × (no_dot x ≡ true))
        → is_stale_tmp base n ≡ true
    back (x, e, len, dot) =
        let first : strip_prefix base n ≡ some (ascii ".tmp." ++ x) =
          ap (strip_prefix base) e ∙ strip_prefix-append base (ascii ".tmp." ++ x) in
        let second : strip_prefix (ascii ".tmp.") (ascii ".tmp." ++ x) ≡ some x =
          strip_prefix-append (ascii ".tmp.") x in
        let fits : stale_suffix (strip_prefix (ascii ".tmp.") (ascii ".tmp." ++ x)) ≡ true =
          ap stale_suffix second ∙ stale_suffix-intro x len dot in
        ground (arith, first, fits)

base-injective :
    (name other us vs : List ℕ)
    → length us ≡ length vs
    → data_name name ++ us ≡ data_name other ++ vs
    → (name ≡ other) × (us ≡ vs)
base-injective name other us vs h e = (ends.0, whole.1)
  where
    sizes : length name ≡ length other
    sizes = omega (
      arith,
      ap length e,
      length-append (data_name name) us,
      length-append (data_name other) vs,
      length-append name (ascii ".state"),
      length-append other (ascii ".state"),
    )

    whole : (data_name name ≡ data_name other) × (us ≡ vs)
    whole =
        append_cancel (data_name name) (data_name other) us vs
          (omega (
            arith,
            sizes,
            length-append name (ascii ".state"),
            length-append other (ascii ".state"),
          ))
          e

    ends : (name ≡ other) × (ascii ".state" ≡ ascii ".state")
    ends =
        append_cancel name other (ascii ".state") (ascii ".state") sizes
          (append_cancel (ascii "psmsgr.") (ascii "psmsgr.") (name ++ ascii ".state")
            (other ++ ascii ".state") refl whole.0).1

-- Cleaning up the channel `name` removes each of its own temporary files, no temporary file of another
-- channel, and no channel's data file.
pub is_stale_tmp-own :
    (name other x : List ℕ)
    → length x ≡ 6
    → no_dot x ≡ true
    → ((is_stale_tmp (data_name name) (tmp_name other x) ≡ true) ↔ (name ≡ other))
      × (is_stale_tmp (data_name name) (data_name other) ≢ true)
is_stale_tmp-own name other x len dot = ((mine, yours), not_data)
  where
    mine : is_stale_tmp (data_name name) (tmp_name other x) ≡ true → name ≡ other
    mine e =
        let (y, ey, leny, doty) = (is_stale_tmp_iff (data_name name) (tmp_name other x)).0 e in
        (base-injective name other (ascii ".tmp." ++ y) (ascii ".tmp." ++ x) (omega arith)
          (sym ey)).0

    yours : name ≡ other → is_stale_tmp (data_name name) (tmp_name other x) ≡ true
    yours e =
        (is_stale_tmp_iff (data_name name) (tmp_name other x)).1
          (x, ap (λ k. tmp_name k x) (sym e), len, dot)

    regroup : (other : List ℕ) → (ascii "psmsgr." ++ other) ++ ascii ".state" ≡ data_name other
    regroup other = append_assoc (ascii "psmsgr.") other (ascii ".state")

    dotted : no_dot (ascii ".state") ≡ true → ⊥
    dotted e = unfold no_dot in cc e

    not_data : is_stale_tmp (data_name name) (data_name other) ≢ true
    not_data e =
        let (y, ey, leny, doty) = (is_stale_tmp_iff (data_name name) (data_name other)).0 e in
        let tail =
          append_cancel_right (ascii "psmsgr." ++ other) (data_name name ++ ascii ".tmp.")
            (ascii ".state") y (omega arith)
            (regroup other ∙ ey ∙ sym (append_assoc (data_name name) (ascii ".tmp.") y)) in
        dotted (subst (λ k. no_dot k ≡ true) (sym tail) doty)
