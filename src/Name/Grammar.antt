-- ===== src/Name/Grammar.antt =====
-- The names that `name_valid` accepts: [A-Za-z0-9_-][A-Za-z0-9_.-]{0,63}
use ps_msgr.Prelude.{
  ℕ, ◌+◌, ◌≤◌, ◌≡◌, ◌≢◌, ◌↔◌, ◌⊎◌, refl, true, some, List, [], ◌∷◌, arith, length, All,
}
use ps_msgr.Name.{name_char, name_rest, name_valid}

-- [A-Za-z0-9_.-]
abbrev pub IsNameChar : ℕ → Type 0
IsNameChar c =
    ((b'A' ≤ c) × (c ≤ b'Z'))
    ⊎ (((b'a' ≤ c) × (c ≤ b'z'))
        ⊎ (((b'0' ≤ c) × (c ≤ b'9')) ⊎ ((c ≡ b'_') ⊎ ((c ≡ b'-') ⊎ (c ≡ b'.')))))

name_char_iff : (c : ℕ) → (name_char c ≡ true) ↔ IsNameChar c
unfolding name_char
name_char_iff c = (λ e. ground arith, λ h. ground arith)

-- the documented grammar
abbrev pub IsName : List ℕ → Type 0
IsName [] = ⊥
IsName (c ∷ cs) = (c ≢ b'.') × All IsNameChar (c ∷ cs) × (length (c ∷ cs) ≤ 64)

name_rest_sound :
    (i : ℕ) (cs : List ℕ)
    → i ≤ 64
    → name_rest i cs ≡ true
    → All IsNameChar cs × (i + length cs ≤ 64)
unfolding name_rest
name_rest_sound i [] h e = (tt, omega arith)
name_rest_sound i (c ∷ cs) h e =
    let rest = name_rest_sound (i + 1) cs (ground arith) (ground arith) in
    (((name_char_iff c).0 (ground arith), rest.0), omega (arith, rest.1))

name_rest_complete :
    (i : ℕ) (cs : List ℕ) → All IsNameChar cs → i + length cs ≤ 64 → name_rest i cs ≡ true
unfolding name_rest
name_rest_complete i [] a h = refl
name_rest_complete i (c ∷ cs) a h =
    ground (arith, (name_char_iff c).1 a.0, name_rest_complete (i + 1) cs a.1 (omega arith))

-- `name_valid` accepts exactly the names of the documented grammar.
pub name_valid_iff : (name : List ℕ) → (name_valid (some name) ≡ true) ↔ IsName name
unfolding name_valid
name_valid_iff [] = (λ e. cc, λ h. absurd h)
name_valid_iff (c ∷ cs) = (
  λ e.
      let r = name_rest_sound 0 (c ∷ cs) (omega arith) (ground arith) in
      (ground arith, r.0, omega (arith, r.1)),
  λ h. ground (arith, name_rest_complete 0 (c ∷ cs) h.1 (omega (arith, h.2))),
)
