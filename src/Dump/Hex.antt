-- ===== src/Dump/Hex.antt =====
-- The hexdump shows every byte.
use ps_msgr.Prelude.{
  ℕ, zero, suc, ◌+◌, ◌-◌, ◌*◌, ◌/◌, ◌%◌, ◌≤◌, ◌<◌, ◌≡◌, refl, sym, subst, ap, ◌∙◌, Bool, true,
  false, List, [], ◌∷◌, ◌++◌, ltb, ◌==◌, if◌then◌else◌, arith,
}
use mathlib.Core.List.{append_assoc}
use ps_msgr.Name.{ascii}
use ps_msgr.Dump.Format.{hex_digit, hex_byte, hex_word, hex_cells, hex_row, hex_rows, hexdump}

-- A reader of the dump: the value of a digit.
abbrev pub digit_value : ℕ → ℕ
digit_value c = if ltb c 58 then c - 48 else c - 87

pub digit_value-hex_digit : (d : ℕ) → d < 16 → digit_value (hex_digit d) ≡ d
unfolding hex_digit
digit_value-hex_digit d h = ground arith

abbrev pub skip : ℕ → List ℕ → List ℕ
skip zero xs = xs
skip (suc n) [] = []
skip (suc n) (x ∷ xs) = skip n xs

-- `n` cells from column `i` on; a cell of spaces ends the row's bytes.
abbrev pub cell : List ℕ → List ℕ → List ℕ
cell (s ∷ hi ∷ lo ∷ xs) rest =
    if lo == b' ' then [] else (16 * digit_value hi + digit_value lo) ∷ rest
cell _ rest = []

abbrev pub read_cells : (i n : ℕ) → List ℕ → List ℕ
read_cells i zero xs = []
read_cells i (suc n) xs =
    let at : List ℕ = if i == 8 then skip 1 xs else xs in cell at (read_cells (i + 1) n (skip 3 at))

-- The bytes that a row shows: its cells stand behind two spaces, eight digits and a space.
abbrev pub read_row : List ℕ → List ℕ
read_row xs = read_cells 0 16 (skip 11 xs)

abbrev pub read_rows : List (List ℕ) → List ℕ
read_rows [] = []
read_rows (r ∷ rs) = read_row r ++ read_rows rs

-- `n` bytes of the payload, from offset `off` on.
abbrev pub bytes_from : (p : ℕ → ℕ) → (off n : ℕ) → List ℕ
bytes_from p off zero = []
bytes_from p off (suc n) = p off ∷ bytes_from p (off + 1) n

-- The space in front of column 8 is skipped.
column :
    (b : Bool)
    → (xs : List ℕ)
    → (if b
        then skip 1 ((if b then ascii " " else []) ++ xs)
        else ((if b then ascii " " else []) ++ xs))
      ≡ xs
column true xs = refl
column false xs = refl

hex_digit_above : (d : ℕ) → d < 16 → (hex_digit d == b' ') ≡ false
unfolding hex_digit
hex_digit_above d h = ground arith

unless : (b : Bool) → (xs ys : List ℕ) → b ≡ false → (if b then xs else ys) ≡ ys
unless true xs ys h = ground arith
unless false xs ys h = refl

cell-hex_byte :
    (b : ℕ) → (xs rest : List ℕ) → b < 256 → cell (b' ' ∷ (hex_byte b ++ xs)) rest ≡ b ∷ rest
unfolding hex_byte
cell-hex_byte b xs rest h =
    unless (hex_digit (b % 16) == b' ') [] _ (hex_digit_above (b % 16) (omega arith))
    ∙ ap (λ n. n ∷ rest)
        (ap (λ n. 16 * n + digit_value (hex_digit (b % 16)))
            (digit_value-hex_digit (b / 16) (omega arith))
          ∙ ap (λ n. 16 * (b / 16) + n) (digit_value-hex_digit (b % 16) (omega arith))
          ∙ omega arith)

-- The column and its cell, `c`, are read from the front.
read_cells_next :
    (i n : ℕ)
    → (c r xs : List ℕ)
    → read_cells i (suc n) ((if i == 8 then ascii " " else []) ++ (c ++ r) ++ xs)
      ≡ cell (c ++ (r ++ xs)) (read_cells (i + 1) n (skip 3 (c ++ (r ++ xs))))
read_cells_next i n c r xs =
    ap (λ at. cell at (read_cells (i + 1) n (skip 3 at)))
      (subst (λ ys. (if i == 8 then skip 1 ys else ys) ≡ c ++ (r ++ xs))
        (sym (append_assoc (if i == 8 then ascii " " else []) (c ++ r) xs))
        (column (i == 8) ((c ++ r) ++ xs) ∙ append_assoc c r xs))

cell_shown :
    (i n v : ℕ)
    → (b : Bool) → (ys : List ℕ) → v < 256
    → cell
        ((if b then b' ' ∷ hex_byte v else ascii "   ") ++ ys)
        (read_cells (i + 1) n (skip 3 ((if b then b' ' ∷ hex_byte v else ascii "   ") ++ ys)))
      ≡ (if b then v ∷ read_cells (i + 1) n ys else [])
unfolding hex_byte
cell_shown i n v true ys h = cell-hex_byte v ys (read_cells (i + 1) n ys) h
cell_shown i n v false ys h = refl

provided : (b : Bool) → (xs ys : List ℕ) → b ≡ true → (if b then xs else ys) ≡ xs
provided true xs ys h = refl
provided false xs ys h = ground arith

same_bytes :
    (p : ℕ → ℕ)
    → {off off' n n' : ℕ} → off ≡ off'
    → n ≡ n'
    → bytes_from p off n ≡ bytes_from p off' n'
same_bytes p e f = cc

bytes_from_next :
    (p : ℕ → ℕ)
    → (off i row left : ℕ) → left ≡ row - i
    → (if ltb i row then p (off + i) ∷ bytes_from p (off + (i + 1)) (row - (i + 1)) else [])
      ≡ bytes_from p (off + i) left
bytes_from_next p off i row zero e = unless (ltb i row) _ [] (ground arith)
bytes_from_next p off i row (suc m) e =
    provided (ltb i row) _ [] (ground arith)
    ∙ ap (λ ys. p (off + i) ∷ ys) (same_bytes p (omega arith) (omega arith))

-- Cells for the columns from `i` on, with `row` bytes in all.
read_cells-hex_cells :
    (p : ℕ → ℕ)
    → (off row i n : ℕ) → (xs : List ℕ) → ((j : ℕ) → p j < 256)
    → row ≤ i + n
    → read_cells i n (hex_cells p off row i n ++ xs) ≡ bytes_from p (off + i) (row - i)
unfolding hex_cells
read_cells-hex_cells p off row i zero xs h le =
    same_bytes p {off' = off + i} {n = 0} refl (omega arith)
read_cells-hex_cells p off row i (suc n) xs h le =
    read_cells_next i n _ (hex_cells p off row (i + 1) n) xs
    ∙ cell_shown i n (p (off + i)) (ltb i row) (hex_cells p off row (i + 1) n ++ xs) (h (off + i))
    ∙ ap (λ ys. if ltb i row then p (off + i) ∷ ys else [])
        (read_cells-hex_cells p off row (i + 1) n xs h (omega arith))
    ∙ bytes_from_next p off i row (row - i) refl

read_row-hex_row :
    (p : ℕ → ℕ)
    → (off row : ℕ) → ((j : ℕ) → p j < 256)
    → row ≤ 16
    → read_row (hex_row p off row) ≡ bytes_from p off row
unfolding hex_row hex_word hex_byte
read_row-hex_row p off row h le =
    read_cells-hex_cells p off row 0 16 _ h le ∙ same_bytes p (omega arith) (omega arith)

bytes_from-append :
    (p : ℕ → ℕ)
    → (off m n : ℕ) → bytes_from p off m ++ bytes_from p (off + m) n ≡ bytes_from p off (m + n)
bytes_from-append p off zero n = same_bytes p (omega arith) (omega arith)
bytes_from-append p off (suc m) n =
    ap (λ ys. p off ∷ ys)
      (ap (λ ys. bytes_from p (off + 1) m ++ ys) (same_bytes p (omega arith) refl)
        ∙ bytes_from-append p (off + 1) m n)
    ∙ same_bytes p {n = suc (m + n)} refl (omega arith)

-- A row of at most 16 bytes, and the rest.
row_and_rest :
    (p : ℕ → ℕ)
    → (off left : ℕ) → (b : Bool) → ltb left 16 ≡ b
    → bytes_from p off (if b then left else 16) ++ bytes_from p (off + 16) (left - 16)
      ≡ bytes_from p off left
row_and_rest p off left true e =
    ap (λ ys. bytes_from p off left ++ ys)
      (same_bytes p {off' = off + 16} {n' = 0} refl (ground arith))
    ∙ bytes_from-append p off left 0
    ∙ same_bytes p refl (omega arith)
row_and_rest p off left false e =
    bytes_from-append p off 16 (left - 16) ∙ same_bytes p refl (ground arith)

rows_next :
    (p : ℕ → ℕ)
    → (off left : ℕ) → (rest : List (List ℕ)) → (b : Bool) → (left == 0) ≡ b
    → ((j : ℕ) → p j < 256)
    → read_rows rest ≡ bytes_from p (off + 16) (left - 16)
    → read_rows (if b then [] else hex_row p off (if ltb left 16 then left else 16) ∷ rest)
      ≡ bytes_from p off left
rows_next p off left rest true z h e = same_bytes p {off' = off} {n = 0} refl (ground arith)
rows_next p off left rest false z h e =
    ap (λ ys. ys ++ read_rows rest)
      (read_row-hex_row p off (if ltb left 16 then left else 16) h (ground arith))
    ∙ ap (λ ys. bytes_from p off (if ltb left 16 then left else 16) ++ ys) e
    ∙ row_and_rest p off left (ltb left 16) refl

read_rows-hex_rows :
    (k : ℕ)
    → (p : ℕ → ℕ) → (off left : ℕ) → ((j : ℕ) → p j < 256)
    → left ≤ 16 * k
    → read_rows (hex_rows k p off left) ≡ bytes_from p off left
unfolding hex_rows
read_rows-hex_rows zero p off left h le = same_bytes p {off' = off} {n = 0} refl (omega arith)
read_rows-hex_rows (suc k) p off left h le =
    rows_next p off left (hex_rows k p (off + 16) (left - 16)) (left == 0) refl h
      (read_rows-hex_rows k p (off + 16) (left - 16) h (omega arith))

-- A dump of bytes names every one of them, in order, and nothing else: whoever reads the hexadecimal
-- cells of the rows that `hexdump` prints for `len` bytes gets the payload's `len` bytes back.
pub hexdump_lem :
    (p : ℕ → ℕ) → (len : ℕ) → ((j : ℕ) → p j < 256) → read_rows (hexdump p len) ≡ bytes_from p 0 len
unfolding hexdump
hexdump_lem p len h = read_rows-hex_rows (len / 16 + 1) p 0 len h (omega arith)
