-- ===== src/Dump/Format.antt =====
-- tools/psmsgr-dump.c: how durations and payloads are shown. What `snprintf` makes of a floating-point
-- number stays open: a duration is its unit and its nanoseconds.
use ps_msgr.Prelude.{
  ℕ, zero, suc, ◌+◌, ◌-◌, ◌/◌, ◌%◌, ◌^◌, ◌&&◌, Option, none, some, List, [], ◌∷◌, ◌++◌, ltb, leb,
  ◌==◌, if◌then◌else◌,
}
use ps_msgr.Name.{ascii}

pub data Duration : Type 0 where
  nanoseconds microseconds milliseconds seconds : (ns : ℕ) → Duration

unfoldable pub fmt_duration : ℕ → Duration
fmt_duration ns =
    if ltb ns 1000
    then Duration.nanoseconds ns
    else if ltb ns 1000000
    then Duration.microseconds ns
    else if ltb ns 1000000000
    then Duration.milliseconds ns
    else Duration.seconds ns

-- `none` is "?", of a time stamp in the future.
unfoldable pub fmt_age : (timestamp_ns now : ℕ) → Option Duration
fmt_age timestamp_ns now =
    if ltb now timestamp_ns then none else some (fmt_duration (now - timestamp_ns))

-- A digit of `%x`.
unfoldable pub hex_digit : ℕ → ℕ
hex_digit d = if ltb d 10 then 48 + d else 87 + d

-- `%02x` of a byte.
unfoldable pub hex_byte : ℕ → List ℕ
hex_byte b = hex_digit (b / 16) ∷ hex_digit (b % 16) ∷ []

-- `%08x` of a 32-bit word.
unfoldable pub hex_word : ℕ → List ℕ
hex_word w =
    hex_byte (w / 2 ^ 24 % 256)
    ++ (hex_byte (w / 2 ^ 16 % 256) ++ (hex_byte (w / 2 ^ 8 % 256) ++ hex_byte (w % 256)))

-- The cells from column `i` on, `n` of them; `row` bytes are shown.
unfoldable pub hex_cells : (p : ℕ → ℕ) → (off row i n : ℕ) → List ℕ
hex_cells p off row i zero = []
hex_cells p off row i (suc n) =
    (if i == 8 then ascii " " else [])
    ++ ((if ltb i row then b' ' ∷ hex_byte (p (off + i)) else ascii "   ")
        ++ hex_cells p off row (i + 1) n)

-- `n` characters from column `i` on.
unfoldable pub text_cells : (p : ℕ → ℕ) → (off i n : ℕ) → List ℕ
text_cells p off i zero = []
text_cells p off i (suc n) =
    (if leb 32 (p (off + i)) && ltb (p (off + i)) 127 then p (off + i) else b'.')
    ∷ text_cells p off (i + 1) n

-- One line, without its newline.
unfoldable pub hex_row : (p : ℕ → ℕ) → (off row : ℕ) → List ℕ
hex_row p off row =
    ascii "  "
    ++ (hex_word off
        ++ (ascii " "
            ++ (hex_cells p off row 0 16
                ++ (ascii "  |" ++ (text_cells p off 0 row ++ ascii "|")))))

-- The rows from offset `off` on, with `left` bytes left; the first argument bounds their number.
unfoldable pub hex_rows : ℕ → (p : ℕ → ℕ) → (off left : ℕ) → List (List ℕ)
hex_rows zero p off left = []
hex_rows (suc k) p off left =
    let rest : List (List ℕ) = hex_rows k p (off + 16) (left - 16) in
    if left == 0 then [] else hex_row p off (if ltb left 16 then left else 16) ∷ rest

unfoldable pub hexdump : (p : ℕ → ℕ) → (len : ℕ) → List (List ℕ)
hexdump p len = hex_rows (len / 16 + 1) p 0 len
