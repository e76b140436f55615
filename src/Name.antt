-- ===== src/Name.antt =====
-- src/state.c: channel names and the paths that are built from them. Text is a list of bytes; a NULL
-- pointer is `none`.
pub mod Grammar
pub mod Stale
use Prim.Native.String.{String}
use Prim.Native.String
use Prim.Native.Char.{Char, code}
use ps_msgr.Prelude.{
  ℕ, zero, suc, ◌+◌, Bool, true, false, ◌&&◌, ◌||◌, not, Option, none, some, List, [], ◌∷◌, ◌++◌,
  ltb, leb, ◌==◌, if◌then◌else◌, length,
}

-- the bytes of an ASCII text
abbrev pub ascii : String → List ℕ
ascii String.[] = []
ascii (String.◌∷◌ c s) = code c ∷ ascii s

-- `PSMSGR_NAME_MAX`
abbrev pub name_max : ℕ
name_max = 64

unfoldable pub name_char : ℕ → Bool
name_char c =
    (leb b'A' c && leb c b'Z')
    || (leb b'a' c && leb c b'z')
    || (leb b'0' c && leb c b'9')
    || c == b'_'
    || c == b'-'
    || c == b'.'

-- the loop of `name_valid`, from index `i` on
unfoldable pub name_rest : ℕ → List ℕ → Bool
name_rest i [] = true
name_rest i (c ∷ cs) =
    if i == name_max then false else if not (name_char c) then false else name_rest (i + 1) cs

unfoldable pub name_valid : Option (List ℕ) → Bool
name_valid none = false
name_valid (some []) = false
name_valid (some (c ∷ cs)) = if c == b'.' then false else name_rest 0 (c ∷ cs)

-- `struct paths`; the four texts lie in one allocation.
pub record Paths : Type 0 where
  pub dir : List ℕ
  pub data_path : List ℕ
  pub lock : List ℕ
  pub data_base : List ℕ

-- `dir`, or else $PSMSGR_DIR if it is set and not empty, or else /dev/shm
unfoldable pub channel_dir : Option (List ℕ) → (env : Option (List ℕ)) → List ℕ
channel_dir (some dir) env = dir
channel_dir none none = ascii "/dev/shm"
channel_dir none (some []) = ascii "/dev/shm"
channel_dir none (some (c ∷ cs)) = c ∷ cs

-- `malloc_ok` says whether the allocation succeeds; `none` is PSMSGR_E_SYS.
unfoldable pub paths_init :
    Option (List ℕ) → (env : Option (List ℕ)) → List ℕ → (malloc_ok : Bool) → Option Paths
paths_init dir env name malloc_ok =
    let d : List ℕ = channel_dir dir env in
    let base : List ℕ = ascii "psmsgr." ++ (name ++ ascii ".state") in
    if malloc_ok
    then some (record {
      dir = d;
      data_path = d ++ (ascii "/" ++ base);
      lock = d ++ (ascii "/psmsgr." ++ (name ++ ascii ".lock"));
      data_base = base;
    })
    else none

-- What is left of a text behind a prefix: `strncmp` of the prefix's length, and the text behind it.
unfoldable pub strip_prefix : List ℕ → List ℕ → Option (List ℕ)
strip_prefix [] n = some n
strip_prefix (p ∷ ps) [] = none
strip_prefix (p ∷ ps) (c ∷ n) = if p == c then strip_prefix ps n else none

unfoldable pub no_dot : List ℕ → Bool
no_dot [] = true
no_dot (c ∷ cs) = not (c == b'.') && no_dot cs

unfoldable pub stale_suffix : Option (List ℕ) → Bool
stale_suffix none = false
stale_suffix (some s) = length s == 6 && no_dot s

-- The test of `remove_stale_tmp` on the name of a directory entry.
unfoldable pub is_stale_tmp : (data_base n : List ℕ) → Bool
is_stale_tmp data_base n = elim (strip_prefix data_base n) [
  | none ↦ false
  | some rest ↦ stale_suffix (strip_prefix (ascii ".tmp.") rest)
]
