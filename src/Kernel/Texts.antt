-- ===== src/Kernel/Texts.antt =====
-- src/state.c: the allocation of a channel's paths.
use ps_msgr.Prelude.{ℕ, ◌+◌, Bool, true, false, Option, none, some, List, [], length}
use ps_msgr.Name.{Paths, channel_dir, paths_init}
use ps_msgr.Kernel.{Sys, Prog, ret, ◌>>=◌, sys}

abbrev pub is_empty_dir : Option (List ℕ) → Bool
is_empty_dir (some []) = true
is_empty_dir _ = false

abbrev pub name_of : Option (List ℕ) → List ℕ
name_of none = []
name_of (some n) = n

-- The bytes that `paths_init` allocates: a directory of `dlen` bytes and a name of `nlen`.
abbrev pub paths_size : (dlen nlen : ℕ) → ℕ
paths_size dlen nlen = dlen + 1 + (dlen + 8 + nlen + 6) + 1 + (dlen + 8 + nlen + 5) + 1

-- The allocation and the paths; `none` is PSMSGR_E_SYS.
unfoldable pub make_paths : (dir env : Option (List ℕ)) → (name : List ℕ) → Prog (Option Paths)
make_paths dir env name = do
  m ← sys (Sys.malloc (paths_size (length (channel_dir dir env)) (length name)))
  ret (paths_init dir env name m.okay)
