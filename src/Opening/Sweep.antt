-- ===== src/Opening/Sweep.antt =====
-- src/state.c: `remove_stale_tmp`, the walk of the channel's directory.
use ps_msgr.Prelude.{ℕ, not, List, [], ◌∷◌, if◌then◌else◌}
use ps_msgr.Name.{Paths, is_stale_tmp}
use ps_msgr.Kernel.{Sys, Prog, ret, ◌>>=◌, ◌>>◌, sys}

-- The loop over the entries.
unfoldable pub sweep : (fd : ℕ) (data_base : List ℕ) → List (List ℕ) → Prog (Unit {0})
sweep fd data_base [] = ret tt
sweep fd data_base (n ∷ names) =
    let rest : Prog (Unit {0}) = sweep fd data_base names in
    if is_stale_tmp data_base n then (do sys (Sys.unlinkat fd n); rest) else rest

unfoldable pub remove_stale_tmp : Paths → Prog (Unit {0})
remove_stale_tmp p = do
  d ← sys (Sys.opendir p.dir)
  if not d.okay
      then ret tt
      else (do sweep d.value p.data_base d.entries; sys (Sys.closedir d.value); ret tt)
