-- ===== src/Dump/Main.antt =====
-- tools/psmsgr-dump.c: `main` behind the parsing of the command line by `getopt_long`.
use ps_msgr.Prelude.{
  ℕ, ◌+◌, Bool, true, not, Option, none, some, List, ◌∷◌, ◌++◌, length, if◌then◌else◌,
}
use ps_msgr.Result.{Rc}
use ps_msgr.Name.{ascii}
use ps_msgr.Kernel.{Sys, Prog, ret, ◌>>=◌, ◌>>◌, sys}
use ps_msgr.Handle.{Handle, reader_open, reader_close}
use ps_msgr.Dump.Raw.{exit_invalid}
use ps_msgr.Dump.View.{dump}
use ps_msgr.Dump.Watch.{watch}

pub record Arguments : Type 0 where
  pub name : List ℕ
  pub dir : Option (List ℕ)
  pub watch : Bool
  pub hex : Bool

abbrev pub exit_usage : ℕ
exit_usage = 2

-- The directory rule, once more.
abbrev pub dir_of : Option (List ℕ) → (env : Option (List ℕ)) → List ℕ
dir_of (some dir) env = dir
dir_of none (some (c ∷ cs)) = c ∷ cs
dir_of none _ = ascii "/dev/shm"

unfoldable pub path_of : Arguments → (env : Option (List ℕ)) → List ℕ
path_of o env = dir_of o.dir env ++ (ascii "/psmsgr." ++ (o.name ++ ascii ".state"))

-- The bytes that are allocated for the path.
abbrev pub path_size : Arguments → (env : Option (List ℕ)) → ℕ
path_size o env = length (dir_of o.dir env) + length o.name + 15

unfoldable pub show : (rounds : ℕ) → Handle → Arguments → (path : List ℕ) → Prog (ℕ × Handle)
show rounds r o path =
    if o.watch
    then (do x ← watch rounds r o.hex path; ret (0, x.1))
    else (do d ← dump r o.hex path; ret (d.status, d.handle))

-- On the result of `reader_open`; `rounds` bounds the watch loop.
unfoldable pub main_opened :
    (rounds : ℕ) → (env : Option (List ℕ)) → Arguments → Rc → Option Handle → Prog ℕ
main_opened rounds env o Rc.inval r = ret exit_usage
main_opened rounds env o Rc.ok (some r) = do
  m ← sys (Sys.malloc (path_size o env))
  if not m.okay
      then (do reader_close (some r); ret exit_invalid)
      else (do x ← show rounds r o (path_of o env); reader_close (some x.1); ret x.0)
main_opened rounds env o _ _ = ret exit_invalid

-- `size` is the size of the library's handle.
unfoldable pub main : (size rounds : ℕ) → (env : Option (List ℕ)) → Arguments → Prog ℕ
main size rounds env o = do
  x ← reader_open size (some o.name) o.dir env true
  main_opened rounds env o x.0 x.1
