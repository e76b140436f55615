-- ===== src/Dump/SameFile.antt =====
-- The path that the tool opens is the library's.
use ps_msgr.Prelude.{
  ℕ, ◌+◌, true, Option, none, some, List, [], ◌∷◌, ◌++◌, ◌≡◌, refl, ap, ◌∙◌, length, length-append,
  arith,
}
use ps_msgr.Name.{ascii, Paths, channel_dir, paths_init}
use ps_msgr.Dump.Main.{Arguments, dir_of, path_of, path_size}

dir_of-channel_dir : (dir env : Option (List ℕ)) → dir_of dir env ≡ channel_dir dir env
unfolding channel_dir
dir_of-channel_dir (some d) env = refl
dir_of-channel_dir none none = refl
dir_of-channel_dir none (some []) = refl
dir_of-channel_dir none (some (c ∷ cs)) = refl

data_path_of : Option Paths → List ℕ
data_path_of none = []
data_path_of (some p) = p.data_path

-- The tool's raw view opens the file that the library gives to a reader of this name and directory, and
-- its text with the final zero fills the allocated bytes exactly.
pub path_of-paths_init :
    (o : Arguments)
    → (env : Option (List ℕ)) → (p : Paths) → paths_init o.dir env o.name true ≡ some p
    → (path_of o env ≡ p.data_path) × (length (path_of o env) + 1 ≡ path_size o env)
unfolding path_of paths_init data_path_of
path_of-paths_init o env p e = (
  ap (λ d. d ++ (ascii "/psmsgr." ++ (o.name ++ ascii ".state"))) (dir_of-channel_dir o.dir env)
      ∙ ap data_path_of e,
  omega (
    arith,
    length-append (dir_of o.dir env) (ascii "/psmsgr." ++ (o.name ++ ascii ".state")),
    length-append (ascii "/psmsgr.") (o.name ++ ascii ".state"),
    length-append o.name (ascii ".state"),
  ),
)
