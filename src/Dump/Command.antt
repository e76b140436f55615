-- ===== src/Dump/Command.antt =====
-- tools/psmsgr-dump.c: the command line, as `getopt_long` gives it: the options one by one, and then the
-- arguments that are left.
use ps_msgr.Prelude.{
  ℕ, ◌≤◌, ◌≡◌, ◌⊎◌, inl, inr, refl, Bool, true, false, not, ◌||◌, Option, none, some, List, [], ◌∷◌,
  arith,
}
use ps_msgr.Name.{name_valid}
use ps_msgr.Kernel.{Prog, ret}
use ps_msgr.Kernel.Texts.{is_empty_dir}
use ps_msgr.Kernel.Monitor.{Returns}
use ps_msgr.Dump.Main.{exit_usage, main}
use ps_msgr.Dump.Status.{main-Returns}

-- `unknown` is whatever `getopt_long` does not know.
pub data Given : Type 0 where
  dir : (text : List ℕ) → Given
  watch hex help unknown : Given

-- `options` before the name is known, which `{ 0 }` clears.
pub record Chosen : Type 0 where
  pub dir : Option (List ℕ)
  pub watch : Bool
  pub hex : Bool

abbrev pub nothing_chosen : Chosen
nothing_chosen = record { dir = none; watch = false; hex = false }

-- Behind the loop: exactly one argument is left.
unfoldable pub run_with :
    (size rounds : ℕ) → (env : Option (List ℕ)) → Chosen → (rest : List (List ℕ)) → Prog ℕ
run_with size rounds env o (name ∷ []) =
    main size rounds env (record { name = name; dir = o.dir; watch = o.watch; hex = o.hex })
run_with size rounds env o [] = ret exit_usage
run_with size rounds env o (a ∷ b ∷ more) = ret exit_usage

-- The loop, and what follows it: the exit status.
unfoldable pub command :
    (size rounds : ℕ)
    → (env : Option (List ℕ)) → Chosen
    → List Given
    → (rest : List (List ℕ)) → Prog ℕ
command size rounds env o [] rest = run_with size rounds env o rest
command size rounds env o (Given.dir text ∷ gs) rest =
    command size rounds env (record o { dir = some text }) gs rest
command size rounds env o (Given.watch ∷ gs) rest =
    command size rounds env (record o { watch = true }) gs rest
command size rounds env o (Given.hex ∷ gs) rest =
    command size rounds env (record o { hex = true }) gs rest
command size rounds env o (Given.help ∷ gs) rest = ret 0
command size rounds env o (Given.unknown ∷ gs) rest = ret exit_usage

-- A name that is not a channel's, or not one name, or an empty directory.
abbrev pub is_wrong_channel : (dir : Option (List ℕ)) → (rest : List (List ℕ)) → Bool
is_wrong_channel d [] = true
is_wrong_channel d (name ∷ []) = not (name_valid (some name)) || is_empty_dir d
is_wrong_channel d (a ∷ b ∷ more) = true

-- The usage of the manual: the first of `--help` and an unknown option decides; the last `--dir` counts.
abbrev pub is_wrong : (dir : Option (List ℕ)) → List Given → (rest : List (List ℕ)) → Bool
is_wrong d [] rest = is_wrong_channel d rest
is_wrong d (Given.help ∷ gs) rest = false
is_wrong d (Given.unknown ∷ gs) rest = true
is_wrong d (Given.dir text ∷ gs) rest = is_wrong (some text) gs rest
is_wrong d (Given.watch ∷ gs) rest = is_wrong d gs rest
is_wrong d (Given.hex ∷ gs) rest = is_wrong d gs rest

abbrev pub ExitsAs : (wrong : Bool) → (status : ℕ) → Type 0
ExitsAs wrong status = ((wrong ≡ true) × (status ≡ exit_usage)) ⊎ ((wrong ≡ false) × (status ≤ 1))

module _ (size rounds : ℕ) (env : Option (List ℕ)) where
  run_with-Returns :
      (o : Chosen) (rest : List (List ℕ))
      → Returns (ExitsAs (is_wrong_channel o.dir rest)) (run_with size rounds env o rest)
  unfolding run_with
  run_with-Returns o [] = inl (refl, refl)
  run_with-Returns o (name ∷ []) =
      main-Returns size rounds env
        (record { name = name; dir = o.dir; watch = o.watch; hex = o.hex })
  run_with-Returns o (a ∷ b ∷ more) = inl (refl, refl)

  -- Whatever the kernel answers and whatever has been chosen so far, the tool exits with 2 exactly if the
  -- rest of the command line is not a usage of the tool, and with 0 or 1 if it is.
  pub command-Returns :
      (o : Chosen) (gs : List Given) (rest : List (List ℕ))
      → Returns (ExitsAs (is_wrong o.dir gs rest)) (command size rounds env o gs rest)
  unfolding command
  command-Returns o [] rest = run_with-Returns o rest
  command-Returns o (Given.dir text ∷ gs) rest =
      command-Returns (record o { dir = some text }) gs rest
  command-Returns o (Given.watch ∷ gs) rest = command-Returns (record o { watch = true }) gs rest
  command-Returns o (Given.hex ∷ gs) rest = command-Returns (record o { hex = true }) gs rest
  command-Returns o (Given.help ∷ gs) rest = inr (refl, omega arith)
  command-Returns o (Given.unknown ∷ gs) rest = inl (refl, refl)
