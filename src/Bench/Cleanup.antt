-- ===== src/Bench/Cleanup.antt =====
-- bench/psmsgr-bench.c: `cleanup`, which the process runs when it exits.
use ps_msgr.Prelude.{ℕ, some, List, [], ◌∷◌}
use ps_msgr.Name.{ascii}
use ps_msgr.Kernel.{Sys, Prog, ret, ◌>>◌, sys}
use ps_msgr.Unlink.{unlink}
use ps_msgr.Bench.Setup.{Config, Platform, payload_sizes, chan_name}

abbrev pub kinds : List (List ℕ)
kinds = ascii "nonotify" ∷ ascii "plain" ∷ ascii "contended" ∷ []

module _ (p : Platform) (cfg : Config) where
  unfoldable pub unlink_sizes : (kind : List ℕ) → List ℕ → Prog (Unit {0})
  unlink_sizes kind [] = ret tt
  unlink_sizes kind (size ∷ more) = do
    unlink p.rounds (some (chan_name p cfg kind size)) (some cfg.dir) p.env
    unlink_sizes kind more

  unfoldable pub unlink_kinds : List (List ℕ) → Prog (Unit {0})
  unlink_kinds [] = ret tt
  unlink_kinds (kind ∷ more) = do unlink_sizes kind payload_sizes; unlink_kinds more

  unfoldable pub cleanup : Prog (Unit {0})
  cleanup = do
    unlink_kinds kinds
    unlink p.rounds (some (chan_name p cfg (ascii "wake") 16)) (some cfg.dir) p.env
    unlink p.rounds (some (chan_name p cfg (ascii "poll") 16)) (some cfg.dir) p.env
    sys (Sys.rmdir cfg.dir)
    ret tt
