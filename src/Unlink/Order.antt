-- ===== src/Unlink/Order.antt =====
-- The order in which `psmsgr_state_unlink` removes the path and retires the file.
use ps_msgr.Prelude.{List, ℕ, ◌≡◌, Bool, true, false, Option, some}
use ps_msgr.Name.{Paths}
use ps_msgr.Kernel.{Sys, Answer}

-- The path whose file was replaced or removed last.
pub record Changed : Type 0 where
  pub path : Option (List ℕ)

abbrev changed_if : Bool → List ℕ → Changed → Changed
changed_if true path m = record { path = some path }
changed_if false path m = m

abbrev pub changes : Sys → Answer → Changed → Changed
changes (Sys.rename from to) a m = changed_if a.okay to m
changes (Sys.unlink path) a m = changed_if a.okay path m
changes _ a m = m

-- A file is retired when the channel's path has just been removed; nothing is renamed.
abbrev pub IsJustGone : Paths → Sys → Changed → Type 0
IsJustGone p (Sys.rename from to) m = ⊥
IsJustGone p (Sys.or_state map bits) m = m.path ≡ some p.data_path
IsJustGone p _ m = Unit

module _ (p : Paths) where
  abbrev Anyhow {ℓ} : {A : Type ℓ} → Changed → A → Type 0
  Anyhow m a = Unit
