-- ===== src/System/Timeline.antt =====
-- The writer's system as time passes: between two loads of a reader it makes any number of steps.
use ps_msgr.Prelude.{
  ℕ, zero, suc, ◌+◌, ◌-◌, ◌/◌, ◌%◌, ◌^◌, ◌≤◌, ◌<◌, ◌≡◌, ◌≢◌, refl, sym, subst, ap, ◌∙◌, arith,
}
use ps_msgr.Layout.{latest_none, psmi_latest, psmi_latest_slot}
use ps_msgr.Layout.Latest.{psmi_latest_roundtrip}
use ps_msgr.Memory.{File, seq_at, latest_of}
use ps_msgr.System.{System, Run}
use ps_msgr.System.Guards.{IsReadable}
use ps_msgr.System.Soundness.{IsSound, Run-IsSound}
use ps_msgr.System.Later.{IsLater, Run-IsLater, IsLater-trans}

pub record Timeline (n cap : ℕ) : Type 0 where
  pub state_at : ℕ → System
  pub sound : IsSound n cap (state_at 0)
  pub runs : (t : ℕ) → Run (state_at t) (state_at (suc t))

module _ {n cap : ℕ} (T : Timeline n cap) where
  open T use {state_at, sound, runs}

  abbrev pub file_at : ℕ → File
  file_at t = (state_at t).file

  pub IsSound-at : (t : ℕ) → IsSound n cap (state_at t)
  IsSound-at zero = sound
  IsSound-at (suc t) = Run-IsSound n cap (runs t) (IsSound-at t)

  later : (d t u : ℕ) → t + d ≡ u → IsLater n cap (state_at t) (state_at u)
  later zero t u e =
      subst (λ k. IsLater n cap (state_at t) (state_at k)) (omega arith)
        (λ i. (omega arith, λ _ _. refl))
  later (suc d) t u e =
      IsLater-trans n cap (state_at t) (state_at (suc t)) (state_at u)
        (Run-IsLater n cap (runs t) (IsSound-at t)) (later d (suc t) u (omega arith))

  -- No slot is committed 2^27 times in `span` ticks: the tag in `latest` does not come round.
  abbrev pub IsCalm : ℕ → Type 0
  IsCalm span = (t i : ℕ) → (state_at (t + span)).commits i < (state_at t).commits i + 2 ^ 27

  -- The reader's test: the slot that `latest` names at `t` holds, at `v`, the even `seq` that
  -- `latest` names. Then the slot has not changed in between.
  pub unchanged :
      (span : ℕ)
      → IsCalm span
      → (t v i q : ℕ) → t ≤ v
      → v ≤ t + span
      → latest_of (file_at t) ≢ latest_none
      → psmi_latest_slot (latest_of (file_at t)) ≡ i
      → q % 2 ≡ 0
      → psmi_latest i q ≡ latest_of (file_at t)
      → seq_at (file_at v) i ≡ q
      → (u : ℕ) → t ≤ u
      → u ≤ v
      → (file_at u).slots i ≡ (file_at t).slots i
  unchanged span calm t v i q hv hd ne ei even tag same u hu hu' =
      sym ((second i).1 commits_u (omega (arith, ap (λ k. k % 2) same)))
      ∙ (whole i).1 commits_d (omega (arith, ap (λ k. k % 2) same))
    where
      whole : IsLater n cap (state_at t) (state_at v)
      whole = later (v - t) t v (omega arith)

      first : IsLater n cap (state_at t) (state_at u)
      first = later (u - t) t u (omega arith)

      second : IsLater n cap (state_at u) (state_at v)
      second = later (v - u) u v (omega arith)

      rest : IsLater n cap (state_at v) (state_at (t + span))
      rest = later (t + span - v) v (t + span) (omega arith)

      readable :
          IsReadable n cap (file_at t) i
          × (latest_of (file_at t) ≡ psmi_latest i (seq_at (file_at t) i))
      readable =
          subst
            (λ j.
              IsReadable n cap (file_at t) j
              × (latest_of (file_at t) ≡ psmi_latest j (seq_at (file_at t) j)))
            ei ((IsSound-at t).live ne)

      tags : q / 2 % 2 ^ 27 ≡ seq_at (file_at t) i / 2 % 2 ^ 27
      tags =
          (psmi_latest_roundtrip n i q (seq_at (file_at t) i) (IsSound-at t).few readable.0.0).3.0
            (tag ∙ readable.1)

      commits_d : (state_at t).commits i ≡ (state_at v).commits i
      commits_d = omega (
        arith,
        tags,
        ap (λ k. k / 2) same,
        (IsSound-at t).counted i readable.0.0,
        (IsSound-at v).counted i readable.0.0,
        calm t i,
        (whole i).0,
        (rest i).0,
      )

      commits_u : (state_at u).commits i ≡ (state_at v).commits i
      commits_u = omega (arith, commits_d, (first i).0, (second i).0)
