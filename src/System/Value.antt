-- ===== src/System/Value.antt =====
-- The value that the file offers: which step replaces it, and by what.
use ps_msgr.Prelude.{ℕ, ◌%◌, ◌≤◌, ◌<◌, ◌≡◌, ◌≢◌, ◌⊎◌, inl, inr, refl, sym, subst, List, arith}
use ps_msgr.Layout.{latest_none, psmi_latest, psmi_latest_slot}
use ps_msgr.Layout.Latest.{psmi_latest_roundtrip}
use ps_msgr.Memory.{File, seq_at, latest_of, Store, apply}
use ps_msgr.System.{System, execute, start_call, reopen, Step, stores, calls, fills, crashes}
use ps_msgr.System.Guards.{Guard, IsSafe}
use ps_msgr.System.Programs.{IsReady}
use ps_msgr.System.Soundness.{IsSound}

-- The two files offer the same value, or none: `latest` and the slot that it names are the same.
abbrev pub SameValue : File → File → Type 0
SameValue f g =
    (latest_of g ≡ latest_of f)
    × (latest_of f ≢ latest_none
        → g.slots (psmi_latest_slot (latest_of f)) ≡ f.slots (psmi_latest_slot (latest_of f)))

-- `latest` is made to name a slot that is committed and holds a value that fits.
abbrev pub Publishes : (cap : ℕ) → System → System → Type 0
Publishes cap s t =
    (i : ℕ) × (latest_of t.file ≡ psmi_latest i (seq_at s.file i))
    × (psmi_latest_slot (latest_of t.file) ≡ i)
    × (t.file.slots i ≡ s.file.slots i)
    × (seq_at s.file i % 2 ≡ 0)
    × ((s.file.slots i).length ≤ cap)

module _ (n cap : ℕ) where
  execute-value :
      (a : Store) (rest : List Store) (s : System)
      → n < 17
      → Guard n cap a s.file
      → SameValue s.file (execute a rest s).file ⊎ Publishes cap s (execute a rest s)
  unfolding execute apply
  execute-value (Store.set_seq i v) rest s few g = inl (refl, λ ne. ground (arith, g.1 ne))
  execute-value (Store.set_generation i v) rest s few g = inl (refl, λ ne. ground (arith, g.1 ne))
  execute-value (Store.set_timestamp_lo i v) rest s few g = inl (refl, λ ne. ground (arith, g.1 ne))
  execute-value (Store.set_timestamp_hi i v) rest s few g = inl (refl, λ ne. ground (arith, g.1 ne))
  execute-value (Store.set_length i v) rest s few g = inl (refl, λ ne. ground (arith, g.1 ne))
  execute-value (Store.set_byte i k v) rest s few g = inl (refl, λ ne. ground (arith, g.1 ne))
  execute-value (Store.set_latest v) rest s few (i, r, e) =
      let trip = psmi_latest_roundtrip n i (seq_at s.file i) 0 few r.0 in
      inr (i, e, subst (λ w. psmi_latest_slot w ≡ i) (sym e) trip.0, refl, r.1, r.2)
  execute-value Store.add_notify rest s few g = inl (refl, λ _. refl)
  execute-value (Store.or_state v) rest s few g = inl (refl, λ _. refl)
  execute-value Store.wake_all rest s few g = inl (refl, λ _. refl)

  -- A step of the writer, a crash included, leaves the value that readers get as it is, or makes
  -- `latest` name a slot that is committed and whose length fits.
  pub Step-value :
      {s t : System} → Step s t → IsSound n cap s → SameValue s.file t.file ⊎ Publishes cap s t
  unfolding start_call reopen apply
  Step-value (stores s a rest e) v =
      execute-value a rest s v.few
        (subst (λ p. IsSafe n cap (IsReady n cap s.writer) p s.file) e v.safe).0
  Step-value (calls s c e) v = inl (refl, λ _. refl)
  Step-value (fills s k b e h lt) v =
      let r : IsReady n cap s.writer s.file =
        subst (λ p. IsSafe n cap (IsReady n cap s.writer) p s.file) e v.safe in
      let free = (r.opened h).free in inl (refl, λ ne. ground (arith, free ne))
  Step-value (crashes s w map_size random) v = inl (refl, λ _. refl)
