-- ===== src/Reader/Quiet.antt =====
-- `read_latest` while no writer makes a store: it returns in its first round.
use ps_msgr.Prelude.{
  ℕ, ◌+◌, ◌%◌, ◌≤◌, ◌<◌, ◌≡◌, ◌≢◌, ◌⊎◌, inl, inr, refl, sym, Bool, true, false, not, ◌&&◌, ◌||◌,
  arith, Bool-cases, ltb, leb, ◌==◌, ==_iff,
}
use ps_msgr.Layout.{latest_none, psmi_latest, psmi_latest_slot, psmi_latest_valid}
use ps_msgr.Layout.Latest.{psmi_latest_roundtrip}
use ps_msgr.Memory.{File, seq_at, latest_of}
use ps_msgr.System.Guards.{IsLive}
use ps_msgr.Reader.{
  Memcpy, Reading, Attempt, returns, again, copy_info, copy_payload, recheck, copy_slot, attempt,
  rounds, read_latest,
}
use ps_msgr.Reader.Snapshot.{IsSnapshot, IsNothing, info_of, latest_slot}

-- What `latest` says of a live file, in the code's own tests.
pub live_tests :
    (n cap : ℕ) (f : File)
    → n < 17
    → IsLive n cap f
    → latest_of f ≢ latest_none
    → (psmi_latest_valid (latest_of f) n ≡ true)
      × (seq_at f (psmi_latest_slot (latest_of f)) % 2 ≡ 0)
      × (psmi_latest (psmi_latest_slot (latest_of f)) (seq_at f (psmi_latest_slot (latest_of f)))
          ≡ latest_of f)
      × ((latest_slot f).length ≤ cap)
live_tests n cap f few live ne =
    let r = live ne in
    let trip =
      psmi_latest_roundtrip n (psmi_latest_slot (latest_of f))
        (seq_at f (psmi_latest_slot (latest_of f))) 0 few r.0.0 in
    (rw r.1 trip.1, r.0.1, sym r.1, r.0.2)

module _ (n cap : ℕ) (f : File) (few : n < 17) (live : IsLive n cap f) (cpy : Memcpy) (size : ℕ)
    (copy : Bool) where
  abbrev Settles : Attempt → Type 0
  Settles (returns r) = IsNothing size copy f r ⊎ IsSnapshot size copy f r
  Settles (again buf t) = ⊥

  module _ (ne : latest_of f ≢ latest_none) where
    recheck-Settles :
        (buf : ℕ → ℕ) (t : ℕ)
        → (copy ≡ true
            → (latest_slot f).length ≤ size
            → (k : ℕ) → k < (latest_slot f).length
            → buf k ≡ (latest_slot f).payload k)
        → Settles (
            recheck cpy
              (λ _. f)
              n
              cap
              size
              copy
              false
              (psmi_latest_slot (latest_of f))
              (seq_at f (psmi_latest_slot (latest_of f)))
              (info_of (latest_slot f))
              buf
              t)
    unfolding recheck
    recheck-Settles buf t b =
        let q : ℕ = seq_at f (psmi_latest_slot (latest_of f)) in
        let len : ℕ = (latest_slot f).length in
        rw ((==_iff q q).1 refl) (elim (Bool-cases (ltb cap len)) [
          | inl big ↦ absurd (ground (arith, live_tests n cap f few live ne))
          | inr fits ↦ rw fits (elim (Bool-cases (not copy || leb len size)) [
            | inl good ↦ rw good (
                inr (record {
                  published = ne;
                  info_ok = refl;
                  verdict = inl refl;
                  bytes = λ _ c. (ground arith, b c (ground arith));
                }))
            | inr bad ↦ rw bad (
                inr (record {
                  published = ne;
                  info_ok = refl;
                  verdict = inr (refl, ground arith, ground arith);
                  bytes = λ x. cc;
                }))
          ])
        ])

    copy_slot-Settles :
        (buf : ℕ → ℕ) (t : ℕ)
        → Settles (
            copy_slot cpy
              (λ _. f)
              n
              cap
              size
              copy
              false
              (psmi_latest_slot (latest_of f))
              (seq_at f (psmi_latest_slot (latest_of f)))
              buf
              t)
    unfolding copy_slot copy_info
    copy_slot-Settles buf t =
        let i : ℕ = psmi_latest_slot (latest_of f) in
        let len : ℕ = (latest_slot f).length in
        elim (Bool-cases (copy && leb len size && leb len cap)) [
          | inl e ↦ rw e (
              recheck-Settles (copy_payload cpy (λ _. f) i (t + 20) len buf) (t + 20 + len)
                (λ c h k lt. unfold copy_payload in ground arith))
          | inr e ↦ rw e (
              recheck-Settles buf (t + 20)
                (λ c h k lt. absurd (ground (arith, live_tests n cap f few live ne))))
        ]

  attempt-Settles :
      (buf : ℕ → ℕ) (t : ℕ) → Settles (attempt cpy (λ _. f) n cap size copy false buf t)
  unfolding attempt
  attempt-Settles buf t =
      let l : ℕ = latest_of f in
      let i : ℕ = psmi_latest_slot l in
      let q : ℕ = seq_at f i in
      elim (Bool-cases (l == latest_none)) [
        | inl e ↦ rw e (inl (refl, refl, (==_iff l latest_none).0 e))
        | inr e ↦
            let ne : l ≢ latest_none = ground arith in
            let tests = live_tests n cap f few live ne in
            let same : (q % 2 == 0 && psmi_latest i q == l) ≡ true = ground (arith, tests) in
            rw (e, tests.0, same) (copy_slot-Settles ne buf (t + 2))
      ]

  pub read_latest-Settles :
      (buf : ℕ → ℕ) (t : ℕ)
      → let r = read_latest cpy (λ _. f) n cap size copy false buf t in
        IsNothing size copy f r ⊎ IsSnapshot size copy f r
  unfolding read_latest rounds
  read_latest-Settles buf t =
      first (attempt cpy (λ _. f) n cap size copy false buf t) (attempt-Settles buf t)
    where
      first :
          (a : Attempt)
          → Settles a
          → let r = elim a as (λ _. Reading) [
            | returns r ↦ r
            | again buf' t' ↦ rounds cpy (λ _. f) n cap size copy false 63 buf' t'
          ] in
            IsNothing size copy f r ⊎ IsSnapshot size copy f r
      first (returns r) s = s
      first (again buf t) s = absurd s
