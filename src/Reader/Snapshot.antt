-- ===== src/Reader/Snapshot.antt =====
-- `read_latest` beside a live writer: what it returns is the value that `latest` named at one moment
-- of the call.
use ps_msgr.Prelude.{
  ℕ, zero, suc, ◌+◌, ◌%◌, ◌≤◌, ◌<◌, ◌≡◌, ◌≢◌, ◌⊎◌, inl, inr, refl, sym, ap, ◌∙◌, Bool, true, false,
  not, ◌&&◌, ◌||◌, none, some, arith, Bool-cases, ltb, leb, ◌==◌, ==_iff,
}
use ps_msgr.Layout.{Slot, latest_none, psmi_latest, psmi_latest_slot, psmi_latest_valid}
use ps_msgr.Layout.Latest.{psmi_latest_roundtrip}
use ps_msgr.Memory.{File, seq_at, latest_of}
use ps_msgr.Result.{Rc}
use ps_msgr.System.Timeline.{Timeline, file_at, IsSound-at, IsCalm, unchanged}
use ps_msgr.Reader.{
  Info, Memcpy, Reading, Attempt, returns, again, timestamp_of, copy_info, copy_payload, recheck,
  copy_slot, attempt, rounds, read_latest,
}

abbrev pub info_of : Slot → Info
info_of s = record {
  generation = s.generation;
  length = s.length;
  timestamp_ns = timestamp_of s.timestamp_lo s.timestamp_hi;
  flags = 0;
}

abbrev pub latest_slot : File → Slot
latest_slot f = f.slots (psmi_latest_slot (latest_of f))

module _ (size : ℕ) (copy : Bool) where
  -- The reading is the latest value of the file `f`, whole.
  pub record IsSnapshot (f : File) (r : Reading) : Type 0 where
    pub published : latest_of f ≢ latest_none
    pub info_ok : r.info ≡ some (info_of (latest_slot f))
    pub verdict :
        (r.rc ≡ Rc.ok) ⊎ ((r.rc ≡ Rc.toosmall) × (copy ≡ true) × (size < (latest_slot f).length))
    pub bytes :
        r.rc ≡ Rc.ok
        → copy ≡ true
        → ((latest_slot f).length ≤ size)
          × ((k : ℕ) → k < (latest_slot f).length → r.buf k ≡ (latest_slot f).payload k)

  abbrev pub IsNothing : File → Reading → Type 0
  IsNothing f r = (r.rc ≡ Rc.nodata) × (r.info ≡ none) × (latest_of f ≡ latest_none)

module _ {n cap : ℕ} (T : Timeline n cap) (cpy : Memcpy) (size : ℕ) (copy : Bool) where
  abbrev IsGood : ℕ → Attempt → Type 0
  IsGood t (returns r) =
      (t < r.time) × (IsNothing size copy (file_at T t) r ⊎ IsSnapshot size copy (file_at T t) r)
  IsGood t (again buf t') = t ≤ t'

  module _ (calm : IsCalm T (22 + cap)) (t i q : ℕ) (ne : latest_of (file_at T t) ≢ latest_none)
      (ei : psmi_latest_slot (latest_of (file_at T t)) ≡ i) (even : q % 2 ≡ 0)
      (tag : psmi_latest i q ≡ latest_of (file_at T t)) where
    value : Slot
    value = latest_slot (file_at T t)

    value-fits : value.length ≤ cap
    unfolding value
    value-fits = ((IsSound-at T t).live ne).0.2

    same_slot :
        (v : ℕ)
        → t ≤ v
        → v ≤ t + (22 + cap)
        → seq_at (file_at T v) i ≡ q
        → (u : ℕ) → t ≤ u
        → u ≤ v
        → (file_at T u).slots i ≡ value
    unfolding value
    same_slot v h h' e u k k' =
        unchanged T (22 + cap) calm t v i q h h' ne ei even tag e u k k'
        ∙ ap (file_at T t).slots (sym ei)

    -- The header's words, copied at any moments between the load of `latest` and the recheck.
    copy_info-info_of :
        (v : ℕ)
        → t + 22 ≤ v
        → v ≤ t + (22 + cap)
        → seq_at (file_at T v) i ≡ q
        → copy_info cpy (file_at T) i (t + 2) ≡ info_of value
    unfolding copy_info
    copy_info-info_of v h h' e = λ p. record {
      generation = (word 4 p).generation;
      length = (word 16 p).length;
      timestamp_ns = timestamp_of (word 8 p).timestamp_lo (word 12 p).timestamp_hi;
      flags = 0;
    }
      where
        word : (k : ℕ) → (file_at T (t + 2 + cpy.moment 20 k)).slots i ≡ value
        word k =
            same_slot v (omega arith) h' e (t + 2 + cpy.moment 20 k) (omega arith)
              (omega (arith, cpy.moment_le 20 k))

    accepted :
        (buf : ℕ → ℕ) (v : ℕ)
        → t ≤ v
        → (copy ≡ true → value.length ≤ size → (k : ℕ) → k < value.length → buf k ≡ value.payload k)
        → seq_at (file_at T v) i ≡ q
        → IsGood t (recheck cpy (file_at T) n cap size copy false i q (info_of value) buf v)
    unfolding recheck value
    accepted buf v h b e =
        rw ((==_iff (seq_at (file_at T v) i) q).1 e) (elim (Bool-cases (ltb cap value.length)) [
          | inl big ↦ absurd (ground (arith, value-fits))
          | inr fits ↦ rw fits (elim (Bool-cases (not copy || leb value.length size)) [
            | inl good ↦ rw good (
              omega arith,
              inr (record {
                published = ne;
                info_ok = refl;
                verdict = inl refl;
                bytes = λ _ c. (ground arith, b c (ground arith));
              }),
            )
            | inr bad ↦ rw bad (
              omega arith,
              inr (record {
                published = ne;
                info_ok = refl;
                verdict = inr (refl, ground arith, ground arith);
                bytes = λ x. cc;
              }),
            )
          ])
        ])

    recheck-IsGood :
        (buf : ℕ → ℕ) (v : ℕ)
        → t + 22 ≤ v
        → v ≤ t + (22 + cap)
        → (seq_at (file_at T v) i ≡ q
            → copy ≡ true
            → value.length ≤ size
            → (k : ℕ) → k < value.length
            → buf k ≡ value.payload k)
        → IsGood t (
            recheck cpy
              (file_at T)
              n
              cap
              size
              copy
              false
              i
              q
              (copy_info cpy (file_at T) i (t + 2))
              buf
              v)
    unfolding recheck
    recheck-IsGood buf v h h' b = elim (Bool-cases (seq_at (file_at T v) i == q)) [
      | inl e ↦
          let same : seq_at (file_at T v) i ≡ q = (==_iff (seq_at (file_at T v) i) q).0 e in
          rw (copy_info-info_of v h h' same) (accepted buf v (omega arith) (b same) same)
      | inr e ↦ rw e (omega arith)
    ]

    copied :
        (buf : ℕ → ℕ) (len v : ℕ)
        → v ≡ t + 2 + 20 + len
        → v ≤ t + (22 + cap)
        → seq_at (file_at T v) i ≡ q
        → (k : ℕ) → k < len
        → copy_payload cpy (file_at T) i (t + 2 + 20) len buf k ≡ value.payload k
    unfolding copy_payload
    copied buf len v ev h same k lt = ground (
      arith,
      ap (λ (s : Slot). s.payload k)
          (same_slot v (omega arith) h same (t + 2 + 20 + cpy.moment len k) (omega arith)
            (omega (arith, cpy.moment_le len k))),
    )

    copy_slot-IsGood :
        (buf : ℕ → ℕ) → IsGood t (copy_slot cpy (file_at T) n cap size copy false i q buf (t + 2))
    unfolding copy_slot
    copy_slot-IsGood buf =
        let len : ℕ = (copy_info cpy (file_at T) i (t + 2)).length in
        elim (Bool-cases (copy && leb len size && leb len cap)) [
          | inl e ↦
              let small : len ≤ cap = ground arith in
              rw e (
                recheck-IsGood (copy_payload cpy (file_at T) i (t + 2 + 20) len buf)
                  (t + 2 + 20 + len) (omega arith) (omega arith)
                  (λ same c h k lt. copied buf len (t + 2 + 20 + len) refl (omega arith) same k (
                    omega (
                      arith,
                      ap (λ (x : Info). x.length)
                          (copy_info-info_of (t + 2 + 20 + len) (omega arith) (omega arith) same),
                    ))))
          | inr e ↦ rw e (
              recheck-IsGood buf (t + 2 + 20) (omega arith) (omega arith) (λ same c h k lt. absurd (
                ground (
                  arith,
                  value-fits,
                  ap (λ (x : Info). x.length)
                      (copy_info-info_of (t + 2 + 20) (omega arith) (omega arith) same),
                ))))
        ]

  attempt-IsGood :
      IsCalm T (22 + cap)
      → (buf : ℕ → ℕ) (t : ℕ) → IsGood t (attempt cpy (file_at T) n cap size copy false buf t)
  unfolding attempt
  attempt-IsGood calm buf t =
      let l : ℕ = latest_of (file_at T t) in
      let i : ℕ = psmi_latest_slot l in
      let q : ℕ = seq_at (file_at T (t + 1)) i in
      elim (Bool-cases (l == latest_none)) [
        | inl e ↦ rw e (omega arith, inl (refl, refl, (==_iff l latest_none).0 e))
        | inr e ↦
            let ne : l ≢ latest_none = ground arith in
            rw (e, live-valid t ne)
              (elim (Bool-cases (q % 2 == 0 && psmi_latest i q == l)) [
                | inl tagged ↦
                    rw tagged
                      (copy_slot-IsGood calm t i q ne refl (ground arith) (ground arith) buf)
                | inr other ↦ rw other (omega arith)
              ])
      ]
    where
      live-valid :
          (t : ℕ)
          → latest_of (file_at T t) ≢ latest_none
          → psmi_latest_valid (latest_of (file_at T t)) n ≡ true
      live-valid t ne =
          let r = (IsSound-at T t).live ne in
          let f : File = file_at T t in
          rw r.1
            (psmi_latest_roundtrip n (psmi_latest_slot (latest_of f))
              (seq_at f (psmi_latest_slot (latest_of f))) 0 (IsSound-at T t).few r.0.0).1

  -- The call was busy, or its result was true of the file at one of its loads.
  abbrev pub IsLinear : ℕ → Reading → Type 0
  IsLinear t r =
      (r.rc ≡ Rc.busy)
      ⊎ ((t₀ : ℕ) × (t ≤ t₀)
          × (t₀ < r.time)
          × (IsNothing size copy (file_at T t₀) r ⊎ IsSnapshot size copy (file_at T t₀) r))

  sooner : (t t' : ℕ) (r : Reading) → t ≤ t' → IsLinear t' r → IsLinear t r
  sooner t t' r h (inl e) = inl e
  sooner t t' r h (inr (t₀, p, q, x)) = inr (t₀, omega arith, q, x)

  settled :
      (t k : ℕ) (a : Attempt)
      → IsGood t a
      → ((buf : ℕ → ℕ) (t' : ℕ)
          → IsLinear t' (rounds cpy (file_at T) n cap size copy false k buf t'))
      → IsLinear t (elim a as (λ _. Reading) [
        | returns r ↦ r
        | again buf t' ↦ rounds cpy (file_at T) n cap size copy false k buf t'
      ])
  settled t k (returns r) g rest = inr (t, omega arith, g.0, g.1)
  settled t k (again buf t') g rest = sooner t t' _ g (rest buf t')

  rounds-IsLinear :
      IsCalm T (22 + cap)
      → (k : ℕ) (buf : ℕ → ℕ) (t : ℕ)
      → IsLinear t (rounds cpy (file_at T) n cap size copy false k buf t)
  unfolding rounds
  rounds-IsLinear calm zero buf t = inl refl
  rounds-IsLinear calm (suc k) buf t =
      settled t k (attempt cpy (file_at T) n cap size copy false buf t) (attempt-IsGood calm buf t)
        (rounds-IsLinear calm k)

  pub read_latest-IsLinear :
      IsCalm T (22 + cap)
      → (buf : ℕ → ℕ) (t : ℕ) → IsLinear t (read_latest cpy (file_at T) n cap size copy false buf t)
  unfolding read_latest
  read_latest-IsLinear calm buf t = rounds-IsLinear calm 64 buf t

  later_of :
      (t k : ℕ) (a : Attempt)
      → IsGood t a
      → ((buf : ℕ → ℕ) (t' : ℕ) → t' ≤ (rounds cpy (file_at T) n cap size copy false k buf t').time)
      → t
        ≤ (elim a as (λ _. Reading) [
          | returns r ↦ r
          | again buf t' ↦ rounds cpy (file_at T) n cap size copy false k buf t'
        ]).time
  later_of t k (returns r) g rest = omega (arith, g.0)
  later_of t k (again buf t') g rest = omega (arith, g, rest buf t')

  rounds-later :
      IsCalm T (22 + cap)
      → (k : ℕ) (buf : ℕ → ℕ) (t : ℕ)
      → t ≤ (rounds cpy (file_at T) n cap size copy false k buf t).time
  unfolding rounds
  rounds-later calm zero buf t = omega arith
  rounds-later calm (suc k) buf t =
      later_of t k (attempt cpy (file_at T) n cap size copy false buf t) (attempt-IsGood calm buf t)
        (rounds-later calm k)

  -- A call returns at its start or later.
  pub read_latest-later :
      IsCalm T (22 + cap)
      → (buf : ℕ → ℕ) (t : ℕ) → t ≤ (read_latest cpy (file_at T) n cap size copy false buf t).time
  unfolding read_latest
  read_latest-later calm buf t = rounds-later calm 64 buf t
