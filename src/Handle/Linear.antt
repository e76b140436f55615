-- ===== src/Handle/Linear.antt =====
-- Reads through a handle, beside a live writer: the handle's calls with the loads of `read_latest` in them.
use ps_msgr.Prelude.{
  ℕ, zero, suc, ◌+◌, ◌≤◌, ◌<◌, ◌≡◌, ◌⊎◌, refl, sym, subst, ap, ◌∙◌, Bool, true, false, ◌||◌, not,
  Option, none, some, ltb, ◌==◌, bit_and, arith, Bool-cases, inl, inr,
}
use ps_msgr.Layout.{Header, header_bytes, header_valid}
use ps_msgr.Memory.{File}
use ps_msgr.Result.{Rc}
use ps_msgr.Reader.{Info, Memcpy, Reading, read_latest}
use ps_msgr.Reader.Snapshot.{
  IsNothing, IsSnapshot, IsLinear, latest_slot, read_latest-IsLinear, read_latest-later,
}
use ps_msgr.System.Timeline.{Timeline, file_at, IsCalm}
use ps_msgr.Kernel.{Sys, Answer, Stat, Prog, is_enoent}
use ps_msgr.Kernel.Monitor.{Ends, Ends-then}
use ps_msgr.Lock.{is_ok}
use ps_msgr.Opening.{read_header}
use ps_msgr.Opening.Reading.{fails}
use ps_msgr.Handle.{
  Handle, Got, handed_out, attach_retries, detach, attach_to, attach, retired, settle, attach_loop,
  sync_from, reader_sync, announce, get,
}

-- The time is the number of the next load of the channel's file.
abbrev pub ticks : Sys → Answer → ℕ → ℕ
ticks (Sys.read_latest _ _ _ _ _ _) a t = a.reading.time
ticks _ a t = t

-- A result without PSMSGR_INFO_ATTACHED.
abbrev pub unflagged : Option Info → Option Info
unflagged none = none
unflagged (some i) = some (record i { flags = 0 })

module _ {n cap : ℕ} (T : Timeline n cap) (cpy : Memcpy) where
  -- The channel's name names the timeline's file: a header that is read from it has its geometry, and
  -- `read_latest` loads from the memory that its writer stores to, at once or later.
  abbrev pub Serves : Sys → Answer → ℕ → Type 0
  Serves (Sys.pread_header _) a t = (a.header.slot_count ≡ n) × (a.header.capacity ≡ cap)
  Serves (Sys.read_latest _ k c size copy buf) a t =
      (u : ℕ) × (t ≤ u) × (a.reading ≡ read_latest cpy (file_at T) k c size copy false buf u)
  Serves _ a t = Unit

  abbrev FitsAt : Option ℕ → (slot_count capacity : ℕ) → Type 0
  FitsAt none k c = Unit
  FitsAt (some map) k c = (k ≡ n) × (c ≡ cap)

  -- An attached handle has the file's geometry.
  abbrev pub Fits : Handle → Type 0
  Fits r = FitsAt r.hdr r.slot_count r.capacity

  -- So does a header that was read.
  abbrev Has : Rc × Stat × Header → Type 0
  Has x = is_ok x.0 ≡ true → (x.2.slot_count ≡ n) × (x.2.capacity ≡ cap)

  -- The time has not changed; on OK the handle has the geometry.
  abbrev Ready : ℕ → ℕ → Rc × Handle × ℕ → Type 0
  Ready t t' s =
      (t' ≡ t)
      × Fits s.1
      × (is_ok s.0 ≡ true → (s.1.slot_count ≡ n) × (s.1.capacity ≡ cap))
      × (is_ok s.0 ≡ false → fails s.0 ≡ true)

  module _ (t : ℕ) where
    read_header-Ends :
        (fd : ℕ)
        → Ends ticks Serves
            (λ t' x. (t' ≡ t) × Has x × (is_ok x.0 ≡ false → fails x.0 ≡ true))
            t
            (read_header fd)
    unfolding read_header
    read_header-Ends fd f _ = elim (Bool-cases f.okay) [
      | inr e ↦ rw e (refl, λ z. cc, λ _. refl)
      | inl e ↦ rw e (elim (Bool-cases (not f.stat.regular || ltb f.stat.size header_bytes)) [
        | inl e' ↦ rw e' (refl, λ z. cc, λ _. refl)
        | inr e' ↦ rw e' (λ a h. elim (Bool-cases a.okay) [
          | inr k ↦ rw k (refl, λ z. cc, λ _. refl)
          | inl k ↦ rw k (elim (Bool-cases (a.value == header_bytes)) [
            | inl w ↦ rw w (refl, λ _. h, λ z. sym z)
            | inr w ↦ rw w (refl, λ z. cc, λ _. refl)
          ])
        ])
      ])
    ]

    attach_to-Ends :
        (r : Handle) (fd : ℕ) (x : Rc × Stat × Header)
        → r.hdr ≡ none
        → Has x
        → (is_ok x.0 ≡ false → fails x.0 ≡ true)
        → Ends ticks Serves (Ready t) t (attach_to r fd x)
    unfolding attach_to
    attach_to-Ends r fd (rc, st, h) gone has bad = elim (Bool-cases (is_ok rc)) [
      | inr e ↦ rw e (λ _ _. (refl, fits, λ z. cc, bad))
      | inl e ↦ rw e (elim (Bool-cases (header_valid h st.size)) [
        | inr e' ↦ rw e' (λ _ _. (refl, fits, λ z. cc, λ _. refl))
        | inl e' ↦ rw e' (λ a _. elim (Bool-cases a.okay) [
          | inr k ↦ rw k (λ _ _. (refl, fits, λ z. cc, λ _. refl))
          | inl k ↦ rw k (λ _ _. (refl, has e, λ _. has e, λ z. sym z))
        ])
      ])
    ]
      where
        fits : Fits r
        fits = subst (λ hdr. FitsAt hdr r.slot_count r.capacity) (sym gone) tt

    attach-Ends : (r : Handle) → r.hdr ≡ none → Ends ticks Serves (Ready t) t (attach r)
    unfolding attach
    attach-Ends r gone f _ = elim (Bool-cases f.okay) [
      | inl e ↦ rw e (
          Ends-then ticks Serves (λ t' x. (t' ≡ t) × Has x × (is_ok x.0 ≡ false → fails x.0 ≡ true))
            (Ready t) t (read_header f.value) _ (read_header-Ends f.value)
            (λ t' x e'. rw (e'.0) (attach_to-Ends r f.value x gone e'.1 e'.2)))
      | inr e ↦ rw e (elim (Bool-cases (is_enoent f.errno)) [
        | inl k ↦ rw k (refl, fits, λ z. cc, λ _. refl)
        | inr k ↦ rw k (refl, fits, λ z. cc, λ _. refl)
      ])
    ]
      where
        fits : Fits r
        fits = subst (λ hdr. FitsAt hdr r.slot_count r.capacity) (sym gone) tt

    settle-Ends :
        (again : Handle → Prog (Rc × Handle × ℕ)) (a : Rc × Handle × ℕ)
        → ((r : Handle) → r.hdr ≡ none → Ends ticks Serves (Ready t) t (again r))
        → Ready t t a
        → Ends ticks Serves (Ready t) t (settle again a)
    unfolding settle retired detach
    settle-Ends again a loop ready s _ = elim (Bool-cases (bit_and s.value 1 == 0)) [
      | inl e ↦ rw e ready
      | inr e ↦ rw e (λ _ _. loop _ refl)
    ]

    attach_loop-Ends :
        (k : ℕ) (r : Handle) → r.hdr ≡ none → Ends ticks Serves (Ready t) t (attach_loop k r)
    unfolding attach_loop
    attach_loop-Ends zero r gone =
        (refl, subst (λ hdr. FitsAt hdr r.slot_count r.capacity) (sym gone) tt, λ z. cc, λ _. refl)
    attach_loop-Ends (suc k) r gone =
        Ends-then ticks Serves (Ready t) (Ready t) t (attach r) _ (attach-Ends r gone) (λ t' a d.
          elim (Bool-cases (is_ok a.0)) [
            | inr e ↦ rw e d
            | inl e ↦
                rw (e, d.0)
                  (settle-Ends (attach_loop k) a (attach_loop-Ends k) (refl, d.1, d.2, d.3))
          ])

    sync_from-Ends :
        (hdr : Option ℕ) (r : Handle)
        → r.hdr ≡ hdr
        → Fits r
        → Ends ticks Serves (Ready t) t (sync_from r hdr)
    unfolding sync_from retired detach
    sync_from-Ends none r at fits = attach_loop-Ends attach_retries r at
    sync_from-Ends (some map) r at fits = λ s _. elim (Bool-cases (bit_and s.value 1 == 0)) [
      | inl e ↦
          rw e
            (refl, fits, λ _. subst (λ hdr. FitsAt hdr r.slot_count r.capacity) at fits, λ z. sym z)
      | inr e ↦ rw e (λ _ _. attach_loop-Ends attach_retries _ refl)
    ]

    reader_sync-Ends : (r : Handle) → Fits r → Ends ticks Serves (Ready t) t (reader_sync r)
    unfolding reader_sync
    reader_sync-Ends r fits = sync_from-Ends r.hdr r refl fits

  -- What `g` hands out is true of the file `f`.
  abbrev pub Told : (size : ℕ) (copy : Bool) → File → Got → Type 0
  Told size copy f g =
      let r : Reading = record { rc = g.rc; info = unflagged g.info; buf = g.buf; time = 0 } in
      IsNothing size copy f r ⊎ IsSnapshot size copy f r

  -- The handle found no file to read, and wrote nothing; or `read_latest` was busy; or the result is true
  -- of the file at a moment during the call.
  abbrev pub IsTrue : (size : ℕ) (copy : Bool) (buf : ℕ → ℕ) (t t' : ℕ) → Got → Type 0
  IsTrue size copy buf t t' g =
      ((fails g.rc ≡ true) × (g.info ≡ none) × (g.buf ≡ buf))
      ⊎ ((g.rc ≡ Rc.busy) ⊎ ((t₀ : ℕ) × (t ≤ t₀) × (t₀ < t') × Told size copy (file_at T t₀) g))

  abbrev given : Reading → Option Info × Handle → Got
  given r x = record { rc = r.rc; info = x.0; buf = r.buf; handle = x.1 }

  unflagged-announce : (r : Handle) (i : Option Info) → unflagged (announce r i).0 ≡ unflagged i
  unfolding announce
  unflagged-announce r none = refl
  unflagged-announce r (some i) = elim (Bool-cases r.announces) [
    | inl e ↦ rw e refl
    | inr e ↦ rw e refl
  ]

  announce-Fits : (r : Handle) (i : Option Info) → Fits r → Fits (announce r i).1
  unfolding announce
  announce-Fits r none fits = fits
  announce-Fits r (some i) fits = elim (Bool-cases r.announces) [
    | inl e ↦ rw e fits
    | inr e ↦ rw e fits
  ]

  module _ (size : ℕ) (copy : Bool) (buf : ℕ → ℕ) where
    retold :
        (f : File) (r : Reading) (g : Got)
        → g.rc ≡ r.rc
        → g.buf ≡ r.buf
        → unflagged g.info ≡ unflagged r.info
        → IsNothing size copy f r ⊎ IsSnapshot size copy f r
        → Told size copy f g
    retold f r g rc bytes info (inl x) = inl (rc ∙ x.0, info ∙ ap unflagged x.1, x.2)
    retold f r g rc bytes info (inr x) = inr (record {
      published = x.published;
      info_ok = info ∙ ap unflagged x.info_ok;
      verdict =
          subst
            (λ c.
              (c ≡ Rc.ok) ⊎ ((c ≡ Rc.toosmall) × (copy ≡ true) × (size < (latest_slot f).length)))
            (sym rc) x.verdict;
      bytes = λ ok c.
          subst
            (λ b.
              ((latest_slot f).length ≤ size)
              × ((k : ℕ) → k < (latest_slot f).length → b k ≡ (latest_slot f).payload k))
            (sym bytes) (x.bytes (sym rc ∙ ok) c);
    })

    from_reading :
        (t u : ℕ) (r : Reading) (g : Got)
        → t ≤ u
        → IsLinear T cpy size copy u r
        → g.rc ≡ r.rc
        → g.buf ≡ r.buf
        → unflagged g.info ≡ unflagged r.info
        → IsTrue size copy buf t r.time g
    from_reading t u r g le (inl e) rc bytes info = inr (inl (rc ∙ e))
    from_reading t u r g le (inr (t₀, h, k, x)) rc bytes info =
        inr (inr (t₀, omega arith, k, retold (file_at T t₀) r g rc bytes info x))

    served :
        IsCalm T (22 + cap)
        → (k c u : ℕ) (r : Reading) → k ≡ n
        → c ≡ cap
        → r ≡ read_latest cpy (file_at T) k c size copy false buf u
        → IsLinear T cpy size copy u r
    served calm k c u r ek ec e =
        subst (IsLinear T cpy size copy u) (sym (rw (e, ek, ec) refl))
          (read_latest-IsLinear T cpy size copy calm buf u)

    ends_later :
        IsCalm T (22 + cap)
        → (k c u : ℕ) (r : Reading) → k ≡ n
        → c ≡ cap
        → r ≡ read_latest cpy (file_at T) k c size copy false buf u
        → u ≤ r.time
    ends_later calm k c u r ek ec e = rw (e, ek, ec) (read_latest-later T cpy size copy calm buf u)

    pub get-Ends :
        IsCalm T (22 + cap)
        → (t : ℕ) (r : Handle) → Fits r
        → Ends ticks Serves
            (λ t' g. IsTrue size copy buf t t' g × (t ≤ t') × Fits g.handle)
            t
            (get r buf size copy)
    unfolding get
    get-Ends calm t r fits =
        Ends-then ticks Serves (Ready t)
          (λ t' g. IsTrue size copy buf t t' g × (t ≤ t') × Fits g.handle) t (reader_sync r) _
          (reader_sync-Ends t r fits)
          (λ t' s d. elim (Bool-cases (is_ok s.0)) [
            | inr e ↦ rw e (inl (d.3 e, refl, refl), omega (arith, d.0), d.1)
            | inl e ↦ rw e (λ a o.
                (let good : IsLinear T cpy size copy o.0 a.reading =
                    served calm s.1.slot_count s.1.capacity o.0 a.reading (d.2 e).0 (d.2 e).1 o.2 in
                  let ends : o.0 ≤ a.reading.time =
                    ends_later calm s.1.slot_count s.1.capacity o.0 a.reading (d.2 e).0 (d.2 e).1
                      o.2 in
                  let le : t ≤ o.0 = omega (arith, d.0, o.1) in
                  elim (Bool-cases (handed_out copy a.reading.rc)) [
                    | inl k ↦ rw k (
                      from_reading t o.0 a.reading (given a.reading (announce s.1 a.reading.info))
                          le good refl refl (unflagged-announce s.1 a.reading.info),
                      omega (arith, le, ends),
                      announce-Fits s.1 a.reading.info d.1,
                    )
                    | inr k ↦ rw k (
                      from_reading t o.0 a.reading (given a.reading (a.reading.info, s.1)) le good
                          refl refl refl,
                      omega (arith, le, ends),
                      d.1,
                    )
                  ]))
          ])
