-- ===== src/Handle/Announcing.antt =====
-- PSMSGR_INFO_ATTACHED: when a result carries the flag.
use ps_msgr.Prelude.{
  ℕ, zero, suc, ◌+◌, ◌≤◌, ◌≡◌, ◌⊎◌, refl, sym, ap, subst, ◌∙◌, Bool, true, false, ◌||◌, not, Option,
  none, some, ltb, ◌==◌, bit_and, arith, Bool-cases, inl, inr,
}
use ps_msgr.Layout.{Header, header_bytes, psmi_file_size, header_valid}
use ps_msgr.Result.{Rc}
use ps_msgr.Reader.{Info}
use ps_msgr.Kernel.{Sys, Answer, Stat, Prog}
use ps_msgr.Kernel.Monitor.{Follows, Follows-then}
use ps_msgr.Lock.{is_ok}
use ps_msgr.Opening.{read_header}
use ps_msgr.Handle.{
  Handle, Got, attached, attach_retries, info_attached, detach, attach_to, attach, retired, settle,
  attach_loop, sync_from, reader_sync, get, handed_out, announce,
}

-- How many attaches have succeeded, and what the last `read_latest` left in `*info`.
pub record Seen : Type 0 where
  pub attaches : ℕ
  pub raw : Option Info

abbrev count_if : Bool → Seen → Seen
count_if true m = record m { attaches = m.attaches + 1 }
count_if false m = m

abbrev pub seen : Sys → Answer → Seen → Seen
seen (Sys.mmap fd size) a m = count_if a.okay m
seen (Sys.read_latest map n cap size copy buf) a m = record m { raw = a.reading.info }
seen _ a m = m

abbrev pub Any : Sys → Seen → Type 0
Any s m = Unit

-- The handle announces if it did so before, or if it has attached since.
abbrev Due : (r : Handle) (from : Seen) → Seen → Handle → Type 0
Due r from m r' =
    (r'.announces ≡ (r.announces || ltb from.attaches m.attaches)) × (from.attaches ≤ m.attaches)

read_header-Follows : (fd : ℕ) (m : Seen) → Follows seen Any (λ m' x. m' ≡ m) m (read_header fd)
unfolding read_header
read_header-Follows fd m = (
  tt,
  λ f. elim (Bool-cases f.okay) [
    | inr e ↦ rw e refl
    | inl e ↦ rw e (elim (Bool-cases (not f.stat.regular || ltb f.stat.size header_bytes)) [
      | inl e' ↦ rw e' refl
      | inr e' ↦ rw e' (tt, λ a. elim (Bool-cases a.okay) [ inl k ↦ rw k refl | inr k ↦ rw k refl ])
    ])
  ],
)

module _ (r₀ : Handle) (from : Seen) where
  abbrev Synced : Seen → Rc × Handle × ℕ → Type 0
  Synced m s = Due r₀ from m s.1

  -- An attach that succeeded since `from` makes the handle announce.
  attached-Due :
      (m : Seen) (r : Handle)
      → from.attaches ≤ m.attaches
      → r.announces ≡ true
      → Due r₀ from (record m { attaches = m.attaches + 1 }) r
  attached-Due m r le e = (e ∙ sym (later r₀.announces), omega arith)
    where
      later : (b : Bool) → (b || ltb from.attaches (m.attaches + 1)) ≡ true
      later b = ground arith

  attach_to-Follows :
      (m : Seen) (r : Handle) (fd : ℕ) (x : Rc × Stat × Header)
      → Due r₀ from m r
      → Follows seen Any Synced m (attach_to r fd x)
  unfolding attach_to
  attach_to-Follows m r fd (rc, st, h) d = elim (Bool-cases (is_ok rc)) [
    | inr e ↦ rw e (tt, λ _. d)
    | inl e ↦ rw e (elim (Bool-cases (header_valid h st.size)) [
      | inr e' ↦ rw e' (tt, λ _. d)
      | inl e' ↦ rw e' (
        tt,
        λ a. elim (Bool-cases a.okay) [
          | inr k ↦ rw k (tt, λ _. d)
          | inl k ↦ rw k (
            tt,
            λ _.
                attached-Due m (attached r h st (psmi_file_size h.slot_count h.slot_stride) a.value)
                  d.1 refl,
          )
        ],
      )
    ])
  ]

  attach-Follows : (m : Seen) (r : Handle) → Due r₀ from m r → Follows seen Any Synced m (attach r)
  unfolding attach
  attach-Follows m r d = (
    tt,
    λ f. elim (Bool-cases f.okay) [
      | inr e ↦ rw e d
      | inl e ↦ rw e (
          Follows-then seen Any (λ m' x. m' ≡ m) Synced m (read_header f.value) _
            (read_header-Follows f.value m)
            (λ m' x same. rw same (attach_to-Follows m r f.value x d)))
    ],
  )

  settle-Follows :
      (m : Seen) (again : Handle → Prog (Rc × Handle × ℕ)) (a : Rc × Handle × ℕ)
      → ((m' : Seen) (r : Handle) → Due r₀ from m' r → Follows seen Any Synced m' (again r))
      → Due r₀ from m a.1
      → Follows seen Any Synced m (settle again a)
  unfolding settle retired detach
  settle-Follows m again a loop d = (
    tt,
    λ s. elim (Bool-cases (bit_and s.value 1 == 0)) [
      | inl e ↦ rw e d
      | inr e ↦ rw e (tt, λ _. loop m _ d)
    ],
  )

  attach_loop-Follows :
      (k : ℕ) (m : Seen) (r : Handle)
      → Due r₀ from m r
      → Follows seen Any Synced m (attach_loop k r)
  unfolding attach_loop
  attach_loop-Follows zero m r d = d
  attach_loop-Follows (suc k) m r d =
      Follows-then seen Any Synced Synced m (attach r) _ (attach-Follows m r d) (λ m' a d'.
        elim (Bool-cases (is_ok a.0)) [
          | inr e ↦ rw e d'
          | inl e ↦ rw e (settle-Follows m' (attach_loop k) a (attach_loop-Follows k) d')
        ])

  sync_from-Follows :
      (hdr : Option ℕ) (m : Seen) (r : Handle)
      → Due r₀ from m r
      → Follows seen Any Synced m (sync_from r hdr)
  unfolding sync_from retired detach
  sync_from-Follows none m r d = attach_loop-Follows attach_retries m r d
  sync_from-Follows (some map) m r d = (
    tt,
    λ s. elim (Bool-cases (bit_and s.value 1 == 0)) [
      | inl e ↦ rw e d
      | inr e ↦ rw e (tt, λ _. attach_loop-Follows attach_retries m _ d)
    ],
  )

abbrev pub flagged : Bool → Option Info → Option Info
flagged due none = none
flagged true (some i) = some (record i { flags = i.flags + info_attached })
flagged false (some i) = some i

abbrev pub still_due : Bool → Option Info → Bool
still_due due none = due
still_due due (some i) = false

announce_lem :
    (r : Handle) (i : Option Info)
    → ((announce r i).0 ≡ flagged r.announces i)
      × ((announce r i).1.announces ≡ still_due r.announces i)
unfolding announce
announce_lem r none = (refl, refl)
announce_lem r (some i) = elim (Bool-cases r.announces) [
  | inl e ↦ rw e (refl, refl)
  | inr e ↦ rw e (refl, refl)
]

-- What a call hands out: a value that was read or peeked, and the size of a value that did not fit.
abbrev pub IsHandedOut : (copy : Bool) → Rc → Type 0
IsHandedOut copy rc = (rc ≡ Rc.ok) ⊎ ((copy ≡ true) × (rc ≡ Rc.toosmall))

handed_out-IsHandedOut : (copy : Bool) (rc : Rc) → handed_out copy rc ≡ true → IsHandedOut copy rc
handed_out-IsHandedOut copy Rc.ok e = inl refl
handed_out-IsHandedOut copy Rc.toosmall e = inr (e, refl)
handed_out-IsHandedOut copy Rc.inval e = cc
handed_out-IsHandedOut copy Rc.sys e = cc
handed_out-IsHandedOut copy Rc.nodata e = cc
handed_out-IsHandedOut copy Rc.toobig e = cc
handed_out-IsHandedOut copy Rc.busy e = cc
handed_out-IsHandedOut copy Rc.writer_exists e = cc
handed_out-IsHandedOut copy Rc.mismatch e = cc
handed_out-IsHandedOut copy Rc.format e = cc
handed_out-IsHandedOut copy Rc.notsup e = cc
handed_out-IsHandedOut copy Rc.timeout e = cc
handed_out-IsHandedOut copy Rc.intr e = cc
handed_out-IsHandedOut copy Rc.state e = cc

handed_ok : (copy : Bool) (rc : Rc) → handed_out copy rc ≡ false → rc ≡ Rc.ok → ⊥
handed_ok copy rc e k =
    let t : handed_out copy Rc.ok ≡ false = subst (λ x. handed_out copy x ≡ false) k e in cc

handed_toosmall :
    (copy : Bool) (rc : Rc) → handed_out copy rc ≡ false → copy ≡ true → rc ≡ Rc.toosmall → ⊥
handed_toosmall copy rc e c k =
    let t : handed_out copy Rc.toosmall ≡ false = subst (λ x. handed_out copy x ≡ false) k e in cc

not_handed_out : (copy : Bool) (rc : Rc) → handed_out copy rc ≡ false → ¬ IsHandedOut copy rc
not_handed_out copy rc e (inl k) = handed_ok copy rc e k
not_handed_out copy rc e (inr (c, k)) = handed_toosmall copy rc e c k

-- A result is due the flag if the handle announced before the call, or attached during it. A call that
-- hands out no result keeps that due; a result that is handed out has the flag exactly if it is due, and
-- then nothing is due any more.
abbrev pub Announces : (copy : Bool) (r : Handle) (from : Seen) → Seen → Got → Type 0
Announces copy r from m g =
    let due : Bool = r.announces || ltb from.attaches m.attaches in
    ((is_ok g.rc ≡ false) × (g.info ≡ none) × (g.handle.announces ≡ due))
    ⊎ ((IsHandedOut copy g.rc
          × (g.info ≡ flagged due m.raw)
          × (g.handle.announces ≡ still_due due m.raw))
        ⊎ ((¬ IsHandedOut copy g.rc) × (g.info ≡ m.raw) × (g.handle.announces ≡ due)))

-- Whatever the kernel answers, a read (`copy`) or a peek flags PSMSGR_INFO_ATTACHED exactly on the first
-- result that it hands out after the handle has attached, however often it attaches and detaches during
-- the call; an attach whose results are not handed out stays to be announced by a later call.
pub get-Announces :
    (r : Handle) (buf : ℕ → ℕ) (size : ℕ) (copy : Bool) (from : Seen)
    → Follows seen Any (Announces copy r from) from (get r buf size copy)
unfolding get reader_sync
get-Announces r buf size copy from =
    Follows-then seen Any (Synced r from) (Announces copy r from) from (reader_sync r) _
      (sync_from-Follows r from r.hdr from r (start r.announces, omega arith))
      (λ m s d. elim (Bool-cases (is_ok s.0)) [
        | inr e ↦ rw e (inl (e, refl, d.0))
        | inl e ↦ rw e (
          tt,
          λ a. elim (Bool-cases (handed_out copy a.reading.rc)) [
            | inr k ↦ rw k (inr (inr (not_handed_out copy a.reading.rc k, refl, d.0)))
            | inl k ↦ rw k (
                inr (
                  inl (
                    handed_out-IsHandedOut copy a.reading.rc k,
                    (announce_lem s.1 a.reading.info).0 ∙ ap (λ b. flagged b a.reading.info) d.0,
                    (announce_lem s.1 a.reading.info).1 ∙ ap (λ b. still_due b a.reading.info) d.0,
                  )))
          ],
        )
      ])
  where
    start : (b : Bool) → b ≡ (b || ltb from.attaches from.attaches)
    start b = ground arith
