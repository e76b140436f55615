-- ===== src/System/Notifying.antt =====
-- The writer's calls follow every publication with a notification.
use ps_msgr.Prelude.{
  ℕ, zero, suc, ◌+◌, ◌%◌, ◌^◌, ◌≤◌, ◌<◌, ◌≡◌, inl, inr, refl, subst, ap, ◌∙◌, true, false, List, [],
  ◌∷◌, ◌++◌, arith, Bool-cases, ltb, ◌==◌, ==_iff, bit_and,
}
use ps_msgr.Layout.{latest_none, config_no_notify}
use ps_msgr.Memory.{File, Store, apply}
use ps_msgr.Writer.{
  Writer, Outcome, bytes_of, begin_slot, commit_slot, copy_in, committed, begin, commit, abort,
  writer_attach,
}
use ps_msgr.System.{
  System, execute, Call, outcome, handle, start_call, reopen, Step, stores, calls, fills, crashes,
  Run, none_yet, next,
}
use ps_msgr.System.Soundness.{publish_cases}

abbrev pub notify_of : File → ℕ
notify_of f = f.header.notify

abbrev pub publication : Store → ℕ
publication (Store.set_latest v) = 1
publication _ = 0

abbrev pub notification : Store → ℕ
notification Store.add_notify = 1
notification _ = 0

abbrev pub awakening : Store → ℕ
awakening Store.wake_all = 1
awakening _ = 0

abbrev pub total : (Store → ℕ) → List Store → ℕ
total f [] = 0
total f (a ∷ p) = f a + total f p

-- How many of these stores a run has made.
abbrev pub step_count : {s t : System} → (Store → ℕ) → Step s t → ℕ
step_count f (stores s a rest e) = f a
step_count f (calls s c e) = 0
step_count f (fills s k v e h lt) = 0
step_count f (crashes s w map_size random) = 0

abbrev pub run_count : {s t : System} → (Store → ℕ) → Run s t → ℕ
run_count f none_yet = 0
run_count f (next r st) = run_count f r + step_count f st

-- The stores of `latest`, the increments of `notify` and the crashes of a run.
abbrev pub published : {s t : System} → Run s t → ℕ
published r = run_count publication r

abbrev pub notified : {s t : System} → Run s t → ℕ
notified r = run_count notification r

-- The wake-ups of all who sleep on `notify`.
abbrev pub woken : {s t : System} → Run s t → ℕ
woken r = run_count awakening r

abbrev pub step_crashes : {s t : System} → Step s t → ℕ
step_crashes (crashes s w map_size random) = 1
step_crashes _ = 0

abbrev pub crashed : {s t : System} → Run s t → ℕ
crashed none_yet = 0
crashed (next r st) = crashed r + step_crashes st

-- The increments that the call in progress has still to make.
abbrev pub due : System → ℕ
due s = total notification s.pending

abbrev pub unpublished : System → ℕ
unpublished s = total publication s.pending

-- The wake-ups that it has still to make.
abbrev pub wakes_due : System → ℕ
wakes_due s = total awakening s.pending

-- Behind every store that `f` counts stands one that `g` counts.
abbrev pub IsFollowed : (f g : Store → ℕ) → List Store → Type 0
IsFollowed f g [] = Unit
IsFollowed f g (a ∷ p) = (total f (a ∷ p) ≤ total g (a ∷ p)) × IsFollowed f g p

-- A notifying channel; its writer is in a call that increments `notify` once at most, and not before
-- it stores `latest`, and wakes the waiters behind that.
pub record IsNotifying (s : System) : Type 0 where
  pub asks : s.writer.notify ≡ true
  pub flags_ok : bit_and s.file.header.config_flags config_no_notify ≡ 0
  pub once : due s ≤ 1
  pub in_order : IsFollowed publication notification s.pending
  pub wakes : IsFollowed notification awakening s.pending

total-append : (f : Store → ℕ) (p q : List Store) → total f (p ++ q) ≡ total f p + total f q
total-append f [] q = omega arith
total-append f (a ∷ p) q = omega (arith, total-append f p q)

-- A call makes as many publications as notifications, one at most, and keeps `notify`.
abbrev Notifies : Writer → Outcome → Type 0
Notifies w o =
    (total publication o.stores ≡ total notification o.stores)
    × (total notification o.stores ≤ 1)
    × IsFollowed publication notification o.stores
    × ((handle w o.writer).notify ≡ true)
    × (total notification o.stores ≡ total awakening o.stores)
    × IsFollowed notification awakening o.stores

IsFollowed-append :
    (f g : Store → ℕ) (p q : List Store)
    → total f p ≡ 0
    → IsFollowed f g q
    → total f q ≤ total g q
    → IsFollowed f g (p ++ q)
IsFollowed-append f g [] q e o le = o
IsFollowed-append f g (a ∷ p) q e o le = (
  omega (arith, e, le, total-append f p q, total-append g p q),
  IsFollowed-append f g p q (omega (arith, e)) o le,
)

copy_in-total :
    (i : ℕ) (bytes : ℕ → ℕ) (k n : ℕ)
    → (total publication (copy_in i bytes k n) ≡ 0)
      × (total notification (copy_in i bytes k n) ≡ 0)
      × (total awakening (copy_in i bytes k n) ≡ 0)
unfolding copy_in
copy_in-total i bytes k zero = (refl, refl, refl)
copy_in-total i bytes k (suc n) =
    let r = copy_in-total i bytes (k + 1) n in (omega arith, omega arith, omega arith)

commit_slot-total :
    (w : Writer) (len now : ℕ)
    → w.notify ≡ true
    → let r = commit_slot w len now in
      (total publication r.0 ≡ 1)
      × (total notification r.0 ≡ 1)
      × IsFollowed publication notification r.0
      × (r.1.notify ≡ true)
      × (total awakening r.0 ≡ 1)
      × IsFollowed notification awakening r.0
unfolding commit_slot
commit_slot-total w len now e = rw e (refl, refl, ground arith, refl, refl, ground arith)

-- A commit behind stores that neither publish nor notify.
committed-Notifies :
    (before : List Store) (w v : Writer) (len now : ℕ)
    → v.notify ≡ true
    → total publication before ≡ 0
    → total notification before ≡ 0
    → total awakening before ≡ 0
    → Notifies w (committed before (commit_slot v len now))
unfolding committed
committed-Notifies before w v len now e p q a =
    let c = commit_slot-total v len now e in
    let ps = total-append publication before (commit_slot v len now).0 in
    let ns = total-append notification before (commit_slot v len now).0 in
    let as' = total-append awakening before (commit_slot v len now).0 in
    (
      omega (arith, ps, ns, p, q, c.0, c.1),
      omega (arith, ns, q, c.1),
      IsFollowed-append publication notification before (commit_slot v len now).0 p c.2
          (omega (arith, c.0, c.1)),
      c.3,
      omega (arith, ns, as', q, a, c.1, c.4),
      IsFollowed-append notification awakening before (commit_slot v len now).0 q c.5
          (omega (arith, c.1, c.4)),
    )

pub outcome-Notifies :
    (c : Call) (w : Writer) (f : File) → w.notify ≡ true → Notifies w (outcome c w f)
unfolding outcome begin commit abort begin_slot
outcome-Notifies (Call.publishes bytes len now) w f e =
    publish_cases (Notifies w) w bytes len now f (λ rc _. (refl, omega arith, tt, e, refl, tt))
      (λ _.
        let (opening, w') = begin_slot w f in
        let copies = copy_in-total w'.open_slot (bytes_of bytes) 0 len in
        let ps = total-append publication opening (copy_in w'.open_slot (bytes_of bytes) 0 len) in
        let ns = total-append notification opening (copy_in w'.open_slot (bytes_of bytes) 0 len) in
        let as' = total-append awakening opening (copy_in w'.open_slot (bytes_of bytes) 0 len) in
        committed-Notifies (opening ++ copy_in w'.open_slot (bytes_of bytes) 0 len) w w' len now e
          (omega (arith, ps, copies)) (omega (arith, ns, copies)) (omega (arith, as', copies)))
outcome-Notifies (Call.begins false) w f e = (refl, omega arith, tt, e, refl, tt)
outcome-Notifies (Call.begins true) w f e = elim (Bool-cases (w.open_slot == latest_none)) [
  | inr k ↦ rw k (refl, omega arith, tt, e, refl, tt)
  | inl k ↦ rw k (refl, omega arith, (omega arith, tt), e, refl, (omega arith, tt))
]
outcome-Notifies (Call.commits_with len now) w f e =
    elim (Bool-cases (w.open_slot == latest_none)) [
      | inl k ↦ rw k (refl, omega arith, tt, e, refl, tt)
      | inr k ↦ elim (Bool-cases (ltb w.capacity len)) [
        | inl k' ↦ rw (k, k') (refl, omega arith, tt, e, refl, tt)
        | inr k' ↦ rw (k, k') (committed-Notifies [] w w len now e refl refl refl)
      ]
    ]
outcome-Notifies Call.aborts w f e = elim (Bool-cases (w.open_slot == latest_none)) [
  | inl k ↦ rw k (refl, omega arith, tt, e, refl, tt)
  | inr k ↦ rw k (refl, omega arith, tt, e, refl, tt)
]

apply-flags : (a : Store) (f : File) → (apply a f).header.config_flags ≡ f.header.config_flags
unfolding apply
apply-flags (Store.set_seq i v) f = refl
apply-flags _ f = refl

-- The word follows the increments.
pub apply-notify :
    (a : Store) (f : File)
    → notify_of f < 2 ^ 32
    → notify_of (apply a f) ≡ (notify_of f + notification a) % 2 ^ 32
unfolding apply
apply-notify Store.add_notify f h = refl
apply-notify (Store.set_seq i v) f h = omega arith
apply-notify _ f h = omega arith

pub Step-IsNotifying : {s t : System} → Step s t → IsNotifying s → IsNotifying t
unfolding execute start_call reopen writer_attach apply
Step-IsNotifying (stores s a rest e) v =
    let once : total notification (a ∷ rest) ≤ 1 = subst (λ p. total notification p ≤ 1) e v.once in
    let ordered : IsFollowed publication notification (a ∷ rest) =
      subst (IsFollowed publication notification) e v.in_order in
    let waking : IsFollowed notification awakening (a ∷ rest) =
      subst (IsFollowed notification awakening) e v.wakes in
    record {
      asks = v.asks;
      flags_ok = ap (λ k. bit_and k config_no_notify) (apply-flags a s.file) ∙ v.flags_ok;
      once = omega (arith, once);
      in_order = ordered.1;
      wakes = waking.1;
    }
Step-IsNotifying (calls s c e) v =
    let o = outcome-Notifies c s.writer s.file v.asks in
    record { asks = o.3; flags_ok = v.flags_ok; once = o.1; in_order = o.2; wakes = o.5 }
Step-IsNotifying (fills s k b e h lt) v = record {
  asks = v.asks;
  flags_ok = v.flags_ok;
  once = v.once;
  in_order = v.in_order;
  wakes = v.wakes;
}
Step-IsNotifying (crashes s w map_size random) v = record {
  asks = (==_iff (bit_and s.file.header.config_flags config_no_notify) 0).1 v.flags_ok;
  flags_ok = v.flags_ok;
  once = omega arith;
  in_order = tt;
  wakes = tt;
}
