-- ===== src/System/Publish.antt =====
-- A publish that runs to its end, and what the file then offers.
use ps_msgr.Prelude.{
  ℕ, zero, suc, ◌+◌, ◌/◌, ◌%◌, ◌^◌, ◌<◌, ◌≡◌, ◌≢◌, ◌↔◌, refl, sym, subst, ap, ◌∙◌, Bool, true,
  false, some, List, [], ◌∷◌, ◌++◌, arith, leb, ltb, ◌&&◌, if◌then◌else◌,
}
use ps_msgr.Layout.{Slot, latest_none, psmi_latest, psmi_latest_slot, psmi_latest_valid}
use ps_msgr.Layout.Latest.{psmi_latest_roundtrip}
use ps_msgr.Memory.{File, latest_of, Store, apply, apply_all}
use ps_msgr.Writer.{
  Writer, begin_slot, commit_slot, copy_in, committed, notify_stores, publish, target,
}
use ps_msgr.Result.{Rc}
use ps_msgr.Reader.Snapshot.{info_of, latest_slot}
use ps_msgr.Reader.{timestamp_of}
use ps_msgr.System.{System}
use ps_msgr.System.Programs.{IsReady, target-IsFree}
use ps_msgr.System.Soundness.{IsSound, publish_cases}
use ps_msgr.System.Guards.{IsSafe, IsLive, apply-IsLive}

apply_all-append :
    (xs ys : List Store) (f : File) → apply_all (xs ++ ys) f ≡ apply_all ys (apply_all xs f)
unfolding apply_all
apply_all-append [] ys f = refl
apply_all-append (x ∷ xs) ys f = apply_all-append xs ys (apply x f)

-- A safe program leads to its end, and keeps the file readable on the way.
pub apply_all-IsSafe :
    (n cap : ℕ) (End : File → Type 0)
    → n < 17
    → (p : List Store) (f : File) → IsSafe n cap End p f
    → IsLive n cap f
    → End (apply_all p f) × IsLive n cap (apply_all p f)
unfolding apply_all
apply_all-IsSafe n cap End few [] f s l = (s, l)
apply_all-IsSafe n cap End few (a ∷ p) f s l =
    apply_all-IsSafe n cap End few p (apply a f) s.1 (apply-IsLive n cap few a f s.0 l)

-- `copy_in` writes its bytes and nothing else.
copy_in_lem :
    (i : ℕ) (bytes : ℕ → ℕ) (k m : ℕ) (f : File)
    → let g = apply_all (copy_in i bytes k m) f in
      (g.header ≡ f.header)
      × ((j : ℕ) → i ≢ j → g.slots j ≡ f.slots j)
      × ((g.slots i).seq ≡ (f.slots i).seq)
      × ((j : ℕ)
          → (g.slots i).payload j
            ≡ (if leb k j && ltb j (k + m) then bytes j else (f.slots i).payload j))
unfolding copy_in apply_all apply
copy_in_lem i bytes k zero f = (refl, λ j h. refl, refl, λ j. ground arith)
copy_in_lem i bytes k (suc m) f =
    let ih = copy_in_lem i bytes (k + 1) m (apply (Store.set_byte i k (bytes k)) f) in
    (ih.0, λ j h. ih.1 j h ∙ ground arith, ih.2 ∙ ground arith, λ j. ground (arith, ih.3 j))

notify_stores_lem :
    (b : Bool) (f : File)
    → let g = apply_all (notify_stores b) f in (g.slots ≡ f.slots) × (latest_of g ≡ latest_of f)
unfolding apply_all apply
notify_stores_lem true f = (refl, refl)
notify_stores_lem false f = (refl, refl)

-- the slot that a commit leaves
abbrev committed_slot : Writer → (len now : ℕ) → Slot → Slot
committed_slot w len now s = record {
  seq = (w.open_seq + 2) % 2 ^ 32;
  generation = w.gen;
  timestamp_lo = now % 2 ^ 32;
  timestamp_hi = now / 2 ^ 32;
  length = len;
  payload = s.payload;
}

commit_slot_lem :
    (w : Writer) (len now : ℕ) (f : File)
    → let g = apply_all (commit_slot w len now).0 f in
      (g.slots w.open_slot ≡ committed_slot w len now (f.slots w.open_slot))
      × (latest_of g ≡ psmi_latest w.open_slot ((w.open_seq + 2) % 2 ^ 32))
unfolding commit_slot apply_all apply
commit_slot_lem w len now f = (
  ap (λ (x : ℕ → Slot). x w.open_slot) (notify_stores_lem w.notify _).0 ∙ ground arith,
  (notify_stores_lem w.notify _).1,
)

-- What the file offers after a whole publish.
pub record Offers (gen len now : ℕ) (bytes : ℕ → ℕ) (f : File) : Type 0 where
  pub published : latest_of f ≢ latest_none
  pub info_ok :
      info_of (latest_slot f)
      ≡ record { generation = gen; length = len; timestamp_ns = now; flags = 0 }
  pub bytes_ok : (k : ℕ) → k < len → (latest_slot f).payload k ≡ bytes k

commit_slot-Offers :
    (w : Writer) (len now : ℕ) (bytes : ℕ → ℕ) (f : File)
    → w.open_slot < 16
    → ((k : ℕ) → k < len → (f.slots w.open_slot).payload k ≡ bytes k)
    → Offers w.gen len now bytes (apply_all (commit_slot w len now).0 f)
commit_slot-Offers w len now bytes f small b = record {
  published = subst (λ l. l ≢ latest_none) (sym done.1) trip.2;
  info_ok =
      ap info_of here
      ∙ (λ p. record { generation = w.gen; length = len; timestamp_ns = whole p; flags = 0 });
  bytes_ok = λ k h. ap (λ (x : Slot). x.payload k) here ∙ b k h;
}
  where
    g : File
    g = apply_all (commit_slot w len now).0 f

    q : ℕ
    q = (w.open_seq + 2) % 2 ^ 32

    done :
        (g.slots w.open_slot ≡ committed_slot w len now (f.slots w.open_slot))
        × (latest_of g ≡ psmi_latest w.open_slot q)
    done = commit_slot_lem w len now f

    trip :
        (psmi_latest_slot (psmi_latest w.open_slot q) ≡ w.open_slot)
        × (psmi_latest_valid (psmi_latest w.open_slot q) 16 ≡ true)
        × (psmi_latest w.open_slot q ≢ latest_none)
        × ((psmi_latest w.open_slot q ≡ psmi_latest w.open_slot 0)
            ↔ (q / 2 % 2 ^ 27 ≡ 0 / 2 % 2 ^ 27))
    trip = psmi_latest_roundtrip 16 w.open_slot q 0 (omega arith) small

    here : latest_slot g ≡ committed_slot w len now (f.slots w.open_slot)
    here = ap g.slots (ap psmi_latest_slot done.1 ∙ trip.0) ∙ done.0

    whole : timestamp_of (now % 2 ^ 32) (now / 2 ^ 32) ≡ now
    whole = omega arith

copy_commit-Offers :
    (w : Writer) (len now : ℕ) (bytes : ℕ → ℕ) (f : File)
    → w.open_slot < 16
    → Offers w.gen len now bytes
        (apply_all (copy_in w.open_slot bytes 0 len ++ (commit_slot w len now).0) f)
copy_commit-Offers w len now bytes f small =
    rw (apply_all-append (copy_in w.open_slot bytes 0 len) (commit_slot w len now).0 f) (
      commit_slot-Offers w len now bytes (apply_all (copy_in w.open_slot bytes 0 len) f) small
        (λ k h. (copy_in_lem w.open_slot bytes 0 len f).3 k ∙ ground arith))

module _ {n cap : ℕ} {s : System} (v : IsSound n cap s) (idle : s.pending ≡ []) where
  pub ready : IsReady n cap s.writer s.file
  ready = subst (λ p. IsSafe n cap (IsReady n cap s.writer) p s.file) idle v.safe

  pub small_target : target s.writer < 16
  small_target = omega (
    arith,
    v.few,
    (target-IsFree n cap v.two v.few s.writer s.file v.live ready.count_ok ready.linked).0,
  )

  -- A publish that succeeds, run to its end: the file offers its bytes, length and clock under the
  -- generation that the call returned.
  pub publish-Offers :
      (bytes : ℕ → ℕ) (len now : ℕ)
      → let o = publish (some s.writer) (some bytes) len now s.file in
        o.rc ≡ Rc.ok
        → (o.generation ≡ some s.writer.gen)
          × Offers s.writer.gen len now bytes (apply_all o.stores s.file)
  unfolding committed begin_slot apply_all
  publish-Offers bytes len now =
      publish_cases
        (λ o.
          o.rc ≡ Rc.ok
          → (o.generation ≡ some s.writer.gen)
            × Offers s.writer.gen len now bytes (apply_all o.stores s.file))
        s.writer (some bytes) len now s.file (λ rc ne e. absurd (ne e))
        (λ fits _. (
          unfold commit_slot in refl,
          copy_commit-Offers (begin_slot s.writer s.file).1 len now bytes _ small_target,
        ))
