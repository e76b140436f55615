-- ===== src/System/Programs.antt =====
-- The stores of each call, as one program: every one of them is made under its guard, and the handle
-- agrees with the file again at the end.
use ps_msgr.Prelude.{
  ℕ, zero, suc, ◌+◌, ◌/◌, ◌%◌, ◌^◌, ◌≤◌, ◌<◌, ◌≡◌, ◌≢◌, refl, sym, ap, Bool, true, false, List,
  ◌++◌, arith, dec_lt, ℕ_discrete,
}
use native.Mathlib.Nat.{mod-eq_of_lt, mod_self}
use ps_msgr.Prelude.Bits.{bit_and_even}
use ps_msgr.Layout.{latest_none, psmi_latest, psmi_latest_slot}
use ps_msgr.Layout.Latest.{psmi_latest_roundtrip}
use ps_msgr.Memory.{File, seq_at, latest_of, Store, apply}
use ps_msgr.Writer.{Writer, target, begin_slot, commit_slot, copy_in, notify_stores}
use ps_msgr.System.{decoded_latest}
use ps_msgr.System.Guards.{IsFree, IsSafe, IsLive, IsWritable}

module _ (n cap : ℕ) where
  -- An open begin has made its slot odd, and `latest` does not name it.
  pub record IsOpened (i q : ℕ) (f : File) : Type 0 where
    pub inside : i < n
    pub free : IsFree f i
    pub odd : seq_at f i ≡ q + 1
    pub before : q % 2 ≡ 0
    pub word : q < 2 ^ 32

  -- The slot's header is written as well.
  pub record IsFilled (i q len : ℕ) (f : File) : Type 0 where
    pub opened : IsOpened i q f
    pub filled : (f.slots i).length ≡ len

  -- The slot is committed, and `latest` does not name it yet.
  pub record IsClosed (i q : ℕ) (f : File) : Type 0 where
    pub inside : i < n
    pub closed : seq_at f i ≡ q
    pub even : q % 2 ≡ 0
    pub fits : (f.slots i).length ≤ cap

  -- The handle between two calls.
  pub record IsReady (w : Writer) (f : File) : Type 0 where
    pub count_ok : w.slot_count ≡ n
    pub capacity_ok : w.capacity ≡ cap
    pub linked : w.latest ≡ decoded_latest f
    pub opened : w.open_slot ≢ latest_none → IsOpened w.open_slot w.open_seq f

  pub IsOpened-IsWritable : {i q : ℕ} {f : File} → IsOpened i q f → IsWritable n cap f i
  IsOpened-IsWritable o = ground arith

  module _ {i q : ℕ} {f : File} where
    pub set_generation-IsOpened :
        (v : ℕ) → IsOpened i q f → IsOpened i q (apply (Store.set_generation i v) f)
    unfolding apply
    set_generation-IsOpened v o = ground (arith, o.free)

    pub set_byte-IsOpened :
        (k v : ℕ) → IsOpened i q f → IsOpened i q (apply (Store.set_byte i k v) f)
    unfolding apply
    set_byte-IsOpened k v o = ground (arith, o.free)

    pub set_length-IsFilled :
        (v : ℕ) → IsOpened i q f → IsFilled i q v (apply (Store.set_length i v) f)
    unfolding apply
    set_length-IsFilled v o = ground (arith, o.free)

    pub set_timestamp_lo-IsFilled :
        {len : ℕ} (v : ℕ)
        → IsFilled i q len f
        → IsFilled i q len (apply (Store.set_timestamp_lo i v) f)
    unfolding apply
    set_timestamp_lo-IsFilled v o = ground (arith, o.opened.free)

    pub set_timestamp_hi-IsFilled :
        {len : ℕ} (v : ℕ)
        → IsFilled i q len f
        → IsFilled i q len (apply (Store.set_timestamp_hi i v) f)
    unfolding apply
    set_timestamp_hi-IsFilled v o = ground (arith, o.opened.free)

    pub set_seq-IsClosed :
        {len : ℕ}
        → len ≤ cap
        → IsFilled i q len f
        → IsClosed i ((q + 2) % 2 ^ 32) (apply (Store.set_seq i ((q + 2) % 2 ^ 32)) f)
    unfolding apply
    set_seq-IsClosed h o = ground arith

  module _ (two : 2 ≤ n) (few : n < 17) where
    next_index : (l : ℕ) → l < n → ((l + 1) % 2 ^ 32 % n < n) × ((l + 1) % 2 ^ 32 % n ≢ l)
    next_index l h = elim (dec_lt (l + 1) n) [
      | yes p ↦ omega (arith, small, ap (λ k. k % n) small, mod-eq_of_lt p)
      | no p ↦ omega (arith, small, ap (λ k. k % n) (last p), mod_self n)
    ]
      where
        small : (l + 1) % 2 ^ 32 ≡ l + 1
        small = omega arith

        last : ¬ (l + 1 < n) → (l + 1) % 2 ^ 32 ≡ n
        last p = omega arith

    pub target-IsFree :
        (w : Writer) (f : File)
        → IsLive n cap f
        → w.slot_count ≡ n
        → w.latest ≡ decoded_latest f
        → (target w < n) × IsFree f (target w)
    unfolding target
    target-IsFree w f l c e = elim (ℕ_discrete (latest_of f) latest_none) [
      | yes p ↦ ground arith
      | no p ↦ ground (arith, l p, next_index (psmi_latest_slot (latest_of f)) (l p).0.0)
    ]

    pub begin_slot-IsSafe :
        (w : Writer) (f : File)
        → IsLive n cap f
        → IsReady w f
        → seq_at f (target w) < 2 ^ 32
        → IsSafe n cap (IsReady (begin_slot w f).1) (begin_slot w f).0 f
    unfolding begin_slot apply
    begin_slot-IsSafe w f l r word =
        ground (arith, target-IsFree w f l r.count_ok r.linked, bit_and_even (seq_at f (target w)))

    set_latest-linked :
        (i q : ℕ) (f : File)
        → IsClosed i q f
        → decoded_latest (apply (Store.set_latest (psmi_latest i q)) f) ≡ i
    unfolding apply
    set_latest-linked i q f o = ground (arith, psmi_latest_roundtrip n i q q few o.inside)

    notify_stores-IsSafe :
        (b : Bool) (w : Writer) (f : File)
        → IsReady w f
        → IsSafe n cap (IsReady w) (notify_stores b) f
    unfolding apply
    notify_stores-IsSafe true w f r = (tt, (tt, ground (arith, r.opened)))
    notify_stores-IsSafe false w f r = r

    pub commit_slot-IsSafe :
        (w : Writer) (f : File) (len now : ℕ)
        → IsOpened w.open_slot w.open_seq f
        → w.slot_count ≡ n
        → w.capacity ≡ cap
        → len ≤ cap
        → IsSafe n cap (IsReady (commit_slot w len now).1) (commit_slot w len now).0 f
    unfolding commit_slot
    commit_slot-IsSafe w f len now o c p h =
        let i : ℕ = w.open_slot in
        let q : ℕ = (w.open_seq + 2) % 2 ^ 32 in
        let o₁ = set_generation-IsOpened w.gen o in
        let o₂ = set_length-IsFilled len o₁ in
        let o₃ = set_timestamp_lo-IsFilled (now % 2 ^ 32) o₂ in
        let o₄ = set_timestamp_hi-IsFilled (now / 2 ^ 32) o₃ in
        let o₅ = set_seq-IsClosed h o₄ in
        (
          IsOpened-IsWritable o,
          (
            IsOpened-IsWritable o₁,
            (
              IsOpened-IsWritable o₂.opened,
              (
                IsOpened-IsWritable o₃.opened,
                (
                  (o.inside, o₄.opened.free, ground (arith, o₄)),
                  (
                    (i, ground (arith, o₅), ap (psmi_latest i) (sym o₅.closed)),
                    notify_stores-IsSafe w.notify _ _ (ready o₅),
                  ),
                ),
              ),
            ),
          ),
        )
      where
        ready :
            {f' : File}
            → IsClosed w.open_slot ((w.open_seq + 2) % 2 ^ 32) f'
            → IsReady
                (commit_slot w len now).1
                (apply (Store.set_latest (psmi_latest w.open_slot ((w.open_seq + 2) % 2 ^ 32))) f')
        ready {f'} o₅ = record {
          count_ok = c;
          capacity_ok = p;
          linked = sym (set_latest-linked w.open_slot ((w.open_seq + 2) % 2 ^ 32) f' o₅);
          opened = λ h. absurd (h refl);
        }

    pub copy_in-IsSafe :
        (i q : ℕ) (bytes : ℕ → ℕ) (k m : ℕ) (rest : List Store) (End : File → Type 0)
        → ((f : File) → IsOpened i q f → IsSafe n cap End rest f)
        → (f : File) → IsOpened i q f
        → IsSafe n cap End (copy_in i bytes k m ++ rest) f
    unfolding copy_in
    copy_in-IsSafe i q bytes k zero rest End after f o = after f o
    copy_in-IsSafe i q bytes k (suc m) rest End after f o = (
      IsOpened-IsWritable o,
      copy_in-IsSafe i q bytes (k + 1) m rest End after _ (set_byte-IsOpened k (bytes k) o),
    )
