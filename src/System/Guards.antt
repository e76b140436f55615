-- ===== src/System/Guards.antt =====
-- What each store of the writer relies on, and that a store made so keeps the file readable.
use ps_msgr.Prelude.{ℕ, ◌+◌, ◌*◌, ◌/◌, ◌%◌, ◌^◌, ◌≤◌, ◌<◌, ◌≡◌, ◌≢◌, ◌⊎◌, List, [], ◌∷◌, arith}
use ps_msgr.Layout.{latest_none, psmi_latest, psmi_latest_slot}
use ps_msgr.Layout.Latest.{psmi_latest_roundtrip}
use ps_msgr.Memory.{File, seq_at, latest_of, Store, apply}
use ps_msgr.System.{System, execute}

-- `latest` does not name the slot.
abbrev pub IsFree : File → ℕ → Type 0
IsFree f i = latest_of f ≢ latest_none → psmi_latest_slot (latest_of f) ≢ i

-- A begin makes `seq` odd; only a commit, of a slot that is odd, makes it even.
abbrev pub IsSeqStep : (q v : ℕ) → Type 0
IsSeqStep q v = (v ≡ q / 2 * 2 + 1) ⊎ ((q % 2 ≡ 1) × (v ≡ (q + 1) % 2 ^ 32))

module _ (n cap : ℕ) where
  abbrev pub IsWritable : File → ℕ → Type 0
  IsWritable f i = (i < n) × IsFree f i × (seq_at f i % 2 ≡ 1)

  -- `latest` may name a slot that is readable and holds a value that fits.
  abbrev pub IsReadable : File → ℕ → Type 0
  IsReadable f i = (i < n) × (seq_at f i % 2 ≡ 0) × ((f.slots i).length ≤ cap)

  abbrev pub Guard : Store → File → Type 0
  Guard (Store.set_seq i v) f = (i < n) × IsFree f i × IsSeqStep (seq_at f i) v
  Guard (Store.set_generation i v) f = IsWritable f i
  Guard (Store.set_timestamp_lo i v) f = IsWritable f i
  Guard (Store.set_timestamp_hi i v) f = IsWritable f i
  Guard (Store.set_length i v) f = IsWritable f i
  Guard (Store.set_byte i k v) f = IsWritable f i
  Guard (Store.set_latest v) f = (i : ℕ) × IsReadable f i × (v ≡ psmi_latest i (seq_at f i))
  Guard Store.add_notify f = Unit
  Guard (Store.or_state v) f = Unit
  Guard Store.wake_all f = Unit

  -- Every store of a program meets its guard, and the program ends in `End`.
  abbrev pub IsSafe : (File → Type 0) → List Store → File → Type 0
  IsSafe End [] f = End f
  IsSafe End (a ∷ p) f = Guard a f × IsSafe End p (apply a f)

  -- `latest` is NONE, or names a readable slot by that slot's own `seq`.
  abbrev pub IsLive : File → Type 0
  IsLive f =
      latest_of f ≢ latest_none
      → IsReadable f (psmi_latest_slot (latest_of f))
        × (latest_of f
            ≡ psmi_latest (psmi_latest_slot (latest_of f))
                (seq_at f (psmi_latest_slot (latest_of f))))

  -- A slot's `seq` is a 32-bit word that holds the slot's commits, modulo 2^31, above its low bit.
  abbrev pub IsCounted : (System) → Type 0
  IsCounted s =
      (i : ℕ) → i < n → (seq_at s.file i < 2 ^ 32) × (seq_at s.file i / 2 ≡ s.commits i % 2 ^ 31)

  module _ (few : n < 17) where
    pub apply-IsLive : (a : Store) (f : File) → Guard a f → IsLive f → IsLive (apply a f)
    unfolding apply
    apply-IsLive (Store.set_seq i v) f g l h = ground (arith, l h, g.1 h)
    apply-IsLive (Store.set_generation i v) f g l h = ground (arith, l h, g.1 h)
    apply-IsLive (Store.set_timestamp_lo i v) f g l h = ground (arith, l h, g.1 h)
    apply-IsLive (Store.set_timestamp_hi i v) f g l h = ground (arith, l h, g.1 h)
    apply-IsLive (Store.set_length i v) f g l h = ground (arith, l h, g.1 h)
    apply-IsLive (Store.set_byte i k v) f g l h = ground (arith, l h, g.1 h)
    apply-IsLive (Store.set_latest v) f (i, r, e) l h =
        ground (arith, psmi_latest_roundtrip n i (seq_at f i) (seq_at f i) few r.0)
    apply-IsLive Store.add_notify f g l h = l h
    apply-IsLive (Store.or_state v) f g l h = l h
    apply-IsLive Store.wake_all f g l h = l h

    pub execute-IsCounted :
        (a : Store) (rest : List Store) (s : System)
        → Guard a s.file
        → IsCounted s
        → IsCounted (execute a rest s)
    unfolding execute apply
    execute-IsCounted (Store.set_seq i v) rest s g c j lt = ground (arith, c j lt)
    execute-IsCounted (Store.set_generation i v) rest s g c j lt = ground (arith, c j lt)
    execute-IsCounted (Store.set_timestamp_lo i v) rest s g c j lt = ground (arith, c j lt)
    execute-IsCounted (Store.set_timestamp_hi i v) rest s g c j lt = ground (arith, c j lt)
    execute-IsCounted (Store.set_length i v) rest s g c j lt = ground (arith, c j lt)
    execute-IsCounted (Store.set_byte i k v) rest s g c j lt = ground (arith, c j lt)
    execute-IsCounted (Store.set_latest v) rest s g c j lt = c j lt
    execute-IsCounted Store.add_notify rest s g c j lt = c j lt
    execute-IsCounted (Store.or_state v) rest s g c j lt = c j lt
    execute-IsCounted Store.wake_all rest s g c j lt = c j lt
