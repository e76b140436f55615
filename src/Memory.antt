-- ===== src/Memory.antt =====
-- A mapped data file and the stores that a writer makes to it, one at a time: memory that other
-- processes read while it changes.
use ps_msgr.Prelude.{ℕ, ◌+◌, ◌%◌, ◌^◌, bit_or, List, [], ◌∷◌, update}
use ps_msgr.Layout.{Header, Slot}

pub record File : Type 0 where
  pub header : Header
  pub slots : ℕ → Slot

abbrev pub seq_at : File → ℕ → ℕ
seq_at f i = (f.slots i).seq

abbrev pub latest_of : File → ℕ
latest_of f = f.header.latest

-- One store, atomic or plain, or one atomic read-modify-write. `wake_all` is `futex_wake_all`, which
-- changes no memory.
pub data Store : Type 0 where
  set_seq : (i v : ℕ) → Store
  set_generation : (i v : ℕ) → Store
  set_timestamp_lo : (i v : ℕ) → Store
  set_timestamp_hi : (i v : ℕ) → Store
  set_length : (i v : ℕ) → Store
  set_byte : (i k v : ℕ) → Store
  set_latest : (v : ℕ) → Store
  add_notify : Store
  or_state : (v : ℕ) → Store
  wake_all : Store

abbrev set_slot : File → ℕ → Slot → File
set_slot f i s = record f { slots = update f.slots i s }

unfoldable pub apply : Store → File → File
apply (Store.set_seq i v) f = set_slot f i (record (f.slots i) { seq = v })
apply (Store.set_generation i v) f = set_slot f i (record (f.slots i) { generation = v })
apply (Store.set_timestamp_lo i v) f = set_slot f i (record (f.slots i) { timestamp_lo = v })
apply (Store.set_timestamp_hi i v) f = set_slot f i (record (f.slots i) { timestamp_hi = v })
apply (Store.set_length i v) f = set_slot f i (record (f.slots i) { length = v })
apply (Store.set_byte i k v) f =
    set_slot f i (record (f.slots i) { payload = update (f.slots i).payload k v })
apply (Store.set_latest v) f = record f { header = record f.header { latest = v } }
apply Store.add_notify f = record f {
  header = record f.header { notify = (f.header.notify + 1) % 2 ^ 32 };
}
apply (Store.or_state v) f = record f {
  header = record f.header { state = bit_or f.header.state v };
}
apply Store.wake_all f = f

-- The stores with no other process in between.
unfoldable pub apply_all : List Store → File → File
apply_all [] f = f
apply_all (a ∷ p) f = apply_all p (apply a f)
