-- ===== src/Writer.antt =====
-- src/state.c: the writer's handle and its operations on the mapped file. An operation returns the
-- stores that it makes, in program order, so that a reader may run between any two of them.
use ps_msgr.Prelude.{
  ℕ, zero, suc, ◌+◌, ◌/◌, ◌%◌, ◌^◌, Bool, true, false, ◌&&◌, not, Option, none, some, List, [], ◌∷◌,
  ◌++◌, bit_and, ltb, ◌==◌, if◌then◌else◌,
}
use ps_msgr.Layout.{Header, latest_none, config_no_notify, psmi_latest}
use ps_msgr.Memory.{File, seq_at, Store}
use ps_msgr.Result.{Rc}
use ps_msgr.Generation.{next_generation}

-- `struct psmsgr_state_writer`; `hdr` is the file that the operations are given.
pub record Writer : Type 0 where
  pub map_size : ℕ
  pub slot_count : ℕ
  pub slot_stride : ℕ
  pub capacity : ℕ
  pub notify : Bool
  pub latest : ℕ
  pub gen : ℕ
  pub open_slot : ℕ
  pub open_seq : ℕ
  pub lock_fd : ℕ

-- What a call returns, the stores that it makes, the handle after it, and what it writes to
-- `*generation` if that is not NULL.
pub record Outcome : Type 0 where
  pub rc : Rc
  pub stores : List Store
  pub writer : Option Writer
  pub generation : Option ℕ

abbrev pub fail : Rc → Option Writer → Outcome
fail rc w = record { rc = rc; stores = []; writer = w; generation = none }

-- `geom` is the validated header; the fields that are not set stay as they were.
unfoldable pub writer_attach : Writer → ℕ → Header → (latest gen : ℕ) → Writer
writer_attach w map_size geom latest gen = record w {
  map_size = map_size;
  slot_count = geom.slot_count;
  slot_stride = geom.slot_stride;
  capacity = geom.capacity;
  notify = bit_and geom.config_flags config_no_notify == 0;
  latest = latest;
  gen = gen;
  open_slot = latest_none;
}

-- `random` is the value of the call of `random_generation`.
unfoldable pub carried_generation : File → (latest random : ℕ) → ℕ
carried_generation f latest random =
    if latest == latest_none then random else next_generation (f.slots latest).generation

-- The slot after the latest one; never the latest one itself.
unfoldable pub target : Writer → ℕ
target w = if w.latest == latest_none then 0 else (w.latest + 1) % 2 ^ 32 % w.slot_count

-- The mask is `~1u`. The buffer that the C function returns is slot `open_slot`'s payload.
unfoldable pub begin_slot : Writer → File → List Store × Writer
begin_slot w f =
    let i : ℕ = target w in
    let q : ℕ = bit_and (seq_at f i) 0xFFFFFFFE in
    (Store.set_seq i ((q + 1) % 2 ^ 32) ∷ [], record w { open_slot = i; open_seq = q })

abbrev pub notify_stores : Bool → List Store
notify_stores true = Store.add_notify ∷ Store.wake_all ∷ []
notify_stores false = []

-- `now` is the value of the call of `psmi_clock_ns`.
unfoldable pub commit_slot : Writer → (len now : ℕ) → List Store × Writer × ℕ
commit_slot w len now =
    let i : ℕ = w.open_slot in
    let q : ℕ = (w.open_seq + 2) % 2 ^ 32 in
    (
      Store.set_generation i w.gen
          ∷ Store.set_length i len
          ∷ Store.set_timestamp_lo i (now % 2 ^ 32)
          ∷ Store.set_timestamp_hi i (now / 2 ^ 32)
          ∷ Store.set_seq i q
          ∷ Store.set_latest (psmi_latest i q)
          ∷ notify_stores w.notify,
      record w { latest = i; open_slot = latest_none; gen = next_generation w.gen },
      w.gen,
    )

-- `psmi_seq_copy` into a slot: `n` bytes from offset `k` on, in ascending order.
unfoldable pub copy_in : (i : ℕ) → (ℕ → ℕ) → (k n : ℕ) → List Store
copy_in i bytes k zero = []
copy_in i bytes k (suc n) = Store.set_byte i k (bytes k) ∷ copy_in i bytes (k + 1) n

abbrev pub bytes_of : Option (ℕ → ℕ) → ℕ → ℕ
bytes_of none k = 0
bytes_of (some bytes) k = bytes k

abbrev pub is_null {ℓ} : {A : Type ℓ} → Option A → Bool
is_null none = true
is_null (some _) = false

unfoldable pub committed : List Store → List Store × Writer × ℕ → Outcome
committed before (stores, w, gen) = record {
  rc = Rc.ok;
  stores = before ++ stores;
  writer = some w;
  generation = some gen;
}

unfoldable pub publish : Option Writer → Option (ℕ → ℕ) → (len now : ℕ) → File → Outcome
unfolding committed
publish none bytes len now f = fail Rc.inval none
publish (some w) bytes len now f =
    if is_null bytes && not (len == 0)
    then fail Rc.inval (some w)
    else if not (w.open_slot == latest_none)
    then fail Rc.state (some w)
    else if ltb w.capacity len
    then fail Rc.toobig (some w)
    else let (opening, w') = begin_slot w f in
      committed (opening ++ copy_in w'.open_slot (bytes_of bytes) 0 len) (commit_slot w' len now)

-- `psmsgr_state_begin`; `has_buf` says that `buf` is not NULL.
unfoldable pub begin : Option Writer → (has_buf : Bool) → File → Outcome
begin none has_buf f = fail Rc.inval none
begin (some w) has_buf f =
    if not has_buf
    then fail Rc.inval (some w)
    else if not (w.open_slot == latest_none)
    then fail Rc.state (some w)
    else let (stores, w') = begin_slot w f in
      record { rc = Rc.ok; stores = stores; writer = some w'; generation = none }

unfoldable pub commit : Option Writer → (len now : ℕ) → Outcome
unfolding committed
commit none len now = fail Rc.inval none
commit (some w) len now =
    if w.open_slot == latest_none
    then fail Rc.state (some w)
    else if ltb w.capacity len
    then fail Rc.toobig (some w)
    else committed [] (commit_slot w len now)

unfoldable pub abort : Option Writer → Outcome
abort none = fail Rc.inval none
abort (some w) = if w.open_slot == latest_none then fail Rc.state (some w) else record {
  rc = Rc.ok;
  stores = [];
  writer = some (record w { open_slot = latest_none });
  generation = none;
}

unfoldable pub writer_capacity : Option Writer → ℕ
writer_capacity none = 0
writer_capacity (some w) = w.capacity

unfoldable pub writer_set_generation : Writer → ℕ → Writer
writer_set_generation w next = record w { gen = next }
