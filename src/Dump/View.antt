-- ===== src/Dump/View.antt =====
-- tools/psmsgr-dump.c: the view through the library. The terminal's control sequences are left out.
use ps_msgr.Prelude.{
  ℕ, zero, suc, ◌+◌, ◌-◌, ◌*◌, Bool, true, false, not, Option, none, some, List, [], ◌∷◌, ◌++◌, ltb,
  ◌==◌, if◌then◌else◌,
}
use ps_msgr.Result.{Rc}
use ps_msgr.Reader.{Info}
use ps_msgr.Kernel.{Sys, Prog, ret, ◌>>=◌, sys}
use ps_msgr.Lock.{is_ok}
use ps_msgr.Handle.{Handle, Got, refused, read, peek}
use ps_msgr.Handle.Queries.{Liveness, desc_bytes, describe_sized, writer_alive}
use ps_msgr.Dump.Format.{Duration, fmt_age, hexdump}
use ps_msgr.Dump.Raw.{Raw, dump_raw}

abbrev pub busy_retries : ℕ
busy_retries = 16

abbrev pub hex_max : ℕ
hex_max = 1024

abbrev pub is_busy : Rc → Bool
is_busy Rc.busy = true
is_busy _ = false

-- Calls of the library, at most so many, until one is not busy.
unfoldable pub retries : ℕ → (Handle → Prog Got) → Got → Prog Got
retries zero op g = ret g
retries (suc k) op g =
    let rest : (Got → Prog Got) = retries k op in
    if is_busy g.rc then (do g' ← op g.handle; rest g') else ret g

unfoldable pub peek_retries : Handle → Prog Got
peek_retries r = retries busy_retries (λ r'. peek r' true (λ _. 0)) (refused Rc.busy (λ _. 0) r)

-- The lines of the view. A duration in place of an age is `none` for a time in the future.
pub data Shown : Type 0 where
  writer_line : Liveness → Shown
  value_line : (generation length : ℕ) (age : Option Duration) → Shown
  payload_line : (generation length : ℕ) → Shown
  no_value no_payload : Rc → Shown
  no_memory : Shown
  row_line : List ℕ → Shown
  more_line : (bytes : ℕ) → Shown

unfoldable pub print_liveness : Handle → Prog (List Shown × Handle)
print_liveness r = do a ← writer_alive r; ret (writer_line a.0 ∷ [], a.1)

abbrev pub value_of : Option Info → (now : ℕ) → List Shown
value_of none now = []
value_of (some i) now = value_line i.generation i.length (fmt_age i.timestamp_ns now) ∷ []

unfoldable pub print_value : Handle → Prog (List Shown × Handle)
print_value r = do
  g ← peek_retries r
  if not (is_ok g.rc)
      then ret (no_value g.rc ∷ [], g.handle)
      else (do t ← sys Sys.clock_monotonic; ret (value_of g.info t.value, g.handle))

abbrev pub rows_of : List (List ℕ) → List Shown
rows_of [] = []
rows_of (x ∷ xs) = row_line x ∷ rows_of xs

unfoldable pub payload_of : Option Info → (buf : ℕ → ℕ) → List Shown
payload_of none buf = []
payload_of (some i) buf =
    payload_line i.generation i.length
    ∷ (rows_of (hexdump buf (if ltb i.length hex_max then i.length else hex_max))
        ++ (if ltb hex_max i.length then more_line (i.length - hex_max) ∷ [] else []))

-- The capacity in the description's bytes.
abbrev pub capacity_of : (ℕ → ℕ) → ℕ
capacity_of desc = desc 0 + 256 * (desc 1 + 256 * (desc 2 + 256 * desc 3))

-- The payload is copied whole into a buffer of the channel's capacity.
unfoldable pub print_payload : Handle → (capacity : ℕ) → Prog (List Shown × Handle)
print_payload r capacity = do
  g ←
      retries busy_retries (λ r'. read r' (not (capacity == 0)) true (λ _. 0) capacity)
        (refused Rc.busy (λ _. 0) r)
  ret (if is_ok g.rc then payload_of g.info g.buf else no_payload g.rc ∷ [], g.handle)

unfoldable pub print_hex : Handle → Prog (List Shown × Handle)
print_hex r = do
  d ← describe_sized r true (λ _. 0) desc_bytes
  if not (is_ok d.0)
      then ret (no_payload d.0 ∷ [], d.1)
      else if capacity_of d.2 == 0
      then print_payload d.1 0
      else (do
        m ← sys (Sys.malloc (capacity_of d.2))
        if not m.okay then ret (no_memory ∷ [], d.1) else print_payload d.1 (capacity_of d.2))

-- The exit status, what was printed, and the handle.
pub record Dumped : Type 0 where
  pub status : ℕ
  pub raw : Raw
  pub shown : List Shown
  pub handle : Handle

unfoldable pub print_values : Handle → (hex : Bool) → Prog (List Shown × Handle)
print_values r hex = do
  v ← print_value r
  if not hex then ret v else (do x ← print_hex v.1; ret (v.0 ++ x.0, x.1))

unfoldable pub dump : Handle → (hex : Bool) → (path : List ℕ) → Prog Dumped
dump r hex path = do
  raw ← dump_raw path
  l ← print_liveness r
  if not raw.read_ok
      then ret (record { status = raw.status; raw = raw; shown = l.0; handle = l.1 })
      else (do
        v ← print_values l.1 hex
        ret (record { status = raw.status; raw = raw; shown = l.0 ++ v.0; handle = v.1 }))
