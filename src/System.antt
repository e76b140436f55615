-- ===== src/System.antt =====
-- One writer process over a mapped data file, a store at a time: calls of the API, bytes that the
-- caller writes between `begin` and `commit`, and crashes at any point. Every reader of the file runs
-- beside these steps.
pub mod Guards
pub mod Programs
pub mod Soundness
pub mod Later
pub mod Value
pub mod Publish
pub mod Timeline
pub mod Notifying
pub mod Wakeups
pub mod Whole
use ps_msgr.Prelude.{
  ℕ, ◌+◌, ◌/◌, ◌%◌, ◌<◌, ◌≡◌, ◌≢◌, Bool, Option, none, some, List, [], ◌∷◌, ◌==◌, if◌then◌else◌,
  update,
}
use ps_msgr.Layout.{Header, latest_none, psmi_latest_slot}
use ps_msgr.Memory.{File, latest_of, Store, apply}
use ps_msgr.Writer.{
  Writer, Outcome, publish, begin, commit, abort, writer_attach, carried_generation,
}

-- `pending` holds the stores that the call in progress has still to make. `commits` counts, for each
-- slot, the stores of an even `seq`; it never wraps, and no code reads it.
pub record System : Type 0 where
  pub file : File
  pub writer : Writer
  pub pending : List Store
  pub commits : ℕ → ℕ

abbrev count_commit : Store → (ℕ → ℕ) → ℕ → ℕ
count_commit (Store.set_seq i v) c = if v % 2 == 0 then update c i (c i + 1) else c
count_commit _ c = c

unfoldable pub execute : Store → List Store → System → System
execute a rest s = record s {
  file = apply a s.file;
  pending = rest;
  commits = count_commit a s.commits;
}

pub data Call : Type 0 where
  publishes : (bytes : Option (ℕ → ℕ)) (len now : ℕ) → Call
  begins : (has_buf : Bool) → Call
  commits_with : (len now : ℕ) → Call
  aborts : Call

unfoldable pub outcome : Call → Writer → File → Outcome
outcome (publishes bytes len now) w f = publish (some w) bytes len now f
outcome (begins has_buf) w f = begin (some w) has_buf f
outcome (commits_with len now) w f = commit (some w) len now
outcome aborts w f = abort (some w)

abbrev pub handle : Writer → Option Writer → Writer
handle w none = w
handle w (some w') = w'

unfoldable pub start_call : Call → System → System
start_call c s =
    let o : Outcome = outcome c s.writer s.file in
    record s { pending = o.stores; writer = handle s.writer o.writer }

-- The slot of the latest value, as `open_data` decodes it.
abbrev pub decoded_latest : File → ℕ
decoded_latest f =
    if latest_of f == latest_none then latest_none else psmi_latest_slot (latest_of f)

-- A new writer process opens the channel that a writer left behind, whatever that one was doing, and
-- reuses its file. The new handle `w` is zero but for its lock.
unfoldable pub reopen : Writer → (map_size random : ℕ) → System → System
reopen w map_size random s = record s {
  pending = [];
  writer =
      let latest : ℕ = decoded_latest s.file in
      writer_attach w map_size s.file.header latest (carried_generation s.file latest random);
}

pub data Step : System → System → Type 0 where
  stores :
      (s : System) (a : Store) (rest : List Store)
      → s.pending ≡ a ∷ rest
      → Step s (execute a rest s)
  calls : (s : System) (c : Call) → s.pending ≡ [] → Step s (start_call c s)
  fills :
      (s : System) (k v : ℕ)
      → s.pending ≡ []
      → s.writer.open_slot ≢ latest_none
      → k < s.writer.capacity
      → Step s (record s { file = apply (Store.set_byte s.writer.open_slot k v) s.file })
  crashes : (s : System) (w : Writer) (map_size random : ℕ) → Step s (reopen w map_size random s)

pub data Run (s : System) : System → Type 0 where
  none_yet : Run s s
  next : {t u : System} → Run s t → Step t u → Run s u
