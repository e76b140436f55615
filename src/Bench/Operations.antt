-- ===== src/Bench/Operations.antt =====
-- bench/psmsgr-bench.c: the operations that are timed. `none` is a call of `die`, which ends the process with
-- status 1 at once. A row that times nothing of the library has no handles, as `{ 0 }` says.
use ps_msgr.Prelude.{ℕ, ◌+◌, ◌%◌, not, Option, none, some, true, if◌then◌else◌}
use ps_msgr.Writer.{Writer, copy_in}
use ps_msgr.System.{Call}
use ps_msgr.Kernel.{Sys, Prog, ret, ◌>>=◌, ◌>>◌, sys}
use ps_msgr.Lock.{is_ok}
use ps_msgr.Opening.Writing.{writer_call}
use ps_msgr.Handle.{Handle, Got, read, peek}

infixl 5 ◌>>?◌
-- What follows a step, unless that one has ended the process.
abbrev pub ◌>>?◌ : {A B : Type 0} → Prog (Option A) → (A → Prog (Option B)) → Prog (Option B)
p >>? f = p >>= λ o. elim o [ none ↦ ret none | some a ↦ f a ]

-- `op_ctx`; `w` is NULL, or the handle with its mapping.
pub record OpCtx : Type 0 where
  pub w : Option (ℕ × Writer)
  pub r : Option Handle
  pub buf : ℕ → ℕ
  pub size : ℕ
  pub fill : ℕ

abbrev pub OpFn : Type 0
OpFn = OpCtx → Prog (Option OpCtx)

unfoldable pub op_nothing : OpFn
op_nothing c = ret (some c)

unfoldable pub op_clock_gettime : OpFn
op_clock_gettime c = do sys Sys.clock_monotonic; ret (some c)

unfoldable pub op_clock_syscall : OpFn
op_clock_syscall c = do sys Sys.clock_monotonic; ret (some c)

unfoldable pub op_getppid : OpFn
op_getppid c = do sys Sys.getppid; ret (some c)

unfoldable pub op_now : OpFn
op_now c = do sys Sys.clock_monotonic; ret (some c)

-- A call of the writer that has to succeed; NULL is an error.
unfoldable pub must : OpCtx → Option (ℕ × Writer) → (ℕ → Call) → Prog (Option OpCtx)
must c none call = ret none
must c (some (map, w)) call = do
  x ← writer_call map w call
  if not (is_ok x.0) then ret none else ret (some (record c { w = some (map, x.1) }))

unfoldable pub op_publish : OpFn
op_publish c = must c c.w (λ now. Call.publishes (some c.buf) c.size now)

abbrev pub next_fill : OpCtx → OpCtx
next_fill c = record c { fill = (c.fill + 1) % 256 }

unfoldable pub op_fill_publish : OpFn
op_fill_publish c = op_publish (record c { buf = λ _. c.fill; fill = (c.fill + 1) % 256 })

-- `memset` of the open slot's payload.
unfoldable pub fill_slot : OpCtx → Option (ℕ × Writer) → Prog (Option OpCtx)
fill_slot c none = ret none
fill_slot c (some (map, w)) = do
  sys (Sys.make_stores map (copy_in w.open_slot (λ _. c.fill) 0 c.size))
  ret (some (next_fill c))

unfoldable pub op_begin_fill_commit : OpFn
op_begin_fill_commit c =
    must c c.w (λ _. Call.begins true)
    >>? (λ b. fill_slot b b.w >>? (λ f. must f f.w (λ now. Call.commits_with f.size now)))

unfoldable pub op_begin_commit : OpFn
op_begin_commit c =
    must c c.w (λ _. Call.begins true) >>? (λ b. must b b.w (λ now. Call.commits_with b.size now))

unfoldable pub got : OpCtx → Got → Prog (Option OpCtx)
got c g =
    if not (is_ok g.rc) then ret none else ret (some (record c { r = some g.handle; buf = g.buf }))

-- `psmsgr_state_read` of NULL is an error, and so is a peek.
unfoldable pub read_with : OpCtx → Option Handle → Prog (Option OpCtx)
read_with c none = ret none
read_with c (some r) = do g ← read r true true c.buf c.size; got c g

unfoldable pub peek_with : OpCtx → Option Handle → Prog (Option OpCtx)
peek_with c none = ret none
peek_with c (some r) = do g ← peek r true c.buf; got c g

unfoldable pub op_read : OpFn
op_read c = read_with c c.r

unfoldable pub op_peek : OpFn
op_peek c = peek_with c c.r
