-- ===== src/Bench/Working.antt =====
-- The operations of the benchmark's writer, on a channel that it has to itself.
use ps_msgr.Prelude.{ℕ, ◌≤◌, ◌≡◌, ◌≢◌, ap, true, Option, none, some, arith}
use ps_msgr.Layout.{latest_none}
use ps_msgr.Memory.{File, apply_all}
use ps_msgr.Writer.{Writer}
use ps_msgr.System.{Call, outcome, handle}
use ps_msgr.System.Whole.{IsIdle, publish-IsIdle, begin-IsIdle, copy_in-IsIdle, commit-IsIdle}
use ps_msgr.Kernel.{Sys, Answer, Prog, ret}
use ps_msgr.Kernel.Monitor.{Ends, Ends-then}
use ps_msgr.Lock.{is_ok}
use ps_msgr.Opening.Writing.{writer_call}
use ps_msgr.Bench.Operations.{
  ◌>>?◌, OpCtx, OpFn, must, op_publish, op_fill_publish, fill_slot, op_begin_fill_commit,
  op_begin_commit,
}

-- The process alone stores to the channel's file, and there is memory.
abbrev pub stores_to : Sys → Answer → File → File
stores_to (Sys.make_stores _ stores) a f = apply_all stores f
stores_to _ a f = f

abbrev pub FindsFile : Sys → Answer → File → Type 0
FindsFile (Sys.enter _) a f = a.file ≡ f
FindsFile (Sys.malloc _) a f = a.okay ≡ true
FindsFile _ a f = Unit

-- Of a process that goes on.
abbrev pub Still {ℓ} : {A : Type ℓ} → (File → A → Type 0) → File → Option A → Type 0
Still P f none = ⊥
Still P f (some a) = P f a

module _ (n cap : ℕ) where
  -- The channel is open, and the slot is as `P` says; a payload fits.
  abbrev pub HasWriter : (P : Writer → Type 0) → File → (size : ℕ) → Option (ℕ × Writer) → Type 0
  HasWriter P f size none = ⊥
  HasWriter P f size (some (map, w)) = IsIdle n cap f w × P w × (size ≤ cap)

  abbrev pub Closed : Writer → Type 0
  Closed w = w.open_slot ≡ latest_none

  abbrev HasSlot : Writer → Type 0
  HasSlot w = w.open_slot ≢ latest_none

  abbrev pub Has : (P : Writer → Type 0) → File → OpCtx → Type 0
  Has P f c = HasWriter P f c.size c.w

  -- The process goes on.
  abbrev pub GoesOn : (P : Writer → Type 0) → File → Option OpCtx → Type 0
  GoesOn P f o = Still (Has P) f o

  must-Ends :
      (P Q : Writer → Type 0) (c : OpCtx) (call : ℕ → Call)
      → ((now : ℕ) (w : Writer) (f : File)
          → IsIdle n cap f w
          → P w
          → c.size ≤ cap
          → let o = outcome (call now) w f in
            (is_ok o.rc ≡ true)
            × IsIdle n cap (apply_all o.stores f) (handle w o.writer)
            × Q (handle w o.writer))
      → (f : File) (w : Option (ℕ × Writer)) → HasWriter P f c.size w
      → Ends stores_to FindsFile (GoesOn Q) f (must c w call)
  unfolding must writer_call
  must-Ends P Q c call works f none h = absurd h
  must-Ends P Q c call works f (some (map, w)) h =
      λ a e _ _. (let d = works a.value w f h.0 h.1 h.2 in rw (e, d.0) (d.1, d.2, h.2))

  pub then_op :
      (P Q : Writer → Type 0) (f : File) (p : Prog (Option OpCtx)) (g : OpFn)
      → Ends stores_to FindsFile (GoesOn P) f p
      → ((f' : File) (c : OpCtx) → Has P f' c → Ends stores_to FindsFile (GoesOn Q) f' (g c))
      → Ends stores_to FindsFile (GoesOn Q) f (p >>? g)
  then_op P Q f p g e next = Ends-then stores_to FindsFile (GoesOn P) (GoesOn Q) f p _ e go
    where
      go :
          (f' : File) (o : Option OpCtx)
          → GoesOn P f' o
          → Ends stores_to FindsFile (GoesOn Q) f' (elim o [ none ↦ ret none | some a ↦ g a ])
      go f' none k = absurd k
      go f' (some c) k = next f' c k

  publish-Ends :
      (f : File) (c : OpCtx)
      → Has Closed f c
      → Ends stores_to FindsFile (GoesOn Closed) f (op_publish c)
  unfolding op_publish outcome
  publish-Ends f c h =
      must-Ends Closed Closed c _
        (λ now w f' i closed le.
          (let d = publish-IsIdle w c.buf c.size now f' i closed le in (ap is_ok d.0, d.1, d.2)))
        f c.w h

  begin-Ends :
      (f : File) (c : OpCtx)
      → Has Closed f c
      → Ends stores_to FindsFile (GoesOn HasSlot) f (must c c.w (λ _. Call.begins true))
  unfolding outcome
  begin-Ends f c h =
      must-Ends Closed HasSlot c _
        (λ now w f' i closed le. (let d = begin-IsIdle w f' i closed in (ap is_ok d.0, d.1, d.2))) f
        c.w h

  commit-Ends :
      (f : File) (c : OpCtx)
      → Has HasSlot f c
      → Ends stores_to FindsFile
          (GoesOn Closed)
          f
          (must c c.w (λ now. Call.commits_with c.size now))
  unfolding outcome
  commit-Ends f c h =
      must-Ends HasSlot Closed c _
        (λ now w f' i opened le.
          (let d = commit-IsIdle w c.size now f' i opened le in (ap is_ok d.0, d.1, d.2)))
        f c.w h

  fill_slot-Ends :
      (f : File) (c : OpCtx) (w : Option (ℕ × Writer))
      → HasWriter HasSlot f c.size w
      → Ends stores_to FindsFile (GoesOn HasSlot) f (fill_slot (record c { w = w }) w)
  unfolding fill_slot
  fill_slot-Ends f c none h = absurd h
  fill_slot-Ends f c (some (map, w)) h =
      λ _ _. (copy_in-IsIdle w (λ _. c.fill) 0 c.size f h.0 h.1 (omega (arith, h.2)), h.1, h.2)

  -- On a channel that the process has to itself, and whose payloads fit, no writer operation of the benchmark
  -- makes it `die`: each returns, and leaves the channel sound and without an open slot, ready for the next.
  pub op_writer-Ends :
      (f : File) (c : OpCtx)
      → Has Closed f c
      → Ends stores_to FindsFile (GoesOn Closed) f (op_publish c)
        × Ends stores_to FindsFile (GoesOn Closed) f (op_fill_publish c)
        × Ends stores_to FindsFile (GoesOn Closed) f (op_begin_fill_commit c)
        × Ends stores_to FindsFile (GoesOn Closed) f (op_begin_commit c)
  unfolding op_fill_publish op_begin_fill_commit op_begin_commit
  op_writer-Ends f c h = (
    publish-Ends f c h,
    publish-Ends f (record c { buf = λ _. c.fill; fill = _ }) h,
    then_op HasSlot Closed f _ _ (begin-Ends f c h)
        (λ f' b k. then_op HasSlot Closed f' _ _ (fill_slot-Ends f' b b.w k) commit-Ends),
    then_op HasSlot Closed f _ _ (begin-Ends f c h) commit-Ends,
  )
