-- ===== src/Dump/Exiting.antt =====
-- What the tool holds while it watches, and when it exits.
use ps_msgr.Prelude.{
  ℕ, zero, suc, ◌≡◌, refl, sym, subst, Bool, true, false, ◌||◌, not, Option, none, some, List,
  Bool-cases, inl, inr,
}
use ps_msgr.Result.{Rc}
use ps_msgr.Name.{Paths, name_valid, paths_init}
use ps_msgr.Kernel.{Prog, ret, ◌>>◌}
use ps_msgr.Kernel.Resources.{Held, Ensures, Ensures-mono, Ensures-then}
use ps_msgr.Kernel.Texts.{make_paths, is_empty_dir}
use ps_msgr.Lock.Discipline.{bare}
use ps_msgr.Handle.{Handle, fresh_handle, reader_open, reader_close}
use ps_msgr.Handle.Wait.{wait}
use ps_msgr.Handle.Discipline.{owned, Keeps, reader_close-Ensures}
use ps_msgr.Handle.Calls.{Waited, wait-Ensures}
use ps_msgr.Handle.Queries.{writer_alive}
use ps_msgr.Dump.View.{peek_retries, dump}
use ps_msgr.Dump.Watch.{
  WatchKey, watch_key_of, watch_key_equal, polls, pause, watch_timeout_ms, watch_change,
  watch_screens, watch,
}
use ps_msgr.Dump.Main.{Arguments, path_of, show, main_opened, main}
use ps_msgr.Dump.Discipline.{
  Leaves, Leaves-then, writer_alive-Leaves, peek_retries-Leaves, dump-Leaves,
}

module _ (fds maps : List ℕ) where
  watch_key_of-Leaves :
      (r : Handle) → (path : List ℕ) → Leaves fds maps (λ x. x.1) r (watch_key_of r path)
  unfolding watch_key_of
  watch_key_of-Leaves r path = (
    tt,
    λ st _.
        Leaves-then fds maps (λ g. g.handle) (λ x. x.1) r (peek_retries r) _
          (peek_retries-Leaves fds maps r)
          (λ g.
            Leaves-then fds maps (λ x. x.1) (λ x. x.1) g.handle (writer_alive g.handle) _
              (writer_alive-Leaves fds maps g.handle) (λ a. refl)),
  )

  paused :
      {A : Type 0}
      → (h : A → Handle) → (r : Handle) → (b : Bool) → (p : Prog A) → Leaves fds maps h r p
      → Leaves fds maps h r (pause b >> p)
  unfolding pause
  paused h r true p e = (tt, λ a _. e)
  paused h r false p e = e

  watch_change-Leaves :
      (k : ℕ)
      → (key next : WatchKey) → (r : Handle) → (path : List ℕ)
      → Leaves fds maps (λ x. x.1) r (watch_change k key next r path)
  unfolding watch_change
  watch_change-Leaves zero key next r path = tt
  watch_change-Leaves (suc k) key next r path = (
    tt,
    λ s _. elim (Bool-cases (s.okay || not (watch_key_equal next key))) [
      | inl e ↦ rw e refl
      | inr e ↦ rw e (
          Leaves-then fds maps (λ w. w.1) (λ x. x.1) r
            (wait k r key.generation (some watch_timeout_ms)) _
            (Ensures-mono (Waited fds maps) (λ held w. Keeps fds maps held w.1)
              (owned fds maps r.hdr) (wait k r key.generation (some watch_timeout_ms))
              (λ held w x. x.0) (wait-Ensures fds maps k r key.generation (some watch_timeout_ms)))
            (λ w.
              paused (λ x. x.1) w.1 (polls w.0) _
                (
                  tt,
                  λ s' _. elim (Bool-cases s'.okay) [
                    | inl o ↦ rw o (watch_change-Leaves k key next w.1 path)
                    | inr o ↦ rw o (
                        Leaves-then fds maps (λ x. x.1) (λ x. x.1) w.1 (watch_key_of w.1 path) _
                          (watch_key_of-Leaves w.1 path)
                          (λ x. watch_change-Leaves k key x.0 x.1 path))
                  ],
                )))
    ],
  )

  watch_screens-Leaves :
      (k : ℕ)
      → (key : WatchKey) → (r : Handle) → (hex : Bool) → (path : List ℕ)
      → Leaves fds maps (λ x. x.1) r (watch_screens k key r hex path)
  unfolding watch_screens
  watch_screens-Leaves zero key r hex path = tt
  watch_screens-Leaves (suc k) key r hex path = (
    tt,
    λ s _. elim (Bool-cases s.okay) [
      | inl e ↦ rw e refl
      | inr e ↦ rw e (
          Leaves-then fds maps (λ d. d.handle) (λ x. x.1) r (dump r hex path) _
            (dump-Leaves fds maps r hex path)
            (λ d.
              Leaves-then fds maps (λ n. n.1) (λ x. x.1) d.handle
                (watch_change k key key d.handle path) _
                (watch_change-Leaves k key key d.handle path)
                (λ n.
                  Leaves-then fds maps (λ t. t.1) (λ x. x.1) n.1 (watch_screens k n.0 n.1 hex path)
                    _ (watch_screens-Leaves k n.0 n.1 hex path) (λ t. refl))))
    ],
  )

  watch-Leaves :
      (k : ℕ)
      → (r : Handle) → (hex : Bool) → (path : List ℕ)
      → Leaves fds maps (λ x. x.1) r (watch k r hex path)
  unfolding watch
  watch-Leaves k r hex path =
      Leaves-then fds maps (λ x. x.1) (λ x. x.1) r (watch_key_of r path) _
        (watch_key_of-Leaves r path) (λ x. watch_screens-Leaves k x.0 x.1 hex path)

  show-Leaves :
      (k : ℕ)
      → (r : Handle) → (o : Arguments) → (path : List ℕ)
      → Leaves fds maps (λ x. x.1) r (show k r o path)
  unfolding show
  show-Leaves k r o path = elim (Bool-cases o.watch) [
    | inl e ↦ rw e (
        Leaves-then fds maps (λ x. x.1) (λ x. x.1) r (watch k r o.hex path) _
          (watch-Leaves k r o.hex path) (λ x. refl))
    | inr e ↦ rw e (
        Leaves-then fds maps (λ d. d.handle) (λ x. x.1) r (dump r o.hex path) _
          (dump-Leaves fds maps r o.hex path) (λ d. refl))
  ]

  abbrev pub Clean : Held → ℕ → Type 0
  Clean held status = held ≡ bare fds maps

  closes :
      (r : Handle)
      → (status : ℕ) → Ensures Clean (owned fds maps r.hdr) (reader_close (some r) >> ret status)
  closes r status =
      Ensures-then (λ held _. held ≡ owned fds maps none) Clean (owned fds maps r.hdr)
        (reader_close (some r)) (λ _. ret status) (reader_close-Ensures fds maps r)
        (λ held _ same. same)

  opened :
      (k : ℕ)
      → (env : Option (List ℕ)) → (o : Arguments) → (r : Handle)
      → Ensures Clean (owned fds maps r.hdr) (main_opened k env o Rc.ok (some r))
  unfolding main_opened
  opened k env o r = (
    tt,
    λ m _. elim (Bool-cases (not m.okay)) [
      | inl e ↦ rw e (closes r 1)
      | inr e ↦ rw e (
          Ensures-then (λ held x. Keeps fds maps held x.1) Clean (owned fds maps r.hdr)
            (show k r o (path_of o env)) _ (show-Leaves k r o (path_of o env))
            (λ held x same.
              subst (λ y. Ensures Clean y (reader_close (some x.1) >> ret x.0)) (sym same)
                (closes x.1 x.0)))
    ],
  )

  -- Behind the making of the paths.
  made :
      (k : ℕ)
      → (env : Option (List ℕ)) → (o : Arguments) → (p : Option Paths)
      → let x : Rc × Option Handle = elim p [
        | none ↦ (Rc.sys, none)
        | some paths ↦ (Rc.ok, some (fresh_handle paths))
      ] in
        Ensures Clean (bare fds maps) (main_opened k env o x.0 x.1)
  unfolding main_opened
  made k env o none = refl
  made k env o (some p) = opened k env o (fresh_handle p)

  -- Whatever the kernel answers and however long it watches, the tool touches no closed descriptor and
  -- no unmapped memory, and exits with exactly the descriptors and mappings that it was started with.
  pub main-Ensures :
      (size rounds : ℕ)
      → (env : Option (List ℕ)) → (o : Arguments)
      → Ensures Clean (bare fds maps) (main size rounds env o)
  unfolding main reader_open make_paths main_opened
  main-Ensures size rounds env o =
      elim (Bool-cases (not (name_valid (some o.name)) || is_empty_dir o.dir)) [
        | inl e ↦ rw e refl
        | inr e ↦ rw e (
          tt,
          λ c _. elim (Bool-cases (not c.okay)) [
            | inl x ↦ rw x refl
            | inr x ↦ rw x (tt, λ m _. made rounds env o (paths_init o.dir env o.name m.okay))
          ],
        )
      ]
