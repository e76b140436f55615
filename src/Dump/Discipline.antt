-- ===== src/Dump/Discipline.antt =====
-- What the tool holds while it runs, and when it exits.
use ps_msgr.Prelude.{
  ℕ, zero, suc, refl, sym, subst, ap, Bool, true, false, not, List, ◌==◌, Bool-cases, inl, inr,
}
use ps_msgr.Result.{Rc}
use ps_msgr.Kernel.{Prog, ◌>>=◌}
use ps_msgr.Kernel.Resources.{is_in-head, remove-head, Ensures, Ensures-mono, Ensures-then}
use ps_msgr.Lock.{is_ok}
use ps_msgr.Handle.{Handle, reader_sync, identity_check, Got, refused, peek, read}
use ps_msgr.Handle.Discipline.{
  owned, mapped, Keeps, Synced, Synced-Keeps, reader_sync-Ensures, identity_check-Ensures,
}
use ps_msgr.Handle.Calls.{get-Ensures, read-Ensures}
use ps_msgr.Handle.Queries.{query_lock, writer_alive, describe_sized, desc_bytes}
use ps_msgr.Dump.Raw.{dump_raw}
use ps_msgr.Dump.Closing.{dump_raw-Ensures}
use ps_msgr.Dump.View.{
  is_busy, busy_retries, retries, peek_retries, print_liveness, print_value, print_payload,
  print_hex, print_values, dump, capacity_of,
}

module _ (fds maps : List ℕ) where
  -- From this handle, the program leaves the process with the handle that it returns, and nothing else.
  abbrev pub Leaves : {A : Type 0} → (A → Handle) → Handle → Prog A → Type 0
  Leaves h r p = Ensures (λ held a. Keeps fds maps held (h a)) (owned fds maps r.hdr) p

  pub Leaves-then :
      {A B : Type 0} (h : A → Handle) (k : B → Handle) (r : Handle) (p : Prog A) (f : A → Prog B)
      → Leaves h r p
      → ((a : A) → Leaves k (h a) (f a))
      → Leaves k r (p >>= f)
  Leaves-then h k r p f e next =
      Ensures-then (λ held a. Keeps fds maps held (h a)) (λ held b. Keeps fds maps held (k b))
        (owned fds maps r.hdr) p f e
        (λ held a same.
          subst (λ x. Ensures (λ held' b. Keeps fds maps held' (k b)) x (f a)) (sym same) (next a))

  query_lock-Leaves : (r : Handle) → Leaves (λ x. x.1) r (query_lock r)
  unfolding query_lock
  query_lock-Leaves r = (
    tt,
    λ a _. elim (Bool-cases a.okay) [
      | inr e ↦ rw e refl
      | inl e ↦ rw e (
        is_in-head a.value fds,
        λ l _. (
          is_in-head a.value fds,
          λ _ _. ap (λ xs. record (owned fds maps r.hdr) { fds = xs }) (remove-head a.value fds),
        ),
      )
    ],
  )

  synced : (r : Handle) → Leaves (λ x. x.1) r (reader_sync r)
  synced r =
      Ensures-mono (Synced fds maps) (λ held x. Keeps fds maps held x.1) (owned fds maps r.hdr)
        (reader_sync r) (Synced-Keeps fds maps) (reader_sync-Ensures fds maps r)

  pub writer_alive-Leaves : (r : Handle) → Leaves (λ x. x.1) r (writer_alive r)
  unfolding writer_alive
  writer_alive-Leaves r =
      Leaves-then (λ c. c.1) (λ x. x.1) r (identity_check r) _
        (Ensures-mono _ _ (owned fds maps r.hdr) (identity_check r) (λ held c k. k.0)
          (identity_check-Ensures fds maps r))
        (λ c. elim (Bool-cases (not (is_ok c.0))) [
          | inl e ↦ rw e refl
          | inr e ↦ rw e (
              Leaves-then (λ x. x.1) (λ x. x.1) c.1 (reader_sync c.1) (λ x. query_lock x.1)
                (synced c.1) (λ x. query_lock-Leaves x.1))
        ])

  pub describe_sized-Leaves :
      (r : Handle) → Leaves (λ x. x.1) r (describe_sized r true (λ _. 0) desc_bytes)
  unfolding describe_sized
  describe_sized-Leaves r =
      Leaves-then (λ x. x.1) (λ x. x.1) r (reader_sync r) _ (synced r)
        (λ x. elim (Bool-cases (not (is_ok x.0))) [ inl e ↦ rw e refl | inr e ↦ rw e refl ])

  retries-Leaves :
      (op : Handle → Prog Got)
      → ((r : Handle) → Leaves (λ g. g.handle) r (op r))
      → (k : ℕ) → (g : Got) → Leaves (λ g'. g'.handle) g.handle (retries k op g)
  unfolding retries
  retries-Leaves op w zero g = refl
  retries-Leaves op w (suc k) g = elim (Bool-cases (is_busy g.rc)) [
    | inl e ↦ rw e (
        Leaves-then (λ g'. g'.handle) (λ g'. g'.handle) g.handle (op g.handle) (retries k op)
          (w g.handle) (retries-Leaves op w k))
    | inr e ↦ rw e refl
  ]

  pub peek_retries-Leaves : (r : Handle) → Leaves (λ g. g.handle) r (peek_retries r)
  unfolding peek_retries
  peek_retries-Leaves r =
      retries-Leaves (λ r'. peek r' true (λ _. 0))
        (λ r'. unfold peek in get-Ensures fds maps r' (λ _. 0) 0 false) busy_retries
        (refused Rc.busy (λ _. 0) r)

  print_liveness-Leaves : (r : Handle) → Leaves (λ x. x.1) r (print_liveness r)
  unfolding print_liveness
  print_liveness-Leaves r =
      Leaves-then (λ x. x.1) (λ x. x.1) r (writer_alive r) _ (writer_alive-Leaves r) (λ a. refl)

  print_value-Leaves : (r : Handle) → Leaves (λ x. x.1) r (print_value r)
  unfolding print_value
  print_value-Leaves r =
      Leaves-then (λ g. g.handle) (λ x. x.1) r (peek_retries r) _ (peek_retries-Leaves r)
        (λ g. elim (Bool-cases (not (is_ok g.rc))) [
          | inl e ↦ rw e refl
          | inr e ↦ rw e (tt, λ t _. refl)
        ])

  print_payload-Leaves :
      (r : Handle) → (capacity : ℕ) → Leaves (λ x. x.1) r (print_payload r capacity)
  unfolding print_payload
  print_payload-Leaves r capacity =
      let op : (Handle → Prog Got) = λ r'. read r' (not (capacity == 0)) true (λ _. 0) capacity in
      Leaves-then (λ g. g.handle) (λ x. x.1) r
        (retries busy_retries op (refused Rc.busy (λ _. 0) r)) _
        (retries-Leaves op
          (λ r'. read-Ensures fds maps r' (not (capacity == 0)) true (λ _. 0) capacity) busy_retries
          (refused Rc.busy (λ _. 0) r))
        (λ g. refl)

  print_hex-Leaves : (r : Handle) → Leaves (λ x. x.1) r (print_hex r)
  unfolding print_hex
  print_hex-Leaves r =
      Leaves-then (λ x. x.1) (λ x. x.1) r (describe_sized r true (λ _. 0) desc_bytes) _
        (describe_sized-Leaves r)
        (λ d. elim (Bool-cases (not (is_ok d.0))) [
          | inl e ↦ rw e refl
          | inr e ↦ rw e (elim (Bool-cases (capacity_of d.2 == 0)) [
            | inl z ↦ rw z (print_payload-Leaves d.1 0)
            | inr z ↦ rw z (
              tt,
              λ m _. elim (Bool-cases (not m.okay)) [
                | inl x ↦ rw x refl
                | inr x ↦ rw x (print_payload-Leaves d.1 (capacity_of d.2))
              ],
            )
          ])
        ])

  print_values-Leaves : (r : Handle) → (hex : Bool) → Leaves (λ x. x.1) r (print_values r hex)
  unfolding print_values
  print_values-Leaves r hex =
      Leaves-then (λ x. x.1) (λ x. x.1) r (print_value r) _ (print_value-Leaves r)
        (λ v. elim (Bool-cases (not hex)) [
          | inl e ↦ rw e refl
          | inr e ↦ rw e (
              Leaves-then (λ x. x.1) (λ x. x.1) v.1 (print_hex v.1) _ (print_hex-Leaves v.1)
                (λ x. refl))
        ])

  pub dump-Leaves :
      (r : Handle) → (hex : Bool) → (path : List ℕ) → Leaves (λ d. d.handle) r (dump r hex path)
  unfolding dump
  dump-Leaves r hex path =
      Leaves-then (λ _. r) (λ d. d.handle) r (dump_raw path) _
        (dump_raw-Ensures path fds (mapped fds maps r.hdr))
        (λ raw.
          Leaves-then (λ x. x.1) (λ d. d.handle) r (print_liveness r) _ (print_liveness-Leaves r)
            (λ l. elim (Bool-cases (not raw.read_ok)) [
              | inl e ↦ rw e refl
              | inr e ↦ rw e (
                  Leaves-then (λ x. x.1) (λ d. d.handle) l.1 (print_values l.1 hex) _
                    (print_values-Leaves l.1 hex) (λ v. refl))
            ]))
