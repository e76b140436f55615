-- ===== src/System/Soundness.antt =====
-- Every step of the writer, a crash included, keeps the file readable, and leaves a committed slot
-- alone until it has been opened again.
use ps_msgr.Prelude.{
  ℕ, ◌^◌, ◌≤◌, ◌<◌, ◌≡◌, ◌≢◌, inl, inr, refl, sym, subst, ◌∙◌, Bool, true, false, not, ◌&&◌, Option,
  some, [], ◌++◌, arith, Bool-cases, ltb, ◌==◌,
}
use ps_msgr.Layout.{latest_none}
use ps_msgr.Result.{Rc}
use ps_msgr.Memory.{File, seq_at, Store, apply}
use ps_msgr.Writer.{
  Writer, Outcome, fail, is_null, bytes_of, target, begin_slot, commit_slot, copy_in, committed,
  publish, begin, commit, abort, writer_attach,
}
use ps_msgr.System.{
  System, execute, Call, outcome, handle, start_call, reopen, Step, stores, calls, fills, crashes,
  Run, none_yet, next,
}
use ps_msgr.System.Guards.{IsLive, IsCounted, IsSafe, Guard, apply-IsLive, execute-IsCounted}
use ps_msgr.System.Programs.{
  IsOpened, IsReady, target-IsFree, begin_slot-IsSafe, commit_slot-IsSafe, copy_in-IsSafe,
  set_byte-IsOpened, IsOpened-IsWritable,
}

-- `publish` refuses with nothing stored, or begins, copies and commits.
pub publish_cases :
    (P : Outcome → Type 0) (w : Writer) (bytes : Option (ℕ → ℕ)) (len now : ℕ) (f : File)
    → ((rc : Rc) → rc ≢ Rc.ok → P (fail rc (some w)))
    → (len ≤ w.capacity
        → let (opening, w') = begin_slot w f in
          P (
            committed
              (opening ++ copy_in w'.open_slot (bytes_of bytes) 0 len)
              (commit_slot w' len now)))
    → P (publish (some w) bytes len now f)
unfolding publish
publish_cases P w bytes len now f no' yes' = elim (Bool-cases (is_null bytes && not (len == 0))) [
  | inl e ↦ rw e (no' _ (λ x. cc))
  | inr e ↦ elim (Bool-cases (not (w.open_slot == latest_none))) [
    | inl e' ↦ rw (e, e') (no' _ (λ x. cc))
    | inr e' ↦ elim (Bool-cases (ltb w.capacity len)) [
      | inl e'' ↦ rw (e, e', e'') (no' _ (λ x. cc))
      | inr e'' ↦ rw (e, e', e'') (yes' (ground arith))
    ]
  ]
]

module _ (n cap : ℕ) where
  -- The invariant of the system.
  pub record IsSound (s : System) : Type 0 where
    pub two : 2 ≤ n
    pub few : n < 17
    pub count_ok : s.file.header.slot_count ≡ n
    pub capacity_ok : s.file.header.capacity ≡ cap
    pub live : IsLive n cap s.file
    pub counted : IsCounted n cap s
    pub safe : IsSafe n cap (IsReady n cap s.writer) s.pending s.file

  abbrev pub Ends : Writer → Outcome → File → Type 0
  Ends w o f = IsSafe n cap (IsReady n cap (handle w o.writer)) o.stores f

  module _ {s : System} (v : IsSound s) (r : IsReady n cap s.writer s.file) where
    open v use {two, few, live, counted}

    begun :
        (f : File)
        → IsReady n cap (begin_slot s.writer s.file).1 f
        → IsOpened n cap
            (begin_slot s.writer s.file).1.open_slot
            (begin_slot s.writer s.file).1.open_seq
            f
    unfolding begin_slot
    begun f r' =
        r'.opened
          (ground (arith, target-IsFree n cap two few s.writer s.file live r.count_ok r.linked))

    word : seq_at s.file (target s.writer) < 2 ^ 32
    word =
        (counted (target s.writer)
          (target-IsFree n cap two few s.writer s.file live r.count_ok r.linked).0).0

    opening :
        IsSafe n cap
          (IsReady n cap (begin_slot s.writer s.file).1)
          (begin_slot s.writer s.file).0
          s.file
    opening = begin_slot-IsSafe n cap two few s.writer s.file live r word

    pub publish-IsSafe :
        (bytes : Option (ℕ → ℕ)) (len now : ℕ)
        → Ends s.writer (publish (some s.writer) bytes len now s.file) s.file
    unfolding committed begin_slot
    publish-IsSafe bytes len now =
        publish_cases (λ o. Ends s.writer o s.file) s.writer bytes len now s.file (λ rc _. r)
          (λ fits. (
            opening.0,
            copy_in-IsSafe n cap two few _ _ (bytes_of bytes) 0 len _ _
                (λ f o.
                  commit_slot-IsSafe n cap two few (begin_slot s.writer s.file).1 f len now o
                    r.count_ok r.capacity_ok (omega (arith, fits, r.capacity_ok)))
                _ (begun _ opening.1),
          ))

    begin-IsSafe : (b : Bool) → Ends s.writer (begin (some s.writer) b s.file) s.file
    unfolding begin begin_slot
    begin-IsSafe false = r
    begin-IsSafe true = elim (Bool-cases (not (s.writer.open_slot == latest_none))) [
      | inl e ↦ rw e r
      | inr e ↦ rw e opening
    ]

    commit-IsSafe : (len now : ℕ) → Ends s.writer (commit (some s.writer) len now) s.file
    unfolding commit committed
    commit-IsSafe len now = elim (Bool-cases (s.writer.open_slot == latest_none)) [
      | inl e ↦ rw e r
      | inr e ↦ elim (Bool-cases (ltb s.writer.capacity len)) [
        | inl e' ↦ rw (e, e') r
        | inr e' ↦
            rw (e, e')
              (commit_slot-IsSafe n cap two few s.writer s.file len now (r.opened (ground arith))
                r.count_ok r.capacity_ok (ground (arith, r.capacity_ok)))
      ]
    ]

    abort-IsSafe : Ends s.writer (abort (some s.writer)) s.file
    unfolding abort
    abort-IsSafe = elim (Bool-cases (s.writer.open_slot == latest_none)) [
      | inl e ↦ rw e r
      | inr e ↦ rw e (record {
        count_ok = r.count_ok;
        capacity_ok = r.capacity_ok;
        linked = r.linked;
        opened = λ h. absurd (h refl);
      })
    ]

    pub outcome-IsSafe : (c : Call) → Ends s.writer (outcome c s.writer s.file) s.file
    unfolding outcome
    outcome-IsSafe (Call.publishes bytes len now) = publish-IsSafe bytes len now
    outcome-IsSafe (Call.begins b) = begin-IsSafe b
    outcome-IsSafe (Call.commits_with len now) = commit-IsSafe len now
    outcome-IsSafe Call.aborts = abort-IsSafe

  header-apply :
      (a : Store) (f : File)
      → ((apply a f).header.slot_count ≡ f.header.slot_count)
        × ((apply a f).header.capacity ≡ f.header.capacity)
  unfolding apply
  header-apply (Store.set_seq i v) f = (refl, refl)
  header-apply _ f = (refl, refl)

  -- Every step keeps the invariant: a store, a call, a byte written by the caller, a crash.
  pub Step-IsSound : {s t : System} → Step s t → IsSound s → IsSound t
  unfolding execute start_call reopen writer_attach apply
  Step-IsSound (stores s a rest e) v =
      let g : Guard n cap a s.file × IsSafe n cap (IsReady n cap s.writer) rest (apply a s.file) =
        subst (λ p. IsSafe n cap (IsReady n cap s.writer) p s.file) e v.safe in
      record {
        two = v.two;
        few = v.few;
        count_ok = (header-apply a s.file).0 ∙ v.count_ok;
        capacity_ok = (header-apply a s.file).1 ∙ v.capacity_ok;
        live = apply-IsLive n cap v.few a s.file g.0 v.live;
        counted = execute-IsCounted n cap v.few a rest s g.0 v.counted;
        safe = g.1;
      }
  Step-IsSound (calls s c e) v = record {
    two = v.two;
    few = v.few;
    count_ok = v.count_ok;
    capacity_ok = v.capacity_ok;
    live = v.live;
    counted = v.counted;
    safe =
        outcome-IsSafe v (subst (λ p. IsSafe n cap (IsReady n cap s.writer) p s.file) e v.safe) c;
  }
  Step-IsSound (fills s k b e h lt) v =
      let r : IsReady n cap s.writer s.file =
        subst (λ p. IsSafe n cap (IsReady n cap s.writer) p s.file) e v.safe in
      let a : Store = Store.set_byte s.writer.open_slot k b in
      let g = IsOpened-IsWritable n cap (r.opened h) in
      record {
        two = v.two;
        few = v.few;
        count_ok = v.count_ok;
        capacity_ok = v.capacity_ok;
        live = apply-IsLive n cap v.few a s.file g v.live;
        counted = execute-IsCounted n cap v.few a [] s g v.counted;
        safe =
            subst (λ p. IsSafe n cap (IsReady n cap s.writer) p (apply a s.file)) (sym e)
              (record {
                count_ok = r.count_ok;
                capacity_ok = r.capacity_ok;
                linked = r.linked;
                opened = λ h. set_byte-IsOpened n cap k b (r.opened h);
              });
      }
  Step-IsSound (crashes s w map_size random) v = record {
    two = v.two;
    few = v.few;
    count_ok = v.count_ok;
    capacity_ok = v.capacity_ok;
    live = v.live;
    counted = v.counted;
    safe = record {
      count_ok = v.count_ok;
      capacity_ok = v.capacity_ok;
      linked = refl;
      opened = λ h. absurd (h refl);
    };
  }

  pub Run-IsSound : {s t : System} → Run s t → IsSound s → IsSound t
  Run-IsSound none_yet v = v
  Run-IsSound (next r st) v = Step-IsSound st (Run-IsSound r v)
