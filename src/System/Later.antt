-- ===== src/System/Later.antt =====
-- What a reader may conclude from a slot's `seq` at two times: if no commit lies between and the slot
-- is even at the end, then it did not change in between.
use ps_msgr.Prelude.{ℕ, ◌+◌, ◌%◌, ◌≤◌, ◌≡◌, refl, subst, ◌∙◌, List, [], arith}
use ps_msgr.Memory.{seq_at, Store, apply}
use ps_msgr.System.{
  System, execute, start_call, reopen, Step, stores, calls, fills, crashes, Run, none_yet, next,
}
use ps_msgr.System.Guards.{Guard, IsSafe}
use ps_msgr.System.Programs.{IsReady, IsOpened-IsWritable}
use ps_msgr.System.Soundness.{IsSound, Run-IsSound}

module _ (n cap : ℕ) where
  abbrev pub IsLater : System → System → Type 0
  IsLater s t =
      (i : ℕ)
      → (s.commits i ≤ t.commits i)
        × (s.commits i ≡ t.commits i → seq_at t.file i % 2 ≡ 0 → t.file.slots i ≡ s.file.slots i)

  execute-IsLater :
      (a : Store) (rest : List Store) (s : System)
      → Guard n cap a s.file
      → IsLater s (execute a rest s)
  unfolding execute apply
  execute-IsLater (Store.set_seq j v) rest s g i = (ground arith, λ e q. ground arith)
  execute-IsLater (Store.set_generation j v) rest s g i = (ground arith, λ e q. ground arith)
  execute-IsLater (Store.set_timestamp_lo j v) rest s g i = (ground arith, λ e q. ground arith)
  execute-IsLater (Store.set_timestamp_hi j v) rest s g i = (ground arith, λ e q. ground arith)
  execute-IsLater (Store.set_length j v) rest s g i = (ground arith, λ e q. ground arith)
  execute-IsLater (Store.set_byte j k v) rest s g i = (ground arith, λ e q. ground arith)
  execute-IsLater (Store.set_latest v) rest s g i = (omega arith, λ e q. refl)
  execute-IsLater Store.add_notify rest s g i = (omega arith, λ e q. refl)
  execute-IsLater (Store.or_state v) rest s g i = (omega arith, λ e q. refl)
  execute-IsLater Store.wake_all rest s g i = (omega arith, λ e q. refl)

  Step-IsLater : {s t : System} → Step s t → IsSound n cap s → IsLater s t
  unfolding start_call reopen execute
  Step-IsLater (stores s a rest e) v =
      execute-IsLater a rest s
        (subst (λ p. IsSafe n cap (IsReady n cap s.writer) p s.file) e v.safe).0
  Step-IsLater (calls s c e) v = λ i. (omega arith, λ _ _. refl)
  Step-IsLater (fills s k b e h lt) v =
      let r : IsReady n cap s.writer s.file =
        subst (λ p. IsSafe n cap (IsReady n cap s.writer) p s.file) e v.safe in
      execute-IsLater (Store.set_byte s.writer.open_slot k b) [] s
        (IsOpened-IsWritable n cap (r.opened h))
  Step-IsLater (crashes s w map_size random) v = λ i. (omega arith, λ _ _. refl)

  pub IsLater-trans : (s t u : System) → IsLater s t → IsLater t u → IsLater s u
  IsLater-trans s t u p q i = (omega (arith, p i, q i), same)
    where
      same : s.commits i ≡ u.commits i → seq_at u.file i % 2 ≡ 0 → u.file.slots i ≡ s.file.slots i
      same e even =
          let back : u.file.slots i ≡ t.file.slots i = (q i).1 (omega (arith, p i, q i)) even in
          back ∙ (p i).1 (omega (arith, p i, q i)) (subst (λ x. x.seq % 2 ≡ 0) back even)

  pub Run-IsLater : {s t : System} → Run s t → IsSound n cap s → IsLater s t
  Run-IsLater none_yet v = λ i. (omega arith, λ _ _. refl)
  Run-IsLater {s} {t = u} (next {t} r st) v =
      IsLater-trans s t u (Run-IsLater r v) (Step-IsLater st (Run-IsSound n cap r v))

-- One store commits at most one slot, once.
pub execute-commits :
    (a : Store) (rest : List Store) (s : System) (i : ℕ)
    → (execute a rest s).commits i ≤ s.commits i + 1
unfolding execute
execute-commits (Store.set_seq j v) rest s i = ground arith
execute-commits _ rest s i = omega arith
