-- ===== src/System/Wakeups.antt =====
-- What a waiter relies on: a publication is followed by a notification.
use ps_msgr.Prelude.{
  ℕ, ◌+◌, ◌%◌, ◌^◌, ◌≤◌, ◌<◌, ◌≡◌, ◌≢◌, ◌⊎◌, inl, inr, refl, ◌∙◌, List, [], ◌∷◌, arith, Bool-cases,
  ◌==◌,
}
use ps_msgr.Memory.{latest_of, Store, apply}
use ps_msgr.System.{
  System, execute, start_call, reopen, Step, stores, calls, fills, crashes, Run, none_yet, next,
}
use ps_msgr.System.Notifying.{
  notify_of, publication, notification, total, step_count, published, notified, step_crashes,
  crashed, due, unpublished, awakening, woken, wakes_due, IsFollowed, IsNotifying, outcome-Notifies,
  apply-notify, Step-IsNotifying,
}

pub Run-IsNotifying : {s t : System} → Run s t → IsNotifying s → IsNotifying t
Run-IsNotifying none_yet v = v
Run-IsNotifying (next r st) v = Step-IsNotifying st (Run-IsNotifying r v)

-- What a step does to the counts.
Step-counts :
    {s t : System} (st : Step s t)
    → IsNotifying s
    → step_count publication st + unpublished t + due s
      ≤ step_count notification st + due t + unpublished s + step_crashes st
unfolding execute start_call reopen
Step-counts (stores s a rest e) v =
    let split : (total notification s.pending ≡ notification a + total notification rest)
        × (total publication s.pending ≡ publication a + total publication rest) =
      rw e (refl, refl) in
    omega (arith, split)
Step-counts (calls s c e) v =
    let o = outcome-Notifies c s.writer s.file v.asks in
    let idle : (due s ≡ 0) × (unpublished s ≡ 0) = rw e (refl, refl) in omega (arith, idle, o.0)
Step-counts (fills s k b e h lt) v = omega arith
Step-counts (crashes s w map_size random) v = omega (arith, v.once)

Step-notify :
    {s t : System} (st : Step s t)
    → notify_of s.file < 2 ^ 32
    → notify_of t.file ≡ (notify_of s.file + step_count notification st) % 2 ^ 32
unfolding execute start_call reopen apply
Step-notify (stores s a rest e) h = apply-notify a s.file h
Step-notify (calls s c e) h = omega arith
Step-notify (fills s k b e h' lt) h = omega arith
Step-notify (crashes s w map_size random) h = omega arith

Run-notify :
    {s t : System} (r : Run s t)
    → notify_of s.file < 2 ^ 32
    → notify_of t.file ≡ (notify_of s.file + notified r) % 2 ^ 32
Run-notify none_yet h = omega arith
Run-notify (next r st) h =
    let e = Run-notify r h in omega (arith, e, Step-notify st (omega (arith, e)))

Run-counts :
    {s t : System} (r : Run s t)
    → IsNotifying s
    → published r + unpublished t + due s ≤ notified r + due t + unpublished s + crashed r
Run-counts none_yet v = omega arith
Run-counts (next r st) v = omega (arith, Run-counts r v, Step-counts st (Run-IsNotifying r v))

-- What a step does to the increments and the wake-ups.
Step-wakes :
    {s t : System} (st : Step s t)
    → IsNotifying s
    → step_crashes st ≡ 0
    → step_count notification st + due t + wakes_due s
      ≤ step_count awakening st + wakes_due t + due s
unfolding execute start_call reopen
Step-wakes (stores s a rest e) v z =
    let split : (total notification s.pending ≡ notification a + total notification rest)
        × (total awakening s.pending ≡ awakening a + total awakening rest) =
      rw e (refl, refl) in
    omega (arith, split)
Step-wakes (calls s c e) v z =
    let o = outcome-Notifies c s.writer s.file v.asks in
    let idle : (due s ≡ 0) × (wakes_due s ≡ 0) = rw e (refl, refl) in omega (arith, idle, o.4)
Step-wakes (fills s k b e h lt) v z = omega arith
Step-wakes (crashes s w map_size random) v z = absurd (omega (arith, z))

-- Without a crash, the increments of a run are followed by wake-ups, made or due.
Run-wakes_counts :
    {s t : System} (r : Run s t)
    → IsNotifying s
    → crashed r ≡ 0
    → notified r + due t + wakes_due s ≤ woken r + wakes_due t + due s
Run-wakes_counts none_yet v z = omega arith
Run-wakes_counts (next r st) v z = omega (
  arith,
  Run-wakes_counts r v (omega (arith, z)),
  Step-wakes st (Run-IsNotifying r v) (omega (arith, z)),
)

head-IsFollowed : (f g : Store → ℕ) (p : List Store) → IsFollowed f g p → total f p ≤ total g p
head-IsFollowed f g [] o = omega arith
head-IsFollowed f g (a ∷ p) o = o.0

execute-latest :
    (a : Store) (rest : List Store) (s : System)
    → publication a ≡ 0
    → latest_of (execute a rest s).file ≡ latest_of s.file
unfolding execute apply
execute-latest (Store.set_latest v) rest s e = absurd (omega arith)
execute-latest (Store.set_seq i v) rest s e = refl
execute-latest _ rest s e = refl

Step-latest :
    {s t : System} (st : Step s t)
    → step_count publication st ≡ 0
    → latest_of t.file ≡ latest_of s.file
unfolding start_call reopen apply
Step-latest (stores s a rest e) z = execute-latest a rest s z
Step-latest (calls s c e) z = refl
Step-latest (fills s k b e h lt) z = refl
Step-latest (crashes s w map_size random) z = refl

Run-latest : {s t : System} (r : Run s t) → published r ≡ 0 → latest_of t.file ≡ latest_of s.file
Run-latest none_yet z = refl
Run-latest (next r st) z = Step-latest st (omega (arith, z)) ∙ Run-latest r (omega (arith, z))

-- No wake-up is lost. On a channel that notifies, a waiter loads `notify` and then looks at the channel
-- in the state `s`, and calls FUTEX_WAIT with that value in the state `t`; fewer than 2^32 increments of
-- `notify` lie between. If `latest` is another one in the later state `u`, then FUTEX_WAIT has not gone to
-- sleep, since `notify` was not what the waiter had loaded; or since `t` all who sleep have been woken; or
-- the writer's call in progress has still to increment `notify`, or has incremented it since `t` and has
-- still to wake the sleepers; or a writer crashed.
pub Run-wakes :
    {s t u : System} (r : Run s t) (q : Run t u)
    → IsNotifying s
    → notify_of s.file < 2 ^ 32
    → notified r < 2 ^ 32
    → latest_of u.file ≢ latest_of s.file
    → (notify_of t.file ≢ notify_of s.file)
      ⊎ ((0 < woken q)
          ⊎ ((due u ≡ 1) ⊎ (((0 < notified q) × (0 < wakes_due u)) ⊎ (0 < crashed r + crashed q))))
Run-wakes {s} {t} {u} r q v h few changed =
    let v' = Run-IsNotifying r v in
    let word = Run-notify r h in
    let start = head-IsFollowed publication notification s.pending v.in_order in
    let sleeping = head-IsFollowed notification awakening t.pending v'.wakes in
    let balance = Run-counts r v in
    let balance' = Run-counts q v' in
    let end = (Run-IsNotifying q v').once in
    elim (Bool-cases (notified r == 0)) [
      | inr some' ↦ inl (λ same. ground (arith, same, word, h, few))
      | inl zero' ↦ elim (Bool-cases (crashed r + crashed q == 0)) [
        | inr crash ↦ inr (inr (inr (inr (ground arith))))
        | inl calm ↦ elim (Bool-cases (due u == 0)) [
          | inr e ↦ inr (inr (inl (ground (arith, end))))
          | inl e ↦ elim (Bool-cases (published r + published q == 0)) [
            | inl z ↦ absurd (changed (Run-latest q (ground arith) ∙ Run-latest r (ground arith)))
            | inr p ↦
                behind_increment (ground (arith, balance, balance', start))
                  (Run-wakes_counts q v' (ground arith)) sleeping
          ]
        ]
      ]
    ]
  where
    behind_increment :
        0 < notified q
        → notified q + due u + wakes_due t ≤ woken q + wakes_due u + due t
        → due t ≤ wakes_due t
        → (notify_of t.file ≢ notify_of s.file)
          ⊎ ((0 < woken q)
              ⊎ ((due u ≡ 1)
                  ⊎ (((0 < notified q) × (0 < wakes_due u)) ⊎ (0 < crashed r + crashed q))))
    behind_increment more counts le = elim (Bool-cases (woken q == 0)) [
      | inr e ↦ inr (inl (ground arith))
      | inl e ↦ inr (inr (inr (inl (more, ground (arith, counts, le, more)))))
    ]
