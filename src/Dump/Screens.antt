-- ===== src/Dump/Screens.antt =====
-- When the tool draws a new screen.
use ps_msgr.Prelude.{
  ℕ, zero, suc, ◌≡◌, ◌≢◌, ◌⊎◌, refl, sym, subst, Bool, true, false, ◌||◌, List, [], ◌∷◌,
  if◌then◌else◌, Bool-cases, inl, inr, some, arith,
}
use ps_msgr.Kernel.{Sys, Answer, Prog, ret, call, stuck, ◌>>=◌}
use ps_msgr.Kernel.Monitor.{Follows, Follows-then, Follows-mono}
use ps_msgr.Handle.{Handle}
use ps_msgr.Handle.Wait.{wait}
use ps_msgr.Handle.Queries.{Liveness}
use ps_msgr.Dump.View.{Dumped, dump}
use ps_msgr.Dump.Watch.{
  WatchKey, liveness_equal, watch_key_of, watch_key_equal, polls, pause, watch_timeout_ms,
  watch_change, watch_screens, watch,
}

-- `set`: a load of `stop` has found it set. `back`: a later one has not, which no handler does.
pub record Flag : Type 0 where
  pub set : Bool
  pub back : Bool

abbrev pub seen_stop : Bool → Flag → Flag
seen_stop true m = record m { set = true }
seen_stop false m = record m { back = m.back || m.set }

abbrev is_stopped : Sys → Bool
is_stopped Sys.stopped = true
is_stopped _ = false

abbrev pub loaded : Sys → Answer → Flag → Flag
loaded s a m = if is_stopped s then seen_stop a.okay m else m

abbrev pub AnyCall : Sys → Flag → Type 0
AnyCall s m = Unit

abbrev Grows : Flag → Flag → Type 0
Grows m m' = (m'.back ≡ false → m.back ≡ false) × (m.set ≡ true → m'.set ≡ true)

Grows-trans : (a b c : Flag) → Grows a b → Grows b c → Grows a c
Grows-trans a b c p q = (λ e. p.0 (q.0 e), λ e. q.1 (p.1 e))

seen_stop-Grows : (b : Bool) → (m : Flag) → Grows m (seen_stop b m)
seen_stop-Grows true m = (λ e. e, λ _. refl)
seen_stop-Grows false m = (λ e. ground arith, λ e. e)

loaded-Grows : (s : Sys) → (a : Answer) → (m : Flag) → Grows m (loaded s a m)
loaded-Grows s a m = elim (Bool-cases (is_stopped s)) [
  | inl e ↦ rw e (seen_stop-Grows a.okay m)
  | inr e ↦ rw e (λ e'. e', λ e'. e')
]

-- Every program.
grows : {A : Type 0} → (m : Flag) → (p : Prog A) → Follows loaded AnyCall (λ m' _. Grows m m') m p
grows m (ret a) = (λ e. e, λ e. e)
grows m (call s k) = (
  tt,
  λ a.
      Follows-mono loaded AnyCall _ _ (loaded s a m) (k a)
        (λ m' x g. Grows-trans m (loaded s a m) m' (loaded-Grows s a m) g)
        (grows (loaded s a m) (k a)),
)
grows m stuck = tt

-- What follows a program of which only this is known.
behind :
    {A B : Type 0}
    → (Q : Flag → B → Type 0) → (m : Flag) → (p : Prog A) → (f : A → Prog B)
    → ((m' : Flag) → (a : A) → Grows m m' → Follows loaded AnyCall Q m' (f a))
    → Follows loaded AnyCall Q m (p >>= f)
behind Q m p f next = Follows-then loaded AnyCall (λ m' _. Grows m m') Q m p f (grows m p) next

-- The key has changed, or the signal has come.
abbrev Changed : (m : Flag) → (key : WatchKey) → Flag → WatchKey × Handle → Type 0
Changed m key m' x = Grows m m' × ((watch_key_equal x.0 key ≡ false) ⊎ (m'.set ≡ true))

later :
    (m m' : Flag)
    → (key : WatchKey) → (p : Prog (WatchKey × Handle)) → Grows m m'
    → Follows loaded AnyCall (Changed m' key) m' p
    → Follows loaded AnyCall (Changed m key) m' p
later m m' key p g e =
    Follows-mono loaded AnyCall (Changed m' key) (Changed m key) m' p
      (λ m'' x c. (Grows-trans m m' m'' g c.0, c.1)) e

-- From a load that has not found the flag set, to another load.
since :
    (m m1 m2 : Flag)
    → (b : Bool) → Grows (seen_stop false m) m1
    → Grows m1 m2
    → Grows m (seen_stop b m2)
since m m1 m2 b g1 g2 =
    Grows-trans m (seen_stop false m) (seen_stop b m2) (seen_stop-Grows false m) (
      Grows-trans (seen_stop false m) m1 (seen_stop b m2) g1
        (Grows-trans m1 m2 (seen_stop b m2) g2 (seen_stop-Grows b m2)))

watch_change-Changed :
    (k : ℕ)
    → (key next : WatchKey) → (r : Handle) → (path : List ℕ) → (m : Flag)
    → Follows loaded AnyCall (Changed m key) m (watch_change k key next r path)
unfolding watch_change
watch_change-Changed zero key next r path m = tt
watch_change-Changed (suc k) key next r path m = (
  tt,
  λ s. elim (Bool-cases s.okay) [
    | inl e ↦ rw e ((λ e'. e', λ _. refl), inr refl)
    | inr e ↦ rw e (elim (Bool-cases (watch_key_equal next key)) [
      | inr differs ↦ rw differs (seen_stop-Grows false m, inl differs)
      | inl same ↦ rw same (
          behind (Changed m key) (seen_stop false m)
            (wait k r key.generation (some watch_timeout_ms)) _
            (λ m1 w g1. behind (Changed m key) m1 (pause (polls w.0)) _ (λ m2 _ g2. (
              tt,
              λ s'. elim (Bool-cases s'.okay) [
                | inl o ↦ rw o (
                    later m (seen_stop true m2) key _ (since m m1 m2 true g1 g2)
                      (watch_change-Changed k key next w.1 path (seen_stop true m2)))
                | inr o ↦ rw o (
                    behind (Changed m key) (seen_stop false m2) (watch_key_of w.1 path) _
                      (λ m3 x g3.
                        later m m3 key _
                          (Grows-trans m (seen_stop false m2) m3 (since m m1 m2 false g1 g2) g3)
                          (watch_change-Changed k key x.0 x.1 path m3)))
              ],
            ))))
    ])
  ],
)

abbrev pub Distinct : List (WatchKey × Dumped) → Type 0
Distinct [] = Unit
Distinct (a ∷ []) = Unit
Distinct (a ∷ b ∷ xs) = (b.0 ≢ a.0) × Distinct (b ∷ xs)

liveness_equal_refl : (a : Liveness) → liveness_equal a a ≡ true
unfolding liveness_equal
liveness_equal_refl Liveness.dead = refl
liveness_equal_refl Liveness.alive = refl
liveness_equal_refl (Liveness.failed c) = ground arith

watch_key_equal_refl : (k : WatchKey) → watch_key_equal k k ≡ true
unfolding watch_key_equal
watch_key_equal_refl k = ground (arith, liveness_equal_refl k.alive)

-- A test that finds two keys to differ is right.
keys_differ : (a b : WatchKey) → watch_key_equal a b ≡ false → a ≢ b
keys_differ a b e same =
    let equal : watch_key_equal a b ≡ true =
      subst (λ x. watch_key_equal x b ≡ true) (sym same) (watch_key_equal_refl b) in
    cc

-- The first screen is that of this key.
abbrev Starts : WatchKey → List (WatchKey × Dumped) → Type 0
Starts key [] = Unit
Starts key (x ∷ xs) = x.0 ≡ key

abbrev Drawn : (m : Flag) → (key : WatchKey) → Flag → List (WatchKey × Dumped) × Handle → Type 0
Drawn m key m' x =
    Grows m m' × (m'.back ≡ false → Distinct x.0 × Starts key x.0 × (m.set ≡ true → x.0 ≡ []))

not_set : (m : Flag) → m.set ≡ true → (m.back || m.set) ≡ false → ⊥
not_set m e f = ground (arith, e, f)

not_nil : {x : WatchKey × Dumped} {xs : List (WatchKey × Dumped)} → (x ∷ xs) ≡ [] → ⊥
not_nil e = cc

apart :
    (set : Bool)
    → (key key' : WatchKey) → (d : Dumped) → (xs : List (WatchKey × Dumped)) → Distinct xs
    → Starts key' xs
    → (set ≡ true → xs ≡ [])
    → (watch_key_equal key' key ≡ false) ⊎ (set ≡ true)
    → Distinct ((key, d) ∷ xs)
apart set key key' d [] w st stops c = tt
apart set key key' d (b ∷ xs) w st stops (inl differs) =
    (subst (λ k. k ≢ key) (sym st) (keys_differ key' key differs), w)
apart set key key' d (b ∷ xs) w st stops (inr e) = absurd (not_nil (stops e))

-- One screen more.
drawn :
    (m m1 m2 m3 : Flag)
    → (key : WatchKey) → (d : Dumped) → (n : WatchKey × Handle)
    → (t : List (WatchKey × Dumped) × Handle) → Grows (seen_stop false m) m1
    → Changed m1 key m2 n
    → Drawn m2 n.0 m3 t
    → Drawn m key m3 ((key, d) ∷ t.0, t.1)
drawn m m1 m2 m3 key d n (xs, r) g c w =
    let all : Grows (seen_stop false m) m3 =
      Grows-trans (seen_stop false m) m1 m3 g (Grows-trans m1 m2 m3 c.0 w.0) in
    (
      Grows-trans m (seen_stop false m) m3 (seen_stop-Grows false m) all,
      λ e. (
        apart (m2.set) key n.0 d xs (w.1 e).0 (w.1 e).1 (w.1 e).2 c.1,
        refl,
        λ set. absurd (not_set m set (all.0 e)),
      ),
    )

watch_screens-Drawn :
    (k : ℕ)
    → (key : WatchKey) → (r : Handle) → (hex : Bool) → (path : List ℕ) → (m : Flag)
    → Follows loaded AnyCall (Drawn m key) m (watch_screens k key r hex path)
unfolding watch_screens
watch_screens-Drawn zero key r hex path m = tt
watch_screens-Drawn (suc k) key r hex path m = (
  tt,
  λ s. elim (Bool-cases s.okay) [
    | inl e ↦ rw e ((λ e'. e', λ _. refl), λ _. (tt, tt, λ _. refl))
    | inr e ↦ rw e (
        behind (Drawn m key) (seen_stop false m) (dump r hex path) _ (λ m1 d g1.
          Follows-then loaded AnyCall (Changed m1 key) (Drawn m key) m1
            (watch_change k key key d.handle path) _
            (watch_change-Changed k key key d.handle path m1)
            (λ m2 n c.
              Follows-then loaded AnyCall (Drawn m2 n.0) (Drawn m key) m2
                (watch_screens k n.0 n.1 hex path) _ (watch_screens-Drawn k n.0 n.1 hex path m2)
                (λ m3 t w. drawn m m1 m2 m3 key d n t g1 c w))))
  ],
)

-- The tool draws a screen again only when what it shows has changed: of two screens, one behind the
-- other, the keys of file, value and writer differ, whatever the kernel answers, if `stop` stays set
-- once a load has found it set. In particular, the signal's arrival draws none.
pub watch-Distinct :
    (rounds : ℕ)
    → (r : Handle) → (hex : Bool) → (path : List ℕ) → (m : Flag)
    → Follows loaded AnyCall (λ m' x. m'.back ≡ false → Distinct x.0) m (watch rounds r hex path)
unfolding watch
watch-Distinct rounds r hex path m = behind _ m (watch_key_of r path) _ (λ m1 x g.
    Follows-mono loaded AnyCall (Drawn m1 x.0) _ m1 (watch_screens rounds x.0 x.1 hex path)
      (λ m' t w e. (w.1 e).0) (watch_screens-Drawn rounds x.0 x.1 hex path m1))
