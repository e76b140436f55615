-- ===== src/Kernel/Monitor.antt =====
-- The order of a program's calls: a monitor follows them, and allows each only in some of its states.
use ps_msgr.Kernel.{Sys, Answer, Prog, ret, call, stuck, ◌>>=◌}

module _ {M : Type 0} (step : Sys → Answer → M → M) (allowed : Sys → M → Type 0) where
  -- From `m`, every call is allowed when it is made, and `Q` holds of the monitor's state and of the
  -- result if the program returns: for every answer.
  abbrev pub Follows : {A : Type 0} → (M → A → Type 0) → M → Prog A → Type 0
  Follows Q m (ret a) = Q m a
  Follows Q m (call s k) = allowed s m × ((a : Answer) → Follows Q (step s a m) (k a))
  Follows Q m stuck = Unit

  pub Follows-then :
      {A B : Type 0} (P : M → A → Type 0) (Q : M → B → Type 0) (m : M) (p : Prog A) (f : A → Prog B)
      → Follows P m p
      → ((m' : M) (a : A) → P m' a → Follows Q m' (f a))
      → Follows Q m (p >>= f)
  Follows-then P Q m (ret a) f e next = next m a e
  Follows-then P Q m (call s k) f e next =
      (e.0, λ a. Follows-then P Q (step s a m) (k a) f (e.1 a) next)
  Follows-then P Q m stuck f e next = tt

  pub Follows-mono :
      {A : Type 0} (P Q : M → A → Type 0) (m : M) (p : Prog A)
      → ((m' : M) (a : A) → P m' a → Q m' a)
      → Follows P m p
      → Follows Q m p
  Follows-mono P Q m (ret a) w e = w m a e
  Follows-mono P Q m (call s k) w e = (e.0, λ a. Follows-mono P Q (step s a m) (k a) w (e.1 a))
  Follows-mono P Q m stuck w e = tt

module _ {M : Type 0} (step : Sys → Answer → M → M) (gives : Sys → Answer → M → Type 0) where
  -- From `m`, for every answer that the kernel gives, the program returns, and `Q` holds of the
  -- monitor's state and of the result: it does not use up the rounds of a loop.
  abbrev pub Ends : {A : Type 0} → (M → A → Type 0) → M → Prog A → Type 0
  Ends Q m (ret a) = Q m a
  Ends Q m (call s k) = (a : Answer) → gives s a m → Ends Q (step s a m) (k a)
  Ends Q m stuck = ⊥

  pub Ends-then :
      {A B : Type 0} (P : M → A → Type 0) (Q : M → B → Type 0) (m : M) (p : Prog A) (f : A → Prog B)
      → Ends P m p
      → ((m' : M) (a : A) → P m' a → Ends Q m' (f a))
      → Ends Q m (p >>= f)
  Ends-then P Q m (ret a) f e next = next m a e
  Ends-then P Q m (call s k) f e next = λ a g. Ends-then P Q (step s a m) (k a) f (e a g) next
  Ends-then P Q m stuck f e next = absurd e

  pub Ends-mono :
      {A : Type 0} (P Q : M → A → Type 0) (m : M) (p : Prog A)
      → ((m' : M) (a : A) → P m' a → Q m' a)
      → Ends P m p
      → Ends Q m p
  Ends-mono P Q m (ret a) w e = w m a e
  Ends-mono P Q m (call s k) w e = λ a g. Ends-mono P Q (step s a m) (k a) w (e a g)
  Ends-mono P Q m stuck w e = e

abbrev nothing : Sys → Answer → Unit {0} → Unit {0}
nothing s a m = tt

abbrev Anything : Sys → Unit {0} → Type 0
Anything s m = Unit

-- Every result of the program satisfies `P`, for every answer.
abbrev pub Returns : {A : Type 0} → (A → Type 0) → Prog A → Type 0
Returns P p = Follows nothing Anything (λ _ a. P a) tt p

Returns-Anything : {A : Type 0} (p : Prog A) → Returns (λ _. Unit {0}) p
Returns-Anything (ret a) = tt
Returns-Anything (call s k) = (tt, λ a. Returns-Anything (k a))
Returns-Anything stuck = tt

pub Returns-then :
    {A B : Type 0} (P : B → Type 0) (p : Prog A) (f : A → Prog B)
    → ((a : A) → Returns P (f a))
    → Returns P (p >>= f)
Returns-then P p f next =
    Follows-then nothing Anything (λ _ _. Unit {0}) (λ _ b. P b) tt p f (Returns-Anything p)
      (λ m a _. next a)

-- A program whose results satisfy `P`, and what follows it.
pub Returns-after :
    {A B : Type 0} (P : A → Type 0) (Q : B → Type 0) (p : Prog A) (f : A → Prog B)
    → Returns P p
    → ((a : A) → P a → Returns Q (f a))
    → Returns Q (p >>= f)
Returns-after P Q p f e next =
    Follows-then nothing Anything (λ _ a. P a) (λ _ b. Q b) tt p f e (λ m a ok. next a ok)

pub Returns-mono :
    {A : Type 0} (P Q : A → Type 0) (p : Prog A) → ((a : A) → P a → Q a) → Returns P p → Returns Q p
Returns-mono P Q p w e =
    Follows-mono nothing Anything (λ _ a. P a) (λ _ a. Q a) tt p (λ m a ok. w a ok) e
