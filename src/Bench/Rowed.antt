-- ===== src/Bench/Rowed.antt =====
-- The rows of a writer that has its channel to itself.
use ps_msgr.Prelude.{
  ℕ, zero, suc, ◌+◌, ◌-◌, ◌%◌, ◌^◌, ◌≡◌, refl, ap, Option, none, some, List, [], ◌∷◌,
}
use ps_msgr.Memory.{File}
use ps_msgr.Kernel.{Prog, ret}
use ps_msgr.Kernel.Monitor.{Ends, Ends-then}
use ps_msgr.Bench.{Samples, samples_init, samples_add}
use ps_msgr.Bench.Setup.{Config, Platform, Entry}
use ps_msgr.Bench.Operations.{◌>>?◌, OpCtx, OpFn}
use ps_msgr.Bench.Measuring.{repeat, take_samples, measure}
use ps_msgr.Bench.Uncontended.{measure_rows, writer_rows}
use ps_msgr.Bench.Working.{stores_to, FindsFile, Still, Closed, Has, op_writer-Ends}

>>?-Ends :
    {A B : Type 0} (P : File → A → Type 0) (Q : File → B → Type 0) (f : File) (p : Prog (Option A))
    (g : A → Prog (Option B))
    → Ends stores_to FindsFile (Still P) f p
    → ((f' : File) (a : A) → P f' a → Ends stores_to FindsFile (Still Q) f' (g a))
    → Ends stores_to FindsFile (Still Q) f (p >>? g)
>>?-Ends P Q f p g e next = Ends-then stores_to FindsFile (Still P) (Still Q) f p _ e go
  where
    go :
        (f' : File) (o : _)
        → Still P f' o
        → Ends stores_to FindsFile (Still Q) f' (elim o [ none ↦ ret none | some a ↦ g a ])
    go f' none k = absurd k
    go f' (some a) k = next f' a k

module _ (I : File → OpCtx → Type 0) (op : OpFn)
    (works : (f : File) (c : OpCtx) → I f c → Ends stores_to FindsFile (Still I) f (op c)) where
  repeat-Ends :
      (k : ℕ) (f : File) (c : OpCtx) → I f c → Ends stores_to FindsFile (Still I) f (repeat op k c)
  unfolding repeat
  repeat-Ends zero f c i = i
  repeat-Ends (suc k) f c i = >>?-Ends I I f (op c) (repeat op k) (works f c i) (repeat-Ends k)

  take_samples-Ends :
      (batch n : ℕ) (s : Samples) (f : File) (c : OpCtx)
      → I f c
      → Ends stores_to FindsFile (Still (λ f' x. I f' x.1)) f (take_samples op batch n s c)
  unfolding take_samples
  take_samples-Ends batch zero s f c i = i
  take_samples-Ends batch (suc n) s f c i = λ t₀ _.
      >>?-Ends I (λ f' x. I f' x.1) f (repeat op batch c) _ (repeat-Ends batch f c i)
        (λ f' c' i'. λ t₁ _.
          take_samples-Ends batch n (samples_add s ((t₁.value + 2 ^ 64 - t₀.value) % 2 ^ 64)) f' c'
            i')

  measure-Ends :
      (sort : (ℕ → ℕ) → ℕ → ℕ → ℕ) (warmup batch n : ℕ) (f : File) (c : OpCtx)
      → I f c
      → Ends stores_to FindsFile (Still (λ f' x. I f' x.1)) f (measure op sort warmup batch n c)
  unfolding measure
  measure-Ends sort warmup batch n f c i =
      >>?-Ends I (λ f' x. I f' x.1) f (repeat op warmup c) _ (repeat-Ends warmup f c i)
        (λ f' c' i'. λ m okay. rw okay (
          >>?-Ends (λ f'' x. I f'' x.1) (λ f'' x. I f'' x.1) f'
            (take_samples op batch n (samples_init n) c') _
            (take_samples-Ends batch n (samples_init n) f' c' i') (λ f'' x k. k)))

abbrev pub tests_of : List (List ℕ × OpFn) → List (List ℕ)
tests_of [] = []
tests_of ((test, op) ∷ ops) = test ∷ tests_of ops

abbrev pub printed : List Entry → List (List ℕ)
printed [] = []
printed (e ∷ es) = e.test ∷ printed es

module _ (p : Platform) (cfg : Config) (I : File → OpCtx → Type 0) (batch n : ℕ) where
  abbrev AllWork : List (List ℕ × OpFn) → Type 0
  AllWork [] = Unit
  AllWork ((test, op) ∷ ops) =
      ((f : File) (c : OpCtx) → I f c → Ends stores_to FindsFile (Still I) f (op c)) × AllWork ops

  measure_rows-Ends :
      (ops : List (List ℕ × OpFn))
      → AllWork ops
      → (f : File) (c : OpCtx) → I f c
      → Ends stores_to FindsFile
          (Still (λ f' x. (printed x.0 ≡ tests_of ops) × I f' x.1))
          f
          (measure_rows p cfg batch n ops c)
  unfolding measure_rows
  measure_rows-Ends [] w f c i = (refl, i)
  measure_rows-Ends ((test, op) ∷ ops) w f c i =
      >>?-Ends (λ f' x. I f' x.1) (λ f' x. (printed x.0 ≡ test ∷ tests_of ops) × I f' x.1) f
        (measure op p.sort cfg.warmup batch n c) _
        (measure-Ends I op w.0 p.sort cfg.warmup batch n f c i)
        (λ f' x k.
          >>?-Ends (λ f'' y. (printed y.0 ≡ tests_of ops) × I f'' y.1)
            (λ f'' y. (printed y.0 ≡ test ∷ tests_of ops) × I f'' y.1) f'
            (measure_rows p cfg batch n ops x.1) _ (measure_rows-Ends ops w.1 f' x.1 k)
            (λ f'' y z. (ap (λ ts. test ∷ ts) z.0, z.1)))

-- Let the process have the channel to itself, let its payloads fit, and let there be memory. Then the
-- rows of the NO_NOTIFY writer are all printed, in order: no operation of any of them dies, however many
-- are made, and the channel is left sound and without an open slot.
pub writer_rows-Ends :
    (slots room : ℕ) (p : Platform) (cfg : Config) (f : File) (c : OpCtx)
    → Has slots room (Closed slots room) f c
    → Ends stores_to FindsFile
        (Still (λ f' x.
          (printed x.0 ≡ tests_of (writer_rows p cfg)) × Has slots room (Closed slots room) f' x.1))
        f
        (measure_rows p cfg cfg.batch cfg.iterations (writer_rows p cfg) c)
writer_rows-Ends slots room p cfg f c i =
    measure_rows-Ends p cfg (Has slots room (Closed slots room)) cfg.batch cfg.iterations
      (writer_rows p cfg)
      (
        (λ f c i. (op_writer-Ends slots room f c i).0),
        (
          (λ f c i. (op_writer-Ends slots room f c i).1),
          (
            (λ f c i. (op_writer-Ends slots room f c i).2),
            ((λ f c i. (op_writer-Ends slots room f c i).3), tt),
          ),
        ),
      )
      f c i
