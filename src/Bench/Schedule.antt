-- ===== src/Bench/Schedule.antt =====
-- How often the writer process of the benchmark publishes.
use ps_msgr.Prelude.{
  ℕ, zero, suc, ◌+◌, ◌*◌, ◌%◌, ◌^◌, ap, Bool, true, not, [], ◌∷◌, if◌then◌else◌, ◌<◌, ◌≤◌, ◌≡◌,
  refl, subst, Option, none, some, List, ltb, false, Bool-cases, inl, inr, arith,
}
use native.Mathlib.Nat.{le-div_iff_mul-le}
use ps_msgr.Layout.{latest_none}
use ps_msgr.Memory.{File, apply_all}
use ps_msgr.Writer.{Writer}
use ps_msgr.System.{Call, outcome}
use ps_msgr.System.Whole.{IsIdle, publish-IsIdle}
use ps_msgr.Kernel.{Sys, Answer, Prog, ret, ◌>>=◌}
use ps_msgr.Kernel.Monitor.{Ends, Ends-mono}
use ps_msgr.Lock.{is_ok}
use ps_msgr.Opening.Writing.{writer_call}
use ps_msgr.Bench.{Parsed, parse_u32, parse_rate, period_of}
use ps_msgr.Bench.Process.{interrupted, retrying, stamped, stamp_buf, publish_until}

-- A rate that is accepted gives a period from a microsecond to a second.
parse_rate_lem :
    (strtoul : List ℕ → Parsed)
    → (s : List ℕ) → (rate : ℕ) → parse_rate strtoul s ≡ some rate
    → (0 < rate) × (rate ≤ 1000000)
unfolding parse_rate parse_u32
parse_rate_lem strtoul s rate e = ground arith

-- The count of the publishes at `next`, `next + period` and so on that lie before `end_at`.
abbrev pub IsCount : (next end_at period count : ℕ) → Type 0
IsCount next end_at period count =
    (end_at ≤ next + count * period) × (0 < count → next + count * period < end_at + period)

-- The times of those publishes, before others: the last one first.
abbrev pub scheduled : (next period count : ℕ) → (before : List ℕ) → List ℕ
scheduled next period zero before = before
scheduled next period (suc n) before = scheduled (next + period) period n (next ∷ before)

-- The channel's file, the time that the process has slept until, and for each publish the time that it
-- had slept until, the last one first.
pub record Log : Type 0 where
  pub file : File
  pub slept : ℕ
  pub publishes : List ℕ

abbrev pub logs : Sys → Answer → Log → Log
logs (Sys.sleep_until t) a m = record m { slept = t }
logs (Sys.make_stores _ stores) a m = record m {
  file = apply_all stores m.file;
  publishes = m.slept ∷ m.publishes;
}
logs _ a m = m

-- The process alone stores to the channel's file, and no signal interrupts its sleep.
abbrev pub Sleeps : Sys → Answer → Log → Type 0
Sleeps (Sys.enter _) a m = a.file ≡ m.file
Sleeps (Sys.sleep_until t) a m = interrupted a ≡ false
Sleeps _ a m = Unit

one_more :
    (next end_at period count : ℕ)
    → next < end_at
    → IsCount (next + period) end_at period count
    → IsCount next end_at period (suc count)
one_more next end_at period zero lt c = (omega arith, λ _. omega arith)
one_more next end_at period (suc n) lt c =
    (omega (arith, c.0, times), λ _. omega (arith, c.1 (omega arith), times))
  where
    times : suc (suc n) * period ≡ suc n * period + period
    times = grind arith

module _ (n cap end_at period : ℕ) where
  -- The process goes on, and has published at the scheduled times, to the end and no further.
  abbrev pub Counted : (next count : ℕ) → (before : List ℕ) → Log → Option (ℕ × Writer) → Type 0
  Counted next count before m none = ⊥
  Counted next count before m (some (all, w)) =
      (c : ℕ) × (all ≡ count + c)
      × (m.publishes ≡ scheduled next period c before)
      × IsCount next end_at period c
      × IsIdle n cap m.file w

  one_more-Counted :
      (next count : ℕ) (before : List ℕ) (m : Log) (o : Option (ℕ × Writer))
      → next < end_at
      → Counted (next + period) (count + 1) (next ∷ before) m o
      → Counted next count before m o
  one_more-Counted next count before m none lt k = k
  one_more-Counted next count before m (some (all, w)) lt (c, e, l, i, idle) =
      (suc c, omega (arith, e), l, one_more next end_at period c lt i, idle)

  module _ (stamp : Bool) (size map : ℕ) (positive : 0 < period) (small : end_at + period < 2 ^ 64)
      (fits : size ≤ cap) where
    abbrev runs : (k next count : ℕ) → (ℕ → ℕ) → Writer → Prog (Option (ℕ × Writer))
    runs k next count buf w =
        publish_until stamp size end_at period map (suc (suc k)) next count buf w

    -- The publish, with the payload ready.
    publish-Ends :
        (k next count : ℕ) (buf : ℕ → ℕ) (w : Writer) (m : Log)
        → m.slept ≡ next
        → next < end_at
        → IsIdle n cap m.file w
        → w.open_slot ≡ latest_none
        → ((w' : Writer) (m' : Log)
            → m'.publishes ≡ next ∷ m.publishes
            → IsIdle n cap m'.file w'
            → w'.open_slot ≡ latest_none
            → Ends logs Sleeps
                (Counted (next + period) (count + 1) (next ∷ m.publishes))
                m'
                (runs k (next + period) (count + 1) buf w'))
        → Ends logs Sleeps (Counted next count m.publishes) m (do
          x ← writer_call map w (λ now. Call.publishes (some buf) size now)
          if not (is_ok x.0)
              then ret none
              else runs k ((next + period) % 2 ^ 64) (count + 1) buf x.1)
    unfolding writer_call outcome
    publish-Ends k next count buf w m slept lt idle closed rest = λ a e _ _.
        (let d = publish-IsIdle w buf size a.value m.file idle closed fits in
          let word : (next + period) % 2 ^ 64 ≡ next + period = omega (arith, small, lt) in
          rw (e, d.0, word)
            (Ends-mono logs Sleeps (Counted (next + period) (count + 1) (next ∷ m.publishes))
              (Counted next count m.publishes) _ (runs k (next + period) (count + 1) buf _)
              (λ m' o c. one_more-Counted next count m.publishes m' o lt c)
              (rest _ _ (ap (λ t. t ∷ m.publishes) slept) d.1 d.2)))

    -- The time that is put into the payload is any.
    stamped-Ends :
        (Q : Log → Option (ℕ × Writer) → Type 0) (buf : ℕ → ℕ) (m : Log)
        (f : (ℕ → ℕ) → Prog (Option (ℕ × Writer)))
        → ((b : ℕ → ℕ) → Ends logs Sleeps Q m (f b))
        → (s : Bool) → Ends logs Sleeps Q m (stamp_buf s buf >>= f)
    unfolding stamp_buf
    stamped-Ends Q buf m f next true = λ t _. next (stamped t.value buf)
    stamped-Ends Q buf m f next false = next buf

    publish_until-Counted :
        (k next count : ℕ) (buf : ℕ → ℕ) (w : Writer) (m : Log)
        → end_at ≤ next + k
        → IsIdle n cap m.file w
        → w.open_slot ≡ latest_none
        → Ends logs Sleeps (Counted next count m.publishes) m (runs k next count buf w)
    unfolding publish_until retrying
    publish_until-Counted zero next count buf w m le idle closed =
        let over : ltb next end_at ≡ false = ground arith in
        rw over (0, omega arith, refl, (omega arith, λ lt. absurd (omega arith)), idle)
    publish_until-Counted (suc k) next count buf w m le idle closed =
        elim (Bool-cases (ltb next end_at)) [
          | inr over ↦
              rw over (0, omega arith, refl, (ground arith, λ lt. absurd (omega arith)), idle)
          | inl more ↦ rw more (λ a calm. rw calm (
              stamped-Ends (Counted next count m.publishes) buf (record m { slept = next }) _
                (λ b.
                  publish-Ends k next count b w (record m { slept = next }) refl (ground arith) idle
                    closed
                    (λ w' m' e idle' closed'.
                      subst
                        (λ before.
                          Ends logs Sleeps (Counted (next + period) (count + 1) before) m'
                            (runs k (next + period) (count + 1) b w'))
                        e
                        (publish_until-Counted k (next + period) (count + 1) b w' m'
                          (omega (arith, le, positive)) idle' closed')))
                stamp))
        ]

-- At every rate that the option parser accepts, on a channel that the writer process has to itself and
-- whose payloads fit, with enough rounds and sleeps that no signal interrupts, the loop ends and the process
-- goes on. It has then published once for every period that begins before the end, each time when it had
-- slept until that period began: it neither skips one nor publishes behind the end. It returns their number.
-- The clock is a 64-bit word that does not wrap round before then.
pub publish_until-IsCount :
    (strtoul : List ℕ → Parsed)
    → (s : List ℕ) → (rate start end_at : ℕ) → parse_rate strtoul s ≡ some rate
    → end_at + period_of rate < 2 ^ 64
    → (n cap : ℕ) (stamp : Bool) (size map k : ℕ) → size ≤ cap
    → end_at ≤ start + period_of rate + k
    → (buf : ℕ → ℕ) (w : Writer) (f : File) → IsIdle n cap f w
    → w.open_slot ≡ latest_none
    → Ends logs Sleeps
        (Counted n cap end_at (period_of rate) (start + period_of rate) 0 [])
        (record { file = f; slept = 0; publishes = [] })
        (publish_until stamp size end_at
          (period_of rate)
          map
          (suc (suc k))
          (start + period_of rate)
          0
          buf
          w)
publish_until-IsCount strtoul s rate start end_at e small n cap stamp size map k fits le buf w f
      idle closed =
    let r = parse_rate_lem strtoul s rate e in
    let positive : 0 < period_of rate =
      omega (arith, (le-div_iff_mul-le {x = 1000} {y = 1000000000} r.0).1 (omega (arith, r.1))) in
    publish_until-Counted n cap end_at (period_of rate) stamp size map positive small fits k
      (start + period_of rate) 0 buf w (record { file = f; slept = 0; publishes = [] }) le idle
      closed
