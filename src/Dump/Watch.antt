-- ===== src/Dump/Watch.antt =====
-- tools/psmsgr-dump.c: the watch loop. The signal can come at any time: a load of `stop` has any answer. The
-- screen is drawn by `dump`; the sequences that clear it are left out.
use ps_msgr.Prelude.{
  ℕ, zero, suc, ◌*◌, Bool, true, false, not, ◌&&◌, ◌||◌, Option, some, List, [], ◌∷◌, ◌==◌,
  if◌then◌else◌,
}
use ps_msgr.Result.{Rc, code}
use ps_msgr.Reader.{Info}
use ps_msgr.Kernel.{Sys, Prog, ret, stuck, ◌>>=◌, ◌>>◌, sys}
use ps_msgr.Lock.{is_ok}
use ps_msgr.Handle.{Handle}
use ps_msgr.Handle.Wait.{wait}
use ps_msgr.Handle.Queries.{Liveness, dead, alive, failed, writer_alive}
use ps_msgr.Dump.View.{Dumped, peek_retries, dump}

abbrev pub watch_timeout_ms : ℕ
watch_timeout_ms = 1000

abbrev pub watch_poll_ns : ℕ
watch_poll_ns = 100 * 1000000

pub record WatchKey : Type 0 where
  pub dev : ℕ
  pub ino : ℕ
  pub peek_rc : Rc
  pub generation : ℕ
  pub alive : Liveness

abbrev generation_of : (okay : Bool) → Option Info → ℕ
generation_of true (some i) = i.generation
generation_of _ _ = 0

unfoldable pub watch_key_of : Handle → (path : List ℕ) → Prog (WatchKey × Handle)
watch_key_of r path = do
  st ← sys (Sys.lstat path)
  g ← peek_retries r
  a ← writer_alive g.handle
  ret (
    record {
      dev = if st.okay then st.stat.dev else 0;
      ino = if st.okay then st.stat.ino else 0;
      peek_rc = g.rc;
      generation = generation_of (is_ok g.rc) g.info;
      alive = a.0;
    },
    a.1,
  )

-- 0, 1, or the code of the error.
unfoldable pub liveness_equal : Liveness → Liveness → Bool
liveness_equal dead dead = true
liveness_equal alive alive = true
liveness_equal (failed a) (failed b) = code a == code b
liveness_equal _ _ = false

unfoldable pub watch_key_equal : (a b : WatchKey) → Bool
watch_key_equal a b =
    a.dev == b.dev
    && a.ino == b.ino
    && code a.peek_rc == code b.peek_rc
    && a.generation == b.generation
    && liveness_equal a.alive b.alive

-- After these codes of `wait` the tool sleeps.
abbrev pub polls : Rc → Bool
polls Rc.ok = false
polls Rc.timeout = false
polls Rc.intr = false
polls _ = true

unfoldable pub pause : Bool → Prog (Unit {0})
pause false = ret tt
pause true = do sys (Sys.nanosleep watch_poll_ns); ret tt

-- Until the key has changed, or the signal has come; so many rounds.
unfoldable pub watch_change :
    (rounds : ℕ) → (key next : WatchKey) → Handle → (path : List ℕ) → Prog (WatchKey × Handle)
watch_change zero key next r path = stuck
watch_change (suc k) key next r path =
    let rest : (WatchKey → Handle → Prog (WatchKey × Handle)) =
      λ next' r'. watch_change k key next' r' path in
    do
      s ← sys Sys.stopped
      if s.okay || not (watch_key_equal next key) then ret (next, r) else (do
        w ← wait k r key.generation (some watch_timeout_ms)
        pause (polls w.0)
        s' ← sys Sys.stopped
        if s'.okay then rest next w.1 else (do x ← watch_key_of w.1 path; rest x.0 x.1))

-- The screens that the loop draws, `rounds` at most.
unfoldable pub watch_screens :
    (rounds : ℕ)
    → WatchKey
    → Handle
    → (hex : Bool) → (path : List ℕ) → Prog (List (WatchKey × Dumped) × Handle)
watch_screens zero key r hex path = stuck
watch_screens (suc k) key r hex path =
    let rest : (WatchKey → Handle → Prog (List (WatchKey × Dumped) × Handle)) =
      λ key' r'. watch_screens k key' r' hex path in
    do
      s ← sys Sys.stopped
      if s.okay then ret ([], r) else (do
        d ← dump r hex path
        n ← watch_change k key key d.handle path
        t ← rest n.0 n.1
        ret ((key, d) ∷ t.0, t.1))

unfoldable pub watch :
    (rounds : ℕ)
    → Handle
    → (hex : Bool) → (path : List ℕ) → Prog (List (WatchKey × Dumped) × Handle)
watch rounds r hex path = do x ← watch_key_of r path; watch_screens rounds x.0 x.1 hex path
