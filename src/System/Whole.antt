-- ===== src/System/Whole.antt =====
-- A call of the writer that runs to its end, with all of its stores, and no crash.
use ps_msgr.Prelude.{
  ℕ, zero, suc, ◌+◌, ◌<◌, ◌≡◌, ◌≢◌, refl, sym, ap, subst, some, List, [], ◌∷◌, ltb, ◌==◌, arith,
  false, true, ◌≤◌,
}
use ps_msgr.Layout.{latest_none}
use ps_msgr.Memory.{File, Store, apply, apply_all}
use ps_msgr.Result.{Rc}
use ps_msgr.Writer.{
  Writer, publish, begin_slot, commit_slot, committed, begin, commit, target, copy_in,
}
use ps_msgr.System.{System, execute, Call, outcome, handle, start_call, Step, stores, calls, fills}
use ps_msgr.System.Soundness.{IsSound, Step-IsSound}
use ps_msgr.System.Publish.{Offers, publish-Offers, ready, small_target}

-- A channel between two calls of its writer: the file, and the handle.
pub record IsIdle (n cap : ℕ) (f : File) (w : Writer) : Type 0 where
  pub system : System
  pub file_ok : system.file ≡ f
  pub writer_ok : system.writer ≡ w
  pub idle : system.pending ≡ []
  pub sound : IsSound n cap system

IsIdle-drained :
    {n cap : ℕ} (p : List Store) (s : System)
    → s.pending ≡ p
    → IsSound n cap s
    → IsIdle n cap (apply_all p s.file) s.writer
unfolding apply_all execute
IsIdle-drained [] s e v = record {
  system = s;
  file_ok = refl;
  writer_ok = refl;
  idle = e;
  sound = v;
}
IsIdle-drained (a ∷ p) s e v =
    IsIdle-drained p (execute a p s) refl (Step-IsSound _ _ (stores s a p e) v)

-- A whole call leads from an idle channel to an idle channel.
pub outcome-IsIdle :
    {n cap : ℕ} (c : Call) (f : File) (w : Writer)
    → IsIdle n cap f w
    → IsIdle n cap (apply_all (outcome c w f).stores f) (handle w (outcome c w f).writer)
unfolding start_call
outcome-IsIdle {n} {cap} c f w i =
    rw (sym i.file_ok, sym i.writer_ok)
      (IsIdle-drained (outcome c i.system.writer i.system.file).stores (start_call c i.system) refl
        (Step-IsSound n cap (calls i.system c i.idle) i.sound))

-- Between `begin` and `commit` the handle has an open slot; else a publish that fits succeeds.
pub publish-fits :
    (w : Writer) (bytes : ℕ → ℕ) (len now : ℕ) (f : File)
    → w.open_slot ≡ latest_none
    → len ≤ w.capacity
    → let o = publish (some w) (some bytes) len now f in
      (o.rc ≡ Rc.ok) × ((handle w o.writer).open_slot ≡ latest_none)
unfolding publish begin_slot commit_slot committed
publish-fits w bytes len now f closed fits = rw (closed, is_fit) (refl, refl)
  where
    is_fit : ltb w.capacity len ≡ false
    is_fit = ground arith

room : {n cap : ℕ} (f : File) (w : Writer) → IsIdle n cap f w → w.capacity ≡ cap
room f w i = subst (λ (x : Writer). x.capacity ≡ _) i.writer_ok (ready i.sound i.idle).capacity_ok

-- So it leads from an idle channel to one that offers what was published.
pub publish-IsIdle :
    {n cap : ℕ} (w : Writer) (bytes : ℕ → ℕ) (len now : ℕ) (f : File)
    → IsIdle n cap f w
    → w.open_slot ≡ latest_none
    → len ≤ cap
    → let o = publish (some w) (some bytes) len now f in
      let g = apply_all o.stores f in
      (o.rc ≡ Rc.ok)
      × IsIdle n cap g (handle w o.writer)
      × ((handle w o.writer).open_slot ≡ latest_none)
      × Offers w.gen len now bytes g
unfolding outcome
publish-IsIdle {n} {cap} w bytes len now f i closed fits =
    let done = publish-fits w bytes len now f closed (omega (arith, fits, room f w i)) in
    (
      done.0,
      outcome-IsIdle (Call.publishes (some bytes) len now) f w i,
      done.1,
      subst
          (λ (x : Writer × File).
            (publish (some x.0) (some bytes) len now x.1).rc ≡ Rc.ok
            → Offers x.0.gen len now bytes
                (apply_all (publish (some x.0) (some bytes) len now x.1).stores x.1))
          (λ p. (i.writer_ok p, i.file_ok p))
          (λ e. (publish-Offers i.sound i.idle bytes len now e).1) done.0,
    )

-- A begin succeeds and opens a slot.
pub begin-IsIdle :
    {n cap : ℕ} (w : Writer) (f : File)
    → IsIdle n cap f w
    → w.open_slot ≡ latest_none
    → let o = begin (some w) true f in
      (o.rc ≡ Rc.ok)
      × IsIdle n cap (apply_all o.stores f) (handle w o.writer)
      × ((handle w o.writer).open_slot ≢ latest_none)
unfolding outcome begin begin_slot
begin-IsIdle w f i closed = (done.0, outcome-IsIdle (Call.begins true) f w i, done.1)
  where
    small : target w < 16
    small = subst (λ (x : Writer). target x < 16) i.writer_ok (small_target i.sound i.idle)

    is_closed : (w.open_slot == latest_none) ≡ true
    is_closed = ground (arith, closed)

    done :
        ((begin (some w) true f).rc ≡ Rc.ok)
        × ((handle w (begin (some w) true f).writer).open_slot ≢ latest_none)
    done = rw is_closed (refl, λ e. omega (arith, e, small))

-- What the caller writes into the open slot.
pub copy_in-IsIdle :
    {n cap : ℕ} (w : Writer) (bytes : ℕ → ℕ) (k m : ℕ) (f : File)
    → IsIdle n cap f w
    → w.open_slot ≢ latest_none
    → k + m ≤ cap
    → IsIdle n cap (apply_all (copy_in w.open_slot bytes k m) f) w
unfolding copy_in apply_all
copy_in-IsIdle w bytes k zero f i opened le = i
copy_in-IsIdle {n} {cap} w bytes k (suc m) f i opened le =
    copy_in-IsIdle w bytes (k + 1) m _ written opened (omega arith)
  where
    written : IsIdle n cap (apply (Store.set_byte w.open_slot k (bytes k)) f) w
    written = record {
      system = record i.system {
        file = apply (Store.set_byte w.open_slot k (bytes k)) i.system.file;
      };
      file_ok = ap (apply (Store.set_byte w.open_slot k (bytes k))) i.file_ok;
      writer_ok = i.writer_ok;
      idle = i.idle;
      sound =
          Step-IsSound n cap
            (subst
              (λ (x : Writer). Step i.system (record i.system {
                file = apply (Store.set_byte x.open_slot k (bytes k)) i.system.file;
              }))
              i.writer_ok
              (fills i.system k (bytes k) i.idle
                (subst (λ (x : Writer). x.open_slot ≢ latest_none) (sym i.writer_ok) opened)
                (omega (arith, le, (ready i.sound i.idle).capacity_ok))))
            i.sound;
    }

-- A commit that fits succeeds and closes the slot.
pub commit-IsIdle :
    {n cap : ℕ} (w : Writer) (len now : ℕ) (f : File)
    → IsIdle n cap f w
    → w.open_slot ≢ latest_none
    → len ≤ cap
    → let o = commit (some w) len now in
      (o.rc ≡ Rc.ok)
      × IsIdle n cap (apply_all o.stores f) (handle w o.writer)
      × ((handle w o.writer).open_slot ≡ latest_none)
unfolding outcome commit commit_slot committed
commit-IsIdle w len now f i opened le =
    (done.0, outcome-IsIdle (Call.commits_with len now) f w i, done.1)
  where
    open_ok : (w.open_slot == latest_none) ≡ false
    open_ok = ground (arith, opened)

    is_fit : ltb w.capacity len ≡ false
    is_fit = ground (arith, room f w i, le)

    done :
        ((commit (some w) len now).rc ≡ Rc.ok)
        × ((handle w (commit (some w) len now).writer).open_slot ≡ latest_none)
    done = rw (open_ok, is_fit) (refl, refl)
