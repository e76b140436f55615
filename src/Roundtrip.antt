-- ===== src/Roundtrip.antt =====
-- A writer's publish followed by a reader's read.
use ps_msgr.Prelude.{ℕ, ◌≤◌, ◌<◌, ◌≡◌, ◌⊎◌, inl, inr, ap, ◌∙◌, Bool, true, false, some, [], arith}
use ps_msgr.Memory.{File, apply_all}
use ps_msgr.Result.{Rc}
use ps_msgr.Writer.{publish}
use ps_msgr.System.{System}
use ps_msgr.System.Guards.{IsLive}
use ps_msgr.System.Soundness.{IsSound, publish-IsSafe}
use ps_msgr.System.Publish.{Offers, publish-Offers, ready, apply_all-IsSafe}
use ps_msgr.Reader.{Info, Memcpy, Reading, read_latest}
use ps_msgr.Reader.Snapshot.{IsNothing, IsSnapshot, latest_slot}
use ps_msgr.Reader.Quiet.{read_latest-Settles}

-- the reading of a file that offers a known value
Offers-read :
    {gen len now : ℕ} {bytes : ℕ → ℕ} {f : File} (size : ℕ) (copy : Bool) (r : Reading)
    → Offers gen len now bytes f
    → len ≤ size
    → (IsNothing size copy f r) ⊎ (IsSnapshot size copy f r)
    → (r.rc ≡ Rc.ok)
      × (r.info ≡ some (record { generation = gen; length = len; timestamp_ns = now; flags = 0 }))
      × (copy ≡ true → (k : ℕ) → k < len → r.buf k ≡ bytes k)
Offers-read size copy r o h (inl nothing) = absurd (o.published nothing.2)
Offers-read {len} {f} size copy r o h (inr s) = (
  succeeded s.verdict,
  s.info_ok ∙ ap some o.info_ok,
  λ c k lt. (s.bytes (succeeded s.verdict) c).1 k (omega (arith, length_ok)) ∙ o.bytes_ok k lt,
)
  where
    length_ok : (latest_slot f).length ≡ len
    length_ok = ap (λ (x : Info). x.length) o.info_ok

    succeeded :
        (r.rc ≡ Rc.ok) ⊎ ((r.rc ≡ Rc.toosmall) × (copy ≡ true) × (size < (latest_slot f).length))
        → r.rc ≡ Rc.ok
    succeeded (inl e) = e
    succeeded (inr e) = absurd (omega (arith, e.2, length_ok))

-- After a publish that returned OK, and with no other store, a read into a buffer of at least `len`
-- bytes returns OK in its first round: `*info` has the generation that the publish returned, its
-- length and its clock, and a read that copies leaves the published bytes in the buffer. A peek
-- (`copy` false) gives the same `*info`.
pub read-publish :
    {n cap : ℕ} {s : System} (v : IsSound n cap s)
    → s.pending ≡ []
    → (cpy : Memcpy) (bytes : ℕ → ℕ) (len now size : ℕ) (copy : Bool) (buf : ℕ → ℕ) (t : ℕ)
    → len ≤ size
    → (publish (some s.writer) (some bytes) len now s.file).rc ≡ Rc.ok
    → let o = publish (some s.writer) (some bytes) len now s.file in
      let r = read_latest cpy (λ _. apply_all o.stores s.file) n cap size copy false buf t in
      (o.generation ≡ some s.writer.gen)
      × (r.rc ≡ Rc.ok)
      × (r.info
          ≡ some
              (record { generation = s.writer.gen; length = len; timestamp_ns = now; flags = 0 }))
      × (copy ≡ true → (k : ℕ) → k < len → r.buf k ≡ bytes k)
read-publish {n} {cap} {s} v idle cpy bytes len now size copy buf t h rc_ok =
    let o = publish (some s.writer) (some bytes) len now s.file in
    let f : File = apply_all o.stores s.file in
    let live : IsLive n cap f =
      (apply_all-IsSafe n cap _ v.few o.stores s.file
        (publish-IsSafe n cap v (ready v idle) (some bytes) len now) v.live).1 in
    let offered = publish-Offers v idle bytes len now rc_ok in
    let read =
      Offers-read size copy (read_latest cpy (λ _. f) n cap size copy false buf t) offered.1 h
        (read_latest-Settles n cap f v.few live cpy size copy buf t) in
    (offered.0, read.0, read.1, read.2)
