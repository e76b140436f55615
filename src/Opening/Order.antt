-- ===== src/Opening/Order.antt =====
-- The order in which a channel's file is made, gets its name, and retires the one before.
use ps_msgr.Prelude.{
  ℕ, ◌≡◌, refl, sym, subst, Bool, true, false, Option, none, some, List, Bool-cases, inl, inr,
}
use ps_msgr.Layout.{Header, psmi_slot_stride, psmi_file_size, header_valid}
use ps_msgr.Name.{Paths}
use ps_msgr.Options.{Options, new_header}
use ps_msgr.Options.Loading.{IsLegal, new_header-valid}
use ps_msgr.Writer.{Writer}
use ps_msgr.Kernel.{Sys, Answer, Prog, ◌>>=◌}
use ps_msgr.Kernel.Monitor.{Follows}
use ps_msgr.Lock.{is_ok}
use ps_msgr.Opening.{
  Opened, retire, retire_old, unmap_old, create_fail, create_mapped, create_opened, create_file,
}

-- The temporary file that was made last: its name and descriptor, the bytes that are allocated to it,
-- its mapping, the header that was stored into it, and whether a rename has given it the channel's path.
pub record Progress : Type 0 where
  pub tmp : List ℕ
  pub fd : ℕ
  pub allocated : ℕ
  pub map : Option ℕ
  pub header : Option Header
  pub named : Bool

abbrev makes : Bool → List ℕ → ℕ → Progress → Progress
makes true name fd m = record {
  tmp = name;
  fd = fd;
  allocated = 0;
  map = none;
  header = none;
  named = false;
}
makes false name fd m = m

abbrev allocates : Bool → ℕ → Progress → Progress
allocates true size m = record m { allocated = size; header = none }
allocates false size m = m

abbrev maps : Bool → ℕ → Progress → Progress
maps true map m = record m { map = some map }
maps false map m = m

abbrev names : Bool → Progress → Progress
names true m = record m { named = true }
names false m = m

abbrev pub progress : Sys → Answer → Progress → Progress
progress (Sys.mkostemp template) a m = makes a.okay a.name a.value m
progress (Sys.fallocate fd size) a m = allocates a.okay size m
progress (Sys.mmap fd size) a m = maps a.okay a.value m
progress (Sys.store_header map h) a m = record m { header = some h }
progress (Sys.rename from to) a m = names a.okay m
progress _ a m = m

abbrev IsComplete : Option Header → ℕ → Type 0
IsComplete none size = ⊥
IsComplete (some h) size = header_valid h size ≡ true

-- Only the temporary file is allocated, mapped and written to, through its own descriptor and mapping.
-- It alone is renamed, to the channel's path and nowhere else, when its header is stored and valid for
-- the bytes allocated to it; it alone is unlinked, when it has no other name. The only file that is
-- retired is the old one, when the path has come to name the new one.
abbrev pub InOrder : Paths → (old : Option ℕ) → Sys → Progress → Type 0
InOrder p old (Sys.fchmod fd mode) m = fd ≡ m.fd
InOrder p old (Sys.fallocate fd size) m = fd ≡ m.fd
InOrder p old (Sys.mmap fd size) m = (fd ≡ m.fd) × (size ≡ m.allocated)
InOrder p old (Sys.store_header map h) m = m.map ≡ some map
InOrder p old (Sys.rename from to) m =
    (from ≡ m.tmp) × (to ≡ p.data_path) × IsComplete m.header m.allocated
InOrder p old (Sys.unlink path) m = (path ≡ m.tmp) × (m.named ≡ false)
InOrder p old (Sys.or_state map bits) m = (old ≡ some map) × (bits ≡ 1) × (m.named ≡ true)
InOrder p old _ m = Unit

abbrev begun : (fd : ℕ) (tmp : List ℕ) → Progress
begun fd tmp = record {
  tmp = tmp;
  fd = fd;
  allocated = 0;
  map = none;
  header = none;
  named = false;
}

module _ (p : Paths) (old : Option ℕ) where
  retire-rule :
      {B : Type 0} (Q : Progress → B → Type 0) (m : Progress) (f : Unit {0} → Prog B) (o : Option ℕ)
      → o ≡ old
      → m.named ≡ true
      → Follows progress (InOrder p old) Q m (f tt)
      → Follows progress (InOrder p old) Q m (retire_old o >>= f)
  unfolding retire_old retire
  retire-rule Q m f none same e next = next
  retire-rule Q m f (some map) same e next = ((sym same, refl, e), λ _. (tt, λ _. (tt, λ _. next)))

  -- OK is returned when the path names the new file, with that file's mapping.
  abbrev pub Named : Progress → Opened → Type 0
  Named m r = is_ok r.rc ≡ true → (m.named ≡ true) × (m.map ≡ some r.map)

  module _ (w : Writer) (o : Options) (gen : ℕ) (legal : IsLegal o) where
    abbrev file_bytes : ℕ
    file_bytes = psmi_file_size o.slot_count (psmi_slot_stride o.capacity)

    create_fail-Follows :
        (m : Progress) (fd : ℕ) (map : Option ℕ) (size : ℕ)
        → m.named ≡ false
        → Follows progress (InOrder p old) Named m (create_fail w fd map size m.tmp)
    unfolding create_fail unmap_old
    create_fail-Follows m fd none size n = (tt, λ _. ((refl, n), λ _ k. cc))
    create_fail-Follows m fd (some map) size n = (tt, λ _. (tt, λ _. ((refl, n), λ _ k. cc)))

    create_mapped-Follows :
        (m : Progress) (map : ℕ)
        → m.allocated ≡ file_bytes
        → m.map ≡ some map
        → m.named ≡ false
        → Follows progress
            (InOrder p old)
            Named
            m
            (create_mapped w o p old gen m.fd file_bytes map m.tmp)
    unfolding create_mapped
    create_mapped-Follows m map e at n = (
      tt,
      λ t. (
        at,
        λ _. (
          (
            refl,
            refl,
            subst (λ size. header_valid (new_header o t.value) size ≡ true) (sym e)
                (new_header-valid o t.value legal),
          ),
          λ r. elim (Bool-cases r.okay) [
            | inr k ↦ rw k (
                create_fail-Follows (record m { header = some (new_header o t.value) }) m.fd
                  (some map) file_bytes n)
            | inl k ↦ rw k (tt, λ _. retire-rule Named _ _ old refl refl (λ _. (refl, at)))
          ],
        ),
      ),
    )

    create_opened-Follows :
        (fd : ℕ) (tmp : List ℕ)
        → Follows progress
            (InOrder p old)
            Named
            (begun fd tmp)
            (create_opened w o p old gen fd file_bytes tmp)
    unfolding create_opened
    create_opened-Follows fd tmp = (
      refl,
      λ c. elim (Bool-cases c.okay) [
        | inr k ↦ rw k (create_fail-Follows (begun fd tmp) fd none file_bytes refl)
        | inl k ↦ rw k (
          refl,
          λ a. elim (Bool-cases a.okay) [
            | inr k' ↦ rw k' (create_fail-Follows (begun fd tmp) fd none file_bytes refl)
            | inl k' ↦ rw k' (
              (refl, refl),
              λ x. elim (Bool-cases x.okay) [
                | inr k'' ↦ rw k'' (
                    create_fail-Follows (record (begun fd tmp) { allocated = file_bytes }) fd none
                      file_bytes refl)
                | inl k'' ↦ rw k'' (
                    create_mapped-Follows
                      (record (begun fd tmp) { allocated = file_bytes; map = some x.value }) x.value
                      refl refl refl)
              ],
            )
          ],
        )
      ],
    )

    -- With accepted options, and whatever the kernel answers: `create_file` allocates, maps and writes to
    -- no file but the temporary one that it has made. That file alone is renamed, onto the channel's path,
    -- and only when its header is stored and is valid for the bytes that were allocated to it, so that a
    -- reader never opens a file that is not initialised. No file is removed but the temporary one, while
    -- it has no other name. The old file, and no other, is retired, only when the path has come to name
    -- the new one; and OK is returned only then, with the new file's mapping.
    pub create_file-Follows :
        (m : Progress) → Follows progress (InOrder p old) Named m (create_file w o p old gen)
    unfolding create_file
    create_file-Follows m = (
      tt,
      λ a. elim (Bool-cases a.okay) [
        | inr k ↦ rw k (λ k'. cc)
        | inl k ↦ rw k (
          tt,
          λ f. elim (Bool-cases f.okay) [
            | inr k' ↦ rw k' (λ k''. cc)
            | inl k' ↦ rw k' (create_opened-Follows f.value f.name)
          ],
        )
      ],
    )
