-- ===== src/Kernel/Resources.antt =====
-- The descriptors, mappings and locks that a program holds, whatever the kernel answers.
use ps_msgr.Prelude.{ℕ, ◌≡◌, Bool, true, false, List, [], ◌∷◌, ◌==◌, if◌then◌else◌, arith}
use ps_msgr.Kernel.{Sys, Answer, Prog, ret, call, stuck, ◌>>=◌}

pub record Held : Type 0 where
  pub fds : List ℕ
  pub maps : List ℕ
  pub locks : List ℕ

abbrev pub remove : ℕ → List ℕ → List ℕ
remove x [] = []
remove x (y ∷ ys) = if x == y then ys else y ∷ remove x ys

abbrev pub is_in : ℕ → List ℕ → Bool
is_in x [] = false
is_in x (y ∷ ys) = if x == y then true else is_in x ys

pub is_in-head : (x : ℕ) (xs : List ℕ) → is_in x (x ∷ xs) ≡ true
is_in-head x xs = ground arith

pub remove-head : (x : ℕ) (xs : List ℕ) → remove x (x ∷ xs) ≡ xs
remove-head x xs = ground arith

abbrev gain : Bool → ℕ → List ℕ → List ℕ
gain true x xs = x ∷ xs
gain false x xs = xs

-- Documented behaviour: what a call that succeeds adds to, or takes from, what is held. Closing a
-- descriptor releases its lock; a directory's descriptor has none.
abbrev pub after : Sys → Answer → Held → Held
after (Sys.open_excl _) a h = record h { fds = gain a.okay a.value h.fds }
after (Sys.open_rdwr _) a h = record h { fds = gain a.okay a.value h.fds }
after (Sys.open_rdonly _) a h = record h { fds = gain a.okay a.value h.fds }
after (Sys.mkostemp _) a h = record h { fds = gain a.okay a.value h.fds }
after (Sys.opendir _) a h = record h { fds = gain a.okay a.value h.fds }
after (Sys.closedir fd) a h = record h { fds = remove fd h.fds }
after Sys.pipe a h = record h { fds = gain a.okay a.value (gain a.okay a.other h.fds) }
after (Sys.close fd) a h = record h { fds = remove fd h.fds; locks = remove fd h.locks }
after (Sys.set_lock fd) a h = record h { locks = gain a.okay fd h.locks }
after (Sys.mmap _ _) a h = record h { maps = gain a.okay a.value h.maps }
after (Sys.munmap map _) a h = record h { maps = remove map h.maps }
after _ a h = h

-- Documented behaviour: a new descriptor or mapping is none of those held.
abbrev pub IsFresh : Sys → Answer → Held → Type 0
IsFresh (Sys.open_excl _) a h = a.okay ≡ true → is_in a.value h.fds ≡ false
IsFresh (Sys.open_rdwr _) a h = a.okay ≡ true → is_in a.value h.fds ≡ false
IsFresh (Sys.open_rdonly _) a h = a.okay ≡ true → is_in a.value h.fds ≡ false
IsFresh (Sys.opendir _) a h = a.okay ≡ true → is_in a.value h.fds ≡ false
IsFresh (Sys.mkostemp _) a h = a.okay ≡ true → is_in a.value h.fds ≡ false
IsFresh (Sys.mmap _ _) a h = a.okay ≡ true → is_in a.value h.maps ≡ false
IsFresh Sys.pipe a h = a.okay ≡ true → is_in a.value (a.other ∷ h.fds) ≡ false
IsFresh _ a h = Unit

-- Only what is held is used: no call on a descriptor that is closed, nor on memory that is unmapped.
abbrev pub IsAllowed : Sys → Held → Type 0
IsAllowed (Sys.unlinkat fd _) h = is_in fd h.fds ≡ true
IsAllowed (Sys.closedir fd) h = is_in fd h.fds ≡ true
IsAllowed (Sys.fchmod fd _) h = is_in fd h.fds ≡ true
IsAllowed (Sys.fallocate fd _) h = is_in fd h.fds ≡ true
IsAllowed (Sys.set_lock fd) h = is_in fd h.fds ≡ true
IsAllowed (Sys.get_lock fd) h = is_in fd h.fds ≡ true
IsAllowed (Sys.fstat fd) h = is_in fd h.fds ≡ true
IsAllowed (Sys.pread_header fd) h = is_in fd h.fds ≡ true
IsAllowed (Sys.pread_latest fd) h = is_in fd h.fds ≡ true
IsAllowed (Sys.pread_slot fd _) h = is_in fd h.fds ≡ true
IsAllowed (Sys.mmap fd _) h = is_in fd h.fds ≡ true
IsAllowed (Sys.close fd) h = is_in fd h.fds ≡ true
IsAllowed (Sys.write_word fd _) h = is_in fd h.fds ≡ true
IsAllowed (Sys.read_word fd) h = is_in fd h.fds ≡ true
IsAllowed (Sys.munmap map _) h = is_in map h.maps ≡ true
IsAllowed (Sys.futex_wait map _ _) h = is_in map h.maps ≡ true
IsAllowed (Sys.futex_wake map) h = is_in map h.maps ≡ true
IsAllowed (Sys.load_latest map) h = is_in map h.maps ≡ true
IsAllowed (Sys.load_state map) h = is_in map h.maps ≡ true
IsAllowed (Sys.load_notify map) h = is_in map h.maps ≡ true
IsAllowed (Sys.load_generation map _ _) h = is_in map h.maps ≡ true
IsAllowed (Sys.store_header map _) h = is_in map h.maps ≡ true
IsAllowed (Sys.store_pid map _) h = is_in map h.maps ≡ true
IsAllowed (Sys.or_state map _) h = is_in map h.maps ≡ true
IsAllowed (Sys.add_notify map) h = is_in map h.maps ≡ true
IsAllowed (Sys.enter map) h = is_in map h.maps ≡ true
IsAllowed (Sys.make_stores map _) h = is_in map h.maps ≡ true
IsAllowed (Sys.read_latest map _ _ _ _ _) h = is_in map h.maps ≡ true
IsAllowed _ h = Unit

-- From `h`, the program makes only calls that are allowed, and if it returns, `Q` holds of what it then
-- holds and of its result: for every answer that the kernel can give.
abbrev pub Ensures : {A : Type 0} → (Held → A → Type 0) → Held → Prog A → Type 0
Ensures Q h (ret a) = Q h a
Ensures Q h (call s k) =
    IsAllowed s h × ((a : Answer) → IsFresh s a h → Ensures Q (after s a h) (k a))
Ensures Q h stuck = Unit

pub Ensures->>= :
    {A B : Type 0} (Q : Held → B → Type 0) (h : Held) (p : Prog A) (f : A → Prog B)
    → Ensures (λ h' a. Ensures Q h' (f a)) h p
    → Ensures Q h (p >>= f)
Ensures->>= Q h (ret a) f e = e
Ensures->>= Q h (call s k) f e = (e.0, λ a fr. Ensures->>= Q (after s a h) (k a) f (e.1 a fr))
Ensures->>= Q h stuck f e = tt

pub Ensures-mono :
    {A : Type 0} (P Q : Held → A → Type 0) (h : Held) (p : Prog A)
    → ((h' : Held) (a : A) → P h' a → Q h' a)
    → Ensures P h p
    → Ensures Q h p
Ensures-mono P Q h (ret a) w e = w h a e
Ensures-mono P Q h (call s k) w e = (e.0, λ a fr. Ensures-mono P Q (after s a h) (k a) w (e.1 a fr))
Ensures-mono P Q h stuck w e = tt

-- A program and what follows it.
pub Ensures-then :
    {A B : Type 0} (P : Held → A → Type 0) (Q : Held → B → Type 0) (h : Held) (p : Prog A)
    (f : A → Prog B)
    → Ensures P h p
    → ((h' : Held) (a : A) → P h' a → Ensures Q h' (f a))
    → Ensures Q h (p >>= f)
Ensures-then P Q h p f e next = Ensures->>= Q h p f (Ensures-mono P _ h p next e)
