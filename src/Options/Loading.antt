-- ===== src/Options/Loading.antt =====
-- What `load_options` accepts, and that readers accept the files created from it.
use ps_msgr.Prelude.{
  ℕ, ◌*◌, ◌/◌, ◌%◌, ◌^◌, ◌≤◌, ◌<◌, ◌≡◌, ◌≢◌, ◌↔◌, refl, sym, subst, ap, leb, if◌then◌else◌, true,
  false, Option, none, some, List, [], ◌∷◌, arith, bit_and, Bool-cases, ◌==◌, inl, inr,
}
use ps_msgr.Prelude.Bits.{bit_and_shift, bit_and-ones}
use ps_msgr.Layout.{header_valid, psmi_file_size, psmi_slot_stride}
use ps_msgr.Layout.Geometry.{IsValidHeader-header_valid}
use ps_msgr.Options.{Options, merged, options_bad, load_options, new_header, is_empty_text}

flags_mask : (x : ℕ) → bit_and x 0xFFFFFFFC ≡ x / 4 % 2 ^ 30 * 4
flags_mask x = omega (
  arith,
  bit_and_shift x 0x7FFFFFFE,
  bit_and_shift (x / 2) 0x3FFFFFFF,
  bit_and-ones 30 (x / 2 / 2),
)

mode_mask : (x : ℕ) → bit_and x 0xFFFFF000 ≡ x / 4096 % 2 ^ 20 * 4096
mode_mask x = omega (
  arith,
  bit_and_shift x 0x7FFFF800,
  bit_and_shift (x / 2) 0x3FFFFC00,
  bit_and_shift (x / 2 / 2) 0x1FFFFE00,
  bit_and_shift (x / 2 / 2 / 2) 0xFFFFF00,
  bit_and_shift (x / 2 / 2 / 2 / 2) 0x7FFFF80,
  bit_and_shift (x / 2 / 2 / 2 / 2 / 2) 0x3FFFFC0,
  bit_and_shift (x / 2 / 2 / 2 / 2 / 2 / 2) 0x1FFFFE0,
  bit_and_shift (x / 2 / 2 / 2 / 2 / 2 / 2 / 2) 0xFFFFF0,
  bit_and_shift (x / 2 / 2 / 2 / 2 / 2 / 2 / 2 / 2) 0x7FFFF8,
  bit_and_shift (x / 2 / 2 / 2 / 2 / 2 / 2 / 2 / 2 / 2) 0x3FFFFC,
  bit_and_shift (x / 2 / 2 / 2 / 2 / 2 / 2 / 2 / 2 / 2 / 2) 0x1FFFFE,
  bit_and_shift (x / 2 / 2 / 2 / 2 / 2 / 2 / 2 / 2 / 2 / 2 / 2) 0xFFFFF,
  bit_and-ones 20 (x / 2 / 2 / 2 / 2 / 2 / 2 / 2 / 2 / 2 / 2 / 2 / 2),
)

-- the limits that the documentation states
pub record IsLegal (o : Options) : Type 0 where
  pub capacity_ok : o.capacity ≤ 0x1000000
  pub slots_min : 2 ≤ o.slot_count
  pub slots_max : o.slot_count ≤ 16
  pub mode_ok : o.mode ≤ 0o7777
  pub flags_ok : o.flags ≤ 3
  pub dir_ok : o.dir ≢ some []

is_empty_text_iff : (d : Option (List ℕ)) → (is_empty_text d ≡ true) ↔ (d ≡ some [])
is_empty_text_iff none = (λ e. cc, λ e. cc)
is_empty_text_iff (some []) = (λ e. refl, λ e. refl)
is_empty_text_iff (some (c ∷ cs)) = (λ e. cc, λ e. cc)

options_bad-IsLegal :
    (o : Options) → o.mode < 2 ^ 32 → o.flags < 2 ^ 32 → (options_bad o ≡ false) ↔ IsLegal o
unfolding options_bad
options_bad-IsLegal o hm hf = (
  λ e. ground (arith, mode_mask o.mode, flags_mask o.flags, is_empty_text_iff o.dir),
  λ l. ground (arith, mode_mask o.mode, flags_mask o.flags, is_empty_text_iff o.dir),
)

merged_words :
    (own : ℕ) (opt : Options)
    → opt.mode < 2 ^ 32
    → opt.flags < 2 ^ 32
    → ((merged own opt).mode < 2 ^ 32) × ((merged own opt).flags < 2 ^ 32)
unfolding merged
merged_words own opt hm hf = (ground arith, ground arith)

-- The options `m` that a caller's struct stands for: the fields that lie inside the size that the
-- struct states are the caller's, and the other ones are the defaults. A field ends at the offset given.
pub record IsCovered (own : ℕ) (opt m : Options) : Type 0 where
  pub size_ok : m.struct_size ≡ own
  pub capacity_in : 8 ≤ opt.struct_size → m.capacity ≡ opt.capacity
  pub capacity_out : opt.struct_size < 8 → m.capacity ≡ 0
  pub slots_in : 12 ≤ opt.struct_size → m.slot_count ≡ opt.slot_count
  pub slots_out : opt.struct_size < 12 → m.slot_count ≡ 3
  pub type_in : 16 ≤ opt.struct_size → m.payload_type ≡ opt.payload_type
  pub type_out : opt.struct_size < 16 → m.payload_type ≡ 0
  pub mode_in : 20 ≤ opt.struct_size → m.mode ≡ opt.mode
  pub mode_out : opt.struct_size < 20 → m.mode ≡ 0o644
  pub flags_in : 24 ≤ opt.struct_size → m.flags ≡ opt.flags
  pub flags_out : opt.struct_size < 24 → m.flags ≡ 0
  pub dir_in : own ≤ opt.struct_size → m.dir ≡ opt.dir
  pub dir_out : opt.struct_size < own → m.dir ≡ none

merged-IsCovered : (own : ℕ) (opt : Options) → IsCovered own opt (merged own opt)
unfolding merged
merged-IsCovered own opt = record {
  size_ok = refl;
  capacity_in = λ h. ground arith;
  capacity_out = λ h. ground arith;
  slots_in = λ h. ground arith;
  slots_out = λ h. ground arith;
  type_in = λ h. ground arith;
  type_out = λ h. ground arith;
  mode_in = λ h. ground arith;
  mode_out = λ h. ground arith;
  flags_in = λ h. ground arith;
  flags_out = λ h. ground arith;
  dir_in = λ h. ground arith;
  dir_out = λ h. ground arith;
}

-- A value that is one thing inside the size and another outside it.
chosen :
    {A : Type 0} (x a d : A) (end size : ℕ)
    → (end ≤ size → x ≡ a)
    → (size < end → x ≡ d)
    → x ≡ (if leb end size then a else d)
chosen x a d end size inside outside = elim (Bool-cases (leb end size)) [
  | inl e ↦ rw e (inside (ground arith))
  | inr e ↦ rw e (outside (ground arith))
]

IsCovered-merged : (own : ℕ) (opt m : Options) → IsCovered own opt m → m ≡ merged own opt
unfolding merged
IsCovered-merged own opt m c =
    let ss : ℕ = opt.struct_size in
    let capacity = chosen m.capacity opt.capacity 0 8 ss c.capacity_in c.capacity_out in
    let slots = chosen m.slot_count opt.slot_count 3 12 ss c.slots_in c.slots_out in
    let type = chosen m.payload_type opt.payload_type 0 16 ss c.type_in c.type_out in
    let mode = chosen m.mode opt.mode 0o644 20 ss c.mode_in c.mode_out in
    let flags = chosen m.flags opt.flags 0 24 ss c.flags_in c.flags_out in
    let place = chosen m.dir opt.dir none own ss c.dir_in c.dir_out in
    λ i. record {
      struct_size = c.size_ok i;
      capacity = capacity i;
      slot_count = slots i;
      payload_type = type i;
      mode = mode i;
      flags = flags i;
      dir = place i;
    }

some_injective : {A : Type 0} {a b : A} → some a ≡ some b → a ≡ b
some_injective e = cc

-- `load_options` accepts the struct of a caller exactly if it was initialised and the options that it
-- stands for, the fields that its size covers over the defaults, are within the documented limits; and
-- it gives those options. NULL stands for the defaults. `own` is the size of the library's own struct.
pub load_options_lem :
    (own : ℕ) (opt : Options)
    → opt.mode < 2 ^ 32
    → opt.flags < 2 ^ 32
    → ((m : Options)
        → (load_options own (some opt) ≡ some m)
          ↔ ((opt.struct_size ≢ 0) × IsCovered own opt m × IsLegal m))
      × (load_options own none
          ≡ some (record {
            struct_size = own;
            capacity = 0;
            slot_count = 3;
            payload_type = 0;
            mode = 0o644;
            flags = 0;
            dir = none;
          }))
unfolding load_options options_bad
load_options_lem own opt hm hf =
    let words = merged_words own opt hm hf in
    let legal = options_bad-IsLegal (merged own opt) words.0 words.1 in
    let here : (m : Options) → IsCovered own opt m → m ≡ merged own opt =
      IsCovered-merged own opt in
    (
      λ m. elim (Bool-cases (opt.struct_size == 0)) [
        | inl e ↦ rw e (λ x. cc, λ h. absurd (ground (arith, h.0)))
        | inr e ↦ elim (Bool-cases (options_bad (merged own opt))) [
          | inl bad ↦
              rw (e, bad)
                (λ x. cc, λ h. absurd (cc (legal.1 (subst IsLegal (here m h.1) h.2), bad)))
          | inr good ↦
              rw (e, good)
                (
                  λ x. (
                    ground arith,
                    subst (IsCovered own opt) (some_injective x) (merged-IsCovered own opt),
                    subst IsLegal (some_injective x) (legal.0 good),
                  ),
                  λ h. ap some (sym (here m h.1)),
                )
        ]
      ],
      refl,
    )

-- Every file that is created from accepted options is valid to a reader, at its full size.
pub new_header-valid :
    (o : Options) (realtime : ℕ)
    → IsLegal o
    → header_valid
        (new_header o realtime)
        (psmi_file_size o.slot_count (psmi_slot_stride o.capacity))
      ≡ true
unfolding new_header
new_header-valid o realtime l = IsValidHeader-header_valid (new_header o realtime) _ (record {
  magic_ok = refl;
  major_ok = refl;
  header_size_ok = refl;
  slot_header_ok = refl;
  slots_min = l.slots_min;
  slots_max = l.slots_max;
  capacity_ok = l.capacity_ok;
  stride_ok = refl;
  size_ok = omega arith;
})
