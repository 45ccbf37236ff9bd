-- ===== src/Reg/Fields.antt =====
-- src/uvmsc/reg/uvm_reg.cpp: what the fields of a register hold together after set and do_predict.
use native.Mathlib.Nat.{mod-eq_of_lt, pow-le-pow_right, mul-le-mul_right, suc-mul}
use system_c_uvm.Base.{
  ℕ, suc, ◌+◌, ◌-◌, ◌*◌, ◌^◌, ◌≤◌, ◌<◌, ◌≡◌, refl, sym, ap, ◌∙◌, subst, if◌then◌else◌, String, List,
  [], ◌∷◌, none, some, bit_and, bit_or, arith, All,
}
use system_c_uvm.Base.Bits.{bit_and-le, bit_and-keeps}
use system_c_uvm.Base.Digits.{bit_and-bit_or, bit_and_shift, two_pow_add, bit_and-zero}
use system_c_uvm.RegField.{
  Field, mask, Map, Kind, direct, read, write, Item, Status, is_ok, not_ok, Post,
}
use system_c_uvm.RegField as Field
use system_c_uvm.RegField.Policies.{mask-small, set-get, update_value-set}
use system_c_uvm.Reg.{
  Slot, Reg, size, shl, shr, part, set, get, needs_update, update, gather, set_fields,
}

-- A field of fewer than 31 bits that lies within the 64 bits.
abbrev pub Fits : Slot → Type 0
Fits s = (size s < 31) × (s.lsb_pos + size s ≤ 64)

-- The digits that belong to fields.
unfoldable pub cover : (ℕ → ℕ) → List Slot → ℕ → ℕ
cover wide [] acc = acc
cover wide (s ∷ ss) acc = cover wide ss (bit_or acc (shl (mask wide (size s)) s.lsb_pos))

power_mono : (i j : ℕ) → i ≤ j → 2 ^ i ≤ 2 ^ j
power_mono i j h = pow-le-pow_right {n = 2} (omega arith) h

power_pos : (n : ℕ) → 1 ≤ 2 ^ n
power_pos n = power_mono 0 n (omega arith)

module _ (wide : ℕ → ℕ) (v : ℕ) where
  part_le : (s : Slot) → Fits s → part wide v s ≤ 2 ^ size s - 1
  part_le s (h, k) =
      subst (λ m. bit_and (shr v s.lsb_pos) m ≤ 2 ^ size s - 1) (sym (mask-small wide (size s) h))
        (bit_and-le (shr v s.lsb_pos) (2 ^ size s - 1))

  mask_lt : (s : Slot) → Fits s → mask wide (size s) < 2 ^ size s
  mask_lt s (h, k) = omega (arith, mask-small wide (size s) h, power_pos (size s))

  pub part_lt : (s : Slot) → Fits s → part wide v s < 2 ^ size s
  part_lt s f = omega (arith, part_le s f, power_pos (size s))

  shl_plain : (x : ℕ) (s : Slot) → Fits s → x < 2 ^ size s → shl x s.lsb_pos ≡ x * 2 ^ s.lsb_pos
  shl_plain x s (h, k) lt = mod-eq_of_lt (
      omega (
        arith,
        mul-le-mul_right {m = suc x} {n = 2 ^ size s} (2 ^ s.lsb_pos) lt,
        suc-mul x (2 ^ s.lsb_pos),
        two_pow_add (size s) s.lsb_pos,
        power_pos s.lsb_pos,
        power_mono (size s + s.lsb_pos) 64 (omega (arith, k)),
      ))

  shl-part :
      (s : Slot)
      → Fits s
      → shl (part wide v s) s.lsb_pos ≡ bit_and v (shl (mask wide (size s)) s.lsb_pos)
  shl-part s f =
      shl_plain (part wide v s) s f (part_lt s f)
      ∙ sym (
          ap (bit_and v) (shl_plain (mask wide (size s)) s f (mask_lt s f))
          ∙ bit_and_shift s.lsb_pos v (mask wide (size s)))

  -- Two lists of fields at the same places, of which the second gives the parts of the value.
  abbrev pub Parts : (Field → ℕ) → List Slot → List Slot → Type 0
  Parts of_field [] [] = Unit {0}
  Parts of_field [] (t ∷ ts) = ⊥
  Parts of_field (s ∷ ss) [] = ⊥
  Parts of_field (s ∷ ss) (t ∷ ts) =
      (t.lsb_pos ≡ s.lsb_pos) × (of_field t.field ≡ part wide v s) × Parts of_field ss ts

  gather-Parts :
      (of_field : Field → ℕ) (ss ts : List Slot) (acc : ℕ)
      → All Fits ss
      → Parts of_field ss ts
      → gather of_field ts (bit_and v acc) ≡ bit_and v (cover wide ss acc)
  unfolding gather cover
  gather-Parts of_field [] [] acc f p = refl
  gather-Parts of_field [] (t ∷ ts) acc f p = absurd p
  gather-Parts of_field (s ∷ ss) [] acc f p = absurd p
  gather-Parts of_field (s ∷ ss) (t ∷ ts) acc (f, fs) (a, b, p) =
      ap (gather of_field ts) (
        ap (λ x. bit_or (bit_and v acc) (shl x t.lsb_pos)) b
        ∙ ap (λ l. bit_or (bit_and v acc) (shl (part wide v s) l)) a
        ∙ ap (bit_or (bit_and v acc)) (shl-part s f)
        ∙ sym (bit_and-bit_or v acc (shl (mask wide (size s)) s.lsb_pos)))
      ∙ gather-Parts of_field ss ts (bit_or acc (shl (mask wide (size s)) s.lsb_pos)) fs p

  pub gathered :
      (of_field : Field → ℕ) (ss ts : List Slot)
      → All Fits ss
      → Parts of_field ss ts
      → gather of_field ts 0 ≡ bit_and v (cover wide ss 0)
  gathered of_field ss ts f p =
      ap (gather of_field ts) (sym (bit_and-zero v)) ∙ gather-Parts of_field ss ts 0 f p

  set_fields-get :
      (ss : List Slot) → All Fits ss → Parts (λ f. (Field.get "" 0 f).1) ss (set_fields wide v ss)
  unfolding set_fields
  set_fields-get [] f = tt
  set_fields-get (s ∷ ss) (f, fs) =
      (refl, (set-get wide (part wide v s) "" 0 s.field (part_lt s f)).0, set_fields-get ss fs)

  set_fields-update :
      (ss : List Slot) → All Fits ss → Parts (Field.update_value wide) ss (set_fields wide v ss)
  unfolding set_fields
  set_fields-update [] f = tt
  set_fields-update (s ∷ ss) (f, fs) = (
    refl,
    update_value-set wide (part wide v s) "" 0 s.field f.0 (part_lt s f),
    set_fields-update ss fs,
  )

  pub seen_part : (s : Slot) → Fits s → bit_and (part wide v s) (mask wide (size s)) ≡ part wide v s
  seen_part s f =
      ap (bit_and (part wide v s)) (mask-small wide (size s) f.0)
      ∙ bit_and-keeps (size s) (part wide v s) (part_lt s f)

-- After set of a register whose fields have fewer than 31 bits and lie within the 64 bits, get gives
-- the digits of the value that belong to fields, whatever the access policies; and the value that
-- update writes is the same, where an update is needed.
pub get-set :
    (wide : ℕ → ℕ) (v : ℕ) (fname : String) (lineno : ℕ) (r : Reg)
    → All Fits r.fields
    → ((get fname lineno (set wide v fname lineno r)).1 ≡ bit_and v (cover wide r.fields 0))
      × (update wide (set wide v fname lineno r) ≡ (
          if needs_update (set wide v fname lineno r)
          then some (bit_and v (cover wide r.fields 0))
          else none))
unfolding get set update
get-set wide v fname lineno r f = (
  gathered wide v (λ f. (Field.get "" 0 f).1) r.fields (set_fields wide v r.fields) f
      (set_fields-get wide v r.fields f),
  ap (λ x. if needs_update (set wide v fname lineno r) then some x else none)
      (gathered wide v (Field.update_value wide) r.fields (set_fields wide v r.fields) f
        (set_fields-update wide v r.fields f)),
)
