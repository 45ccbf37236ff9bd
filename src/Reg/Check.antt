-- ===== src/Reg/Check.antt =====
-- src/uvmsc/reg/uvm_reg.cpp: which digits do_check compares, the access that m_get_fields_access
-- finds, and the maps that get_local_map finds.
use system_c_uvm.Base.{
  ℕ, ◌∙◌, ltb, leb, ◌+◌, ◌-◌, ◌^◌, ◌≡◌, refl, ap, ◌&&◌, ◌||◌, not, Bool, true, false, if◌then◌else◌,
  ◌==◌, String, List, [], ◌∷◌, exists, arith, Bool-cases, inl, inr, bit_or,
}
use system_c_uvm.Base.Assoc.{string_key}
use system_c_uvm.RegField.{Map, get_access}
use system_c_uvm.Reg.{Slot, Reg, size, shl}
use system_c_uvm.Reg.Predict.{
  digits_at, unchecked, do_check, substr_one, text_of, m_get_fields_access, fields_access, side_of,
  reads, writes, both,
}

abbrev has_two : String → Bool
has_two String.[] = false
has_two (String.◌∷◌ c String.[]) = false
has_two (String.◌∷◌ c (String.◌∷◌ d s)) = true

one_character : (s : String) → string_key.same (substr_one s) "WO" ≡ false
unfolding substr_one
one_character String.[] = refl
one_character (String.◌∷◌ c s) = ground (
  arith,
  string_key.same_iff (String.◌∷◌ c "") "WO",
  λ (e : String.◌∷◌ c "" ≡ "WO"). ap has_two e,
)

-- The digits of the fields that are never compared.
abbrev pub uncompared : List Slot → ℕ → ℕ
uncompared [] dc = dc
uncompared (s ∷ ss) dc =
    uncompared ss (if s.no_check then bit_or dc (shl (2 ^ size s - 1) s.lsb_pos) else dc)

-- The digits of a field that is not compared are those of an `int`.
abbrev pub in_int : Slot → Bool
in_int s = not s.no_check || (ltb (size s) 31 && leb (s.lsb_pos + size s) 31)

abbrev pub every : (Slot → Bool) → List Slot → Bool
every p [] = true
every p (s ∷ ss) = p s && every p ss

digits_at-in_int :
    (beyond : ℕ → ℕ → ℕ) (s : Slot)
    → s.no_check ≡ true
    → in_int s ≡ true
    → digits_at beyond (size s) s.lsb_pos ≡ shl (2 ^ size s - 1) s.lsb_pos
unfolding digits_at
digits_at-in_int beyond s t h =
    let small : (ltb (size s) 31 && leb (s.lsb_pos + size s) 31) ≡ true = ground (arith, t, h) in
    ap (λ b. if b then shl (2 ^ size s - 1) s.lsb_pos else beyond (size s) s.lsb_pos) small

and_parts : (a b : Bool) → (a && b) ≡ true → (a ≡ true) × (b ≡ true)
and_parts true b h = (refl, h)
and_parts false b h = absurd (cc)

unchecked-uncompared :
    (beyond : ℕ → ℕ → ℕ) (m : Map) (ss : List Slot) (dc : ℕ)
    → every in_int ss ≡ true
    → unchecked beyond m ss dc ≡ uncompared ss dc
unfolding unchecked
unchecked-uncompared beyond m [] dc h = refl
unchecked-uncompared beyond m (s ∷ ss) dc h =
    let (first, others) = and_parts (in_int s) (every in_int ss) h in
    let exact = bit_or dc (shl (2 ^ size s - 1) s.lsb_pos) in
    elim (Bool-cases s.no_check) [
      | inl t ↦
          let same : bit_or dc (digits_at beyond (size s) s.lsb_pos) ≡ exact =
            ap (bit_or dc) (digits_at-in_int beyond s t first) in
          simp (t) (ap (unchecked beyond m ss) same ∙ unchecked-uncompared beyond m ss exact others)
      | inr t ↦
          simp (t, one_character (text_of (get_access m s.field.access).0))
            (unchecked-uncompared beyond m ss dc others)
    ]

-- Where the fields that are set not to be compared have fewer than 31 bits and end below bit 31,
-- do_check compares all digits but those of these fields: those of the write-only fields, too, in
-- every map.
pub do_check-uncompared :
    (beyond : ℕ → ℕ → ℕ) (m : Map) (expected actual : ℕ) (r : Reg)
    → every in_int r.fields ≡ true
    → do_check beyond m expected actual r
      ≡ (bit_or actual (uncompared r.fields 0) == bit_or expected (uncompared r.fields 0))
unfolding do_check
do_check-uncompared beyond m expected actual r h =
    ap (λ dc. bit_or actual dc == bit_or expected dc) (unchecked-uncompared beyond m r.fields 0 h)

abbrev pub only_reads : Map → Slot → Bool
only_reads m s = elim (side_of (get_access m s.field.access).0) [
  | reads ↦ true
  | writes ↦ false
  | both ↦ false
]

abbrev pub only_writes : Map → Slot → Bool
only_writes m s = elim (side_of (get_access m s.field.access).0) [
  | reads ↦ false
  | writes ↦ true
  | both ↦ false
]

-- The access once some fields have been seen.
abbrev summed : Map → Bool → Bool → List Slot → String
summed m is_r is_w ss =
    if every (only_reads m) ss && not is_w && (is_r || exists (only_reads m) ss)
    then "RO"
    else if every (only_writes m) ss && not is_r && (is_w || exists (only_writes m) ss)
    then "WO"
    else "RW"

fields_access-summed :
    (m : Map) (is_r is_w : Bool) (ss : List Slot)
    → (is_r && is_w) ≡ false
    → fields_access m is_r is_w ss ≡ summed m is_r is_w ss
unfolding fields_access
fields_access-summed m is_r is_w [] h = ground (arith, h)
fields_access-summed m is_r is_w (s ∷ ss) h =
    ground (arith, h, fields_access-summed m true is_w ss, fields_access-summed m is_r true ss)

-- m_get_fields_access is "RO" where there are fields and each can only be read, "WO" where there are
-- fields and each can only be written, and "RW" otherwise.
pub m_get_fields_access_lem :
    (m : Map) (r : Reg)
    → m_get_fields_access m r ≡ (
        if every (only_reads m) r.fields && exists (only_reads m) r.fields
        then "RO"
        else if every (only_writes m) r.fields && exists (only_writes m) r.fields
        then "WO"
        else "RW")
unfolding m_get_fields_access
m_get_fields_access_lem m r = ground (arith, fields_access-summed m false false r.fields refl)
