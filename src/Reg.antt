-- ===== src/Reg.antt =====
-- src/uvmsc/reg/uvm_reg.cpp: a register as the fields that it is made of. `uvm_reg_data_t` is 64 bits
-- wide; the mask of a field is that of RegField. The accesses on a bus, back doors and callbacks are not part of
-- it. A map is known by its address.
pub mod Predict
pub mod Maps
pub mod Fields
pub mod Predicted
pub mod Layout
pub mod Check
use system_c_uvm.Base.{
  ℕ, zero, suc, ◌+◌, ◌-◌, ◌*◌, ◌/◌, ◌%◌, ◌^◌, ◌&&◌, ◌||◌, not, ltb, Bool, true, false,
  if◌then◌else◌, ◌==◌, String, List, [], ◌∷◌, ◌++◌, exists, Option, none, some, bit_and, bit_or,
  map,
}
use system_c_uvm.Base.Assoc.{Key, string_key}
use system_c_uvm.RegField.{
  Access, ro, rc, rs, wo, woc, wos, wo1, Field, mask, get_access, Map, Kind, direct, read, write,
  Item, Status, is_ok, not_ok, Post,
}
use system_c_uvm.RegField as Field

-- A field at its place in the register; `no_check` is get_compare() == UVM_NO_CHECK.
pub record Slot : Type 0 where
  pub name : String
  pub lsb_pos : ℕ
  pub no_check : Bool
  pub field : Field

-- uvm_reg, with the identifiers of the reports that are issued.
pub record Reg : Type 0 where
  pub locked : Bool
  pub n_bits : ℕ
  pub n_used_bits : ℕ
  pub fields : List Slot
  pub has_cover : ℕ
  pub cover_on : ℕ
  pub is_busy : Bool
  pub process_valid : Bool
  pub fname : String
  pub lineno : ℕ
  pub errors : List String

abbrev pub size : Slot → ℕ
size s = s.field.size

-- `x << n` and `x >> n` at 64 bits
abbrev pub shl : ℕ → ℕ → ℕ
shl x n = (x * 2 ^ n) % 2 ^ 64

abbrev pub shr : ℕ → ℕ → ℕ
shr x n = x / 2 ^ n

abbrev pub error_of : String → Reg → Reg
error_of text r = record r { errors = r.errors ++ text ∷ [] }

-- get_n_bytes, in 32 bits
unfoldable pub get_n_bytes : Reg → ℕ
get_n_bytes r = (((r.n_bits + 2 ^ 32 - 1) % 2 ^ 32) / 8 + 1) % 2 ^ 32

-- add_field: the fields before the new one, and those behind it.
unfoldable pub insert_at : Slot → List Slot → List Slot → List Slot × List Slot
insert_at s before [] = (before, [])
insert_at s before (x ∷ xs) =
    let rest = insert_at s (before ++ x ∷ []) xs in
    if ltb s.lsb_pos x.lsb_pos then (before, x ∷ xs) else rest

abbrev pub last_of : List Slot → Option Slot
last_of [] = none
last_of (x ∷ []) = some x
last_of (x ∷ y ∷ xs) = last_of (y ∷ xs)

abbrev pub head_of : List Slot → Option Slot
head_of [] = none
head_of (x ∷ xs) = some x

-- Does a neighbour reach into the field behind it?
abbrev pub runs_into : Option Slot → Option Slot → Bool
runs_into (some a) (some b) = ltb b.lsb_pos (a.lsb_pos + size a)
runs_into none b = false
runs_into (some a) none = false

abbrev pub error_if : Bool → String → Reg → Reg
error_if true text r = error_of text r
error_if false text r = r

unfoldable pub add_field : Slot → Reg → Reg
unfolding insert_at
add_field s r =
    if r.locked
    then error_of "Cannot add field to locked register model" r
    else let (before, behind) = insert_at s [] r.fields in
      let used = r.n_used_bits + size s in
      error_if (runs_into (some s) (head_of behind)) "overlaps" (
        error_if (runs_into (last_of before) (some s)) "overlaps" (
          error_if (ltb r.n_bits used) "Fields use more bits"
            (record r { fields = before ++ s ∷ behind; n_used_bits = used })))

unfoldable pub get_field_by_name : String → List Slot → Option Slot
get_field_by_name name [] = none
get_field_by_name name (s ∷ ss) =
    if string_key.same s.name name then some s else get_field_by_name name ss

-- set: each field is set to its part of the value.
abbrev pub part : (ℕ → ℕ) → ℕ → Slot → ℕ
part wide value s = bit_and (shr value s.lsb_pos) (mask wide (size s))

abbrev pub with_field : Slot → Field → Slot
with_field s f = record s { field = f }

unfoldable pub set_fields : (ℕ → ℕ) → ℕ → List Slot → List Slot
set_fields wide value [] = []
set_fields wide value (s ∷ ss) =
    with_field s (Field.set wide (part wide value s) "" 0 s.field) ∷ set_fields wide value ss

unfoldable pub set : (ℕ → ℕ) → ℕ → String → ℕ → Reg → Reg
unfolding set_fields
set wide value fname lineno r = record r {
  fname = fname;
  lineno = lineno;
  fields = set_fields wide value r.fields;
}

-- get, get_mirrored_value, get_reset and the loop of update: what the fields give, each at its place.
unfoldable pub gather : (Field → ℕ) → List Slot → ℕ → ℕ
gather of_field [] acc = acc
gather of_field (s ∷ ss) acc = gather of_field ss (bit_or acc (shl (of_field s.field) s.lsb_pos))

-- The calls of the getters leave their place in the fields.
unfoldable pub visit : (Field → Field) → List Slot → List Slot
visit step [] = []
visit step (s ∷ ss) = with_field s (step s.field) ∷ visit step ss

unfoldable pub get : String → ℕ → Reg → Reg × ℕ
unfolding gather visit
get fname lineno r = (
  record r { fname = fname; lineno = lineno; fields = visit (λ f. (Field.get "" 0 f).0) r.fields },
  gather (λ f. (Field.get "" 0 f).1) r.fields 0,
)

unfoldable pub get_mirrored_value : String → ℕ → Reg → Reg × ℕ
unfolding gather visit
get_mirrored_value fname lineno r = (
  record r {
    fname = fname;
    lineno = lineno;
    fields = visit (λ f. (Field.get_mirrored_value "" 0 f).0) r.fields;
  },
  gather (λ f. (Field.get_mirrored_value "" 0 f).1) r.fields 0,
)

unfoldable pub needs_update : Reg → Bool
needs_update r = exists (λ s. Field.needs_update s.field) r.fields

-- reset; what it does to the lock of the register is left out.
unfoldable pub reset : String → Reg → Reg
unfolding visit
reset kind r = record r { fields = visit (Field.reset kind) r.fields; process_valid = false }

unfoldable pub get_reset : String → Reg → ℕ
unfolding gather
get_reset kind r = gather (Field.get_reset kind) r.fields 0

-- has_reset: the loop ends at the first field with the reset, unless resets are deleted.
unfoldable pub has_reset_fields : String → Bool → Bool → List Slot → List Slot × Bool
has_reset_fields kind delete found [] = ([], found)
has_reset_fields kind delete found (s ∷ ss) =
    let (f, has) = Field.has_reset kind delete s.field in
    let rest = has_reset_fields kind delete (found || has) ss in
    if not delete && (found || has)
    then (with_field s f ∷ ss, true)
    else (with_field s f ∷ rest.0, rest.1)

unfoldable pub has_reset : String → Bool → Reg → Reg × Bool
unfolding has_reset_fields
has_reset kind delete r =
    let (fs, has) = has_reset_fields kind delete false r.fields in (record r { fields = fs }, has)

unfoldable pub set_reset_fields : (ℕ → ℕ) → ℕ → String → List Slot → List Slot
set_reset_fields wide value kind [] = []
set_reset_fields wide value kind (s ∷ ss) =
    with_field s (Field.set_reset wide (shr value s.lsb_pos) kind s.field)
    ∷ set_reset_fields wide value kind ss

unfoldable pub set_reset : (ℕ → ℕ) → ℕ → String → Reg → Reg
unfolding set_reset_fields
set_reset wide value kind r = record r { fields = set_reset_fields wide value kind r.fields }

-- update, up to its write: the value that is written, or none where nothing is.
unfoldable pub update : (ℕ → ℕ) → Reg → Option ℕ
unfolding needs_update gather
update wide r = if needs_update r then some (gather (Field.update_value wide) r.fields 0) else none

-- The coverage models, as sets of digits; UVM_NO_COVERAGE is 0.
unfoldable pub add_coverage : ℕ → Reg → Reg
add_coverage models r = record r { has_cover = bit_or r.has_cover models }

unfoldable pub has_coverage : ℕ → Reg → Bool
has_coverage models r = bit_and r.has_cover models == models

unfoldable pub set_coverage : ℕ → Reg → Reg × ℕ
set_coverage is_on r =
    if is_on == 0
    then (record r { cover_on = is_on }, is_on)
    else (record r { cover_on = bit_and r.has_cover is_on }, bit_and r.has_cover is_on)

unfoldable pub get_coverage : ℕ → Reg → Bool
unfolding has_coverage
get_coverage is_on r =
    if not (has_coverage is_on r) then false else bit_and r.cover_on is_on == is_on
