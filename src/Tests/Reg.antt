-- ===== src/Tests/Reg.antt =====
-- Runs of the register (src/uvmsc/reg/uvm_reg.cpp).
use system_c_uvm.Base.{
  true, ℕ, ◌≡◌, ◌^◌, ◌-◌, refl, String, false, List, [], ◌∷◌, none, some, arith, length, ◌↔◌, ◌≤◌,
  exists, if◌then◌else◌,
}
use system_c_uvm.RegField.{
  Access, ro, rw, w1c, wo, Field, mask, Map, read_write, Kind, direct, Item, frontdoor, is_ok, Post,
}
use system_c_uvm.RegField as RegField
use system_c_uvm.Reg.{Slot, Reg, size, add_field, insert_at, set, get, needs_update, update}
use system_c_uvm.Reg.Predict.{do_predict, do_check, m_get_fields_access, fields_access}
use system_c_uvm.Reg.Fields.{cover, get-set}
use system_c_uvm.Reg.Predicted.{predict-direct, Mirrors}
use system_c_uvm.Reg.Layout.{clashes, IsLaidOut, add_field-errors, add_field-IsLaidOut}
use system_c_uvm.Reg.Check.{do_check-uncompared}

abbrev wide : ℕ → ℕ
wide size = 2 ^ 64 - 1

abbrev slot_of : String → Access → ℕ → Slot
slot_of name access lsb_pos = record {
  name = name;
  lsb_pos = lsb_pos;
  no_check = false;
  field = record {
    size = 8;
    access = access;
    value = 0;
    mirrored = 0x5a;
    desired = 0;
    resets = [];
    written = false;
    fname = "";
    lineno = 0;
  };
}

abbrev low : Slot
low = slot_of "low" ro 0

abbrev high : Slot
high = slot_of "high" wo 16

abbrev reg_of : List Slot → Reg
reg_of fields = record {
  locked = false;
  n_bits = 32;
  n_used_bits = 16;
  fields = fields;
  has_cover = 0;
  cover_on = 0;
  is_busy = false;
  process_valid = false;
  fname = "";
  lineno = 0;
  errors = [];
}

abbrev reg : Reg
reg = reg_of (low ∷ high ∷ [])

abbrev item : Item
item = record {
  value = 0x12345678;
  status = is_ok;
  path = frontdoor;
  map = record { backdoor = false; rights = read_write };
  fname = "b.cpp";
  lineno = 3;
}

abbrev no_callbacks : Slot → Post
no_callbacks s f m k v = v

covered : cover wide (low ∷ high ∷ []) 0 ≡ 0xff00ff
unfolding cover
covered = refl

overlapping : (add_field (slot_of "mid" rw 12) reg).errors ≡ "overlaps" ∷ []
unfolding add_field insert_at
overlapping = refl

between : length (add_field (slot_of "mid" rw 8) reg).fields ≡ 3
unfolding add_field insert_at
between = refl

sides : m_get_fields_access item.map (reg_of (low ∷ low ∷ [])) ≡ "RO"
unfolding m_get_fields_access fields_access RegField.get_access
sides = refl

get-set_example :
    ((get "a.cpp" 1 (set wide 0x12345678 "a.cpp" 1 reg)).1 ≡ 0x340078)
    × (update wide (set wide 0x12345678 "a.cpp" 1 reg)
        ≡ (if needs_update (set wide 0x12345678 "a.cpp" 1 reg) then some 0x340078 else none))
unfolding cover
get-set_example =
    get-set wide 0x12345678 "a.cpp" 1 reg
      ((omega arith, omega arith), ((omega arith, omega arith), tt))

predict-direct_example : Mirrors 0x340078 (do_predict wide no_callbacks 0xff direct item reg)
unfolding cover
predict-direct_example =
    predict-direct wide no_callbacks 0xff item reg refl
      ((omega arith, omega arith), ((omega arith, omega arith), tt)) (refl, (refl, tt))

add_field-errors_example :
    (length (add_field (slot_of "mid" rw 8) reg).errors ≡ length reg.errors)
    ↔ ((exists (clashes (slot_of "mid" rw 8)) reg.fields ≡ false) × (24 ≤ 32))
add_field-errors_example =
    add_field-errors (slot_of "mid" rw 8) reg refl (omega arith, (omega arith, tt)) (omega arith)

add_field-IsLaidOut_example : IsLaidOut (add_field (slot_of "mid" rw 8) reg)
unfolding add_field insert_at
add_field-IsLaidOut_example =
    add_field-IsLaidOut (slot_of "mid" rw 8) reg refl (omega arith)
      (record { apart = (omega arith, (omega arith, tt)); counted = refl; enough = omega arith })
      refl

abbrev sign_extended : ℕ → ℕ → ℕ
sign_extended n lsb_pos = 2 ^ 64 - 2 ^ lsb_pos

-- A field at the digits 24 to 31 that is not compared leaves out all digits above it.
above_left_out :
    do_check sign_extended item.map 0 0x100000000
      (reg_of (record (slot_of "top" rw 24) { no_check = true } ∷ []))
    ≡ true
unfolding do_check
above_left_out = refl

-- The write-only field at 16 is compared, the one at 0 is not.
abbrev partly_checked : Reg
partly_checked = reg_of (record low { no_check = true } ∷ high ∷ [])

do_check-uncompared_example : do_check sign_extended item.map 0x12 0x340013 partly_checked ≡ false
do_check-uncompared_example =
    do_check-uncompared sign_extended item.map 0x12 0x340013 partly_checked refl
