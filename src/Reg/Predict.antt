-- ===== src/Reg/Predict.antt =====
-- src/uvmsc/reg/uvm_reg.cpp: the prediction of a register's value, its check, and the access that its
-- fields have together.
use system_c_uvm.Base.{
  ℕ, ◌/◌, ◌%◌, ◌&&◌, ◌||◌, not, Bool, true, false, if◌then◌else◌, ◌==◌, String, List, [], ◌∷◌,
  bit_or, ◌+◌, ◌-◌, ◌^◌, ltb, leb,
}
use system_c_uvm.RegField.{
  Access, ro, rw, rc, rs, wrc, wrs, wc, ws, wsrc, wcrs, w1c, w1s, w1t, w0c, w0s, w0t, w1src, w1crs,
  w0src, w0crs, wo, woc, wos, w1, wo1, user, Field, mask, get_access, Map, Kind, direct, read,
  write, Item, Status, is_ok, not_ok, has_x, Post,
}
use system_c_uvm.RegField as Field
use system_c_uvm.Base.Assoc.{string_key}
use system_c_uvm.Reg.{Slot, Reg, size, shl, shr, part, with_field}

-- Is the first byte of a field enabled?
abbrev pub enabled : ℕ → Slot → Bool
enabled be s = shr be (s.lsb_pos / 8) % 2 == 1

-- do_predict: the loop over the fields. `post` has the callbacks of each field.
unfoldable pub predict_fields :
    (ℕ → ℕ) → (Slot → Post) → ℕ → Bool → Kind → ℕ → Item → List Slot → List Slot × Status
predict_fields wide post be busy kind value item [] = ([], item.status)
predict_fields wide post be busy kind value item (s ∷ ss) =
    let (f, status) =
      Field.do_predict wide (post s) (enabled be s) busy kind
        (record item { value = part wide value s }) s.field in
    let rest = predict_fields wide post be busy kind value (record item { status = status }) ss in
    (with_field s f ∷ rest.0, rest.1)

abbrev is_direct : Kind → Bool
is_direct direct = true
is_direct read = false
is_direct write = false

-- do_predict: the register, and the status that the item has afterwards; its value is as before.
unfoldable pub do_predict : (ℕ → ℕ) → (Slot → Post) → ℕ → Kind → Item → Reg → Reg × Status
unfolding predict_fields
do_predict wide post be kind item r₀ =
    let r = record r₀ { fname = item.fname; lineno = item.lineno } in
    if r.is_busy && is_direct kind
    then (r, not_ok)
    else let (fs, status) =
        predict_fields wide post be r.is_busy kind item.value (record item { status = is_ok })
          r.fields in
      (record r { fields = fs }, status)

abbrev succeeded : Status → Bool
succeeded not_ok = false
succeeded is_ok = true
succeeded has_x = true

-- predict; `item` has the arguments.
unfoldable pub predict : (ℕ → ℕ) → (Slot → Post) → ℕ → Kind → Item → Reg → Reg × Bool
unfolding do_predict
predict wide post be kind item r =
    let (r', status) = do_predict wide post be kind item r in (r', succeeded status)

-- The texts of the access policies, and acc.substr(0, 1).
unfoldable pub text_of : Access → String
text_of a = elim a [
  | ro ↦ "RO"
  | rw ↦ "RW"
  | rc ↦ "RC"
  | rs ↦ "RS"
  | wrc ↦ "WRC"
  | wrs ↦ "WRS"
  | wc ↦ "WC"
  | ws ↦ "WS"
  | wsrc ↦ "WSRC"
  | wcrs ↦ "WCRS"
  | w1c ↦ "W1C"
  | w1s ↦ "W1S"
  | w1t ↦ "W1T"
  | w0c ↦ "W0C"
  | w0s ↦ "W0S"
  | w0t ↦ "W0T"
  | w1src ↦ "W1SRC"
  | w1crs ↦ "W1CRS"
  | w0src ↦ "W0SRC"
  | w0crs ↦ "W0CRS"
  | wo ↦ "WO"
  | woc ↦ "WOC"
  | wos ↦ "WOS"
  | w1 ↦ "W1"
  | wo1 ↦ "WO1"
  | user s ↦ s
]

unfoldable pub substr_one : String → String
substr_one String.[] = ""
substr_one (String.◌∷◌ c s) = String.◌∷◌ c ""

-- `((1 << n) - 1) << lsb_pos`, whose operands are of type `int`: the digits where the result is an
-- `int` that is not negative. What it gives beyond, with its sign extended, is the argument `beyond`.
unfoldable pub digits_at : (ℕ → ℕ → ℕ) → ℕ → ℕ → ℕ
digits_at beyond n lsb_pos =
    if ltb n 31 && leb (lsb_pos + n) 31 then shl (2 ^ n - 1) lsb_pos else beyond n lsb_pos

-- do_check: the digits that are not compared.
unfoldable pub unchecked : (ℕ → ℕ → ℕ) → Map → List Slot → ℕ → ℕ
unfolding text_of substr_one digits_at
unchecked beyond m [] dc = dc
unchecked beyond m (s ∷ ss) dc = unchecked beyond m ss (
    if s.no_check || string_key.same (substr_one (text_of (get_access m s.field.access).0)) "WO"
    then bit_or dc (digits_at beyond (size s) s.lsb_pos)
    else dc)

unfoldable pub do_check : (ℕ → ℕ → ℕ) → Map → ℕ → ℕ → Reg → Bool
unfolding unchecked
do_check beyond m expected actual r =
    let dc = unchecked beyond m r.fields 0 in bit_or actual dc == bit_or expected dc

-- m_get_fields_access: what one field allows alone, or none where it makes the answer "RW".
pub data Side : Type 0 where
  reads writes both : Side

unfoldable pub side_of : Access → Side
side_of ro = reads
side_of rc = reads
side_of rs = reads
side_of wo = writes
side_of woc = writes
side_of wos = writes
side_of wo1 = writes
side_of a = both

unfoldable pub fields_access : Map → Bool → Bool → List Slot → String
unfolding side_of
fields_access m is_r is_w [] =
    if not is_r && is_w then "WO" else if is_r && not is_w then "RO" else "RW"
fields_access m is_r is_w (s ∷ ss) = elim (side_of (get_access m s.field.access).0) [
  | reads ↦ if is_w then "RW" else fields_access m true is_w ss
  | writes ↦ if is_r then "RW" else fields_access m is_r true ss
  | both ↦ "RW"
]

unfoldable pub m_get_fields_access : Map → Reg → String
unfolding fields_access
m_get_fields_access m r = fields_access m false false r.fields
