-- ===== src/RegField.antt =====
-- src/uvmsc/reg/uvm_reg_field.cpp: the abstraction of one register field: its mirrored and desired
-- values under the access policies. `uvm_reg_data_t` is 64 bits wide. The source takes the mask
-- `(1 << m_size) - 1` of an `int`, which C++ defines for sizes below 31; what it gives for a larger
-- size is the argument `wide`. The callbacks' post_predict is the argument `post`; it is taken to
-- change the value that it is given and nothing else.
pub mod Policies
pub mod Prediction
use system_c_uvm.Base.{
  ℕ, ◌+◌, ◌-◌, ◌/◌, ◌^◌, ◌≡◌, refl, ◌&&◌, ◌||◌, not, ltb, Bool, true, false, if◌then◌else◌, ◌==◌,
  String, arith, List, [], ◌∷◌, Option, none, some, bit_and, bit_or, bit_xor,
}
use system_c_uvm.Base.Assoc.{Key, string_key, find, insert, erase}

-- The predefined access policies, and those of define_access by name.
pub data Access : Type 0 where
  ro rw rc rs wrc wrs wc ws wsrc wcrs : Access
  w1c w1s w1t w0c w0s w0t w1src w1crs w0src w0crs : Access
  wo woc wos w1 wo1 : Access
  user : String → Access

-- What m_parent->get_rights(map) answers.
pub data Rights : Type 0 where
  read_write read_only write_only : Rights
  unknown : String → Rights

-- A map as a field sees it: is it the backdoor, and the rights of the register in it.
pub record Map : Type 0 where
  pub backdoor : Bool
  pub rights : Rights

-- uvm_reg_field; `size` is m_size.
pub record Field : Type 0 where
  pub size : ℕ
  pub access : Access
  pub value : ℕ
  pub mirrored : ℕ
  pub desired : ℕ
  pub resets : List (String × ℕ)
  pub written : Bool
  pub fname : String
  pub lineno : ℕ

abbrev pub mask : (ℕ → ℕ) → ℕ → ℕ
mask wide size = if ltb size 31 then 2 ^ size - 1 else wide size

-- `~a` at 64 bits
abbrev pub complement : ℕ → ℕ
complement a = 2 ^ 64 - 1 - a

-- get_access where the register is read-only in the map; the Boolean says that an error is reported.
unfoldable pub restrict_to_read : Access → Access × Bool
restrict_to_read a = elim a [
  | rw ↦ (ro, false)
  | ro ↦ (ro, false)
  | wc ↦ (ro, false)
  | ws ↦ (ro, false)
  | w1c ↦ (ro, false)
  | w1s ↦ (ro, false)
  | w1t ↦ (ro, false)
  | w0c ↦ (ro, false)
  | w0s ↦ (ro, false)
  | w0t ↦ (ro, false)
  | w1 ↦ (ro, false)
  | rc ↦ (rc, false)
  | wrc ↦ (rc, false)
  | w1src ↦ (rc, false)
  | w0src ↦ (rc, false)
  | wsrc ↦ (rc, false)
  | rs ↦ (rs, false)
  | wrs ↦ (rs, false)
  | w1crs ↦ (rs, false)
  | w0crs ↦ (rs, false)
  | wcrs ↦ (rs, false)
  | wo ↦ (wo, true)
  | woc ↦ (woc, true)
  | wos ↦ (wos, true)
  | wo1 ↦ (wo1, true)
  | user s ↦ (user s, false)
]

unfoldable pub restrict_to_write : Access → Access × Bool
restrict_to_write rw = (wo, false)
restrict_to_write wo = (wo, false)
restrict_to_write a = (a, true)

unfoldable pub get_access : Map → Access → Access × Bool
unfolding restrict_to_read restrict_to_write
get_access m a = if m.backdoor then (a, false) else elim m.rights [
  | read_write ↦ (a, false)
  | read_only ↦ restrict_to_read a
  | write_only ↦ restrict_to_write a
  | unknown s ↦ (a, true)
]

-- is_known_access
unfoldable pub is_known_access : Map → Access → Bool
is_known_access m a = elim (get_access m a).0 [ user s ↦ false | _ ↦ true ]

-- The chain of policies in `set` and m_predict: what writing `wr` over `cur` gives. `other` is
-- the result under a policy that is not predefined.
unfoldable pub by_policy : Bool → ℕ → ℕ → ℕ → ℕ → Access → ℕ
by_policy written ones cur wr other a = elim a [
  | ro ↦ cur
  | rc ↦ cur
  | rs ↦ cur
  | rw ↦ wr
  | wrc ↦ wr
  | wrs ↦ wr
  | wo ↦ wr
  | wc ↦ 0
  | wcrs ↦ 0
  | woc ↦ 0
  | ws ↦ ones
  | wsrc ↦ ones
  | wos ↦ ones
  | w1c ↦ bit_and cur (complement wr)
  | w1crs ↦ bit_and cur (complement wr)
  | w1s ↦ bit_or cur wr
  | w1src ↦ bit_or cur wr
  | w1t ↦ bit_xor cur wr
  | w0c ↦ bit_and cur wr
  | w0crs ↦ bit_and cur wr
  | w0s ↦ bit_or cur (bit_and (complement wr) ones)
  | w0src ↦ bit_or cur (bit_and (complement wr) ones)
  | w0t ↦ bit_xor cur (bit_and (complement wr) ones)
  | w1 ↦ if written then cur else wr
  | wo1 ↦ if written then cur else wr
  | user s ↦ other
]

-- set: the result of the policies is overwritten by the value.
unfoldable pub set : (ℕ → ℕ) → ℕ → String → ℕ → Field → Field
unfolding by_policy
set wide value fname lineno f =
    let ones = mask wide f.size in
    let kept = if value / 2 ^ f.size == 0 then value else bit_and value ones in
    let f₁ = record f {
      fname = fname;
      lineno = lineno;
      desired = by_policy f.written ones f.desired kept f.desired f.access;
    } in
    let f₂ = record f₁ { desired = kept } in record f₂ { value = f₂.desired }

-- get and get_mirrored_value, which note where they are called.
unfoldable pub get : String → ℕ → Field → Field × ℕ
get fname lineno f = (record f { fname = fname; lineno = lineno }, f.desired)

unfoldable pub get_mirrored_value : String → ℕ → Field → Field × ℕ
get_mirrored_value fname lineno f = (record f { fname = fname; lineno = lineno }, f.mirrored)

abbrev is_hard : String → Bool
is_hard kind = Key.same string_key kind "HARD"

unfoldable pub reset : String → Field → Field
reset kind f = elim (find kind f.resets) [
  | none ↦ f
  | some v ↦ record f {
    mirrored = v;
    desired = v;
    value = v;
    written = if is_hard kind then false else f.written;
  }
]

unfoldable pub get_reset : String → Field → ℕ
get_reset kind f = elim (find kind f.resets) [ none ↦ f.desired | some v ↦ v ]

unfoldable pub has_reset : String → Bool → Field → Field × Bool
has_reset kind delete f = elim (find kind f.resets) [
  | none ↦ (f, false)
  | some v ↦ ((if delete then record f { resets = erase kind f.resets } else f), true)
]

unfoldable pub set_reset : (ℕ → ℕ) → ℕ → String → Field → Field
set_reset wide value kind f = record f {
  resets = insert kind (bit_and value (mask wide f.size)) f.resets;
}

unfoldable pub needs_update : Field → Bool
needs_update f = not (f.mirrored == f.desired)

-- set_access: `defined` is m_policy_names. The result is the policy before the call.
unfoldable pub set_access : (Access → Bool) → Access → Field → Field × Access
set_access defined mode f = ((if defined mode then record f { access = mode } else f), f.access)

-- The chain of policies in m_update: the value to write.
unfoldable pub update_by_policy : ℕ → ℕ → Access → ℕ
update_by_policy mirrored desired a = elim a [
  | w1c ↦ complement desired
  | w1t ↦ bit_xor desired mirrored
  | w0s ↦ complement desired
  | w0t ↦ complement (bit_xor desired mirrored)
  | w1crs ↦ complement desired
  | w0src ↦ complement desired
  | user s ↦ 0
  | _ ↦ desired
]

-- Two assignments to one variable.
abbrev then_assign : ℕ → ℕ → ℕ
then_assign first second = second

-- m_update: the result of the policies is overwritten by the desired value.
unfoldable pub update_value : (ℕ → ℕ) → Field → ℕ
unfolding update_by_policy
update_value wide f =
    let update = then_assign (update_by_policy f.mirrored f.desired f.access) f.desired in
    bit_and update (mask wide f.size)

-- m_predict
unfoldable pub predicted : (ℕ → ℕ) → Map → ℕ → ℕ → Field → ℕ
unfolding by_policy get_access
predicted wide m cur wr f =
    by_policy f.written (mask wide f.size) cur wr wr (get_access m f.access).0

-- uvm_path_e, uvm_predict_e and uvm_status_e
pub data AccessPath : Type 0 where
  frontdoor backdoor predict default_path : AccessPath

pub data Kind : Type 0 where
  direct read write : Kind

pub data Status : Type 0 where
  is_ok not_ok has_x : Status

-- uvm_reg_item, with the fields that do_predict reads.
pub record Item : Type 0 where
  pub value : ℕ
  pub status : Status
  pub path : AccessPath
  pub map : Map
  pub fname : String
  pub lineno : ℕ

abbrev keep_not_ok : Status → Status
keep_not_ok not_ok = not_ok
keep_not_ok _ = is_ok

-- Is the access seen through the front door?
abbrev pub in_front : AccessPath → Bool
in_front frontdoor = true
in_front predict = true
in_front _ = false

-- The effect of reading the value: `none` is the early return at a policy that cannot be read.
unfoldable pub read_effect : ℕ → ℕ → Access → Option ℕ
read_effect ones seen a = elim a [
  | rc ↦ some 0
  | wrc ↦ some 0
  | wsrc ↦ some 0
  | w1src ↦ some 0
  | w0src ↦ some 0
  | rs ↦ some ones
  | wrs ↦ some ones
  | wcrs ↦ some ones
  | w1crs ↦ some ones
  | w0crs ↦ some ones
  | wo ↦ none
  | woc ↦ none
  | wos ↦ none
  | wo1 ↦ none
  | _ ↦ some seen
]

-- post_predict of all callbacks: the field, the mirrored value, the kind, and the value.
abbrev pub Post : Type 0
Post = Field → ℕ → Kind → ℕ → ℕ

abbrev mirror : ℕ → Field → Field
mirror v f = record f { mirrored = v; desired = v; value = v }

-- do_predict. `be` is the first byte enable and `busy` is m_parent->is_busy().
unfoldable pub do_predict : (ℕ → ℕ) → Post → Bool → Bool → Kind → Item → Field → Field × Status
unfolding predicted read_effect get_access
do_predict wide post be busy kind item f₀ =
    let ones = mask wide f₀.size in
    let seen = bit_and item.value ones in
    let status = keep_not_ok item.status in
    let f = record f₀ { fname = item.fname; lineno = item.lineno } in
    if not be then (f₀, status) else elim kind [
      | write ↦
          let v = if in_front item.path then predicted wide item.map f.mirrored seen f else seen in
          let f' = record f { written = true } in
          (mirror (bit_and (post f' f'.mirrored write v) ones) f', status)
      | read ↦
          elim (if in_front item.path
            then read_effect ones seen (get_access item.map f.access).0
            else some seen) [
              | none ↦ (f, status)
              | some v ↦ (mirror (bit_and (post f f.mirrored read v) ones) f, status)
            ]
      | direct ↦ (mirror seen f, (if busy then not_ok else status))
    ]
