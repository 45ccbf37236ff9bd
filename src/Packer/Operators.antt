-- ===== src/Packer/Operators.antt =====
-- src/uvmsc/policy/uvm_packer.cpp: the operators << and >>, which pack and unpack a value of each type.
use Prim.Native.Nat.{◌^◌}
use system_c_uvm.Base.{ℕ, ◌*◌, ◌<◌, Bool, List, [], ◌∷◌, none, length, All}
use system_c_uvm.Packer.{Packer}
use system_c_uvm.Packer.Operations.{
  pack_field_int, pack_string, pack_bool, pack_sc_bv_base, pack_sc_int_base, pack_sc_uint_base,
  pack_sc_signed, pack_sc_unsigned, unpack_field_int, unpack_string, unpack_bool, unpack_sc_bv_base,
  unpack_sc_int_base, unpack_sc_uint_base, unpack_sc_signed, unpack_sc_unsigned,
}
use system_c_uvm.Packer.Characters.{IsChar}

-- The values that << packs; an integral type has its size in bytes.
pub data Item : Type 0 where
  integral : ℕ → ℕ → Item
  flag : Bool → Item
  text : List ℕ → Item
  bit_vector : List Bool → Item
  int_base : List Bool → Item
  uint_base : List Bool → Item
  signed : List Bool → Item
  unsigned : List Bool → Item

-- The types that >> unpacks; a vector has its length already.
pub data Shape : Type 0 where
  an_integral : ℕ → Shape
  a_flag : Shape
  a_text : Shape
  a_bit_vector : ℕ → Shape
  an_int_base : ℕ → Shape
  a_uint_base : ℕ → Shape
  a_signed : ℕ → Shape
  an_unsigned : ℕ → Shape

unfoldable pub shape : Item → Shape
shape (integral bytes v) = an_integral bytes
shape (flag b) = a_flag
shape (text cs) = a_text
shape (bit_vector l) = a_bit_vector (length l)
shape (int_base l) = an_int_base (length l)
shape (uint_base l) = a_uint_base (length l)
shape (signed l) = a_signed (length l)
shape (unsigned l) = an_unsigned (length l)

unfoldable pub put : Item → Packer → Packer
unfolding pack_field_int pack_bool pack_string pack_sc_bv_base pack_sc_int_base pack_sc_uint_base
    pack_sc_signed pack_sc_unsigned
put (integral bytes v) p = pack_field_int v (8 * bytes) p
put (flag b) p = pack_bool b p
put (text cs) p = pack_string cs p
put (bit_vector l) p = pack_sc_bv_base l p
put (int_base l) p = pack_sc_int_base l p
put (uint_base l) p = pack_sc_uint_base l p
put (signed l) p = pack_sc_signed l p
put (unsigned l) p = pack_sc_unsigned l p

abbrev pub wrap : {A : Type 0} → (A → Item) → A × Packer → Item × Packer
wrap f o = (f o.0, o.1)

unfoldable pub get : Shape → Packer → Item × Packer
unfolding unpack_field_int unpack_bool unpack_string unpack_sc_bv_base unpack_sc_int_base
    unpack_sc_uint_base unpack_sc_signed unpack_sc_unsigned
get (an_integral bytes) p = wrap (integral bytes) (unpack_field_int (8 * bytes) p)
get a_flag p = wrap flag (unpack_bool p)
get a_text p = wrap text (unpack_string none p)
get (a_bit_vector n) p = wrap bit_vector (unpack_sc_bv_base n p)
get (an_int_base n) p = wrap int_base (unpack_sc_int_base n p)
get (a_uint_base n) p = wrap uint_base (unpack_sc_uint_base n p)
get (a_signed n) p = wrap signed (unpack_sc_signed n p)
get (an_unsigned n) p = wrap unsigned (unpack_sc_unsigned n p)

unfoldable pub put_all : List Item → Packer → Packer
unfolding put
put_all [] p = p
put_all (x ∷ xs) p = put_all xs (put x p)

unfoldable pub get_all : List Shape → Packer → List Item × Packer
unfolding get
get_all [] p = ([], p)
get_all (x ∷ xs) p = let (v, p') = get x p in let (vs, p'') = get_all xs p' in (v ∷ vs, p'')

-- An integral value that its type holds, and a string without a null character.
unfoldable pub Fits : Item → Type 0
Fits (integral bytes v) = v < 2 ^ (8 * bytes)
Fits (text cs) = All IsChar cs
Fits (flag b) = Unit
Fits (bit_vector l) = Unit
Fits (int_base l) = Unit
Fits (uint_base l) = Unit
Fits (signed l) = Unit
Fits (unsigned l) = Unit
