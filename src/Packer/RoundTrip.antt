-- ===== src/Packer/RoundTrip.antt =====
-- src/uvmsc/policy/uvm_packer.cpp: what comes back when values are unpacked in the order in which they were packed.
use mathlib.Core.List.{append_assoc, append-nil}
use system_c_uvm.Base.{
  ◌≤◌, ◌-◌, ◌*◌, ◌≡◌, refl, sym, ◌∙◌, ap, subst, Bool, true, List, [], ◌∷◌, ◌++◌, length, map, All,
  arith,
}
use system_c_uvm.Packer.{Packer, read, bits_of, reset, get_remaining_unpacked_bits}
use system_c_uvm.Packer.Operations.{
  pack_field_int, pack_bool, pack_sc_bv_base, pack_sc_int_base, pack_sc_uint_base, pack_sc_signed,
  pack_sc_unsigned, unpack_sc_int_base, unpack_sc_uint_base, unpack_sc_signed, unpack_sc_unsigned,
}
use system_c_uvm.Packer.Stream.{
  get_remaining_unpacked_bits_lem, IsReadable, length-read, remaining, IsSound, Packs, Packs-trans,
  append-Packs,
}
use system_c_uvm.Packer.Values.{
  swap, Gives, unpack_field_int-Gives, unpack_bool-Gives, unpack_sc_bv_base-Gives, get_each-Gives,
  set_each-Packs,
}
use system_c_uvm.Packer.Characters.{Takes-refl, Takes-trans}
use system_c_uvm.Packer.Strings.{string_bits, pack_string-Packs, unpack_string-Gives}
use system_c_uvm.Packer.Operators.{
  Item, integral, flag, text, bit_vector, int_base, uint_base, signed, unsigned, shape, put, get,
  put_all, get_all, wrap, Fits,
}

abbrev item_bits : Bool → Item → List Bool
item_bits big (integral bytes v) = swap big (bits_of (8 * bytes) v)
item_bits big (text cs) = string_bits big cs
item_bits big (flag b) = b ∷ []
item_bits big (bit_vector l) = l
item_bits big (int_base l) = l
item_bits big (uint_base l) = l
item_bits big (signed l) = l
item_bits big (unsigned l) = l

abbrev pub items_bits : Bool → List Item → List Bool
items_bits big [] = []
items_bits big (x ∷ xs) = item_bits big x ++ items_bits big xs

put-Packs :
    (x : Item) (p : Packer)
    → IsSound p
    → p.use_metadata ≡ true
    → Packs (item_bits p.big_endian x) p (put x p)
unfolding put pack_field_int pack_bool pack_sc_bv_base pack_sc_int_base pack_sc_uint_base
    pack_sc_signed pack_sc_unsigned
put-Packs (integral bytes v) p s meta = append-Packs (swap p.big_endian (bits_of (8 * bytes) v)) p s
put-Packs (text cs) p s meta = pack_string-Packs cs p s meta
put-Packs (flag b) p s meta = append-Packs (b ∷ []) p s
put-Packs (bit_vector l) p s meta = append-Packs l p s
put-Packs (int_base l) p s meta = set_each-Packs l p s
put-Packs (uint_base l) p s meta = set_each-Packs l p s
put-Packs (signed l) p s meta = set_each-Packs l p s
put-Packs (unsigned l) p s meta = set_each-Packs l p s

put_all-Packs :
    (xs : List Item) (p : Packer)
    → IsSound p
    → p.use_metadata ≡ true
    → Packs (items_bits p.big_endian xs) p (put_all xs p)
unfolding put_all
put_all-Packs [] p s meta = record {
  sound = s;
  stream = sym (append-nil (remaining p));
  same_unpack = refl;
  same_order = refl;
  same_metadata = refl;
  same_errors = refl;
}
put_all-Packs (x ∷ xs) p s meta =
    let a = put-Packs x p s meta in
    let b = put_all-Packs xs (put x p) a.sound (a.same_metadata ∙ meta) in
    Packs-trans a
      (subst (λ big. Packs (items_bits big xs) (put x p) (put_all xs (put x p))) a.same_order b)

Gives-wrap :
    {A : Type 0} {v : A} {l r : List Bool} {p : Packer} {o : A × Packer} (f : A → Item)
    → Gives v l r p o
    → Gives (f v) l r p (wrap f o)
Gives-wrap f g = record { value = ap f g.value; takes = g.takes; rest = g.rest }

get-Gives :
    (x : Item) (p : Packer) (r : List Bool)
    → IsReadable p
    → p.use_metadata ≡ true
    → Fits x
    → remaining p ≡ item_bits p.big_endian x ++ r
    → Gives x (item_bits p.big_endian x) r p (get (shape x) p)
unfolding get shape Fits unpack_sc_int_base unpack_sc_uint_base unpack_sc_signed unpack_sc_unsigned
get-Gives (integral bytes v) p r s meta h e =
    Gives-wrap (integral bytes) (unpack_field_int-Gives p s r v (8 * bytes) h e)
get-Gives (text cs) p r s meta h e = Gives-wrap text (unpack_string-Gives cs p r s meta h e)
get-Gives (flag b) p r s meta h e = Gives-wrap flag (unpack_bool-Gives p s r b e)
get-Gives (bit_vector l) p r s meta h e = Gives-wrap bit_vector (unpack_sc_bv_base-Gives p s r l e)
get-Gives (int_base l) p r s meta h e = Gives-wrap int_base (get_each-Gives p s r l e)
get-Gives (uint_base l) p r s meta h e = Gives-wrap uint_base (get_each-Gives p s r l e)
get-Gives (signed l) p r s meta h e = Gives-wrap signed (get_each-Gives p s r l e)
get-Gives (unsigned l) p r s meta h e = Gives-wrap unsigned (get_each-Gives p s r l e)

pub get_all-Gives :
    (xs : List Item) (p : Packer) (r : List Bool)
    → IsReadable p
    → p.use_metadata ≡ true
    → All Fits xs
    → remaining p ≡ items_bits p.big_endian xs ++ r
    → Gives xs (items_bits p.big_endian xs) r p (get_all (map shape xs) p)
unfolding get_all
get_all-Gives [] p r s meta h e = record { value = refl; takes = Takes-refl p s; rest = e }
get_all-Gives (x ∷ xs) p r s meta h e =
    let l = item_bits p.big_endian x in
    let m = items_bits p.big_endian xs in
    let q = (get (shape x) p).1 in
    let g = get-Gives x p (m ++ r) s meta h.0 (e ∙ append_assoc l m r) in
    let g' : Gives xs m r q (get_all (map shape xs) q) =
      subst (λ big. Gives xs (items_bits big xs) r q (get_all (map shape xs) q)) g.takes.same_order
        (get_all-Gives xs q r g.takes.sound (g.takes.same_metadata ∙ meta) h.1
          (subst (λ big. remaining q ≡ items_bits big xs ++ r) (sym g.takes.same_order) g.rest)) in
    record { value = cc (g.value, g'.value); takes = Takes-trans g.takes g'.takes; rest = g'.rest }

pub reset-IsSound : (p : Packer) → IsSound (reset p)
unfolding reset
reset-IsSound p = record {
  ordered_indices = omega arith;
  sized = omega arith;
  allocated = omega arith;
}

-- Everything that has been packed since a reset is unpacked again.
module _ (xs : List Item) (p : Packer) (meta : p.use_metadata ≡ true) (fit : All Fits xs)
    (few : (put_all xs (reset p)).pack_index ≤ 2147479552) where
  abbrev pub full : Packer
  full = put_all xs (reset p)

  pub packed : Packs (items_bits p.big_endian xs) (reset p) full
  unfolding reset
  packed = put_all-Packs xs (reset p) (reset-IsSound p) meta

  readable : IsReadable full
  unfolding reset
  readable = record { ordered_indices = packed.sound.ordered_indices; small = omega (arith, few) }

  unpacked : Gives xs (items_bits full.big_endian xs) [] full (get_all (map shape xs) full)
  unfolding reset read
  unpacked = get_all-Gives xs full [] readable (packed.same_metadata ∙ meta) fit (
      packed.stream
      ∙ ap (λ big. items_bits big xs) (sym packed.same_order)
      ∙ sym (append-nil (items_bits full.big_endian xs)))

  -- Where the metadata flag is set, values that are packed after a reset, fit their types and take up
  -- at most 2^31 - 4096 bits, for which all sizes are of type `int`, come back when they are unpacked
  -- in the same order, whatever the order of the bits; no error is reported, and no bit is left.
  pub get_all-put_all :
      (get_all (map shape xs) (put_all xs (reset p))).0 ≡ xs
      × (get_all (map shape xs) (put_all xs (reset p))).1.errors ≡ p.errors
      × get_remaining_unpacked_bits (get_all (map shape xs) (put_all xs (reset p))).1 ≡ 0
  unfolding reset get_remaining_unpacked_bits
  get_all-put_all = (
    unpacked.value,
    unpacked.takes.same_errors ∙ packed.same_errors,
    nothing_left (get_all (map shape xs) full).1 unpacked.takes.sound unpacked.rest,
  )
    where
      nothing_left :
          (q : Packer) → IsReadable q → remaining q ≡ [] → get_remaining_unpacked_bits q ≡ 0
      nothing_left q s e =
          get_remaining_unpacked_bits_lem q s
          ∙ sym (length-read q.unpack_index (q.pack_index - q.unpack_index) q.bits)
          ∙ ap length e
