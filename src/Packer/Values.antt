-- ===== src/Packer/Values.antt =====
-- src/uvmsc/policy/uvm_packer.cpp: each kind of value but strings, packed and unpacked.
use Prim.Native.Nat.{◌^◌}
use mathlib.Core.List.{reverse, reverse-reverse}
use system_c_uvm.Base.{
  ℕ, zero, suc, ◌+◌, ◌<◌, ◌≡◌, refl, sym, ◌∙◌, ap, subst, Bool, true, false, if◌then◌else◌, List,
  [], ◌∷◌, ◌++◌, length, arith,
}
use system_c_uvm.Packer.{Packer, read, write, bits_of, number, m_check_size}
use system_c_uvm.Packer.Operations.{
  append, set_each, unpack_field_int, unpack_bool, unpack_sc_bv_base, get_each,
}
use system_c_uvm.Packer.Numbers.{number-bits_of, length-bits_of, length-reverse}
use system_c_uvm.Packer.Stream.{
  IsReadable, remaining, IsSound, Packs, append-Packs, Takes, next_part, inc_unpack_index-Takes,
  inc_unpack_index-rest, m_enough_bits-front, moved-Takes, moved-rest,
}

-- The bits of a field in the order of the packer.
abbrev pub swap : Bool → List Bool → List Bool
swap big l = if big then reverse l else l

pub length-swap : (big : Bool) (l : List Bool) → length (swap big l) ≡ length l
length-swap true l = length-reverse l
length-swap false l = refl

pub swap-swap : (big : Bool) (l : List Bool) → swap big (swap big l) ≡ l
swap-swap true l = reverse-reverse l
swap-swap false l = refl

-- A value and the packer that an unpacking gives, where the stream begins with `l` and goes on with
-- `r`.
pub record Gives {A : Type 0} (v : A) (l r : List Bool) (p : Packer) (o : A × Packer) : Type 0 where
  pub value : o.0 ≡ v
  pub takes : Takes l p o.1
  pub rest : remaining o.1 ≡ r

module _ (p : Packer) (s : IsReadable p) (r : List Bool) where
  field_bits :
      (l : List Bool) (v : ℕ)
      → number (swap p.big_endian l) ≡ v
      → remaining p ≡ l ++ r
      → Gives v l r p (unpack_field_int (length l) p)
  unfolding unpack_field_int
  field_bits l v n e = rw (m_enough_bits-front l r p s e) (record {
    value = ap (λ b. number (swap p.big_endian b)) (next_part l r p s e) ∙ n;
    takes = inc_unpack_index-Takes l r p s e;
    rest = inc_unpack_index-rest l r p s e;
  })

  pub unpack_field_int-Gives :
      (v size : ℕ)
      → v < 2 ^ size
      → remaining p ≡ swap p.big_endian (bits_of size v) ++ r
      → Gives v (swap p.big_endian (bits_of size v)) r p (unpack_field_int size p)
  unpack_field_int-Gives v size h e =
      let l = swap p.big_endian (bits_of size v) in
      let n : length l ≡ size = length-swap p.big_endian (bits_of size v) ∙ length-bits_of size v in
      subst (λ k. Gives v l r p (unpack_field_int k p)) n
        (field_bits l v
          (ap number (swap-swap p.big_endian (bits_of size v)) ∙ number-bits_of size v h) e)

  pub unpack_bool-Gives :
      (b : Bool) → remaining p ≡ (b ∷ []) ++ r → Gives b (b ∷ []) r p (unpack_bool p)
  unfolding unpack_bool read
  unpack_bool-Gives b e = record {
    value = head_of (next_part (b ∷ []) r p s e);
    takes = inc_unpack_index-Takes (b ∷ []) r p s e;
    rest = inc_unpack_index-rest (b ∷ []) r p s e;
  }
    where
      head_of : (p.bits p.unpack_index ∷ []) ≡ (b ∷ []) → p.bits p.unpack_index ≡ b
      head_of q = cc

  pub unpack_sc_bv_base-Gives :
      (l : List Bool) → remaining p ≡ l ++ r → Gives l l r p (unpack_sc_bv_base (length l) p)
  unfolding unpack_sc_bv_base
  unpack_sc_bv_base-Gives l e = record {
    value = next_part l r p s e;
    takes = inc_unpack_index-Takes l r p s e;
    rest = inc_unpack_index-rest l r p s e;
  }

get_each_lem :
    (n : ℕ) (p : Packer)
    → get_each n p ≡ (read p.unpack_index n p.bits, record p { unpack_index = p.unpack_index + n })
unfolding get_each read
get_each_lem zero p =
    let e : p.unpack_index ≡ p.unpack_index + 0 = omega arith in
    ap (λ k. ([], record p { unpack_index = k })) e
get_each_lem (suc n) p =
    let e : p.unpack_index + 1 + n ≡ p.unpack_index + suc n = omega arith in
    let ih = get_each_lem n (record p { unpack_index = p.unpack_index + 1 }) in
    ap (λ (o : List Bool × Packer). (p.bits p.unpack_index ∷ o.0, o.1)) ih
    ∙ ap
        (λ k. (
          p.bits p.unpack_index ∷ read (p.unpack_index + 1) n p.bits,
          record p { unpack_index = k },
        ))
        e

pub get_each-Gives :
    (p : Packer)
    → IsReadable p
    → (r l : List Bool) → remaining p ≡ l ++ r
    → Gives l l r p (get_each (length l) p)
get_each-Gives p s r l e = subst (Gives l l r p) (sym (get_each_lem (length l) p)) (record {
  value = next_part l r p s e;
  takes = moved-Takes l r p s e;
  rest = moved-rest l r p s e;
})

set_each_lem :
    (l : List Bool) (p : Packer)
    → set_each l p
      ≡ record p { bits = write p.pack_index l p.bits; pack_index = p.pack_index + length l }
unfolding set_each write
set_each_lem [] p =
    let e : p.pack_index ≡ p.pack_index + 0 = omega arith in ap (λ k. record p { pack_index = k }) e
set_each_lem (b ∷ l) p =
    let e : p.pack_index + 1 + length l ≡ p.pack_index + suc (length l) = omega arith in
    set_each_lem l
      (record p { bits = write p.pack_index (b ∷ []) p.bits; pack_index = p.pack_index + 1 })
    ∙ ap (λ k. record p { bits = write p.pack_index (b ∷ l) p.bits; pack_index = k }) e

pub set_each-Packs :
    (l : List Bool) (p : Packer) → IsSound p → Packs l p (set_each l (m_check_size (length l) p))
unfolding append
set_each-Packs l p s =
    subst (Packs l p) (sym (set_each_lem l (m_check_size (length l) p))) (append-Packs l p s)
