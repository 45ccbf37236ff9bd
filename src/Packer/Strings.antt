-- ===== src/Packer/Strings.antt =====
-- src/uvmsc/policy/uvm_packer.cpp: strings that end with a null character, packed and unpacked.
use mathlib.Core.List.{append_assoc}
use system_c_uvm.Base.{
  ℕ, zero, suc, ◌+◌, ◌≤◌, ◌<◌, ◌≡◌, ◌≢◌, refl, sym, ◌∙◌, ap, subst, not, Bool, true, if◌then◌else◌,
  List, [], ◌∷◌, ◌++◌, none, length, length-append, All, arith,
}
use system_c_uvm.Packer.{
  Packer, bits_of, number, m_enough_bits, check_enough, inc_unpack_index,
  get_remaining_unpacked_bits,
}
use system_c_uvm.Packer.Operations.{
  pack_char, pack_chars, pack_string, unpack_chars, unpack_string, next_bits,
}
use system_c_uvm.Packer.Numbers.{length-bits_of}
use system_c_uvm.Packer.Stream.{
  get_remaining_unpacked_bits_lem, IsReadable, remaining, IsSound, Packs, Packs-trans, Takes,
  enough,
}
use system_c_uvm.Packer.Values.{length-swap, Gives}
use system_c_uvm.Packer.Characters.{
  char_bits, chars_bits, IsChar, pack_char-Packs, pack_chars-Packs, number-swap_pos,
  number-swap_zero, Takes-refl, Takes-trans, round, stop, enough_for, bits_are, next_char-Takes,
  rest_of, char_is,
}

pub unpack_chars-Gives :
    (cs : List ℕ) (fuel i : ℕ) (p : Packer) (r : List Bool)
    → IsReadable p
    → length cs < fuel
    → All IsChar cs
    → remaining p ≡ chars_bits p.big_endian cs ++ (char_bits p.big_endian 0 ++ r)
    → Gives cs
        (chars_bits p.big_endian cs)
        (char_bits p.big_endian 0 ++ r)
        p
        (unpack_chars fuel none i p)
unpack_chars-Gives cs zero i p r s low chars e = absurd (omega arith)
unpack_chars-Gives [] (suc fuel) i p r s low chars e =
    let z : number (next_bits 8 p) ≡ 0 =
      ap number (bits_are p s 0 r e) ∙ number-swap_zero p.big_endian in
    subst (Gives [] [] (char_bits p.big_endian 0 ++ r) p)
      (sym (stop fuel i p (enough_for p s 0 r e) z))
      (record { value = refl; takes = Takes-refl p s; rest = e })
unpack_chars-Gives (c ∷ cs) (suc fuel) i p r s low chars e =
    let r' = chars_bits p.big_endian cs ++ (char_bits p.big_endian 0 ++ r) in
    let e' : remaining p ≡ char_bits p.big_endian c ++ r' =
      e
      ∙ append_assoc (char_bits p.big_endian c) (chars_bits p.big_endian cs)
          (char_bits p.big_endian 0 ++ r) in
    let pos : number (next_bits 8 p) ≢ 0 =
      λ z. number-swap_pos p.big_endian c chars.0 (sym (ap number (bits_are p s c r' e')) ∙ z) in
    let q = inc_unpack_index 8 p in
    let t = next_char-Takes p s c r' e' in
    let same : p.big_endian ≡ q.big_endian = sym t.same_order in
    let ih : Gives cs (chars_bits p.big_endian cs) (char_bits p.big_endian 0 ++ r) q
        (unpack_chars fuel none (i + 1) q) =
      subst
        (λ big.
          Gives cs (chars_bits big cs) (char_bits big 0 ++ r) q (unpack_chars fuel none (i + 1) q))
        (sym same)
        (unpack_chars-Gives cs fuel (i + 1) q r t.sound (omega arith) chars.1 (
          subst (λ big. remaining q ≡ chars_bits big cs ++ (char_bits big 0 ++ r)) same
            (rest_of p s c r' e'))) in
    subst (Gives (c ∷ cs) (chars_bits p.big_endian (c ∷ cs)) (char_bits p.big_endian 0 ++ r) p)
      (sym (round fuel i c p (enough_for p s c r' e') pos))
      (record {
        value = cc (char_is p s c r' e' chars.0.1, ih.value);
        takes = Takes-trans t ih.takes;
        rest = ih.rest;
      })

-- A string with its null character.
abbrev pub string_bits : Bool → List ℕ → List Bool
string_bits big cs = chars_bits big cs ++ char_bits big 0

pub pack_string-Packs :
    (cs : List ℕ) (p : Packer)
    → IsSound p
    → p.use_metadata ≡ true
    → Packs (string_bits p.big_endian cs) p (pack_string cs p)
unfolding pack_string
pack_string-Packs cs p s meta =
    let a = pack_chars-Packs cs p s in
    let b = pack_char-Packs 0 (pack_chars cs p) a.sound in
    let both : Packs (string_bits p.big_endian cs) p (pack_char 0 (pack_chars cs p)) =
      Packs-trans a (
        subst (λ big. Packs (char_bits big 0) (pack_chars cs p) (pack_char 0 (pack_chars cs p)))
          a.same_order b) in
    subst
      (λ flag.
        Packs (string_bits p.big_endian cs) p
          (if flag then pack_char 0 (pack_chars cs p) else pack_chars cs p))
      (sym meta) both

length-chars_bits : (big : Bool) (cs : List ℕ) → length cs ≤ length (chars_bits big cs)
length-chars_bits big [] = omega arith
length-chars_bits big (c ∷ cs) = omega (
  arith,
  length-append (char_bits big c) (chars_bits big cs),
  length-swap big (bits_of 8 c),
  length-bits_of 8 c,
  length-chars_bits big cs,
)

end_of_string :
    (p : Packer) (o : List ℕ × Packer)
    → unpack_chars (get_remaining_unpacked_bits p + 1) none 0 p ≡ o
    → p.use_metadata ≡ true
    → m_enough_bits 8 o.1 ≡ true
    → unpack_string none p ≡ (o.0, inc_unpack_index 8 o.1)
unfolding unpack_string
end_of_string p o e meta here =
    ap (λ (x : List ℕ × Packer). after x.0 x.1 p.use_metadata (m_enough_bits 8 x.1)) e
    ∙ ap (λ flag. after o.0 o.1 flag (m_enough_bits 8 o.1)) meta
    ∙ ap (after o.0 o.1 true) here
  where
    after : List ℕ → Packer → Bool → Bool → List ℕ × Packer
    after s q flag has =
        if not flag
        then (s, q)
        else if has
        then (s, inc_unpack_index 8 q)
        else (s, check_enough 8 q)

pub unpack_string-Gives :
    (cs : List ℕ) (p : Packer) (r : List Bool)
    → IsReadable p
    → p.use_metadata ≡ true
    → All IsChar cs
    → remaining p ≡ string_bits p.big_endian cs ++ r
    → Gives cs (string_bits p.big_endian cs) r p (unpack_string none p)
unpack_string-Gives cs p r s meta chars e =
    let l = chars_bits p.big_endian cs in
    let n = char_bits p.big_endian 0 in
    let e' : remaining p ≡ l ++ (n ++ r) = e ∙ append_assoc l n r in
    let low : length cs < get_remaining_unpacked_bits p + 1 = omega (
      arith,
      get_remaining_unpacked_bits_lem p s,
      enough l (n ++ r) p s e',
      length-chars_bits p.big_endian cs,
    ) in
    let g = unpack_chars-Gives cs (get_remaining_unpacked_bits p + 1) 0 p r s low chars e' in
    let q = (unpack_chars (get_remaining_unpacked_bits p + 1) none 0 p).1 in
    let e'' : remaining q ≡ char_bits q.big_endian 0 ++ r =
      subst (λ big. remaining q ≡ char_bits big 0 ++ r) (sym g.takes.same_order) g.rest in
    let t : Takes n q (inc_unpack_index 8 q) =
      subst (λ big. Takes (char_bits big 0) q (inc_unpack_index 8 q)) g.takes.same_order
        (next_char-Takes q g.takes.sound 0 r e'') in
    subst (Gives cs (l ++ n) r p)
      (sym (
        end_of_string p (unpack_chars (get_remaining_unpacked_bits p + 1) none 0 p) refl meta
          (enough_for q g.takes.sound 0 r e'')))
      (record {
        value = g.value;
        takes = Takes-trans g.takes t;
        rest = rest_of q g.takes.sound 0 r e'';
      })
