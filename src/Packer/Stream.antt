-- ===== src/Packer/Stream.antt =====
-- src/uvmsc/policy/uvm_packer.cpp: the bits between unpack_index and pack_index as a stream, to which packing appends
-- and from which unpacking takes.
use system_c_uvm.Base.{
  ◌^◌, false, ltb, true, ap, sym, subst, length-append, ℕ, zero, suc, ◌+◌, ◌-◌, ◌≤◌, ◌<◌, ◌≡◌, refl,
  ◌∙◌, Bool, if◌then◌else◌, ◌==◌, List, [], ◌∷◌, ◌++◌, length, arith,
}
use system_c_uvm.Packer.{
  get_remaining_unpacked_bits, m_enough_bits, inc_unpack_index, Packer, read, write, m_allocate,
  m_check_size,
}
use system_c_uvm.Packer.Operations.{append}
use mathlib.Core.List.{append_assoc}

pub read-ext :
    (at n : ℕ) (f g : ℕ → Bool) → ((j : ℕ) → j < at + n → f j ≡ g j) → read at n f ≡ read at n g
unfolding read
read-ext at zero f g same = refl
read-ext at (suc n) f g same =
    cc (same at (omega arith), read-ext (at + 1) n f g (λ j h. same j (omega arith)))

pub length-read : (at n : ℕ) (f : ℕ → Bool) → length (read at n f) ≡ n
unfolding read
length-read at zero f = refl
length-read at (suc n) f = omega (arith, length-read (at + 1) n f)

pub read-add : (at m n : ℕ) (f : ℕ → Bool) → read at (m + n) f ≡ read at m f ++ read (at + m) n f
unfolding read
read-add at zero n f =
    let e : 0 + n ≡ n = omega arith in
    let e' : at ≡ at + 0 = omega arith in ap (λ k. read at k f) e ∙ ap (λ k. read k n f) e'
read-add at (suc m) n f =
    let e : suc m + n ≡ suc (m + n) = omega arith in
    let e' : at + 1 + m ≡ at + suc m = omega arith in
    ap (λ k. read at k f) e
    ∙ ap (λ l. f at ∷ l) (read-add (at + 1) m n f)
    ∙ ap (λ k. f at ∷ (read (at + 1) m f ++ read k n f)) e'

pub write-before : (at : ℕ) (l : List Bool) (f : ℕ → Bool) (j : ℕ) → j < at → write at l f j ≡ f j
unfolding write
write-before at [] f j h = refl
write-before at (b ∷ l) f j h =
    write-before (at + 1) l (λ j. if j == at then b else f j) j (omega arith) ∙ ground arith

pub read-write : (at : ℕ) (l : List Bool) (f : ℕ → Bool) → read at (length l) (write at l f) ≡ l
unfolding read write
read-write at [] f = refl
read-write at (b ∷ l) f =
    let g : ℕ → Bool = λ j. if j == at then b else f j in
    let here : g at ≡ b = ground arith in
    cc (read-write (at + 1) l g, write-before (at + 1) l g at (omega arith), here)

-- The bits that have been packed and not been unpacked.
abbrev pub remaining : Packer → List Bool
remaining p = read p.unpack_index (p.pack_index - p.unpack_index) p.bits

pub record IsSound (p : Packer) : Type 0 where
  pub ordered_indices : p.unpack_index ≤ p.pack_index
  pub sized : p.m_size ≤ p.m_max_size
  pub allocated : p.pack_index ≤ p.m_max_size

-- The indices of a packer from which bits can be taken.
pub record IsReadable (p : Packer) : Type 0 where
  pub ordered_indices : p.unpack_index ≤ p.pack_index
  pub small : p.pack_index < 2 ^ 31

pub get_remaining_unpacked_bits_lem :
    (p : Packer) → IsReadable p → get_remaining_unpacked_bits p ≡ p.pack_index - p.unpack_index
unfolding get_remaining_unpacked_bits
get_remaining_unpacked_bits_lem p s = omega (arith, s.ordered_indices, s.small)

-- A packer after bits have been packed into another.
pub record Packs (l : List Bool) (p p' : Packer) : Type 0 where
  pub sound : IsSound p'
  pub stream : remaining p' ≡ remaining p ++ l
  pub same_unpack : p'.unpack_index ≡ p.unpack_index
  pub same_order : p'.big_endian ≡ p.big_endian
  pub same_metadata : p'.use_metadata ≡ p.use_metadata
  pub same_errors : p'.errors ≡ p.errors

-- There is room afterwards, and what has been packed stays.
pub record HasRoom (n : ℕ) (p p' : Packer) : Type 0 where
  pub room : p.pack_index + n ≤ p'.m_max_size
  pub sized : p'.m_size ≤ p'.m_max_size
  pub kept : (j : ℕ) → j < p.pack_index → p'.bits j ≡ p.bits j
  pub same_pack : p'.pack_index ≡ p.pack_index
  pub same_unpack : p'.unpack_index ≡ p.unpack_index
  pub same_order : p'.big_endian ≡ p.big_endian
  pub same_metadata : p'.use_metadata ≡ p.use_metadata
  pub same_errors : p'.errors ≡ p.errors

pub m_check_size-HasRoom :
    (n : ℕ) (p : Packer)
    → p.pack_index ≤ p.m_max_size
    → p.m_size ≤ p.m_max_size
    → HasRoom n p (m_check_size n p)
unfolding m_check_size m_allocate
m_check_size-HasRoom n p h k = record {
  room = ground arith;
  sized = ground arith;
  kept = λ j lt. ground arith;
  same_pack = ground arith;
  same_unpack = ground arith;
  same_order = ground arith;
  same_metadata = ground arith;
  same_errors = ground arith;
}

module _ (l : List Bool) (p c : Packer) (s : IsSound p) (h : HasRoom (length l) p c) where
  abbrev written : ℕ → Bool
  written = write c.pack_index l c.bits

  old_part : read p.unpack_index (p.pack_index - p.unpack_index) written ≡ remaining p
  old_part = read-ext p.unpack_index (p.pack_index - p.unpack_index) written p.bits λ j lt.
      let low : j < p.pack_index = omega (arith, s.ordered_indices, lt) in
      let low' : j < c.pack_index = omega (arith, h.same_pack, low) in
      write-before c.pack_index l c.bits j low' ∙ h.kept j low

  new_part : read (p.unpack_index + (p.pack_index - p.unpack_index)) (length l) written ≡ l
  new_part =
      let e : p.unpack_index + (p.pack_index - p.unpack_index) ≡ c.pack_index =
        omega (arith, s.ordered_indices, h.same_pack) in
      ap (λ k. read k (length l) written) e ∙ read-write c.pack_index l c.bits

  appended :
      read c.unpack_index (c.pack_index + length l - c.unpack_index) written ≡ remaining p ++ l
  appended =
      let e : c.pack_index + length l - c.unpack_index ≡ p.pack_index - p.unpack_index + length l =
        omega (arith, s.ordered_indices, h.same_pack, h.same_unpack) in
      ap (λ k. read c.unpack_index k written) e
      ∙ ap (λ k. read k (p.pack_index - p.unpack_index + length l) written) h.same_unpack
      ∙ read-add p.unpack_index (p.pack_index - p.unpack_index) (length l) written
      ∙ cc (old_part, new_part)

-- What is packed comes behind what is in the stream.
pub append-Packs : (l : List Bool) (p : Packer) → IsSound p → Packs l p (append l p)
unfolding append
append-Packs l p s =
    let h = m_check_size-HasRoom (length l) p s.allocated s.sized in
    record {
      sound = record {
        ordered_indices = omega (arith, h.same_pack, h.same_unpack, s.ordered_indices);
        sized = h.sized;
        allocated = omega (arith, h.same_pack, h.room);
      };
      stream = appended l p (m_check_size (length l) p) s h;
      same_unpack = h.same_unpack;
      same_order = h.same_order;
      same_metadata = h.same_metadata;
      same_errors = h.same_errors;
    }

pub Packs-trans :
    {l m : List Bool} {p q r : Packer} → Packs l p q → Packs m q r → Packs (l ++ m) p r
Packs-trans {l} {m} {p} a b = record {
  sound = b.sound;
  stream = b.stream ∙ ap (λ x. x ++ m) a.stream ∙ append_assoc (remaining p) l m;
  same_unpack = b.same_unpack ∙ a.same_unpack;
  same_order = b.same_order ∙ a.same_order;
  same_metadata = b.same_metadata ∙ a.same_metadata;
  same_errors = b.same_errors ∙ a.same_errors;
}

-- A packer after the first bits of its stream have been taken.
pub record Takes (l : List Bool) (p p' : Packer) : Type 0 where
  pub sound : IsReadable p'
  pub stream : remaining p ≡ l ++ remaining p'
  pub same_order : p'.big_endian ≡ p.big_endian
  pub same_metadata : p'.use_metadata ≡ p.use_metadata
  pub same_errors : p'.errors ≡ p.errors

append-cancel : (a b c d : List Bool) → length a ≡ length b → a ++ c ≡ b ++ d → (a ≡ b) × (c ≡ d)
append-cancel [] [] c d h e = (refl, e)
append-cancel [] (y ∷ b) c d h e = absurd (omega arith)
append-cancel (x ∷ a) [] c d h e = absurd (omega arith)
append-cancel (x ∷ a) (y ∷ b) c d h e =
    let heads : (x ≡ y) × (a ++ c ≡ b ++ d) = (cc, cc) in
    let rest = append-cancel a b c d (omega arith) heads.1 in (cc (heads.0, rest.0), rest.1)

module _ (l r : List Bool) (p : Packer) (s : IsReadable p) (e : remaining p ≡ l ++ r) where
  abbrev size : ℕ
  size = p.pack_index - p.unpack_index

  pub enough : size ≡ length l + length r
  enough = sym (length-read p.unpack_index size p.bits) ∙ ap length e ∙ length-append l r

  parts :
      (read p.unpack_index (length l) p.bits ≡ l)
      × (read (p.unpack_index + length l) (length r) p.bits ≡ r)
  parts =
      append-cancel (read p.unpack_index (length l) p.bits) l
        (read (p.unpack_index + length l) (length r) p.bits) r
        (length-read p.unpack_index (length l) p.bits)
        (sym (read-add p.unpack_index (length l) (length r) p.bits)
          ∙ ap (λ k. read p.unpack_index k p.bits) (sym enough)
          ∙ e)

  pub next_part : read p.unpack_index (length l) p.bits ≡ l
  next_part = parts.0

  abbrev pub moved : Packer
  moved = record p { unpack_index = p.unpack_index + length l }

  inc_unpack_index-moved : inc_unpack_index (length l) p ≡ moved
  unfolding inc_unpack_index
  inc_unpack_index-moved =
      let inside : ltb p.pack_index (p.unpack_index + length l) ≡ false =
        ground (arith, enough, s.ordered_indices) in
      rw inside refl

  pub moved-rest : remaining moved ≡ r
  moved-rest =
      let left : p.pack_index - (p.unpack_index + length l) ≡ length r = omega (arith, enough) in
      ap (λ k. read (p.unpack_index + length l) k p.bits) left ∙ parts.1

  pub moved-Takes : Takes l p moved
  moved-Takes = record {
    sound = record { ordered_indices = omega (arith, enough, s.ordered_indices); small = s.small };
    stream = e ∙ ap (λ x. l ++ x) (sym moved-rest);
    same_order = refl;
    same_metadata = refl;
    same_errors = refl;
  }

  -- What is at the front of the stream is taken without an error.
  pub inc_unpack_index-Takes : Takes l p (inc_unpack_index (length l) p)
  inc_unpack_index-Takes = subst (Takes l p) (sym inc_unpack_index-moved) moved-Takes

  pub inc_unpack_index-rest : remaining (inc_unpack_index (length l) p) ≡ r
  inc_unpack_index-rest = ap remaining inc_unpack_index-moved ∙ moved-rest

  pub m_enough_bits-front : m_enough_bits (length l) p ≡ true
  unfolding m_enough_bits
  m_enough_bits-front =
      let left = get_remaining_unpacked_bits_lem p s in ground (arith, left, enough, s.small)
