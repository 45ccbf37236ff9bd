-- ===== src/Packer.antt =====
-- src/uvmsc/policy/uvm_packer.cpp: values are packed as bits, one behind the other, and unpacked in the same order. The
-- bit vector m_bits is a function from indices to bits; values of SystemC types are their bits, the
-- lowest first, and integral values and characters are numbers.
pub mod Operations
pub mod Stream
pub mod Numbers
pub mod Values
pub mod Characters
pub mod Strings
pub mod Operators
pub mod RoundTrip
pub mod Words
pub mod Transport
use system_c_uvm.Base.{
  ℕ, zero, suc, ◌+◌, ◌-◌, ◌*◌, ◌/◌, ◌%◌, ◌^◌, ltb, leb, ◌&&◌, Bool, true, if◌then◌else◌, ◌==◌,
  String, List, [], ◌∷◌, ◌++◌,
}

-- uvm_packer, with the errors that are reported.
pub record Packer : Type 0 where
  pub bits : ℕ → Bool
  pub pack_index : ℕ
  pub unpack_index : ℕ
  pub m_size : ℕ
  pub m_max_size : ℕ
  pub big_endian : Bool
  pub use_metadata : Bool
  pub errors : List String

-- A range of m_bits, and an assignment to one.
unfoldable pub read : ℕ → ℕ → (ℕ → Bool) → List Bool
read at zero f = []
read at (suc n) f = f at ∷ read (at + 1) n f

unfoldable pub write : ℕ → List Bool → (ℕ → Bool) → ℕ → Bool
write at [] f = f
write at (b ∷ l) f = write (at + 1) l (λ j. if j == at then b else f j)

-- The lowest bits of a number, and the number that bits stand for.
unfoldable pub bits_of : ℕ → ℕ → List Bool
bits_of zero v = []
bits_of (suc n) v = (v % 2 == 1) ∷ bits_of n (v / 2)

unfoldable pub number : List Bool → ℕ
number [] = 0
number (b ∷ l) = (if b then 1 else 0) + 2 * number l

abbrev block : ℕ
block = 4096

unfoldable pub m_allocate : ℕ → Bool → Packer → Packer
m_allocate nbits copy p =
    let new_size = ((p.pack_index + nbits - 1) / block + 1) * block in
    if ltb p.m_max_size new_size
    then record p {
      m_size = new_size;
      m_max_size = new_size;
      bits = λ j. copy && ltb j p.m_max_size && p.bits j;
    }
    else record p { m_size = new_size }

unfoldable pub m_check_size : ℕ → Packer → Packer
unfolding m_allocate
m_check_size nbits p = if leb (p.m_size - p.pack_index) nbits then m_allocate nbits true p else p

unfoldable pub reset : Packer → Packer
reset p = record p { pack_index = 0; unpack_index = 0; m_size = 0 }

-- The difference of the indices is `unsigned int`.
unfoldable pub get_remaining_unpacked_bits : Packer → ℕ
get_remaining_unpacked_bits p = (p.pack_index + 2 ^ 32 - p.unpack_index) % 2 ^ 32

-- It is compared as an `int`: from 2^31 on it is negative.
unfoldable pub m_enough_bits : ℕ → Packer → Bool
unfolding get_remaining_unpacked_bits
m_enough_bits needed p =
    let left = get_remaining_unpacked_bits p in ltb left (2 ^ 31) && leb needed left

abbrev pub report : String → Packer → Packer
report id p = record p { errors = p.errors ++ id ∷ [] }

-- The report of m_enough_bits.
unfoldable pub check_enough : ℕ → Packer → Packer
unfolding m_enough_bits
check_enough needed p = if m_enough_bits needed p then p else report "PCKSZERR" p

unfoldable pub inc_unpack_index : ℕ → Packer → Packer
inc_unpack_index n p =
    let p' = record p { unpack_index = p.unpack_index + n } in
    if ltb p.pack_index (p.unpack_index + n) then report "UNPCKERR" p' else p'
