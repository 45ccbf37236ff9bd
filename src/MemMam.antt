-- ===== src/MemMam.antt =====
-- src/uvmsc/reg/uvm_mem_mam.cpp with uvm_mem_mam_cfg.h, uvm_mem_mam_policy.h and the accessors of
-- uvm_mem_region.cpp: the memory allocation manager.
-- `unsigned long` is 64 bits and `unsigned int` 32 bits wide. A region is known by its address
-- `ptr`, the value that `new uvm_mem_region` returned. It is an argument of the calls that allocate.
-- Errors that the source reports and answers by NULL are values of `Refusal`.
pub mod Ordered
pub mod Occupied
pub mod Config
use system_c_uvm.Base.{
  ℕ, suc, zero, ◌+◌, ◌-◌, ◌*◌, ◌/◌, ◌%◌, ◌^◌, ◌&&◌, ◌||◌, Bool, true, false, if◌then◌else◌, ltb,
  leb, ◌==◌, List, [], ◌∷◌, Option, none, some, String, length, get_elem?, exists,
}

abbrev pub u32 : ℕ → ℕ
u32 n = n % 2 ^ 32

abbrev pub u64 : ℕ → ℕ
u64 n = n % 2 ^ 64

pub data AllocMode : Type 0 where
  greedy thrifty : AllocMode

pub data Locality : Type 0 where
  broad nearby : Locality

-- uvm_mem_mam_cfg
pub record Cfg : Type 0 where
  pub n_bytes : ℕ
  pub start_offset : ℕ
  pub end_offset : ℕ
  pub mode : AllocMode
  pub locality : Locality

-- uvm_mem_region, without its virtual registers
pub record Region : Type 0 where
  pub ptr : ℕ
  pub start_offset : ℕ
  pub end_offset : ℕ
  pub len : ℕ
  pub n_bytes : ℕ

-- uvm_mem_mam_policy
pub record Policy : Type 0 where
  pub len : ℕ
  pub start_offset : ℕ
  pub min_offset : ℕ
  pub max_offset : ℕ
  pub in_use : List Region

-- `for_each_next` is `m_for_each_idx + 1`, which starts at -1.
pub record Mam : Type 0 where
  pub cfg : Cfg
  pub in_use : List Region
  pub default_alloc : Policy
  pub for_each_next : ℕ
  pub fname : String
  pub lineno : ℕ

pub data Refusal : Type 0 where
  zero_bytes : Refusal
  before_start : Refusal
  past_end : Refusal
  overlaps : Region → Refusal
  unallocated : Refusal

pub data Outcome {ℓ} (A : Type ℓ) : Type ℓ where
  ok : A → Outcome A
  refused : Refusal → Outcome A

abbrev empty_policy : Policy
empty_policy = record { len = 0; start_offset = 0; min_offset = 0; max_offset = 0; in_use = [] }

-- uvm_mem_mam::uvm_mem_mam
unfoldable pub new_mam : Cfg → Mam
new_mam cfg = record {
  cfg = cfg;
  in_use = [];
  default_alloc = empty_policy;
  for_each_next = 0;
  fname = "";
  lineno = 0;
}

-- The test of both loops: do the closed intervals meet?
abbrev pub meets : ℕ → ℕ → Region → Bool
meets first last x = leb first x.end_offset && leb x.start_offset last

-- The loop of reserve_region over m_in_use, from the position `it`.
unfoldable pub place : Region → List Region → Outcome (List Region)
place r [] = ok (r ∷ [])
place r (x ∷ xs) =
    if meets r.start_offset r.end_offset x
    then refused (overlaps x)
    else if ltb x.start_offset r.start_offset
    then ok (r ∷ x ∷ xs)
    else elim (place r xs) [ ok ys ↦ ok (x ∷ ys) | refused e ↦ refused e ]

-- `_end_offset` of reserve_region
unfoldable pub end_of : Cfg → ℕ → ℕ → ℕ
end_of cfg start n_bytes = u64 (start + (n_bytes - 1) / cfg.n_bytes)

-- The region that reserve_region allocates. `_end_offset - start_offset + 1` wraps at 64 bits.
unfoldable pub region_for : ℕ → Cfg → ℕ → ℕ → Region
unfolding end_of
region_for ptr cfg start n_bytes =
    let last = end_of cfg start n_bytes in
    let span = u64 (last + 2 ^ 64 - start + 1) in
    record {
      ptr = ptr;
      start_offset = start;
      end_offset = last;
      len = u32 span;
      n_bytes = u32 (span * cfg.n_bytes);
    }

-- The checks before the loop.
unfoldable pub reserve_in : ℕ → Cfg → List Region → ℕ → ℕ → Outcome (List Region)
unfolding place region_for end_of
reserve_in ptr cfg in_use start n_bytes =
    if n_bytes == 0
    then refused zero_bytes
    else if ltb start cfg.start_offset
    then refused before_start
    else if ltb cfg.end_offset (end_of cfg start n_bytes)
    then refused past_end
    else place (region_for ptr cfg start n_bytes) in_use

abbrev commit : Mam → Region → Outcome (List Region) → Mam × Outcome Region
commit m r (ok in_use) = (record m { in_use = in_use }, ok r)
commit m r (refused e) = (m, refused e)

-- uvm_mem_mam::reserve_region
unfoldable pub reserve_region : ℕ → ℕ → ℕ → String → ℕ → Mam → Mam × Outcome Region
unfolding reserve_in
reserve_region ptr start n_bytes fname lineno m =
    let m' = record m { fname = fname; lineno = lineno } in
    commit m' (region_for ptr m.cfg start n_bytes) (reserve_in ptr m.cfg m.in_use start n_bytes)

-- What request_region writes into the policy; its randomisation is commented out in the source.
abbrev prepare : Mam → ℕ → Policy → Policy
prepare m n_bytes alloc = record alloc {
  len = u32 (u32 (n_bytes + 2 ^ 32 - 1) / m.cfg.n_bytes + 1);
  min_offset = m.cfg.start_offset;
  max_offset = m.cfg.end_offset;
  in_use = m.in_use;
}

-- uvm_mem_mam::request_region. The caller's policy is changed, or the manager's own if it gave
-- none; the source then reserves with an empty file name and line 0.
unfoldable pub request_region : ℕ → ℕ → Option Policy → Mam → Mam × Option Policy × Outcome Region
unfolding reserve_region
request_region ptr n_bytes none m =
    let alloc = prepare m n_bytes m.default_alloc in
    let (m', r) =
      reserve_region ptr alloc.start_offset n_bytes "" 0 (record m { default_alloc = alloc }) in
    (m', none, r)
request_region ptr n_bytes (some policy) m =
    let alloc = prepare m n_bytes policy in
    let (m', r) = reserve_region ptr alloc.start_offset n_bytes "" 0 m in (m', some alloc, r)

-- The loop of release_region: the first entry with the pointer is erased.
unfoldable pub remove : ℕ → List Region → Option (List Region)
remove ptr [] = none
remove ptr (x ∷ xs) =
    if x.ptr == ptr then some xs else elim (remove ptr xs) [ none ↦ none | some ys ↦ some (x ∷ ys) ]

-- uvm_mem_mam::release_region; `none` is the null pointer.
unfoldable pub release_region : Option ℕ → Mam → Mam × Outcome (Unit {0})
unfolding remove
release_region none m = (m, ok tt)
release_region (some ptr) m = elim (remove ptr m.in_use) [
  | none ↦ (m, refused unallocated)
  | some in_use ↦ (record m { in_use = in_use }, ok tt)
]

-- uvm_mem_mam::release_all_regions
unfoldable pub release_all_regions : Mam → Mam
release_all_regions m = record m { in_use = [] }

-- uvm_mem_mam::for_each
unfoldable pub for_each : Bool → Mam → Mam × Option Region
for_each reset m =
    let next = (if reset then 0 else m.for_each_next) + 1 in
    (record m { for_each_next = next }, get_elem? m.in_use (next - 1))

-- Does the region lie outside of the new configuration's range?
abbrev pub outside : Cfg → Region → Bool
outside cfg x = ltb x.start_offset cfg.start_offset || ltb cfg.end_offset x.end_offset

-- uvm_mem_mam::reconfigure; the result is the configuration that the call returns.
unfoldable pub reconfigure : Option Cfg → Mam → Mam × Cfg
reconfigure none m = (m, m.cfg)
reconfigure (some cfg) m =
    if cfg.n_bytes == m.cfg.n_bytes
    then (if exists (outside cfg) m.in_use then (m, m.cfg) else (record m { cfg = cfg }, m.cfg))
    else (m, m.cfg)
