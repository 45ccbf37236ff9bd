-- ===== src/MemMam/Config.antt =====
-- src/uvmsc/reg/uvm_mem_mam.cpp: release, reconfiguration, iteration, and the address that wraps.
use system_c_uvm.Base.{
  ℕ, suc, zero, ◌+◌, ◌-◌, ◌/◌, ◌^◌, ◌≤◌, ◌<◌, ◌≡◌, ◌&&◌, true, false, not, ◌==◌, if◌then◌else◌,
  List, [], ◌∷◌, Option, none, some, arith, exists, String, get_elem?,
}
use system_c_uvm.MemMam.{
  Region, Cfg, Mam, Policy, place, region_for, reserve_region, request_region, remove,
  release_region, outside, reconfigure, for_each, prepare,
}
use system_c_uvm.MemMam.Ordered.{
  Below, Descending, Inside, Fits, OnOk, IsValid, succeeded, reserve_region-IsValid,
}
use system_c_uvm.MemMam.Occupied.{region_at}

Below-mono : (n k : ℕ) (xs : List Region) → n ≤ k → Below n xs → Below k xs
Below-mono n k [] h b = tt
Below-mono n k (x ∷ xs) h b = (omega arith, b.1, b.2)

abbrev OnSome : (List Region → Type 0) → Option (List Region) → Type 0
OnSome P (some ys) = P ys
OnSome P none = Unit

remove-Below : (ptr n : ℕ) (xs : List Region) → Below n xs → OnSome (Below n) (remove ptr xs)
unfolding remove
remove-Below ptr n [] b = tt
remove-Below ptr n (x ∷ xs) b =
    ground (arith, remove-Below ptr x.start_offset xs b.2, Below-mono x.start_offset n xs)

remove-Descending : (ptr : ℕ) (xs : List Region) → Descending xs → OnSome Descending (remove ptr xs)
unfolding remove
remove-Descending ptr [] d = tt
remove-Descending ptr (x ∷ []) d = ground arith
remove-Descending ptr (x ∷ y ∷ xs) d = ground (arith, remove-Below ptr x.start_offset (y ∷ xs) d.1)

remove-Inside :
    (ptr : ℕ) (cfg : Cfg) (xs : List Region) → Inside cfg xs → OnSome (Inside cfg) (remove ptr xs)
unfolding remove
remove-Inside ptr cfg [] i = tt
remove-Inside ptr cfg (x ∷ xs) i = ground (arith, remove-Inside ptr cfg xs)

-- A valid manager stays valid under release_region of any pointer, null and unknown ones included.
pub release_region-IsValid : (p : Option ℕ) (m : Mam) → IsValid m → IsValid (release_region p m).0
unfolding release_region
release_region-IsValid none m v = v
release_region-IsValid (some ptr) m v =
    ground (
      arith,
      remove-Descending ptr m.in_use v.descending,
      remove-Inside ptr m.cfg m.in_use v.inside,
    )

exists-outside : (cfg : Cfg) (xs : List Region) → exists (outside cfg) xs ≡ false → Inside cfg xs
exists-outside cfg [] h = tt
exists-outside cfg (x ∷ xs) h = ground (arith, exists-outside cfg xs)

-- reconfigure with a new configuration keeps a valid manager valid, returns the configuration that
-- was in force, and takes the new one over exactly when it has the same number of bytes per
-- location and no region in use lies outside of its range.
pub reconfigure-IsValid :
    (cfg : Cfg) (m : Mam)
    → IsValid m
    → let r = reconfigure (some cfg) m in
      IsValid r.0
      × (r.1 ≡ m.cfg)
      × (r.0.cfg ≡ (
          if cfg.n_bytes == m.cfg.n_bytes && not (exists (outside cfg) m.in_use)
          then cfg
          else m.cfg))
unfolding reconfigure
reconfigure-IsValid cfg m v = ground (arith, exists-outside cfg m.in_use)

-- The calls of a caller that walks over the regions: one with a reset, then `k` without.
unfoldable pub walk : ℕ → Mam → Mam × Option Region
walk zero m = for_each true m
walk (suc k) m = for_each false (walk k m).0

walk-state :
    (k : ℕ) (m : Mam) → ((walk k m).0.for_each_next ≡ k + 1) × ((walk k m).0.in_use ≡ m.in_use)
unfolding walk for_each
walk-state zero m = ground arith
walk-state (suc k) m = ground (arith, walk-state k m)

-- for_each enumerates the regions in use in their order: after a call with a reset, the k-th
-- further call returns the region with index k, and NULL from the end of the list on.
pub walk-get_elem? : (k : ℕ) (m : Mam) → (walk k m).1 ≡ get_elem? m.in_use k
unfolding walk for_each
walk-get_elem? zero m = ground arith
walk-get_elem? (suc k) m = ground (arith, walk-state k m)

place-first :
    (r : Region) (xs : List Region)
    → region_at r.ptr xs ≡ none
    → OnOk (λ ys. remove r.ptr ys ≡ some xs) (place r xs)
unfolding place remove
place-first r [] h = ground arith
place-first r (x ∷ xs) h = ground (arith, place-first r xs)

-- If `new` returns an address that no region in use has, a successful reserve_region is undone by
-- release_region: the regions in use are those before, in the same order.
pub release_region-reserve_region :
    (ptr start n_bytes : ℕ) (fname : String) (lineno : ℕ) (m : Mam)
    → region_at ptr m.in_use ≡ none
    → succeeded (reserve_region ptr start n_bytes fname lineno m).1 ≡ true
    → let q = reserve_region ptr start n_bytes fname lineno m in
      (release_region (some ptr) q.0).0.in_use ≡ m.in_use
unfolding reserve_region release_region region_for
release_region-reserve_region ptr start n_bytes fname lineno m fresh done =
    ground (arith, place-first (region_for ptr m.cfg start n_bytes) m.in_use fresh)

-- The range check of reserve_region is passed by a request whose last address wraps around 2^64 to
-- a small one: on an empty manager whose range ends at the last address, a request from a start
-- within the range that runs past 2^64 is granted, and the new region ends before it begins.
pub reserve_region_wraps :
    (ptr start n_bytes : ℕ) (fname : String) (lineno : ℕ) (m : Mam)
    → m.in_use ≡ []
    → 0 < m.cfg.n_bytes
    → m.cfg.end_offset ≡ 2 ^ 64 - 1
    → m.cfg.start_offset ≤ start
    → start < 2 ^ 64
    → 0 < n_bytes
    → (n_bytes - 1) / m.cfg.n_bytes < 2 ^ 32
    → 2 ^ 64 ≤ start + (n_bytes - 1) / m.cfg.n_bytes
    → let q = reserve_region ptr start n_bytes fname lineno m in
      (succeeded q.1 ≡ true)
      × (r : Region) × (q.0.in_use ≡ r ∷ [])
      × (r.start_offset ≡ start)
      × (r.end_offset < start)
unfolding reserve_region region_for place
reserve_region_wraps ptr start n_bytes fname lineno m e pos last lo hi some_bytes small wraps =
    (ground arith, region_for ptr m.cfg start n_bytes, ground arith, ground arith, ground arith)

abbrev alloc_of : Option Policy → Mam → Policy
alloc_of none m = m.default_alloc
alloc_of (some p) m = p

reserve_region-start :
    (ptr start n_bytes : ℕ) (fname : String) (lineno : ℕ) (m : Mam)
    → OnOk (λ r. r.start_offset ≡ start) (reserve_region ptr start n_bytes fname lineno m).1
unfolding reserve_region region_for
reserve_region-start ptr start n_bytes fname lineno m = ground arith

-- request_region keeps a valid manager valid when the policy's offset leaves room below 2^64, and
-- a region that it returns begins at that offset: the policy is not randomised.
pub request_region-start :
    (ptr n_bytes : ℕ) (p : Option Policy) (m : Mam)
    → IsValid m
    → Fits m.cfg (alloc_of p m).start_offset n_bytes
    → let q = request_region ptr n_bytes p m in
      IsValid q.0 × OnOk (λ r. r.start_offset ≡ (alloc_of p m).start_offset) q.2
unfolding request_region
request_region-start ptr n_bytes none m v f =
    let m' : Mam = record m { default_alloc = prepare m n_bytes m.default_alloc } in
    (
      reserve_region-IsValid ptr m.default_alloc.start_offset n_bytes "" 0 m' (ground arith) f,
      reserve_region-start ptr m.default_alloc.start_offset n_bytes "" 0 m',
    )
request_region-start ptr n_bytes (some p) m v f = (
  reserve_region-IsValid ptr p.start_offset n_bytes "" 0 m v f,
  reserve_region-start ptr p.start_offset n_bytes "" 0 m,
)
