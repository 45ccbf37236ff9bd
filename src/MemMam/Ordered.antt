-- ===== src/MemMam/Ordered.antt =====
-- The order of m_in_use in src/uvmsc/reg/uvm_mem_mam.cpp, and what the loop of reserve_region does
-- to it.
use system_c_uvm.Base.{
  ℕ, ◌+◌, ◌-◌, ◌/◌, ◌^◌, ◌≤◌, ◌<◌, ◌≡◌, Bool, true, false, List, [], ◌∷◌, arith, All, String,
}
use system_c_uvm.MemMam.{
  Region, Cfg, Mam, Outcome, ok, refused, place, region_for, end_of, reserve_in, reserve_region,
}

-- Each region lies under the bound and above the rest of the list.
abbrev pub Below : ℕ → List Region → Type 0
Below n [] = Unit {0}
Below n (x ∷ xs) = (x.end_offset < n) × (x.start_offset ≤ x.end_offset) × Below x.start_offset xs

-- The regions are disjoint, and their offsets fall along the list.
abbrev pub Descending : List Region → Type 0
Descending [] = Unit {0}
Descending (x ∷ xs) = (x.start_offset ≤ x.end_offset) × Below x.start_offset xs

abbrev pub Inside : Cfg → List Region → Type 0
Inside cfg = All (λ x. (cfg.start_offset ≤ x.start_offset) × (x.end_offset ≤ cfg.end_offset))

pub record IsValid (m : Mam) : Type 0 where
  pub positive : 0 < m.cfg.n_bytes
  pub descending : Descending m.in_use
  pub inside : Inside m.cfg m.in_use

abbrev pub succeeded {ℓ} : {A : Type ℓ} → Outcome A → Bool
succeeded (ok a) = true
succeeded (refused e) = false

-- What holds of the result, where the call succeeds.
abbrev pub OnOk {ℓ κ} : {A : Type ℓ} → (A → Type κ) → Outcome A → Type κ
OnOk P (ok a) = P a
OnOk P (refused e) = Unit

place-Below :
    (n : ℕ) (r : Region) (xs : List Region)
    → r.start_offset ≤ r.end_offset
    → r.end_offset < n
    → Below n xs
    → OnOk (Below n) (place r xs)
unfolding place
place-Below n r [] h k b = ground arith
place-Below n r (x ∷ xs) h k b = ground (arith, place-Below x.start_offset r xs h)

pub place-Descending :
    (r : Region) (xs : List Region)
    → r.start_offset ≤ r.end_offset
    → Descending xs
    → OnOk Descending (place r xs)
unfolding place
place-Descending r [] h d = ground arith
place-Descending r (x ∷ xs) h d = ground (arith, place-Below x.start_offset r xs h)

place-Inside :
    (cfg : Cfg) (r : Region) (xs : List Region)
    → cfg.start_offset ≤ r.start_offset
    → r.end_offset ≤ cfg.end_offset
    → Inside cfg xs
    → OnOk (Inside cfg) (place r xs)
unfolding place
place-Inside cfg r [] h k i = ground arith
place-Inside cfg r (x ∷ xs) h k i = ground (arith, place-Inside cfg r xs h k)

-- The address of the last unit does not wrap.
abbrev pub Fits : Cfg → ℕ → ℕ → Type 0
Fits cfg start n_bytes = start + (n_bytes - 1) / cfg.n_bytes < 2 ^ 64

pub end_of-eq :
    (cfg : Cfg) (start n : ℕ)
    → Fits cfg start n
    → end_of cfg start n ≡ start + (n - 1) / cfg.n_bytes
unfolding end_of
end_of-eq cfg start n f = omega arith

pub reserve_in-Descending :
    (ptr : ℕ) (cfg : Cfg) (xs : List Region) (start n : ℕ)
    → Fits cfg start n
    → Descending xs
    → OnOk Descending (reserve_in ptr cfg xs start n)
unfolding reserve_in
reserve_in-Descending ptr cfg xs start n f d =
    ground (arith, end_of-eq cfg start n, place-Descending (region_for ptr cfg start n) xs)

pub reserve_in-Inside :
    (ptr : ℕ) (cfg : Cfg) (xs : List Region) (start n : ℕ)
    → Inside cfg xs
    → OnOk (Inside cfg) (reserve_in ptr cfg xs start n)
unfolding reserve_in
reserve_in-Inside ptr cfg xs start n i =
    ground (arith, place-Inside cfg (region_for ptr cfg start n) xs)

-- A call of reserve_region keeps the manager valid, whether it succeeds or not, when the last
-- address that it asks for does not wrap: the regions in use stay disjoint, in falling order of
-- their offsets, and within the configured range.
pub reserve_region-IsValid :
    (ptr start n_bytes : ℕ) (fname : String) (lineno : ℕ) (m : Mam)
    → IsValid m
    → Fits m.cfg start n_bytes
    → IsValid (reserve_region ptr start n_bytes fname lineno m).0
unfolding reserve_region
reserve_region-IsValid ptr start n_bytes fname lineno m v f = ground (
  arith,
  reserve_in-Descending ptr m.cfg m.in_use start n_bytes f v.descending,
  reserve_in-Inside ptr m.cfg m.in_use start n_bytes v.inside,
)
