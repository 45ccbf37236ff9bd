-- ===== src/MemMam/Occupied.antt =====
-- The set of offsets in use: the abstract view of m_in_use in src/uvmsc/reg/uvm_mem_mam.cpp.
use system_c_uvm.Base.{
  ℕ, suc, ◌+◌, ◌-◌, ◌/◌, ◌≤◌, ◌<◌, ◌≡◌, refl, ◌&&◌, ◌||◌, Bool, false, not, leb, ◌==◌,
  if◌then◌else◌, List, [], ◌∷◌, Option, none, some, arith, exists, String,
}
use system_c_uvm.MemMam.{
  Region, Mam, ok, meets, place, region_for, reserve_region, remove, release_region,
}
use system_c_uvm.MemMam.Ordered.{Below, Descending, Fits, end_of-eq, OnOk, IsValid, succeeded}

abbrev pub holds : ℕ → Region → Bool
holds a x = leb x.start_offset a && leb a x.end_offset

-- Is the offset within a region in use?
abbrev pub occupied : ℕ → List Region → Bool
occupied a = exists (holds a)

pub place-occupied :
    (a : ℕ) (r : Region) (xs : List Region)
    → OnOk (λ ys. occupied a ys ≡ (holds a r || occupied a xs)) (place r xs)
unfolding place
place-occupied a r [] = ground arith
place-occupied a r (x ∷ xs) = ground (arith, place-occupied a r xs)

Below-meets :
    (first last n : ℕ) (xs : List Region)
    → n ≤ first
    → Below n xs
    → exists (meets first last) xs ≡ false
Below-meets first last n [] h b = refl
Below-meets first last n (x ∷ xs) h b = ground (arith, Below-meets first last x.start_offset xs)

pub place-succeeded :
    (r : Region) (xs : List Region)
    → Descending xs
    → succeeded (place r xs) ≡ not (exists (meets r.start_offset r.end_offset) xs)
unfolding place
place-succeeded r [] d = refl
place-succeeded r (x ∷ []) d = ground arith
place-succeeded r (x ∷ y ∷ xs) d = ground (
  arith,
  place-succeeded r (y ∷ xs),
  Below-meets r.start_offset r.end_offset x.start_offset (y ∷ xs),
)

-- A call of reserve_region whose last address does not wrap adds the requested offsets to those in
-- use, and no others, if it succeeds; if it is refused, the regions in use stay as they were.
pub occupied-reserve_region :
    (a ptr start n_bytes : ℕ) (fname : String) (lineno : ℕ) (m : Mam)
    → Fits m.cfg start n_bytes
    → let last = start + (n_bytes - 1) / m.cfg.n_bytes in
      let r = reserve_region ptr start n_bytes fname lineno m in
      occupied a r.0.in_use ≡ (
        if succeeded r.1
        then (leb start a && leb a last) || occupied a m.in_use
        else occupied a m.in_use)
unfolding reserve_region region_for
occupied-reserve_region a ptr start n_bytes fname lineno m f = ground (
  arith,
  end_of-eq m.cfg start n_bytes f,
  place-occupied a (region_for ptr m.cfg start n_bytes) m.in_use,
)

Below-occupied : (a n : ℕ) (xs : List Region) → n ≤ a → Below n xs → occupied a xs ≡ false
Below-occupied a n [] h b = refl
Below-occupied a n (x ∷ xs) h b = ground (arith, Below-occupied a x.start_offset xs)

abbrev pub region_at : ℕ → List Region → Option Region
region_at ptr [] = none
region_at ptr (x ∷ xs) = if x.ptr == ptr then some x else region_at ptr xs

above_Below :
    (ptr n : ℕ) (xs : List Region) (r : Region)
    → Below n xs
    → region_at ptr xs ≡ some r
    → r.end_offset < n
above_Below ptr n [] r b e = ground arith
above_Below ptr n (x ∷ xs) r b e = ground (arith, above_Below ptr x.start_offset xs r b.2)

-- What holds of the list that is left, where the region is found.
abbrev pub Removed : (List Region → Type 0) → Option (List Region) → Type 0
Removed P (some ys) = P ys
Removed P none = ⊥

occupied-remove :
    (a ptr n : ℕ) (xs : List Region) (r : Region)
    → Below n xs
    → region_at ptr xs ≡ some r
    → Removed (λ ys. occupied a ys ≡ (occupied a xs && not (holds a r))) (remove ptr xs)
unfolding remove
occupied-remove a ptr n [] r b e = cc
occupied-remove a ptr n (x ∷ xs) r b e = ground (
  arith,
  Below-occupied a x.start_offset xs,
  above_Below ptr x.start_offset xs r b.2,
  occupied-remove a ptr x.start_offset xs r b.2,
)

Descending-occupied-remove :
    (a ptr : ℕ) (xs : List Region) (r : Region)
    → Descending xs
    → region_at ptr xs ≡ some r
    → Removed (λ ys. occupied a ys ≡ (occupied a xs && not (holds a r))) (remove ptr xs)
Descending-occupied-remove a ptr [] r d e = cc
Descending-occupied-remove a ptr (x ∷ xs) r d e =
    occupied-remove a ptr (suc x.end_offset) (x ∷ xs) r (omega arith, d.0, d.1) e

-- On a valid manager, release_region of the address of a region in use succeeds and frees the
-- offsets of that region, and no others.
pub occupied-release_region :
    (a ptr : ℕ) (m : Mam) (r : Region)
    → IsValid m
    → region_at ptr m.in_use ≡ some r
    → let q = release_region (some ptr) m in
      (q.1 ≡ ok tt) × (occupied a q.0.in_use ≡ (occupied a m.in_use && not (holds a r)))
unfolding release_region
occupied-release_region a ptr m r v e =
    ground (arith, Descending-occupied-remove a ptr m.in_use r v.descending e)
