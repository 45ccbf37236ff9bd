-- ===== src/Tests/MemMam.antt =====
-- Runs of the memory allocation manager (src/uvmsc/reg/uvm_mem_mam.cpp).
use system_c_uvm.Base.{◌-◌, ◌^◌, ◌<◌, ◌≡◌, refl, true, false, [], ◌∷◌, some, arith}
use system_c_uvm.MemMam.{
  Cfg, Region, Policy, Mam, greedy, broad, ok, refused, overlaps, past_end, reserve_region,
  release_region, reserve_in, place, region_for, end_of,
}
use system_c_uvm.MemMam.Ordered.{IsValid, succeeded, reserve_region-IsValid}
use system_c_uvm.MemMam.Occupied.{occupied, occupied-reserve_region, occupied-release_region}
use system_c_uvm.MemMam.Config.{reserve_region_wraps}

abbrev cfg : Cfg
cfg = record { n_bytes = 4; start_offset = 16; end_offset = 255; mode = greedy; locality = broad }

abbrev shorter : Cfg
shorter = record {
  n_bytes = 4;
  start_offset = 16;
  end_offset = 63;
  mode = greedy;
  locality = broad;
}

abbrev low : Region
low = record { ptr = 100; start_offset = 32; end_offset = 47; len = 16; n_bytes = 64 }

abbrev high : Region
high = record { ptr = 101; start_offset = 64; end_offset = 64; len = 1; n_bytes = 4 }

abbrev policy : Policy
policy = record { len = 0; start_offset = 128; min_offset = 0; max_offset = 0; in_use = [] }

abbrev mam : Mam
mam = record {
  cfg = cfg;
  in_use = high ∷ low ∷ [];
  default_alloc = policy;
  for_each_next = 0;
  fname = "";
  lineno = 0;
}

mam-IsValid : IsValid mam
mam-IsValid = record {
  positive = omega arith;
  descending = (omega arith, (omega arith, omega arith, tt));
  inside = ((omega arith, omega arith), ((omega arith, omega arith), tt));
}

-- A region between the two is placed between them.
between :
    (reserve_region 102 48 40 "a.cpp" 7 mam).0.in_use
    ≡ high
      ∷ record { ptr = 102; start_offset = 48; end_offset = 57; len = 10; n_bytes = 40 }
      ∷ low
      ∷ []
unfolding reserve_region reserve_in place region_for end_of
between = refl

overlapping : (reserve_region 102 40 40 "a.cpp" 7 mam).1 ≡ refused (overlaps low)
unfolding reserve_region reserve_in place region_for end_of
overlapping = refl

too_long : (reserve_region 102 48 4000 "a.cpp" 7 mam).1 ≡ refused past_end
unfolding reserve_region reserve_in place region_for end_of
too_long = refl

reserve_region-IsValid_example : IsValid (reserve_region 102 48 40 "a.cpp" 7 mam).0
reserve_region-IsValid_example =
    reserve_region-IsValid 102 48 40 "a.cpp" 7 mam mam-IsValid (omega arith)

occupied-reserve_region_example :
    occupied 50 (reserve_region 102 48 40 "a.cpp" 7 mam).0.in_use ≡ true
unfolding reserve_region reserve_in place region_for end_of
occupied-reserve_region_example = occupied-reserve_region 50 102 48 40 "a.cpp" 7 mam (omega arith)

occupied-release_region_example :
    ((release_region (some 100) mam).1 ≡ ok tt)
    × (occupied 40 (release_region (some 100) mam).0.in_use ≡ false)
occupied-release_region_example = occupied-release_region 40 100 mam low mam-IsValid refl

abbrev full_range : Mam
full_range = record mam { cfg = record cfg { end_offset = 2 ^ 64 - 1 }; in_use = [] }

reserve_region_wraps_example :
    (succeeded (reserve_region 102 (2 ^ 64 - 1) 8 "a.cpp" 7 full_range).1 ≡ true)
    × (r : Region) × ((reserve_region 102 (2 ^ 64 - 1) 8 "a.cpp" 7 full_range).0.in_use ≡ r ∷ [])
    × (r.start_offset ≡ 2 ^ 64 - 1)
    × (r.end_offset < 2 ^ 64 - 1)
reserve_region_wraps_example =
    reserve_region_wraps 102 (2 ^ 64 - 1) 8 "a.cpp" 7 full_range refl (omega arith) refl
      (omega arith) (omega arith) (omega arith) (omega arith) (omega arith)
