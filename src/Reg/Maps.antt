-- ===== src/Reg/Maps.antt =====
-- src/uvmsc/reg/uvm_reg.cpp: the maps that a register is in. A map is known by its address; `maps` has
-- the register's maps in the order of m_maps.
use system_c_uvm.Base.{
  ℕ, ◌&&◌, ◌||◌, not, Bool, true, false, if◌then◌else◌, ◌==◌, String, List, [], ◌∷◌, exists, Option,
  none, some, ◌≡◌, refl, arith,
}

-- uvm_reg_map as a register sees it: the maps that it is in, from its parent up, the default map of
-- its block, and what get_reg_map_info answers for the register.
pub record MapNode : Type 0 where
  pub ptr : ℕ
  pub above : List ℕ
  pub default_map : Option ℕ
  pub rights : String
  pub offset : ℕ
  pub unmapped : Bool

abbrev pub has_ptr : ℕ → MapNode → Bool
has_ptr p m = m.ptr == p

abbrev pub is_below : ℕ → MapNode → Bool
is_below p m = exists (λ q. q == p) m.above

unfoldable pub is_in_map : ℕ → List MapNode → Bool
is_in_map p maps = exists (has_ptr p) maps || exists (is_below p) maps

-- The loops of get_local_map.
unfoldable pub first_below : (MapNode → Bool) → List MapNode → Option MapNode
first_below p [] = none
first_below p (m ∷ maps) = if p m then some m else first_below p maps

-- get_local_map, for a map that is not NULL.
unfoldable pub local_map : ℕ → List MapNode → Option MapNode
unfolding first_below
local_map p maps =
    if exists (has_ptr p) maps then first_below (has_ptr p) maps else first_below (is_below p) maps

-- get_default_map: the loop over the default maps of the blocks.
unfoldable pub default_of : List MapNode → List MapNode → Option MapNode
unfolding local_map
default_of all [] = none
default_of all (m ∷ maps) =
    let rest = default_of all maps in
    elim m.default_map [
      | none ↦ rest
      | some d ↦ elim (local_map d all) [ none ↦ rest | some l ↦ some l ]
    ]

abbrev or_first : Option MapNode → MapNode → MapNode
or_first none m = m
or_first (some d) m = d

unfoldable pub get_default_map : List MapNode → Option MapNode
unfolding default_of
get_default_map [] = none
get_default_map (m ∷ []) = some m
get_default_map (m ∷ n ∷ maps) = some (or_first (default_of (m ∷ n ∷ maps) (m ∷ n ∷ maps)) m)

unfoldable pub get_local_map : Option ℕ → List MapNode → Option MapNode
unfolding local_map get_default_map
get_local_map none maps = get_default_map maps
get_local_map (some p) maps = local_map p maps

unfoldable pub get_rights : Option ℕ → List MapNode → String
unfolding get_local_map
get_rights p maps = elim (get_local_map p maps) [ none ↦ "RW" | some m ↦ m.rights ]

-- get_offset; none is -1.
unfoldable pub get_offset : Option ℕ → List MapNode → Option ℕ
unfolding get_local_map
get_offset p maps = elim (get_local_map p maps) [
  | none ↦ none
  | some m ↦ if m.unmapped then none else some m.offset
]

-- What m_check_access finds: the path that is taken, with the map of a front door.
pub data Checked : Type 0 where
  back_door : Checked
  front_door : MapNode → Checked
  refused : Checked

-- m_check_access, after the default path has been filled in. `backdoor` is the path that is asked for, `has_backdoor`
-- that a back door or an HDL path is there, `frontdoors` the maps where the register has a front door of its own.
unfoldable pub m_check_access : Bool → Bool → (MapNode → Bool) → Option ℕ → List MapNode → Checked
unfolding get_local_map
m_check_access backdoor has_backdoor frontdoors p maps =
    if backdoor && has_backdoor then back_door else elim (get_local_map p maps) [
      | none ↦ refused
      | some m ↦ if not (frontdoors m) && m.unmapped then refused else front_door m
    ]

is_some : Option MapNode → Bool
is_some none = false
is_some (some m) = true

first_below-exists :
    (p : MapNode → Bool) (maps : List MapNode) → is_some (first_below p maps) ≡ exists p maps
unfolding first_below is_some
first_below-exists p [] = refl
first_below-exists p (m ∷ maps) = ground (arith, first_below-exists p maps)

local_map-is_in_map : (p : ℕ) (maps : List MapNode) → is_some (local_map p maps) ≡ is_in_map p maps
unfolding local_map is_in_map
local_map-is_in_map p maps =
    ground (arith, first_below-exists (has_ptr p) maps, first_below-exists (is_below p) maps)
