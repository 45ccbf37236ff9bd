-- ===== src/RegMap.antt =====
-- src/uvmsc/reg/uvm_reg_map.cpp: which register an offset of an address map stands for. A register is known by its
-- address, NULL is 0. What get_physical_addresses gives for an offset is the argument `addresses`, and
-- m_get_fields_access of a register is `access`; the map is the top map of its registers.
pub mod Views
pub mod Offsets
use system_c_uvm.Base.{
  ℕ, ◌≤◌, ◌&&◌, ◌||◌, not, ltb, Bool, true, false, if◌then◌else◌, ◌==◌, String, List, [], ◌∷◌, ◌++◌,
  Option, none, some,
}
use system_c_uvm.Base.Assoc.{Key, nat_key, string_key, find, insert, erase}

-- Registrations of the callbacks of read-only and write-only registers.
pub data Call : Type 0 where
  add_read_only remove_read_only add_write_only remove_write_only : ℕ → Call

-- uvm_reg_map_info
pub record Info : Type 0 where
  pub offset : Option ℕ
  pub unmapped : Bool
  pub addr : List ℕ

-- uvm_reg_map; a memory stands with the least and the greatest of its offsets.
pub record RegMap : Type 0 where
  pub locked : Bool
  pub regs_info : List (ℕ × Info)
  pub regs_by_offset : List (ℕ × ℕ)
  pub regs_by_offset_wo : List (ℕ × ℕ)
  pub mems_by_offset : List ((ℕ × ℕ) × ℕ)
  pub calls : List Call
  pub warnings : List String

-- `m[k]` of a std::map of pointers.
abbrev pub at_or_null : Option ℕ → ℕ
at_or_null none = 0
at_or_null (some p) = p

-- The loops of m_set_reg_offset, one round each: an offset that the register had,
unfoldable pub unmap_one : ℕ → ℕ → RegMap → RegMap
unmap_one rg a m = elim (find a m.regs_by_offset_wo) [
  | none ↦ record m { regs_by_offset = erase a m.regs_by_offset }
  | some w ↦
      let seen = at_or_null (find a m.regs_by_offset) in
      if seen == rg
      then record m {
        regs_by_offset = insert a w m.regs_by_offset;
        regs_by_offset_wo = erase a m.regs_by_offset_wo;
        calls = m.calls ++ remove_read_only rg ∷ remove_write_only w ∷ [];
      }
      else record m {
        regs_by_offset = insert a seen m.regs_by_offset;
        regs_by_offset_wo = erase a m.regs_by_offset_wo;
        calls = m.calls ++ remove_write_only rg ∷ remove_read_only seen ∷ [];
      }
]

abbrev pub is_access : String → String → Bool
is_access a b = string_key.same a b

-- and an offset that it gets.
unfoldable pub map_one : (ℕ → String) → ℕ → ℕ → RegMap → RegMap
map_one access rg a m = elim (find a m.regs_by_offset) [
  | none ↦ record m { regs_by_offset = insert a rg m.regs_by_offset }
  | some rg2 ↦
      if is_access (access rg) "RO" && is_access (access rg2) "WO"
      then record m {
        regs_by_offset = insert a rg m.regs_by_offset;
        regs_by_offset_wo = insert a rg2 m.regs_by_offset_wo;
        calls = m.calls ++ add_read_only rg ∷ add_write_only rg2 ∷ [];
      }
      else if is_access (access rg) "WO" && is_access (access rg2) "RO"
      then record m {
        regs_by_offset_wo = insert a rg m.regs_by_offset_wo;
        calls = m.calls ++ add_write_only rg ∷ add_read_only rg2 ∷ [];
      }
      else record m { warnings = m.warnings ++ "maps to same address as register" ∷ [] }
]

-- The memories that an offset falls into.
unfoldable pub warn_memories : ℕ → List ((ℕ × ℕ) × ℕ) → RegMap → RegMap
warn_memories a [] m = m
warn_memories a (((low, high), mem) ∷ mems) m = warn_memories a mems (
    if not (ltb a low) && not (ltb high a)
    then record m { warnings = m.warnings ++ "overlaps with address range of memory" ∷ [] }
    else m)

unfoldable pub unmap_each : ℕ → List ℕ → RegMap → RegMap
unfolding unmap_one
unmap_each rg [] m = m
unmap_each rg (a ∷ as') m = unmap_each rg as' (unmap_one rg a m)

unfoldable pub map_each : (ℕ → String) → ℕ → List ℕ → RegMap → RegMap
unfolding map_one warn_memories
map_each access rg [] m = m
map_each access rg (a ∷ as') m =
    let m' = map_one access rg a m in map_each access rg as' (warn_memories a m'.mems_by_offset m')

abbrev release : ℕ → Info → RegMap → RegMap
release rg info m = if info.unmapped then m else unmap_each rg info.addr m

-- m_set_reg_offset; `unmapped` asks for no offset. The register must be in the map.
unfoldable pub m_set_reg_offset : (ℕ → String) → (ℕ → List ℕ) → ℕ → ℕ → Bool → RegMap → RegMap
unfolding unmap_each map_each
m_set_reg_offset access addresses rg offset unmapped m = elim (find rg m.regs_info) [
  | none ↦ record m { warnings = m.warnings ++ "Cannot modify offset" ∷ [] }
  | some info ↦
      let m₁ = if m.locked then release rg info m else m in
      let m₂ = if m.locked && not unmapped then map_each access rg (addresses offset) m₁ else m₁ in
      let addr = if m.locked && not unmapped then addresses offset else info.addr in
      record m₂ {
        regs_info =
            insert rg
              (record {
                offset = if unmapped then none else some offset;
                unmapped = unmapped;
                addr = addr;
              })
              m₂.regs_info;
      }
]

-- get_reg_by_offset; an error is reported where the block is not locked.
unfoldable pub get_reg_by_offset : ℕ → Bool → RegMap → Option ℕ
get_reg_by_offset offset read m =
    if not m.locked then none else elim (if read then none else find offset m.regs_by_offset_wo) [
      | some w ↦ some w
      | none ↦ find offset m.regs_by_offset
    ]

-- The first memory whose range has the offset.
unfoldable pub mem_at : ℕ → List ((ℕ × ℕ) × ℕ) → Option ℕ
mem_at offset [] = none
mem_at offset (((low, high), mem) ∷ mems) =
    if not (ltb offset low) && not (ltb high offset) then some mem else mem_at offset mems

unfoldable pub get_mem_by_offset : ℕ → RegMap → Option ℕ
unfolding mem_at
get_mem_by_offset offset m = if not m.locked then none else mem_at offset m.mems_by_offset
