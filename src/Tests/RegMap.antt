-- ===== src/Tests/RegMap.antt =====
-- Runs of the address map (src/uvmsc/reg/uvm_reg_map.cpp).
use system_c_uvm.Base.{
  ℕ, ◌≡◌, ◌==◌, refl, String, true, false, List, [], ◌∷◌, none, some, if◌then◌else◌, ◌+◌,
}
use system_c_uvm.Base.Assoc.{nat_key, find, insert}
use system_c_uvm.RegMap.{
  RegMap, Info, m_set_reg_offset, get_reg_by_offset, get_mem_by_offset, mem_at,
}
use system_c_uvm.RegMap.Views.{view}
use system_c_uvm.RegMap.Offsets.{m_set_reg_offset-undone, get_reg_by_offset-m_set_reg_offset}

-- Register 1 can only be read, register 2 only be written, and register 3 both.
abbrev access : ℕ → String
access rg = if rg == 1 then "RO" else if rg == 2 then "WO" else "RW"

abbrev addresses : ℕ → List ℕ
addresses offset = offset ∷ (offset + 4) ∷ []

abbrev no_offset : Info
no_offset = record { offset = none; unmapped = true; addr = [] }

abbrev regs : RegMap
regs = record {
  locked = true;
  regs_info = (1, no_offset) ∷ (2, no_offset) ∷ (3, no_offset) ∷ [];
  regs_by_offset = (8, 2) ∷ (16, 3) ∷ [];
  regs_by_offset_wo = [];
  mems_by_offset = ((12, 31), 9) ∷ [];
  calls = [];
  warnings = [];
}

memory : get_mem_by_offset 20 regs ≡ some 9
unfolding get_mem_by_offset mem_at
memory = refl

warned :
    (m_set_reg_offset access addresses 1 8 false regs).warnings
    ≡ "overlaps with address range of memory" ∷ []
unfolding m_set_reg_offset find insert
warned = refl

-- Register 1 is mapped where register 3 stands, and unmapped: register 3 is gone.
m_set_reg_offset-undone_example :
    view 16 (
      m_set_reg_offset access addresses 1 0 true
        (m_set_reg_offset access addresses 1 16 false regs))
    ≡ (none, none)
unfolding find
m_set_reg_offset-undone_example =
    m_set_reg_offset-undone access addresses 1 16 0 16 no_offset regs refl refl refl
      (refl, (refl, tt)) (refl, (refl, tt))

get_reg_by_offset-m_set_reg_offset_example :
    get_reg_by_offset 8 false (m_set_reg_offset access addresses 1 8 false regs) ≡ some 2
unfolding find
get_reg_by_offset-m_set_reg_offset_example =
    get_reg_by_offset-m_set_reg_offset access addresses 1 8 8 false no_offset regs refl refl refl
      (refl, (refl, tt)) refl refl refl
