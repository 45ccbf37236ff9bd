-- ===== src/RegMap/Views.antt =====
-- src/uvmsc/reg/uvm_reg_map.cpp: what stands at an offset after the loops of m_set_reg_offset.
use system_c_uvm.Base.{
  ℕ, ◌≡◌, refl, ap, ◌&&◌, ◌||◌, not, Bool, true, false, if◌then◌else◌, ◌==◌, ==_iff, String, List,
  [], ◌∷◌, ◌++◌, exists, Option, none, some, arith, Option-cases, inl, inr,
}
use system_c_uvm.Base.Assoc.{nat_key, string_key, find, find-insert, find-erase}
use system_c_uvm.RegMap.{
  RegMap, unmap_one, map_one, warn_memories, unmap_each, map_each, at_or_null, is_access,
}

-- The registers at an offset: for reading, and for writing only.
abbrev pub view : ℕ → RegMap → Option ℕ × Option ℕ
view a m = (find a m.regs_by_offset, find a m.regs_by_offset_wo)

-- What mapping a register to an offset does there,
abbrev pub joined : (ℕ → String) → ℕ → Option ℕ × Option ℕ → Option ℕ × Option ℕ
joined access rg (none, w) = (some rg, w)
joined access rg (some rg2, w) =
    if is_access (access rg) "RO" && is_access (access rg2) "WO"
    then (some rg, some rg2)
    else if is_access (access rg) "WO" && is_access (access rg2) "RO"
    then (some rg2, some rg)
    else (some rg2, w)

-- and what unmapping it does.
abbrev pub parted : ℕ → Option ℕ × Option ℕ → Option ℕ × Option ℕ
parted rg (r, none) = (none, none)
parted rg (r, some w) = if at_or_null r == rg then (some w, none) else (some (at_or_null r), none)

map_one-view :
    (access : ℕ → String) (rg a b : ℕ) (m : RegMap)
    → view b (map_one access rg a m) ≡ (if a == b then joined access rg (view b m) else view b m)
unfolding map_one
map_one-view access rg a b m = elim (Option-cases (find a m.regs_by_offset)) [
  | inl n ↦ ground (arith, n, ==_iff a b, find-insert a b rg m.regs_by_offset)
  | inr (rg2, e) ↦ ground (
    arith,
    e,
    ==_iff a b,
    find-insert a b rg m.regs_by_offset,
    find-insert a b rg m.regs_by_offset_wo,
    find-insert a b rg2 m.regs_by_offset_wo,
  )
]

unmap_one-view :
    (rg a b : ℕ) (m : RegMap)
    → view b (unmap_one rg a m) ≡ (if a == b then parted rg (view b m) else view b m)
unfolding unmap_one
unmap_one-view rg a b m = elim (Option-cases (find a m.regs_by_offset_wo)) [
  | inl n ↦ ground (arith, n, ==_iff a b, find-erase a b m.regs_by_offset)
  | inr (w, e) ↦ ground (
    arith,
    e,
    ==_iff a b,
    find-insert a b w m.regs_by_offset,
    find-insert a b (at_or_null (find a m.regs_by_offset)) m.regs_by_offset,
    find-erase a b m.regs_by_offset_wo,
  )
]

warn_memories-view :
    (a b : ℕ) (mems : List ((ℕ × ℕ) × ℕ)) (m : RegMap) → view b (warn_memories a mems m) ≡ view b m
unfolding warn_memories
warn_memories-view a b [] m = refl
warn_memories-view a b (((low, high), mem) ∷ mems) m = ground (
  arith,
  warn_memories-view a b mems m,
  warn_memories-view a b mems
      (record m { warnings = m.warnings ++ "overlaps with address range of memory" ∷ [] }),
)

abbrev pub is_among : ℕ → List ℕ → Bool
is_among b l = exists (λ a. a == b) l

-- No offset stands twice in the list.
abbrev pub Distinct : List ℕ → Type 0
Distinct [] = Unit {0}
Distinct (a ∷ l) = (is_among a l ≡ false) × Distinct l

pub map_each-view :
    (access : ℕ → String) (rg b : ℕ) (l : List ℕ) (m : RegMap)
    → Distinct l
    → view b (map_each access rg l m)
      ≡ (if is_among b l then joined access rg (view b m) else view b m)
unfolding map_each
map_each-view access rg b [] m d = refl
map_each-view access rg b (a ∷ l) m (n, d) =
    let m' = map_one access rg a m in
    ground (
      arith,
      n,
      ==_iff a b,
      λ (e : a ≡ b). ap (λ k. is_among k l) e,
      map_one-view access rg a b m,
      warn_memories-view a b m'.mems_by_offset m',
      map_each-view access rg b l (warn_memories a m'.mems_by_offset m') d,
    )

pub unmap_each-view :
    (rg b : ℕ) (l : List ℕ) (m : RegMap)
    → Distinct l
    → view b (unmap_each rg l m) ≡ (if is_among b l then parted rg (view b m) else view b m)
unfolding unmap_each
unmap_each-view rg b [] m d = refl
unmap_each-view rg b (a ∷ l) m (n, d) = ground (
  arith,
  n,
  ==_iff a b,
  λ (e : a ≡ b). ap (λ k. is_among k l) e,
  unmap_one-view rg a b m,
  unmap_each-view rg b l (unmap_one rg a m) d,
)

map_one-kept :
    (access : ℕ → String) (rg a : ℕ) (m : RegMap)
    → ((map_one access rg a m).regs_info ≡ m.regs_info)
      × ((map_one access rg a m).locked ≡ m.locked)
unfolding map_one
map_one-kept access rg a m = ground arith

warn_memories-kept :
    (a : ℕ) (mems : List ((ℕ × ℕ) × ℕ)) (m : RegMap)
    → ((warn_memories a mems m).regs_info ≡ m.regs_info)
      × ((warn_memories a mems m).locked ≡ m.locked)
unfolding warn_memories
warn_memories-kept a [] m = (refl, refl)
warn_memories-kept a (((low, high), mem) ∷ mems) m = ground (
  arith,
  warn_memories-kept a mems m,
  warn_memories-kept a mems
      (record m { warnings = m.warnings ++ "overlaps with address range of memory" ∷ [] }),
)

pub map_each-kept :
    (access : ℕ → String) (rg : ℕ) (l : List ℕ) (m : RegMap)
    → ((map_each access rg l m).regs_info ≡ m.regs_info)
      × ((map_each access rg l m).locked ≡ m.locked)
unfolding map_each
map_each-kept access rg [] m = (refl, refl)
map_each-kept access rg (a ∷ l) m =
    let m' = map_one access rg a m in
    let w = warn_memories a m'.mems_by_offset m' in
    ground (
      arith,
      map_one-kept access rg a m,
      warn_memories-kept a m'.mems_by_offset m',
      map_each-kept access rg l w,
    )

-- Can the register share an offset with what stands there?
abbrev pub shares : (ℕ → String) → ℕ → Option ℕ → Bool
shares access rg none = true
shares access rg (some rg2) =
    not (rg2 == rg)
    && (is_access (access rg) "RO" && is_access (access rg2) "WO"
        || is_access (access rg) "WO" && is_access (access rg2) "RO")

pub parted-joined :
    (access : ℕ → String) (rg : ℕ) (r : Option ℕ)
    → parted rg (joined access rg (r, none))
      ≡ (if shares access rg r then (r, none) else (none, none))
parted-joined access rg none = ground (arith, ==_iff rg rg)
parted-joined access rg (some rg2) = ground (
  arith,
  ==_iff rg rg,
  ==_iff rg2 rg,
  string_key.same_iff (access rg) "RO",
  string_key.same_iff (access rg) "WO",
  string_key.same_iff (access rg2) "RO",
  string_key.same_iff (access rg2) "WO",
  string_key.same_iff "RO" "WO",
  λ (e : rg2 ≡ rg). ap access e,
)
