-- ===== src/RegMap/Offsets.antt =====
-- src/uvmsc/reg/uvm_reg_map.cpp: what an offset stands for after m_set_reg_offset.
use system_c_uvm.Base.{
  ℕ, ◌≡◌, refl, ◌&&◌, not, Bool, true, false, if◌then◌else◌, ==_iff, String, List, [], ◌∷◌, Option,
  none, some, arith, All, Option-cases, inl, inr,
}
use system_c_uvm.Base.Assoc.{nat_key, string_key, find, find-insert_self}
use system_c_uvm.RegMap.{RegMap, Info, m_set_reg_offset, map_each, is_access, get_reg_by_offset}
use system_c_uvm.RegMap.Views.{
  view, joined, parted, is_among, Distinct, shares, map_each-view, unmap_each-view, map_each-kept,
  parted-joined,
}

none_among :
    (b : ℕ) (l : List ℕ) (m : RegMap)
    → All (λ a. find a m.regs_by_offset_wo ≡ none) l
    → is_among b l ≡ true
    → find b m.regs_by_offset_wo ≡ none
none_among b [] m a h = ground (arith, h)
none_among b (c ∷ l) m (n, a) h = ground (arith, n, h, ==_iff c b, none_among b l m a)

-- Setting an offset of a register that has none, in a locked map.
set_offset :
    (access : ℕ → String) (addresses : ℕ → List ℕ) (rg offset b : ℕ) (info : Info) (m : RegMap)
    → m.locked ≡ true
    → find rg m.regs_info ≡ some info
    → info.unmapped ≡ true
    → Distinct (addresses offset)
    → let m' = m_set_reg_offset access addresses rg offset false m in
      (view b m'
        ≡ (if is_among b (addresses offset) then joined access rg (view b m) else view b m))
      × (find rg m'.regs_info
          ≡ some (record { offset = some offset; unmapped = false; addr = addresses offset }))
      × (m'.locked ≡ true)
unfolding m_set_reg_offset
set_offset access addresses rg offset b info m k e u d =
    let m' = map_each access rg (addresses offset) m in
    ground (
      arith,
      k,
      e,
      u,
      map_each-view access rg b (addresses offset) m d,
      map_each-kept access rg (addresses offset) m,
      find-insert_self rg
          (record { offset = some offset; unmapped = false; addr = addresses offset }) m'.regs_info,
    )

-- Taking the offset away again.
unset_offset :
    (access : ℕ → String) (addresses : ℕ → List ℕ) (rg offset b : ℕ) (info : Info) (m : RegMap)
    → m.locked ≡ true
    → find rg m.regs_info ≡ some info
    → info.unmapped ≡ false
    → Distinct info.addr
    → view b (m_set_reg_offset access addresses rg offset true m)
      ≡ (if is_among b info.addr then parted rg (view b m) else view b m)
unfolding m_set_reg_offset
unset_offset access addresses rg offset b info m k e u d =
    ground (arith, k, e, u, unmap_each-view rg b info.addr m d)

-- In a locked map, setting the offset of a register that has none, and then taking it away, leaves at
-- every offset the registers that stood there, but for the offsets of the register where another
-- one stands with which it cannot share them (one of the two can only be read and the other only be
-- written): there no register stands any more. The offsets that the register gets differ, and at most
-- one register stands at each of them.
pub m_set_reg_offset-undone :
    (access : ℕ → String) (addresses : ℕ → List ℕ) (rg offset other b : ℕ) (info : Info)
    (m : RegMap)
    → m.locked ≡ true
    → find rg m.regs_info ≡ some info
    → info.unmapped ≡ true
    → Distinct (addresses offset)
    → All (λ a. find a m.regs_by_offset_wo ≡ none) (addresses offset)
    → view b (
        m_set_reg_offset access addresses rg other true
          (m_set_reg_offset access addresses rg offset false m))
      ≡ (if is_among b (addresses offset) && not (shares access rg (find b m.regs_by_offset))
          then (none, none)
          else view b m)
m_set_reg_offset-undone access addresses rg offset other b info m k e u d a =
    let m' = m_set_reg_offset access addresses rg offset false m in
    let (v, i, l) = set_offset access addresses rg offset b info m k e u d in
    ground (
      arith,
      v,
      unset_offset access addresses rg other b
          (record { offset = some offset; unmapped = false; addr = addresses offset }) m' l i refl
          d,
      parted-joined access rg (find b m.regs_by_offset),
      none_among b (addresses offset) m a,
    )

-- The register that an access at a shared offset is for.
abbrev pub answers : (ℕ → String) → ℕ → Bool → Option ℕ → ℕ
answers access rg read none = rg
answers access rg read (some rg2) =
    if is_access (access rg) (if read then "RO" else "WO") then rg else rg2

-- In a locked map, after the offset of a register that had none has been set, get_reg_by_offset finds at
-- each of its offsets the register itself where it stands alone; where it shares the offset, it finds
-- the read-only one of the two for a read and the write-only one for a write.
pub get_reg_by_offset-m_set_reg_offset :
    (access : ℕ → String) (addresses : ℕ → List ℕ) (rg offset b : ℕ) (read : Bool) (info : Info)
    (m : RegMap)
    → m.locked ≡ true
    → find rg m.regs_info ≡ some info
    → info.unmapped ≡ true
    → Distinct (addresses offset)
    → is_among b (addresses offset) ≡ true
    → find b m.regs_by_offset_wo ≡ none
    → shares access rg (find b m.regs_by_offset) ≡ true
    → get_reg_by_offset b read (m_set_reg_offset access addresses rg offset false m)
      ≡ some (answers access rg read (find b m.regs_by_offset))
unfolding get_reg_by_offset
get_reg_by_offset-m_set_reg_offset access addresses rg offset b read info m k e u d n w h =
    let (v, i, l) = set_offset access addresses rg offset b info m k e u d in
    elim (Option-cases (find b m.regs_by_offset)) [
      | inl x ↦ ground (arith, v, l, n, w, h, x)
      | inr (rg2, x) ↦ ground (
        arith,
        v,
        l,
        n,
        w,
        h,
        x,
        string_key.same_iff (access rg) "RO",
        string_key.same_iff (access rg) "WO",
        string_key.same_iff "RO" "WO",
      )
    ]
