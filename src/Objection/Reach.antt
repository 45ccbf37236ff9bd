-- ===== src/Objection/Reach.antt =====
-- src/uvmsc/phasing/uvm_objection.cpp: the states that an objection can reach.
use system_c_uvm.Base.{ℕ, ◌<◌, ◌≡◌, List, some}
use system_c_uvm.Base.Assoc.{nat_key}
use system_c_uvm.Objection.{
  Objection, ok, raise_objection, drop_objection, execute_scheduled_fork, start_drain, finish_drain,
  clear,
}

-- One call on an objection, or one step of its drain. Raises and drops of nothing are left out.
pub data Step : Objection → Objection → Type 0 where
  raising :
      (path : List ℕ) (count : ℕ) (s : Objection) {t : Objection}
      → 0 < count
      → raise_objection path count s ≡ ok t
      → Step s t
  dropping :
      (path : List ℕ) (count : ℕ) (s : Objection) {t : Objection}
      → 0 < count
      → drop_objection path count s ≡ ok t
      → Step s t
  clearing : (s : Objection) {t : Objection} → clear s ≡ some t → Step s t
  forking : (s : Objection) → Step s (execute_scheduled_fork s)
  starting : (s : Objection) → Step s (start_drain s)
  finishing : (obj : ℕ) (s : Objection) {t : Objection} → finish_drain obj s ≡ ok t → Step s t

pub data Reach (s : Objection) : Objection → Type 0 where
  here : Reach s s
  next : {t u : Objection} → Reach s t → Step t u → Reach s u
