-- ===== src/Phase/Runs.antt =====
-- src/uvmsc/phasing/uvm_phase.cpp: runs without jumps, and what follows for the order and the number of executions.
use system_c_uvm.Base.{
  ℕ, ◌<◌, ◌≡◌, refl, ltb, Bool, true, List, [], ◌∷◌, Bool-cases, inl, inr, arith,
}
use system_c_uvm.Phase.{Store, scheduled, executing, ready_to_end, done, has_key}
use system_c_uvm.Phase.Search.{preds}
use system_c_uvm.Phase.Execution.{
  Sim, happen, happen_all, Happening, take, resume, no_objection, objection, end, begin_run,
}
use system_c_uvm.Phase.Running.{is_past, waiting, IsRun, launch-IsRun}
use system_c_uvm.Phase.Progress.{advance-IsRun, object-IsRun, end_objecting-IsRun}

module _ (g : Store) (is_process : ℕ → Bool) (fuel : ℕ) where
  happen-IsRun : (e : Happening) (s : Sim) → IsRun g s → IsRun g (happen g is_process fuel e s)
  unfolding happen
  happen-IsRun take s r = launch-IsRun g is_process s r s.hopper refl
  happen-IsRun (resume k) s r = elim (Bool-cases (ltb k s.count)) [
    | inl made ↦ rw made (advance-IsRun g fuel s r k (ground arith) (s.task k).stage refl)
    | inr other ↦ rw other r
  ]
  happen-IsRun (no_objection k) s r = elim (Bool-cases (ltb k s.count)) [
    | inl made ↦ rw made (
        object-IsRun g s r k ready_to_end (ground arith) (omega arith) (omega arith)
          (s.task k).stage refl)
    | inr other ↦ rw other r
  ]
  happen-IsRun (objection k) s r = elim (Bool-cases (ltb k s.count)) [
    | inl made ↦ rw made (
        object-IsRun g s r k executing (ground arith) (omega arith) (omega arith) (s.task k).stage
          refl)
    | inr other ↦ rw other r
  ]
  happen-IsRun (end k) s r = elim (Bool-cases (ltb k s.count)) [
    | inl made ↦ rw made (end_objecting-IsRun g s r k (ground arith) (s.task k).stage refl)
    | inr other ↦ rw other r
  ]

  happen_all-IsRun :
      (es : List Happening) (s : Sim) → IsRun g s → IsRun g (happen_all g is_process fuel es s)
  unfolding happen_all
  happen_all-IsRun [] s r = r
  happen_all-IsRun (e ∷ es) s r =
      happen_all-IsRun es (happen g is_process fuel e s) (happen-IsRun e s r)

module _ (g : Store) (is_process : ℕ → Bool) (fuel first : ℕ)
    (first_scheduled : (g.phase first).state ≡ scheduled) (es : List Happening) where
  begin_run-IsRun : IsRun g (begin_run g first)
  unfolding begin_run has_key
  begin_run-IsRun = record {
    queued = λ p h. ground arith;
    distinct = (refl, tt);
    alone = λ j k hj hk e. absurd (omega arith);
    taken = λ k h. absurd (omega arith);
    past = λ k h e. absurd (omega arith);
    going = λ k h e. absurd (omega arith);
    waited = λ k q h hp hq hw. absurd (omega arith);
  }

  abbrev reached : Sim
  reached = happen_all g is_process fuel es (begin_run g first)

  reached-IsRun : IsRun g reached
  reached-IsRun = happen_all-IsRun g is_process fuel es (begin_run g first) begin_run-IsRun

  -- Whatever happens, and in whatever order, in a run without jumps that begins with one scheduled phase:
  -- when a phase that runs as a process has been through its wait, every predecessor is done.
  pub predecessors_done :
      (k q : ℕ)
      → k < reached.count
      → (reached.task k).proc ≡ true
      → waiting (reached.task k).stage ≡ []
      → has_key q (preds g (reached.task k).phase) ≡ true
      → reached.state q ≡ done
  unfolding has_key
  predecessors_done k q made proc free before =
      reached-IsRun.waited k q made proc before (rw free refl)

  -- In such a run execute_phase is called at most once for each phase, and a phase for which the call has
  -- come to its successors is done.
  pub executed_once :
      ((j k : ℕ)
        → j < reached.count
        → k < reached.count
        → (reached.task j).phase ≡ (reached.task k).phase
        → j ≡ k)
      × ((k : ℕ)
          → k < reached.count
          → is_past (reached.task k).stage ≡ true
          → reached.state (reached.task k).phase ≡ done)
  executed_once = (reached-IsRun.alone, reached-IsRun.past)
