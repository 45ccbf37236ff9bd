-- ===== src/Phase/Progress.antt =====
-- src/uvmsc/phasing/uvm_phase.cpp: every step of a task keeps a run as it should be.
use system_c_uvm.Base.{
  ℕ, ◌+◌, ◌<◌, ◌≡◌, refl, sym, ◌∙◌, ap, subst, ◌&&◌, ◌||◌, not, ltb, leb, true, false,
  if◌then◌else◌, ◌==◌, List, [], ◌∷◌, Bool-cases, Option-cases, inl, inr, arith,
}
use system_c_uvm.Phase.{
  Store, scheduled, syncing, started, executing, ready_to_end, ended, cleanup, done, has_key,
}
use system_c_uvm.Phase.Search.{is_node, succs}
use system_c_uvm.Phase.Execution.{
  is_empty, Stage, await, meet, ready, begun, objecting, settle, leaving, closing, handing, over,
  Sim, set_state, set_stage, settle_for, get_predecessors_for_successors, advance, object,
  end_objecting,
}
use system_c_uvm.Phase.Running.{
  is_past, waiting, IsRun, set_stage-IsRun, set_state-IsRun, hold-IsRun, schedule-IsRun,
  run_count-IsRun, all_done-IsRun,
}

module _ (g : Store) (fuel : ℕ) (s : Sim) (r : IsRun g s) (k : ℕ) (made : k < s.count) where
  -- A task that waits for no predecessor goes on.
  step-IsRun :
      (old new : Stage)
      → (s.task k).stage ≡ old
      → waiting old ≡ []
      → is_past new ≡ is_past old
      → IsRun g (set_stage k new s)
  unfolding has_key
  step-IsRun old new e free same =
      set_stage-IsRun g s r k made new (same ∙ sym (ap is_past e)) (λ q _ w. absurd (free_of q w))
    where
      free_of : (q : ℕ) → has_key q (waiting (s.task k).stage) ≡ true → ⊥
      free_of q w = cc (subst (λ l. has_key q l ≡ true) (ap waiting e ∙ free) w)

  goto-IsRun :
      (old new : Stage) (v : ℕ)
      → (s.task k).stage ≡ old
      → waiting old ≡ []
      → is_past old ≡ false
      → (is_past new ≡ true → v ≡ done)
      → (is_past new ≡ false → (0 < v) × (v < done))
      → IsRun g (set_state (s.task k).phase v (set_stage k new s))
  unfolding has_key
  goto-IsRun old new v e free before to_past to_going =
      set_state-IsRun g s r k made new v (ap is_past e ∙ before) to_past to_going
        (λ q _ w. absurd (free_of q w))
    where
      free_of : (q : ℕ) → has_key q (waiting (s.task k).stage) ≡ true → ⊥
      free_of q w = cc (subst (λ l. has_key q l ≡ true) (ap waiting e ∙ free) w)

settled :
    (g : Store) (fuel : ℕ) (s : Sim) (r : IsRun g s) (k : ℕ)
    → k < s.count
    → (s.task k).stage ≡ begun
    → (p : ℕ) → IsRun g (settle_for g fuel k p s)
unfolding settle_for
settled g fuel s r k made e p = elim (Option-cases (get_predecessors_for_successors g fuel p)) [
  | inl endless ↦ rw (endless, settle_for) r
  | inr (l, found) ↦
      rw (found, settle_for) (step-IsRun g fuel s r k made begun (settle l) e refl refl)
]

-- Waiting for one predecessor less, where that one is done.
await_less :
    (g : Store) (s : Sim)
    → IsRun g s
    → (k q : ℕ) (qs : List ℕ) → k < s.count
    → (s.task k).stage ≡ await (q ∷ qs)
    → (s.state q == done) ≡ true
    → IsRun g (set_stage k (await qs) s)
unfolding has_key
await_less g s r k q qs made e yet =
    set_stage-IsRun g s r k made (await qs) (sym (ap is_past e))
      (λ j out was. found j out (subst (λ l. has_key j l ≡ true) (ap waiting e) was))
  where
    found : (j : ℕ) → has_key j qs ≡ false → (q == j || has_key j qs) ≡ true → s.state j ≡ done
    found j out was = ground arith

-- The successors are handed on one by one.
hand_on :
    (g : Store) (fuel : ℕ) (s : Sim)
    → IsRun g s
    → (k q : ℕ) (qs : List ℕ) → k < s.count
    → (s.task k).stage ≡ handing (q ∷ qs)
    → IsRun g (advance g fuel k (s.task k).phase (s.task k).proc (handing (q ∷ qs)) s)
unfolding advance set_stage
hand_on g fuel s r k q qs made e =
    let next = step-IsRun g fuel s r k made (handing (q ∷ qs)) (handing qs) e refl refl in
    elim (Bool-cases (ltb (s.state q) scheduled)) [
      | inl idle ↦ rw idle (schedule-IsRun g (set_stage k (handing qs) s) next q idle)
      | inr busy ↦ rw busy next
    ]

-- From the start of a phase to its execution.
carry_on :
    (g : Store) (fuel : ℕ) (s : Sim)
    → IsRun g s
    → (k : ℕ) → k < s.count
    → (s.task k).stage ≡ begun
    → IsRun g (advance g fuel k (s.task k).phase (s.task k).proc begun s)
unfolding advance set_state
carry_on g fuel s r k made e =
    let p = (s.task k).phase in
    let s' = set_state p executing s in
    let held : IsRun g s' =
      hold-IsRun g s r k executing made (ap is_past e) (omega arith) (omega arith) in
    elim (Bool-cases (is_node (g.phase p).phase_type)) [
      | inr virtual ↦ rw virtual (step-IsRun g fuel s' held k made begun closing e refl refl)
      | inl real ↦ elim (Bool-cases (s.task k).proc) [
        | inl waits ↦
            rw (real, waits) (step-IsRun g fuel s' held k made begun objecting e refl refl)
        | inr runs ↦ rw (real, runs) (settled g fuel s' held k made e p)
      ]
    ]

pub advance-IsRun :
    (g : Store) (fuel : ℕ) (s : Sim)
    → IsRun g s
    → (k : ℕ) → k < s.count
    → (stage : Stage) → (s.task k).stage ≡ stage
    → IsRun g (advance g fuel k (s.task k).phase (s.task k).proc stage s)
unfolding advance
advance-IsRun g fuel s r k made (await (q ∷ qs)) e = elim (Bool-cases (s.state q == done)) [
  | inl yet ↦ rw yet (await_less g s r k q qs made e yet)
  | inr wait ↦ rw wait r
]
advance-IsRun g fuel s r k made (await []) e =
    let before : (s.state (s.task k).phase == done) ≡ false =
      ground (arith, r.going k made (ap is_past e)) in
    rw before
      (elim (Bool-cases (not (is_empty (g.phase (s.task k).phase).sync) && (s.task k).proc)) [
        | inl synced ↦ rw synced (
            goto-IsRun g fuel s r k made (await []) (meet (g.phase (s.task k).phase).sync) syncing e
              refl refl (λ h. cc) (λ _. omega arith))
        | inr alone ↦ rw alone (step-IsRun g fuel s r k made (await []) ready e refl refl)
      ])
advance-IsRun g fuel s r k made (meet (q ∷ qs)) e = elim (Bool-cases (leb syncing (s.state q))) [
  | inl yet ↦ rw yet (step-IsRun g fuel s r k made (meet (q ∷ qs)) (meet qs) e refl refl)
  | inr wait ↦ rw wait r
]
advance-IsRun g fuel s r k made (meet []) e =
    step-IsRun g fuel s r k made (meet []) ready e refl refl
advance-IsRun g fuel s r k made ready e =
    run_count-IsRun g (set_state (s.task k).phase started (set_stage k begun s))
      (goto-IsRun g fuel s r k made ready begun started e refl refl (λ h. cc) (λ _. omega arith))
      (λ j. if j == (s.task k).phase then s.run_count j + 1 else s.run_count j)
advance-IsRun g fuel s r k made begun e = carry_on g fuel s r k made e
advance-IsRun g fuel s r k made objecting e = r
advance-IsRun g fuel s r k made (settle (q ∷ qs)) e =
    elim (Bool-cases (leb ready_to_end (s.state q))) [
      | inl yet ↦ rw yet (step-IsRun g fuel s r k made (settle (q ∷ qs)) (settle qs) e refl refl)
      | inr wait ↦ rw wait r
    ]
advance-IsRun g fuel s r k made (settle []) e =
    goto-IsRun g fuel s r k made (settle []) leaving ended e refl refl (λ h. cc) (λ _. omega arith)
advance-IsRun g fuel s r k made leaving e =
    goto-IsRun g fuel s r k made leaving closing cleanup e refl refl (λ h. cc) (λ _. omega arith)
advance-IsRun g fuel s r k made closing e =
    let p = (s.task k).phase in
    all_done-IsRun g (set_state p done (set_stage k (handing (succs g p)) s))
      (goto-IsRun g fuel s r k made closing (handing (succs g p)) done e refl refl (λ _. refl)
        (λ h. cc))
      (s.all_done || is_empty (succs g p))
advance-IsRun g fuel s r k made (handing (q ∷ qs)) e = hand_on g fuel s r k q qs made e
advance-IsRun g fuel s r k made (handing []) e =
    step-IsRun g fuel s r k made (handing []) over e refl refl
advance-IsRun g fuel s r k made over e = r

pub object-IsRun :
    (g : Store) (s : Sim)
    → IsRun g s
    → (k v : ℕ) → k < s.count
    → 0 < v
    → v < done
    → (stage : Stage) → (s.task k).stage ≡ stage
    → IsRun g (object k (s.task k).phase stage v s)
unfolding object
object-IsRun g s r k v made low high objecting e = hold-IsRun g s r k v made (ap is_past e) low high
object-IsRun g s r k v made low high _ e = r

pub end_objecting-IsRun :
    (g : Store) (s : Sim)
    → IsRun g s
    → (k : ℕ) → k < s.count
    → (stage : Stage) → (s.task k).stage ≡ stage
    → IsRun g (end_objecting k stage s)
unfolding end_objecting
end_objecting-IsRun g s r k made objecting e =
    step-IsRun g 0 s r k made objecting (settle []) e refl refl
end_objecting-IsRun g s r k made _ e = r
