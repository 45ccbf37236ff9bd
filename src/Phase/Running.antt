-- ===== src/Phase/Running.antt =====
-- src/uvmsc/phasing/uvm_phase.cpp: what holds while phases are executed, and that no step breaks it.
use system_c_uvm.Base.{
  ℕ, ◌<◌, ◌≡◌, refl, subst, ◌||◌, ltb, Bool, true, false, ◌==◌, List, [], ◌∷◌, ◌++◌, arith,
}
use system_c_uvm.Phase.{Store, scheduled, done, has_key}
use system_c_uvm.Phase.Search.{preds}
use system_c_uvm.Phase.Execution.{Stage, await, handing, over, Sim, set_state, set_stage, launch}

abbrev pub Distinct : List ℕ → Type 0
Distinct [] = Unit
Distinct (x ∷ xs) = (has_key x xs ≡ false) × Distinct xs

-- Has the phase been done?
abbrev pub is_past : Stage → Bool
is_past (handing qs) = true
is_past over = true
is_past _ = false

-- The predecessors that the task still waits for.
abbrev pub waiting : Stage → List ℕ
waiting (await qs) = qs
waiting _ = []

-- What hands a phase on is scheduled and no task yet; each phase has one task at most; it is done
-- exactly when its task is past it; and a process has found each predecessor done that it does not
-- wait for any more.
pub record IsRun (g : Store) (s : Sim) : Type 0 where
  pub queued : (p : ℕ) → has_key p s.hopper ≡ true → s.state p ≡ scheduled
  pub distinct : Distinct s.hopper
  pub alone : (j k : ℕ) → j < s.count → k < s.count → (s.task j).phase ≡ (s.task k).phase → j ≡ k
  pub taken : (k : ℕ) → k < s.count → has_key (s.task k).phase s.hopper ≡ false
  pub past :
      (k : ℕ) → k < s.count → is_past (s.task k).stage ≡ true → s.state (s.task k).phase ≡ done
  pub going :
      (k : ℕ)
      → k < s.count
      → is_past (s.task k).stage ≡ false
      → (0 < s.state (s.task k).phase) × (s.state (s.task k).phase < done)
  pub waited :
      (k q : ℕ)
      → k < s.count
      → (s.task k).proc ≡ true
      → has_key q (preds g (s.task k).phase) ≡ true
      → has_key q (waiting (s.task k).stage) ≡ false
      → s.state q ≡ done

module _ (g : Store) (s : Sim) (r : IsRun g s) (k : ℕ) (made : k < s.count) (stage : Stage) where
  -- A task goes on, and its phase stays in its state.
  pub set_stage-IsRun :
      is_past stage ≡ is_past (s.task k).stage
      → ((q : ℕ)
          → has_key q (waiting stage) ≡ false
          → has_key q (waiting (s.task k).stage) ≡ true
          → s.state q ≡ done)
      → IsRun g (set_stage k stage s)
  unfolding set_stage
  set_stage-IsRun same found = record {
    queued = r.queued;
    distinct = r.distinct;
    alone = λ i j hi hj e. r.alone i j hi hj (ground arith);
    taken = λ j h. ground (arith, r.taken j h);
    past = λ j h e. ground (arith, r.past j h);
    going = λ j h e. ground (arith, r.going j h);
    waited = λ j q h hp hq hw. ground (arith, r.waited j q h, found q);
  }

  -- A task goes on, and puts its phase into a state.
  pub set_state-IsRun :
      (v : ℕ)
      → is_past (s.task k).stage ≡ false
      → (is_past stage ≡ true → v ≡ done)
      → (is_past stage ≡ false → (0 < v) × (v < done))
      → ((q : ℕ)
          → has_key q (waiting stage) ≡ false
          → has_key q (waiting (s.task k).stage) ≡ true
          → s.state q ≡ done)
      → IsRun g (set_state (s.task k).phase v (set_stage k stage s))
  unfolding set_stage set_state
  set_state-IsRun v before to_past to_going found = record {
    queued = λ p h. ground (arith, r.queued p h, r.taken k made);
    distinct = r.distinct;
    alone = λ i j hi hj e. r.alone i j hi hj (ground arith);
    taken = λ j h. ground (arith, r.taken j h);
    past = λ j h e. ground (arith, r.past j h, r.alone j k h made);
    going = λ j h e. ground (arith, r.going j h, r.alone j k h made);
    waited = λ j q h hp hq hw. ground (arith, r.waited j q h, found q, r.going k made);
  }

-- A phase that is not done is put into a state, and its task stays where it is.
pub hold-IsRun :
    (g : Store) (s : Sim)
    → IsRun g s
    → (k v : ℕ) → k < s.count
    → is_past (s.task k).stage ≡ false
    → 0 < v
    → v < done
    → IsRun g (set_state (s.task k).phase v s)
unfolding set_state
hold-IsRun g s r k v made before low high = record {
  queued = λ p h. ground (arith, r.queued p h, r.taken k made);
  distinct = r.distinct;
  alone = r.alone;
  taken = r.taken;
  past = λ j h e. ground (arith, r.past j h, r.alone j k h made);
  going = λ j h e. ground (arith, r.going j h, r.alone j k h made);
  waited = λ j q h hp hq hw. ground (arith, r.waited j q h, r.going k made);
}

has_key-push : (j k : ℕ) (xs : List ℕ) → has_key j (xs ++ k ∷ []) ≡ (has_key j xs || k == j)
unfolding has_key
has_key-push j k [] = ground arith
has_key-push j k (x ∷ xs) = ground (arith, has_key-push j k xs)

Distinct-push : (k : ℕ) (xs : List ℕ) → has_key k xs ≡ false → Distinct xs → Distinct (xs ++ k ∷ [])
unfolding has_key
Distinct-push k [] h d = (refl, tt)
Distinct-push k (x ∷ xs) h d =
    (ground (arith, has_key-push x k xs), Distinct-push k xs (ground arith) d.1)

-- A phase that nothing has happened to is scheduled.
module _ (g : Store) (s : Sim) (r : IsRun g s) (q : ℕ)
    (idle : ltb (s.state q) scheduled ≡ true) where
  abbrev pub scheduling : Sim
  scheduling = record (set_state q scheduled s) { hopper = s.hopper ++ q ∷ [] }

  pub schedule-IsRun : IsRun g scheduling
  unfolding set_state
  schedule-IsRun = record {
    queued = λ p h. ground (arith, r.queued p, has_key-push p q s.hopper);
    distinct = Distinct-push q s.hopper (ground (arith, r.queued q)) r.distinct;
    alone = r.alone;
    taken = λ j h.
        ground
          (arith, r.taken j h, has_key-push (s.task j).phase q s.hopper, r.past j h, r.going j h);
    past = λ j h e. ground (arith, r.past j h);
    going = λ j h e. ground (arith, r.going j h);
    waited = λ j p h hp hq hw. ground (arith, r.waited j p h);
  }

-- The counters of runs and the end of the simulation do not matter.
module _ (g : Store) (s : Sim) (r : IsRun g s) where
  pub run_count-IsRun : (f : ℕ → ℕ) → IsRun g (record s { run_count = f })
  run_count-IsRun f = record {
    queued = r.queued;
    distinct = r.distinct;
    alone = r.alone;
    taken = r.taken;
    past = r.past;
    going = r.going;
    waited = r.waited;
  }

  pub all_done-IsRun : (b : Bool) → IsRun g (record s { all_done = b })
  all_done-IsRun b = record {
    queued = r.queued;
    distinct = r.distinct;
    alone = r.alone;
    taken = r.taken;
    past = r.past;
    going = r.going;
    waited = r.waited;
  }

-- m_run_phases takes a phase from the hopper.
module _ (g : Store) (is_process : ℕ → Bool) (s : Sim) (r : IsRun g s) where
  pub launch-IsRun : (h : List ℕ) → s.hopper ≡ h → IsRun g (launch g is_process h s)
  unfolding launch has_key
  launch-IsRun [] e = r
  launch-IsRun (p ∷ ps) e =
      let dist : (has_key p ps ≡ false) × Distinct ps = subst Distinct e r.distinct in
      let now : s.state p ≡ scheduled = r.queued p (rw e (ground arith)) in
      let in_hopper = λ (j : ℕ) (h : j < s.count).
        subst (λ l. has_key (s.task j).phase l ≡ false) e (r.taken j h) in
      record {
        queued = λ j h. r.queued j (rw e (ground arith));
        distinct = dist.1;
        alone = λ i j hi hj q. ground (arith, in_hopper i, in_hopper j, r.alone i j);
        taken = λ j h. ground (arith, in_hopper j);
        past = λ j h q. ground (arith, r.past j);
        going = λ j h q. ground (arith, r.going j);
        waited = λ j q h hp hq hw. ground (arith, r.waited j q);
      }
