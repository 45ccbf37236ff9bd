-- ===== src/Phase/Execution.antt =====
-- src/uvmsc/phasing/uvm_phase.cpp: how the phases of a graph are executed, without jumps. m_run_phases takes phases
-- from the hopper and starts execute_phase for each; such a call is a task, which may have to wait.
-- The tasks go on in any order, one step at a time.
use system_c_uvm.Base.{
  ℕ, zero, suc, ◌+◌, ◌&&◌, ◌||◌, not, ltb, leb, Bool, true, false, if◌then◌else◌, ◌==◌, List, [],
  ◌∷◌, ◌++◌, Option, none, some,
}
use system_c_uvm.Phase.{
  Store, scheduled, syncing, started, executing, ready_to_end, ended, cleanup, done, put_key,
  remove_key,
}
use system_c_uvm.Phase.Search.{is_node, preds, succs}

-- Where a call of execute_phase stands: it waits for predecessors, or for synchronised phases; it
-- starts; it has started; it waits until no one objects; it waits for the predecessors of its
-- successors; it leaves; it closes; it schedules its successors; it has returned.
pub data Stage : Type 0 where
  await : List ℕ → Stage
  meet : List ℕ → Stage
  ready : Stage
  begun : Stage
  objecting : Stage
  settle : List ℕ → Stage
  leaving : Stage
  closing : Stage
  handing : List ℕ → Stage
  over : Stage

pub record Task : Type 0 where
  pub phase : ℕ
  pub proc : Bool
  pub stage : Stage

-- The state and run count of each phase, the hopper, and the tasks by number.
pub record Sim : Type 0 where
  pub state : ℕ → ℕ
  pub run_count : ℕ → ℕ
  pub hopper : List ℕ
  pub task : ℕ → Task
  pub count : ℕ
  pub all_done : Bool

unfoldable pub set_state : ℕ → ℕ → Sim → Sim
set_state p v s = record s { state = λ j. if j == p then v else s.state j }

unfoldable pub set_stage : ℕ → Stage → Sim → Sim
set_stage k stage s = record s {
  task = λ j. if j == k then record (s.task j) { stage = stage } else s.task j;
}

-- The loops of get_predecessors_for_successors that replace what is no real node by what follows.
unfoldable pub first_virtual : Store → List ℕ → Option ℕ
first_virtual g [] = none
first_virtual g (x ∷ xs) = if is_node (g.phase x).phase_type then first_virtual g xs else some x

unfoldable pub put_each : List ℕ → List ℕ → List ℕ
unfolding put_key
put_each [] all = all
put_each (x ∷ xs) all = put_each xs (put_key x all)

unfoldable pub real_nodes : Store → (ℕ → List ℕ) → ℕ → List ℕ → Option (List ℕ)
unfolding first_virtual put_each remove_key
real_nodes g along zero all = none
real_nodes g along (suc fuel) all = elim (first_virtual g all) [
  | none ↦ some all
  | some x ↦ real_nodes g along fuel (remove_key x (put_each (along x) all))
]

unfoldable pub all_preds : Store → List ℕ → List ℕ → List ℕ
unfolding put_each
all_preds g [] all = all
all_preds g (x ∷ xs) all = all_preds g xs (put_each (preds g x) all)

unfoldable pub get_predecessors_for_successors : Store → ℕ → ℕ → Option (List ℕ)
unfolding real_nodes all_preds remove_key
get_predecessors_for_successors g fuel p = elim (real_nodes g (succs g) fuel (succs g p)) [
  | none ↦ none
  | some after ↦ elim (real_nodes g (preds g) fuel (all_preds g after [])) [
    | none ↦ none
    | some before ↦ some (remove_key p before)
  ]
]

abbrev pub is_empty : List ℕ → Bool
is_empty [] = true
is_empty (x ∷ xs) = false

-- What m_wait_for_pred waits for, in function phases; the search may be endless.
unfoldable pub settle_for : Store → ℕ → ℕ → ℕ → Sim → Sim
unfolding set_stage get_predecessors_for_successors
settle_for g fuel k p s = elim (get_predecessors_for_successors g fuel p) [
  | none ↦ s
  | some before ↦ set_stage k (settle before) s
]

-- A task goes on from its stage, or stays if its wait is not over.
unfoldable pub advance : Store → ℕ → ℕ → ℕ → Bool → Stage → Sim → Sim
unfolding set_state set_stage settle_for
advance g fuel k p proc (await (q ∷ qs)) s =
    if s.state q == done then set_stage k (await qs) s else s
advance g fuel k p proc (await []) s =
    let sync = (g.phase p).sync in
    if s.state p == done
    then set_stage k over s
    else if not (is_empty sync) && proc
    then set_state p syncing (set_stage k (meet sync) s)
    else set_stage k ready s
advance g fuel k p proc (meet (q ∷ qs)) s =
    if leb syncing (s.state q) then set_stage k (meet qs) s else s
advance g fuel k p proc (meet []) s = set_stage k ready s
advance g fuel k p proc ready s =
    let s' = set_state p started (set_stage k begun s) in
    record s' { run_count = λ j. if j == p then s.run_count j + 1 else s.run_count j }
advance g fuel k p proc begun s =
    let s' = set_state p executing s in
    if not (is_node (g.phase p).phase_type)
    then set_stage k closing s'
    else if proc
    then set_stage k objecting s'
    else settle_for g fuel k p s'
advance g fuel k p proc objecting s = s
advance g fuel k p proc (settle (q ∷ qs)) s =
    if leb ready_to_end (s.state q) then set_stage k (settle qs) s else s
advance g fuel k p proc (settle []) s = set_state p ended (set_stage k leaving s)
advance g fuel k p proc leaving s = set_state p cleanup (set_stage k closing s)
advance g fuel k p proc closing s =
    let s' = set_state p done (set_stage k (handing (succs g p)) s) in
    record s' { all_done = s.all_done || is_empty (succs g p) }
advance g fuel k p proc (handing (q ∷ qs)) s =
    let s' = set_stage k (handing qs) s in
    if ltb (s.state q) scheduled
    then record (set_state q scheduled s') { hopper = s.hopper ++ q ∷ [] }
    else s'
advance g fuel k p proc (handing []) s = set_stage k over s
advance g fuel k p proc over s = s

-- While a process phase is executed, its objections are dropped, raised again, or it ends.
unfoldable pub object : ℕ → ℕ → Stage → ℕ → Sim → Sim
unfolding set_state
object k p objecting v s = set_state p v s
object k p _ v s = s

unfoldable pub end_objecting : ℕ → Stage → Sim → Sim
unfolding set_stage
end_objecting k objecting s = set_stage k (settle []) s
end_objecting k _ s = s

-- m_run_phases takes the next phase; `is_process` says whether its implementation is a
-- uvm_process_phase. Only a process waits for its predecessors.
unfoldable pub launch : Store → (ℕ → Bool) → List ℕ → Sim → Sim
launch g is_process [] s = s
launch g is_process (p ∷ ps) s =
    let proc = is_process p || not (is_node (g.phase p).phase_type) in
    record s {
      hopper = ps;
      task = λ j.
          if j == s.count
          then record { phase = p; proc = proc; stage = await (if proc then preds g p else []) }
          else s.task j;
      count = s.count + 1;
    }

pub data Happening : Type 0 where
  take : Happening
  resume no_objection objection end : ℕ → Happening

-- An event that is for no task changes nothing.
unfoldable pub happen : Store → (ℕ → Bool) → ℕ → Happening → Sim → Sim
unfolding launch advance object end_objecting
happen g is_process fuel take s = launch g is_process s.hopper s
happen g is_process fuel (resume k) s =
    let t = s.task k in if ltb k s.count then advance g fuel k t.phase t.proc t.stage s else s
happen g is_process fuel (no_objection k) s =
    let t = s.task k in if ltb k s.count then object k t.phase t.stage ready_to_end s else s
happen g is_process fuel (objection k) s =
    let t = s.task k in if ltb k s.count then object k t.phase t.stage executing s else s
happen g is_process fuel (end k) s =
    let t = s.task k in if ltb k s.count then end_objecting k t.stage s else s

unfoldable pub happen_all : Store → (ℕ → Bool) → ℕ → List Happening → Sim → Sim
unfolding happen
happen_all g is_process fuel [] s = s
happen_all g is_process fuel (e ∷ es) s =
    happen_all g is_process fuel es (happen g is_process fuel e s)

-- m_run_phases begins with one phase in the hopper.
unfoldable pub begin_run : Store → ℕ → Sim
begin_run g first = record {
  state = λ j. (g.phase j).state;
  run_count = λ j. (g.phase j).run_count;
  hopper = first ∷ [];
  task = λ _. record { phase = 0; proc = false; stage = over };
  count = 0;
  all_done = false;
}
