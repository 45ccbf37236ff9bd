-- ===== src/Tests/Phase.antt =====
-- Phases: runs at small graphs, and each property applied at one.
use system_c_uvm.Base.{
  ℕ, ◌-◌, ◌<◌, ◌&&◌, ◌==◌, if◌then◌else◌, ◌≡◌, ◌≢◌, refl, true, false, List, [], ◌∷◌, some, inl,
  ◌↔◌, arith,
}
use system_c_uvm.Phase.{
  imp, node, schedule, global, Store, plain_phase, allocate, new_phase, has_key, modify, put_succ,
  put_pred, scheduled, done,
}
use system_c_uvm.Phase.Search.{succs, is_before}
use system_c_uvm.Phase.Schedule.{Added, ok, add}
use system_c_uvm.Phase.Links.{follows, is_pred}
use system_c_uvm.Phase.Linked.{IsLinked, add-IsLinked}
use system_c_uvm.Phase.Chains.{Chain}
use system_c_uvm.Phase.Order.{add-order}
use system_c_uvm.Phase.Between.{add-between_stale}
use system_c_uvm.Phase.Execution.{Sim, Happening, take, resume, end, happen_all, begin_run}
use system_c_uvm.Phase.Running.{is_past}
use system_c_uvm.Phase.Runs.{predecessors_done, executed_once}
use system_c_uvm.Phase.Found.{IsAnswered, is_before_lem}
use system_c_uvm.Phase.Jump.{leave_by_jump}
use system_c_uvm.Phase.Jumped.{IsJumped, leave_by_jump-forward}

-- Two implementations, at 1 and 2, and a schedule at 3 with its end at 4.
abbrev empty : Store
empty = record { phase = λ _. plain_phase "" global 0; next = 1 }

abbrev base : Store
base =
    new_phase "s" "s_end" schedule 0
      (allocate (plain_phase "b" imp 0) (allocate (plain_phase "a" imp 0) empty))

abbrev stored : Added → Store
stored (ok h) = h
stored _ = empty

abbrev one : Store
one = stored (add 3 1 0 0 0 base)

abbrev two : Store
two = stored (add 3 2 0 0 0 one)

chain : succs two 3 ≡ 5 ∷ []
unfolding new_phase allocate plain_phase modify add
chain = refl

chain_on : succs two 5 ≡ 6 ∷ []
unfolding new_phase allocate plain_phase modify add
chain_on = refl

in_order : is_before two 7 2 5 ≡ some true
unfolding new_phase allocate plain_phase modify add is_before
in_order = refl

base-IsLinked : IsLinked base
unfolding new_phase allocate plain_phase modify put_succ put_pred has_key
base-IsLinked = record {
  agree = λ a b. ground arith;
  loopless = λ a. ground arith;
  made = λ a b h. ground arith;
}

one-IsLinked : IsLinked one
unfolding new_phase allocate plain_phase modify add
one-IsLinked =
    add-IsLinked 3 1 0 0 0 base base-IsLinked (omega arith) refl one (omega arith) (omega arith)
      (omega arith) (omega arith) (inl refl) refl

add-IsLinked_example : IsLinked two
unfolding new_phase allocate plain_phase modify add
add-IsLinked_example =
    add-IsLinked 3 2 0 0 0 one one-IsLinked (omega arith) refl two (omega arith) (omega arith)
      (omega arith) (omega arith) (inl refl) refl

-- The second implementation is put after the node of the first.
abbrev after_one : Store
after_one = stored (add 3 2 0 5 0 one)

add-order_example : Chain (follows one) 3 4 ↔ Chain (follows after_one) 3 4
unfolding new_phase allocate plain_phase modify add
add-order_example =
    add-order 3 2 0 5 0 one after_one one-IsLinked (omega arith) refl (omega arith) (omega arith)
      (omega arith) (omega arith) (λ _ nz. absurd (nz refl)) refl (omega arith) (omega arith)

-- Between the first node and the end of the schedule.
abbrev between_one : Store
between_one = stored (add 3 2 0 5 4 one)

add-between_stale_example :
    (follows between_one 5 4 ≡ false)
    × (is_pred between_one 5 4 ≡ true)
    × ((a b : ℕ) → (a == 5 && b == 4) ≡ false → follows between_one a b ≡ is_pred between_one a b)
unfolding new_phase allocate plain_phase modify add has_key
add-between_stale_example =
    add-between_stale 3 2 5 4 one between_one one-IsLinked (omega arith) refl (omega arith)
      (omega arith) (omega arith) (omega arith) refl refl refl

-- Three process phases in series, the first of which is scheduled.
abbrev line : Store
line = record {
  phase = λ j.
      if j == 1
      then record (plain_phase "p1" node 0) {
        successors = 2 ∷ [];
        state = scheduled;
        jump_fwd = true;
        jump_phase = 3;
      }
      else if j == 2
      then record (plain_phase "p2" node 0) { predecessors = 1 ∷ []; successors = 3 ∷ [] }
      else if j == 3
      then record (plain_phase "p3" node 0) { predecessors = 2 ∷ [] }
      else plain_phase "" global 0;
  next = 4;
}

abbrev first_done : List Happening
first_done =
    take
    ∷ resume 0
    ∷ resume 0
    ∷ resume 0
    ∷ end 0
    ∷ resume 0
    ∷ resume 0
    ∷ resume 0
    ∷ resume 0
    ∷ take
    ∷ resume 1
    ∷ []

abbrev after_first : Sim
after_first = happen_all line (λ _. true) 9 first_done (begin_run line 1)

predecessors_done_example : after_first.state 1 ≡ done
unfolding happen_all begin_run has_key plain_phase
predecessors_done_example =
    predecessors_done line (λ _. true) 9 1 refl first_done 1 1 (omega arith) refl refl refl

executed_once_example :
    ((j k : ℕ)
      → j < after_first.count
      → k < after_first.count
      → (after_first.task j).phase ≡ (after_first.task k).phase
      → j ≡ k)
    × ((k : ℕ)
        → k < after_first.count
        → is_past (after_first.task k).stage ≡ true
        → after_first.state (after_first.task k).phase ≡ done)
unfolding plain_phase
executed_once_example = executed_once line (λ _. true) 9 1 refl first_done

abbrev height : ℕ → ℕ
height j = 4 - j

falls_in_line : (a b : ℕ) → has_key b (succs line a) ≡ true → height b < height a
unfolding has_key plain_phase
falls_in_line a b h = ground arith

real_in_line : (a b : ℕ) → has_key b (succs line a) ≡ true → b ≢ 0
unfolding has_key plain_phase
real_in_line a b h = ground arith

is_before_lem_example : IsAnswered line 9 3 1
is_before_lem_example =
    is_before_lem line height falls_in_line real_in_line 9 3 1 (omega arith) (omega arith)

leave_by_jump-forward_example :
    (h' : Store) × (leave_by_jump 9 1 line ≡ some (h', 3)) × IsJumped (succs line) 1 3 line h'
leave_by_jump-forward_example =
    leave_by_jump-forward (succs line) height falls_in_line 9 1 3 line (λ j. refl) (omega arith)
      (omega arith) refl (omega arith) refl
