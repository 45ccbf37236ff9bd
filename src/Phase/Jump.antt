-- ===== src/Phase/Jump.antt =====
-- src/uvmsc/phasing/uvm_phase.cpp: a jump from an active phase to another one, and what it does to the states of the
-- phases. The objections of a phase that is cleared are those of its own uvm_objection.
use system_c_uvm.Base.{
  ℕ, zero, suc, ◌||◌, ltb, Bool, true, false, if◌then◌else◌, ◌==◌, List, [], ◌∷◌, Option, none,
  some,
}
use system_c_uvm.Phase.{Store, modify, dormant, started, ready_to_end, ended, done, jumping}
use system_c_uvm.Phase.Search.{m_find_predecessor, m_find_successor, succs}

unfoldable pub clear_phase : ℕ → ℕ → Store → Store
unfolding modify
clear_phase state p h = modify p (λ q. record q { state = state }) h

-- A loop over phases of which each round may be endless.
unfoldable pub try_each : (ℕ → Store → Option Store) → List ℕ → Store → Option Store
try_each f [] h = some h
try_each f (p ∷ ps) h = elim (f p h) [ none ↦ none | some h' ↦ try_each f ps h' ]

-- clear_successors, up to `end_state`; with fuel, and `none` where that runs out.
unfoldable pub clear_successors : ℕ → ℕ → ℕ → ℕ → Store → Option Store
unfolding clear_phase try_each
clear_successors zero state end_state this h = none
clear_successors (suc fuel) state end_state this h =
    let rest =
      try_each (clear_successors fuel state end_state) (succs h this) (clear_phase state this h) in
    if this == end_state then some h else rest

-- jump: the phase to jump to is sought among the predecessors, then among the successors.
pub data Jumped : Type 0 where
  jumps : Store → Jumped
  fatal : Jumped
  endless : Jumped

abbrev jump_ahead : ℕ → Option ℕ → Store → Jumped
jump_ahead this none h = endless
jump_ahead this (some d) h =
    if d == 0
    then fatal
    else jumps (modify this (λ p. record p { jump_fwd = true; jump_phase = d }) h)

unfoldable pub jump : ℕ → ℕ → ℕ → Store → Jumped
unfolding m_find_predecessor m_find_successor modify
jump fuel phase this h =
    let forward = jump_ahead this (m_find_successor h fuel phase false this this) h in
    elim (m_find_predecessor h fuel phase false this this) [
      | none ↦ endless
      | some d ↦
          if d == 0
          then forward
          else jumps (modify this (λ p. record p { jump_bkwd = true; jump_phase = d }) h)
    ]

-- Is an error reported, since the phase is not active?
unfoldable pub jump_error : ℕ → Store → Bool
jump_error this h = ltb (h.phase this).state started || ltb ready_to_end (h.phase this).state

-- The end of execute_phase on a jump: the graph, and what is put into the hopper.
unfoldable pub leave_by_jump : ℕ → ℕ → Store → Option (Store × ℕ)
unfolding clear_phase clear_successors modify
leave_by_jump fuel this h =
    let p = h.phase this in
    let target = p.jump_phase in
    let h₁ = clear_phase jumping this (clear_phase ended this h) in
    let between = if p.jump_fwd then clear_successors fuel done target this h₁ else some h₁ in
    elim between [
      | none ↦ none
      | some h₂ ↦ elim (clear_successors fuel dormant 0 target h₂) [
        | none ↦ none
        | some h₃ ↦ some (
          modify this (λ q. record q { jump_fwd = false; jump_bkwd = false; jump_phase = 0 }) h₃,
          target,
        )
      ]
    ]
