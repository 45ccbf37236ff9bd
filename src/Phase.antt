-- ===== src/Phase.antt =====
-- src/uvmsc/phasing/uvm_phase.cpp: the phases of a simulation, as nodes of a graph that is kept in a store. A phase
-- is known by its address, NULL is 0. The maps of predecessors and successors, whose values are
-- always true, are lists of addresses.
pub mod Search
pub mod Schedule
pub mod Links
pub mod Inserted
pub mod Ways
pub mod Linked
pub mod Chains
pub mod Extended
pub mod Order
pub mod Between
pub mod Execution
pub mod Running
pub mod Progress
pub mod Runs
pub mod Jump
pub mod Clearing
pub mod Jumped
pub mod Found
pub mod Domain
use system_c_uvm.Base.{
  ℕ, ◌+◌, ◌||◌, ◌&&◌, Bool, true, false, if◌then◌else◌, ◌==◌, String, List, [], ◌∷◌, ◌++◌,
}

-- uvm_phase_type
pub data PhaseType : Type 0 where
  imp node terminal schedule domain global : PhaseType

-- uvm_phase_state, by the numbers of its constants.
abbrev pub dormant : ℕ
dormant = 0

abbrev pub scheduled : ℕ
scheduled = 1

abbrev pub syncing : ℕ
syncing = 2

abbrev pub started : ℕ
started = 3

abbrev pub executing : ℕ
executing = 4

abbrev pub ready_to_end : ℕ
ready_to_end = 5

abbrev pub ended : ℕ
ended = 6

abbrev pub cleanup : ℕ
cleanup = 7

abbrev pub done : ℕ
done = 8

abbrev pub jumping : ℕ
jumping = 9

-- uvm_phase
pub record Phase : Type 0 where
  pub name : String
  pub phase_type : PhaseType
  pub parent : ℕ
  pub imp_phase : ℕ
  pub end_node : ℕ
  pub predecessors : List ℕ
  pub successors : List ℕ
  pub sync : List ℕ
  pub state : ℕ
  pub run_count : ℕ
  pub jump_fwd : Bool
  pub jump_bkwd : Bool
  pub jump_phase : ℕ

-- The phases that have been made; the next one gets the address `next`.
pub record Store : Type 0 where
  pub phase : ℕ → Phase
  pub next : ℕ

unfoldable pub modify : ℕ → (Phase → Phase) → Store → Store
modify k f h = record h { phase = λ j. if j == k then f (h.phase j) else h.phase j }

-- Keys of a map: a test, `m[k] = true` and `erase`.
unfoldable pub has_key : ℕ → List ℕ → Bool
has_key k [] = false
has_key k (x ∷ xs) = x == k || has_key k xs

unfoldable pub put_key : ℕ → List ℕ → List ℕ
unfolding has_key
put_key k xs = if has_key k xs then xs else xs ++ k ∷ []

unfoldable pub remove_key : ℕ → List ℕ → List ℕ
remove_key k [] = []
remove_key k (x ∷ xs) = let rest = remove_key k xs in if x == k then rest else x ∷ rest

unfoldable pub put_succ : ℕ → ℕ → Store → Store
unfolding modify put_key remove_key
put_succ a b = modify a (λ p. record p { successors = put_key b p.successors })

unfoldable pub del_succ : ℕ → ℕ → Store → Store
unfolding modify put_key remove_key
del_succ a b = modify a (λ p. record p { successors = remove_key b p.successors })

unfoldable pub put_pred : ℕ → ℕ → Store → Store
unfolding modify put_key remove_key
put_pred a b = modify a (λ p. record p { predecessors = put_key b p.predecessors })

unfoldable pub del_pred : ℕ → ℕ → Store → Store
unfolding modify put_key remove_key
del_pred a b = modify a (λ p. record p { predecessors = remove_key b p.predecessors })

unfoldable pub plain_phase : String → PhaseType → ℕ → Phase
plain_phase name phase_type parent = record {
  name = name;
  phase_type = phase_type;
  parent = parent;
  imp_phase = 0;
  end_node = 0;
  predecessors = [];
  successors = [];
  sync = [];
  state = dormant;
  run_count = 0;
  jump_fwd = false;
  jump_bkwd = false;
  jump_phase = 0;
}

-- A new phase, at `next`.
unfoldable pub allocate : Phase → Store → Store
unfolding modify
allocate p h = modify h.next (λ _. p) (record h { next = h.next + 1 })

abbrev has_end : PhaseType → Bool
has_end schedule = true
has_end domain = true
has_end _ = false

-- The constructor: a schedule or domain without a parent gets its end node.
unfoldable pub new_phase : String → String → PhaseType → ℕ → Store → Store
unfolding allocate plain_phase put_succ put_pred
new_phase name end_name phase_type parent h =
    let h₁ = allocate (plain_phase name phase_type parent) h in
    if parent == 0 && has_end phase_type
    then (let h₂ = allocate (plain_phase end_name terminal h.next) h₁ in
        let h₃ = modify h.next (λ p. record p { end_node = h₁.next }) h₂ in
        put_pred h₁.next h.next (put_succ h.next h₁.next h₃))
    else h₁
