-- ===== src/Phase/Domain.antt =====
-- src/uvmsc/phasing/uvm_domain.cpp: the common domain and the uvm domain, which the library builds, and jumps of a
-- domain. The implementations of the phases are given by their addresses.
use system_c_uvm.Base.{
  ℕ, zero, suc, ◌+◌, ◌&&◌, leb, Bool, true, false, if◌then◌else◌, List, [], ◌∷◌, ◌++◌, Option, none,
  some,
}
use system_c_uvm.Phase.{schedule, domain, Store, new_phase, started, cleanup}
use system_c_uvm.Phase.Search.{find, is_before, is_after, succs}
use system_c_uvm.Phase.Schedule.{Added, ok, fatal, endless, add, add_each}
use system_c_uvm.Phase.Jump.{Jumped, jumps, jump}

abbrev then_add : Added → (Store → Added) → Added
then_add (ok h) k = k h
then_add (fatal id) k = fatal id
then_add endless k = endless

-- The uvm domain, at the first new address, with the schedule "uvm_sched" of the runtime phases.
unfoldable pub get_uvm_domain : List ℕ → Store → Added
unfolding new_phase add_each add
get_uvm_domain runtime h =
    let h₁ = new_phase "uvm" "uvm_end" domain 0 h in
    let h₂ = new_phase "uvm_sched" "uvm_sched_end" schedule 0 h₁ in
    then_add (add_each h₁.next runtime h₂) (λ h₃. add h.next h₁.next 0 0 0 h₃)

-- The common domain, at the first new address: its phases in series, and the uvm domain in parallel
-- with the run phase.
unfoldable pub get_common_domain : List ℕ → ℕ → List ℕ → Store → Added
unfolding new_phase add_each add find get_uvm_domain
get_common_domain common run runtime h =
    let h₁ = new_phase "common" "common_end" domain 0 h in
    then_add (add_each h.next common h₁) λ h₂. then_add (get_uvm_domain runtime h₂) λ h₃.
      elim (find h₃ h₃.next run true h.next) [
        | none ↦ endless
        | some node ↦ add h.next h₂.next node 0 0 h₃
      ]

-- m_get_transitive_children: every phase as often as a path leads to it.
unfoldable pub each_child : (ℕ → Option (List ℕ)) → List ℕ → Option (List ℕ)
each_child f [] = some []
each_child f (p ∷ ps) = elim (f p) [
  | none ↦ none
  | some below ↦ elim (each_child f ps) [ none ↦ none | some rest ↦ some (p ∷ (below ++ rest)) ]
]

unfoldable pub m_get_transitive_children : ℕ → Store → ℕ → Option (List ℕ)
unfolding each_child
m_get_transitive_children zero h this = none
m_get_transitive_children (suc fuel) h this =
    each_child (m_get_transitive_children fuel h) (succs h this)

abbrev is_active : Store → ℕ → Bool
is_active h p = leb started (h.phase p).state && leb (h.phase p).state cleanup

unfoldable pub count_active : Store → List ℕ → ℕ
count_active h [] = 0
count_active h (p ∷ ps) = (if is_active h p then 1 else 0) + count_active h ps

abbrev or_yes : Option Bool → Option Bool → Option Bool
or_yes none b = none
or_yes (some true) b = some true
or_yes (some false) b = b

-- The loop runs over as many of the phases as there are active ones, from the first phase on.
unfoldable pub jump_first : ℕ → ℕ → ℕ → List ℕ → Store → Jumped
unfolding is_before is_after jump
jump_first fuel phase zero ps h = jumps h
jump_first fuel phase (suc n) [] h = jumps h
jump_first fuel phase (suc n) (p ∷ ps) h =
    elim (or_yes (is_before h fuel phase p) (is_after h fuel phase p)) [
      | none ↦ Jumped.endless
      | some false ↦ jump_first fuel phase n ps h
      | some true ↦ elim (jump fuel phase p h) [
        | jumps h' ↦ jump_first fuel phase n ps h'
        | Jumped.fatal ↦ Jumped.fatal
        | Jumped.endless ↦ Jumped.endless
      ]
    ]

unfoldable pub domain_jump : ℕ → ℕ → ℕ → Store → Jumped
unfolding m_get_transitive_children count_active jump_first
domain_jump fuel phase this h = elim (m_get_transitive_children fuel h this) [
  | none ↦ Jumped.endless
  | some phases ↦ jump_first fuel phase (count_active h phases) phases h
]
