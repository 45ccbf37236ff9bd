-- ===== src/Phase/Search.antt =====
-- src/uvmsc/phasing/uvm_phase.cpp: walks over the graph of phases. A walk takes fuel, and `none` says that it has run
-- out; NULL is `some 0`.
use system_c_uvm.Base.{
  ℕ, zero, suc, ◌&&◌, ◌||◌, not, Bool, true, false, if◌then◌else◌, ◌==◌, String, List, [], ◌∷◌,
  Option, none, some,
}
use system_c_uvm.Base.Assoc.{string_key}
use system_c_uvm.Phase.{PhaseType, node, schedule, domain, Store}

abbrev is_schedule : PhaseType → Bool
is_schedule schedule = true
is_schedule _ = false

abbrev pub is_domain : PhaseType → Bool
is_domain domain = true
is_domain _ = false

abbrev pub is_node : PhaseType → Bool
is_node node = true
is_node _ = false

-- get_schedule without `hier`.
unfoldable pub get_schedule : Store → ℕ → ℕ
get_schedule h this =
    let p = h.phase this in
    if is_schedule p.phase_type
    then this
    else if is_node p.phase_type
        && not (p.parent == 0)
        && not (is_domain (h.phase p.parent).phase_type)
    then p.parent
    else 0

-- get_domain: up the parents.
unfoldable pub get_domain : Store → ℕ → ℕ → Option ℕ
get_domain h zero this = none
get_domain h (suc fuel) this =
    let up = get_domain h fuel (h.phase this).parent in
    if this == 0 || is_domain (h.phase this).phase_type then some this else up

-- The first of the phases in the scope for which the walk finds something.
unfoldable pub first_found : (ℕ → Option ℕ) → (ℕ → Option Bool) → List ℕ → Option ℕ
first_found walk_along in_scope [] = some 0
first_found walk_along in_scope (p ∷ ps) =
    let rest = first_found walk_along in_scope ps in
    elim (in_scope p) [
      | none ↦ none
      | some false ↦ rest
      | some true ↦ elim (walk_along p) [ none ↦ none | some r ↦ if r == 0 then rest else some r ]
    ]

-- A walk along the predecessors or the successors, up to a phase that passes the test.
unfoldable pub walk_along : (ℕ → List ℕ) → (ℕ → Bool) → (ℕ → Option Bool) → ℕ → ℕ → Option ℕ
unfolding first_found
walk_along along hit in_scope zero this = none
walk_along along hit in_scope (suc fuel) this =
    let rest = first_found (walk_along along hit in_scope fuel) in_scope (along this) in
    if hit this then some this else rest

abbrev equal : Option ℕ → Option ℕ → Option Bool
equal none b = none
equal (some a) none = none
equal (some a) (some b) = some (a == b)

-- May the walk from `orig` visit the phase?
unfoldable pub within : Store → ℕ → Bool → ℕ → ℕ → Option Bool
unfolding get_schedule get_domain
within h fuel stay_in_scope orig p =
    let same_domain = equal (get_domain h fuel p) (get_domain h fuel orig) in
    if not stay_in_scope || get_schedule h p == get_schedule h orig then some true else same_domain

abbrev pub preds : Store → ℕ → List ℕ
preds h a = (h.phase a).predecessors

abbrev pub succs : Store → ℕ → List ℕ
succs h a = (h.phase a).successors

-- The phase itself, or a node for the phase implementation.
abbrev pub is : Store → ℕ → ℕ → Bool
is h phase this = (h.phase this).imp_phase == phase || this == phase

abbrev is_named : Store → String → ℕ → Bool
is_named h name this = string_key.same (h.phase this).name name

-- NULL is not looked for.
unfoldable pub m_find_predecessor : Store → ℕ → ℕ → Bool → ℕ → ℕ → Option ℕ
unfolding walk_along within
m_find_predecessor h fuel phase stay_in_scope orig this =
    let walk = walk_along (preds h) (is h phase) (within h fuel stay_in_scope orig) fuel this in
    if phase == 0 then some 0 else walk

unfoldable pub m_find_successor : Store → ℕ → ℕ → Bool → ℕ → ℕ → Option ℕ
unfolding walk_along within
m_find_successor h fuel phase stay_in_scope orig this =
    let walk = walk_along (succs h) (is h phase) (within h fuel stay_in_scope orig) fuel this in
    if phase == 0 then some 0 else walk

unfoldable pub m_find_predecessor_by_name : Store → ℕ → String → Bool → ℕ → ℕ → Option ℕ
unfolding walk_along within
m_find_predecessor_by_name h fuel name stay_in_scope orig =
    walk_along (preds h) (is_named h name) (within h fuel stay_in_scope orig) fuel

unfoldable pub m_find_successor_by_name : Store → ℕ → String → Bool → ℕ → ℕ → Option ℕ
unfolding walk_along within
m_find_successor_by_name h fuel name stay_in_scope orig =
    walk_along (succs h) (is_named h name) (within h fuel stay_in_scope orig) fuel

-- What is found, or else the result of another walk.
abbrev else_try : Option ℕ → Option ℕ → Option ℕ
else_try none b = none
else_try (some r) b = if r == 0 then b else some r

unfoldable pub find : Store → ℕ → ℕ → Bool → ℕ → Option ℕ
unfolding m_find_predecessor m_find_successor
find h fuel phase stay_in_scope this =
    if is h phase this
    then some phase
    else else_try (m_find_predecessor h fuel phase stay_in_scope this this)
        (m_find_successor h fuel phase stay_in_scope this this)

unfoldable pub find_by_name : Store → ℕ → String → Bool → ℕ → Option ℕ
unfolding m_find_predecessor_by_name m_find_successor_by_name
find_by_name h fuel name stay_in_scope this =
    if is_named h name this
    then some this
    else else_try (m_find_predecessor_by_name h fuel name stay_in_scope this this)
        (m_find_successor_by_name h fuel name stay_in_scope this this)

abbrev is_found : Option ℕ → Option Bool
is_found none = none
is_found (some r) = some (not (r == 0))

unfoldable pub is_before : Store → ℕ → ℕ → ℕ → Option Bool
unfolding m_find_predecessor m_find_successor
is_before h fuel phase this =
    if is h phase this then some false else is_found (m_find_successor h fuel phase false this this)

unfoldable pub is_after : Store → ℕ → ℕ → ℕ → Option Bool
unfolding m_find_predecessor m_find_successor
is_after h fuel phase this =
    if is h phase this
    then some false
    else is_found (m_find_predecessor h fuel phase false this this)
