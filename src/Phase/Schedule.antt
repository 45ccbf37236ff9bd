-- ===== src/Phase/Schedule.antt =====
-- src/uvmsc/phasing/uvm_phase.cpp and uvm_domain.cpp: schedules are built by adding phases.
use system_c_uvm.Base.{
  ℕ, ◌&&◌, ◌||◌, not, Bool, true, false, if◌then◌else◌, ◌==◌, String, List, [], ◌∷◌, Option, none,
  some,
}
use system_c_uvm.Phase.{
  PhaseType, imp, node, Store, modify, has_key, put_succ, put_pred, del_succ, del_pred, allocate,
  plain_phase,
}
use system_c_uvm.Phase.Search.{find, is_before, preds, succs}

-- A fatal report throws; `endless` says that a walk did not end within as many steps as there are
-- phases.
pub data Added : Type 0 where
  ok : Store → Added
  fatal : String → Added
  endless : Added

-- A loop over a map of phases.
unfoldable pub each_phase : (ℕ → Store → Store) → List ℕ → Store → Store
each_phase f [] h = h
each_phase f (p ∷ ps) h = each_phase f ps (f p h)

-- The four ways to link the nodes from `begin` to `end` into the graph.
unfoldable pub insert_with : ℕ → ℕ → ℕ → Store → Store
unfolding modify each_phase put_succ put_pred
insert_with begin end with_phase h =
    let h₁ = modify begin (λ p. record p { predecessors = preds h with_phase }) h in
    let h₂ = modify end (λ p. record p { successors = succs h₁ with_phase }) h₁ in
    let h₃ = each_phase (λ p. put_succ p begin) (preds h₂ with_phase) h₂ in
    each_phase (λ s. put_pred s end) (succs h₃ with_phase) h₃

unfoldable pub insert_before : ℕ → ℕ → ℕ → Store → Store
unfolding modify each_phase put_succ del_succ put_pred
insert_before begin end before_phase h =
    let h₁ = modify begin (λ p. record p { predecessors = preds h before_phase }) h in
    let h₂ = put_succ end before_phase h₁ in
    let h₃ =
      each_phase (λ p g. put_succ p begin (del_succ p before_phase g)) (preds h₂ before_phase) h₂ in
    put_pred before_phase end (modify before_phase (λ p. record p { predecessors = [] }) h₃)

unfoldable pub insert_after : ℕ → ℕ → ℕ → Store → Store
unfolding modify each_phase put_pred del_pred put_succ
insert_after begin end after_phase h =
    let h₁ = modify end (λ p. record p { successors = succs h after_phase }) h in
    let h₂ = put_pred begin after_phase h₁ in
    let h₃ =
      each_phase (λ s g. put_pred s end (del_pred s after_phase g)) (succs h₂ after_phase) h₂ in
    put_succ after_phase begin (modify after_phase (λ p. record p { successors = [] }) h₃)

-- With the `erase` on the successors of `before_phase`.
unfoldable pub insert_between : ℕ → ℕ → ℕ → ℕ → Store → Store
unfolding has_key put_succ put_pred del_succ
insert_between begin end after_phase before_phase h =
    let h₁ = put_succ end before_phase (put_pred begin after_phase h) in
    let h₂ = put_pred before_phase end (put_succ after_phase begin h₁) in
    if has_key before_phase (succs h₂ after_phase)
    then del_succ before_phase after_phase (del_succ after_phase before_phase h₂)
    else h₂

abbrev pub link_between : Option Bool → Store → Added
link_between none h = endless
link_between (some true) h = ok h
link_between (some false) h = fatal "PH_ADD_PHASE"

-- By the arguments that are left after the defaults.
unfoldable pub link : ℕ → ℕ → ℕ → ℕ → ℕ → Store → Added
unfolding insert_with insert_before insert_after insert_between is_before
link begin end with_phase after_phase before_phase h =
    if not (with_phase == 0)
    then ok (insert_with begin end with_phase h)
    else if not (before_phase == 0) && after_phase == 0
    then ok (insert_before begin end before_phase h)
    else if before_phase == 0 && not (after_phase == 0)
    then ok (insert_after begin end after_phase h)
    else if not (before_phase == 0) && not (after_phase == 0)
    then link_between (is_before h h.next before_phase after_phase)
        (insert_between begin end after_phase before_phase h)
    else ok h

abbrev pub is_imp : PhaseType → Bool
is_imp imp = true
is_imp _ = false

-- A relative that is a phase implementation must be found; what is found is not used.
unfoldable pub check_relative : Store → ℕ → ℕ → Option Bool
unfolding find
check_relative h this phase =
    if not (phase == 0) && is_imp (h.phase phase).phase_type
    then elim (find h h.next phase true this) [ none ↦ none | some r ↦ some (not (r == 0)) ]
    else some true

-- Both, where the second check is not made if the first fails.
abbrev both : Option Bool → Option Bool → Option Bool
both none b = none
both (some false) b = some false
both (some true) b = b

-- The part of `add` behind its checks.
unfoldable pub insert_phase : ℕ → ℕ → ℕ → ℕ → ℕ → Store → Added
unfolding allocate plain_phase modify link
insert_phase this phase with_phase after_phase before_phase h =
    let p = h.phase phase in
    let leaf = is_imp p.phase_type in
    let h₁ =
      if leaf
      then allocate (record (plain_phase p.name node this) { imp_phase = phase }) h
      else modify phase (λ q. record q { parent = this }) h in
    let begin = if leaf then h.next else phase in
    let end = if leaf then h.next else p.end_node in
    let last = (h.phase this).end_node in
    let after' = if with_phase == this then this else after_phase in
    let before' =
      if with_phase == this
      then last
      else if with_phase == 0 && after_phase == 0 && before_phase == 0
      then last
      else before_phase in
    link begin end with_phase after' before' h₁

-- uvm_phase::add on the schedule or domain `this`.
unfoldable pub add : ℕ → ℕ → ℕ → ℕ → ℕ → Store → Added
unfolding check_relative insert_phase
add this phase with_phase after_phase before_phase h =
    let last = (h.phase this).end_node in
    let checked =
      both (check_relative h this with_phase)
        (both (check_relative h this before_phase) (check_relative h this after_phase)) in
    if phase == 0 then fatal "PH/NULL" else elim checked [
      | none ↦ endless
      | some false ↦ fatal "PH_BAD_ADD"
      | some true ↦
          if not (with_phase == 0) && (not (after_phase == 0) || not (before_phase == 0))
          then fatal "PH_BAD_ADD"
          else if before_phase == this || after_phase == last || with_phase == last
          then fatal "PH_BAD_ADD"
          else insert_phase this phase with_phase after_phase before_phase h
    ]

-- Phases added one by one with the defaults, as the domains do.
unfoldable pub add_each : ℕ → List ℕ → Store → Added
unfolding add
add_each this [] h = ok h
add_each this (p ∷ ps) h = elim (add this p 0 0 0 h) [
  | ok h' ↦ add_each this ps h'
  | fatal id ↦ fatal id
  | endless ↦ endless
]
