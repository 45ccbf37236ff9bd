-- ===== src/Phase/Between.antt =====
-- src/uvmsc/phasing/uvm_phase.cpp: `add` with a phase after which and a phase before which the new phase is put.
use system_c_uvm.Base.{ℕ, ◌<◌, ◌≡◌, ◌≢◌, ◌∙◌, sym, subst, ◌&&◌, true, false, ◌==◌, ap, arith}
use system_c_uvm.Phase.{Store}
use system_c_uvm.Phase.Schedule.{ok, insert_between, is_imp, add}
use system_c_uvm.Phase.Links.{follows, is_pred}
use system_c_uvm.Phase.Inserted.{follows-insert_between, is_pred-insert_between}
use system_c_uvm.Phase.Ways.{parallel, ahead, behind, amid, apart, with_leaf, or_last, add-Way}
use system_c_uvm.Phase.Linked.{IsLinked}
use system_c_uvm.Phase.Extended.{plain, mirrored}

module _ (this phase after_phase before_phase : ℕ) (h h' : Store) (l : IsLinked h)
    (some_this : this ≢ 0) (is_leaf : is_imp (h.phase phase).phase_type ≡ true)
    (some_after : after_phase ≢ 0) (some_before : before_phase ≢ 0)
    (made_after : after_phase < h.next) (made_before : before_phase < h.next)
    (direct : follows h after_phase before_phase ≡ true)
    (back : follows h before_phase after_phase ≡ false)
    (q : add this phase 0 after_phase before_phase h ≡ ok h') where
  between : h' ≡ insert_between h.next h.next after_phase before_phase (with_leaf this phase h)
  between =
      let same : or_last this 0 after_phase before_phase h ≡ before_phase = ground arith in
      elim (add-Way this phase 0 after_phase before_phase h h' some_this is_leaf q) [
        | parallel nz _ ↦ absurd (ground arith)
        | ahead _ _ za _ ↦ absurd (some_after za)
        | behind _ _ zc _ ↦ absurd (some_before (sym same ∙ zc))
        | amid _ _ _ _ e ↦
            e ∙ ap (λ c. insert_between h.next h.next after_phase c (with_leaf this phase h)) same
        | apart _ za _ _ ↦ absurd (some_after za)
      ]

  abbrev StaleIn : Store → Type 0
  StaleIn g =
      (follows g after_phase before_phase ≡ false)
      × (is_pred g after_phase before_phase ≡ true)
      × ((a b : ℕ)
          → (a == after_phase && b == before_phase) ≡ false
          → follows g a b ≡ is_pred g a b)

  -- Where a phase implementation is added between a phase and its successor, from which no link leads
  -- back, the phase is not the other's predecessor's successor any more, but stays the successor's
  -- predecessor; all other links stay mirrored.
  pub add-between_stale : StaleIn h'
  add-between_stale =
      let new_a : after_phase ≢ h.next = ground arith in
      let new_c : before_phase ≢ h.next = ground arith in
      subst StaleIn (sym between) (
        ground (
          arith,
          follows-insert_between h.next h.next after_phase before_phase (with_leaf this phase h)
              new_a new_c after_phase before_phase,
          plain this phase h l after_phase before_phase,
        ),
        ground (
          arith,
          is_pred-insert_between h.next h.next after_phase before_phase (with_leaf this phase h)
              new_a new_c after_phase before_phase,
          mirrored this phase h l after_phase before_phase,
        ),
        λ a b other. ground (
          arith,
          follows-insert_between h.next h.next after_phase before_phase (with_leaf this phase h)
              new_a new_c a b,
          is_pred-insert_between h.next h.next after_phase before_phase (with_leaf this phase h)
              new_a new_c a b,
          plain this phase h l a b,
          plain this phase h l after_phase before_phase,
          mirrored this phase h l a b,
        ),
      )
