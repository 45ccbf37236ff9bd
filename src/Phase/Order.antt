-- ===== src/Phase/Order.antt =====
-- src/uvmsc/phasing/uvm_phase.cpp: the order of the phases, by the chains of their links, when a phase is added.
use system_c_uvm.Base.{ℕ, ◌<◌, ◌≡◌, ◌≢◌, ◌↔◌, sym, subst, true, false, arith}
use system_c_uvm.Phase.{Store}
use system_c_uvm.Phase.Schedule.{ok, is_imp, add}
use system_c_uvm.Phase.Links.{follows}
use system_c_uvm.Phase.Inserted.{
  follows-insert_with, follows-insert_before, follows-insert_after, follows-insert_between,
}
use system_c_uvm.Phase.Ways.{parallel, ahead, behind, amid, apart, with_leaf, or_last, add-Way}
use system_c_uvm.Phase.Linked.{IsLinked}
use system_c_uvm.Phase.Chains.{Chain, Extends, Chain-iff}
use system_c_uvm.Phase.Extended.{
  plain, mirrored, gone, come, Extends-with, Extends-before, Extends-after, Extends-between,
  Extends-apart,
}

module _ (this phase w after_phase before_phase : ℕ) (h h' : Store) (l : IsLinked h)
    (some_this : this ≢ 0) (is_leaf : is_imp (h.phase phase).phase_type ≡ true)
    (made_w : w < h.next) (made_after : after_phase < h.next) (made_before : before_phase < h.next)
    (made_end : (h.phase this).end_node < h.next)
    (apart_already : after_phase ≢ 0
      → before_phase ≢ 0
      → Chain (follows h) after_phase before_phase × (follows h before_phase after_phase ≡ false))
    (q : add this phase w after_phase before_phase h ≡ ok h') where
  abbrev spot : ℕ
  spot = or_last this w after_phase before_phase h

  not_both : w ≢ 0 → (after_phase ≡ 0) × (before_phase ≡ 0)
  unfolding add
  not_both nw = ground arith

  Extends-add : Extends h.next (follows h) (follows h')
  Extends-add =
      let new_c : spot ≢ h.next = ground arith in
      let new_w : w ≢ h.next = ground arith in
      let new_a : after_phase ≢ h.next = ground arith in
      let to = λ (g : Store). Extends h.next (follows h) (follows g) in
      elim (add-Way this phase w after_phase before_phase h h' some_this is_leaf q) [
        | parallel _ e ↦ subst to (sym e) (Extends-with this phase h l w new_w)
        | ahead _ _ _ e ↦ subst to (sym e) (Extends-before this phase h l spot new_c)
        | behind _ _ _ e ↦ subst to (sym e) (Extends-after this phase h l after_phase new_a)
        | amid _ na nb _ e ↦
            let same : spot ≡ before_phase = ground arith in
            let given : before_phase ≢ 0 = ground arith in
            let there = apart_already na given in
            subst to (sym e) (
              Extends-between this phase h l after_phase spot new_a new_c
                (subst (λ c. follows h c after_phase ≡ false) (sym same) there.1)
                (subst (Chain (follows h) after_phase) (sym same) there.0))
        | apart _ _ _ e ↦ subst to (sym e) (Extends-apart this phase h l)
      ]

  -- Adding a phase implementation to a schedule with mirrored links, in parallel, before, after, in
  -- between or at the end, does not change which of the phases that were there is before which, where
  -- the phase after which and the phase before which it is put, if both are given, stand in this
  -- order and the second does not lead straight back to the first.
  pub add-order :
      {a b : ℕ} → a ≢ h.next → b ≢ h.next → Chain (follows h) a b ↔ Chain (follows h') a b
  add-order na nb = Chain-iff h.next (follows h) (follows h') Extends-add na nb

  abbrev PlacedIn : Store → Type 0
  PlacedIn g =
      (after_phase ≢ 0 → follows g after_phase h.next ≡ true)
      × (w ≡ 0 → spot ≢ 0 → follows g h.next spot ≡ true)
      × (w ≢ 0
          → (x : ℕ) → (follows g x h.next ≡ follows h x w) × (follows g h.next x ≡ follows h w x))

  abbrev n : ℕ
  n = h.next

  -- The phase that is added to such a schedule follows the phase after which it is put, and the phase
  -- before which it is put, or the end of the schedule where nothing is given, follows it. In
  -- parallel with a phase it follows what that follows, and what follows that follows it.
  pub add-placed : PlacedIn h'
  add-placed =
      let new_c : spot ≢ n = ground arith in
      let new_w : w ≢ n = ground arith in
      let new_a : after_phase ≢ n = ground arith in
      let g = with_leaf this phase h in
      elim (add-Way this phase w after_phase before_phase h h' some_this is_leaf q) [
        | parallel nw e ↦ subst PlacedIn (sym e) (
          λ na. absurd (na (not_both nw).0),
          λ zw. absurd (nw zw),
          λ _ x. (
            ground (
              arith,
              follows-insert_with n n w g new_w new_w x n,
              plain this phase h l x n,
              mirrored this phase h l x w,
              come this phase h l x,
              come this phase h l w,
              plain this phase h l w n,
              gone this phase h l w,
            ),
            ground (
              arith,
              follows-insert_with n n w g new_w new_w n x,
              plain this phase h l w x,
              mirrored this phase h l n w,
              gone this phase h l w,
            ),
          ),
        )
        | ahead zw _ za e ↦ subst PlacedIn (sym e) (
          λ na. absurd (na za),
          λ _ _. ground (
            arith,
            follows-insert_before n n spot g new_c n spot,
            mirrored this phase h l n spot,
            gone this phase h l spot,
          ),
          λ nw. absurd (nw zw),
        )
        | behind zw _ zc e ↦ subst PlacedIn (sym e) (
          λ _. ground (arith, follows-insert_after n n after_phase g new_a after_phase n),
          λ _ nc. absurd (nc zc),
          λ nw. absurd (nw zw),
        )
        | amid zw _ _ _ e ↦ subst PlacedIn (sym e) (
          λ _.
              ground
                (arith, follows-insert_between n n after_phase spot g new_a new_c after_phase n),
          λ _ _. ground (arith, follows-insert_between n n after_phase spot g new_a new_c n spot),
          λ nw. absurd (nw zw),
        )
        | apart zw za zc _ ↦ (λ na. absurd (na za), λ _ nc. absurd (nc zc), λ nw. absurd (nw zw))
      ]
