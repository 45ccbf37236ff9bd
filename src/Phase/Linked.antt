-- ===== src/Phase/Linked.antt =====
-- src/uvmsc/phasing/uvm_phase.cpp: successors and predecessors are kept as each other's mirror image.
use system_c_uvm.Base.{
  ℕ, ◌+◌, ◌<◌, ◌≡◌, ◌≢◌, refl, sym, ◌∙◌, subst, true, false, ◌⊎◌, inl, inr, List, [], ◌∷◌, arith,
}
use system_c_uvm.Phase.{
  Store, modify, has_key, put_succ, put_pred, del_succ, del_pred, allocate, plain_phase,
}
use system_c_uvm.Phase.Search.{preds, succs}
use system_c_uvm.Phase.Schedule.{
  ok, each_phase, insert_with, insert_before, insert_after, is_imp, add,
}
use system_c_uvm.Phase.Links.{follows, is_pred}
use system_c_uvm.Phase.Inserted.{
  taken, joined, led, tailed, follows-insert_with, is_pred-insert_with, follows-insert_before,
  is_pred-insert_before, follows-insert_after, is_pred-insert_after,
}
use system_c_uvm.Phase.Ways.{parallel, ahead, behind, amid, apart, with_leaf, or_last, add-Way}

-- Every link is kept at both of its ends, and joins two phases that have been made.
pub record IsLinked (h : Store) : Type 0 where
  pub agree : (a b : ℕ) → follows h a b ≡ is_pred h a b
  pub loopless : (a : ℕ) → follows h a a ≡ false
  pub made : (a b : ℕ) → follows h a b ≡ true → (a < h.next) × (b < h.next)

module _ (f : ℕ → Store → Store) (same : (p : ℕ) (h : Store) → (f p h).next ≡ h.next) where
  each_phase-next : (l : List ℕ) (h : Store) → (each_phase f l h).next ≡ h.next
  unfolding each_phase
  each_phase-next [] h = refl
  each_phase-next (p ∷ ps) h = each_phase-next ps (f p h) ∙ same p h

module _ (b e : ℕ) (h : Store) where
  insert_with-next : (w : ℕ) → (insert_with b e w h).next ≡ h.next
  unfolding insert_with modify put_succ put_pred
  insert_with-next w =
      each_phase-next (λ s. put_pred s e) (λ p h. refl) (succs (joined b e w h) w) (joined b e w h)
      ∙ each_phase-next (λ p. put_succ p b) (λ p h. refl) (preds (taken b e w h) w) (taken b e w h)

  insert_before-next : (c : ℕ) → (insert_before b e c h).next ≡ h.next
  unfolding insert_before modify put_succ put_pred del_succ
  insert_before-next c =
      each_phase-next (λ p g. put_succ p b (del_succ p c g)) (λ p h. refl) (preds (led b e c h) c)
        (led b e c h)

  insert_after-next : (c : ℕ) → (insert_after b e c h).next ≡ h.next
  unfolding insert_after modify put_succ put_pred del_pred
  insert_after-next c =
      each_phase-next (λ s g. put_pred s e (del_pred s c g)) (λ p h. refl)
        (succs (tailed b e c h) c) (tailed b e c h)

-- The node that `add` makes has no links yet.
module _ (this phase : ℕ) (h : Store) (l : IsLinked h) where
  pub no_successor : (y : ℕ) → follows h h.next y ≡ false
  no_successor y = ground (arith, l.made h.next y)

  pub no_predecessor : (x : ℕ) → follows h x h.next ≡ false
  no_predecessor x = ground (arith, l.made x h.next)

  pub follows-with_leaf : (x y : ℕ) → follows (with_leaf this phase h) x y ≡ follows h x y
  unfolding allocate modify has_key plain_phase
  follows-with_leaf x y = ground (arith, no_successor y)

  pub is_pred-with_leaf : (x y : ℕ) → is_pred (with_leaf this phase h) x y ≡ follows h x y
  unfolding allocate modify has_key plain_phase
  is_pred-with_leaf x y = ground (arith, no_predecessor x, l.agree x y)

  with_leaf-next : (with_leaf this phase h).next ≡ h.next + 1
  unfolding allocate modify
  with_leaf-next = refl

-- Insertion of a node without links keeps the links mirrored.
module _ (n : ℕ) (h : Store) (l : IsLinked h) (n_made : n < h.next)
    (last : (y : ℕ) → follows h n y ≡ false) (first : (x : ℕ) → follows h x n ≡ false) where
  insert_with-IsLinked : (w : ℕ) → w < h.next → w ≢ n → IsLinked (insert_with n n w h)
  insert_with-IsLinked w w_made not_new = record {
    agree = λ a b. ground (
      arith,
      follows-insert_with n n w h not_new not_new a b,
      is_pred-insert_with n n w h not_new not_new a b,
      l.agree a b,
      l.agree a w,
      l.agree w w,
      l.loopless w,
      first a,
      last b,
    );
    loopless = λ a. ground (
      arith,
      follows-insert_with n n w h not_new not_new a a,
      l.loopless a,
      first w,
      last w,
      first a,
      last a,
      l.agree a w,
    );
    made = λ a b. ground (
      arith,
      follows-insert_with n n w h not_new not_new a b,
      insert_with-next n n h w,
      l.made a b,
      l.made w b,
      l.made a w,
      l.agree a w,
    );
  }

  insert_before-IsLinked : (c : ℕ) → c < h.next → c ≢ n → IsLinked (insert_before n n c h)
  insert_before-IsLinked c c_made not_new = record {
    agree = λ a b. ground (
      arith,
      follows-insert_before n n c h not_new a b,
      is_pred-insert_before n n c h not_new a b,
      l.agree a b,
      l.agree a c,
      first a,
      last b,
    );
    loopless = λ a. ground (
      arith,
      follows-insert_before n n c h not_new a a,
      l.loopless a,
      first c,
      last c,
      first a,
      last a,
      l.agree a c,
    );
    made = λ a b. ground (
      arith,
      follows-insert_before n n c h not_new a b,
      insert_before-next n n h c,
      l.made a b,
      l.made a c,
      l.agree a c,
    );
  }

  insert_after-IsLinked : (c : ℕ) → c < h.next → c ≢ n → IsLinked (insert_after n n c h)
  insert_after-IsLinked c c_made not_new = record {
    agree = λ a b. ground (
      arith,
      follows-insert_after n n c h not_new a b,
      is_pred-insert_after n n c h not_new a b,
      l.agree a b,
      l.agree c b,
      first a,
      last b,
    );
    loopless = λ a. ground (
      arith,
      follows-insert_after n n c h not_new a a,
      l.loopless a,
      first c,
      last c,
      first a,
      last a,
    );
    made = λ a b. ground (
      arith,
      follows-insert_after n n c h not_new a b,
      insert_after-next n n h c,
      l.made a b,
      l.made c b,
    );
  }

module _ (this phase w after_phase before_phase : ℕ) (h : Store) (l : IsLinked h)
    (some_this : this ≢ 0) (is_leaf : is_imp (h.phase phase).phase_type ≡ true) where
  abbrev leafed : Store
  leafed = with_leaf this phase h

  with_leaf-IsLinked : IsLinked leafed
  with_leaf-IsLinked = record {
    agree =
        λ a b. follows-with_leaf this phase h l a b ∙ sym (is_pred-with_leaf this phase h l a b);
    loopless = λ a. follows-with_leaf this phase h l a a ∙ l.loopless a;
    made = λ a b.
        ground
          (arith, follows-with_leaf this phase h l a b, l.made a b, with_leaf-next this phase h l);
  }

  pub last : (y : ℕ) → follows leafed h.next y ≡ false
  last y = follows-with_leaf this phase h l h.next y ∙ no_successor this phase h l y

  pub first : (x : ℕ) → follows leafed x h.next ≡ false
  first x = follows-with_leaf this phase h l x h.next ∙ no_predecessor this phase h l x

  pub above : (c : ℕ) → c < h.next → (c < leafed.next) × (c ≢ h.next)
  above c less = ground (arith, with_leaf-next this phase h l)

  neither :
      (after_phase ≡ 0) ⊎ (before_phase ≡ 0)
      → after_phase ≢ 0
      → or_last this w after_phase before_phase h ≢ 0
      → ⊥
  neither (inl z) na nb = na z
  neither (inr z) na nb = nb (ground arith)

  -- Adding a phase implementation to a schedule whose links are mirrored leaves them mirrored, in
  -- parallel, before, after or at the end, wherever it is not asked for both a phase before and a phase
  -- after.
  pub add-IsLinked :
      (h' : Store)
      → w < h.next
      → after_phase < h.next
      → before_phase < h.next
      → (h.phase this).end_node < h.next
      → (after_phase ≡ 0) ⊎ (before_phase ≡ 0)
      → add this phase w after_phase before_phase h ≡ ok h'
      → IsLinked h'
  add-IsLinked h' made_w made_after made_before made_end one q =
      let n_made : h.next < leafed.next = ground (arith, with_leaf-next this phase h l) in
      let c = or_last this w after_phase before_phase h in
      let made_c : c < h.next = ground arith in
      elim (add-Way this phase w after_phase before_phase h h' some_this is_leaf q) [
        | parallel _ e ↦
            let r = above w made_w in
            subst IsLinked (sym e)
              (insert_with-IsLinked h.next leafed with_leaf-IsLinked n_made last first w r.0 r.1)
        | ahead _ _ _ e ↦
            let r = above c made_c in
            subst IsLinked (sym e)
              (insert_before-IsLinked h.next leafed with_leaf-IsLinked n_made last first c r.0 r.1)
        | behind _ _ _ e ↦
            let r = above after_phase made_after in
            subst IsLinked (sym e) (
              insert_after-IsLinked h.next leafed with_leaf-IsLinked n_made last first after_phase
                r.0 r.1)
        | amid _ na nb _ _ ↦ absurd (neither one na nb)
        | apart _ _ _ e ↦ subst IsLinked (sym e) with_leaf-IsLinked
      ]
