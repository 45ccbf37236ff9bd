-- ===== src/Phase/Extended.antt =====
-- src/uvmsc/phasing/uvm_phase.cpp: each way of insertion puts the new node into the order of the others.
use system_c_uvm.Base.{ℕ, ◌≡◌, ◌≢◌, sym, ◌∙◌, subst, ◌&&◌, false, ◌==◌, inl, inr, Bool-cases, arith}
use system_c_uvm.Phase.{Store}
use system_c_uvm.Phase.Schedule.{insert_with, insert_before, insert_after, insert_between}
use system_c_uvm.Phase.Links.{follows, is_pred}
use system_c_uvm.Phase.Inserted.{
  follows-insert_with, follows-insert_before, follows-insert_after, follows-insert_between,
}
use system_c_uvm.Phase.Ways.{with_leaf}
use system_c_uvm.Phase.Linked.{
  IsLinked, no_successor, no_predecessor, follows-with_leaf, is_pred-with_leaf,
}
use system_c_uvm.Phase.Chains.{Chain, edge, more, Extends}

module _ (this phase : ℕ) (h : Store) (l : IsLinked h) where
  abbrev new_node : ℕ
  new_node = h.next

  abbrev leafed : Store
  leafed = with_leaf this phase h

  pub plain : (x y : ℕ) → follows leafed x y ≡ follows h x y
  plain = follows-with_leaf this phase h l

  pub mirrored : (x y : ℕ) → is_pred leafed x y ≡ follows h x y
  mirrored = is_pred-with_leaf this phase h l

  pub gone : (x : ℕ) → follows h new_node x ≡ false
  gone = no_successor this phase h l

  pub come : (x : ℕ) → follows h x new_node ≡ false
  come = no_predecessor this phase h l

  pub Extends-with :
      (w : ℕ)
      → w ≢ new_node
      → Extends new_node (follows h) (follows (insert_with new_node new_node w leafed))
  Extends-with w nw =
      let at = λ (x y : ℕ). follows-insert_with new_node new_node w leafed nw nw x y in
      record {
        kept = λ x y e. inl (ground (arith, at x y, plain x y, mirrored x w, gone y));
        old = λ x y nx ny e. ground (arith, at x y, plain x y, mirrored x w);
        through = λ x y nx ny e f.
            more
              (edge {b = w} (ground (arith, at x new_node, plain x new_node, mirrored x w, come x)))
              (ground (arith, at new_node y, plain w y, mirrored new_node w, gone w));
        no_loop =
            ground
              (arith, at new_node new_node, plain w new_node, mirrored new_node w, gone w, come w);
      }

  pub Extends-before :
      (c : ℕ)
      → c ≢ new_node
      → Extends new_node (follows h) (follows (insert_before new_node new_node c leafed))
  Extends-before c nc =
      let at = λ (x y : ℕ). follows-insert_before new_node new_node c leafed nc x y in
      record {
        kept = λ x y e. elim (Bool-cases (c == y)) [
          | inl here ↦ inr (
            ground (arith, at x new_node, plain x y, plain x new_node, mirrored x c, mirrored x y),
            ground (arith, at new_node y, plain new_node y, mirrored new_node c, gone c),
          )
          | inr away ↦ inl (ground (arith, at x y, plain x y))
        ];
        old = λ x y nx ny e. ground (arith, at x y, plain x y, mirrored x c);
        through = λ x y nx ny e f. edge (
            ground (
              arith,
              at x new_node,
              at new_node y,
              plain new_node y,
              plain x new_node,
              mirrored x c,
              mirrored new_node c,
              gone c,
              gone y,
              come x,
            ));
        no_loop = ground (
          arith,
          at new_node new_node,
          plain new_node new_node,
          mirrored new_node c,
          gone c,
          gone new_node,
        );
      }

  pub Extends-after :
      (a : ℕ)
      → a ≢ new_node
      → Extends new_node (follows h) (follows (insert_after new_node new_node a leafed))
  Extends-after a na =
      let at = λ (x y : ℕ). follows-insert_after new_node new_node a leafed na x y in
      record {
        kept = λ x y e. elim (Bool-cases (a == x)) [
          | inl here ↦
              inr
                (ground (arith, at x new_node), ground (arith, at new_node y, plain a y, plain x y))
          | inr away ↦ inl (ground (arith, at x y, plain x y, gone y))
        ];
        old = λ x y nx ny e. ground (arith, at x y, plain x y);
        through = λ x y nx ny e f.
            edge
              (ground (arith, at x new_node, at new_node y, plain a y, plain x new_node, come x));
        no_loop = ground (arith, at new_node new_node, plain a new_node, come a);
      }

  pub Extends-between :
      (a c : ℕ)
      → a ≢ new_node
      → c ≢ new_node
      → follows h c a ≡ false
      → Chain (follows h) a c
      → Extends new_node (follows h) (follows (insert_between new_node new_node a c leafed))
  Extends-between a c na nc back path =
      let at = λ (x y : ℕ). follows-insert_between new_node new_node a c leafed na nc x y in
      record {
        kept = λ x y e. elim (Bool-cases (a == x && c == y)) [
          | inl here ↦ inr (ground (arith, at x new_node), ground (arith, at new_node y))
          | inr away ↦ inl (ground (arith, at x y, plain x y, plain a c))
        ];
        old = λ x y nx ny e. ground (arith, at x y, plain x y);
        through = λ x y nx ny e f.
            let p : a ≡ x = ground (arith, at x new_node, plain x new_node, come x) in
            let q : c ≡ y = ground (arith, at new_node y, plain new_node y, gone y) in
            subst (λ v. Chain (follows h) v y) p (subst (Chain (follows h) a) q path);
        no_loop = ground (arith, at new_node new_node, plain new_node new_node, gone new_node);
      }

  pub Extends-apart : Extends new_node (follows h) (follows leafed)
  Extends-apart = record {
    kept = λ x y e. inl (plain x y ∙ e);
    old = λ x y nx ny e. sym (plain x y) ∙ e;
    through = λ x y nx ny e f. absurd (ground (arith, plain x new_node, come x));
    no_loop = plain new_node new_node ∙ gone new_node;
  }
