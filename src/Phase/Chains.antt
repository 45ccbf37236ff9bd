-- ===== src/Phase/Chains.antt =====
-- src/uvmsc/phasing/uvm_phase.cpp: chains of links, and what putting a point into a relation does to them.
use system_c_uvm.Base.{
  ℕ, ◌≡◌, ◌≢◌, ◌↔◌, refl, sym, subst, Bool, true, false, ◌==◌, ◌⊎◌, inl, inr, Bool-cases, arith,
}

pub data Chain (r : ℕ → ℕ → Bool) (a : ℕ) : ℕ → Type 0 where
  edge : {b : ℕ} → r a b ≡ true → Chain r a b
  more : {b c : ℕ} → Chain r a b → r b c ≡ true → Chain r a c

pub Chain-trans : {r : ℕ → ℕ → Bool} {a b c : ℕ} → Chain r a b → Chain r b c → Chain r a c
Chain-trans p (edge e) = more p e
Chain-trans p (more q e) = more (Chain-trans p q) e

-- A point is put into a relation so that it stands in for links, or between points that are linked by
-- chains anyway.
pub record Extends (n : ℕ) (r s : ℕ → ℕ → Bool) : Type 0 where
  pub kept : (x y : ℕ) → r x y ≡ true → (s x y ≡ true) ⊎ ((s x n ≡ true) × (s n y ≡ true))
  pub old : (x y : ℕ) → x ≢ n → y ≢ n → s x y ≡ true → r x y ≡ true
  pub through : (x y : ℕ) → x ≢ n → y ≢ n → s x n ≡ true → s n y ≡ true → Chain r x y
  pub no_loop : s n n ≡ false

module _ (n : ℕ) (r s : ℕ → ℕ → Bool) (ext : Extends n r s) where
  add_link :
      {a b c : ℕ} → Chain s a b → (s b c ≡ true) ⊎ ((s b n ≡ true) × (s n c ≡ true)) → Chain s a c
  add_link p (inl e) = more p e
  add_link p (inr (e, f)) = more (more p e) f

  first_link : {a c : ℕ} → (s a c ≡ true) ⊎ ((s a n ≡ true) × (s n c ≡ true)) → Chain s a c
  first_link (inl e) = edge e
  first_link (inr (e, f)) = more (edge e) f

  Chain-extended : {a b : ℕ} → Chain r a b → Chain s a b
  Chain-extended (edge e) = first_link (ext.kept _ _ e)
  Chain-extended (more p e) = add_link (Chain-extended p) (ext.kept _ _ e)

  -- How a chain gets to the new point.
  Entry : ℕ → Type 0
  Entry a = (p : ℕ) × (p ≢ n) × (s p n ≡ true) × ((a ≡ p) ⊎ Chain r a p)

  leave : {a c : ℕ} → c ≢ n → Entry a → s n c ≡ true → Chain r a c
  unfolding Entry
  leave {c} nc (p, np, e, inl q) f = subst (λ x. Chain r x c) (sym q) (ext.through p c np nc e f)
  leave {c} nc (p, np, e, inr q) f = Chain-trans q (ext.through p c np nc e f)

  Restricted : ℕ → ℕ → Type 0
  Restricted a b = (b ≢ n → Chain r a b) × (b ≡ n → Entry a)

  restricted : {a b : ℕ} → a ≢ n → Chain s a b → Restricted a b
  unfolding Restricted Entry
  restricted {a} {b} na (edge e) =
      (λ nb. edge (ext.old a b na nb e), λ q. (a, na, subst (λ x. s a x ≡ true) q e, inl refl))
  restricted {a} na (more {b} {c} p e) =
      let ih = restricted na p in
      elim (Bool-cases (b == n)) [
        | inl here ↦
            let q : b ≡ n = ground arith in
            let f : s n c ≡ true = subst (λ x. s x c ≡ true) q e in
            (λ nc. leave nc (ih.1 q) f, λ k. absurd (turn f k))
        | inr away ↦
            let nb : b ≢ n = ground arith in
            (
              λ nc. more (ih.0 nb) (ext.old b c nb nc e),
              λ k. (b, nb, subst (λ x. s b x ≡ true) k e, inr (ih.0 nb)),
            )
      ]
    where
      turn : {c : ℕ} → s n c ≡ true → c ≡ n → ⊥
      turn f k = cc (subst (λ x. s n x ≡ true) k f, ext.no_loop)

  pub Chain-iff : {a b : ℕ} → a ≢ n → b ≢ n → Chain r a b ↔ Chain s a b
  unfolding Restricted
  Chain-iff na nb = (Chain-extended, λ p. (restricted na p).0 nb)
