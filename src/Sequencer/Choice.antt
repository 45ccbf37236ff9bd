-- ===== src/Sequencer/Choice.antt =====
-- Which request m_choose_next_request of src/uvmsc/seq/uvm_sequencer_base.cpp chooses.
pub mod Modes
pub mod Recheck
pub mod Priority
pub mod Strict
pub mod Weighted
pub mod Random
use system_c_uvm.Base.{
  ℕ, zero, suc, ◌+◌, ◌-◌, ◌%◌, ◌^◌, ◌≡◌, ◌≢◌, ◌≤◌, ◌<◌, refl, ◌&&◌, ◌||◌, not, ltb, leb, Bool, true,
  false, if◌then◌else◌, ◌==◌, String, arith, List, [], ◌∷◌, ◌++◌, Option, none, some, exists,
  length, get_elem?, map, All, Bool-cases, inl, inr, ==_iff, ap, subst,
}
use system_c_uvm.Sequencer.{
  Sequence, Request, Arbitration, arb_fifo, arb_weighted, arb_random, arb_strict_fifo,
  arb_strict_random, arb_user, Sequencer, is_blocked, is_req,
}
use system_c_uvm.Sequencer.Arbiter.{
  Run, ok, fatal, ◌>>=◌, urandom_range, priority_of, eligible, avail_from, first_from, unblocked,
  sum_priorities, weighted_pick, highest_loop, at, Chooser, by_mode, none_or_one, choose,
}

-- Is there an eligible request at the index?
abbrev pub good : (Sequence → Bool) → List Sequence → List Request → ℕ → Bool
good relevant locks q i = elim (get_elem? q i) [ none ↦ false | some r ↦ eligible relevant locks r ]

-- What holds of a chosen index, if there is one.
abbrev pub OnPick : (ℕ → Type 0) → Run (Option ℕ) → Type 0
OnPick P (ok none) = Unit
OnPick P (ok (some i)) = P i
OnPick P (fatal e) = Unit

abbrev pub OnList {κ} : (List (ℕ × Request) → Type κ) → Run (List (ℕ × Request)) → Type κ
OnList P (ok l) = P l
OnList P (fatal e) = Unit

pub All-snoc {ℓ κ} :
    {A : Type ℓ} (P : A → Type κ) (xs : List A) (x : A) → All P xs → P x → All P (xs ++ x ∷ [])
All-snoc P [] x h p = (p, tt)
All-snoc P (y ∷ ys) x h p = (h.0, All-snoc P ys x h.1 p)

module _ (relevant : Sequence → Bool) (locks : List Sequence) where
  -- An entry of avail_sequences that was found from the index `i` on, in the list `q`.
  abbrev pub From : ℕ → List Request → ℕ × Request → Type 0
  From i q a = (i ≤ a.0) × (get_elem? q (a.0 - i) ≡ some a.1) × (eligible relevant locks a.1 ≡ true)

  From-cons :
      (i : ℕ) (r : Request) (q : List Request) (a : ℕ × Request)
      → From (i + 1) q a
      → From i (r ∷ q) a
  From-cons i r q a f =
      let e : a.0 - i ≡ suc (a.0 - (i + 1)) = omega arith in (omega arith, rw e f.1, f.2)

  All-From-cons :
      (i : ℕ) (r : Request) (q : List Request) (as' : List (ℕ × Request))
      → All (From (i + 1) q) as'
      → All (From i (r ∷ q)) as'
  All-From-cons i r q [] h = tt
  All-From-cons i r q (a ∷ as') h = (From-cons i r q a h.0, All-From-cons i r q as' h.1)

  pub avail_from-From : (i : ℕ) (q : List Request) → All (From i q) (avail_from relevant locks i q)
  unfolding avail_from
  avail_from-From i [] = tt
  avail_from-From i (r ∷ q) =
      let rest =
        All-From-cons i r q (avail_from relevant locks (i + 1) q) (avail_from-From (i + 1) q) in
      let z : i - i ≡ 0 = omega arith in
      elim (Bool-cases (eligible relevant locks r)) [
        | inl e ↦ rw e ((omega arith, rw z refl, e), rest)
        | inr e ↦ rw e rest
      ]

  From-good : (q : List Request) (a : ℕ × Request) → From 0 q a → good relevant locks q a.0 ≡ true
  From-good q a f =
      let z : a.0 - 0 ≡ a.0 = omega arith in
      let p : get_elem? q a.0 ≡ some a.1 = rw z at f.1 in ground (arith, p, f.2)

  All-From-good :
      (q : List Request) (as' : List (ℕ × Request))
      → All (From 0 q) as'
      → All (λ a. good relevant locks q a.0 ≡ true) as'
  All-From-good q [] h = tt
  All-From-good q (a ∷ as') h = (From-good q a h.0, All-From-good q as' h.1)

  pub avail_from-good :
      (q : List Request)
      → All (λ a. good relevant locks q a.0 ≡ true) (avail_from relevant locks 0 q)
  avail_from-good q = All-From-good q (avail_from relevant locks 0 q) (avail_from-From 0 q)

  pub first_from-head :
      (i : ℕ) (q : List Request)
      → first_from relevant locks i q ≡ at (avail_from relevant locks i q) 0
  unfolding first_from avail_from
  first_from-head i [] = refl
  first_from-head i (r ∷ q) = elim (Bool-cases (eligible relevant locks r)) [
    | inl e ↦ rw e refl
    | inr e ↦ rw e (first_from-head (i + 1) q)
  ]

  pub first_from-before :
      (i : ℕ) (q : List Request) (k n : ℕ)
      → first_from relevant locks i q ≡ some n
      → i + k < n
      → good relevant locks q k ≡ false
  unfolding first_from
  first_from-before i [] k n e h = cc
  first_from-before i (r ∷ q) zero n e h = ground arith
  first_from-before i (r ∷ q) (suc k) n e h = ground (arith, first_from-before (i + 1) q k n)

  pub first_from-none :
      (i : ℕ) (q : List Request)
      → first_from relevant locks i q ≡ none
      → exists (eligible relevant locks) q ≡ false
  unfolding first_from
  first_from-none i [] e = refl
  first_from-none i (r ∷ q) e = ground (arith, first_from-none (i + 1) q)
