-- ===== src/Sequencer/Choice/Recheck.antt =====
-- Priorities and random choice in m_choose_next_request of src/uvmsc/seq/uvm_sequencer_base.cpp.
use system_c_uvm.Base.{
  ℕ, zero, suc, ◌+◌, ◌-◌, ◌≡◌, ◌≢◌, refl, Bool, true, false, if◌then◌else◌, ◌==◌, arith, List, [],
  ◌∷◌, Option, some, length, get_elem?, All, Bool-cases, inl, inr, ap,
}
use system_c_uvm.Sequencer.{Sequence, Request, Arbitration, arb_fifo, is_blocked}
use system_c_uvm.Sequencer.Arbiter.{
  Run, eligible, avail_from, unblocked, Chooser, by_mode, none_or_one, choose,
}
use system_c_uvm.Sequencer.Choice.{From, avail_from-From, good}

module _ (relevant : Sequence → Bool) (locks : List Sequence) where
  -- What the entries of avail_sequences are.
  abbrev pub Entry : List Request → ℕ × Request → Type 0
  Entry q a = (get_elem? q a.0 ≡ some a.1) × (is_blocked locks a.1.sequence ≡ false)

  From-Entry : (q : List Request) (a : ℕ × Request) → From relevant locks 0 q a → Entry q a
  From-Entry q a f = let z : a.0 - 0 ≡ a.0 = omega arith in (rw z at f.1, ground (arith, f.2))

  All-Entry :
      (q : List Request) (as' : List (ℕ × Request))
      → All (From relevant locks 0 q) as'
      → All (Entry q) as'
  All-Entry q [] h = tt
  All-Entry q (a ∷ as') h = (From-Entry q a h.0, All-Entry q as' h.1)

  pub avail_from-Entry : (q : List Request) → All (Entry q) (avail_from relevant locks 0 q)
  avail_from-Entry q =
      All-Entry q (avail_from relevant locks 0 q) (avail_from-From relevant locks 0 q)

  unblocked-idle :
      (q : List Request) (as' : List (ℕ × Request)) → All (Entry q) as' → unblocked locks as' ≡ as'
  unfolding unblocked
  unblocked-idle q [] h = refl
  unblocked-idle q (a ∷ as') h = rw h.0.1 (ap (◌∷◌ a) (unblocked-idle q as' h.1))

  -- The second pass drops nothing.
  recheck_idle :
      (q : List Request) (as' : List (ℕ × Request)) (k : List (ℕ × Request) → Run (Option ℕ))
      → All (Entry q) as'
      → none_or_one as' (λ l. if length locks == 0 then k l else none_or_one (unblocked locks l) k)
        ≡ none_or_one as' k
  recheck_idle q [] k h = refl
  recheck_idle q (a ∷ []) k h = refl
  recheck_idle q (a ∷ b ∷ as') k h = elim (Bool-cases (length locks == 0)) [
    | inl e ↦ rw e refl
    | inr e ↦ rw (e, unblocked-idle q (a ∷ b ∷ as') h) refl
  ]

  -- Every request that could be chosen is among the entries.
  pub avail_from-complete :
      (Q : ℕ → Type 0) (base : ℕ) (q : List Request) (k : ℕ)
      → All (λ a. Q a.0) (avail_from relevant locks base q)
      → good relevant locks q k ≡ true
      → Q (base + k)
  unfolding avail_from
  avail_from-complete Q base [] k h g = cc
  avail_from-complete Q base (r ∷ q) zero h g =
      let z : base + 0 ≡ base = omega arith in rw z (rw g at h).0
  avail_from-complete Q base (r ∷ q) (suc k) h g =
      let z : base + suc k ≡ base + 1 + k = omega arith in
      rw z (avail_from-complete Q (base + 1) q k (rest (eligible relevant locks r) h) g)
    where
      rest :
          (b : Bool)
          → All
              (λ a. Q a.0)
              (if b
                then (base, r) ∷ avail_from relevant locks (base + 1) q
                else avail_from relevant locks (base + 1) q)
          → All (λ a. Q a.0) (avail_from relevant locks (base + 1) q)
      rest true h = h.1
      rest false h = h

  pub choose-eq :
      (rand : ℕ) (user : Chooser) (mode : Arbitration) (q : List Request)
      → mode ≢ arb_fifo
      → choose rand user relevant mode locks q
        ≡ none_or_one (avail_from relevant locks 0 q) (by_mode rand user mode)
  unfolding choose
  choose-eq rand user arb_fifo q n = absurd (n refl)
  choose-eq rand user mode q n = recheck_idle q _ (by_mode rand user mode) (avail_from-Entry q)
