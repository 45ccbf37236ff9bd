-- ===== src/Sequencer/Choice/Modes.antt =====
-- What m_choose_next_request of src/uvmsc/seq/uvm_sequencer_base.cpp chooses, in every mode.
use system_c_uvm.Base.{
  Option-cases, ℕ, zero, suc, ◌-◌, ◌≡◌, ◌<◌, ltb, Bool, true, false, if◌then◌else◌, ◌==◌, arith,
  List, [], ◌∷◌, ◌++◌, Option, some, exists, length, map, All, Bool-cases, inl, inr, ==_iff, ap,
  subst,
}
use system_c_uvm.Sequencer.{
  Sequence, Request, Arbitration, arb_fifo, arb_weighted, arb_random, arb_strict_fifo,
  arb_strict_random, arb_user, is_blocked,
}
use system_c_uvm.Sequencer.Arbiter.{
  Run, ok, fatal, ◌>>=◌, urandom_range, priority_of, eligible, avail_from, first_from, unblocked,
  add_int, less_int, sum_priorities, weighted_pick, highest_loop, at, Chooser, by_mode, none_or_one,
  choose,
}
use system_c_uvm.Sequencer.Choice.{
  good, OnPick, OnList, All-snoc, avail_from-good, first_from-head, first_from-before,
  first_from-none,
}

-- The choices by mode keep to the list of available entries.
module _ (P : ℕ → Type 0) where
  abbrev Each : List (ℕ × Request) → Type 0
  Each = All (λ a. P a.0)

  pub at-Each : (as' : List (ℕ × Request)) (k : ℕ) → Each as' → OnPick P (ok (at as' k))
  at-Each [] k h = tt
  at-Each (a ∷ as') zero h = h.0
  at-Each (a ∷ as') (suc k) h = at-Each as' k h.1

  pub unblocked-Each :
      (locks : List Sequence) (as' : List (ℕ × Request)) → Each as' → Each (unblocked locks as')
  unfolding unblocked
  unblocked-Each locks [] h = tt
  unblocked-Each locks (a ∷ as') h = elim (Bool-cases (is_blocked locks a.1.sequence)) [
    | inl e ↦ rw e (unblocked-Each locks as' h.1)
    | inr e ↦ rw e (h.0, unblocked-Each locks as' h.1)
  ]

  weighted_pick-Each :
      (temp sum : ℕ) (as' : List (ℕ × Request)) → Each as' → OnPick P (weighted_pick temp sum as')
  unfolding weighted_pick
  weighted_pick-Each temp sum [] h = tt
  weighted_pick-Each temp sum (a ∷ as') h =
      go (priority_of a.1) (λ s. weighted_pick-Each temp s as' h.1)
    where
      go :
          (r : Run ℕ)
          → ((s : ℕ) → OnPick P (weighted_pick temp s as'))
          → OnPick P (
              r >>= λ p.
              let rest = weighted_pick temp (add_int sum p) as' in
              if less_int temp (add_int p sum) then ok (some a.0) else rest)
      go (fatal e) ih = tt
      go (ok p) ih = elim (Bool-cases (less_int temp (add_int p sum))) [
        | inl e ↦ rw e h.0
        | inr e ↦ rw e (ih (add_int sum p))
      ]

  highest_loop-Each :
      (high : ℕ) (best as' : List (ℕ × Request))
      → Each best
      → Each as'
      → OnList Each (highest_loop high best as')
  unfolding highest_loop
  highest_loop-Each high best [] b h = b
  highest_loop-Each high best (a ∷ as') b h =
      go (priority_of a.1) (λ n l k. highest_loop-Each n l as' k h.1)
    where
      go :
          (r : Run ℕ)
          → ((n : ℕ) (l : List (ℕ × Request)) → Each l → OnList Each (highest_loop n l as'))
          → OnList Each (
              r >>= λ p.
              let higher = highest_loop p (a ∷ []) as' in
              let equal = highest_loop high (best ++ a ∷ []) as' in
              let lower = highest_loop high best as' in
              if ltb high p then higher else if p == high then equal else lower)
      go (fatal e) ih = tt
      go (ok p) ih = elim (Bool-cases (ltb high p)) [
        | inl e ↦ rw e (ih p (a ∷ []) (h.0, tt))
        | inr e ↦ rw e (elim (Bool-cases (p == high)) [
          | inl f ↦ rw f (ih high (best ++ a ∷ []) (All-snoc (λ a. P a.0) best a b h.0))
          | inr f ↦ rw f (ih high best b)
        ])
      ]

  -- What a list of best entries leads to.
  best-Each :
      (k : List (ℕ × Request) → ℕ) (r : Run (List (ℕ × Request)))
      → OnList Each r
      → OnPick P (r >>= λ best. ok (at best (k best)))
  best-Each k (ok l) h = at-Each l (k l) h
  best-Each k (fatal e) h = tt

  sum-Each : (f : ℕ → Run (Option ℕ)) (r : Run ℕ) → ((n : ℕ) → OnPick P (f n)) → OnPick P (r >>= f)
  sum-Each f (ok n) h = h n
  sum-Each f (fatal e) h = tt

  exists-Each :
      (i : ℕ) (as' : List (ℕ × Request))
      → Each as'
      → exists (λ (a : ℕ × Request). a.0 == i) as' ≡ true
      → P i
  exists-Each i [] h e = cc
  exists-Each i (a ∷ as') h e = elim (Bool-cases (a.0 == i)) [
    | inl hit ↦ subst P ((==_iff a.0 i).0 hit) h.0
    | inr miss ↦ exists-Each i as' h.1 (ground arith)
  ]

  by_mode-Each :
      (rand : ℕ) (user : Chooser) (mode : Arbitration) (as' : List (ℕ × Request))
      → Each as'
      → OnPick P (by_mode rand user mode as')
  unfolding by_mode
  by_mode-Each rand user arb_fifo as' h = tt
  by_mode-Each rand user arb_weighted as' h =
      sum-Each _ (sum_priorities as') (λ n. weighted_pick-Each _ 0 as' h)
  by_mode-Each rand user arb_random as' h = at-Each as' _ h
  by_mode-Each rand user arb_strict_fifo as' h =
      best-Each (λ l. 0) (highest_loop 0 [] as') (highest_loop-Each 0 [] as' tt h)
  by_mode-Each rand user arb_strict_random as' h =
      best-Each (λ l. urandom_range rand (length l - 1) 0) (highest_loop 0 [] as')
        (highest_loop-Each 0 [] as' tt h)
  by_mode-Each rand user arb_user as' h =
      let i = user (map (λ (a : ℕ × Request). a.0) as') in
      elim (Bool-cases (exists (λ (a : ℕ × Request). a.0 == i) as')) [
        | inl e ↦ rw e (exists-Each i as' h e)
        | inr e ↦ rw e tt
      ]

  none_or_one-Each :
      (as' : List (ℕ × Request)) (k : List (ℕ × Request) → Run (Option ℕ))
      → Each as'
      → ((l : List (ℕ × Request)) → Each l → OnPick P (k l))
      → OnPick P (none_or_one as' k)
  none_or_one-Each [] k h f = tt
  none_or_one-Each (a ∷ []) k h f = h.0
  none_or_one-Each (a ∷ b ∷ as') k h f = f (a ∷ b ∷ as') h

  later-Each :
      (rand : ℕ) (user : Chooser) (mode : Arbitration) (locks : List Sequence)
      (as' : List (ℕ × Request))
      → Each as'
      → OnPick P (
          none_or_one as' λ l.
            if length locks == 0
            then by_mode rand user mode l
            else none_or_one (unblocked locks l) (by_mode rand user mode))
  later-Each rand user mode locks as' h = none_or_one-Each as' _ h λ l hl.
      elim (Bool-cases (length locks == 0)) [
        | inl e ↦ rw e (by_mode-Each rand user mode l hl)
        | inr e ↦ rw e (
            none_or_one-Each (unblocked locks l) _ (unblocked-Each locks l hl)
              (by_mode-Each rand user mode))
      ]

-- In every arbitration mode, whatever the random values and a user's own choice are, the index that
-- is chosen is that of a request for an item, in the queue, whose sequence is not blocked and says
-- that it is relevant.
pub choose-good :
    (rand : ℕ) (user : Chooser) (relevant : Sequence → Bool) (mode : Arbitration)
    (locks : List Sequence) (q : List Request)
    → OnPick (λ i. good relevant locks q i ≡ true) (choose rand user relevant mode locks q)
unfolding choose
choose-good rand user relevant arb_fifo locks q =
    rw (first_from-head relevant locks 0 q)
      (at-Each (λ i. good relevant locks q i ≡ true) _ 0 (avail_from-good relevant locks q))
choose-good rand user relevant mode locks q =
    later-Each (λ i. good relevant locks q i ≡ true) rand user mode locks
      (avail_from relevant locks 0 q) (avail_from-good relevant locks q)

-- Under SEQ_ARB_FIFO no request ahead of the chosen one could have been chosen.
pub choose-fifo :
    (rand : ℕ) (user : Chooser) (relevant : Sequence → Bool) (locks : List Sequence)
    (q : List Request) (n k : ℕ)
    → choose rand user relevant arb_fifo locks q ≡ ok (some n)
    → k < n
    → good relevant locks q k ≡ false
unfolding choose
choose-fifo rand user relevant locks q n k e h =
    first_from-before relevant locks 0 q k n (cc) (omega arith)

-- Under SEQ_ARB_FIFO an index is chosen whenever some request in the queue could be.
pub choose-fifo_finds :
    (rand : ℕ) (user : Chooser) (relevant : Sequence → Bool) (locks : List Sequence)
    (q : List Request)
    → exists (eligible relevant locks) q ≡ true
    → (n : ℕ) × (choose rand user relevant arb_fifo locks q ≡ ok (some n))
unfolding choose
choose-fifo_finds rand user relevant locks q h =
    elim (Option-cases (first_from relevant locks 0 q)) [
      | inl e ↦ absurd (ground (arith, h, first_from-none relevant locks 0 q e))
      | inr f ↦ (f.0, ap ok f.1)
    ]
