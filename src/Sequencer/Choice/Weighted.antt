-- ===== src/Sequencer/Choice/Weighted.antt =====
-- SEQ_ARB_WEIGHTED in m_choose_next_request of src/uvmsc/seq/uvm_sequencer_base.cpp: the internal
-- error at the end of its loop is not met.
use system_c_uvm.Base.{
  ℕ, ◌+◌, ◌-◌, ◌%◌, ◌^◌, ◌<◌, ◌≤◌, ◌≡◌, refl, ap, ◌∙◌, ◌||◌, ltb, Bool, true, false, if◌then◌else◌,
  ◌==◌, ==_iff, arith, List, [], ◌∷◌, some, Bool-cases, inl, inr, exists, length,
}
use system_c_uvm.Sequencer.{Sequence, Request, arb_weighted}
use system_c_uvm.Sequencer.Arbiter.{
  Run, ok, fatal, ◌>>=◌, add_int, less_int, priority_of, eligible, avail_from, sum_priorities,
  weighted_pick, urandom_range, Chooser, by_mode, none_or_one, choose,
}
use system_c_uvm.Sequencer.Choice.Recheck.{choose-eq}
use system_c_uvm.Sequencer.Choice.Random.{urandom_range-bounds}
use system_c_uvm.Sequencer.Choice.Strict.{illegal, Legal, legal_ok, avail_from-Legal}

-- The priority of a request, where it is legal.
abbrev value : Run ℕ → ℕ
value (ok p) = p
value (fatal e) = 0

abbrev pub weight : Request → ℕ
weight r = value (priority_of r)

abbrev pub weights : List Request → ℕ
weights [] = 0
weights (r ∷ q) = weight r + weights q

abbrev total : List (ℕ × Request) → ℕ
total [] = 0
total (a ∷ l) = weight a.1 + total l

-- Is there no priority, or one of zero?
abbrev pub weightless : Request → Bool
weightless r = illegal r || weight r == 0

avail_from-total :
    (relevant : Sequence → Bool) (locks : List Sequence) (i : ℕ) (q : List Request)
    → total (avail_from relevant locks i q) ≤ weights q
unfolding avail_from
avail_from-total relevant locks i [] = omega arith
avail_from-total relevant locks i (r ∷ q) =
    ground (arith, avail_from-total relevant locks (i + 1) q)

avail_from-positive :
    (relevant : Sequence → Bool) (locks : List Sequence) (i : ℕ) (q : List Request)
    → exists weightless q ≡ false
    → 0 < length (avail_from relevant locks i q)
    → 0 < total (avail_from relevant locks i q)
unfolding avail_from
avail_from-positive relevant locks i [] h n = absurd (omega arith)
avail_from-positive relevant locks i (r ∷ q) h n =
    ground (arith, h, n, avail_from-positive relevant locks (i + 1) q)

weightless-illegal : (q : List Request) → exists weightless q ≡ false → exists illegal q ≡ false
weightless-illegal [] h = refl
weightless-illegal (r ∷ q) h = ground (arith, h, weightless-illegal q)

sum_priorities-total :
    (l : List (ℕ × Request)) → Legal l → total l < 2 ^ 31 → sum_priorities l ≡ ok (total l)
unfolding sum_priorities add_int
sum_priorities-total [] legal small = refl
sum_priorities-total (a ∷ l) legal small =
    let (p, e) = legal_ok (priority_of a.1) (ground (arith, legal)) in
    let here : weight a.1 ≡ p = ap value e in
    let sum : (p + total l) % 2 ^ 32 ≡ weight a.1 + total l = omega (arith, here, small) in
    added a l p e
    ∙ ap (λ rest. rest >>= λ n. ok ((p + n) % 2 ^ 32))
        (sum_priorities-total l (ground (arith, legal)) (omega (arith, small)))
    ∙ ap ok sum
  where
    added :
        (a : ℕ × Request) (l : List (ℕ × Request)) (p : ℕ)
        → priority_of a.1 ≡ ok p
        → sum_priorities (a ∷ l) ≡ (sum_priorities l >>= λ n. ok ((p + n) % 2 ^ 32))
    added a l p e = rw e refl

pick-step :
    (temp sum p : ℕ) (a : ℕ × Request) (l : List (ℕ × Request))
    → priority_of a.1 ≡ ok p
    → temp < 2 ^ 31
    → sum + p < 2 ^ 31
    → weighted_pick temp sum (a ∷ l)
      ≡ (if ltb temp (p + sum) then ok (some a.0) else weighted_pick temp (sum + p) l)
unfolding weighted_pick add_int less_int
pick-step temp sum p a l e low small =
    let left : (temp + 2 ^ 31) % 2 ^ 32 ≡ temp + 2 ^ 31 = omega (arith, low) in
    let next : (sum + p) % 2 ^ 32 ≡ sum + p = omega (arith, small) in
    let right : (p + sum) % 2 ^ 32 ≡ p + sum = omega (arith, small) in
    let test : ltb ((temp + 2 ^ 31) % 2 ^ 32) (((p + sum) % 2 ^ 32 + 2 ^ 31) % 2 ^ 32)
        ≡ ltb temp (p + sum) =
      ground (arith, low, small) in
    here e
    ∙ ap (λ t. if t then ok (some a.0) else weighted_pick temp ((sum + p) % 2 ^ 32) l) test
    ∙ ap (λ k. if ltb temp (p + sum) then ok (some a.0) else weighted_pick temp k l) next
  where
    here :
        priority_of a.1 ≡ ok p
        → weighted_pick temp sum (a ∷ l) ≡ (
            if ltb ((temp + 2 ^ 31) % 2 ^ 32) (((p + sum) % 2 ^ 32 + 2 ^ 31) % 2 ^ 32)
            then ok (some a.0)
            else weighted_pick temp ((sum + p) % 2 ^ 32) l)
    here e = rw e refl

weighted_pick-finds :
    (temp sum : ℕ) (l : List (ℕ × Request))
    → Legal l
    → sum ≤ temp
    → temp < sum + total l
    → sum + total l < 2 ^ 31
    → (n : ℕ) × (weighted_pick temp sum l ≡ ok (some n))
unfolding weighted_pick
weighted_pick-finds temp sum [] legal low high small = absurd (omega arith)
weighted_pick-finds temp sum (a ∷ l) legal low high small =
    let (p, e) = legal_ok (priority_of a.1) (ground (arith, legal)) in
    let here : weight a.1 ≡ p = ap value e in
    let step =
      pick-step temp sum p a l e (omega (arith, high, small)) (omega (arith, here, small)) in
    let other = weighted_pick temp (sum + p) l in
    elim (Bool-cases (ltb temp (p + sum))) [
      | inl b ↦ (a.0, step ∙ ap (λ t. if t then ok (some a.0) else other) b)
      | inr b ↦
          let rest =
            weighted_pick-finds temp (sum + p) l (ground (arith, legal)) (ground (arith, b))
              (omega (arith, here)) (omega (arith, here, small)) in
          (rest.0, step ∙ ap (λ t. if t then ok (some a.0) else other) b ∙ rest.1)
    ]

drawn_one : (rand sum : ℕ) → sum ≡ 1 → urandom_range rand (sum - 1) 0 < sum
unfolding urandom_range
drawn_one rand sum e = ground (arith, e)

avail_from-some :
    (relevant : Sequence → Bool) (locks : List Sequence) (i : ℕ) (q : List Request)
    → exists (eligible relevant locks) q ≡ true
    → 0 < length (avail_from relevant locks i q)
unfolding avail_from
avail_from-some relevant locks i [] h = absurd (ground (arith, h))
avail_from-some relevant locks i (r ∷ q) h =
    ground (arith, h, avail_from-some relevant locks (i + 1) q)

-- The random value that is drawn for a sum of priorities.
abbrev drawn : ℕ → ℕ → ℕ
drawn rand sum = urandom_range rand ((sum + 2 ^ 32 - 1) % 2 ^ 32) 0

drawn-below : (rand sum : ℕ) → 0 < sum → sum < 2 ^ 32 → drawn rand sum < sum
drawn-below rand sum h small =
    let top : (sum + 2 ^ 32 - 1) % 2 ^ 32 ≡ sum - 1 = omega arith in
    elim (Bool-cases (sum == 1)) [
      | inl one ↦ rw top (drawn_one rand sum ((==_iff sum 1).0 one))
      | inr more ↦
          rw top (
            omega (arith, urandom_range-bounds rand (sum - 1) (ground (arith, more)) (omega arith)))
    ]

weighted-finds :
    (rand : ℕ) (user : Chooser) (l : List (ℕ × Request))
    → Legal l
    → 0 < length l
    → 0 < total l
    → total l < 2 ^ 31
    → (n : ℕ) × (none_or_one l (by_mode rand user arb_weighted) ≡ ok (some n))
unfolding by_mode
weighted-finds rand user [] legal some_left positive small = absurd (omega arith)
weighted-finds rand user (a ∷ []) legal some_left positive small = (a.0, refl)
weighted-finds rand user (a ∷ b ∷ l) legal some_left positive small =
    let all = a ∷ b ∷ l in
    let (n, found) =
      weighted_pick-finds (drawn rand (total all)) 0 all legal (omega arith)
        (omega (arith, drawn-below rand (total all) positive (omega (arith, small))))
        (omega (arith, small)) in
    (n, rw (sum_priorities-total all legal small) found)

-- Under SEQ_ARB_WEIGHTED, if every request in the queue has a legal priority above zero and their
-- sum is below 2^31, an index is chosen whenever some request in the queue could be, for every
-- value of `rand()`: the internal error of the loop is not met.
pub choose-weighted_finds :
    (rand : ℕ) (user : Chooser) (relevant : Sequence → Bool) (locks : List Sequence)
    (q : List Request)
    → exists weightless q ≡ false
    → weights q < 2 ^ 31
    → exists (eligible relevant locks) q ≡ true
    → (n : ℕ) × (choose rand user relevant arb_weighted locks q ≡ ok (some n))
choose-weighted_finds rand user relevant locks q positive small h =
    let l = avail_from relevant locks 0 q in
    let first = avail_from-some relevant locks 0 q h in
    rw (choose-eq relevant locks rand user arb_weighted q (λ e. cc)) (
      weighted-finds rand user l
        (avail_from-Legal relevant locks 0 q (weightless-illegal q positive)) first
        (avail_from-positive relevant locks 0 q positive first)
        (omega (arith, avail_from-total relevant locks 0 q)))
