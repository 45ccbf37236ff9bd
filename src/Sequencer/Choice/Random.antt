-- ===== src/Sequencer/Choice/Random.antt =====
-- Random choice in m_choose_next_request of src/uvmsc/seq/uvm_sequencer_base.cpp.
use system_c_uvm.Base.{
  ℕ, zero, suc, ◌+◌, ◌-◌, ◌%◌, ◌^◌, ◌≡◌, ◌≤◌, ◌<◌, refl, Bool, true, false, if◌then◌else◌, arith,
  List, [], ◌∷◌, some, length, All, ap, subst, ◌∙◌, sym,
}
use system_c_uvm.Sequencer.{Sequence, Request, arb_random}
use system_c_uvm.Sequencer.Arbiter.{
  ok, urandom_range, eligible, avail_from, first_from, at, Chooser, by_mode, none_or_one, choose,
}
use system_c_uvm.Sequencer.Choice.{From, avail_from-From, good, first_from-head}
use system_c_uvm.Sequencer.Choice.Recheck.{avail_from-complete, choose-eq}

-- The range of urandom_range from 0 starts at 1.
pub urandom_range-bounds :
    (rand m : ℕ) → 0 < m → m < 2 ^ 32 → (0 < urandom_range rand m 0) × (urandom_range rand m 0 ≤ m)
unfolding urandom_range
urandom_range-bounds rand m h k =
    let e : (m + 2 ^ 32 - 0) % 2 ^ 32 ≡ m = omega arith in
    let l : rand % m < m = grind arith in rw e (ground (arith, l))

at-All :
    (P : ℕ → Type 0) (l : List (ℕ × Request)) (k : ℕ)
    → k < length l
    → All (λ a. P a.0) l
    → (j : ℕ) × (at l k ≡ some j) × P j
at-All P [] k h p = elim h [ ]
at-All P (a ∷ l) zero h p = (a.0, refl, p.0)
at-All P (a ∷ l) (suc k) h p = at-All P l k (omega arith) p.1

at-tail : (a : ℕ × Request) (l : List (ℕ × Request)) (u : ℕ) → 0 < u → at (a ∷ l) u ≡ at l (u - 1)
at-tail a l zero h = elim h [ ]
at-tail a l (suc u) h = let e : suc u - 1 ≡ u = omega arith in rw e refl

module _ (relevant : Sequence → Bool) (locks : List Sequence) where
  From-above :
      (i : ℕ) (q : List Request) (l : List (ℕ × Request))
      → All (From relevant locks (i + 1) q) l
      → All (λ a. i < a.0) l
  From-above i q [] h = tt
  From-above i q (a ∷ l) h = (omega (arith, h.0.0), From-above i q l h.1)

  -- The indexes of the entries rise.
  avail_from-rises :
      (base : ℕ) (q : List Request) (a : ℕ × Request) (l : List (ℕ × Request))
      → avail_from relevant locks base q ≡ a ∷ l
      → All (λ x. a.0 < x.0) l
  unfolding avail_from
  avail_from-rises base [] a l e = cc
  avail_from-rises base (r ∷ q) a l e =
      go (eligible relevant locks r) e (avail_from-rises (base + 1) q a l)
    where
      rest : List (ℕ × Request)
      rest = avail_from relevant locks (base + 1) q

      go :
          (b : Bool)
          → (if b then (base, r) ∷ rest else rest) ≡ a ∷ l
          → (rest ≡ a ∷ l → All (λ x. a.0 < x.0) l)
          → All (λ x. a.0 < x.0) l
      go false e ih = ih e
      go true e ih =
          let p : base ≡ a.0 = cc in
          let s : rest ≡ l = cc in
          subst (λ n. All (λ x. n < x.0) l) p
            (subst (λ m. All (λ x. base < x.0) m) s
              (From-above base q rest (avail_from-From relevant locks (base + 1) q)))

  avail_from-length :
      (base : ℕ) (q : List Request) → length (avail_from relevant locks base q) ≤ length q
  unfolding avail_from
  avail_from-length base [] = omega arith
  avail_from-length base (r ∷ q) = ground (arith, avail_from-length (base + 1) q)

  random-tail :
      (rand i k : ℕ) (user : Chooser) (q : List Request) (l : List (ℕ × Request))
      → avail_from relevant locks 0 q ≡ l
      → length l < 2 ^ 32
      → at l 0 ≡ some i
      → ((Q : ℕ → Type 0) → All (λ a. Q a.0) l → Q k)
      → i < k
      → (j : ℕ) × (none_or_one l (by_mode rand user arb_random) ≡ ok (some j)) × (i < j)
  unfolding by_mode
  random-tail rand i k user q [] e s f c h = cc
  random-tail rand i k user q (a ∷ []) e s f c h =
      let same : k ≡ a.0 = c (λ n. n ≡ a.0) (refl, tt) in absurd (ground (arith, f))
  random-tail rand i k user q (a ∷ b ∷ l) e s f c h =
      let n : ℕ = suc (suc (length l)) - 1 in
      let u = urandom_range rand n 0 in
      let bounds = urandom_range-bounds rand n (omega arith) (omega arith) in
      let (j, found, above) =
        at-All (λ x. a.0 < x) (b ∷ l) (u - 1) (omega arith) (avail_from-rises 0 q a (b ∷ l) e) in
      (j, ap ok (at-tail a (b ∷ l) u bounds.0 ∙ found), ground (arith, above, f))

-- Under SEQ_ARB_RANDOM the first of several requests that could be chosen never is: if one with a
-- higher index could be chosen too, then for every value of `rand()` some request behind the first is.
pub choose-random_starves_first :
    (rand : ℕ) (user : Chooser) (relevant : Sequence → Bool) (locks : List Sequence)
    (q : List Request) (i k : ℕ)
    → length q < 2 ^ 32
    → first_from relevant locks 0 q ≡ some i
    → good relevant locks q k ≡ true
    → i < k
    → (j : ℕ) × (choose rand user relevant arb_random locks q ≡ ok (some j)) × (i < j)
choose-random_starves_first rand user relevant locks q i k s f g h =
    rw (choose-eq relevant locks rand user arb_random q (λ e. cc)) (
      random-tail relevant locks rand i k user q _ refl
        (omega (arith, avail_from-length relevant locks 0 q))
        (sym (first_from-head relevant locks 0 q) ∙ f)
        (λ Q p. subst Q (omega arith) (avail_from-complete relevant locks Q 0 q k p g)) h)
