-- ===== src/Sequencer/Choice/Strict.antt =====
-- SEQ_ARB_STRICT_FIFO in m_choose_next_request of src/uvmsc/seq/uvm_sequencer_base.cpp: a choice is
-- made whenever one can be.
use system_c_uvm.Base.{
  ℕ, ◌+◌, ◌<◌, ◌≡◌, refl, sym, ap, ◌∙◌, ltb, Bool, true, false, if◌then◌else◌, ◌==◌, arith, List,
  [], ◌∷◌, ◌++◌, some, Option-cases, inl, inr, exists, length, length-append,
}
use system_c_uvm.Sequencer.{Sequence, Request, arb_strict_fifo}
use system_c_uvm.Sequencer.Arbiter.{
  Run, ok, fatal, priority_of, eligible, avail_from, first_from, highest_loop, at, Chooser, by_mode,
  none_or_one, choose,
}
use system_c_uvm.Sequencer.Choice.{first_from-head, first_from-none}
use system_c_uvm.Sequencer.Choice.Recheck.{choose-eq}

-- Does the priority of the request lead to a fatal report?
abbrev is_fatal : Run ℕ → Bool
is_fatal (ok p) = false
is_fatal (fatal e) = true

abbrev pub illegal : Request → Bool
illegal r = is_fatal (priority_of r)

abbrev pub Legal : List (ℕ × Request) → Type 0
Legal l = exists (λ (a : ℕ × Request). illegal a.1) l ≡ false

pub legal_ok : (x : Run ℕ) → is_fatal x ≡ false → (p : ℕ) × (x ≡ ok p)
legal_ok (ok p) h = (p, refl)
legal_ok (fatal e) h = absurd (ground (arith, h))

pub avail_from-Legal :
    (relevant : Sequence → Bool) (locks : List Sequence) (i : ℕ) (q : List Request)
    → exists illegal q ≡ false
    → Legal (avail_from relevant locks i q)
unfolding avail_from
avail_from-Legal relevant locks i [] h = refl
avail_from-Legal relevant locks i (r ∷ q) h =
    ground (arith, h, avail_from-Legal relevant locks (i + 1) q)

-- The loop returns a list that is not empty.
abbrev Found : Run (List (ℕ × Request)) → Type 0
Found x = (l : List (ℕ × Request)) × (x ≡ ok l) × (0 < length l)

Found-if :
    (b : Bool) (x y : Run (List (ℕ × Request)))
    → (b ≡ true → Found x)
    → (b ≡ false → Found y)
    → Found (if b then x else y)
Found-if true x y h k = h refl
Found-if false x y h k = k refl

highest_loop-Found :
    (as' : List (ℕ × Request)) (high : ℕ) (best : List (ℕ × Request))
    → Legal as'
    → 0 < length best
    → Found (highest_loop high best as')
unfolding highest_loop
highest_loop-Found [] high best legal h = (best, refl, h)
highest_loop-Found (a ∷ as') high best legal h =
    let (p, e) = legal_ok (priority_of a.1) (ground (arith, legal)) in
    let rest : Legal as' = ground (arith, legal) in
    rw e (
      Found-if (ltb high p) _ _ (λ _. highest_loop-Found as' p (a ∷ []) rest (omega arith))
        λ _.
          Found-if (p == high) _ _
            (λ _.
              highest_loop-Found as' high (best ++ a ∷ []) rest
                (omega (arith, length-append best (a ∷ []))))
            (λ _. highest_loop-Found as' high best rest h))

highest_loop-starts :
    (a : ℕ × Request) (as' : List (ℕ × Request))
    → Legal (a ∷ as')
    → Found (highest_loop 0 [] (a ∷ as'))
unfolding highest_loop
highest_loop-starts a as' legal =
    let (p, e) = legal_ok (priority_of a.1) (ground (arith, legal)) in
    let rest : Legal as' = ground (arith, legal) in
    rw e (
      Found-if (ltb 0 p) _ _ (λ _. highest_loop-Found as' p (a ∷ []) rest (omega arith))
        λ low.
          Found-if (p == 0) _ _ (λ _. highest_loop-Found as' 0 (a ∷ []) rest (omega arith))
            (λ high. absurd (ground (arith, low, high))))

at_first : (l : List (ℕ × Request)) → 0 < length l → (n : ℕ) × (at l 0 ≡ some n)
at_first [] h = absurd (omega arith)
at_first (a ∷ l) h = (a.0, refl)

strict-finds :
    (rand : ℕ) (user : Chooser) (l : List (ℕ × Request))
    → Legal l
    → (i : ℕ) × (at l 0 ≡ some i)
    → (n : ℕ) × (none_or_one l (by_mode rand user arb_strict_fifo) ≡ ok (some n))
unfolding by_mode
strict-finds rand user [] legal h = absurd (ground (arith, h.1))
strict-finds rand user (a ∷ []) legal h = (a.0, refl)
strict-finds rand user (a ∷ b ∷ l) legal h =
    let (best, e, some_best) = highest_loop-starts a (b ∷ l) legal in
    let (n, first) = at_first best some_best in (n, rw e (ap ok first))

-- Under SEQ_ARB_STRICT_FIFO, if no priority in the queue leads to a fatal report, an index is chosen
-- whenever some request in the queue could be.
pub choose-strict_finds :
    (rand : ℕ) (user : Chooser) (relevant : Sequence → Bool) (locks : List Sequence)
    (q : List Request)
    → exists illegal q ≡ false
    → exists (eligible relevant locks) q ≡ true
    → (n : ℕ) × (choose rand user relevant arb_strict_fifo locks q ≡ ok (some n))
choose-strict_finds rand user relevant locks q legal h =
    let l = avail_from relevant locks 0 q in
    let first : (i : ℕ) × (at l 0 ≡ some i) = elim (Option-cases (first_from relevant locks 0 q)) [
      | inl e ↦ absurd (ground (arith, h, first_from-none relevant locks 0 q e))
      | inr f ↦ (f.0, sym (first_from-head relevant locks 0 q) ∙ f.1)
    ] in
    rw (choose-eq relevant locks rand user arb_strict_fifo q (λ e. cc))
      (strict-finds rand user l (avail_from-Legal relevant locks 0 q legal) first)
