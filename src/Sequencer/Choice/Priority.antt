-- ===== src/Sequencer/Choice/Priority.antt =====
-- Strict priority in m_choose_next_request of src/uvmsc/seq/uvm_sequencer_base.cpp.
use system_c_uvm.Base.{
  ◌⊎◌, sym, ℕ, ◌-◌, ◌≡◌, ◌≤◌, refl, ltb, Bool, true, if◌then◌else◌, ◌==◌, arith, List, [], ◌∷◌,
  ◌++◌, Option, none, some, length, get_elem?, All, Bool-cases, inl, inr, ==_iff, ap, subst, ◌∙◌,
}
use system_c_uvm.Sequencer.{Sequence, Request, Arbitration, arb_strict_fifo, arb_strict_random}
use system_c_uvm.Sequencer.Arbiter.{
  Run, ok, fatal, ◌>>=◌, urandom_range, priority_of, avail_from, highest_loop, at, Chooser, by_mode,
  none_or_one, choose,
}
use system_c_uvm.Sequencer.Choice.{good, OnPick, OnList, All-snoc}
use system_c_uvm.Sequencer.Choice.Modes.{at-Each}
use system_c_uvm.Sequencer.Choice.Recheck.{Entry, avail_from-Entry, avail_from-complete, choose-eq}

-- A priority, or 0 where it is illegal.
abbrev value : Run ℕ → ℕ
value (ok p) = p
value (fatal e) = 0

-- The highest value along the list, from `high` on.
abbrev top : ℕ → List (ℕ × Request) → ℕ
top high [] = high
top high (a ∷ as') =
    top (if ltb high (value (priority_of a.1)) then value (priority_of a.1) else high) as'

top-le : (high : ℕ) (as' : List (ℕ × Request)) → high ≤ top high as'
top-le high [] = omega arith
top-le high (a ∷ as') = ground (arith, top-le high as', top-le (value (priority_of a.1)) as')

top-bounds :
    (high : ℕ) (as' : List (ℕ × Request)) → All (λ a. value (priority_of a.1) ≤ top high as') as'
top-bounds high [] = tt
top-bounds high (a ∷ as') =
    let high' = if ltb high (value (priority_of a.1)) then value (priority_of a.1) else high in
    (ground (arith, top-le high' as'), top-bounds high' as')

module _ (q : List Request) where
  -- An entry of the queue with the priority `p`.
  abbrev Has : ℕ → ℕ × Request → Type 0
  Has p a = (get_elem? q a.0 ≡ some a.1) × (priority_of a.1 ≡ ok p)

  abbrev Found : ℕ × Request → Type 0
  Found a = get_elem? q a.0 ≡ some a.1

  highest_loop-top :
      (high : ℕ) (best as' : List (ℕ × Request))
      → All (Has high) best
      → All Found as'
      → OnList (All (Has (top high as'))) (highest_loop high best as')
  unfolding highest_loop
  highest_loop-top high best [] b f = b
  highest_loop-top high best (a ∷ as') b f =
      go (priority_of a.1) refl (λ n l k. highest_loop-top n l as' k f.1)
    where
      go :
          (r : Run ℕ)
          → priority_of a.1 ≡ r
          → ((n : ℕ) (l : List (ℕ × Request))
              → All (Has n) l
              → OnList (All (Has (top n as'))) (highest_loop n l as'))
          → OnList (All (Has (top (if ltb high (value r) then value r else high) as'))) (
              r >>= λ p.
              let higher = highest_loop p (a ∷ []) as' in
              let equal = highest_loop high (best ++ a ∷ []) as' in
              let lower = highest_loop high best as' in
              if ltb high p then higher else if p == high then equal else lower)
      go (fatal e) eq ih = tt
      go (ok p) eq ih = elim (Bool-cases (ltb high p)) [
        | inl e ↦ rw e (ih p (a ∷ []) ((f.0, eq), tt))
        | inr e ↦ rw e (elim (Bool-cases (p == high)) [
          | inl same ↦ rw same (
              ih high (best ++ a ∷ [])
                (All-snoc (Has high) best a b (f.0, eq ∙ ap ok ((==_iff p high).0 same))))
          | inr other ↦ rw other (ih high best b)
        ])
      ]

-- The legal priority of the request at an index.
abbrev pub priority_at : List Request → ℕ → Option ℕ
priority_at q i = elim (get_elem? q i) [
  | none ↦ none
  | some r ↦ elim (priority_of r) [ ok p ↦ some p | fatal e ↦ none ]
]

-- No request that could be chosen has a higher priority than the one at the index.
abbrev pub NoHigher : (Sequence → Bool) → List Sequence → List Request → ℕ → Type 0
NoHigher relevant locks q i =
    (k p p' : ℕ)
    → good relevant locks q k ≡ true
    → priority_at q i ≡ some p
    → priority_at q k ≡ some p'
    → p' ≤ p

OnPick-map :
    (P R : ℕ → Type 0) (x : Run (Option ℕ)) → ((i : ℕ) → P i → R i) → OnPick P x → OnPick R x
OnPick-map P R (ok none) f h = tt
OnPick-map P R (ok (some i)) f h = f i h
OnPick-map P R (fatal e) f h = tt

module _ (q : List Request) where
  Has-priority_at :
      (p : ℕ) (l : List (ℕ × Request)) → All (Has q p) l → All (λ a. priority_at q a.0 ≡ some p) l
  Has-priority_at p [] h = tt
  Has-priority_at p (a ∷ l) h = (ground (arith, h.0), Has-priority_at p l h.1)

  priority_at-bounds :
      (t : ℕ) (l : List (ℕ × Request))
      → All (Found q) l
      → All (λ a. value (priority_of a.1) ≤ t) l
      → All (λ a. (p : ℕ) → priority_at q a.0 ≡ some p → p ≤ t) l
  priority_at-bounds t [] f b = tt
  priority_at-bounds t (a ∷ l) f b =
      ((λ p e. ground (arith, f.0, b.0)), priority_at-bounds t l f.1 b.1)

  best-top :
      (k : List (ℕ × Request) → ℕ) (p : ℕ) (r : Run (List (ℕ × Request)))
      → OnList (All (Has q p)) r
      → OnPick (λ i. priority_at q i ≡ some p) (r >>= λ best. ok (at best (k best)))
  best-top k p (ok l) h = at-Each (λ i. priority_at q i ≡ some p) l (k l) (Has-priority_at p l h)
  best-top k p (fatal e) h = tt

le_of_same : (t p p' : ℕ) (o : Option ℕ) → o ≡ some t → o ≡ some p → p' ≤ t → p' ≤ p
le_of_same t p p' o e e' h = ground arith

le_of_eq : (p p' : ℕ) (o : Option ℕ) → o ≡ some p → o ≡ some p' → p' ≤ p
le_of_eq p p' o e e' = ground arith

module _ (relevant : Sequence → Bool) (locks : List Sequence) (q : List Request) where
  abbrev Complete : List (ℕ × Request) → Type 1
  Complete as' =
      (Q : ℕ → Type 0) (k : ℕ) → All (λ a. Q a.0) as' → good relevant locks q k ≡ true → Q k

  strict-NoHigher :
      (k : List (ℕ × Request) → ℕ) (as' : List (ℕ × Request))
      → All (Found q) as'
      → Complete as'
      → OnPick
          (NoHigher relevant locks q)
          (none_or_one as' (λ l. highest_loop 0 [] l >>= λ best. ok (at best (k best))))
  strict-NoHigher k [] f c = tt
  strict-NoHigher k (a ∷ []) f c = λ j p p' g e e'.
      let same : j ≡ a.0 = c (λ i. i ≡ a.0) j (refl, tt) g in
      let e'' = subst (λ i. priority_at q i ≡ some p') same e' in
      le_of_eq p p' (priority_at q a.0) e e''
  strict-NoHigher k (a ∷ b ∷ as') f c =
      let l = a ∷ b ∷ as' in
      OnPick-map (λ i. priority_at q i ≡ some (top 0 l)) _ _
        (λ i e j p p' g e₁ e₂. le_of_same (top 0 l) p p' (priority_at q i) e e₁ (
          c (λ n. (m : ℕ) → priority_at q n ≡ some m → m ≤ top 0 l) j
            (priority_at-bounds q (top 0 l) l f (top-bounds 0 l)) g p' e₂))
        (best-top q k (top 0 l) (highest_loop 0 [] l) (highest_loop-top q 0 [] l tt f))

  All-Found : (l : List (ℕ × Request)) → All (Entry relevant locks q) l → All (Found q) l
  All-Found [] h = tt
  All-Found (a ∷ l) h = (h.0.0, All-Found l h.1)

choose-NoHigher :
    (rand : ℕ) (user : Chooser) (relevant : Sequence → Bool) (locks : List Sequence)
    (q : List Request)
    → OnPick (NoHigher relevant locks q) (choose rand user relevant arb_strict_fifo locks q)
      × OnPick (NoHigher relevant locks q) (choose rand user relevant arb_strict_random locks q)
unfolding by_mode
choose-NoHigher rand user relevant locks q = (
  rw (choose-eq relevant locks rand user arb_strict_fifo q (λ e. cc))
      (strict-NoHigher relevant locks q (λ l. 0) l f c),
  rw (choose-eq relevant locks rand user arb_strict_random q (λ e. cc))
      (strict-NoHigher relevant locks q (λ l. urandom_range rand (length l - 1) 0) l f c),
)
  where
    l : List (ℕ × Request)
    l = avail_from relevant locks 0 q

    f : All (Found q) l
    f = All-Found relevant locks q l (avail_from-Entry relevant locks q)

    c : Complete relevant locks q l
    c Q k h g = subst Q (omega arith) (avail_from-complete relevant locks Q 0 q k h g)

picked : (P : ℕ → Type 0) (x : Run (Option ℕ)) (i : ℕ) → x ≡ ok (some i) → OnPick P x → P i
picked P x i e = subst (OnPick P) e

-- Under SEQ_ARB_STRICT_FIFO and SEQ_ARB_STRICT_RANDOM no request that could be chosen has a higher
-- priority than the chosen one.
pub choose-strict :
    (rand : ℕ) (user : Chooser) (relevant : Sequence → Bool) (locks : List Sequence)
    (q : List Request) (mode : Arbitration) (i k p p' : ℕ)
    → (mode ≡ arb_strict_fifo) ⊎ (mode ≡ arb_strict_random)
    → choose rand user relevant mode locks q ≡ ok (some i)
    → good relevant locks q k ≡ true
    → priority_at q i ≡ some p
    → priority_at q k ≡ some p'
    → p' ≤ p
choose-strict rand user relevant locks q mode i k p p' (inl strict) e =
    let chosen = ap (λ m. choose rand user relevant m locks q) (sym strict) ∙ e in
    picked (NoHigher relevant locks q) _ i chosen (choose-NoHigher rand user relevant locks q).0 k p
      p'
choose-strict rand user relevant locks q mode i k p p' (inr strict) e =
    let chosen = ap (λ m. choose rand user relevant m locks q) (sym strict) ∙ e in
    picked (NoHigher relevant locks q) _ i chosen (choose-NoHigher rand user relevant locks q).1 k p
      p'
