-- ===== src/Phase/Clearing.antt =====
-- src/uvmsc/phasing/uvm_phase.cpp: which phases clear_successors clears.
use system_c_uvm.Base.{
  ℕ, zero, suc, ◌<◌, ◌≡◌, ◌≢◌, refl, sym, ◌∙◌, subst, true, ◌==◌, List, [], ◌∷◌, Option, some, ◌⊎◌,
  inl, inr, Bool-cases, arith,
}
use system_c_uvm.Phase.{Store, modify, has_key}
use system_c_uvm.Phase.Search.{succs}
use system_c_uvm.Phase.Jump.{clear_phase, try_each, clear_successors}

-- The phase `j` is reached from `p` along the links, by way of phases other than `end`.
pub data Reaches (next : ℕ → List ℕ) (end : ℕ) (j : ℕ) : ℕ → Type 0 where
  here : j ≢ end → Reaches next end j j
  along :
      {p q : ℕ} → p ≢ end → has_key q (next p) ≡ true → Reaches next end j q → Reaches next end j p

abbrev pub HasLinks : (ℕ → List ℕ) → Store → Type 0
HasLinks next h = (j : ℕ) → succs h j ≡ next j

-- The phases of a set are put into a state, and no others.
pub record Cleared (next : ℕ → List ℕ) (state : ℕ) (chosen : ℕ → Type 0) (h h' : Store)
    : Type 0 where
  pub links : HasLinks next h'
  pub put : (j : ℕ) → chosen j → (h'.phase j).state ≡ state
  pub rest : (j : ℕ) → ((h'.phase j).state ≡ (h.phase j).state) ⊎ chosen j

module _ (next : ℕ → List ℕ) (rank : ℕ → ℕ)
    (falls : (a b : ℕ) → has_key b (next a) ≡ true → rank b < rank a) (state end : ℕ) where
  abbrev pub From : List ℕ → ℕ → Type 0
  From l j = (q : ℕ) × (has_key q l ≡ true) × Reaches next end j q

  abbrev pub Clears : (ℕ → Type 0) → Store → Option Store → Type 0
  Clears chosen h o = (h' : Store) × (o ≡ some h') × Cleared next state chosen h h'

  abbrev Good : (ℕ → Store → Option Store) → ℕ → Type 0
  Good f bound =
      (q : ℕ) (h : Store)
      → rank q < bound
      → HasLinks next h
      → Clears (λ j. Reaches next end j q) h (f q h)

  -- A second clearing leaves what the first has put into the state.
  keep :
      {a b : ℕ → Type 0} {h h₁ h₂ : Store}
      → Cleared next state a h h₁
      → Cleared next state b h₁ h₂
      → (j : ℕ) → a j
      → (h₂.phase j).state ≡ state
  keep {b} {h₁} {h₂} c d j x = after (d.rest j)
    where
      after : ((h₂.phase j).state ≡ (h₁.phase j).state) ⊎ b j → (h₂.phase j).state ≡ state
      after (inl e) = e ∙ c.put j x
      after (inr y) = d.put j y

  neither :
      {a b : ℕ → Type 0} {h h₁ h₂ : Store}
      → Cleared next state a h h₁
      → Cleared next state b h₁ h₂
      → (j : ℕ) → ((h₂.phase j).state ≡ (h.phase j).state) ⊎ (a j ⊎ b j)
  neither {a} {b} {h} {h₁} {h₂} c d j = first (c.rest j) (d.rest j)
    where
      first :
          ((h₁.phase j).state ≡ (h.phase j).state) ⊎ a j
          → ((h₂.phase j).state ≡ (h₁.phase j).state) ⊎ b j
          → ((h₂.phase j).state ≡ (h.phase j).state) ⊎ (a j ⊎ b j)
      first _ (inr y) = inr (inr y)
      first (inr x) (inl _) = inr (inl x)
      first (inl e) (inl f) = inl (f ∙ e)

  two :
      {a b : ℕ → Type 0} {h h₁ h₂ : Store}
      → Cleared next state a h h₁
      → Cleared next state b h₁ h₂
      → Cleared next state (λ j. a j ⊎ b j) h h₂
  two {a} {b} {h} {h₁} {h₂} c d = record { links = d.links; put = both; rest = neither c d }
    where
      both : (j : ℕ) → a j ⊎ b j → (h₂.phase j).state ≡ state
      both j (inl x) = keep c d j x
      both j (inr y) = d.put j y

  widen :
      {a b : ℕ → Type 0} {h h₁ : Store}
      → ((j : ℕ) → a j → b j)
      → ((j : ℕ) → b j → a j)
      → Cleared next state a h h₁
      → Cleared next state b h h₁
  widen {a} {b} {h} {h₁} to from c = record {
    links = c.links;
    put = λ j y. c.put j (from j y);
    rest = λ j. over j (c.rest j);
  }
    where
      over :
          (j : ℕ)
          → ((h₁.phase j).state ≡ (h.phase j).state) ⊎ a j
          → ((h₁.phase j).state ≡ (h.phase j).state) ⊎ b j
      over j (inl e) = inl e
      over j (inr x) = inr (to j x)

  From-cons : (p : ℕ) (ps : List ℕ) (j : ℕ) → Reaches next end j p ⊎ From ps j → From (p ∷ ps) j
  unfolding has_key
  From-cons p ps j (inl r) = (p, ground arith, r)
  From-cons p ps j (inr (q, e, r)) = (q, ground arith, r)

  From-split : (p : ℕ) (ps : List ℕ) (j : ℕ) → From (p ∷ ps) j → Reaches next end j p ⊎ From ps j
  unfolding has_key
  From-split p ps j (q, e, r) = elim (Bool-cases (p == q)) [
    | inl same ↦ inl (subst (Reaches next end j) (ground arith) r)
    | inr other ↦ inr (q, ground arith, r)
  ]

  try_each-Clears :
      (f : ℕ → Store → Option Store) (bound : ℕ)
      → Good f bound
      → (l : List ℕ) (h : Store) → ((q : ℕ) → has_key q l ≡ true → rank q < bound)
      → HasLinks next h
      → Clears (From l) h (try_each f l h)
  unfolding try_each has_key
  try_each-Clears f bound good [] h low links =
      (h, refl, record { links = links; put = λ j x. absurd (cc (x.1)); rest = λ j. inl refl })
  try_each-Clears f bound good (p ∷ ps) h low links =
      let (h₁, e, c) = good p h (low p (ground arith)) links in
      let (h₂, e', d) = try_each-Clears f bound good ps h₁ (λ q x. low q (ground arith)) c.links in
      (h₂, rw (e, try_each) e', widen (From-cons p ps) (From-split p ps) (two c d))

  clear_phase-Cleared :
      (p : ℕ) (h : Store)
      → HasLinks next h
      → Cleared next state (λ j. j ≡ p) h (clear_phase state p h)
  unfolding clear_phase modify
  clear_phase-Cleared p h links = record {
    links = λ j. ground (arith, links j);
    put = λ j e. ground arith;
    rest = λ j. elim (Bool-cases (j == p)) [
      | inl same ↦ inr (ground arith)
      | inr other ↦ inl (ground arith)
    ];
  }

  begins : (p : ℕ) → p ≢ end → (j : ℕ) → (j ≡ p) ⊎ From (next p) j → Reaches next end j p
  begins p np j (inl e) = subst (λ x. Reaches next end j x) e (here (λ q. np (sym e ∙ q)))
  begins p np j (inr (q, e, r)) = along np e r

  split : (p j : ℕ) → Reaches next end j p → (j ≡ p) ⊎ From (next p) j
  split p j (here _) = inl refl
  split p j (along {q} _ e r) = inr (q, e, r)

  apart : (p j : ℕ) → Reaches next end j p → p ≢ end
  apart p j (here n) = n
  apart p j (along n _ _) = n

  -- clear_successors ends in a graph without cycles, given fuel above the rank of its start. It puts the
  -- phases that are reached without meeting the end into the state, and no others.
  pub clear_successors-Clears :
      (fuel p : ℕ) (h : Store)
      → rank p < fuel
      → HasLinks next h
      → Clears (λ j. Reaches next end j p) h (clear_successors fuel state end p h)
  unfolding clear_successors
  clear_successors-Clears zero p h low links = absurd (omega arith)
  clear_successors-Clears (suc fuel) p h low links = elim (Bool-cases (p == end)) [
    | inl stop ↦ (
      h,
      rw stop refl,
      record {
        links = links;
        put = λ j x. absurd (apart p j x (ground arith));
        rest = λ j. inl refl;
      },
    )
    | inr on ↦
        let first = clear_phase-Cleared p h links in
        let good : Good (clear_successors fuel state end) fuel =
          λ q h. clear_successors-Clears fuel q h in
        let (h', e, c) =
          try_each-Clears (clear_successors fuel state end) fuel good (next p)
            (clear_phase state p h) (λ q x. below fuel p q low x) first.links in
        (h', rw (on, links p) e, widen (begins p (ground arith)) (λ j. split p j) (two first c))
  ]
    where
      below : (fuel p q : ℕ) → rank p < suc fuel → has_key q (next p) ≡ true → rank q < fuel
      below fuel p q low x = omega (arith, falls p q x)
