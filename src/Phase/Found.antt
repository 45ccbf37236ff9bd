-- ===== src/Phase/Found.antt =====
-- src/uvmsc/phasing/uvm_phase.cpp: what the walks over the graph find, in a graph without cycles.
use system_c_uvm.Base.{
  ℕ, zero, suc, ◌<◌, ◌≡◌, ◌≢◌, refl, ◌∙◌, subst, not, Bool, true, false, ◌==◌, List, [], ◌∷◌,
  Option, some, ◌⊎◌, inl, inr, Bool-cases, arith,
}
use system_c_uvm.Phase.{Store, has_key}
use system_c_uvm.Phase.Search.{
  first_found, walk_along, within, succs, is, m_find_successor, is_before,
}
use system_c_uvm.Phase.Clearing.{Reaches, here, along}

module _ (next : ℕ → List ℕ) (rank : ℕ → ℕ)
    (falls : (a b : ℕ) → has_key b (next a) ≡ true → rank b < rank a)
    (real : (a b : ℕ) → has_key b (next a) ≡ true → b ≢ 0) (hit : ℕ → Bool)
    (scope : ℕ → Option Bool) (all : (p : ℕ) → scope p ≡ some true) where
  -- A phase that passes the test is found among those that are reached, or none of them passes it.
  abbrev pub Finds : (ℕ → Type 0) → Option ℕ → Type 0
  Finds reached o =
      (r : ℕ) × (o ≡ some r)
      × ((r ≢ 0 × (hit r ≡ true) × reached r) ⊎ ((r ≡ 0) × ((j : ℕ) → reached j → hit j ≡ false)))

  abbrev Below : List ℕ → ℕ → Type 0
  Below l j = (q : ℕ) × (has_key q l ≡ true) × Reaches next 0 j q

  first_found-hit :
      (f : ℕ → Option ℕ) (p : ℕ) (ps : List ℕ) (r : ℕ)
      → scope p ≡ some true
      → f p ≡ some r
      → r ≢ 0
      → first_found f scope (p ∷ ps) ≡ some r
  unfolding first_found
  first_found-hit f p ps r a e nr = ground arith

  first_found-miss :
      (f : ℕ → Option ℕ) (p : ℕ) (ps : List ℕ) (r : ℕ)
      → scope p ≡ some true
      → f p ≡ some r
      → r ≡ 0
      → first_found f scope (p ∷ ps) ≡ first_found f scope ps
  unfolding first_found
  first_found-miss f p ps r a e zr = ground arith

  none_of :
      (p : ℕ) (ps : List ℕ)
      → ((j : ℕ) → Reaches next 0 j p → hit j ≡ false)
      → ((j : ℕ) → Below ps j → hit j ≡ false)
      → (j : ℕ) → Below (p ∷ ps) j
      → hit j ≡ false
  unfolding has_key
  none_of p ps nothing nothing' j (q, e, x) = elim (Bool-cases (p == q)) [
    | inl same ↦ nothing j (subst (Reaches next 0 j) (ground arith) x)
    | inr other ↦ nothing' j (q, ground arith, x)
  ]

  pick :
      (f : ℕ → Option ℕ) (p : ℕ) (ps : List ℕ)
      → Finds (λ j. Reaches next 0 j p) (f p)
      → Finds (Below ps) (first_found f scope ps)
      → Finds (Below (p ∷ ps)) (first_found f scope (p ∷ ps))
  unfolding has_key
  pick f p ps (r, e, inl (nr, hr, x)) rest =
      (r, first_found-hit f p ps r (all p) e nr, inl (nr, hr, (p, ground arith, x)))
  pick f p ps (r, e, inr (zr, nothing)) (r', e', inl (nr, hr, (q, m, x))) =
      (r', first_found-miss f p ps r (all p) e zr ∙ e', inl (nr, hr, (q, ground arith, x)))
  pick f p ps (r, e, inr (zr, nothing)) (r', e', inr (zr', nothing')) =
      (r', first_found-miss f p ps r (all p) e zr ∙ e', inr (zr', none_of p ps nothing nothing'))

  first_found-Finds :
      (f : ℕ → Option ℕ) (l : List ℕ)
      → ((q : ℕ) → has_key q l ≡ true → Finds (λ j. Reaches next 0 j q) (f q))
      → Finds (Below l) (first_found f scope l)
  unfolding first_found has_key
  first_found-Finds f [] good = (0, refl, inr (refl, λ j x. absurd (cc (x.1))))
  first_found-Finds f (p ∷ ps) good =
      pick f p ps (good p (ground arith)) (first_found-Finds f ps (λ q x. good q (ground arith)))

  missed :
      (p : ℕ)
      → hit p ≡ false
      → ((j : ℕ) → Below (next p) j → hit j ≡ false)
      → (j : ℕ) → Reaches next 0 j p
      → hit j ≡ false
  missed p np nothing j (here _) = np
  missed p np nothing j (along {q} _ e x) = nothing j (q, e, x)

  deeper :
      (p : ℕ)
      → p ≢ 0
      → hit p ≡ false
      → {o : Option ℕ} → Finds (Below (next p)) o
      → Finds (λ j. Reaches next 0 j p) o
  deeper p nz np (r, e, inl (nr, hr, (q, m, x))) = (r, e, inl (nr, hr, along nz m x))
  deeper p nz np (r, e, inr (zr, nothing)) = (r, e, inr (zr, missed p np nothing))

  -- A walk whose fuel is above the rank of its start ends. It finds a phase that passes the test and
  -- is reached from the start, or NULL, and then no phase that is reached passes the test.
  pub walk_along-Finds :
      (fuel p : ℕ)
      → rank p < fuel
      → p ≢ 0
      → Finds (λ j. Reaches next 0 j p) (walk_along next hit scope fuel p)
  unfolding walk_along
  walk_along-Finds zero p low nz = absurd (omega arith)
  walk_along-Finds (suc fuel) p low nz = elim (Bool-cases (hit p)) [
    | inl found ↦ (p, rw found refl, inl (nz, found, here nz))
    | inr not_yet ↦ rw not_yet (
        deeper p nz not_yet (
          first_found-Finds (walk_along next hit scope fuel) (next p)
            (λ q x. walk_along-Finds fuel q (omega (arith, falls p q x)) (real p q x))))
  ]

module _ (h : Store) (fuel phase this : ℕ) where
  abbrev pub IsAnswered : Type 0
  IsAnswered =
      ((is_before h fuel phase this ≡ some true)
        × phase ≢ 0
        × (is h phase this ≡ false)
        × ((r : ℕ) × (is h phase r ≡ true) × Reaches (succs h) 0 r this))
      ⊎ ((is_before h fuel phase this ≡ some false)
          × ((phase ≡ 0)
              ⊎ (is h phase this ≡ true)
              ⊎ ((j : ℕ) → Reaches (succs h) 0 j this → is h phase j ≡ false)))

module _ (h : Store) (rank : ℕ → ℕ)
    (falls : (a b : ℕ) → has_key b (succs h a) ≡ true → rank b < rank a)
    (real : (a b : ℕ) → has_key b (succs h a) ≡ true → b ≢ 0) (fuel phase this : ℕ)
    (low : rank this < fuel) (some_this : this ≢ 0) where
  is_before-walk_along :
      (r : ℕ)
      → is h phase this ≡ false
      → m_find_successor h fuel phase false this this ≡ some r
      → is_before h fuel phase this ≡ some (not (r == 0))
  unfolding is_before
  is_before-walk_along r away e = ground arith

  Successor : Type 0
  Successor =
      (r : ℕ) × (m_find_successor h fuel phase false this this ≡ some r)
      × ((r ≢ 0 × (is h phase r ≡ true) × Reaches (succs h) 0 r this)
          ⊎ ((r ≡ 0) × ((j : ℕ) → Reaches (succs h) 0 j this → is h phase j ≡ false)))

  successor : (phase == 0) ≡ false → Successor
  unfolding Successor within m_find_successor
  successor some_phase = rw some_phase (
      walk_along-Finds (succs h) rank falls real (is h phase) (within h fuel false this) (λ p. refl)
        fuel this low some_this)

  answered :
      (phase == 0) ≡ false → is h phase this ≡ false → Successor → IsAnswered h fuel phase this
  unfolding Successor
  answered some_phase away (r, e, inl (nr, hr, x)) =
      let yes_it_is : is_before h fuel phase this ≡ some true =
        is_before-walk_along r away e ∙ ground arith in
      inl (yes_it_is, ground (arith, some_phase), away, (r, hr, x))
  answered some_phase away (r, e, inr (zr, nothing)) =
      let not_it : is_before h fuel phase this ≡ some false =
        is_before-walk_along r away e ∙ ground arith in
      inr (not_it, inr (inr nothing))

  at_itself : is h phase this ≡ true → is_before h fuel phase this ≡ some false
  unfolding is_before
  at_itself itself = ground arith

  at_null : (phase == 0) ≡ true → is_before h fuel phase this ≡ some false
  unfolding is_before m_find_successor
  at_null null = ground arith

  -- In a graph without cycles, with fuel above the rank of the phase, `is_before` ends. It says yes exactly
  -- if the phase asked about is not NULL, the phase is not that one, nor a node for it, and a chain of
  -- links leads to one.
  pub is_before_lem : IsAnswered h fuel phase this
  is_before_lem = elim (Bool-cases (phase == 0)) [
    | inl null ↦ inr (at_null null, inl (ground (arith, null)))
    | inr some_phase ↦ elim (Bool-cases (is h phase this)) [
      | inl itself ↦ inr (at_itself itself, inr (inl itself))
      | inr away ↦ answered some_phase away (successor some_phase)
    ]
  ]
