-- ===== src/Phase/Jumped.antt =====
-- src/uvmsc/phasing/uvm_phase.cpp: the states of the phases after a jump.
use system_c_uvm.Base.{
  ℕ, ◌<◌, ◌≡◌, ◌≢◌, sym, ◌∙◌, subst, true, false, ◌==◌, List, some, ◌⊎◌, inl, inr, Bool-cases,
  arith,
}
use system_c_uvm.Phase.{Store, modify, has_key, dormant, done, ended, jumping}
use system_c_uvm.Phase.Jump.{clear_phase, clear_successors, leave_by_jump}
use system_c_uvm.Phase.Clearing.{Reaches, here, HasLinks, Cleared, clear_successors-Clears}

module _ (next : ℕ → List ℕ) (this target : ℕ) (h : Store) where
  -- The phases that the target leads to, and those that come before it.
  abbrev pub Ahead : ℕ → Type 0
  Ahead j = Reaches next 0 j target

  abbrev pub Between : ℕ → Type 0
  Between j = Reaches next target j this

  pub record IsJumped (h' : Store) : Type 0 where
    pub restarted : (j : ℕ) → Ahead j → (h'.phase j).state ≡ dormant
    pub skipped : (j : ℕ) → ¬ Ahead j → Between j → (h'.phase j).state ≡ done
    pub others : (j : ℕ) → ((h'.phase j).state ≡ (h.phase j).state) ⊎ (Ahead j ⊎ Between j)
    pub reset : (h'.phase this).jump_fwd ≡ false

module _ (next : ℕ → List ℕ) (rank : ℕ → ℕ)
    (falls : (a b : ℕ) → has_key b (next a) ≡ true → rank b < rank a) (fuel this target : ℕ)
    (h : Store) (links : HasLinks next h) (enough_this : rank this < fuel)
    (enough_target : rank target < fuel) (to_target : (h.phase this).jump_phase ≡ target)
    (other : this ≢ target) (forward : (h.phase this).jump_fwd ≡ true) where
  abbrev left : Store
  left = clear_phase jumping this (clear_phase ended this h)

  left-links : HasLinks next left
  unfolding clear_phase modify
  left-links j = ground (arith, links j)

  left-state : (j : ℕ) → ((left.phase j).state ≡ (h.phase j).state) ⊎ (j ≡ this)
  unfolding clear_phase modify
  left-state j = elim (Bool-cases (j == this)) [
    | inl same ↦ inr (ground arith)
    | inr away ↦ inl (ground arith)
  ]

  abbrev final : Store → Store
  final h₃ = modify this (λ q. record q { jump_fwd = false; jump_bkwd = false; jump_phase = 0 }) h₃

  final-state : (h₃ : Store) (j : ℕ) → ((final h₃).phase j).state ≡ (h₃.phase j).state
  unfolding modify
  final-state h₃ j = ground arith

  final-reset : (h₃ : Store) → ((final h₃).phase this).jump_fwd ≡ false
  unfolding modify
  final-reset h₃ = ground arith

  skip :
      {c d j : ℕ}
      → ¬ Ahead next this target h j
      → c ≡ done
      → (d ≡ c) ⊎ Ahead next this target h j
      → d ≡ done
  skip na e (inl f) = f ∙ e
  skip na e (inr x) = absurd (na x)

  untouched :
      {a b c d j : ℕ}
      → (d ≡ c) ⊎ Ahead next this target h j
      → (c ≡ b) ⊎ Between next this target h j
      → (b ≡ a) ⊎ (j ≡ this)
      → (d ≡ a) ⊎ (Ahead next this target h j ⊎ Between next this target h j)
  untouched (inr x) _ _ = inr (inl x)
  untouched (inl _) (inr y) _ = inr (inr y)
  untouched (inl p) (inl q) (inl r) = inl (p ∙ q ∙ r)
  untouched (inl _) (inl _) (inr e) =
      inr (inr (subst (λ x. Reaches next target x this) (sym e) (here other)))

  settle :
      {h₂ h₃ : Store}
      → Cleared next done (Between next this target h) left h₂
      → Cleared next dormant (Ahead next this target h) h₂ h₃
      → IsJumped next this target h (final h₃)
  settle {h₂} {h₃} c d = record {
    restarted = λ j a. final-state h₃ j ∙ d.put j a;
    skipped = λ j na b. final-state h₃ j ∙ skip na (c.put j b) (d.rest j);
    others = λ j.
        subst
          (λ v.
            (v ≡ (h.phase j).state) ⊎ (Ahead next this target h j ⊎ Between next this target h j))
          (sym (final-state h₃ j)) (untouched (d.rest j) (c.rest j) (left-state j));
    reset = final-reset h₃;
  }

  leaves :
      (h₂ h₃ : Store)
      → clear_successors fuel done target this left ≡ some h₂
      → clear_successors fuel dormant 0 target h₂ ≡ some h₃
      → leave_by_jump fuel this h ≡ some (final h₃, target)
  unfolding leave_by_jump
  leaves h₂ h₃ e f = ground (arith, to_target)

  -- When a phase that jumps forward in a graph without cycles is left, with fuel above the ranks of both
  -- phases, the target is put into the hopper. The target and all that it leads to are dormant again;
  -- the other phases that are reached from the phase without meeting the target are done, the phase
  -- among them; all others are in the state in which they were.
  pub leave_by_jump-forward :
      (h' : Store) × (leave_by_jump fuel this h ≡ some (h', target))
      × IsJumped next this target h h'
  leave_by_jump-forward =
      let (h₂, e, c) =
        clear_successors-Clears next rank falls done target fuel this left enough_this left-links in
      let (h₃, f, d) =
        clear_successors-Clears next rank falls dormant 0 fuel target h₂ enough_target c.links in
      (final h₃, leaves h₂ h₃ e f, settle c d)
