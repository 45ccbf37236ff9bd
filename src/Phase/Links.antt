-- ===== src/Phase/Links.antt =====
-- src/uvmsc/phasing/uvm_phase.cpp: what the ways of insertion do to the links between phases. `Follows h a b` says that b
-- is a successor of a, `Precedes h a b` that a is a predecessor of b.
use system_c_uvm.Base.{
  ℕ, ◌≡◌, refl, ◌∙◌, ◌&&◌, ◌||◌, not, Bool, if◌then◌else◌, ◌==◌, List, [], ◌∷◌, ◌++◌, arith,
}
use system_c_uvm.Phase.{
  Store, modify, has_key, put_key, remove_key, put_succ, put_pred, del_succ, del_pred,
}
use system_c_uvm.Phase.Search.{preds, succs}
use system_c_uvm.Phase.Schedule.{each_phase}

abbrev pub follows : Store → ℕ → ℕ → Bool
follows h a b = has_key b (succs h a)

abbrev pub is_pred : Store → ℕ → ℕ → Bool
is_pred h a b = has_key a (preds h b)

has_key-append : (j k : ℕ) (xs : List ℕ) → has_key j (xs ++ k ∷ []) ≡ (has_key j xs || k == j)
unfolding has_key
has_key-append j k [] = ground arith
has_key-append j k (x ∷ xs) = ground (arith, has_key-append j k xs)

has_key-put_key : (j k : ℕ) (xs : List ℕ) → has_key j (put_key k xs) ≡ (k == j || has_key j xs)
unfolding put_key
has_key-put_key j k xs = ground (arith, has_key-append j k xs)

has_key-remove_key :
    (j k : ℕ) (xs : List ℕ) → has_key j (remove_key k xs) ≡ (has_key j xs && not (k == j))
unfolding has_key remove_key
has_key-remove_key j k [] = refl
has_key-remove_key j k (x ∷ xs) = ground (arith, has_key-remove_key j k xs)

module _ (h : Store) (a b x y : ℕ) where
  pub follows-put_succ : follows (put_succ a b h) x y ≡ (follows h x y || (x == a && b == y))
  unfolding put_succ modify
  follows-put_succ = ground (arith, has_key-put_key y b (succs h x))

  pub is_pred-put_succ : is_pred (put_succ a b h) x y ≡ is_pred h x y
  unfolding put_succ modify
  is_pred-put_succ = ground arith

  pub follows-del_succ : follows (del_succ a b h) x y ≡ (follows h x y && not (x == a && b == y))
  unfolding del_succ modify
  follows-del_succ = ground (arith, has_key-remove_key y b (succs h x))

  pub is_pred-del_succ : is_pred (del_succ a b h) x y ≡ is_pred h x y
  unfolding del_succ modify
  is_pred-del_succ = ground arith

  pub follows-put_pred : follows (put_pred a b h) x y ≡ follows h x y
  unfolding put_pred modify
  follows-put_pred = ground arith

  pub is_pred-put_pred : is_pred (put_pred a b h) x y ≡ (is_pred h x y || (y == a && b == x))
  unfolding put_pred modify
  is_pred-put_pred = ground (arith, has_key-put_key x b (preds h y))

  pub follows-del_pred : follows (del_pred a b h) x y ≡ follows h x y
  unfolding del_pred modify
  follows-del_pred = ground arith

  pub is_pred-del_pred : is_pred (del_pred a b h) x y ≡ (is_pred h x y && not (y == a && b == x))
  unfolding del_pred modify
  is_pred-del_pred = ground (arith, has_key-remove_key x b (preds h y))

-- The loops. A link is made, at every phase of the list,
module _ (n x y : ℕ) where
  pub follows-join :
      (l : List ℕ) (h : Store)
      → follows (each_phase (λ p. put_succ p n) l h) x y
        ≡ (follows h x y || (has_key x l && n == y))
  unfolding each_phase has_key
  follows-join [] h = ground arith
  follows-join (p ∷ ps) h =
      ground (arith, follows-join ps (put_succ p n h), follows-put_succ h p n x y)

  pub is_pred-join :
      (l : List ℕ) (h : Store) → is_pred (each_phase (λ p. put_succ p n) l h) x y ≡ is_pred h x y
  unfolding each_phase
  is_pred-join [] h = refl
  is_pred-join (p ∷ ps) h = is_pred-join ps (put_succ p n h) ∙ is_pred-put_succ h p n x y

  pub follows-lead :
      (l : List ℕ) (h : Store) → follows (each_phase (λ s. put_pred s n) l h) x y ≡ follows h x y
  unfolding each_phase
  follows-lead [] h = refl
  follows-lead (p ∷ ps) h = follows-lead ps (put_pred p n h) ∙ follows-put_pred h p n x y

  pub is_pred-lead :
      (l : List ℕ) (h : Store)
      → is_pred (each_phase (λ s. put_pred s n) l h) x y
        ≡ (is_pred h x y || (has_key y l && n == x))
  unfolding each_phase has_key
  is_pred-lead [] h = ground arith
  is_pred-lead (p ∷ ps) h =
      ground (arith, is_pred-lead ps (put_pred p n h), is_pred-put_pred h p n x y)

-- or takes the place of another one.
module _ (n c x y : ℕ) where
  pub follows-rejoin :
      (l : List ℕ) (h : Store)
      → follows (each_phase (λ p g. put_succ p n (del_succ p c g)) l h) x y
        ≡ (if has_key x l then n == y || (follows h x y && not (c == y)) else follows h x y)
  unfolding each_phase has_key
  follows-rejoin [] h = refl
  follows-rejoin (p ∷ ps) h = ground (
    arith,
    follows-rejoin ps (put_succ p n (del_succ p c h)),
    follows-put_succ (del_succ p c h) p n x y,
    follows-del_succ h p c x y,
  )

  pub is_pred-rejoin :
      (l : List ℕ) (h : Store)
      → is_pred (each_phase (λ p g. put_succ p n (del_succ p c g)) l h) x y ≡ is_pred h x y
  unfolding each_phase
  is_pred-rejoin [] h = refl
  is_pred-rejoin (p ∷ ps) h =
      is_pred-rejoin ps (put_succ p n (del_succ p c h))
      ∙ is_pred-put_succ (del_succ p c h) p n x y
      ∙ is_pred-del_succ h p c x y

  pub follows-relead :
      (l : List ℕ) (h : Store)
      → follows (each_phase (λ s g. put_pred s n (del_pred s c g)) l h) x y ≡ follows h x y
  unfolding each_phase
  follows-relead [] h = refl
  follows-relead (p ∷ ps) h =
      follows-relead ps (put_pred p n (del_pred p c h))
      ∙ follows-put_pred (del_pred p c h) p n x y
      ∙ follows-del_pred h p c x y

  pub is_pred-relead :
      (l : List ℕ) (h : Store)
      → is_pred (each_phase (λ s g. put_pred s n (del_pred s c g)) l h) x y
        ≡ (if has_key y l then n == x || (is_pred h x y && not (c == x)) else is_pred h x y)
  unfolding each_phase has_key
  is_pred-relead [] h = refl
  is_pred-relead (p ∷ ps) h = ground (
    arith,
    is_pred-relead ps (put_pred p n (del_pred p c h)),
    is_pred-put_pred (del_pred p c h) p n x y,
    is_pred-del_pred h p c x y,
  )
