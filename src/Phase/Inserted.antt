-- ===== src/Phase/Inserted.antt =====
-- src/uvmsc/phasing/uvm_phase.cpp: the links after each of the four ways of insertion, in terms of the links before.
use system_c_uvm.Base.{ℕ, ◌≡◌, ◌≢◌, ◌&&◌, ◌||◌, not, if◌then◌else◌, ◌==◌, [], arith}
use system_c_uvm.Phase.{Store, modify, has_key, put_succ, put_pred, del_succ, del_pred}
use system_c_uvm.Phase.Search.{preds, succs}
use system_c_uvm.Phase.Schedule.{
  each_phase, insert_with, insert_before, insert_after, insert_between,
}
use system_c_uvm.Phase.Links.{
  follows, is_pred, follows-put_succ, is_pred-put_succ, follows-del_succ, is_pred-del_succ,
  follows-put_pred, is_pred-put_pred, follows-join, is_pred-join, follows-lead, is_pred-lead,
  follows-rejoin, is_pred-rejoin, follows-relead, is_pred-relead,
}

-- The stores in the course of an insertion.
module _ (b e w : ℕ) (h : Store) where
  abbrev pub taken : Store
  taken =
      let h₁ = modify b (λ p. record p { predecessors = preds h w }) h in
      modify e (λ p. record p { successors = succs h₁ w }) h₁

  abbrev pub joined : Store
  joined = each_phase (λ p. put_succ p b) (preds taken w) taken

module _ (b e before_phase : ℕ) (h : Store) where
  abbrev pub led : Store
  led = put_succ e before_phase (modify b (λ p. record p { predecessors = preds h before_phase }) h)

  abbrev pub rejoined : Store
  rejoined =
      each_phase (λ p g. put_succ p b (del_succ p before_phase g)) (preds led before_phase) led

  abbrev pub emptied : Store
  emptied = modify before_phase (λ p. record p { predecessors = [] }) rejoined

module _ (b e after_phase : ℕ) (h : Store) where
  abbrev pub tailed : Store
  tailed = put_pred b after_phase (modify e (λ p. record p { successors = succs h after_phase }) h)

  abbrev pub retailed : Store
  retailed =
      each_phase (λ s g. put_pred s e (del_pred s after_phase g)) (succs tailed after_phase) tailed

  abbrev pub detached : Store
  detached = modify after_phase (λ p. record p { successors = [] }) retailed

module _ (b e after_phase before_phase : ℕ) (h : Store) where
  abbrev pub tied : Store
  tied =
      put_pred before_phase e
        (put_succ after_phase b (put_succ e before_phase (put_pred b after_phase h)))

module _ (b e w : ℕ) (h : Store) (not_begin : w ≢ b) (not_end : w ≢ e) (x y : ℕ) where
  pub follows-insert_with :
      follows (insert_with b e w h) x y
      ≡ ((if x == e then follows h w y else follows h x y) || (is_pred h x w && b == y))
  unfolding insert_with modify
  follows-insert_with = ground (
    arith,
    follows-lead e x y (succs (joined b e w h) w) (joined b e w h),
    follows-join b x y (preds (taken b e w h) w) (taken b e w h),
  )

  pub is_pred-insert_with : is_pred (insert_with b e w h) x y ≡ (
      (if y == b then is_pred h x w else is_pred h x y)
      || ((follows h w y || (is_pred h w w && b == y)) && e == x))
  unfolding insert_with modify
  is_pred-insert_with = ground (
    arith,
    is_pred-lead e x y (succs (joined b e w h) w) (joined b e w h),
    is_pred-join b x y (preds (taken b e w h) w) (taken b e w h),
    follows-join b w y (preds (taken b e w h) w) (taken b e w h),
  )

module _ (b e before_phase : ℕ) (h : Store) (not_begin : before_phase ≢ b) (x y : ℕ) where
  pub follows-insert_before : follows (insert_before b e before_phase h) x y ≡ (
      if is_pred h x before_phase
      then b == y || (follows h x y && not (before_phase == y))
      else follows h x y || (x == e && before_phase == y))
  unfolding insert_before modify put_succ
  follows-insert_before = ground (
    arith,
    follows-put_pred (emptied b e before_phase h) before_phase e x y,
    follows-rejoin b before_phase x y (preds (led b e before_phase h) before_phase)
        (led b e before_phase h),
    follows-put_succ (modify b (λ p. record p { predecessors = preds h before_phase }) h) e
        before_phase x y,
  )

  pub is_pred-insert_before : is_pred (insert_before b e before_phase h) x y ≡ (
      if before_phase == y
      then e == x
      else if y == b
      then is_pred h x before_phase
      else is_pred h x y)
  unfolding insert_before modify put_succ has_key
  is_pred-insert_before = ground (
    arith,
    is_pred-put_pred (emptied b e before_phase h) before_phase e x y,
    is_pred-rejoin b before_phase x y (preds (led b e before_phase h) before_phase)
        (led b e before_phase h),
    is_pred-put_succ (modify b (λ p. record p { predecessors = preds h before_phase }) h) e
        before_phase x y,
  )

module _ (b e after_phase : ℕ) (h : Store) (not_end : after_phase ≢ e) (x y : ℕ) where
  pub is_pred-insert_after : is_pred (insert_after b e after_phase h) x y ≡ (
      if follows h after_phase y
      then e == x || (is_pred h x y && not (after_phase == x))
      else is_pred h x y || (y == b && after_phase == x))
  unfolding insert_after modify put_pred
  is_pred-insert_after = ground (
    arith,
    is_pred-put_succ (detached b e after_phase h) after_phase b x y,
    is_pred-relead e after_phase x y (succs (tailed b e after_phase h) after_phase)
        (tailed b e after_phase h),
    is_pred-put_pred (modify e (λ p. record p { successors = succs h after_phase }) h) b after_phase
        x y,
  )

  pub follows-insert_after : follows (insert_after b e after_phase h) x y ≡ (
      if after_phase == x
      then b == y
      else if x == e
      then follows h after_phase y
      else follows h x y)
  unfolding insert_after modify put_pred has_key
  follows-insert_after = ground (
    arith,
    follows-put_succ (detached b e after_phase h) after_phase b x y,
    follows-relead e after_phase x y (succs (tailed b e after_phase h) after_phase)
        (tailed b e after_phase h),
    follows-put_pred (modify e (λ p. record p { successors = succs h after_phase }) h) b after_phase
        x y,
  )

module _ (b e after_phase before_phase : ℕ) (h : Store) (not_end : after_phase ≢ e)
    (not_begin : before_phase ≢ b) (x y : ℕ) where
  follows-tied :
      (x y : ℕ)
      → follows (tied b e after_phase before_phase h) x y
        ≡ (follows h x y || (x == e && before_phase == y) || (x == after_phase && b == y))
  follows-tied x y = ground (
    arith,
    follows-put_pred (put_succ after_phase b (put_succ e before_phase (put_pred b after_phase h)))
        before_phase e x y,
    follows-put_succ (put_succ e before_phase (put_pred b after_phase h)) after_phase b x y,
    follows-put_succ (put_pred b after_phase h) e before_phase x y,
    follows-put_pred h b after_phase x y,
  )

  is_pred-tied :
      is_pred (tied b e after_phase before_phase h) x y
      ≡ (is_pred h x y || (y == b && after_phase == x) || (y == before_phase && e == x))
  is_pred-tied = ground (
    arith,
    is_pred-put_pred (put_succ after_phase b (put_succ e before_phase (put_pred b after_phase h)))
        before_phase e x y,
    is_pred-put_succ (put_succ e before_phase (put_pred b after_phase h)) after_phase b x y,
    is_pred-put_succ (put_pred b after_phase h) e before_phase x y,
    is_pred-put_pred h b after_phase x y,
  )

  pub follows-insert_between : follows (insert_between b e after_phase before_phase h) x y ≡ (
      (follows h x y || (x == e && before_phase == y) || (x == after_phase && b == y))
      && not (
          follows h after_phase before_phase
          && ((x == after_phase && before_phase == y) || (x == before_phase && after_phase == y))))
  unfolding insert_between
  follows-insert_between = ground (
    arith,
    follows-tied x y,
    follows-tied after_phase before_phase,
    follows-del_succ (del_succ after_phase before_phase (tied b e after_phase before_phase h))
        before_phase after_phase x y,
    follows-del_succ (tied b e after_phase before_phase h) after_phase before_phase x y,
  )

  pub is_pred-insert_between :
      is_pred (insert_between b e after_phase before_phase h) x y
      ≡ (is_pred h x y || (y == b && after_phase == x) || (y == before_phase && e == x))
  unfolding insert_between
  is_pred-insert_between = ground (
    arith,
    is_pred-tied,
    is_pred-del_succ (del_succ after_phase before_phase (tied b e after_phase before_phase h))
        before_phase after_phase x y,
    is_pred-del_succ (tied b e after_phase before_phase h) after_phase before_phase x y,
  )
