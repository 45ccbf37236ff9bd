-- ===== src/Phase/Ways.antt =====
-- src/uvmsc/phasing/uvm_phase.cpp: which way of insertion a call of `add` takes.
use system_c_uvm.Base.{
  ℕ, ◌≡◌, ◌≢◌, sym, ◌∙◌, true, false, ◌==◌, ◌&&◌, if◌then◌else◌, inl, inr, Bool-cases, Option, some,
  arith,
}
use system_c_uvm.Phase.{node, Store, allocate, plain_phase}
use system_c_uvm.Phase.Search.{is_before}
use system_c_uvm.Phase.Schedule.{
  ok, insert_with, insert_before, insert_after, insert_between, link, link_between, is_imp,
  insert_phase, add,
}

-- A store that a call has made from another.
pub data Way (b e w after' before' : ℕ) (h h' : Store) : Type 0 where
  parallel : w ≢ 0 → h' ≡ insert_with b e w h → Way b e w after' before' h h'
  ahead :
      w ≡ 0
      → before' ≢ 0
      → after' ≡ 0
      → h' ≡ insert_before b e before' h
      → Way b e w after' before' h h'
  behind :
      w ≡ 0
      → after' ≢ 0
      → before' ≡ 0
      → h' ≡ insert_after b e after' h
      → Way b e w after' before' h h'
  amid :
      w ≡ 0
      → after' ≢ 0
      → before' ≢ 0
      → is_before h h.next before' after' ≡ some true
      → h' ≡ insert_between b e after' before' h
      → Way b e w after' before' h h'
  apart : w ≡ 0 → after' ≡ 0 → before' ≡ 0 → h' ≡ h → Way b e w after' before' h h'

link_between-ok :
    (o : Option _) (h h' : Store) → link_between o h ≡ ok h' → (o ≡ some true) × (h' ≡ h)
link_between-ok o h h' q = ground arith

module _ (b e w after' before' : ℕ) (h h' : Store) where
  link-Way : link b e w after' before' h ≡ ok h' → Way b e w after' before' h h'
  unfolding link
  link-Way q = elim (Bool-cases (w == 0)) [
    | inr given ↦ parallel (ground arith) (ground arith)
    | inl none_with ↦ elim (Bool-cases (before' == 0)) [
      | inr given ↦ elim (Bool-cases (after' == 0)) [
        | inl open_after ↦ ahead (ground arith) (ground arith) (ground arith) (ground arith)
        | inr given_after ↦
            let e' : link_between (is_before h h.next before' after')
                  (insert_between b e after' before' h)
                ≡ ok h' =
              ground arith in
            let r = link_between-ok _ _ h' e' in
            amid (ground arith) (ground arith) (ground arith) r.0 r.1
      ]
      | inl open_before ↦ elim (Bool-cases (after' == 0)) [
        | inl open_after ↦ apart (ground arith) (ground arith) (ground arith) (ground arith)
        | inr given_after ↦ behind (ground arith) (ground arith) (ground arith) (ground arith)
      ]
    ]
  ]

parallel_only :
    {b e w after' before' : ℕ} {h h' : Store}
    → w ≢ 0
    → Way b e w after' before' h h'
    → h' ≡ insert_with b e w h
parallel_only n (parallel _ q) = q
parallel_only n (ahead z _ _ _) = absurd (n z)
parallel_only n (behind z _ _ _) = absurd (n z)
parallel_only n (amid z _ _ _ _) = absurd (n z)
parallel_only n (apart z _ _ _) = absurd (n z)

-- The store in which the node for an implementation has been made.
abbrev pub with_leaf : ℕ → ℕ → Store → Store
with_leaf this phase h =
    allocate (record (plain_phase (h.phase phase).name node this) { imp_phase = phase }) h

-- `before_phase`, or the end of the schedule where nothing is given.
abbrev pub or_last : ℕ → ℕ → ℕ → ℕ → Store → ℕ
or_last this w after' before' h =
    if w == 0 && after' == 0 && before' == 0 then (h.phase this).end_node else before'

module _ (this phase w after' before' : ℕ) (h h' : Store) where
  add-insert :
      add this phase w after' before' h ≡ ok h' → insert_phase this phase w after' before' h ≡ ok h'
  unfolding add
  add-insert q = ground arith

  insert_leaf :
      is_imp (h.phase phase).phase_type ≡ true
      → insert_phase this phase w after' before' h
        ≡ link h.next h.next w
            (if w == this then this else after')
            (if w == this then (h.phase this).end_node else or_last this w after' before' h)
            (with_leaf this phase h)
  unfolding insert_phase
  insert_leaf is_leaf = rw is_leaf

  chosen :
      (w == this) ≡ true
      → is_imp (h.phase phase).phase_type ≡ true
      → insert_phase this phase w after' before' h ≡ ok h'
      → link h.next h.next w this (h.phase this).end_node (with_leaf this phase h) ≡ ok h'
  chosen itself is_leaf q = let r = sym (insert_leaf is_leaf) ∙ q in rw itself at r

  unchosen :
      (w == this) ≡ false
      → is_imp (h.phase phase).phase_type ≡ true
      → insert_phase this phase w after' before' h ≡ ok h'
      → link h.next h.next w after' (or_last this w after' before' h) (with_leaf this phase h)
        ≡ ok h'
  unchosen other is_leaf q = let r = sym (insert_leaf is_leaf) ∙ q in rw other at r

  -- Adding an implementation to a phase that is not NULL makes a node, and inserts it in a way that is
  -- given by the arguments.
  pub add-Way :
      this ≢ 0
      → is_imp (h.phase phase).phase_type ≡ true
      → add this phase w after' before' h ≡ ok h'
      → Way h.next h.next w after' (or_last this w after' before' h) (with_leaf this phase h) h'
  add-Way some_this is_leaf q = elim (Bool-cases (w == this)) [
    | inl itself ↦
        let r : link h.next h.next w this (h.phase this).end_node (with_leaf this phase h) ≡ ok h' =
          chosen itself is_leaf (add-insert q) in
        let given : w ≢ 0 = ground arith in
        parallel given (parallel_only given (link-Way _ _ _ _ _ _ _ r))
    | inr other ↦
        let r : link h.next h.next w after' (or_last this w after' before' h)
              (with_leaf this phase h)
            ≡ ok h' =
          unchosen other is_leaf (add-insert q) in
        link-Way _ _ _ _ _ _ _ r
  ]
