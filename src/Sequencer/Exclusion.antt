-- ===== src/Sequencer/Exclusion.antt =====
-- Locks of src/uvmsc/seq/uvm_sequencer_base.cpp exclude one another.
use system_c_uvm.Base.{
  ℕ, suc, ◌≡◌, refl, Bool, true, false, arith, List, [], ◌∷◌, ◌++◌, All, Option, none, some,
  Bool-cases, inl, inr, ◌⊎◌, ◌<◌, zero, get_elem?,
}
use system_c_uvm.Base.Int.{ℤ}
use system_c_uvm.Sequencer.{
  Sequence, Request, Sequencer, is_blocked, blocks, grant_loop, grant_queued_locks, lock_req,
  unlock_req, unlock_loop, register_sequence, request_grant, set_arbitration, is_completed,
  has_lock, Arbitration, enqueue_lock, lock_request_of, new_sequencer, is_child,
  unregister_sequence,
}
use system_c_uvm.Sequencer.Arbiter.{
  Run, ok, fatal, Chooser, select_sequence, choose_next_request, choose, grant_chosen, ◌>>=◌,
}
use system_c_uvm.Sequencer.Exit.{purge, owns_lock, remove_sequence_from_queues}
use system_c_uvm.Sequencer.Grants.{taken, register_sequence-lists}

-- No lock in the list is barred by one that was taken before it: its sequence is the earlier one's
-- own or a descendant of it.
abbrev pub IsChain : List Sequence → Type 0
IsChain [] = Unit {0}
IsChain (l ∷ ls) = All (λ k. blocks k l ≡ false) ls × IsChain ls

All-snoc {ℓ κ} :
    {A : Type ℓ} (P : A → Type κ) (xs : List A) (x : A) → All P xs → P x → All P (xs ++ x ∷ [])
All-snoc P [] x h p = (p, tt)
All-snoc P (y ∷ ys) x h p = (h.0, All-snoc P ys x h.1 p)

IsChain-snoc :
    (ls : List Sequence) (s : Sequence)
    → IsChain ls
    → is_blocked ls s ≡ false
    → IsChain (ls ++ s ∷ [])
IsChain-snoc [] s c b = (tt, tt)
IsChain-snoc (l ∷ ls) s c b = (
  All-snoc (λ k. blocks k l ≡ false) ls s c.0 (ground arith),
  IsChain-snoc ls s c.1 (ground arith),
)

grant_loop-IsChain :
    (q : List Request) (s : Sequencer) → IsChain s.locks → IsChain (grant_loop q s).1.locks
unfolding grant_loop
grant_loop-IsChain [] s c = c
grant_loop-IsChain (r ∷ q) s c = ground (
  arith,
  IsChain-snoc s.locks r.sequence c,
  grant_loop-IsChain q (taken r s),
  grant_loop-IsChain q s c,
)

All-purge {ℓ κ} :
    {A : Type ℓ} (P : A → Type κ) (p : A → Bool) (xs : List A) → All P xs → All P (purge p xs)
unfolding purge
All-purge P p [] h = tt
All-purge P p (x ∷ xs) h = elim (Bool-cases (p x)) [
  | inl out ↦ rw out (All-purge P p xs h.1)
  | inr kept ↦ rw kept (h.0, All-purge P p xs h.1)
]

IsChain-purge : (p : Sequence → Bool) (ls : List Sequence) → IsChain ls → IsChain (purge p ls)
unfolding purge
IsChain-purge p [] c = tt
IsChain-purge p (l ∷ ls) c = elim (Bool-cases (p l)) [
  | inl out ↦ rw out (IsChain-purge p ls c.1)
  | inr kept ↦ rw kept (All-purge (λ k. blocks k l ≡ false) p ls c.0, IsChain-purge p ls c.1)
]

abbrev OnSome {ℓ κ} : {A : Type ℓ} → (A → Type κ) → Option A → Type κ
OnSome P none = Unit
OnSome P (some a) = P a

unlock_loop-All {κ} :
    (P : Sequence → Type κ) (id : ℕ) (ls : List Sequence)
    → All P ls
    → OnSome (All P) (unlock_loop id ls)
unfolding unlock_loop
unlock_loop-All P id [] h = tt
unlock_loop-All P id (l ∷ ls) h = ground (arith, unlock_loop-All P id ls h.1)

unlock_loop-IsChain :
    (id : ℕ) (ls : List Sequence) → IsChain ls → OnSome IsChain (unlock_loop id ls)
unfolding unlock_loop
unlock_loop-IsChain id [] c = tt
unlock_loop-IsChain id (l ∷ ls) c =
    ground
      (arith, unlock_loop-All (λ k. blocks k l ≡ false) id ls c.0, unlock_loop-IsChain id ls c.1)

-- One call on the sequencer. A call that ends in a fatal report is no step.
pub data Step : Sequencer → Sequencer → Type 0 where
  locking : (at_back : Bool) (q : Sequence) (s : Sequencer) → Step s (lock_req at_back q s).0
  unlocking : (q : Sequence) (s : Sequencer) → Step s (unlock_req q s).0
  requesting :
      (q : Sequence) (p : ℤ) (with_lock : Bool) (s : Sequencer)
      → Step s (request_grant q p with_lock s).0
  selecting :
      (rand : ℕ) (user : Chooser) (relevant : Sequence → Bool) (s : Sequencer) {t : Sequencer}
      {i : Option ℕ}
      → select_sequence rand user relevant s ≡ ok (t, i)
      → Step s t
  exiting : (q : Sequence) (s : Sequencer) → Step s (remove_sequence_from_queues q s)
  polling : (id : ℕ) (s : Sequencer) {t : Sequencer} → is_completed id s ≡ some t → Step s t
  looking : (q : Sequence) (s : Sequencer) → Step s (has_lock q s).0
  arbitrating : (mode : Arbitration) (s : Sequencer) → Step s (set_arbitration mode s)

pub data Reach (s : Sequencer) : Sequencer → Type 0 where
  here : Reach s s
  next : {t u : Sequencer} → Reach s t → Step t u → Reach s u

grant_queued_locks-IsChain :
    (s : Sequencer) → IsChain s.locks → IsChain (grant_queued_locks s).locks
unfolding grant_queued_locks
grant_queued_locks-IsChain s c = grant_loop-IsChain s.queue s c

enqueue_lock-locks :
    (at_back : Bool) (r : Request) (s : Sequencer) → (enqueue_lock at_back r s).locks ≡ s.locks
enqueue_lock-locks true r s = refl
enqueue_lock-locks false r s = refl

register_sequence-IsChain :
    (q : Sequence) (s : Sequencer) → IsChain s.locks → IsChain (register_sequence q s).0.locks
register_sequence-IsChain q s c = rw (register_sequence-lists q s).0 c

lock_req-IsChain :
    (at_back : Bool) (q : Sequence) (s : Sequencer)
    → IsChain s.locks
    → IsChain (lock_req at_back q s).0.locks
unfolding lock_req
lock_req-IsChain at_back q s c =
    let (s', id) = register_sequence q s in
    let r = lock_request_of q s' id in
    grant_queued_locks-IsChain (enqueue_lock at_back r s')
      (rw (enqueue_lock-locks at_back r s') (register_sequence-IsChain q s c))

unlock_req-IsChain :
    (q : Sequence) (s : Sequencer) → IsChain s.locks → IsChain (unlock_req q s).0.locks
unfolding unlock_req
unlock_req-IsChain q s c =
    let s' = (register_sequence q s).0 in
    ground (arith, register_sequence-IsChain q s c, unlock_loop-IsChain q.inst_id s'.locks)

grant_chosen-locks : (i : ℕ) (s : Sequencer) → (grant_chosen i s).locks ≡ s.locks
unfolding grant_chosen
grant_chosen-locks i s = ground arith

abbrev OnOk : (Sequencer → Type 0) → Run (Sequencer × Option ℕ) → Type 0
OnOk P (ok r) = P r.0
OnOk P (fatal e) = Unit

select_sequence-locks :
    (rand : ℕ) (user : Chooser) (relevant : Sequence → Bool) (s : Sequencer)
    → OnOk (λ t. t.locks ≡ (grant_queued_locks s).locks) (select_sequence rand user relevant s)
unfolding select_sequence choose_next_request
select_sequence-locks rand user relevant s =
    go (choose rand user relevant g.arbitration g.locks g.queue)
  where
    g : Sequencer
    g = grant_queued_locks s

    go :
        (r : Run (Option ℕ))
        → OnOk
            (λ t. t.locks ≡ g.locks)
            (r >>= (λ i. ok (g, i)) >>= λ (q : Sequencer × Option ℕ). elim q.1 [
              | none ↦ ok (q.0, none)
              | some i ↦ ok (grant_chosen i q.0, some i)
            ])
    go (ok none) = refl
    go (ok (some i)) = grant_chosen-locks i g
    go (fatal e) = tt

remove_sequence_from_queues-locks :
    (q : Sequence) (s : Sequencer)
    → (remove_sequence_from_queues q s).locks ≡ purge (owns_lock q) s.locks
unfolding remove_sequence_from_queues unregister_sequence
remove_sequence_from_queues-locks q s = ground arith

is_completed-locks : (id : ℕ) (s : Sequencer) → OnSome (λ t. t.locks ≡ s.locks) (is_completed id s)
unfolding is_completed
is_completed-locks id s = ground arith

Step-IsChain : {s t : Sequencer} → Step s t → IsChain s.locks → IsChain t.locks
unfolding request_grant has_lock set_arbitration
Step-IsChain (locking at_back q s) c = lock_req-IsChain at_back q s c
Step-IsChain (unlocking q s) c = unlock_req-IsChain q s c
Step-IsChain (requesting q p with_lock s) c = register_sequence-IsChain q s c
Step-IsChain {t} (selecting rand user relevant s e) c =
    let h = select_sequence-locks rand user relevant s in
    let h' : t.locks ≡ (grant_queued_locks s).locks = rw e at h in
    rw h' (grant_queued_locks-IsChain s c)
Step-IsChain (exiting q s) c =
    rw (remove_sequence_from_queues-locks q s) (IsChain-purge (owns_lock q) s.locks c)
Step-IsChain {t} (polling id s e) c =
    let h = is_completed-locks id s in let h' : t.locks ≡ s.locks = rw e at h in rw h' c
Step-IsChain (looking q s) c = register_sequence-IsChain q s c
Step-IsChain (arbitrating mode s) c = c

Reach-IsChain : {s t : Sequencer} → IsChain s.locks → Reach s t → IsChain t.locks
Reach-IsChain c here = c
Reach-IsChain c (next r st) = Step-IsChain st (Reach-IsChain c r)

All-get :
    (l : Sequence) (ls : List Sequence) (j : ℕ) (b : Sequence)
    → All (λ k. blocks k l ≡ false) ls
    → get_elem? ls j ≡ some b
    → blocks b l ≡ false
All-get l [] j b h q = cc
All-get l (k ∷ ls) zero b h q = ground arith
All-get l (k ∷ ls) (suc j) b h q = All-get l ls j b h.1 q

IsChain-get :
    (ls : List Sequence) (i j : ℕ) (a b : Sequence)
    → IsChain ls
    → i < j
    → get_elem? ls i ≡ some a
    → get_elem? ls j ≡ some b
    → blocks b a ≡ false
IsChain-get [] i j a b c h p q = cc
IsChain-get (l ∷ ls) i zero a b c h p q = elim h [ ]
IsChain-get (l ∷ ls) zero (suc j) a b c h p q = ground (arith, All-get l ls j b c.0 q)
IsChain-get (l ∷ ls) (suc i) (suc j) a b c h p q = IsChain-get ls i j a b c.1 (omega arith) p q

-- Locks exclude one another: in every state that a new sequencer reaches, by any calls in any order,
-- of two locks that are held the later one belongs to the same sequence as the earlier one or to a
-- descendant of it.
pub locks_exclude :
    (sid rid : ℕ) {t : Sequencer} (i j : ℕ) (a b : Sequence)
    → Reach (new_sequencer sid rid) t
    → i < j
    → get_elem? t.locks i ≡ some a
    → get_elem? t.locks j ≡ some b
    → (a.inst_id ≡ b.inst_id) ⊎ (is_child a b ≡ true)
unfolding new_sequencer
locks_exclude sid rid {t} i j a b r h p q =
    ground (arith, IsChain-get t.locks i j a b (Reach-IsChain tt r) h p q)
