-- ===== src/Sequencer/Grants.antt =====
-- What grant_queued_locks of src/uvmsc/seq/uvm_sequencer_base.cpp does to the queue and the locks.
use system_c_uvm.Base.{
  ◌+◌, ◌≡◌, refl, ◌&&◌, ◌||◌, not, Bool, true, false, arith, List, [], ◌∷◌, ◌++◌, exists, length,
  length-append, ap, ◌∙◌,
}
use system_c_uvm.Sequencer.{
  Sequence, Request, Sequencer, is_blocked, blocks, is_lock, grant_loop, grant_queued_locks,
  update_lists, lock_req, register_sequence, lock_request_of, enqueue_lock,
}
use system_c_uvm.Sequencer.Exit.{purge}

-- The state in which the loop goes on after it has granted the lock that `r` asks for.
abbrev pub taken : Request → Sequencer → Sequencer
taken r s =
    update_lists
      (record s { locks = s.locks ++ r.sequence ∷ []; completed = r.request_id ∷ s.completed })

-- A request that the loop grants.
abbrev pub grantable : List Sequence → Request → Bool
grantable locks r = is_lock r.request && not (is_blocked locks r.sequence)

pub is_blocked-append :
    (ls : List Sequence) (l s : Sequence)
    → is_blocked (ls ++ l ∷ []) s ≡ (is_blocked ls s || blocks s l)
is_blocked-append [] l s = ground arith
is_blocked-append (k ∷ ls) l s = ground (arith, is_blocked-append ls l s)

grant_loop-is_blocked :
    (x : Sequence) (q : List Request) (s : Sequencer)
    → is_blocked s.locks x ≡ true
    → is_blocked (grant_loop q s).1.locks x ≡ true
unfolding grant_loop
grant_loop-is_blocked x [] s b = b
grant_loop-is_blocked x (r ∷ q) s b = ground (
  arith,
  is_blocked-append s.locks r.sequence x,
  grant_loop-is_blocked x q (taken r s),
  grant_loop-is_blocked x q s b,
)

grant_loop-grantable :
    (q : List Request) (s : Sequencer)
    → let r = grant_loop q s in exists (grantable r.1.locks) r.0 ≡ false
unfolding grant_loop
grant_loop-grantable [] s = refl
grant_loop-grantable (r ∷ q) s = ground (
  arith,
  grant_loop-is_blocked r.sequence q s,
  grant_loop-grantable q (taken r s),
  grant_loop-grantable q s,
)

grant_loop-requests :
    (q : List Request) (s : Sequencer)
    → purge (λ r. is_lock r.request) (grant_loop q s).0 ≡ purge (λ r. is_lock r.request) q
unfolding grant_loop purge
grant_loop-requests [] s = refl
grant_loop-requests (r ∷ q) s =
    ground (arith, grant_loop-requests q (taken r s), grant_loop-requests q s)

grant_loop-counts :
    (q : List Request) (s : Sequencer)
    → let r = grant_loop q s in
      (length r.0 + length r.1.locks ≡ length q + length s.locks)
      × (length r.0 + length r.1.completed ≡ length q + length s.completed)
      × (length r.0 + r.1.lock_arb_size ≡ length q + s.lock_arb_size)
unfolding grant_loop
grant_loop-counts [] s = (refl, refl, refl)
grant_loop-counts (r ∷ q) s = ground (
  arith,
  length-append s.locks (r.sequence ∷ []),
  grant_loop-counts q (taken r s),
  grant_loop-counts q s,
)

-- After grant_queued_locks no request for a lock is left in the queue that could be granted: each of
-- those that remain is blocked by a lock that is held then. The requests for items are as before, in
-- the same order, and every request that has left the queue has added one lock, one completed request
-- and one change of the lists.
pub grant_queued_locks_complete :
    (s : Sequencer)
    → let s' = grant_queued_locks s in
      (exists (grantable s'.locks) s'.queue ≡ false)
      × (purge (λ r. is_lock r.request) s'.queue ≡ purge (λ r. is_lock r.request) s.queue)
      × (length s'.queue + length s'.locks ≡ length s.queue + length s.locks)
      × (length s'.queue + length s'.completed ≡ length s.queue + length s.completed)
      × (length s'.queue + s'.lock_arb_size ≡ length s.queue + s.lock_arb_size)
unfolding grant_queued_locks
grant_queued_locks_complete s = (
  grant_loop-grantable s.queue s,
  grant_loop-requests s.queue s,
  (grant_loop-counts s.queue s).0,
  (grant_loop-counts s.queue s).1,
  (grant_loop-counts s.queue s).2,
)

grant_loop-idle :
    (q : List Request) (s : Sequencer)
    → exists (grantable s.locks) q ≡ false
    → grant_loop q s ≡ (q, s)
unfolding grant_loop
grant_loop-idle [] s h = refl
grant_loop-idle (r ∷ q) s h = ground (arith, grant_loop-idle q s)

grant_queued_locks-idle :
    (s : Sequencer) → exists (grantable s.locks) s.queue ≡ false → grant_queued_locks s ≡ s
unfolding grant_queued_locks
grant_queued_locks-idle s h = rw (grant_loop-idle s.queue s h)

-- A second call of grant_queued_locks right after the first changes nothing.
pub grant_queued_locks-idempotent :
    (s : Sequencer) → grant_queued_locks (grant_queued_locks s) ≡ grant_queued_locks s
grant_queued_locks-idempotent s =
    grant_queued_locks-idle (grant_queued_locks s) (grant_queued_locks_complete s).0

grant_loop-last :
    (q : List Request) (r : Request) (s : Sequencer)
    → exists (grantable s.locks) q ≡ false
    → grantable s.locks r ≡ true
    → grant_loop (q ++ r ∷ []) s ≡ (q, taken r s)
unfolding grant_loop
grant_loop-last [] r s h g = ground arith
grant_loop-last (x ∷ q) r s h g = ground (arith, grant_loop-last q r s)

pub grant_queued_locks-last :
    (q : List Request) (r : Request) (t : Sequencer)
    → t.queue ≡ q ++ r ∷ []
    → exists (grantable t.locks) q ≡ false
    → grantable t.locks r ≡ true
    → grant_queued_locks t ≡ record (taken r t) { queue = q }
unfolding grant_queued_locks
grant_queued_locks-last q r t e h g =
    let p : grant_loop t.queue t ≡ (q, taken r t) =
      ap (λ x. grant_loop x t) e ∙ grant_loop-last q r t h g in
    rw p

pub register_sequence-lists :
    (q : Sequence) (s : Sequencer)
    → let s' = (register_sequence q s).0 in
      (s'.locks ≡ s.locks) × (s'.queue ≡ s.queue) × (s'.completed ≡ s.completed)
unfolding register_sequence
register_sequence-lists q s = ground arith

-- A request for a lock by a sequence that no lock blocks is granted within the call itself, however
-- many requests for items wait ahead of it in the queue, if no other lock could be granted: it gets
-- the last place in the list of locks, and the queue is as before the call.
pub lock_req-unblocked :
    (q : Sequence) (s : Sequencer)
    → exists (grantable s.locks) s.queue ≡ false
    → is_blocked s.locks q ≡ false
    → let r = lock_req true q s in
      (r.0.locks ≡ s.locks ++ q ∷ []) × (r.0.queue ≡ s.queue) × (r.0.completed ≡ r.1 ∷ s.completed)
unfolding lock_req
lock_req-unblocked q s idle free =
    let (s', id) = register_sequence q s in
    let r = lock_request_of q s' id in
    ground (
      arith,
      register_sequence-lists q s,
      grant_queued_locks-last s.queue r (enqueue_lock true r s'),
    )
