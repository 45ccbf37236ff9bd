-- ===== src/Sequencer.antt =====
-- src/uvmsc/seq/uvm_sequencer_base.cpp: the queue of requests, the list of locks, and the calls that
-- sequences make. A call that waits is modelled up to the wait; what it waits for is a test of the
-- state, `is_completed`. `int` counters are taken not to overflow. Error and warning messages that
-- change nothing are left out, except that a fatal message, which throws, is `fatal`.
pub mod Arbiter
pub mod Exit
pub mod Grants
pub mod Exclusion
pub mod Choice
pub mod Removal
use system_c_uvm.Base.{
  ℕ, ◌+◌, ◌-◌, ◌≡◌, refl, ◌&&◌, ◌||◌, not, ltb, Bool, true, false, if◌then◌else◌, ◌==◌, String,
  arith, List, [], ◌∷◌, ◌++◌, Option, none, some, exists, length, get_elem?,
}
use system_c_uvm.Base.Int.{ℤ, pos, negsuc}
use system_c_uvm.Base.Assoc.{Key, nat_key, find, insert, erase}

-- uvm_sequence_base: its instance number, the instance numbers that get_parent_sequence leads to, the
-- parent's first, and its priority.
pub record Sequence : Type 0 where
  pub inst_id : ℕ
  pub ancestors : List ℕ
  pub priority : ℤ

-- seq_req_t
pub data RequestType : Type 0 where
  req lock grab : RequestType

-- uvm_sequence_request; `grant` is never read.
pub record Request : Type 0 where
  pub sequence_id : ℕ
  pub request_id : ℕ
  pub item_priority : ℤ
  pub request : RequestType
  pub sequence : Sequence

-- SEQ_ARB_TYPE
pub data Arbitration : Type 0 where
  arb_fifo arb_weighted arb_random arb_strict_fifo arb_strict_random arb_user : Arbitration

-- `sqr_seq_ids` holds what the sequences' own m_sqr_seq_ids say for this sequencer, by instance
-- number. `completed` holds the keys of arb_completed. `lock_arb_size` is m_lock_arb_size + 1.
pub record Sequencer : Type 0 where
  pub arbitration : Arbitration
  pub queue : List Request
  pub locks : List Sequence
  pub completed : List ℕ
  pub lock_arb_size : ℕ
  pub reg_sequences : List (ℕ × Sequence)
  pub sqr_seq_ids : List (ℕ × ℕ)
  pub next_sequence_id : ℕ
  pub next_request_id : ℕ

-- The constructor; the two identifiers are the static counters.
unfoldable pub new_sequencer : ℕ → ℕ → Sequencer
new_sequencer sequence_id request_id = record {
  arbitration = arb_fifo;
  queue = [];
  locks = [];
  completed = [];
  lock_arb_size = 0;
  reg_sequences = [];
  sqr_seq_ids = [];
  next_sequence_id = sequence_id;
  next_request_id = request_id;
}

-- is_child: the loop along the parents of `child`.
abbrev pub is_child : Sequence → Sequence → Bool
is_child parent child = exists (λ i. i == parent.inst_id) child.ancestors

-- One entry of the lock list against the sequence.
abbrev pub blocks : Sequence → Sequence → Bool
blocks s l = not (l.inst_id == s.inst_id) && not (is_child l s)

-- is_blocked
abbrev pub is_blocked : List Sequence → Sequence → Bool
is_blocked locks s = exists (blocks s) locks

abbrev pub holds_lock : List Sequence → Sequence → Bool
holds_lock locks s = exists (λ l. l.inst_id == s.inst_id) locks

abbrev pub is_lock : RequestType → Bool
is_lock lock = true
is_lock _ = false

abbrev pub is_req : RequestType → Bool
is_req req = true
is_req _ = false

unfoldable pub is_grabbed : Sequencer → Bool
is_grabbed s = not (length s.locks == 0)

unfoldable pub current_grabber : Sequencer → Option Sequence
current_grabber s = if length s.locks == 0 then none else get_elem? s.locks (length s.locks - 1)

-- has_do_available: `relevant` is the virtual is_relevant of the sequences.
unfoldable pub has_do_available : (Sequence → Bool) → Sequencer → Bool
has_do_available relevant s =
    exists (λ (r : Request). relevant r.sequence && not (is_blocked s.locks r.sequence)) s.queue

unfoldable pub set_arbitration : Arbitration → Sequencer → Sequencer
set_arbitration mode s = record s { arbitration = mode }

-- m_update_lists
abbrev pub update_lists : Sequencer → Sequencer
update_lists s = record s { lock_arb_size = s.lock_arb_size + 1 }

-- m_register_sequence: an identifier is valid if it is positive.
abbrev known : Option ℕ → Bool
known none = false
known (some id) = ltb 0 id

abbrev id_of : Option ℕ → ℕ
id_of none = 0
id_of (some id) = id

unfoldable pub register_sequence : Sequence → Sequencer → Sequencer × ℕ
register_sequence q s =
    let id = find q.inst_id s.sqr_seq_ids in
    if known id then (s, id_of id) else (
      record s {
        sqr_seq_ids = insert q.inst_id s.next_sequence_id s.sqr_seq_ids;
        reg_sequences = insert s.next_sequence_id q s.reg_sequences;
        next_sequence_id = s.next_sequence_id + 1;
      },
      s.next_sequence_id,
    )

-- m_unregister_sequence
unfoldable pub unregister_sequence : ℕ → Sequencer → Sequencer
unregister_sequence id s = record s { reg_sequences = erase id s.reg_sequences }

-- has_lock registers the sequence before it looks.
unfoldable pub has_lock : Sequence → Sequencer → Sequencer × Bool
has_lock q s = let s' = (register_sequence q s).0 in (s', holds_lock s'.locks q)

-- grant_queued_locks: its two loops visit each request once. At a request for a lock that is not
-- blocked by the locks held at that point, the lock is taken and the request leaves the queue; at
-- any other request the loops move on.
unfoldable pub grant_loop : List Request → Sequencer → List Request × Sequencer
grant_loop [] s = ([], s)
grant_loop (r ∷ rs) s =
    let granted = grant_loop rs (
      update_lists (record s {
        locks = s.locks ++ r.sequence ∷ [];
        completed = r.request_id ∷ s.completed;
      })) in
    let kept = grant_loop rs s in
    if is_lock r.request && not (is_blocked s.locks r.sequence)
    then granted
    else (r ∷ kept.0, kept.1)

unfoldable pub grant_queued_locks : Sequencer → Sequencer
unfolding grant_loop
grant_queued_locks s = let (q, s') = grant_loop s.queue s in record s' { queue = q }

-- The request for a lock that m_lock_req and wait_for_grant make.
abbrev pub lock_request_of : Sequence → Sequencer → ℕ → Request
lock_request_of q s id = record {
  sequence_id = id;
  request_id = s.next_request_id;
  item_priority = negsuc 0;
  request = lock;
  sequence = q;
}

-- m_lock_req up to its wait: a lock goes to the back of the queue, a grab to the front. The result
-- is the identifier of the request that the caller waits for.
abbrev pub enqueue_lock : Bool → Request → Sequencer → Sequencer
enqueue_lock true r s = record s {
  queue = s.queue ++ r ∷ [];
  next_request_id = s.next_request_id + 1;
}
enqueue_lock false r s =
    update_lists (record s { queue = r ∷ s.queue; next_request_id = s.next_request_id + 1 })

unfoldable pub lock_req : Bool → Sequence → Sequencer → Sequencer × ℕ
lock_req at_back q s₀ =
    let (s, id) = register_sequence q s₀ in
    let r = lock_request_of q s id in (grant_queued_locks (enqueue_lock at_back r s), r.request_id)

-- The loop of m_unlock_req: the first entry of the sequence is erased.
unfoldable pub unlock_loop : ℕ → List Sequence → Option (List Sequence)
unlock_loop id [] = none
unlock_loop id (l ∷ ls) =
    if l.inst_id == id
    then some ls
    else elim (unlock_loop id ls) [ none ↦ none | some rest ↦ some (l ∷ rest) ]

-- m_unlock_req; the Boolean is false where the source warns that the sequence has no lock.
unfoldable pub unlock_req : Sequence → Sequencer → Sequencer × Bool
unlock_req q s₀ =
    let s = (register_sequence q s₀).0 in
    elim (unlock_loop q.inst_id s.locks) [
      | none ↦ (s, false)
      | some rest ↦ (update_lists (record s { locks = rest }), true)
    ]

-- wait_for_grant up to its wait. With `lock_request` a request for a lock goes first.
unfoldable pub request_grant : Sequence → ℤ → Bool → Sequencer → Sequencer × ℕ
request_grant q item_priority lock_request s₀ =
    let (s, id) = register_sequence q s₀ in
    let first = s.next_request_id in
    let lock_r = lock_request_of q s id in
    let own = if lock_request then first + 1 else first in
    let r : Request = record {
      sequence_id = id;
      request_id = own;
      item_priority = item_priority;
      request = req;
      sequence = q;
    } in
    (
      update_lists (record s {
        queue = (if lock_request then s.queue ++ lock_r ∷ [] else s.queue) ++ r ∷ [];
        next_request_id = own + 1;
      }),
      own,
    )

-- The test of m_wait_for_arbitration_completed; `none` is "wait for the next change".
abbrev without : ℕ → List ℕ → List ℕ
without id [] = []
without id (c ∷ cs) = let rest = without id cs in if c == id then rest else c ∷ rest

unfoldable pub is_completed : ℕ → Sequencer → Option Sequencer
is_completed id s =
    if exists (λ c. c == id) s.completed
    then some (record s { completed = without id s.completed })
    else none
