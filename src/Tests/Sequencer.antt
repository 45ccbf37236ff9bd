-- ===== src/Tests/Sequencer.antt =====
-- Runs of the sequencer (src/uvmsc/seq/uvm_sequencer_base.cpp).
use system_c_uvm.Base.{
  ℕ, ◌+◌, ◌≤◌, ◌<◌, ◌≡◌, refl, ◌⊎◌, inl, Bool, true, false, [], ◌∷◌, some, arith, exists, length,
}
use system_c_uvm.Base.Int.{pos, negsuc}
use system_c_uvm.Base.Assoc.{nat_key, find, insert}
use system_c_uvm.Sequencer.{
  Sequence, Request, req, lock, arb_fifo, arb_random, arb_weighted, arb_strict_fifo, Sequencer,
  new_sequencer, is_child, is_lock, grant_loop, grant_queued_locks, lock_req, register_sequence,
}
use system_c_uvm.Sequencer.Arbiter.{
  ok, Chooser, choose, avail_from, first_from, by_mode, highest_loop, priority_of, urandom_range,
  weighted_pick, sum_priorities, select_sequence,
}
use system_c_uvm.Sequencer.Exit.{owns_request, owns_lock, purge, remove_sequence_from_queues}
use system_c_uvm.Sequencer.Grants.{grantable, grant_queued_locks_complete}
use system_c_uvm.Sequencer.Exclusion.{here, next, locking, locks_exclude}
use system_c_uvm.Sequencer.Choice.{good, OnPick}
use system_c_uvm.Sequencer.Choice.Modes.{choose-good}
use system_c_uvm.Sequencer.Choice.Priority.{choose-strict}
use system_c_uvm.Sequencer.Choice.Weighted.{choose-weighted_finds}
use system_c_uvm.Sequencer.Choice.Random.{choose-random_starves_first}
use system_c_uvm.Sequencer.Removal.{
  Granted, remove_sequence_from_queues-clears, others, select_sequence-grants,
}

abbrev parent : Sequence
parent = record { inst_id = 1; ancestors = []; priority = pos 100 }

abbrev child : Sequence
child = record { inst_id = 2; ancestors = 1 ∷ []; priority = pos 100 }

abbrev other : Sequence
other = record { inst_id = 3; ancestors = []; priority = pos 300 }

abbrev item_from : Sequence → ℕ → Request
item_from q id = record {
  sequence_id = q.inst_id;
  request_id = id;
  item_priority = negsuc 0;
  request = req;
  sequence = q;
}

abbrev lock_from : Sequence → ℕ → Request
lock_from q id = record (item_from q id) { request = lock }

abbrev waiting : Sequencer
waiting = record {
  arbitration = arb_fifo;
  queue = item_from other 7 ∷ lock_from parent 8 ∷ item_from child 9 ∷ lock_from other 10 ∷ [];
  locks = [];
  completed = [];
  lock_arb_size = 0;
  reg_sequences = (1, parent) ∷ (2, child) ∷ (3, other) ∷ [];
  sqr_seq_ids = (1, 1) ∷ (2, 2) ∷ (3, 3) ∷ [];
  next_sequence_id = 4;
  next_request_id = 11;
}

abbrev items : Sequencer
items = record waiting { queue = item_from parent 7 ∷ item_from other 8 ∷ item_from child 9 ∷ [] }

abbrev always : Sequence → Bool
always q = true

abbrev first_one : Chooser
first_one l = 0

-- The parent's lock is granted, the other sequence's is not.
granting : (grant_queued_locks waiting).locks ≡ parent ∷ []
unfolding grant_queued_locks grant_loop
granting = refl

-- Under a lock of the parent, the child's item is chosen, although the other's waits longer.
choosing : choose 0 first_one always arb_fifo (parent ∷ []) waiting.queue ≡ ok (some 2)
unfolding choose first_from
choosing = refl

-- With weights 100, 300 and 100, the random value 98 picks the first, 99 and 398 the second.
weighted :
    (choose 98 first_one always arb_weighted [] items.queue ≡ ok (some 0))
    × (choose 99 first_one always arb_weighted [] items.queue ≡ ok (some 1))
    × (choose 398 first_one always arb_weighted [] items.queue ≡ ok (some 1))
unfolding choose avail_from by_mode sum_priorities weighted_pick urandom_range priority_of
weighted = (refl, refl, refl)

grant_queued_locks_complete_example :
    let s' = grant_queued_locks waiting in
    (exists (grantable s'.locks) s'.queue ≡ false)
    × (purge (λ r. is_lock r.request) s'.queue ≡ purge (λ r. is_lock r.request) waiting.queue)
    × (length s'.queue + length s'.locks ≡ 4)
    × (length s'.queue + length s'.completed ≡ 4)
    × (length s'.queue + s'.lock_arb_size ≡ 4)
grant_queued_locks_complete_example = grant_queued_locks_complete waiting

locks_exclude_example : (parent.inst_id ≡ child.inst_id) ⊎ (is_child parent child ≡ true)
unfolding lock_req grant_queued_locks grant_loop register_sequence new_sequencer find insert
locks_exclude_example =
    locks_exclude 1 0 0 1 parent child
      (next (next here (locking true parent (new_sequencer 1 0)))
        (locking true child (lock_req true parent (new_sequencer 1 0)).0))
      (omega arith) refl refl

choose-good_example :
    OnPick
      (λ i. good always [] items.queue i ≡ true)
      (choose 99 first_one always arb_weighted [] items.queue)
choose-good_example = choose-good 99 first_one always arb_weighted [] items.queue

choose-strict_example : 100 ≤ 300
unfolding choose avail_from by_mode highest_loop priority_of
choose-strict_example =
    choose-strict 0 first_one always [] items.queue arb_strict_fifo 1 0 300 100 (inl refl) refl refl
      refl refl

choose-weighted_finds_example :
    (n : ℕ) × (choose 1234 first_one always arb_weighted [] items.queue ≡ ok (some n))
unfolding priority_of
choose-weighted_finds_example =
    choose-weighted_finds 1234 first_one always [] items.queue refl (omega arith) refl

choose-random_starves_first_example :
    (j : ℕ) × (choose 5 first_one always arb_random [] items.queue ≡ ok (some j)) × (0 < j)
unfolding first_from
choose-random_starves_first_example =
    choose-random_starves_first 5 first_one always [] items.queue 0 2 (omega arith) refl refl
      (omega arith)

abbrev locked : Sequencer
locked = record items { locks = child ∷ other ∷ [] }

remove_sequence_from_queues-clears_example :
    let s' = remove_sequence_from_queues parent locked in
    (exists (owns_request parent (some 1)) s'.queue ≡ false)
    × (exists (owns_lock parent) s'.locks ≡ false)
    × (s'.queue ≡ others (owns_request parent (some 1)) locked.queue)
    × (s'.locks ≡ others (owns_lock parent) locked.locks)
    × (length s'.queue + length s'.locks + s'.lock_arb_size ≡ 5)
unfolding find
remove_sequence_from_queues-clears_example = remove_sequence_from_queues-clears parent locked

select_sequence-grants_example :
    Granted (grant_queued_locks waiting) always (select_sequence 0 first_one always waiting)
select_sequence-grants_example = select_sequence-grants 0 first_one always waiting
