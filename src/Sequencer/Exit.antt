-- ===== src/Sequencer/Exit.antt =====
-- src/uvmsc/seq/uvm_sequencer_base.cpp: what happens when a sequence exits or is killed.
use system_c_uvm.Base.{
  ℕ, ◌+◌, ◌||◌, Bool, false, if◌then◌else◌, ◌==◌, List, [], ◌∷◌, Option, none, some,
}
use system_c_uvm.Base.Assoc.{nat_key, find}
use system_c_uvm.Sequencer.{Sequence, Request, Sequencer, is_child, unregister_sequence}

-- Is the request one of the sequence or of a descendant? `none` is the identifier -1.
abbrev pub same_id : Option ℕ → ℕ → Bool
same_id none i = false
same_id (some id) i = i == id

abbrev pub owns_request : Sequence → Option ℕ → Request → Bool
owns_request q id r = same_id id r.sequence_id || is_child q r.sequence

abbrev pub owns_lock : Sequence → Sequence → Bool
owns_lock q l = l.inst_id == q.inst_id || is_child q l

-- The do-while loops: an entry that passes the test is erased, and the lists are updated each time.
unfoldable pub purge {ℓ} : {A : Type ℓ} → (A → Bool) → List A → List A
purge p [] = []
purge p (x ∷ xs) = let rest = purge p xs in if p x then rest else x ∷ rest

unfoldable pub purged {ℓ} : {A : Type ℓ} → (A → Bool) → List A → ℕ
purged p [] = 0
purged p (x ∷ xs) = let rest = purged p xs in if p x then rest + 1 else rest

abbrev pub unregister : Option ℕ → Sequencer → Sequencer
unregister none s = s
unregister (some id) s = unregister_sequence id s

-- remove_sequence_from_queues, which m_sequence_exiting calls, and m_kill_sequence before m_kill.
unfoldable pub remove_sequence_from_queues : Sequence → Sequencer → Sequencer
remove_sequence_from_queues q s =
    let id = find q.inst_id s.sqr_seq_ids in
    unregister id (record s {
      queue = purge (owns_request q id) s.queue;
      locks = purge (owns_lock q) s.locks;
      lock_arb_size =
          s.lock_arb_size + purged (owns_request q id) s.queue + purged (owns_lock q) s.locks;
    })
