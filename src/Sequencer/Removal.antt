-- ===== src/Sequencer/Removal.antt =====
-- What leaves the lists of src/uvmsc/seq/uvm_sequencer_base.cpp: a request that is chosen, and all that
-- belongs to a sequence that exits.
use mathlib.Core.Bool.{Bool-discrete}
use mathlib.Core.List.{filter}
use mathlib.Core.Logic.{ite}
use system_c_uvm.Base.{
  ◌∙◌, if◌then◌else◌, ap, ℕ, zero, suc, ◌+◌, ◌≡◌, refl, Bool, true, false, ◌==◌, arith, List, [],
  ◌∷◌, Option, none, some, exists, length, get_elem?,
}
use system_c_uvm.Base.Assoc.{nat_key, find}
use system_c_uvm.Sequencer.{Sequence, Request, Sequencer, unregister_sequence, grant_queued_locks}
use system_c_uvm.Sequencer.Exit.{
  owns_request, owns_lock, purge, purged, unregister, remove_sequence_from_queues,
}
use system_c_uvm.Sequencer.Arbiter.{
  Run, ok, fatal, ◌>>=◌, Chooser, eligible, choose, choose_next_request, remove_at, grant_chosen,
  select_sequence,
}
use system_c_uvm.Sequencer.Choice.{good, OnPick}
use system_c_uvm.Sequencer.Choice.Modes.{choose-good}

module _ {ℓ} {A : Type ℓ} (p : A → Bool) where
  purge-none : (xs : List A) → exists p (purge p xs) ≡ false
  unfolding purge
  purge-none [] = refl
  purge-none (x ∷ xs) = ground (arith, purge-none xs)

  -- The entries that do not pass the test, in their order.
  abbrev pub others : List A → List A
  others = filter {p = λ x. p x ≡ false} (λ x. Bool-discrete (p x) false)

  purge-others : (xs : List A) → purge p xs ≡ others xs
  unfolding purge
  purge-others [] = refl
  purge-others (x ∷ xs) = go (purge-others xs) (p x) (Bool-discrete (p x) false)
    where
      go :
          (purge p xs ≡ others xs)
          → (b : Bool) (d : Dec (b ≡ false))
          → (if b then purge p xs else x ∷ purge p xs) ≡ ite d (x ∷ others xs) (others xs)
      go ih true (yes e) = absurd (cc)
      go ih true (no n) = ih
      go ih false (yes e) = ap (λ l. x ∷ l) ih
      go ih false (no n) = absurd (n refl)

  length-purge : (xs : List A) → length (purge p xs) + purged p xs ≡ length xs
  unfolding purge purged
  length-purge [] = omega arith
  length-purge (x ∷ xs) = ground (arith, length-purge xs)

unregister-lists :
    (id : Option ℕ) (t : Sequencer)
    → ((unregister id t).queue ≡ t.queue)
      × ((unregister id t).locks ≡ t.locks)
      × ((unregister id t).lock_arb_size ≡ t.lock_arb_size)
unfolding unregister_sequence
unregister-lists none t = (refl, refl, refl)
unregister-lists (some id) t = (refl, refl, refl)

-- When a sequence exits or is killed, no request and no lock of it or of a descendant is left. All
-- requests and locks of others stay, in their order, and the lists count one change for each entry
-- that has left.
pub remove_sequence_from_queues-clears :
    (q : Sequence) (s : Sequencer)
    → let id = find q.inst_id s.sqr_seq_ids in
      let s' = remove_sequence_from_queues q s in
      (exists (owns_request q id) s'.queue ≡ false)
      × (exists (owns_lock q) s'.locks ≡ false)
      × (s'.queue ≡ others (owns_request q id) s.queue)
      × (s'.locks ≡ others (owns_lock q) s.locks)
      × (length s'.queue + length s'.locks + s'.lock_arb_size
          ≡ length s.queue + length s.locks + s.lock_arb_size)
unfolding remove_sequence_from_queues
remove_sequence_from_queues-clears q s = (
  rw rest.0 (purge-none own s.queue),
  rw rest.1 (purge-none (owns_lock q) s.locks),
  rest.0 ∙ purge-others own s.queue,
  rest.1 ∙ purge-others (owns_lock q) s.locks,
  ground (arith, rest, length-purge own s.queue, length-purge (owns_lock q) s.locks),
)
  where
    id : Option ℕ
    id = find q.inst_id s.sqr_seq_ids

    own : Request → Bool
    own = owns_request q id

    t : Sequencer
    t = record s {
      queue = purge own s.queue;
      locks = purge (owns_lock q) s.locks;
      lock_arb_size = s.lock_arb_size + purged own s.queue + purged (owns_lock q) s.locks;
    }

    rest :
        ((unregister id t).queue ≡ purge own s.queue)
        × ((unregister id t).locks ≡ purge (owns_lock q) s.locks)
        × ((unregister id t).lock_arb_size ≡ t.lock_arb_size)
    rest = unregister-lists id t

remove_at-length :
    (i : ℕ) (q : List Request) (r : Request)
    → get_elem? q i ≡ some r
    → length (remove_at i q) + 1 ≡ length q
unfolding remove_at
remove_at-length i [] r e = cc
remove_at-length zero (x ∷ q) r e = omega arith
remove_at-length (suc i) (x ∷ q) r e = omega (arith, remove_at-length i q r e)

abbrev pub Granted : Sequencer → (Sequence → Bool) → Run (Sequencer × Option ℕ) → Type 0
Granted s relevant (fatal e) = Unit
Granted s relevant (ok (t, none)) = t ≡ s
Granted s relevant (ok (t, some i)) =
    (r : Request) × (get_elem? s.queue i ≡ some r)
    × (eligible relevant s.locks r ≡ true)
    × (t.queue ≡ remove_at i s.queue)
    × (length t.queue + 1 ≡ length s.queue)
    × (exists (λ c. c == r.request_id) t.completed ≡ true)
    × (t.locks ≡ s.locks)

granted :
    (relevant : Sequence → Bool) (s : Sequencer) (x : Run (Option ℕ))
    → OnPick (λ i. good relevant s.locks s.queue i ≡ true) x
    → Granted s relevant (
        x >>= (λ i. ok (s, i)) >>= λ (q : Sequencer × Option ℕ). elim q.1 [
          | none ↦ ok (q.0, none)
          | some i ↦ ok (grant_chosen i q.0, some i)
        ])
unfolding grant_chosen
granted relevant s (fatal e) h = tt
granted relevant s (ok none) h = refl
granted relevant s (ok (some i)) h = go (get_elem? s.queue i) refl
  where
    go :
        (o : Option Request)
        → get_elem? s.queue i ≡ o
        → Granted s relevant (ok (grant_chosen i s, some i))
    go none e = absurd (ground (arith, e, h))
    go (some r) e = (
      r,
      e,
      ground (arith, e, h),
      ground (arith, e),
      ground (arith, e, remove_at-length i s.queue r e),
      ground (arith, e),
      ground (arith, e),
    )

-- A round of m_select_sequence first grants the queued locks. If it then chooses a request, that
-- request was for an item, unblocked and relevant; it alone leaves the queue, its wait is over, and the
-- locks stay. If none can be chosen, nothing else changes.
pub select_sequence-grants :
    (rand : ℕ) (user : Chooser) (relevant : Sequence → Bool) (s : Sequencer)
    → Granted (grant_queued_locks s) relevant (select_sequence rand user relevant s)
unfolding select_sequence choose_next_request
select_sequence-grants rand user relevant s =
    let g = grant_queued_locks s in
    granted relevant g (choose rand user relevant g.arbitration g.locks g.queue)
      (choose-good rand user relevant g.arbitration g.locks g.queue)
