-- ===== src/Sequencer/Arbiter.antt =====
-- src/uvmsc/seq/uvm_sequencer_base.cpp: m_choose_next_request with its helpers, and the part of
-- m_select_sequence that follows a choice. The values of `rand()` and the virtual functions
-- is_relevant and user_priority_arbitration are arguments. An `int` result of -1 is `none`.
use system_c_uvm.Base.{
  ℕ, zero, suc, ◌+◌, ◌-◌, ◌%◌, ◌^◌, ◌&&◌, not, ltb, Bool, if◌then◌else◌, ◌==◌, String, List, [],
  ◌∷◌, ◌++◌, Option, none, some, exists, length, get_elem?, map,
}
use system_c_uvm.Base.Int.{ℤ, pos, negsuc}
use system_c_uvm.Sequencer.{
  Sequence, Request, Arbitration, arb_fifo, arb_weighted, arb_random, arb_strict_fifo,
  arb_strict_random, arb_user, Sequencer, is_blocked, is_req, grant_queued_locks, update_lists,
}

-- What a call leads to: a value, or a fatal report, which throws.
pub data Run {ℓ} (A : Type ℓ) : Type ℓ where
  ok : A → Run A
  fatal : String → Run A

infixl 5 ◌>>=◌
abbrev pub ◌>>=◌ {ℓ κ} : {A : Type ℓ} {B : Type κ} → Run A → (A → Run B) → Run B
ok a >>= f = f a
fatal e >>= f = fatal e

-- urandom_range, with the value that `rand()` returns; its arithmetic is `unsigned int`.
unfoldable pub urandom_range : ℕ → ℕ → ℕ → ℕ
urandom_range rand max min =
    if min == max then min else (rand % ((max + 2 ^ 32 - min) % 2 ^ 32) + min + 1) % 2 ^ 32

-- m_get_seq_item_priority
abbrev own_priority : ℤ → Run ℕ
own_priority (pos n) = ok n
own_priority (negsuc n) = fatal "SEQDEFPRI"

abbrev item_priority_of : ℤ → ℤ → Run ℕ
item_priority_of (pos n) own = if n == 0 then fatal "SEQITEMPRI" else ok n
item_priority_of (negsuc n) own = if n == 0 then own_priority own else fatal "SEQITEMPRI"

unfoldable pub priority_of : Request → Run ℕ
priority_of r = item_priority_of r.item_priority r.sequence.priority

-- May the request be chosen?
abbrev pub eligible : (Sequence → Bool) → List Sequence → Request → Bool
eligible relevant locks r =
    is_req r.request && (not (is_blocked locks r.sequence) && relevant r.sequence)

-- The first loop. The entries of avail_sequences are kept with the requests that they index.
unfoldable pub avail_from :
    (Sequence → Bool) → List Sequence → ℕ → List Request → List (ℕ × Request)
avail_from relevant locks i [] = []
avail_from relevant locks i (r ∷ rs) =
    let rest = avail_from relevant locks (i + 1) rs in
    if eligible relevant locks r then (i, r) ∷ rest else rest

-- Under SEQ_ARB_FIFO the first loop returns at the first such request.
unfoldable pub first_from : (Sequence → Bool) → List Sequence → ℕ → List Request → Option ℕ
first_from relevant locks i [] = none
first_from relevant locks i (r ∷ rs) =
    let rest = first_from relevant locks (i + 1) rs in
    if eligible relevant locks r then some i else rest

-- The second pass, which drops what is blocked.
unfoldable pub unblocked : List Sequence → List (ℕ × Request) → List (ℕ × Request)
unblocked locks [] = []
unblocked locks (a ∷ as') =
    let rest = unblocked locks as' in if is_blocked locks a.1.sequence then rest else a ∷ rest

-- The sums are of type `int`: a number below 2^32 stands for the `int` with the same 32 digits, so a
-- sum of 2^31 or more is negative, as it is where an overflow, which C++ leaves undefined, wraps.
unfoldable pub add_int : ℕ → ℕ → ℕ
add_int a b = (a + b) % 2 ^ 32

unfoldable pub less_int : ℕ → ℕ → Bool
less_int a b = ltb ((a + 2 ^ 31) % 2 ^ 32) ((b + 2 ^ 31) % 2 ^ 32)

unfoldable pub sum_priorities : List (ℕ × Request) → Run ℕ
unfolding add_int
sum_priorities [] = ok 0
sum_priorities (a ∷ as') =
    priority_of a.1 >>= λ p. sum_priorities as' >>= λ rest. ok (add_int p rest)

-- The loop that finds the entry at which the sum of the priorities passes `temp`.
unfoldable pub weighted_pick : ℕ → ℕ → List (ℕ × Request) → Run (Option ℕ)
unfolding add_int less_int
weighted_pick temp sum [] = fatal "UVM Internal error in weighted arbitration code"
weighted_pick temp sum (a ∷ as') = priority_of a.1 >>= λ p.
    let rest = weighted_pick temp (add_int sum p) as' in
    if less_int temp (add_int p sum) then ok (some a.0) else rest

-- The loop that collects the entries of highest priority.
unfoldable pub highest_loop : ℕ → List (ℕ × Request) → List (ℕ × Request) → Run (List (ℕ × Request))
highest_loop high best [] = ok best
highest_loop high best (a ∷ as') = priority_of a.1 >>= λ p.
    let higher = highest_loop p (a ∷ []) as' in
    let equal = highest_loop high (best ++ a ∷ []) as' in
    let lower = highest_loop high best as' in
    if ltb high p then higher else if p == high then equal else lower

abbrev pub at : List (ℕ × Request) → ℕ → Option ℕ
at as' i = elim (get_elem? as' i) [ none ↦ none | some a ↦ some a.0 ]

-- The virtual user_priority_arbitration, over the indexes.
abbrev pub Chooser : Type 0
Chooser = List ℕ → ℕ

-- The part of the choice that depends on the mode, over at least two available sequences.
unfoldable pub by_mode : ℕ → Chooser → Arbitration → List (ℕ × Request) → Run (Option ℕ)
by_mode rand user arb_fifo as' = ok none
by_mode rand user arb_weighted as' = sum_priorities as' >>= λ sum.
    weighted_pick (urandom_range rand ((sum + 2 ^ 32 - 1) % 2 ^ 32) 0) 0 as'
by_mode rand user arb_random as' = ok (at as' (urandom_range rand (length as' - 1) 0))
by_mode rand user arb_strict_fifo as' = highest_loop 0 [] as' >>= λ best. ok (at best 0)
by_mode rand user arb_strict_random as' =
    highest_loop 0 [] as' >>= λ best. ok (at best (urandom_range rand (length best - 1) 0))
by_mode rand user arb_user as' =
    let i = user (map (λ a. a.0) as') in
    if exists (λ (a : ℕ × Request). a.0 == i) as'
    then ok (some i)
    else fatal "Error in User arbitration, sequence not available"

-- The early returns: nothing available, or one sequence only.
abbrev pub none_or_one : List (ℕ × Request) → (List (ℕ × Request) → Run (Option ℕ)) → Run (Option ℕ)
none_or_one [] k = ok none
none_or_one (a ∷ []) k = ok (some a.0)
none_or_one (a ∷ b ∷ as') k = k (a ∷ b ∷ as')

-- The choice among the requests of a queue, once the locks have been granted.
unfoldable pub choose :
    ℕ → Chooser → (Sequence → Bool) → Arbitration → List Sequence → List Request → Run (Option ℕ)
choose rand user relevant arb_fifo locks q = ok (first_from relevant locks 0 q)
choose rand user relevant mode locks q = none_or_one (avail_from relevant locks 0 q) λ as'.
    if length locks == 0
    then by_mode rand user mode as'
    else none_or_one (unblocked locks as') (by_mode rand user mode)

-- m_choose_next_request
unfoldable pub choose_next_request :
    ℕ → Chooser → (Sequence → Bool) → Sequencer → Run (Sequencer × Option ℕ)
choose_next_request rand user relevant s₀ =
    let s = grant_queued_locks s₀ in
    choose rand user relevant s.arbitration s.locks s.queue >>= λ i. ok (s, i)

unfoldable pub remove_at : ℕ → List Request → List Request
remove_at i [] = []
remove_at zero (r ∷ rs) = rs
remove_at (suc i) (r ∷ rs) = r ∷ remove_at i rs

-- The rest of m_select_sequence, for the index that was chosen.
unfoldable pub grant_chosen : ℕ → Sequencer → Sequencer
grant_chosen i s = elim (get_elem? s.queue i) [
  | none ↦ s
  | some r ↦
      update_lists
        (record s { queue = remove_at i s.queue; completed = r.request_id ∷ s.completed })
]

-- One round of m_select_sequence: `none` is "wait until the lists change, and try again".
unfoldable pub select_sequence :
    ℕ → Chooser → (Sequence → Bool) → Sequencer → Run (Sequencer × Option ℕ)
select_sequence rand user relevant s₀ = choose_next_request rand user relevant s₀ >>= λ r.
    elim r.1 [ none ↦ ok (r.0, none) | some i ↦ ok (grant_chosen i r.0, some i) ]
