-- ===== src/Tests/Objection.antt =====
-- Runs of an objection (src/uvmsc/phasing/uvm_objection.cpp).
use system_c_uvm.Base.{ℕ, ◌<◌, ◌≡◌, refl, false, ==_iff, arith, List, [], ◌∷◌}
use system_c_uvm.Base.Assoc.{nat_key, find, insert}
use system_c_uvm.Objection.{
  Objection, Outcome, ok, below_zero, amount, short, drop, raise, claim, take_context,
  raise_objection, drop_objection, get_objection_count, get_objection_total, execute_scheduled_fork,
  start_drain, finish_drain, new_objection,
}
use system_c_uvm.Objection.Totals.{share, Idle}
use system_c_uvm.Objection.Cycle.{drop_objection-raise_objection, drop_objection-drains}

-- Object 2 below object 1 below the top, 0.
abbrev path : List ℕ
path = 2 ∷ 1 ∷ 0 ∷ []

abbrev busy : Objection
busy = record {
  source_count = (2, 3) ∷ [];
  total_count = (2, 3) ∷ (1, 3) ∷ (0, 3) ∷ [];
  scheduled = [];
  forked = [];
  running = [];
  cleared = false;
  top_all_dropped = false;
}

abbrev total_after : ℕ → Outcome → ℕ
total_after x (ok s) = get_objection_total x s
total_after x (below_zero obj) = 0

raised_once : total_after 0 (raise_objection path 3 new_objection) ≡ 3
unfolding raise_objection raise claim take_context new_objection amount find insert
    get_objection_total
raised_once = refl

-- The object drops its last objection and raises it again before the drain: the top sees nothing.
unfoldable again : Outcome → Outcome
again (ok s) = raise_objection path 3 s
again (below_zero obj) = below_zero obj

raised_again : total_after 0 (again (drop_objection path 3 busy)) ≡ 3
unfolding drop_objection drop raise_objection raise claim take_context amount short find insert
    get_objection_total again
raised_again = refl

positive : (y : ℕ) → 0 < share y path 2 → 0 < get_objection_total y busy
unfolding get_objection_total amount find
positive y h = ground (arith, ==_iff 2 y, ==_iff 1 y, ==_iff 0 y)

drop_objection-raise_objection_example :
    (t u : Objection) × (raise_objection path 2 busy ≡ ok t)
    × (drop_objection path 2 t ≡ ok u)
    × (get_objection_total 0 u ≡ get_objection_total 0 busy)
    × (get_objection_count 0 u ≡ get_objection_count 0 busy)
drop_objection-raise_objection_example =
    drop_objection-raise_objection 0 2 path busy (refl, refl, refl) (omega arith) positive

drop_objection-drains_example :
    (t v : Objection) × (drop_objection path 3 busy ≡ ok t)
    × (get_objection_total 0 t ≡ get_objection_total 0 busy)
    × (finish_drain 2 (start_drain (execute_scheduled_fork t)) ≡ drop 2 3 (1 ∷ 0 ∷ []) v)
    × Idle v
    × (get_objection_total 0 v ≡ get_objection_total 0 t)
unfolding get_objection_total get_objection_count amount find
drop_objection-drains_example =
    drop_objection-drains 0 2 3 (1 ∷ 0 ∷ []) busy (refl, refl, refl) (omega arith) refl refl

abbrev raised : Objection
raised = record {
  source_count = (2, 1) ∷ [];
  total_count = (2, 1) ∷ (1, 1) ∷ (0, 1) ∷ [];
  scheduled = [];
  forked = [];
  running = [];
  cleared = false;
  top_all_dropped = false;
}

abbrev held : Objection
held = record raised {
  source_count = (2, 0) ∷ [];
  total_count = (2, 0) ∷ (1, 1) ∷ (0, 1) ∷ [];
  scheduled = record { path = path; source_obj = 2; count = 1 } ∷ [];
}
