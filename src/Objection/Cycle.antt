-- ===== src/Objection/Cycle.antt =====
-- src/uvmsc/phasing/uvm_objection.cpp: raising and dropping an objection, and the drain in between.
use system_c_uvm.Base.{
  ℕ, ◌+◌, ◌<◌, ◌≡◌, refl, ap, ◌∙◌, ◌||◌, false, if◌then◌else◌, ◌==◌, ==_iff, arith, List, [], ◌∷◌,
  ◌++◌, Option-cases, inl, inr,
}
use system_c_uvm.Base.Assoc.{nat_key, find, find-erase}
use system_c_uvm.Objection.{
  Context, Objection, ok, below_zero, amount, lowered, drop, take_context, raise_objection,
  drop_objection, head_of, get_objection_count, get_objection_total, execute_scheduled_fork,
  start_drain, finish_drain, is_top, without_zero,
}
use system_c_uvm.Objection.Totals.{
  share, Idle, raise-Raised, drop-Dropped, short-amount, lowered-totals,
}

-- With no drain pending a raise succeeds. It adds its count to the total of each object on the path
-- from the object to the top, once for each place where that stands on the path, and to the own
-- count of the object itself; all other totals and counts stay.
pub raise_objection-totals :
    (x count : ℕ) (path : List ℕ) (s : Objection)
    → Idle s
    → (t : Objection) × (raise_objection path count s ≡ ok t)
      × (get_objection_total x t ≡ get_objection_total x s + share x path count)
      × (get_objection_count x t
          ≡ get_objection_count x s + (if x == head_of path then share x path count else 0))
unfolding raise_objection get_objection_total get_objection_count
raise_objection-totals x count path s idle =
    let r =
      raise-Raised (head_of path) count path (record s { cleared = false; top_all_dropped = false })
        idle in
    (r.0, r.1, r.2.1 x, r.2.2 x)

-- With no drain pending, and with an objection left on every object of the path, dropping what has
-- just been raised succeeds and restores every total and every own count.
pub drop_objection-raise_objection :
    (x count : ℕ) (path : List ℕ) (s : Objection)
    → Idle s
    → 0 < count
    → ((y : ℕ) → 0 < share y path count → 0 < get_objection_total y s)
    → (t u : Objection) × (raise_objection path count s ≡ ok t)
      × (drop_objection path count t ≡ ok u)
      × (get_objection_total x u ≡ get_objection_total x s)
      × (get_objection_count x u ≡ get_objection_count x s)
unfolding raise_objection drop_objection get_objection_total get_objection_count
drop_objection-raise_objection x count path s idle h others =
    let source = head_of path in
    let r =
      raise-Raised source count path (record s { cleared = false; top_all_dropped = false }) idle in
    let d =
      drop-Dropped source count path r.0 h (λ y g. omega (arith, r.2.1 y, others y g))
        (ground (arith, r.2.2 source, ==_iff source source)) in
    (r.0, d.0, r.1, d.1, omega (arith, r.2.1 x, d.2.0 x), ground (arith, r.2.2 x, d.2.1 x))

-- Unless the objection has just been cleared, a drop of more than the object has raised itself is a
-- fatal error, also where objects below it still object.
pub drop_objection-below_zero :
    (obj count : ℕ) (above : List ℕ) (s : Objection)
    → s.cleared ≡ false
    → get_objection_count obj s < count
    → drop_objection (obj ∷ above) count s ≡ below_zero obj
unfolding drop_objection drop get_objection_count
drop_objection-below_zero obj count above s cleared more =
    ground (arith, cleared, short-amount obj count s.source_count (omega arith), ==_iff obj obj)

pub amount-without_zero :
    (obj x : ℕ) (m : List (ℕ × ℕ)) → amount x (without_zero obj m) ≡ amount x m
unfolding amount
amount-without_zero obj x m = elim (Option-cases (find obj m)) [
  | inl e ↦ ground (arith, e)
  | inr e ↦ ground (arith, e.1, find-erase obj x m, ==_iff obj x, ==_iff e.0 0)
]

-- The state that m_forked_drain leaves before it propagates.
abbrev drained : ℕ → List ℕ → Objection → Objection
drained obj above t = record t {
  scheduled = [];
  forked = [];
  running = [];
  top_all_dropped = is_top (obj ∷ above) || t.top_all_dropped;
  source_count = without_zero obj t.source_count;
  total_count = without_zero obj t.total_count;
}

abbrev context_of : ℕ → List ℕ → ℕ → Context
context_of obj above count = record { path = obj ∷ above; source_obj = obj; count = count }

forked_once :
    (obj count : ℕ) (above : List ℕ) (t : Objection)
    → t.scheduled ≡ context_of obj above count ∷ []
    → t.forked ≡ []
    → t.running ≡ []
    → start_drain (execute_scheduled_fork t)
      ≡ record t { scheduled = []; forked = []; running = context_of obj above count ∷ [] }
unfolding execute_scheduled_fork start_drain
forked_once obj count above t e f g = ground (arith, e, f, g)

finish_drain-one :
    (obj count : ℕ) (above : List ℕ) (t : Objection)
    → finish_drain obj
        (record t { scheduled = []; forked = []; running = context_of obj above count ∷ [] })
      ≡ drop obj count above (drained obj above t)
unfolding finish_drain take_context
finish_drain-one obj count above t = ground (arith, ==_iff obj obj)

drop-last :
    (obj count : ℕ) (above : List ℕ) (s : Objection)
    → 0 < count
    → amount obj s.total_count ≡ count
    → amount obj s.source_count ≡ count
    → drop obj count (obj ∷ above) s
      ≡ ok (record (lowered obj count obj s) {
        scheduled = s.scheduled ++ context_of obj above count ∷ [];
      })
unfolding drop
drop-last obj count above s h total own = ground (
  arith,
  short-amount obj count s.total_count h,
  short-amount obj count s.source_count h,
  lowered-totals obj count obj obj s,
  ==_iff obj obj,
)

-- The last drop of an object is held back from its ancestors: with no drain pending, it succeeds
-- and changes no total but the object's own, and when the drain has been forked and its time is
-- over, the count is dropped from the object's parent and upward.
pub drop_objection-drains :
    (x obj count : ℕ) (above : List ℕ) (s : Objection)
    → Idle s
    → 0 < count
    → get_objection_total obj s ≡ count
    → get_objection_count obj s ≡ count
    → (t v : Objection) × (drop_objection (obj ∷ above) count s ≡ ok t)
      × (get_objection_total x t ≡ (if obj == x then 0 else get_objection_total x s))
      × (finish_drain obj (start_drain (execute_scheduled_fork t)) ≡ drop obj count above v)
      × Idle v
      × (get_objection_total x v ≡ get_objection_total x t)
unfolding drop_objection get_objection_total get_objection_count
drop_objection-drains x obj count above s idle h total own =
    let t : Objection = record (lowered obj count obj s) {
      scheduled = s.scheduled ++ context_of obj above count ∷ [];
    } in
    (
      t,
      drained obj above t,
      drop-last obj count above s h total own,
      ground (arith, lowered-totals obj count obj x s, ==_iff obj x),
      ap (finish_drain obj) (
            forked_once obj count above t (ap (λ l. l ++ context_of obj above count ∷ []) idle.0)
              idle.1 idle.2)
          ∙ finish_drain-one obj count above t,
      (refl, refl, refl),
      amount-without_zero obj x t.total_count,
    )
