-- ===== src/Objection.antt =====
-- src/uvmsc/phasing/uvm_objection.cpp: raising and dropping objections along the hierarchy, and the
-- drain that follows a drop to zero. An object is given by its path: itself, its parent as
-- m_get_parent gives it, and so on up to the top. The source sets m_hier_mode in its constructor and
-- never resets it, so its branches for the other mode are left out. Counts are taken not to be
-- negative and not to overflow. The number of an object stands for its address, by which a std::map
-- orders it. The callbacks, the events and the trace are left out.
pub mod Cycle
pub mod Drains
pub mod Kept
pub mod Reach
pub mod Totals
use system_c_uvm.Base.{
  ℕ, zero, suc, ◌+◌, ◌-◌, ◌≡◌, refl, ◌&&◌, ◌||◌, not, ltb, Bool, true, false, if◌then◌else◌, ◌==◌,
  arith, List, [], ◌∷◌, ◌++◌, Option, none, some,
}
use system_c_uvm.Base.Assoc.{Key, nat_key, find, insert, erase}

-- uvm_objection_context_object, with the path of the object and without the description.
pub record Context : Type 0 where
  pub path : List ℕ
  pub source_obj : ℕ
  pub count : ℕ

-- `scheduled` has this objection's entries of the static m_scheduled_list; `running` is
-- m_forked_contexts.
pub record Objection : Type 0 where
  pub source_count : List (ℕ × ℕ)
  pub total_count : List (ℕ × ℕ)
  pub scheduled : List Context
  pub forked : List Context
  pub running : List Context
  pub cleared : Bool
  pub top_all_dropped : Bool

-- A drop below zero is a fatal report, which throws.
pub data Outcome : Type 0 where
  ok : Objection → Outcome
  below_zero : ℕ → Outcome

-- m_objection_init
unfoldable pub new_objection : Objection
new_objection = record {
  source_count = [];
  total_count = [];
  scheduled = [];
  forked = [];
  running = [];
  cleared = false;
  top_all_dropped = false;
}

-- The count at a key, where a missing one counts as 0.
unfoldable pub amount : ℕ → List (ℕ × ℕ) → ℕ
amount obj m = elim (find obj m) [ none ↦ 0 | some n ↦ n ]

-- Is the key missing, or its count less than what is dropped?
unfoldable pub short : ℕ → ℕ → List (ℕ × ℕ) → Bool
short obj count m = elim (find obj m) [ none ↦ true | some n ↦ ltb n count ]

-- The counts that m_drop and m_raise change at one object.
abbrev pub lowered : ℕ → ℕ → ℕ → Objection → Objection
lowered source count obj s = record s {
  source_count =
      if obj == source
      then insert obj (amount obj s.source_count - count) s.source_count
      else s.source_count;
  total_count = insert obj (amount obj s.total_count - count) s.total_count;
}

abbrev pub lifted : ℕ → ℕ → ℕ → Objection → Objection
lifted source count obj s = record s {
  source_count =
      if obj == source
      then insert obj (amount obj s.source_count + count) s.source_count
      else s.source_count;
  total_count = insert obj (amount obj s.total_count + count) s.total_count;
}

-- m_drop and m_propagate, from the object at the head of the path up to the top.
unfoldable pub drop : ℕ → ℕ → List ℕ → Objection → Outcome
drop source count [] s = ok s
drop source count (obj ∷ above) s =
    let s' = lowered source count obj s in
    let up = drop source count above s' in
    let refused = if s.cleared then ok s else below_zero obj in
    let context : Context = record { path = obj ∷ above; source_obj = source; count = count } in
    if short obj count s.total_count
    then refused
    else if (obj == source) && short obj count s.source_count
    then refused
    else if amount obj s'.total_count == 0
    then ok (record s' { scheduled = s'.scheduled ++ context ∷ [] })
    else up

-- Is the context one of the object?
abbrev pub is_of : ℕ → Context → Bool
is_of obj c = elim c.path [ [] ↦ false | x ∷ xs ↦ x == obj ]

-- The search loops of m_raise: the first context of the object, and the list without it.
unfoldable pub take_context : ℕ → List Context → Option (Context × List Context)
take_context obj [] = none
take_context obj (c ∷ cs) =
    if is_of obj c
    then some (c, cs)
    else elim (take_context obj cs) [ none ↦ none | some (d, rest) ↦ some (d, c ∷ rest) ]

-- The context of a drain of the object that is scheduled, forked or running, which m_raise stops.
unfoldable pub claim : ℕ → Objection → Option (Context × Objection)
claim obj s = elim (take_context obj s.scheduled) [
  | some (c, rest) ↦ some (c, record s { scheduled = rest })
  | none ↦ elim (take_context obj s.forked) [
    | some (c, rest) ↦ some (c, record s { forked = rest })
    | none ↦ elim (take_context obj s.running) [
      | some (c, rest) ↦ some (c, record s { running = rest })
      | none ↦ none
    ]
  ]
]

-- m_raise and m_propagate. With a drain pending, only the difference goes up.
unfoldable pub raise : ℕ → ℕ → List ℕ → Objection → Outcome
raise source count [] s = ok s
raise source count (obj ∷ above) s = elim (claim obj (lifted source count obj s)) [
  | none ↦ raise source count above (lifted source count obj s)
  | some (c, s') ↦
      let higher = raise source (count - c.count) above s' in
      let lower = drop source (c.count - count) above s' in
      if count == c.count then ok s' else if ltb c.count count then higher else lower
]

-- The object itself is the source; an empty path stands for no object.
abbrev pub head_of : List ℕ → ℕ
head_of [] = 0
head_of (obj ∷ above) = obj

unfoldable pub raise_objection : List ℕ → ℕ → Objection → Outcome
raise_objection path count s =
    raise (head_of path) count path (record s { cleared = false; top_all_dropped = false })

unfoldable pub drop_objection : List ℕ → ℕ → Objection → Outcome
drop_objection path count s = drop (head_of path) count path s

-- get_objection_count and get_objection_total
unfoldable pub get_objection_count : ℕ → Objection → ℕ
get_objection_count obj s = amount obj s.source_count

unfoldable pub get_objection_total : ℕ → Objection → ℕ
get_objection_total obj s = amount obj s.total_count

-- One round of m_execute_scheduled_forks, and the start of m_forked_drain_guard.
unfoldable pub execute_scheduled_fork : Objection → Objection
execute_scheduled_fork s = elim s.scheduled [
  | [] ↦ s
  | c ∷ cs ↦ record s { scheduled = cs; forked = s.forked ++ c ∷ [] }
]

unfoldable pub start_drain : Objection → Objection
start_drain s = elim s.forked [
  | [] ↦ s
  | c ∷ cs ↦ record s { forked = cs; running = s.running ++ c ∷ [] }
]

-- `if (exists && count == 0) erase`
abbrev without_zero : ℕ → List (ℕ × ℕ) → List (ℕ × ℕ)
without_zero obj m = elim (find obj m) [ none ↦ m | some n ↦ if n == 0 then erase obj m else m ]

abbrev is_top : List ℕ → Bool
is_top (obj ∷ []) = true
is_top _ = false

abbrev tail_of : List ℕ → List ℕ
tail_of [] = []
tail_of (obj ∷ above) = above

-- m_forked_drain after its wait for the drain time, and the rest of m_forked_drain_guard.
unfoldable pub finish_drain : ℕ → Objection → Outcome
unfolding take_context
finish_drain obj s = elim (take_context obj s.running) [
  | none ↦ ok s
  | some (c, rest) ↦ drop c.source_obj c.count (tail_of c.path) (record s {
    top_all_dropped = is_top c.path || s.top_all_dropped;
    source_count = without_zero obj s.source_count;
    total_count = without_zero obj s.total_count;
    running = rest;
  })
]

-- What clear leaves, with the drains that it does not stop.
abbrev emptied : List Context → Objection → Objection
emptied left s = record s {
  source_count = [];
  total_count = [];
  scheduled = [];
  forked = [];
  running = left;
  cleared = true;
  top_all_dropped = false;
}

-- The object of a context.
abbrev object_of : Context → ℕ
object_of c = elim c.path [ [] ↦ 0 | obj ∷ above ↦ obj ]

-- The loop of clear over m_forked_contexts erases the first entry, that of the lowest address, and
-- keeps its iterator, while its index grows and the size falls. Of one drain or none it leaves none,
-- of two the second; with more it goes on with the erased iterator, which is undefined: `none`.
unfoldable pub stop_drains : List Context → Option (List Context)
stop_drains [] = some []
stop_drains (c ∷ []) = some []
stop_drains (c ∷ d ∷ []) = some ((if ltb (object_of c) (object_of d) then d else c) ∷ [])
stop_drains (c ∷ d ∷ e ∷ cs) = none

unfoldable pub clear : Objection → Option Objection
unfolding stop_drains
clear s = elim (stop_drains s.running) [ none ↦ none | some left ↦ some (emptied left s) ]
