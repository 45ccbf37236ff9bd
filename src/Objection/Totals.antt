-- ===== src/Objection/Totals.antt =====
-- src/uvmsc/phasing/uvm_objection.cpp: what raises and drops do to the totals along a path.
use system_c_uvm.Base.{
  ℕ, ◌+◌, ◌-◌, ◌≤◌, ◌<◌, ◌≡◌, refl, ◌∙◌, ltb, if◌then◌else◌, ◌==◌, ==_iff, arith, List, [], ◌∷◌,
  none, Option-cases,
}
use system_c_uvm.Base.Assoc.{nat_key, find, insert, find-insert}
use system_c_uvm.Objection.{
  Objection, ok, amount, short, lowered, lifted, drop, raise, claim, take_context,
}

-- What a count along a path adds to one object: the count for each place where it stands.
abbrev pub share : ℕ → List ℕ → ℕ → ℕ
share x [] count = 0
share x (obj ∷ above) count = (if obj == x then count else 0) + share x above count

-- No drain of any object is scheduled, forked or running.
abbrev pub Idle : Objection → Type 0
Idle s = (s.scheduled ≡ []) × (s.forked ≡ []) × (s.running ≡ [])

pub amount-insert :
    (obj x v : ℕ) (m : List (ℕ × ℕ))
    → amount x (insert obj v m) ≡ (if obj == x then v else amount x m)
unfolding amount
amount-insert obj x v m = ground (arith, find-insert obj x v m)

pub short-amount :
    (obj count : ℕ) (m : List (ℕ × ℕ)) → 0 < count → short obj count m ≡ ltb (amount obj m) count
unfolding amount short
short-amount obj count m h = ground (arith, Option-cases (find obj m))

claim-Idle : (obj : ℕ) (s : Objection) → Idle s → claim obj s ≡ none
unfolding claim take_context
claim-Idle obj s idle = ground (arith, idle)

pub lifted-totals :
    (source count obj x : ℕ) (s : Objection)
    → amount x (lifted source count obj s).total_count
      ≡ amount x s.total_count + (if obj == x then count else 0)
lifted-totals source count obj x s =
    ground
      (arith, amount-insert obj x (amount obj s.total_count + count) s.total_count, ==_iff obj x)

lifted-sources :
    (source count obj x : ℕ) (s : Objection)
    → amount x (lifted source count obj s).source_count
      ≡ amount x s.source_count + (if x == source then (if obj == x then count else 0) else 0)
lifted-sources source count obj x s = ground (
  arith,
  amount-insert obj x (amount obj s.source_count + count) s.source_count,
  ==_iff obj x,
  ==_iff obj source,
  ==_iff x source,
)

-- What a raise of `count` from `source` along the path makes of the state.
abbrev pub Raised : ℕ → ℕ → List ℕ → Objection → Objection → Type 0
Raised source count path s t =
    Idle t
    × ((x : ℕ) → amount x t.total_count ≡ amount x s.total_count + share x path count)
    × ((x : ℕ)
        → amount x t.source_count
          ≡ amount x s.source_count + (if x == source then share x path count else 0))

raise-idle :
    (source count obj : ℕ) (above : List ℕ) (s : Objection)
    → claim obj (lifted source count obj s) ≡ none
    → raise source count (obj ∷ above) s ≡ raise source count above (lifted source count obj s)
unfolding raise
raise-idle source count obj above s e = ground (arith, e)

pub raise-Raised :
    (source count : ℕ) (path : List ℕ) (s : Objection)
    → Idle s
    → (t : Objection) × (raise source count path s ≡ ok t) × Raised source count path s t
unfolding raise
raise-Raised source count [] s idle = (s, refl, (idle, (λ x. omega arith), (λ x. ground arith)))
raise-Raised source count (obj ∷ above) s idle =
    let s' = lifted source count obj s in
    let up = raise-Raised source count above s' idle in
    (
      up.0,
      raise-idle source count obj above s (claim-Idle obj s' idle) ∙ up.1,
      (
        up.2.0,
        (λ x. omega (arith, up.2.1 x, lifted-totals source count obj x s)),
        (λ x. ground (arith, up.2.2 x, lifted-sources source count obj x s)),
      ),
    )

pub lowered-totals :
    (source count obj x : ℕ) (s : Objection)
    → amount x (lowered source count obj s).total_count
      ≡ amount x s.total_count - (if obj == x then count else 0)
lowered-totals source count obj x s =
    ground
      (arith, amount-insert obj x (amount obj s.total_count - count) s.total_count, ==_iff obj x)

pub lowered-sources :
    (source count obj x : ℕ) (s : Objection)
    → amount x (lowered source count obj s).source_count
      ≡ amount x s.source_count - (if x == source then (if obj == x then count else 0) else 0)
lowered-sources source count obj x s = ground (
  arith,
  amount-insert obj x (amount obj s.source_count - count) s.source_count,
  ==_iff obj x,
  ==_iff obj source,
  ==_iff x source,
)

-- What a drop that reaches zero nowhere makes of the state.
abbrev pub Dropped : ℕ → ℕ → List ℕ → Objection → Objection → Type 0
Dropped source count path s t =
    ((x : ℕ) → amount x t.total_count ≡ amount x s.total_count - share x path count)
    × ((x : ℕ)
        → amount x t.source_count
          ≡ amount x s.source_count - (if x == source then share x path count else 0))

-- The step of m_drop at an object whose total stays above zero.
drop-step :
    (source count obj : ℕ) (above : List ℕ) (s : Objection)
    → 0 < count
    → count < amount obj s.total_count
    → (obj ≡ source → count ≤ amount obj s.source_count)
    → drop source count (obj ∷ above) s ≡ drop source count above (lowered source count obj s)
unfolding drop
drop-step source count obj above s h total own = ground (
  arith,
  short-amount obj count s.total_count h,
  short-amount obj count s.source_count h,
  lowered-totals source count obj obj s,
  ==_iff obj source,
  ==_iff obj obj,
)

pub drop-Dropped :
    (source count : ℕ) (path : List ℕ) (s : Objection)
    → 0 < count
    → ((x : ℕ) → 0 < share x path count → share x path count < amount x s.total_count)
    → share source path count ≤ amount source s.source_count
    → (t : Objection) × (drop source count path s ≡ ok t) × Dropped source count path s t
unfolding drop
drop-Dropped source count [] s h totals own = (s, refl, ((λ x. omega arith), (λ x. ground arith)))
drop-Dropped source count (obj ∷ above) s h totals own =
    let s' = lowered source count obj s in
    let at_head : share obj (obj ∷ above) count ≡ count + share obj above count =
      ground (arith, ==_iff obj obj) in
    let enough : count < amount obj s.total_count =
      omega (arith, at_head, totals obj (omega (arith, at_head))) in
    let own_enough : obj ≡ source → count ≤ amount obj s.source_count =
      λ e. ground (arith, e, at_head) in
    let rest =
      drop-Dropped source count above s' h
        (λ x g. ground (arith, totals x, lowered-totals source count obj x s))
        (ground (arith, lowered-sources source count obj source s, ==_iff source source)) in
    (
      rest.0,
      drop-step source count obj above s h enough own_enough ∙ rest.1,
      (
        (λ x. omega (arith, rest.2.0 x, lowered-totals source count obj x s)),
        (λ x. ground (arith, rest.2.1 x, lowered-sources source count obj x s)),
      ),
    )
