-- ===== src/Objection/Drains.antt =====
-- src/uvmsc/phasing/uvm_objection.cpp: the drains that are pending, in every reachable state.
use system_c_uvm.Base.{
  ℕ, ◌+◌, ◌≤◌, ◌<◌, ◌≡◌, refl, sym, ap, ◌&&◌, ltb, Bool, true, false, if◌then◌else◌, ◌==◌, ==_iff,
  arith, List, [], ◌∷◌, ◌++◌, Option, none, some,
}
use system_c_uvm.Base.Assoc.{nat_key}
use system_c_uvm.Objection.{
  Context, Objection, Outcome, ok, below_zero, amount, short, lowered, drop, claim, take_context,
  is_of,
}
use system_c_uvm.Objection.Totals.{short-amount, lowered-totals}

-- How many contexts of a list are of the object, and how many have no count.
abbrev pub contexts : ℕ → List Context → ℕ
contexts x [] = 0
contexts x (c ∷ cs) = (if is_of x c then 1 else 0) + contexts x cs

abbrev pub zeros : List Context → ℕ
zeros [] = 0
zeros (c ∷ cs) = (if c.count == 0 then 1 else 0) + zeros cs

-- The drains of an object that are scheduled, forked or running.
abbrev pub pending : ℕ → Objection → ℕ
pending x s = contexts x s.scheduled + contexts x s.forked + contexts x s.running

abbrev pub all_zeros : Objection → ℕ
all_zeros s = zeros s.scheduled + zeros s.forked + zeros s.running

-- An object has objections left or one drain pending, not both.
pub record IsSound (s : Objection) : Type 0 where
  pub exclusive : (x : ℕ) → (if ltb 0 (amount x s.total_count) then 1 else 0) + pending x s ≤ 1
  pub counted : all_zeros s ≡ 0

abbrev pub OnOk : (Objection → Type 0) → Outcome → Type 0
OnOk P (ok s) = P s
OnOk P (below_zero obj) = Unit

pub contexts-append :
    (x : ℕ) (l : List Context) (c : Context)
    → contexts x (l ++ c ∷ []) ≡ contexts x l + (if is_of x c then 1 else 0)
contexts-append x [] c = omega arith
contexts-append x (d ∷ l) c = omega (arith, contexts-append x l c)

pub zeros-append :
    (l : List Context) (c : Context)
    → zeros (l ++ c ∷ []) ≡ zeros l + (if c.count == 0 then 1 else 0)
zeros-append [] c = omega arith
zeros-append (d ∷ l) c = omega (arith, zeros-append l c)

is_of-other : (obj x : ℕ) (c : Context) → is_of obj c ≡ true → is_of x c ≡ (obj == x)
is_of-other obj x c h = go c.path h
  where
    go :
        (p : List ℕ)
        → (elim p as (λ _. Bool) [ [] ↦ false | y ∷ ys ↦ y == obj ]) ≡ true
        → (elim p as (λ _. Bool) [ [] ↦ false | y ∷ ys ↦ y == x ]) ≡ (obj == x)
    go [] e = absurd (ground (arith, e))
    go (y ∷ ys) e = ground (arith, e, ==_iff y obj, ==_iff y x, ==_iff obj x)

-- What the search for a context of `obj` finds, seen from the counts of `x`.
abbrev pub Taken : ℕ → ℕ → List Context → Option (Context × List Context) → Type 0
Taken obj x l none = contexts obj l ≡ 0
Taken obj x l (some (c, rest)) =
    (contexts x rest + (if obj == x then 1 else 0) ≡ contexts x l)
    × (zeros rest + (if c.count == 0 then 1 else 0) ≡ zeros l)

Taken-cons :
    (obj x : ℕ) (c : Context) (l : List Context) (r : Option (Context × List Context))
    → is_of obj c ≡ false
    → Taken obj x l r
    → Taken obj x (c ∷ l) (elim r [ none ↦ none | some d ↦ some (d.0, c ∷ d.1) ])
Taken-cons obj x c l none e h = ground (arith, e, h)
Taken-cons obj x c l (some d) e h = (omega (arith, h.0), omega (arith, h.1))

pub take_context-Taken : (obj x : ℕ) (l : List Context) → Taken obj x l (take_context obj l)
unfolding take_context
take_context-Taken obj x [] = refl
take_context-Taken obj x (c ∷ l) = go (take_context-Taken obj x l) (is_of obj c) refl
  where
    go :
        Taken obj x l (take_context obj l)
        → (b : Bool) → is_of obj c ≡ b
        → Taken obj x (c ∷ l) (
            if b
            then some (c, l)
            else elim (take_context obj l) [ none ↦ none | some d ↦ some (d.0, c ∷ d.1) ])
    go h true e = (ground (arith, is_of-other obj x c e), omega arith)
    go h false e = Taken-cons obj x c l (take_context obj l) e h

-- What m_raise finds pending for `obj`, seen from the counts of `x`.
abbrev pub Claimed : ℕ → ℕ → Objection → Option (Context × Objection) → Type 0
Claimed obj x s none = pending obj s ≡ 0
Claimed obj x s (some (c, t)) =
    (pending x t + (if obj == x then 1 else 0) ≡ pending x s)
    × (all_zeros t ≤ all_zeros s)
    × (t.total_count ≡ s.total_count)

pub claim-Claimed : (obj x : ℕ) (s : Objection) → Claimed obj x s (claim obj s)
unfolding claim
claim-Claimed obj x s =
    go (take_context obj s.scheduled) (take_context obj s.forked) (take_context obj s.running)
      (take_context-Taken obj x s.scheduled) (take_context-Taken obj x s.forked)
      (take_context-Taken obj x s.running)
  where
    go :
        (a b c : Option (Context × List Context))
        → Taken obj x s.scheduled a
        → Taken obj x s.forked b
        → Taken obj x s.running c
        → Claimed obj x s (elim a [
          | some (d, rest) ↦ some (d, record s { scheduled = rest })
          | none ↦ elim b [
            | some (d, rest) ↦ some (d, record s { forked = rest })
            | none ↦ elim c [ some (d, rest) ↦ some (d, record s { running = rest }) | none ↦ none ]
          ]
        ])
    go (some d) b c h i j = (omega (arith, h.0), omega (arith, h.1), refl)
    go none (some d) c h i j = (omega (arith, i.0), omega (arith, i.1), refl)
    go none none (some d) h i j = (omega (arith, j.0), omega (arith, j.1), refl)
    go none none none h i j = omega (arith, h, i, j)

pub OnOk-if :
    (P : Objection → Type 0) (b : Bool) (x y : Outcome)
    → (b ≡ true → OnOk P x)
    → (b ≡ false → OnOk P y)
    → OnOk P (if b then x else y)
OnOk-if P true x y h k = h refl
OnOk-if P false x y h k = k refl

same_amount : (obj x : ℕ) (m : List (ℕ × ℕ)) → (obj == x) ≡ true → amount x m ≡ amount obj m
same_amount obj x m e = ap (λ y. amount y m) (sym ((==_iff obj x).0 e))

lowered-IsSound :
    (source count obj : ℕ) (s : Objection) → IsSound s → IsSound (lowered source count obj s)
lowered-IsSound source count obj s sound = record {
  exclusive = λ x. ground (arith, lowered-totals source count obj x s, sound.exclusive x);
  counted = sound.counted;
}

-- The last drop of an object schedules its drain.
held-IsSound :
    (source count obj : ℕ) (above : List ℕ) (s : Objection)
    → 0 < count
    → count ≤ amount obj s.total_count
    → amount obj (lowered source count obj s).total_count ≡ 0
    → IsSound s
    → IsSound (record (lowered source count obj s) {
      scheduled =
          s.scheduled ++ record { path = obj ∷ above; source_obj = source; count = count } ∷ [];
    })
held-IsSound source count obj above s h enough none_left sound =
    let c : Context = record { path = obj ∷ above; source_obj = source; count = count } in
    record {
      exclusive = λ x. ground (
        arith,
        lowered-totals source count obj x s,
        sound.exclusive x,
        contexts-append x s.scheduled c,
        same_amount obj x s.total_count,
        same_amount obj x (lowered source count obj s).total_count,
      );
      counted = ground (arith, zeros-append s.scheduled c, sound.counted);
    }

pub drop-IsSound :
    (source count : ℕ) (path : List ℕ) (s : Objection)
    → 0 < count
    → IsSound s
    → OnOk IsSound (drop source count path s)
unfolding drop
drop-IsSound source count [] s h sound = sound
drop-IsSound source count (obj ∷ above) s h sound =
    OnOk-if IsSound (short obj count s.total_count) _ _ (λ _. refused)
      λ e.
        OnOk-if IsSound ((obj == source) && short obj count s.source_count) _ _ (λ _. refused)
          λ _.
            OnOk-if IsSound (amount obj (lowered source count obj s).total_count == 0) _ _
              (λ z.
                held-IsSound source count obj above s h
                  (ground (arith, e, short-amount obj count s.total_count h)) ((==_iff _ _).0 z)
                  sound)
              (λ _.
                drop-IsSound source count above (lowered source count obj s) h
                  (lowered-IsSound source count obj s sound))
  where
    refused : OnOk IsSound (if s.cleared then ok s else below_zero obj)
    refused = OnOk-if IsSound s.cleared _ _ (λ _. sound) (λ _. tt)
