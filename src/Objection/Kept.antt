-- ===== src/Objection/Kept.antt =====
-- src/uvmsc/phasing/uvm_objection.cpp: each call and each step of a drain keeps the pending drains sound.
use system_c_uvm.Base.{
  ℕ, ◌-◌, ◌<◌, ◌≤◌, ◌≡◌, refl, sym, ap, subst, ◌||◌, ltb, true, if◌then◌else◌, ◌==◌, ==_iff, arith,
  List, [], ◌∷◌, ◌++◌, Option, none, some,
}
use system_c_uvm.Base.Assoc.{nat_key, find}
use system_c_uvm.Objection.{
  emptied, Context, Objection, ok, amount, lifted, drop, raise, claim, take_context,
  execute_scheduled_fork, start_drain, finish_drain, clear, stop_drains, without_zero, is_top,
  tail_of,
}
use system_c_uvm.Objection.Totals.{lifted-totals}
use system_c_uvm.Objection.Cycle.{amount-without_zero}
use system_c_uvm.Objection.Drains.{
  contexts, zeros, pending, IsSound, OnOk, OnOk-if, Claimed, claim-Claimed, contexts-append,
  zeros-append, Taken, take_context-Taken, drop-IsSound,
}

pending_same : (obj x : ℕ) (s : Objection) → (obj == x) ≡ true → pending x s ≡ pending obj s
pending_same obj x s e = ap (λ y. pending y s) (sym ((==_iff obj x).0 e))

lifted-IsSound :
    (source count obj : ℕ) (s : Objection)
    → pending obj s ≡ 0
    → IsSound s
    → IsSound (lifted source count obj s)
lifted-IsSound source count obj s none_pending sound = record {
  exclusive = λ x. ground (
    arith,
    lifted-totals source count obj x s,
    sound.exclusive x,
    none_pending,
    pending_same obj x s,
  );
  counted = sound.counted;
}

claim-IsSound :
    (source count obj : ℕ) (s t : Objection) (c : Context)
    → ((x : ℕ) → Claimed obj x (lifted source count obj s) (some (c, t)))
    → IsSound s
    → IsSound t
claim-IsSound source count obj s t c found sound = record {
  exclusive = λ x. ground (
    arith,
    lifted-totals source count obj x s,
    ap (amount x) (found x).2,
    (found x).0,
    sound.exclusive x,
  );
  counted = omega (arith, (found 0).1, sound.counted);
}

pub raise-IsSound :
    (source count : ℕ) (path : List ℕ) (s : Objection)
    → 0 < count
    → IsSound s
    → OnOk IsSound (raise source count path s)
unfolding raise
raise-IsSound source count [] s h sound = sound
raise-IsSound source count (obj ∷ above) s h sound =
    go (claim obj s₁) (λ x. claim-Claimed obj x s₁) (λ n t. raise-IsSound source n above t)
  where
    s₁ : Objection
    s₁ = lifted source count obj s

    go :
        (o : Option (Context × Objection))
        → ((x : ℕ) → Claimed obj x s₁ o)
        → ((n : ℕ) (t : Objection) → 0 < n → IsSound t → OnOk IsSound (raise source n above t))
        → OnOk IsSound (elim o [
          | none ↦ raise source count above s₁
          | some (c, t) ↦
              if count == c.count
              then ok t
              else if ltb c.count count
              then raise source (count - c.count) above t
              else drop source (c.count - count) above t
        ])
    go none found up = up count s₁ h (lifted-IsSound source count obj s (found obj) sound)
    go (some (c, t)) found up =
        let after = claim-IsSound source count obj s t c found sound in
        OnOk-if IsSound (count == c.count) _ _ (λ _. after)
          λ other.
            OnOk-if IsSound (ltb c.count count) _ _
              (λ more. up (count - c.count) t (ground (arith, more)) after)
              (λ less.
                drop-IsSound source (c.count - count) above t (ground (arith, other, less)) after)

pub finish_drain-IsSound : (obj : ℕ) (s : Objection) → IsSound s → OnOk IsSound (finish_drain obj s)
unfolding finish_drain
finish_drain-IsSound obj s sound =
    go (take_context obj s.running) (λ x. take_context-Taken obj x s.running)
  where
    go :
        (o : Option (Context × List Context))
        → ((x : ℕ) → Taken obj x s.running o)
        → OnOk IsSound (elim o [
          | none ↦ ok s
          | some (c, rest) ↦ drop c.source_obj c.count (tail_of c.path) (record s {
            top_all_dropped = is_top c.path || s.top_all_dropped;
            source_count = without_zero obj s.source_count;
            total_count = without_zero obj s.total_count;
            running = rest;
          })
        ])
    go none found = sound
    go (some (c, rest)) found =
        drop-IsSound c.source_obj c.count (tail_of c.path) _
          (ground (arith, (found 0).1, sound.counted))
          (record {
            exclusive = λ x.
                ground
                  (arith, (found x).0, sound.exclusive x, amount-without_zero obj x s.total_count);
            counted = omega (arith, (found 0).1, sound.counted);
          })

pub execute_scheduled_fork-IsSound :
    (s : Objection) → IsSound s → IsSound (execute_scheduled_fork s)
unfolding execute_scheduled_fork
execute_scheduled_fork-IsSound s sound = go s.scheduled refl
  where
    go :
        (l : List Context)
        → s.scheduled ≡ l
        → IsSound
            (elim l [ [] ↦ s | c ∷ cs ↦ record s { scheduled = cs; forked = s.forked ++ c ∷ [] } ])
    go [] e = sound
    go (c ∷ cs) e = record {
      exclusive =
          λ x. ground (arith, ap (contexts x) e, contexts-append x s.forked c, sound.exclusive x);
      counted = ground (arith, ap zeros e, zeros-append s.forked c, sound.counted);
    }

pub start_drain-IsSound : (s : Objection) → IsSound s → IsSound (start_drain s)
unfolding start_drain
start_drain-IsSound s sound = go s.forked refl
  where
    go :
        (l : List Context)
        → s.forked ≡ l
        → IsSound
            (elim l [ [] ↦ s | c ∷ cs ↦ record s { forked = cs; running = s.running ++ c ∷ [] } ])
    go [] e = sound
    go (c ∷ cs) e = record {
      exclusive =
          λ x. ground (arith, ap (contexts x) e, contexts-append x s.running c, sound.exclusive x);
      counted = ground (arith, ap zeros e, zeros-append s.running c, sound.counted);
    }

-- What is left of the drains that were running.
Fewer : List Context → Option (List Context) → Type 0
Fewer l none = Unit
Fewer l (some k) = ((x : ℕ) → contexts x k ≤ contexts x l) × (zeros k ≤ zeros l)

stop_drains-Fewer : (l : List Context) → Fewer l (stop_drains l)
unfolding stop_drains Fewer
stop_drains-Fewer [] = (λ x. omega arith, omega arith)
stop_drains-Fewer (c ∷ []) = (λ x. omega arith, omega arith)
stop_drains-Fewer (c ∷ d ∷ []) = (λ x. ground arith, ground arith)
stop_drains-Fewer (c ∷ d ∷ e ∷ l) = tt

emptied-IsSound :
    (s : Objection) (left : List Context)
    → IsSound s
    → ((x : ℕ) → contexts x left ≤ contexts x s.running)
    → zeros left ≤ zeros s.running
    → IsSound (emptied left s)
unfolding amount find
emptied-IsSound s left sound fewer less = record {
  exclusive = λ x. omega (arith, fewer x, sound.exclusive x);
  counted = omega (arith, less, sound.counted);
}

pub clear-IsSound : (s t : Objection) → IsSound s → clear s ≡ some t → IsSound t
unfolding clear Fewer
clear-IsSound s t sound e = go (stop_drains s.running) (stop_drains-Fewer s.running) e
  where
    go :
        (o : Option (List Context))
        → Fewer s.running o
        → (elim o as (λ _. Option Objection) [ none ↦ none | some left ↦ some (emptied left s) ])
          ≡ some t
        → IsSound t
    go none fewer e = absurd (cc)
    go (some left) fewer e = subst IsSound (cc) (emptied-IsSound s left sound fewer.0 fewer.1)
