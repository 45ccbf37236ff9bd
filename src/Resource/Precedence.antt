-- ===== src/Resource/Precedence.antt =====
-- src/uvmsc/conf/uvm_resource_pool.cpp: the order that sort_by_precedence makes, and the resource
-- that get_highest_precedence finds.
use system_c_uvm.Base.{
  ℕ, suc, ◌≤◌, ◌≡◌, refl, sym, ap, ◌∙◌, Bool, false, if◌then◌else◌, ◌==◌, ==_iff, arith, List, [],
  ◌∷◌, ◌++◌, All, Bool-cases, inl, inr,
}
use mathlib.Core.List.{append-nil}
use system_c_uvm.Resource.{
  Resource, collect, add_to_bucket, fill_buckets, push_each, empty_buckets, sort_by_precedence,
}

abbrev pub has_precedence : ℕ → Resource → Bool
has_precedence k r = r.precedence == k

-- The precedences fall along the list, from `n` on.
abbrev pub Falls : ℕ → List Resource → Type 0
Falls n [] = Unit {0}
Falls n (r ∷ q) = (r.precedence ≤ n) × Falls r.precedence q

abbrev pub Descends : List Resource → Type 0
Descends [] = Unit {0}
Descends (r ∷ q) = Falls r.precedence q

abbrev Climbs : ℕ → List Resource → Type 0
Climbs n [] = Unit {0}
Climbs n (r ∷ q) = (n ≤ r.precedence) × Climbs r.precedence q

-- The buckets one after the other.
abbrev flat : List (ℕ × List Resource) → List Resource
flat [] = []
flat ((k, b) ∷ all) = b ++ flat all

-- Each bucket holds the resources of its key, and the keys climb from `n` on.
abbrev Sorted : ℕ → List (ℕ × List Resource) → Type 0
Sorted n [] = Unit {0}
Sorted n ((k, b) ∷ all) = (n ≤ k) × All (λ r. r.precedence ≡ k) b × Sorted (suc k) all

push_each-append : (a b q : List Resource) → push_each (a ++ b) q ≡ push_each b (push_each a q)
unfolding push_each
push_each-append [] b q = refl
push_each-append (r ∷ a) b q = push_each-append a b (r ∷ q)

push_each_twice : (a b q : List Resource) → push_each (push_each a b) q ≡ push_each b (a ++ q)
unfolding push_each
push_each_twice [] b q = refl
push_each_twice (r ∷ a) b q = push_each_twice a (r ∷ b) q

empty_buckets-flat :
    (all : List (ℕ × List Resource)) (q : List Resource)
    → empty_buckets all q ≡ push_each (flat all) q
unfolding empty_buckets push_each
empty_buckets-flat [] q = refl
empty_buckets-flat ((k, b) ∷ all) q =
    empty_buckets-flat all (push_each b q) ∙ sym (push_each-append b (flat all) q)

collect-append :
    (p : Resource → Bool) (a b : List Resource) → collect p (a ++ b) ≡ collect p a ++ collect p b
unfolding collect
collect-append p [] b = refl
collect-append p (r ∷ a) b = ground (arith, collect-append p a b)

collect-push_each :
    (p : Resource → Bool) (a q : List Resource)
    → collect p (push_each a q) ≡ push_each (collect p a) (collect p q)
unfolding collect push_each
collect-push_each p [] q = refl
collect-push_each p (r ∷ a) q = elim (Bool-cases (p r)) [
  | inl e ↦ rw e (collect-push_each p a (r ∷ q) ∙ ap (push_each (collect p a)) (rw e refl))
  | inr e ↦ rw e (collect-push_each p a (r ∷ q) ∙ ap (push_each (collect p a)) (rw e refl))
]

add_to_bucket-Sorted :
    (r : Resource) (n : ℕ) (all : List (ℕ × List Resource))
    → n ≤ r.precedence
    → Sorted n all
    → Sorted n (add_to_bucket r all)
unfolding add_to_bucket
add_to_bucket-Sorted r n [] h s = (h, (refl, tt), tt)
add_to_bucket-Sorted r n ((k, b) ∷ all) h s =
    ground (arith, h, s, add_to_bucket-Sorted r (suc k) all, ==_iff r.precedence k)

none_of :
    (j k : ℕ) (b : List Resource)
    → (j == k) ≡ false
    → All (λ r. r.precedence ≡ k) b
    → collect (has_precedence j) b ≡ []
unfolding collect
none_of j k [] h a = refl
none_of j k (r ∷ b) h a = ground (arith, h, a, none_of j k b h, ==_iff r.precedence j, ==_iff j k)

collect-add_to_bucket :
    (j : ℕ) (r : Resource) (n : ℕ) (all : List (ℕ × List Resource))
    → Sorted n all
    → collect (has_precedence j) (flat (add_to_bucket r all)) ≡ (
        if r.precedence == j
        then r ∷ collect (has_precedence j) (flat all)
        else collect (has_precedence j) (flat all))
unfolding collect add_to_bucket
collect-add_to_bucket j r n [] s = refl
collect-add_to_bucket j r n ((k, b) ∷ all) s = ground (
  arith,
  s,
  collect-add_to_bucket j r (suc k) all,
  collect-append (has_precedence j) b (flat all),
  collect-append (has_precedence j) b (flat (add_to_bucket r all)),
  none_of j k b,
  ==_iff r.precedence k,
  ==_iff r.precedence j,
  ==_iff j k,
)

fill_buckets-Sorted :
    (q : List Resource) (all : List (ℕ × List Resource))
    → Sorted 0 all
    → Sorted 0 (fill_buckets q all)
unfolding fill_buckets
fill_buckets-Sorted [] all s = s
fill_buckets-Sorted (r ∷ q) all s =
    fill_buckets-Sorted q (add_to_bucket r all) (add_to_bucket-Sorted r 0 all (omega arith) s)

collect-fill_buckets :
    (j : ℕ) (q : List Resource) (all : List (ℕ × List Resource))
    → Sorted 0 all
    → collect (has_precedence j) (flat (fill_buckets q all))
      ≡ push_each (collect (has_precedence j) q) (collect (has_precedence j) (flat all))
unfolding collect fill_buckets push_each
collect-fill_buckets j [] all s = refl
collect-fill_buckets j (r ∷ q) all s = ground (
  arith,
  collect-fill_buckets j q (add_to_bucket r all) (add_to_bucket-Sorted r 0 all (omega arith) s),
  collect-add_to_bucket j r 0 all s,
)

pub collect-sort_by_precedence :
    (j : ℕ) (q : List Resource)
    → collect (has_precedence j) (sort_by_precedence q) ≡ collect (has_precedence j) q
unfolding collect push_each sort_by_precedence
collect-sort_by_precedence j q =
    ap (collect (has_precedence j)) (empty_buckets-flat (fill_buckets q []) [])
    ∙ collect-push_each (has_precedence j) (flat (fill_buckets q [])) []
    ∙ ap (λ l. push_each l (collect (has_precedence j) [])) (collect-fill_buckets j q [] tt)
    ∙ push_each_twice (collect (has_precedence j) q) [] []
    ∙ append-nil (collect (has_precedence j) q)

Falls-mono : (n m : ℕ) (q : List Resource) → n ≤ m → Falls n q → Falls m q
Falls-mono n m [] h f = tt
Falls-mono n m (r ∷ q) h f = ground (arith, h, f)

Climbs-mono : (n m : ℕ) (q : List Resource) → n ≤ m → Climbs m q → Climbs n q
Climbs-mono n m [] h f = tt
Climbs-mono n m (r ∷ q) h f = ground (arith, h, f)

Falls-Descends : (n : ℕ) (q : List Resource) → Falls n q → Descends q
Falls-Descends n [] f = tt
Falls-Descends n (r ∷ q) f = f.1

push_each-Descends :
    (n : ℕ) (c q : List Resource) → Climbs n c → Falls n q → Descends (push_each c q)
unfolding push_each
push_each-Descends n [] q c f = Falls-Descends n q f
push_each-Descends n (r ∷ rs) q (h, c) f =
    push_each-Descends r.precedence rs (r ∷ q) c (omega arith, Falls-mono n r.precedence q h f)

append-Climbs :
    (n k : ℕ) (b q : List Resource)
    → n ≤ k
    → All (λ r. r.precedence ≡ k) b
    → Climbs k q
    → Climbs n (b ++ q)
append-Climbs n k [] q h a c = Climbs-mono n k q h c
append-Climbs n k (r ∷ b) q h (e, a) c =
    (omega (arith, e, h), append-Climbs r.precedence k b q (omega (arith, e)) a c)

flat-Climbs : (n : ℕ) (all : List (ℕ × List Resource)) → Sorted n all → Climbs n (flat all)
flat-Climbs n [] s = tt
flat-Climbs n ((k, b) ∷ all) (h, a, s) =
    append-Climbs n k b (flat all) h a
      (Climbs-mono k (suc k) (flat all) (omega arith) (flat-Climbs (suc k) all s))

pub sort_by_precedence-Descends : (q : List Resource) → Descends (sort_by_precedence q)
unfolding sort_by_precedence
sort_by_precedence-Descends q = rw (empty_buckets-flat (fill_buckets q []) []) (
    push_each-Descends 0 (flat (fill_buckets q [])) []
      (flat-Climbs 0 (fill_buckets q []) (fill_buckets-Sorted q [] tt)) tt)

-- sort_by_precedence leaves no resource behind one of a lower precedence, and it keeps the resources of
-- each precedence, as many of them and in their order.
pub sort_by_precedence-IsStable :
    (q : List Resource)
    → Descends (sort_by_precedence q)
      × ((j : ℕ) → collect (has_precedence j) (sort_by_precedence q) ≡ collect (has_precedence j) q)
sort_by_precedence-IsStable q = (sort_by_precedence-Descends q, λ j. collect-sort_by_precedence j q)
