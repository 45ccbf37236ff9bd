-- ===== src/Resource/Highest.antt =====
-- src/uvmsc/conf/uvm_resource_pool.cpp: get_highest_precedence against sort_by_precedence.
use system_c_uvm.Base.{
  ℕ, ◌≤◌, ◌<◌, ◌≡◌, refl, ap, ltb, if◌then◌else◌, ==_iff, arith, List, [], ◌∷◌, some, get_elem?,
  Bool-cases, inl, inr,
}
use system_c_uvm.Resource.{
  Resource, collect, highest_from, get_highest_precedence, sort_by_precedence,
}
use system_c_uvm.Resource.Precedence.{
  has_precedence, Falls, Descends, collect-sort_by_precedence, sort_by_precedence-Descends,
}

highest_from_ge : (r : Resource) (q : List Resource) → r.precedence ≤ (highest_from r q).precedence
unfolding highest_from
highest_from_ge r [] = omega arith
highest_from_ge r (x ∷ q) =
    ground (arith, highest_from_ge (if ltb r.precedence x.precedence then x else r) q)

none_above :
    (k : ℕ) (r : Resource) (q : List Resource)
    → (highest_from r q).precedence < k
    → collect (has_precedence k) (r ∷ q) ≡ []
unfolding highest_from collect
none_above k r [] h = ground (arith, h, ==_iff r.precedence k)
none_above k r (x ∷ q) h = ground (
  arith,
  h,
  none_above k x q,
  none_above k r q,
  highest_from_ge x q,
  highest_from_ge r q,
  ==_iff r.precedence k,
  ==_iff x.precedence k,
)

first_of :
    (r : Resource) (q : List Resource)
    → get_elem? (collect (has_precedence (highest_from r q).precedence) (r ∷ q)) 0
      ≡ some (highest_from r q)
unfolding highest_from collect
first_of r [] = ground (arith, ==_iff r.precedence r.precedence)
first_of r (x ∷ q) = elim (Bool-cases (ltb r.precedence x.precedence)) [
  | inl e ↦ rw e (
      ground (
        arith,
        e,
        first_of x q,
        highest_from_ge x q,
        ==_iff r.precedence (highest_from x q).precedence,
      ))
  | inr e ↦ rw e (
      ground (
        arith,
        e,
        first_of r q,
        highest_from_ge r q,
        ==_iff r.precedence (highest_from r q).precedence,
        ==_iff x.precedence (highest_from r q).precedence,
      ))
]

none_behind : (k n : ℕ) (q : List Resource) → n < k → Falls n q → collect (has_precedence k) q ≡ []
unfolding collect
none_behind k n [] h f = refl
none_behind k n (r ∷ q) h f =
    ground (arith, h, f, none_behind k r.precedence q, ==_iff r.precedence k)

self_first :
    (s : Resource) (l : List Resource)
    → get_elem? (collect (has_precedence s.precedence) (s ∷ l)) 0 ≡ some s
unfolding collect
self_first s l = ground (arith, ==_iff s.precedence s.precedence)

-- Two lists with the same resources of each precedence: where one falls from its head on, the head
-- is what highest_from finds in the other.
head_of :
    (s : Resource) (l : List Resource) (r : Resource) (q : List Resource)
    → Falls s.precedence l
    → ((j : ℕ) → collect (has_precedence j) (s ∷ l) ≡ collect (has_precedence j) (r ∷ q))
    → some (highest_from r q) ≡ some s
head_of s l r q f h = ground (
  arith,
  ap (λ c. get_elem? c 0) (h s.precedence),
  ap (λ c. get_elem? c 0) (h (highest_from r q).precedence),
  self_first s l,
  first_of r q,
  none_above s.precedence r q,
  none_behind (highest_from r q).precedence s.precedence (s ∷ l),
  f,
)

same_head :
    (l q : List Resource)
    → Descends l
    → ((j : ℕ) → collect (has_precedence j) l ≡ collect (has_precedence j) q)
    → get_highest_precedence q ≡ get_elem? l 0
unfolding collect get_highest_precedence
same_head [] [] d h = refl
same_head [] (r ∷ q) d h = ground (arith, ap (λ c. get_elem? c 0) (h r.precedence), self_first r q)
same_head (s ∷ l) [] d h = ground (arith, ap (λ c. get_elem? c 0) (h s.precedence), self_first s l)
same_head (s ∷ l) (r ∷ q) d h = head_of s l r q d h

-- get_highest_precedence finds the resource that sort_by_precedence puts first, in every queue; it
-- finds none where the sorted queue is empty.
pub get_highest_precedence-sort_by_precedence :
    (q : List Resource) → get_highest_precedence q ≡ get_elem? (sort_by_precedence q) 0
get_highest_precedence-sort_by_precedence q =
    same_head (sort_by_precedence q) q (sort_by_precedence-Descends q)
      (λ j. collect-sort_by_precedence j q)
