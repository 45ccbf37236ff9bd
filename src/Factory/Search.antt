-- ===== src/Factory/Search.antt =====
-- src/uvmsc/factory/uvm_default_factory.cpp: find_override_by_type ends, where different types have
-- different names.
use mathlib.Core.List.{Memᴰ}
use system_c_uvm.Base.{
  ℕ, suc, zero, ◌+◌, ◌≤◌, ◌<◌, ◌≡◌, ◌≢◌, refl, sym, ap, ◌∙◌, ◌&&◌, ◌||◌, not, Bool, true, false,
  if◌then◌else◌, ◌==◌, ==_iff, String, List, [], ◌∷◌, ◌++◌, exists, Option, none, some, Bool-cases,
  Option-cases, inl, inr, arith, length, All, subst,
}
use system_c_uvm.Base.Assoc.{nat_key, string_key}
use system_c_uvm.Factory.{Wrapper, Override, Factory, is_for, is_unnamed}
use system_c_uvm.Factory.Lookup.{
  Found, out_of_fuel, find_override_by_type, create_by_type, inst_path, override_for, is_origin,
  follow,
}
use system_c_uvm.Factory.Taken.{overrides, Named, Resolved, override_for-Memᴰ}

-- Can the override still be taken, when those of `info` have been?
abbrev pending : List Override → Override → Bool
pending info o = elim o.orig_type [ none ↦ false | some v ↦ not (exists (is_origin v) info) ]

abbrev pub pending_count : List Override → List Override → ℕ
pending_count info [] = 0
pending_count info (o ∷ q) = (if pending info o then 1 else 0) + pending_count info q

pub pending_count_le : (info q : List Override) → pending_count info q ≤ length q
pending_count_le info [] = omega arith
pending_count_le info (o ∷ q) = ground (arith, pending_count_le info q)

exists-append :
    (p : Override → Bool) (a : List Override) (o : Override)
    → exists p (a ++ o ∷ []) ≡ (exists p a || p o)
exists-append p [] o = ground arith
exists-append p (x ∷ a) o = ground (arith, exists-append p a o)

exists_ptr :
    (w v : Wrapper) (q : List Override)
    → w.ptr ≡ v.ptr
    → exists (is_origin w) q ≡ exists (is_origin v) q
exists_ptr w v q e =
    ap (λ p. exists (λ (o : Override). elim o.orig_type [ none ↦ false | some u ↦ u.ptr == p ]) q) e

pending_one :
    (info : List Override) (o x : Override)
    → (if pending (info ++ o ∷ []) x then 1 else 0) ≤ (if pending info x then 1 else 0)
pending_one info o x = elim (Option-cases x.orig_type) [
  | inl n ↦ rw n (omega arith)
  | inr (v, s) ↦ rw s (ground (arith, exists-append (is_origin v) info o))
]

pending_count_mono :
    (info : List Override) (o : Override) (q : List Override)
    → pending_count (info ++ o ∷ []) q ≤ pending_count info q
pending_count_mono info o [] = omega arith
pending_count_mono info o (x ∷ q) = omega (arith, pending_count_mono info o q, pending_one info o x)

pending-some :
    (info : List Override) (x : Override) (v : Wrapper)
    → x.orig_type ≡ some v
    → pending info x ≡ not (exists (is_origin v) info)
pending-some info x v s =
    ap (λ t. elim t [ none ↦ false | some u ↦ not (exists (is_origin u) info) ]) s

is_origin-some : (x : Override) (v : Wrapper) → x.orig_type ≡ some v → is_origin v x ≡ true
is_origin-some x v s =
    ap (λ t. elim t [ none ↦ false | some u ↦ u.ptr == v.ptr ]) s
    ∙ ground (arith, ==_iff v.ptr v.ptr)

exists_taken :
    (info : List Override) (o : Override) (v : Wrapper)
    → o.orig_type ≡ some v
    → exists (is_origin v) (info ++ o ∷ []) ≡ true
exists_taken info o v s = ground (arith, exists-append (is_origin v) info o, is_origin-some o v s)

pending_taken :
    (info : List Override) (o : Override) (v : Wrapper)
    → o.orig_type ≡ some v
    → exists (is_origin v) info ≡ false
    → (pending info o ≡ true) × (pending (info ++ o ∷ []) o ≡ false)
pending_taken info o v s h = (
  pending-some info o v s ∙ ap not h,
  pending-some (info ++ o ∷ []) o v s ∙ ap not (exists_taken info o v s),
)

pending_count_lt :
    (info : List Override) (o : Override) (v : Wrapper) (q : List Override)
    → o.orig_type ≡ some v
    → exists (is_origin v) info ≡ false
    → Memᴰ o q
    → pending_count (info ++ o ∷ []) q < pending_count info q
pending_count_lt info o v [] s h m = elim m [ ]
pending_count_lt info o v (x ∷ q) s h (Memᴰ.head e) =
    let (a, b) = pending_taken info o v s h in
    subst (λ y. pending_count (info ++ o ∷ []) (y ∷ q) < pending_count info (y ∷ q)) e
      (rw (a, b) (omega (arith, pending_count_mono info o q)))
pending_count_lt info o v (x ∷ q) s h (Memᴰ.tail m) =
    omega (arith, pending_count_lt info o v q s h m, pending_one info o x)

All-Memᴰ : (P : Override → Type 0) (q : List Override) (o : Override) → All P q → Memᴰ o q → P o
All-Memᴰ P [] o a m = elim m [ ]
All-Memᴰ P (x ∷ q) o (h, a) (Memᴰ.head e) = subst P (sym e) h
All-Memᴰ P (x ∷ q) o (h, a) (Memᴰ.tail m) = All-Memᴰ P q o a m

same_type :
    (address : String → ℕ) (w v : Wrapper)
    → Named address w
    → Named address v
    → is_unnamed v.type_name ≡ false
    → v.type_name ≡ w.type_name
    → w.ptr ≡ v.ptr
same_type address w v nw nv u e = nw (ap is_unnamed (sym e) ∙ u) ∙ ap address (sym e) ∙ sym (nv u)

is_for-some :
    (w v : Wrapper) (o : Override)
    → o.orig_type ≡ some v
    → o.orig_type_name ≡ v.type_name
    → is_for w o ≡ (
        (v.ptr == w.ptr) || not (is_unnamed v.type_name) && string_key.same v.type_name w.type_name)
unfolding is_for
is_for-some w v o s t =
    ap
      (λ x.
        elim x [ none ↦ false | some u ↦ u.ptr == w.ptr ]
        || not (is_unnamed o.orig_type_name) && string_key.same o.orig_type_name w.type_name)
      s
    ∙ ap (λ x. (v.ptr == w.ptr) || not (is_unnamed x) && string_key.same x w.type_name) t

-- Where names are unambiguous, an override is for the type that it was set for.
is_for_origin :
    (address : String → ℕ) (w : Wrapper) (o : Override) (r : Resolved address o)
    → Named address w
    → is_for w o ≡ true
    → w.ptr ≡ r.0.ptr
is_for_origin address w o (v, s, t, nv, nd) nw h = ground (
  arith,
  sym (is_for-some w v o s t) ∙ h,
  ==_iff v.ptr w.ptr,
  string_key.same_iff v.type_name w.type_name,
  same_type address w v nw nv,
)

follow_ends :
    (w : Wrapper) (info : List Override) (go : Wrapper → List Override → Found)
    (r : Option Override)
    → ((o : Override) → r ≡ some o → go o.ovrd_type (info ++ o ∷ []) ≢ out_of_fuel)
    → follow w info go r ≢ out_of_fuel
follow_ends w info go none h = λ e. ground (arith, e)
follow_ends w info go (some o) h = elim (Bool-cases (o.ovrd_type.ptr == w.ptr)) [
  | inl t ↦ rw t (λ e. ground (arith, e))
  | inr t ↦ rw t (h o refl)
]

pub search_ends :
    (n : ℕ) (matches : String → String → Bool) (address : String → ℕ) (w : Wrapper) (path : String)
    (info : List Override) (f : Factory)
    → All (Resolved address) (overrides f)
    → Named address w
    → pending_count info (overrides f) < n
    → find_override_by_type n matches w path info f ≢ out_of_fuel
unfolding find_override_by_type
search_ends zero matches address w path info f a nw h = ground (arith, h)
search_ends (suc n) matches address w path info f a nw h =
    elim (Bool-cases (exists (is_origin w) info)) [
      | inl t ↦ rw t (λ e. ground (arith, e))
      | inr t ↦ rw t (
          follow_ends w info (λ v l. find_override_by_type n matches v path l f)
            (override_for matches w path f)
            (λ o e.
              let (m, k) = override_for-Memᴰ matches w path f o e in
              let r : Resolved address o = All-Memᴰ (Resolved address) (overrides f) o a m in
              search_ends n matches address o.ovrd_type path (info ++ o ∷ []) f a r.4 (
                omega (
                  arith,
                  h,
                  pending_count_lt info o r.0 (overrides f) r.1
                      (sym (exists_ptr w r.0 info (is_for_origin address w o r nw k)) ∙ t) m,
                ))))
    ]

-- The search of create_object_by_type and create_component_by_type ends for every type and path, with
-- one unit of fuel more than there are overrides, where each override was set for a type that was
-- registered, and different types have different names.
pub create_by_type_ends :
    (n : ℕ) (matches : String → String → Bool) (address : String → ℕ) (w : Wrapper)
    (parent name : String) (f : Factory)
    → All (Resolved address) (overrides f)
    → Named address w
    → length (overrides f) < n
    → create_by_type n matches w parent name f ≢ out_of_fuel
unfolding create_by_type
create_by_type_ends n matches address w parent name f a nw h =
    search_ends n matches address w (inst_path parent name) [] f a nw
      (omega (arith, h, pending_count_le [] (overrides f)))
