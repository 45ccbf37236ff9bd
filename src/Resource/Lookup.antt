-- ===== src/Resource/Lookup.antt =====
-- src/uvmsc/conf/uvm_resource_pool.cpp: what the lookups by name and by type find after a resource
-- is set.
use system_c_uvm.Base.{
  ℕ, ◌≡◌, refl, Bool, true, false, ◌&&◌, not, if◌then◌else◌, ◌==◌, ==_iff, arith, List, [], ◌∷◌,
  ◌++◌, Option, none, some, String,
}
use system_c_uvm.Base.Assoc.{find, find-insert, string_key, nat_key}
use system_c_uvm.Resource.{
  Resource, Pool, Override, queue_of, push, insert_sorted, set, has_type, lookup_name, lookup_type,
  get_by_name, collect, get_highest_precedence,
}

find-insert_sorted :
    (k j : String) (v : List Resource) (m : List (String × List Resource))
    → find j (insert_sorted k v m) ≡ (if string_key.same k j then some v else find j m)
unfolding find insert_sorted
find-insert_sorted k j v [] = refl
find-insert_sorted k j v ((i, w) ∷ m) = ground (
  arith,
  string_key.same_iff k j,
  string_key.same_iff i k,
  string_key.same_iff i j,
  find-insert_sorted k j v m,
)

collect-append_one :
    (p : Resource → Bool) (r : Resource) (q : List Resource)
    → collect p (q ++ r ∷ []) ≡ (if p r then collect p q ++ r ∷ [] else collect p q)
unfolding collect
collect-append_one p r [] = refl
collect-append_one p r (x ∷ q) = ground (arith, collect-append_one p r q)

collect-push :
    (p : Resource → Bool) (b : Bool) (r : Resource) (q : List Resource)
    → collect p (push b r q) ≡ (if p r then push b r (collect p q) else collect p q)
unfolding collect
collect-push p true r q = refl
collect-push p false r q = collect-append_one p r q

-- Which resources a lookup by name sees.
abbrev pub visible : (String → String → Bool) → String → Option ℕ → Resource → Bool
visible matches scope type_handle r = matches r.scope scope && has_type type_handle r

-- A lookup by name after set finds the new resource, in front of what it found before where the
-- name is overridden and behind it otherwise, if the resource has the name that is looked up, that
-- name is not empty, its scope expression matches, it has the type asked for, and no error is to be
-- reported; otherwise the lookup finds what it found before.
pub lookup_name-set :
    (matches : String → String → Bool) (scope name : String) (type_handle : Option ℕ)
    (rpterr : Bool) (r : Resource) (override : Override) (p : Pool)
    → lookup_name matches scope name type_handle rpterr (set (some r) override p) ≡ (
        if string_key.same r.name name
          && not (string_key.same name "")
          && not rpterr
          && visible matches scope type_handle r
        then push override.by_name r (lookup_name matches scope name type_handle rpterr p)
        else lookup_name matches scope name type_handle rpterr p)
unfolding lookup_name set
lookup_name-set matches scope name type_handle true r override p = ground (arith)
lookup_name-set matches scope name type_handle false r override p = ground (
  arith,
  string_key.same_iff r.name name,
  string_key.same_iff r.name "",
  string_key.same_iff name "",
  find-insert_sorted r.name name (push override.by_name r (queue_of (find r.name p.rtab))) p.rtab,
  collect-push (visible matches scope type_handle) override.by_name r (queue_of (find name p.rtab)),
)

-- A lookup by type after set finds the new resource, in front of what it found before where the type
-- is overridden and behind it otherwise, if it has the type that is looked up and its scope
-- expression matches; otherwise the lookup finds what it found before.
pub lookup_type-set :
    (matches : String → String → Bool) (scope : String) (t : ℕ) (r : Resource) (override : Override)
    (p : Pool)
    → lookup_type matches scope (some t) (set (some r) override p) ≡ (
        if r.type_handle == t && matches r.scope scope
        then push override.by_type r (lookup_type matches scope (some t) p)
        else lookup_type matches scope (some t) p)
unfolding lookup_type set
lookup_type-set matches scope t r override p = ground (
  arith,
  ==_iff r.type_handle t,
  find-insert r.type_handle t (push override.by_type r (queue_of (find r.type_handle p.ttab)))
      p.ttab,
  collect-push (λ (x : Resource). matches x.scope scope) override.by_type r
      (queue_of (find t p.ttab)),
)

-- With its argument rpterr set, as it is by default, get_by_name finds nothing, whatever the pool.
pub get_by_name-rpterr :
    (matches : String → String → Bool) (scope name : String) (type_handle : Option ℕ) (p : Pool)
    → (get_by_name matches scope name type_handle true p).1 ≡ none
unfolding get_by_name lookup_name get_highest_precedence
get_by_name-rpterr matches scope name type_handle p = ground arith
