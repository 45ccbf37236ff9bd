-- ===== src/Resource.antt =====
-- src/uvmsc/conf/uvm_resource_pool.cpp: the resource pool, which the configuration database reads.
-- A resource is known by its address `ptr`, and a type handle by an address; NULL is `none`. Regular
-- expressions are matched by the C library: `matches` is uvm_re_match(expression, text) == 0, and
-- `to_regex` is uvm_glob_to_re. Precedences are taken to be below 2^31.
pub mod Tables
pub mod Precedence
pub mod Highest
pub mod Lookup
use Prim.Native.Nat.{Ordering}
use Prim.Native.String.{compare}
use system_c_uvm.Base.{
  ℕ, suc, zero, ◌+◌, ◌≡◌, refl, ◌&&◌, ◌||◌, not, ltb, Bool, true, false, if◌then◌else◌, ◌==◌,
  String, arith, List, [], ◌∷◌, ◌++◌, Option, none, some, length, get_elem?,
}
use system_c_uvm.Base.Assoc.{Key, nat_key, string_key, find, insert}

-- uvm_resource_base; `access` has the counts of reads and writes of each accessor.
pub record Resource : Type 0 where
  pub ptr : ℕ
  pub name : String
  pub type_handle : ℕ
  pub scope : String
  pub precedence : ℕ
  pub is_regex_name : Bool
  pub access : List (ℕ × ℕ)

-- get_t, without its time
pub record GetRecord : Type 0 where
  pub name : String
  pub scope : String
  pub rsrc : Option ℕ

-- `rtab` is kept in the order of its keys, in which std::map is walked.
pub record Pool : Type 0 where
  pub rtab : List (String × List Resource)
  pub ttab : List (ℕ × List Resource)
  pub has_wildcard_names : Bool
  pub get_record : List GetRecord
  pub auditing : Bool

-- The two flags of override_t.
pub record Override : Type 0 where
  pub by_name : Bool
  pub by_type : Bool

abbrev pub queue_of : Option (List Resource) → List Resource
queue_of none = []
queue_of (some q) = q

abbrev pub push : Bool → Resource → List Resource → List Resource
push true r q = r ∷ q
push false r q = q ++ r ∷ []

-- `m[k] = v` where the order of the keys is kept.
abbrev precedes : String → String → Bool
precedes a b = elim (compare a b) [ Ordering.lt ↦ true | _ ↦ false ]

unfoldable pub insert_sorted :
    String → List Resource → List (String × List Resource) → List (String × List Resource)
insert_sorted k v [] = (k, v) ∷ []
insert_sorted k v ((j, w) ∷ m) =
    let rest = insert_sorted k v m in
    if string_key.same j k
    then (k, v) ∷ m
    else if precedes k j
    then (k, v) ∷ (j, w) ∷ m
    else (j, w) ∷ rest

-- set; a resource that is NULL changes nothing.
unfoldable pub set : Option Resource → Override → Pool → Pool
set none override p = p
set (some r) override p = record p {
  rtab =
      if string_key.same r.name ""
      then p.rtab
      else insert_sorted r.name (push override.by_name r (queue_of (find r.name p.rtab))) p.rtab;
  ttab =
      insert r.type_handle (push override.by_type r (queue_of (find r.type_handle p.ttab))) p.ttab;
  has_wildcard_names = r.is_regex_name || p.has_wildcard_names;
}

unfoldable pub set_override : Option Resource → Pool → Pool
set_override r = set r (record { by_name = true; by_type = true })

unfoldable pub set_name_override : Option Resource → Pool → Pool
set_name_override r = set r (record { by_name = true; by_type = false })

unfoldable pub set_type_override : Option Resource → Pool → Pool
set_type_override r = set r (record { by_name = false; by_type = true })

unfoldable pub push_get_record : String → String → Option ℕ → Pool → Pool
push_get_record name scope rsrc p =
    if p.auditing
    then record p {
      get_record = p.get_record ++ record { name = name; scope = scope; rsrc = rsrc } ∷ [];
    }
    else p

-- The loops that collect what passes a test.
unfoldable pub collect : (Resource → Bool) → List Resource → List Resource
collect p [] = []
collect p (r ∷ q) = let rest = collect p q in if p r then r ∷ rest else rest

abbrev pub has_type : Option ℕ → Resource → Bool
has_type none r = true
has_type (some t) r = r.type_handle == t

-- spell_check always answers false.
abbrev spell_check : String → Bool
spell_check s = false

unfoldable pub lookup_name :
    (String → String → Bool) → String → String → Option ℕ → Bool → Pool → List Resource
lookup_name matches scope name type_handle rpterr p =
    if string_key.same name ""
    then []
    else if rpterr && not (spell_check name)
    then []
    else collect (λ r. matches r.scope scope && has_type type_handle r)
        (queue_of (find name p.rtab))

-- get_highest_precedence: the loop from the second entry on.
unfoldable pub highest_from : Resource → List Resource → Resource
highest_from rsrc [] = rsrc
highest_from rsrc (r ∷ q) = highest_from (if ltb rsrc.precedence r.precedence then r else rsrc) q

unfoldable pub get_highest_precedence : List Resource → Option Resource
get_highest_precedence [] = none
get_highest_precedence (r ∷ q) = some (highest_from r q)

-- sort_by_precedence: the buckets of `all`, in the order of their keys.
unfoldable pub add_to_bucket : Resource → List (ℕ × List Resource) → List (ℕ × List Resource)
add_to_bucket r [] = (r.precedence, r ∷ []) ∷ []
add_to_bucket r ((k, q) ∷ all) =
    let rest = add_to_bucket r all in
    if r.precedence == k
    then (k, r ∷ q) ∷ all
    else if ltb r.precedence k
    then (r.precedence, r ∷ []) ∷ (k, q) ∷ all
    else (k, q) ∷ rest

unfoldable pub fill_buckets : List Resource → List (ℕ × List Resource) → List (ℕ × List Resource)
fill_buckets [] all = all
fill_buckets (r ∷ q) all = fill_buckets q (add_to_bucket r all)

unfoldable pub push_each : List Resource → List Resource → List Resource
push_each [] q = q
push_each (r ∷ rs) q = push_each rs (r ∷ q)

unfoldable pub empty_buckets : List (ℕ × List Resource) → List Resource → List Resource
empty_buckets [] q = q
empty_buckets ((k, b) ∷ all) q = empty_buckets all (push_each b q)

unfoldable pub sort_by_precedence : List Resource → List Resource
unfolding fill_buckets empty_buckets
sort_by_precedence q = empty_buckets (fill_buckets q []) []

abbrev ptr_of : Option Resource → Option ℕ
ptr_of none = none
ptr_of (some r) = some r.ptr

unfoldable pub get_by_name :
    (String → String → Bool) → String → String → Option ℕ → Bool → Pool → Pool × Option Resource
get_by_name matches scope name type_handle rpterr p =
    let r = get_highest_precedence (lookup_name matches scope name type_handle rpterr p) in
    (push_get_record name scope (ptr_of r) p, r)

unfoldable pub lookup_type : (String → String → Bool) → String → Option ℕ → Pool → List Resource
lookup_type matches scope none p = []
lookup_type matches scope (some t) p =
    collect (λ r. matches r.scope scope) (queue_of (find t p.ttab))

unfoldable pub get_by_type :
    (String → String → Bool) → String → Option ℕ → Pool → Pool × Option Resource
get_by_type matches scope type_handle p =
    let r = get_elem? (lookup_type matches scope type_handle p) 0 in
    (push_get_record "<type>" scope (ptr_of r) p, r)
