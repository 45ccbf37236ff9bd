-- ===== src/Tests/Resource.antt =====
-- Runs of the resource pool (src/uvmsc/conf/uvm_resource_pool.cpp).
use system_c_uvm.Base.{ℕ, ◌≡◌, refl, String, Bool, true, false, [], ◌∷◌, none, some}
use system_c_uvm.Base.Assoc.{string_key, find}
use system_c_uvm.Resource.{
  Resource, Pool, Override, set, lookup_name, get_by_name, collect, insert_sorted,
  get_highest_precedence, sort_by_precedence, add_to_bucket, push_each,
}
use system_c_uvm.Resource.Tables.{set_priority_queue, without, lookup_regex, collect_table}
use system_c_uvm.Resource.Precedence.{has_precedence, Descends, sort_by_precedence-IsStable}
use system_c_uvm.Resource.Highest.{get_highest_precedence-sort_by_precedence}
use system_c_uvm.Resource.Lookup.{get_by_name-rpterr}

abbrev matches : String → String → Bool
matches re s = string_key.same re s

abbrev resource_of : ℕ → ℕ → Resource
resource_of ptr precedence = record {
  ptr = ptr;
  name = "depth";
  type_handle = 7;
  scope = "top";
  precedence = precedence;
  is_regex_name = false;
  access = [];
}

abbrev low : Resource
low = resource_of 1 1000

abbrev high : Resource
high = resource_of 2 1001

abbrev late : Resource
late = resource_of 3 1000

abbrev empty_pool : Pool
empty_pool = record {
  rtab = [];
  ttab = [];
  has_wildcard_names = false;
  get_record = [];
  auditing = true;
}

abbrev by_name_only : Override
by_name_only = record { by_name = true; by_type = false }

abbrev pool : Pool
pool = record empty_pool { rtab = ("depth", low ∷ []) ∷ []; ttab = (7, low ∷ []) ∷ [] }

sorted : sort_by_precedence (low ∷ high ∷ late ∷ []) ≡ high ∷ low ∷ late ∷ []
unfolding sort_by_precedence add_to_bucket push_each
sorted = refl

set_twice : (set (some late) by_name_only pool).rtab ≡ ("depth", late ∷ low ∷ []) ∷ []
unfolding set insert_sorted find
set_twice = refl

unmatched : lookup_name matches "elsewhere" "depth" none false pool ≡ []
unfolding lookup_name collect find
unmatched = refl

raised : set_priority_queue late true (low ∷ high ∷ late ∷ []) ≡ some (late ∷ low ∷ high ∷ [])
unfolding set_priority_queue without
raised = refl

sort_by_precedence-IsStable_example :
    Descends (sort_by_precedence (low ∷ high ∷ late ∷ []))
    × ((j : ℕ)
        → collect (has_precedence j) (sort_by_precedence (low ∷ high ∷ late ∷ []))
          ≡ collect (has_precedence j) (low ∷ high ∷ late ∷ []))
sort_by_precedence-IsStable_example = sort_by_precedence-IsStable (low ∷ high ∷ late ∷ [])

get_highest_precedence-sort_by_precedence_example :
    get_highest_precedence (low ∷ high ∷ late ∷ []) ≡ some high
unfolding sort_by_precedence add_to_bucket push_each
get_highest_precedence-sort_by_precedence_example =
    get_highest_precedence-sort_by_precedence (low ∷ high ∷ late ∷ [])

wide_match : lookup_regex matches (λ s. s) "depth" "top" pool ≡ low ∷ []
unfolding lookup_regex collect collect_table
wide_match = refl

get_by_name-rpterr_example : (get_by_name matches "top" "depth" none true pool).1 ≡ none
get_by_name-rpterr_example = get_by_name-rpterr matches "top" "depth" none pool
