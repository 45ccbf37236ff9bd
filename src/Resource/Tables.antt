-- ===== src/Resource/Tables.antt =====
-- src/uvmsc/conf/uvm_resource_pool.cpp: the lookups along the whole table, and the priorities.
use system_c_uvm.Base.{
  ℕ, ◌+◌, ◌&&◌, ltb, Bool, true, false, if◌then◌else◌, ◌==◌, String, List, [], ◌∷◌, ◌++◌, Option,
  none, some,
}
use system_c_uvm.Base.Assoc.{nat_key, string_key, find, insert}
use system_c_uvm.Resource.{Resource, Pool, push, insert_sorted, collect, has_type, lookup_name}

-- What passes a test on the key and one on the resource, along the table.
unfoldable pub collect_table :
    (String → Bool) → (Resource → Bool) → List (String × List Resource) → List Resource
collect_table on_name p [] = []
collect_table on_name p ((name, q) ∷ m) =
    let rest = collect_table on_name p m in if on_name name then collect p q ++ rest else rest

unfoldable pub lookup_regex_names :
    (String → String → Bool) → (String → String) → String → String → Option ℕ → Pool → List Resource
unfolding lookup_name
lookup_regex_names matches to_regex scope name type_handle p =
    if p.has_wildcard_names
    then collect_table (λ re. matches (to_regex re) name)
        (λ r. matches r.scope scope && has_type type_handle r) p.rtab
    else lookup_name matches scope name type_handle false p

unfoldable pub lookup_regex :
    (String → String → Bool) → (String → String) → String → String → Pool → List Resource
lookup_regex matches to_regex re scope p =
    collect_table (λ name. matches (to_regex re) name) (λ r. matches r.scope scope) p.rtab

abbrev backwards {ℓ} : {A : Type ℓ} → List A → List A → List A
backwards [] acc = acc
backwards (x ∷ xs) acc = backwards xs (x ∷ acc)

unfoldable pub lookup_scope : (String → String → Bool) → String → Pool → List Resource
lookup_scope matches scope p =
    collect_table (λ name. true) (λ r. matches r.scope scope) (backwards p.rtab [])

-- The search of set_priority_queue: the queue without the first entry that is the resource.
unfoldable pub without : ℕ → List Resource → Option (List Resource)
without ptr [] = none
without ptr (r ∷ q) =
    if r.ptr == ptr
    then some q
    else elim (without ptr q) [ none ↦ none | some rest ↦ some (r ∷ rest) ]

-- set_priority_queue: `high` is PRI_HIGH; the result is none where it reports an error.
unfoldable pub set_priority_queue : Resource → Bool → List Resource → Option (List Resource)
set_priority_queue r high q = elim (without r.ptr q) [
  | none ↦ none
  | some rest ↦ some (push high r rest)
]

-- What an optional queue does to a table.
abbrev or_kept {ℓ} : {A : Type ℓ} → Option A → A → A
or_kept none a = a
or_kept (some b) a = b

unfoldable pub set_priority_type : Option Resource → Bool → Pool → Pool
set_priority_type none high p = p
set_priority_type (some r) high p = elim (find r.type_handle p.ttab) [
  | none ↦ p
  | some q ↦ record p {
    ttab = insert r.type_handle (or_kept (set_priority_queue r high q) q) p.ttab;
  }
]

unfoldable pub set_priority_name : Option Resource → Bool → Pool → Pool
set_priority_name none high p = p
set_priority_name (some r) high p = elim (find r.name p.rtab) [
  | none ↦ p
  | some q ↦ record p {
    rtab = insert_sorted r.name (or_kept (set_priority_queue r high q) q) p.rtab;
  }
]

unfoldable pub set_priority : Option Resource → Bool → Pool → Pool
set_priority r high p = set_priority_name r high (set_priority_type r high p)

abbrev reads : List (ℕ × ℕ) → ℕ
reads [] = 0
reads (a ∷ as') = a.0 + reads as'

abbrev writes : List (ℕ × ℕ) → ℕ
writes [] = 0
writes (a ∷ as') = a.1 + writes as'

abbrev pub unused : Resource → Bool
unused r = ltb 0 (writes r.access) && reads r.access == 0

unfoldable pub find_unused_resources : Pool → List Resource
find_unused_resources p = collect_table (λ name. true) unused p.rtab
