-- ===== src/Factory/Lookup.antt =====
-- src/uvmsc/factory/uvm_default_factory.cpp: the search for an override, and what the create functions find.
use Prim.Native.String.{◌++◌ as join}
use system_c_uvm.Base.{
  ℕ, suc, zero, ◌&&◌, Bool, false, if◌then◌else◌, ◌==◌, String, List, [], ◌∷◌, ◌++◌, exists, Option,
  none, some,
}
use system_c_uvm.Base.Assoc.{nat_key, string_key, find, insert}
use system_c_uvm.Factory.{Wrapper, Override, Factory, queue_of, report, collect, is_for}
use system_c_uvm.Factory.Setters.{has_orig_name}

-- The path that the create functions make.
unfoldable pub inst_path : String → String → String
inst_path parent name =
    if string_key.same parent ""
    then name
    else if string_key.same name ""
    then parent
    else join parent (join "." name)

unfoldable pub first_of : (Override → Bool) → List Override → Option Override
first_of p [] = none
first_of p (o ∷ q) = if p o then some o else first_of p q

-- The override that find_override_by_type takes for a type: an instance override before a type override.
unfoldable pub inst_override_for :
    (String → String → Bool) → Wrapper → String → Factory → Option Override
unfolding first_of is_for
inst_override_for matches w path f =
    if string_key.same path ""
    then none
    else first_of (λ o. is_for w o && matches o.full_inst_path path)
        (queue_of (find w.ptr f.inst_override_queues))

abbrev pub or_else : Option Override → Option Override → Option Override
or_else none r = r
or_else (some o) r = some o

unfoldable pub override_for :
    (String → String → Bool) → Wrapper → String → Factory → Option Override
unfolding inst_override_for first_of is_for
override_for matches w path f =
    or_else (inst_override_for matches w path f) (first_of (is_for w) f.type_overrides)

-- How a search ends: with a type, or with a loop that is reported at a type; and m_override_info.
pub data Found : Type 0 where
  found : Wrapper → List Override → Found
  loop_found : Wrapper → List Override → Found
  out_of_fuel : Found

-- The test for a loop.
abbrev pub is_origin : Wrapper → Override → Bool
is_origin w o = elim o.orig_type [ none ↦ false | some v ↦ v.ptr == w.ptr ]

-- Where a search goes on, once the override for the type is known.
abbrev pub follow :
    Wrapper → List Override → (Wrapper → List Override → Found) → Option Override → Found
follow w info go none = found w info
follow w info go (some o) =
    if o.ovrd_type.ptr == w.ptr then found w (info ++ o ∷ []) else go o.ovrd_type (info ++ o ∷ [])

unfoldable pub find_override_by_type :
    ℕ → (String → String → Bool) → Wrapper → String → List Override → Factory → Found
unfolding override_for
find_override_by_type zero matches w path info f = out_of_fuel
find_override_by_type (suc n) matches w path info f =
    let go = λ (v : Wrapper) (l : List Override). find_override_by_type n matches v path l f in
    if exists (is_origin w) info
    then loop_found w info
    else follow w info go (override_for matches w path f)

-- The instance overrides that find_override_by_name looks through.
abbrev named_queue : String → Option Wrapper → Factory → List Override
named_queue name none f = queue_of (find name f.inst_override_name_queues)
named_queue name (some w) f = queue_of (find w.ptr f.inst_override_queues)

-- The queue that it makes for a type that has none.
abbrev make_queue : (String → String → Bool) → String → Option Wrapper → Factory → Factory
make_queue matches name none f = f
make_queue matches name (some w) f = elim (find w.ptr f.inst_override_queues) [
  | some _ ↦ f
  | none ↦ elim (f.wildcard_inst_overrides) [
    | [] ↦ f
    | _ ∷ _ ↦ record f {
      inst_override_queues =
          insert w.ptr (collect (λ o. matches o.orig_type_name name) f.wildcard_inst_overrides)
            f.inst_override_queues;
    }
  ]
]

abbrev by_type_name : ℕ → (String → String → Bool) → String → String → Factory → Option Found
by_type_name n matches name path f = elim (first_of (has_orig_name name) f.type_overrides) [
  | none ↦ none
  | some o ↦ some (find_override_by_type n matches o.ovrd_type path (o ∷ []) f)
]

-- find_override_by_name, called with an empty m_override_info; the result is none where it is NULL.
unfoldable pub find_override_by_name :
    ℕ → (String → String → Bool) → String → String → Factory → Factory × Option Found
unfolding first_of collect find_override_by_type
find_override_by_name n matches name path f =
    let rtype = find name f.type_names in
    elim (if string_key.same path ""
      then none
      else first_of (λ o. matches o.orig_type_name name && matches o.full_inst_path path)
          (named_queue name rtype f)) [
            | some o ↦
                if string_key.same o.ovrd_type.type_name name
                then (f, some (found o.ovrd_type (o ∷ [])))
                else (f, some (find_override_by_type n matches o.ovrd_type path (o ∷ []) f))
            | none ↦
                let g = make_queue matches name rtype f in (g, by_type_name n matches name path g)
          ]

-- create_object_by_type and create_component_by_type: the search for the wrapper that creates.
unfoldable pub create_by_type :
    ℕ → (String → String → Bool) → Wrapper → String → String → Factory → Found
unfolding find_override_by_type inst_path
create_by_type n matches w parent name f =
    find_override_by_type n matches w (inst_path parent name) [] f

-- create_object_by_name and create_component_by_name: likewise; none where they return NULL.
unfoldable pub create_by_name :
    ℕ → (String → String → Bool) → String → String → String → Factory → Factory × Option Found
unfolding find_override_by_name inst_path
create_by_name n matches type_name parent name f =
    let (g, r) = find_override_by_name n matches type_name (inst_path parent name) f in
    elim r [
      | some r ↦ (g, some r)
      | none ↦ elim (find type_name g.type_names) [
        | none ↦ (report "BDTYP" g, none)
        | some w ↦ (g, some (found w []))
      ]
    ]

unfoldable pub find_wrapper_by_name : String → Factory → Factory × Option Wrapper
find_wrapper_by_name name f = elim (find name f.type_names) [
  | some w ↦ (f, some w)
  | none ↦ (report "UnknownTypeName" f, none)
]
