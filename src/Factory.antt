-- ===== src/Factory.antt =====
-- src/uvmsc/factory/uvm_default_factory.cpp and uvm_factory_override.cpp: the default factory, without
-- its debug pass (m_debug_pass is false here, and `selected` is not kept). A wrapper is known by its
-- address `ptr`; the wrappers that are passed are not NULL, but for a type that a name does not have,
-- which is `none`. `matches` is uvm_is_match, which calls the C library's regular expressions. The tables
-- are kept in the order of insertion. `reports` has the identifiers of the reports that are issued.
pub mod Setters
pub mod Lookup
pub mod Taken
pub mod Search
pub mod Chain
pub mod Overrides
pub mod Configured
pub mod Settings
pub mod Registration
pub mod ByName
use Prim.Native.String.{◌++◌ as join}
use text.Mathlib.Text.{find?}
use system_c_uvm.Base.{
  ℕ, suc, zero, ◌≡◌, ◌&&◌, ◌||◌, not, Bool, true, false, if◌then◌else◌, ◌==◌, String, List, [], ◌∷◌,
  ◌++◌, exists, Option, none, some,
}
use system_c_uvm.Base.Assoc.{Key, nat_key, string_key, find, insert, erase}

-- uvm_object_wrapper
pub record Wrapper : Type 0 where
  pub ptr : ℕ
  pub type_name : String

-- uvm_factory_override, without `selected`
pub record Override : Type 0 where
  pub full_inst_path : String
  pub orig_type_name : String
  pub orig_type : Option Wrapper
  pub ovrd_type_name : String
  pub ovrd_type : Wrapper

-- The members of uvm_default_factory.
pub record Factory : Type 0 where
  pub types : List (ℕ × Bool)
  pub type_names : List (String × Wrapper)
  pub lookup_strs : List (String × Bool)
  pub type_overrides : List Override
  pub inst_override_queues : List (ℕ × List Override)
  pub inst_override_name_queues : List (String × List Override)
  pub wildcard_inst_overrides : List Override
  pub reports : List String

abbrev pub is_in {ℓ} : {A : Type ℓ} → Option A → Bool
is_in none = false
is_in (some a) = true

abbrev pub queue_of : Option (List Override) → List Override
queue_of none = []
queue_of (some q) = q

abbrev pub report : String → Factory → Factory
report id f = record f { reports = f.reports ++ id ∷ [] }

abbrev pub is_unnamed : String → Bool
is_unnamed name = string_key.same name "" || string_key.same name "<unknown>"

-- uvm_factory_override::uvm_factory_override, whose override type is not NULL.
abbrev pub name_of : String → Option Wrapper → String
name_of name none = name
name_of name (some w) = w.type_name

unfoldable pub make_override : String → String → Option Wrapper → Wrapper → Override
make_override full_inst_path orig_type_name orig_type ovrd_type = record {
  full_inst_path = full_inst_path;
  orig_type_name = name_of orig_type_name orig_type;
  orig_type = orig_type;
  ovrd_type_name = ovrd_type.type_name;
  ovrd_type = ovrd_type;
}

unfoldable pub is_type_name_registered : String → Factory → Bool
is_type_name_registered name f = is_in (find name f.type_names)

unfoldable pub is_type_registered : Wrapper → Factory → Bool
is_type_registered w f = is_in (find w.ptr f.types)

-- The overrides of a list that a test keeps, in their order.
unfoldable pub collect : (Override → Bool) → List Override → List Override
collect p [] = []
collect p (o ∷ q) = let rest = collect p q in if p o then o ∷ rest else rest

-- do_register: the type's name,
abbrev pub register_name : Wrapper → Factory → Factory
register_name w f = if is_unnamed w.type_name then f else elim (find w.type_name f.type_names) [
  | none ↦ record f { type_names = insert w.type_name w f.type_names }
  | some other ↦ report "TPRGED" f
]

-- the instance overrides that wait for the name,
abbrev pub take_named : Wrapper → Factory → Factory
take_named w f = elim (find w.type_name f.inst_override_name_queues) [
  | none ↦ f
  | some q ↦ record f {
    inst_override_queues = insert w.ptr q f.inst_override_queues;
    inst_override_name_queues = erase w.type_name f.inst_override_name_queues;
  }
]

-- and the instance overrides with wildcards.
abbrev pub take_wildcards : (String → String → Bool) → Wrapper → Factory → Factory
take_wildcards matches w f = elim (f.wildcard_inst_overrides) [
  | [] ↦ f
  | _ ∷ _ ↦ record f {
    inst_override_queues =
        insert w.ptr
          (queue_of (find w.ptr f.inst_override_queues)
            ++ collect (λ o. matches o.orig_type_name w.type_name) f.wildcard_inst_overrides)
          f.inst_override_queues;
  }
]

abbrev pub register_type : (String → String → Bool) → Wrapper → Factory → Factory
register_type matches w f = elim (find w.ptr f.types) [
  | some _ ↦ if is_unnamed w.type_name then f else report "TPRGED" f
  | none ↦ take_wildcards matches w (take_named w (record f { types = insert w.ptr true f.types }))
]

unfoldable pub do_register : (String → String → Bool) → Wrapper → Factory → Factory
do_register matches w f = register_type matches w (register_name w f)

-- What the setters do first. The second test is on the original type again.
unfoldable pub register_both : (String → String → Bool) → Wrapper → Wrapper → Factory → Factory
unfolding do_register is_type_registered
register_both matches original override f =
    let g = if is_type_registered original f then f else do_register matches original f in
    if is_type_registered original g then g else do_register matches override g

-- An override is for a type by its address, or by a name that is given.
unfoldable pub is_for : Wrapper → Override → Bool
is_for w o =
    elim o.orig_type [ none ↦ false | some v ↦ v.ptr == w.ptr ]
    || (not (is_unnamed o.orig_type_name) && string_key.same o.orig_type_name w.type_name)
