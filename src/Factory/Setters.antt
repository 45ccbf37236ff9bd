-- ===== src/Factory/Setters.antt =====
-- src/uvmsc/factory/uvm_default_factory.cpp: the setters of type overrides and instance overrides.
use text.Mathlib.Text.{find?}
use system_c_uvm.Base.{
  ◌&&◌, ◌||◌, not, Bool, true, false, if◌then◌else◌, ◌==◌, String, List, [], ◌∷◌, ◌++◌, exists,
  Option, none, some,
}
use system_c_uvm.Base.Assoc.{nat_key, string_key, find, insert}
use system_c_uvm.Factory.{
  Wrapper, Override, Factory, is_in, queue_of, report, make_override, collect, register_both,
  is_for,
}

-- The loop of set_type_override_by_type where `replace` is set.
unfoldable pub replace_by_type : Wrapper → Wrapper → List Override → List Override
replace_by_type original override [] = []
replace_by_type original override (o ∷ q) =
    (if is_for original o
      then record o {
        orig_type = some original;
        orig_type_name = original.type_name;
        ovrd_type = override;
        ovrd_type_name = override.type_name;
      }
      else o)
    ∷ replace_by_type original override q

-- A report for each override that a test keeps.
abbrev pub report_each : String → List Override → Factory → Factory
report_each id [] f = f
report_each id (o ∷ q) f = report_each id q (report id f)

abbrev pub add_type_override : Override → Factory → Factory
add_type_override o f = record f { type_overrides = f.type_overrides ++ o ∷ [] }

unfoldable pub set_type_override_by_type :
    (String → String → Bool) → Wrapper → Wrapper → Bool → Factory → Factory
unfolding register_both is_for replace_by_type collect make_override
set_type_override_by_type matches original override replace f =
    if original.ptr == override.ptr
    then report "TYPDUP" f
    else let g = register_both matches original override f in
      if not (exists (is_for original) g.type_overrides)
      then add_type_override (make_override "*" original.type_name (some original) override) g
      else if replace
      then report_each "TPREGR" (collect (is_for original) g.type_overrides)
          (record g { type_overrides = replace_by_type original override g.type_overrides })
      else report "TPREGD" g

abbrev pub has_orig_name : String → Override → Bool
has_orig_name name o = string_key.same o.orig_type_name name

-- The loop of set_type_override_by_name where `replace` is set.
unfoldable pub replace_by_name : String → Wrapper → String → List Override → List Override
replace_by_name original override name [] = []
replace_by_name original override name (o ∷ q) =
    (if has_orig_name original o
      then record o { ovrd_type = override; ovrd_type_name = name }
      else o)
    ∷ replace_by_name original override name q

-- `m_lookup_strs[name] = true` for a name that no type has.
abbrev pub look_up : String → Option Wrapper → Factory → Factory
look_up name none f = record f { lookup_strs = insert name true f.lookup_strs }
look_up name (some w) f = f

abbrev pub override_by_name : String → Option Wrapper → String → Wrapper → Bool → Factory → Factory
override_by_name original_name original override_name override replace f =
    if not (exists (has_orig_name original_name) f.type_overrides)
    then add_type_override (make_override "*" original_name original override)
        (look_up original_name original f)
    else if replace
    then look_up original_name original (
        report_each "TPREGR" (collect (has_orig_name original_name) f.type_overrides) (record f {
          type_overrides = replace_by_name original_name override override_name f.type_overrides;
        }))
    else report "TPREGD" f

unfoldable pub set_type_override_by_name : String → String → Bool → Factory → Factory
unfolding replace_by_name collect make_override
set_type_override_by_name original_name override_name replace f =
    elim (find override_name f.type_names) [
      | none ↦ report "TYPNTF" f
      | some override ↦
          if string_key.same original_name override_name
          then report "TYPDUP" f
          else override_by_name original_name (find original_name f.type_names) override_name
              override replace f
    ]

abbrev pub is_same : Wrapper → Wrapper → String → Override → Bool
is_same original override full_inst_path o =
    string_key.same o.full_inst_path full_inst_path
    && elim o.orig_type [ none ↦ false | some v ↦ v.ptr == original.ptr ]
    && o.ovrd_type.ptr == override.ptr
    && string_key.same o.orig_type_name original.type_name

unfoldable pub check_inst_override_exists : Wrapper → Wrapper → String → Factory → Bool
check_inst_override_exists original override full_inst_path f =
    exists (is_same original override full_inst_path)
      (queue_of (find original.ptr f.inst_override_queues))

-- The end of both setters of instance overrides, for an original type that is not NULL.
unfoldable pub add_inst_override : Wrapper → Wrapper → String → Factory → Factory
unfolding check_inst_override_exists make_override
add_inst_override original override full_inst_path f =
    if check_inst_override_exists original override full_inst_path f
    then report "DUPOVRD" f
    else record f {
      inst_override_queues =
          insert original.ptr
            (queue_of (find original.ptr f.inst_override_queues)
              ++ make_override full_inst_path original.type_name (some original) override ∷ [])
            f.inst_override_queues;
    }

unfoldable pub set_inst_override_by_type :
    (String → String → Bool) → Wrapper → Wrapper → String → Factory → Factory
unfolding register_both add_inst_override
set_inst_override_by_type matches original override full_inst_path f =
    add_inst_override original override full_inst_path (register_both matches original override f)

unfoldable pub m_has_wildcard : String → Bool
m_has_wildcard name = is_in (find? name "*") || is_in (find? name "?")

-- The loop over the registered names that match: each call finds both types registered.
unfoldable pub add_inst_overrides :
    (String → Bool) → Wrapper → String → List (String × Wrapper) → Factory → Factory
add_inst_overrides on_name override full_inst_path [] f = f
add_inst_overrides on_name override full_inst_path ((name, w) ∷ names) f =
    add_inst_overrides on_name override full_inst_path names
      (if on_name name then add_inst_override w override full_inst_path f else f)

abbrev pub add_wildcard : Override → Factory → Factory
add_wildcard o f = record f { wildcard_inst_overrides = f.wildcard_inst_overrides ++ o ∷ [] }

-- What is done where no type has the original name.
unfoldable pub override_unregistered :
    (String → String → Bool) → String → Wrapper → String → Factory → Factory
unfolding m_has_wildcard add_inst_overrides make_override
override_unregistered matches original override full_inst_path f =
    if m_has_wildcard original
    then add_wildcard (make_override full_inst_path original none override)
        (add_inst_overrides (λ s. matches original s) override full_inst_path f.type_names f)
    else record f {
      inst_override_name_queues =
          insert original
            (queue_of (find original f.inst_override_name_queues)
              ++ make_override full_inst_path original none override ∷ [])
            f.inst_override_name_queues;
    }

unfoldable pub set_inst_override_by_name :
    (String → String → Bool) → String → String → String → Factory → Factory
unfolding add_inst_override override_unregistered
set_inst_override_by_name matches original_name override_name full_inst_path f =
    elim (find override_name f.type_names) [
      | none ↦ report "TYPNTF" f
      | some override ↦ elim (find original_name f.type_names) [
        | some original ↦ add_inst_override original override full_inst_path f
        | none ↦
            override_unregistered matches original_name override full_inst_path
              (look_up original_name none f)
      ]
    ]
