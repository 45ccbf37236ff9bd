-- ===== src/Factory/ByName.antt =====
-- src/uvmsc/factory/uvm_default_factory.cpp: overrides that are set by name.
use system_c_uvm.Base.{
  ◌≡◌, refl, ap, Bool, true, false, ◌&&◌, ◌||◌, not, if◌then◌else◌, String, List, [], ◌∷◌, ◌++◌,
  exists, Option, none, some, Bool-cases, Option-cases, inl, inr, arith,
}
use system_c_uvm.Base.Assoc.{string_key, find}
use system_c_uvm.Factory.{Wrapper, Override, Factory, collect, make_override}
use system_c_uvm.Factory.Setters.{
  report_each, has_orig_name, look_up, override_by_name, replace_by_name, set_type_override_by_name,
}
use system_c_uvm.Factory.Lookup.{first_of}
use system_c_uvm.Factory.Overrides.{ovrd_of, report_each-type_overrides}

-- The type that the first type override of a name produces.
abbrev pub produced_by_name : String → List Override → Option Wrapper
produced_by_name name q = ovrd_of (first_of (has_orig_name name) q)

-- The first of two types that is there.
abbrev pub or_before : Option Wrapper → Option Wrapper → Option Wrapper
or_before none old = old
or_before (some w) old = some w

produced_by_name-replace :
    (name override_name : String) (override : Wrapper) (q : List Override)
    → exists (has_orig_name name) q ≡ true
    → produced_by_name name (replace_by_name name override override_name q) ≡ some override
unfolding first_of replace_by_name
produced_by_name-replace name override_name override [] h = ground (arith, h)
produced_by_name-replace name override_name override (o ∷ q) h =
    ground (arith, h, produced_by_name-replace name override_name override q)

produced_by_name-append :
    (name : String) (q : List Override) (o : Override)
    → exists (has_orig_name name) q ≡ false
    → has_orig_name name o ≡ true
    → produced_by_name name (q ++ o ∷ []) ≡ some o.ovrd_type
unfolding first_of
produced_by_name-append name [] o h t = rw t refl
produced_by_name-append name (x ∷ q) o h t = elim (Bool-cases (has_orig_name name x)) [
  | inl e ↦ ground (arith, h, e)
  | inr e ↦ rw e (produced_by_name-append name q o (ground (arith, h, e)) t)
]

look_up-type_overrides :
    (name : String) (w : Option Wrapper) (f : Factory)
    → (look_up name w f).type_overrides ≡ f.type_overrides
look_up-type_overrides name none f = refl
look_up-type_overrides name (some w) f = refl

made_for :
    (name : String) (original : Option Wrapper) (override : Wrapper)
    → ((v : Wrapper) → original ≡ some v → v.type_name ≡ name)
    → has_orig_name name (make_override "*" name original override) ≡ true
unfolding make_override
made_for name none override h = ground (arith, string_key.same_iff name name)
made_for name (some v) override h = ground (arith, h v refl, string_key.same_iff v.type_name name)

override_by_name-type_overrides :
    (name : String) (original : Option Wrapper) (override_name : String) (override : Wrapper)
    (replace : Bool) (f : Factory)
    → (override_by_name name original override_name override replace f).type_overrides ≡ (
        if not (exists (has_orig_name name) f.type_overrides)
        then f.type_overrides ++ make_override "*" name original override ∷ []
        else if replace
        then replace_by_name name override override_name f.type_overrides
        else f.type_overrides)
override_by_name-type_overrides name original override_name override replace f =
    let g = record f {
      type_overrides = replace_by_name name override override_name f.type_overrides;
    } in
    let h = report_each "TPREGR" (collect (has_orig_name name) f.type_overrides) g in
    ground (
      arith,
      look_up-type_overrides name original f,
      look_up-type_overrides name original h,
      report_each-type_overrides "TPREGR" (collect (has_orig_name name) f.type_overrides) g,
    )

override_by_name-produced :
    (name : String) (original : Option Wrapper) (override_name : String) (override : Wrapper)
    (replace : Bool) (f : Factory)
    → ((v : Wrapper) → original ≡ some v → v.type_name ≡ name)
    → produced_by_name name
        (override_by_name name original override_name override replace f).type_overrides
      ≡ (if replace || not (exists (has_orig_name name) f.type_overrides)
          then some override
          else produced_by_name name f.type_overrides)
unfolding make_override
override_by_name-produced name original override_name override replace f h =
    let o = make_override "*" name original override in
    ground (
      arith,
      ap (produced_by_name name)
          (override_by_name-type_overrides name original override_name override replace f),
      produced_by_name-replace name override_name override f.type_overrides,
      produced_by_name-append name f.type_overrides o,
      made_for name original override h,
    )

-- After set_type_override_by_name the first type override of the original name produces the type of the
-- override name, if that is registered, the two names differ, and there was no type override of the
-- original name or `replace` is set; otherwise it produces what it produced before. The original name,
-- where it is registered, is that of a type of that name.
pub set_type_override_by_name-produced :
    (name override_name : String) (replace : Bool) (f : Factory)
    → ((v : Wrapper) → find name f.type_names ≡ some v → v.type_name ≡ name)
    → produced_by_name name (set_type_override_by_name name override_name replace f).type_overrides
      ≡ (if not (string_key.same name override_name)
            && (replace || not (exists (has_orig_name name) f.type_overrides))
          then or_before (find override_name f.type_names) (produced_by_name name f.type_overrides)
          else produced_by_name name f.type_overrides)
unfolding set_type_override_by_name
set_type_override_by_name-produced name override_name replace f h =
    elim (Option-cases (find override_name f.type_names)) [
      | inl n ↦ ground (arith, n)
      | inr (w, e) ↦ ground (
        arith,
        e,
        override_by_name-produced name (find name f.type_names) override_name w replace f h,
      )
    ]
