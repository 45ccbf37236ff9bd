-- ===== src/Factory/Overrides.antt =====
-- src/uvmsc/factory/uvm_default_factory.cpp: what the setters of overrides change.
use system_c_uvm.Base.{
  ◌≡◌, refl, ap, ◌∙◌, Bool, true, false, ◌&&◌, ◌||◌, not, if◌then◌else◌, ◌==◌, ==_iff, String, List,
  [], ◌∷◌, ◌++◌, exists, Option, none, some, Bool-cases, inl, inr, arith,
}
use system_c_uvm.Base.Assoc.{nat_key, string_key, find, find-insert}
use system_c_uvm.Factory.{
  Wrapper, Override, Factory, report, is_in, is_for, collect, make_override, is_unnamed,
  register_both, do_register, is_type_registered,
}
use system_c_uvm.Factory.Setters.{report_each, replace_by_type, set_type_override_by_type}
use system_c_uvm.Factory.Lookup.{first_of}

do_register-type_overrides :
    (matches : String → String → Bool) (w : Wrapper) (f : Factory)
    → (do_register matches w f).type_overrides ≡ f.type_overrides
unfolding do_register
do_register-type_overrides matches w f = ground arith

do_register-types :
    (matches : String → String → Bool) (w v : Wrapper) (f : Factory)
    → is_type_registered v (do_register matches w f) ≡ (is_type_registered v f || w.ptr == v.ptr)
unfolding do_register is_type_registered
do_register-types matches w v f =
    ground (arith, find-insert w.ptr v.ptr true f.types, ==_iff w.ptr v.ptr)

-- The second test of register_both never registers the override type.
pub register_both-do_register :
    (matches : String → String → Bool) (original override : Wrapper) (f : Factory)
    → register_both matches original override f
      ≡ (if is_type_registered original f then f else do_register matches original f)
unfolding register_both
register_both-do_register matches original override f =
    ground (arith, do_register-types matches original original f, ==_iff original.ptr original.ptr)

same_registered :
    (a b : Wrapper) (f : Factory) → a.ptr ≡ b.ptr → is_type_registered a f ≡ is_type_registered b f
unfolding is_type_registered
same_registered a b f e = ap (λ k. is_in (find k f.types)) e

register_both-types :
    (matches : String → String → Bool) (original override v : Wrapper) (f : Factory)
    → is_type_registered v (register_both matches original override f)
      ≡ (is_type_registered v f || original.ptr == v.ptr)
register_both-types matches original override v f = ground (
  arith,
  register_both-do_register matches original override f,
  do_register-types matches original v f,
  same_registered original v f,
  ==_iff original.ptr v.ptr,
)

pub register_both-type_overrides :
    (matches : String → String → Bool) (original override : Wrapper) (f : Factory)
    → (register_both matches original override f).type_overrides ≡ f.type_overrides
register_both-type_overrides matches original override f = ground (
  arith,
  register_both-do_register matches original override f,
  do_register-type_overrides matches original f,
)

report_each-types :
    (id : String) (q : List Override) (f : Factory) → (report_each id q f).types ≡ f.types
report_each-types id [] f = refl
report_each-types id (o ∷ q) f = report_each-types id q (report id f)

pub report_each-type_overrides :
    (id : String) (q : List Override) (f : Factory)
    → (report_each id q f).type_overrides ≡ f.type_overrides
report_each-type_overrides id [] f = refl
report_each-type_overrides id (o ∷ q) f = report_each-type_overrides id q (report id f)

pub report_each-queues :
    (id : String) (q : List Override) (f : Factory)
    → (report_each id q f).inst_override_queues ≡ f.inst_override_queues
report_each-queues id [] f = refl
report_each-queues id (o ∷ q) f = report_each-queues id q (report id f)

abbrev pub ovrd_of : Option Override → Option Wrapper
ovrd_of none = none
ovrd_of (some o) = some o.ovrd_type

-- The type that the first type override for a type produces.
abbrev pub produced : Wrapper → List Override → Option Wrapper
produced w q = ovrd_of (first_of (is_for w) q)

is_for_self : (w : Wrapper) (o : Override) → o.orig_type ≡ some w → is_for w o ≡ true
unfolding is_for
is_for_self w o e =
    ap
      (λ x.
        elim x [ none ↦ false | some v ↦ v.ptr == w.ptr ]
        || not (is_unnamed o.orig_type_name) && string_key.same o.orig_type_name w.type_name)
      e
    ∙ ground (arith, ==_iff w.ptr w.ptr)

produced-replace_by_type :
    (original override : Wrapper) (q : List Override)
    → exists (is_for original) q ≡ true
    → produced original (replace_by_type original override q) ≡ some override
unfolding first_of replace_by_type
produced-replace_by_type original override [] h = ground (arith, h)
produced-replace_by_type original override (x ∷ q) h = elim (Bool-cases (is_for original x)) [
  | inl t ↦ rw t (
      rw
        (is_for_self original
          (record x {
            orig_type = some original;
            orig_type_name = original.type_name;
            ovrd_type = override;
            ovrd_type_name = override.type_name;
          })
          refl)
        refl)
  | inr t ↦ rw (t, t) (produced-replace_by_type original override q (ground (arith, h, t)))
]

produced-append :
    (w : Wrapper) (q : List Override) (o : Override)
    → exists (is_for w) q ≡ false
    → is_for w o ≡ true
    → produced w (q ++ o ∷ []) ≡ some o.ovrd_type
unfolding first_of
produced-append w [] o h t = rw t refl
produced-append w (x ∷ q) o h t = elim (Bool-cases (is_for w x)) [
  | inl e ↦ ground (arith, h, e)
  | inr e ↦ rw e (produced-append w q o (ground (arith, h, e)) t)
]

-- set_type_override_by_type, once both types are registered.
abbrev pub added : Wrapper → Wrapper → Override
added original override = record {
  full_inst_path = "*";
  orig_type_name = original.type_name;
  orig_type = some original;
  ovrd_type_name = override.type_name;
  ovrd_type = override;
}

pub set_type_override-type_overrides :
    (matches : String → String → Bool) (original override : Wrapper) (replace : Bool) (f : Factory)
    → (set_type_override_by_type matches original override replace f).type_overrides ≡ (
        if original.ptr == override.ptr
        then f.type_overrides
        else if not (exists (is_for original) f.type_overrides)
        then f.type_overrides ++ added original override ∷ []
        else if replace
        then replace_by_type original override f.type_overrides
        else f.type_overrides)
unfolding set_type_override_by_type make_override
set_type_override-type_overrides matches original override replace f =
    let g = register_both matches original override f in
    ground (
      arith,
      register_both-type_overrides matches original override f,
      report_each-type_overrides "TPREGR" (collect (is_for original) g.type_overrides)
          (record g { type_overrides = replace_by_type original override g.type_overrides }),
    )

-- After set_type_override_by_type the first type override for the original type produces the override
-- type, if the two differ and there was no type override for the original type or `replace` is set;
-- otherwise it produces what it produced before.
pub set_type_override_by_type-produced :
    (matches : String → String → Bool) (original override : Wrapper) (replace : Bool) (f : Factory)
    → produced original
        (set_type_override_by_type matches original override replace f).type_overrides
      ≡ (if not (original.ptr == override.ptr)
            && (replace || not (exists (is_for original) f.type_overrides))
          then some override
          else produced original f.type_overrides)
set_type_override_by_type-produced matches original override replace f = ground (
  arith,
  ap (produced original) (set_type_override-type_overrides matches original override replace f),
  produced-replace_by_type original override f.type_overrides,
  produced-append original f.type_overrides (added original override),
  is_for_self original (added original override) refl,
)

-- set_type_override_by_type registers the original type, if it differs from the override type, and no
-- other type; so it does not register the override type.
pub set_type_override_by_type-types :
    (matches : String → String → Bool) (original override v : Wrapper) (replace : Bool)
    (f : Factory)
    → is_type_registered v (set_type_override_by_type matches original override replace f)
      ≡ (is_type_registered v f || (not (original.ptr == override.ptr) && original.ptr == v.ptr))
unfolding set_type_override_by_type is_type_registered
set_type_override_by_type-types matches original override v replace f =
    let g = register_both matches original override f in
    ground (
      arith,
      register_both-types matches original override v f,
      report_each-types "TPREGR" (collect (is_for original) g.type_overrides)
          (record g { type_overrides = replace_by_type original override g.type_overrides }),
    )
