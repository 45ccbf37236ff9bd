-- ===== src/Factory/Settings.antt =====
-- src/uvmsc/factory/uvm_default_factory.cpp: a factory after any sequence of settings by type.
use system_c_uvm.Base.{
  ℕ, suc, ◌+◌, ◌≤◌, ◌≡◌, refl, ap, ◌∙◌, Bool, ◌==◌, String, List, [], ◌∷◌, ◌++◌, some, Bool-cases,
  inl, inr, arith, length, length-append, All,
}
use system_c_uvm.Base.Assoc.{nat_key, string_key, find, insert}
use system_c_uvm.Factory.{
  Wrapper, Override, Factory, is_for, collect, make_override, register_both, queue_of,
}
use system_c_uvm.Factory.Setters.{
  replace_by_type, set_type_override_by_type, set_inst_override_by_type, add_inst_override,
}
use system_c_uvm.Factory.Lookup.{create_by_type, inst_path}
use system_c_uvm.Factory.Taken.{overrides, all_queues, Named}
use system_c_uvm.Factory.Chain.{Leads, create_by_type-Leads}
use system_c_uvm.Factory.Overrides.{
  register_both-do_register, report_each-queues, register_both-type_overrides,
  set_type_override-type_overrides, added,
}
use system_c_uvm.Factory.Configured.{
  IsResolved, IsResolved-overrides, add_inst_override-IsResolved,
  set_type_override_by_type-IsResolved, register_both-IsResolved, do_register-inst_override_queues,
}

-- A call of a setter by type, with its arguments.
pub data Setting : Type 0 where
  type_override : Wrapper → Wrapper → Bool → Setting
  inst_override : Wrapper → Wrapper → String → Setting

abbrev pub IsNamed : (String → ℕ) → Setting → Type 0
IsNamed address (type_override original override replace) =
    Named address original × Named address override
IsNamed address (inst_override original override path) =
    Named address original × Named address override

unfoldable pub apply : (String → String → Bool) → Setting → Factory → Factory
unfolding set_type_override_by_type set_inst_override_by_type
apply matches (type_override original override replace) f =
    set_type_override_by_type matches original override replace f
apply matches (inst_override original override path) f =
    set_inst_override_by_type matches original override path f

unfoldable pub configured : (String → String → Bool) → List Setting → Factory → Factory
unfolding apply
configured matches [] f = f
configured matches (s ∷ ss) f = configured matches ss (apply matches s f)

unfoldable pub no_overrides : Factory
no_overrides = record {
  types = [];
  type_names = [];
  lookup_strs = [];
  type_overrides = [];
  inst_override_queues = [];
  inst_override_name_queues = [];
  wildcard_inst_overrides = [];
  reports = [];
}

insert_count :
    (k : ℕ) (p : List Override) (m : List (ℕ × List Override))
    → length (queue_of (find k m)) + length (all_queues (insert k p m))
      ≡ length p + length (all_queues m)
unfolding insert find
insert_count k p [] = omega (arith, length-append p [])
insert_count k p ((j, q) ∷ m) = elim (Bool-cases (j == k)) [
  | inl t ↦ rw t (omega (arith, length-append p (all_queues m), length-append q (all_queues m)))
  | inr t ↦ rw t (
      omega (
        arith,
        length-append q (all_queues (insert k p m)),
        length-append q (all_queues m),
        insert_count k p m,
      ))
]

queue_count :
    (k : ℕ) (o : Override) (m : List (ℕ × List Override))
    → length (all_queues (insert k (queue_of (find k m) ++ o ∷ []) m)) ≡ suc (length (all_queues m))
queue_count k o m = omega (
  arith,
  insert_count k (queue_of (find k m) ++ o ∷ []) m,
  length-append (queue_of (find k m)) (o ∷ []),
)

replace_count :
    (original override : Wrapper) (q : List Override)
    → length (replace_by_type original override q) ≡ length q
unfolding replace_by_type
replace_count original override [] = refl
replace_count original override (o ∷ q) = omega (arith, replace_count original override q)

module _ (address : String → ℕ) (matches : String → String → Bool) where
  apply-IsResolved :
      (s : Setting) (f : Factory)
      → IsNamed address s
      → IsResolved address f
      → IsResolved address (apply matches s f)
  unfolding apply set_inst_override_by_type
  apply-IsResolved (type_override original override replace) f (n, m) r =
      set_type_override_by_type-IsResolved address matches original override replace f n m r
  apply-IsResolved (inst_override original override path) f (n, m) r =
      add_inst_override-IsResolved address original override path
        (register_both matches original override f) n m
        (register_both-IsResolved address matches original override f r)

  register_both-queues :
      (original override : Wrapper) (f : Factory)
      → IsResolved address f
      → (register_both matches original override f).inst_override_queues ≡ f.inst_override_queues
  register_both-queues original override f r = ground (
    arith,
    register_both-do_register matches original override f,
    do_register-inst_override_queues address matches original f r,
  )

  set_type_override-queues :
      (original override : Wrapper) (replace : Bool) (f : Factory)
      → IsResolved address f
      → (set_type_override_by_type matches original override replace f).inst_override_queues
        ≡ f.inst_override_queues
  unfolding set_type_override_by_type
  set_type_override-queues original override replace f r =
      let g = register_both matches original override f in
      ground (
        arith,
        register_both-queues original override f r,
        report_each-queues "TPREGR" (collect (is_for original) g.type_overrides)
            (record g { type_overrides = replace_by_type original override g.type_overrides }),
      )

  type_overrides_count :
      (original override : Wrapper) (replace : Bool) (f : Factory)
      → length (set_type_override_by_type matches original override replace f).type_overrides
        ≤ suc (length f.type_overrides)
  type_overrides_count original override replace f =
      rw (set_type_override-type_overrides matches original override replace f) (
        ground (
          arith,
          replace_count original override f.type_overrides,
          length-append f.type_overrides (added original override ∷ []),
        ))

  set_inst_override-type_overrides :
      (original override : Wrapper) (path : String) (f : Factory)
      → (add_inst_override original override path f).type_overrides ≡ f.type_overrides
  unfolding add_inst_override
  set_inst_override-type_overrides original override path f = ground arith

  inst_count :
      (original override : Wrapper) (path : String) (f : Factory)
      → length (all_queues (add_inst_override original override path f).inst_override_queues)
        ≤ suc (length (all_queues f.inst_override_queues))
  unfolding add_inst_override
  inst_count original override path f = ground (
    arith,
    queue_count original.ptr (make_override path original.type_name (some original) override)
        f.inst_override_queues,
  )

  apply_count :
      (s : Setting) (f : Factory)
      → IsResolved address f
      → length (overrides (apply matches s f)) ≤ suc (length (overrides f))
  unfolding apply set_inst_override_by_type
  apply_count (type_override original override replace) f r =
      let g = set_type_override_by_type matches original override replace f in
      omega (
        arith,
        length-append g.type_overrides (all_queues g.inst_override_queues),
        length-append f.type_overrides (all_queues f.inst_override_queues),
        type_overrides_count original override replace f,
        ap (λ m. length (all_queues m)) (set_type_override-queues original override replace f r),
      )
  apply_count (inst_override original override path) f r =
      let g = register_both matches original override f in
      let h = add_inst_override original override path g in
      omega (
        arith,
        length-append h.type_overrides (all_queues h.inst_override_queues),
        length-append f.type_overrides (all_queues f.inst_override_queues),
        inst_count original override path g,
        ap length (
            set_inst_override-type_overrides original override path g
            ∙ register_both-type_overrides matches original override f),
        ap (λ m. length (all_queues m)) (register_both-queues original override f r),
      )

  configured-IsResolved :
      (ss : List Setting) (f : Factory)
      → All (IsNamed address) ss
      → IsResolved address f
      → IsResolved address (configured matches ss f)
  unfolding configured
  configured-IsResolved [] f a r = r
  configured-IsResolved (s ∷ ss) f (n, a) r =
      configured-IsResolved ss (apply matches s f) a (apply-IsResolved s f n r)

  configured_count :
      (ss : List Setting) (f : Factory)
      → All (IsNamed address) ss
      → IsResolved address f
      → length (overrides (configured matches ss f)) ≤ length ss + length (overrides f)
  unfolding configured
  configured_count [] f a r = omega arith
  configured_count (s ∷ ss) f (n, a) r = omega (
    arith,
    configured_count ss (apply matches s f) a (apply-IsResolved s f n r),
    apply_count s f r,
  )

no_overrides-IsResolved : (address : String → ℕ) → IsResolved address no_overrides
unfolding no_overrides
no_overrides-IsResolved address = record {
  of_types = tt;
  of_insts = tt;
  no_names = refl;
  no_wildcards = refl;
}

no_overrides_count : length (overrides no_overrides) ≡ 0
unfolding no_overrides
no_overrides_count = refl

-- After any sequence of settings by type on a factory without overrides, where different types have
-- different names, the search of create_object_by_type and create_component_by_type ends for every type
-- and path within one step more than there were settings. It ends at the last type of the chain of
-- overrides that begins at the type, where no override is for that last type or it is overridden by
-- itself; or at a type that an override of the chain was set for, and then the loop is reported.
pub create_by_type-configured :
    (matches : String → String → Bool) (address : String → ℕ) (ss : List Setting) (w : Wrapper)
    (parent name : String)
    → All (IsNamed address) ss
    → Named address w
    → Leads matches (inst_path parent name) (configured matches ss no_overrides) w [] (
        create_by_type (suc (length ss)) matches w parent name (configured matches ss no_overrides))
create_by_type-configured matches address ss w parent name a nw =
    let r = no_overrides-IsResolved address in
    let f = configured matches ss no_overrides in
    create_by_type-Leads (suc (length ss)) matches address w parent name f
      (IsResolved-overrides address f (configured-IsResolved address matches ss no_overrides a r))
      nw (omega (arith, configured_count address matches ss no_overrides a r, no_overrides_count))
