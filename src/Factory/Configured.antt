-- ===== src/Factory/Configured.antt =====
-- src/uvmsc/factory/uvm_default_factory.cpp: the factory that only the setters by type have changed.
use system_c_uvm.Base.{
  ℕ, ◌≡◌, refl, sym, ◌∙◌, Bool, ◌==◌, String, List, [], ◌∷◌, ◌++◌, exists, some, Bool-cases, inl,
  inr, arith, All, subst,
}
use system_c_uvm.Base.Assoc.{nat_key, string_key, find, insert}
use system_c_uvm.Factory.{
  Wrapper, Override, Factory, report, is_for, collect, make_override, register_both, do_register,
  is_type_registered, queue_of,
}
use system_c_uvm.Factory.Setters.{
  report_each, replace_by_type, set_type_override_by_type, add_inst_override,
  check_inst_override_exists,
}
use system_c_uvm.Factory.Taken.{overrides, all_queues, Named, Resolved}
use system_c_uvm.Factory.Overrides.{register_both-do_register}

-- Every override was set for a registered type, and none waits for a type to be registered.
pub record IsResolved (address : String → ℕ) (f : Factory) : Type 0 where
  pub of_types : All (Resolved address) f.type_overrides
  pub of_insts : All (Resolved address) (all_queues f.inst_override_queues)
  pub no_names : f.inst_override_name_queues ≡ []
  pub no_wildcards : f.wildcard_inst_overrides ≡ []

module _ (address : String → ℕ) where
  All-append :
      (q r : List Override)
      → All (Resolved address) q
      → All (Resolved address) r
      → All (Resolved address) (q ++ r)
  All-append [] r a b = b
  All-append (o ∷ q) r (h, a) b = (h, All-append q r a b)

  All-left : (q r : List Override) → All (Resolved address) (q ++ r) → All (Resolved address) q
  All-left [] r a = tt
  All-left (o ∷ q) r (h, a) = (h, All-left q r a)

  All-right : (q r : List Override) → All (Resolved address) (q ++ r) → All (Resolved address) r
  All-right [] r a = a
  All-right (o ∷ q) r (h, a) = All-right q r a

  All-find :
      (k : ℕ) (m : List (ℕ × List Override))
      → All (Resolved address) (all_queues m)
      → All (Resolved address) (queue_of (find k m))
  unfolding find
  All-find k [] a = tt
  All-find k ((j, q) ∷ m) a = elim (Bool-cases (j == k)) [
    | inl t ↦ rw t (All-left q (all_queues m) a)
    | inr t ↦ rw t (All-find k m (All-right q (all_queues m) a))
  ]

  All-insert :
      (k : ℕ) (q : List Override) (m : List (ℕ × List Override))
      → All (Resolved address) (all_queues m)
      → All (Resolved address) q
      → All (Resolved address) (all_queues (insert k q m))
  unfolding insert
  All-insert k q [] a b = All-append q [] b tt
  All-insert k q ((j, r) ∷ m) a b = elim (Bool-cases (j == k)) [
    | inl t ↦ rw t (All-append q (all_queues m) b (All-right r (all_queues m) a))
    | inr t ↦ rw t (
        All-append r (all_queues (insert k q m)) (All-left r (all_queues m) a)
          (All-insert k q m (All-right r (all_queues m) a) b))
  ]

  -- IsResolved reads four tables only.
  IsResolved-tables :
      (f g : Factory)
      → g.type_overrides ≡ f.type_overrides
      → g.inst_override_queues ≡ f.inst_override_queues
      → g.inst_override_name_queues ≡ f.inst_override_name_queues
      → g.wildcard_inst_overrides ≡ f.wildcard_inst_overrides
      → IsResolved address f
      → IsResolved address g
  IsResolved-tables f g a b c d r = record {
    of_types = subst (All (Resolved address)) (sym a) r.of_types;
    of_insts = subst (λ m. All (Resolved address) (all_queues m)) (sym b) r.of_insts;
    no_names = c ∙ r.no_names;
    no_wildcards = d ∙ r.no_wildcards;
  }

  pub do_register-inst_override_queues :
      (matches : String → String → Bool) (w : Wrapper) (f : Factory)
      → IsResolved address f
      → (do_register matches w f).inst_override_queues ≡ f.inst_override_queues
  unfolding do_register find
  do_register-inst_override_queues matches w f r = ground (arith, r.no_names, r.no_wildcards)

  do_register-IsResolved :
      (matches : String → String → Bool) (w : Wrapper) (f : Factory)
      → IsResolved address f
      → IsResolved address (do_register matches w f)
  unfolding do_register find
  do_register-IsResolved matches w f r =
      IsResolved-tables f (do_register matches w f) (ground arith)
        (do_register-inst_override_queues matches w f r)
        (ground (arith, r.no_names, r.no_wildcards)) (ground (arith, r.no_names, r.no_wildcards)) r

  pub register_both-IsResolved :
      (matches : String → String → Bool) (original override : Wrapper) (f : Factory)
      → IsResolved address f
      → IsResolved address (register_both matches original override f)
  register_both-IsResolved matches original override f r =
      subst (IsResolved address) (sym (register_both-do_register matches original override f))
        (elim (Bool-cases (is_type_registered original f)) [
          | inl t ↦ rw t r
          | inr t ↦ rw t (do_register-IsResolved matches original f r)
        ])

  report_each-IsResolved :
      (id : String) (q : List Override) (f : Factory)
      → IsResolved address f
      → IsResolved address (report_each id q f)
  report_each-IsResolved id [] f r = r
  report_each-IsResolved id (o ∷ q) f r =
      report_each-IsResolved id q (report id f)
        (IsResolved-tables f (report id f) refl refl refl refl r)

  replace_by_type-Resolved :
      (original override : Wrapper) (q : List Override)
      → Named address original
      → Named address override
      → All (Resolved address) q
      → All (Resolved address) (replace_by_type original override q)
  unfolding replace_by_type
  replace_by_type-Resolved original override [] n m a = tt
  replace_by_type-Resolved original override (o ∷ q) n m (h, a) =
      elim (Bool-cases (is_for original o)) [
        | inl t ↦
            rw t ((original, refl, refl, n, m), replace_by_type-Resolved original override q n m a)
        | inr t ↦ rw t (h, replace_by_type-Resolved original override q n m a)
      ]

  IsResolved-types :
      (f : Factory) (q : List Override)
      → All (Resolved address) q
      → IsResolved address f
      → IsResolved address (record f { type_overrides = q })
  IsResolved-types f q a r = record {
    of_types = a;
    of_insts = r.of_insts;
    no_names = r.no_names;
    no_wildcards = r.no_wildcards;
  }

  pub set_type_override_by_type-IsResolved :
      (matches : String → String → Bool) (original override : Wrapper) (replace : Bool)
      (f : Factory)
      → Named address original
      → Named address override
      → IsResolved address f
      → IsResolved address (set_type_override_by_type matches original override replace f)
  unfolding set_type_override_by_type make_override
  set_type_override_by_type-IsResolved matches original override replace f n m r =
      let g = register_both matches original override f in
      let h = register_both-IsResolved matches original override f r in
      elim (Bool-cases (original.ptr == override.ptr)) [
        | inl t ↦ rw t (IsResolved-tables f (report "TYPDUP" f) refl refl refl refl r)
        | inr t ↦ elim (Bool-cases (exists (is_for original) g.type_overrides)) [
          | inr e ↦
              rw (t, e)
                (IsResolved-types g
                  (g.type_overrides
                    ++ make_override "*" original.type_name (some original) override ∷ [])
                  (All-append g.type_overrides
                    (make_override "*" original.type_name (some original) override ∷ []) h.of_types
                    ((original, refl, refl, n, m), tt))
                  h)
          | inl e ↦ elim (Bool-cases replace) [
            | inr b ↦ rw (t, e, b) (IsResolved-tables g (report "TPREGD" g) refl refl refl refl h)
            | inl b ↦
                rw (t, e, b)
                  (report_each-IsResolved "TPREGR" (collect (is_for original) g.type_overrides)
                    (record g {
                      type_overrides = replace_by_type original override g.type_overrides;
                    })
                    (IsResolved-types g (replace_by_type original override g.type_overrides)
                      (replace_by_type-Resolved original override g.type_overrides n m h.of_types)
                      h))
          ]
        ]
      ]

  pub add_inst_override-IsResolved :
      (original override : Wrapper) (full_inst_path : String) (f : Factory)
      → Named address original
      → Named address override
      → IsResolved address f
      → IsResolved address (add_inst_override original override full_inst_path f)
  unfolding add_inst_override make_override
  add_inst_override-IsResolved original override full_inst_path f n m r =
      let q = queue_of (find original.ptr f.inst_override_queues) in
      let o = make_override full_inst_path original.type_name (some original) override in
      elim (Bool-cases (check_inst_override_exists original override full_inst_path f)) [
        | inl t ↦ rw t (IsResolved-tables f (report "DUPOVRD" f) refl refl refl refl r)
        | inr t ↦ rw t (record {
          of_types = r.of_types;
          of_insts = All-insert original.ptr (q ++ o ∷ []) f.inst_override_queues r.of_insts (
              All-append q (o ∷ []) (All-find original.ptr f.inst_override_queues r.of_insts)
                ((original, refl, refl, n, m), tt));
          no_names = r.no_names;
          no_wildcards = r.no_wildcards;
        })
      ]

  pub IsResolved-overrides :
      (f : Factory) → IsResolved address f → All (Resolved address) (overrides f)
  IsResolved-overrides f r =
      All-append f.type_overrides (all_queues f.inst_override_queues) r.of_types r.of_insts
