-- ===== src/Factory/Chain.antt =====
-- src/uvmsc/factory/uvm_default_factory.cpp: what find_override_by_type finds.
use mathlib.Core.List.{append-nil, append_assoc}
use system_c_uvm.Base.{
  ℕ, suc, zero, ◌<◌, ◌≡◌, ◌≢◌, ◌⊎◌, refl, sym, ◌∙◌, Bool, true, ◌==◌, ==_iff, String, List, [], ◌∷◌,
  ◌++◌, exists, Option, none, some, Bool-cases, inl, inr, length, All,
}
use system_c_uvm.Factory.{Wrapper, Override, Factory}
use system_c_uvm.Factory.Lookup.{
  Found, found, loop_found, out_of_fuel, find_override_by_type, create_by_type, inst_path,
  override_for, is_origin, follow,
}
use system_c_uvm.Factory.Search.{create_by_type_ends}
use system_c_uvm.Factory.Taken.{overrides, Named, Resolved}

module _ (matches : String → String → Bool) (path : String) (f : Factory) where
  -- Each override of the list is the one for the type that the override before it produces.
  abbrev pub Chain : Wrapper → List Override → Wrapper → Type 0
  Chain w [] v = w.ptr ≡ v.ptr
  Chain w (o ∷ l) v = (override_for matches w path f ≡ some o) × Chain o.ovrd_type l v

  -- No override is for the type, or one that produces the type itself.
  abbrev pub Last : Wrapper → Type 0
  Last v =
      (override_for matches v path f ≡ none)
      ⊎ ((o : Override) × (override_for matches v path f ≡ some o) × (o.ovrd_type.ptr ≡ v.ptr))

  -- A search from `w`, after the overrides `info`, ends at the last type of a chain of overrides, or at
  -- a type that an override of the chain, or of `info`, was set for.
  abbrev pub Leads : Wrapper → List Override → Found → Type 0
  Leads w info (found v l) =
      (steps : List Override) × (l ≡ info ++ steps) × Chain w steps v × Last v
  Leads w info (loop_found v l) =
      (steps : List Override) × (l ≡ info ++ steps)
      × Chain w steps v
      × (exists (is_origin v) l ≡ true)
  Leads w info out_of_fuel = ⊥

  Leads-step :
      (w : Wrapper) (info : List Override) (o : Override) (r : Found)
      → override_for matches w path f ≡ some o
      → Leads o.ovrd_type (info ++ o ∷ []) r
      → Leads w info r
  Leads-step w info o (found v l) e (steps, p, c, t) =
      (o ∷ steps, p ∙ append_assoc info (o ∷ []) steps, (e, c), t)
  Leads-step w info o (loop_found v l) e (steps, p, c, t) =
      (o ∷ steps, p ∙ append_assoc info (o ∷ []) steps, (e, c), t)
  Leads-step w info o out_of_fuel e h = h

  follow-Leads :
      (w : Wrapper) (info : List Override) (go : Wrapper → List Override → Found)
      (r : Option Override)
      → override_for matches w path f ≡ r
      → ((o : Override)
          → go o.ovrd_type (info ++ o ∷ []) ≢ out_of_fuel
          → Leads o.ovrd_type (info ++ o ∷ []) (go o.ovrd_type (info ++ o ∷ [])))
      → follow w info go r ≢ out_of_fuel
      → Leads w info (follow w info go r)
  follow-Leads w info go none e h = λ d. ([], sym (append-nil info), refl, inl e)
  follow-Leads w info go (some o) e h = elim (Bool-cases (o.ovrd_type.ptr == w.ptr)) [
    | inl t ↦ rw t (λ d.
        let same : o.ovrd_type.ptr ≡ w.ptr = (==_iff o.ovrd_type.ptr w.ptr).0 t in
        (o ∷ [], refl, (e, same), inr (o, e, same)))
    | inr t ↦ rw t (λ d. Leads-step w info o (go o.ovrd_type (info ++ o ∷ [])) e (h o d))
  ]

  search-Leads :
      (n : ℕ) (w : Wrapper) (info : List Override)
      → find_override_by_type n matches w path info f ≢ out_of_fuel
      → Leads w info (find_override_by_type n matches w path info f)
  unfolding find_override_by_type
  search-Leads zero w info = λ d. d refl
  search-Leads (suc n) w info = elim (Bool-cases (exists (is_origin w) info)) [
    | inl t ↦ rw t (λ d. ([], sym (append-nil info), refl, t))
    | inr t ↦ rw t (
        follow-Leads w info (λ v l. find_override_by_type n matches v path l f)
          (override_for matches w path f) refl (λ o. search-Leads n o.ovrd_type (info ++ o ∷ [])))
  ]

-- With one unit of fuel more than there are overrides, where each override was set for a type that was
-- registered, and different types have different names, the search of create_object_by_type and
-- create_component_by_type ends either at the last type of the chain of overrides that begins at the
-- type, each of them the override for the type before it, where no override is for that last type or it
-- is overridden by itself; or at a type that an override of the chain was set for, and then the loop is
-- reported.
pub create_by_type-Leads :
    (n : ℕ) (matches : String → String → Bool) (address : String → ℕ) (w : Wrapper)
    (parent name : String) (f : Factory)
    → All (Resolved address) (overrides f)
    → Named address w
    → length (overrides f) < n
    → Leads matches (inst_path parent name) f w [] (create_by_type n matches w parent name f)
unfolding create_by_type
create_by_type-Leads n matches address w parent name f a nw h =
    search-Leads matches (inst_path parent name) f n w []
      (create_by_type_ends n matches address w parent name f a nw h)
