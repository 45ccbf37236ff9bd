-- ===== src/Factory/Taken.antt =====
-- src/uvmsc/factory/uvm_default_factory.cpp: the overrides that a search can take.
use mathlib.Core.List.{Memᴰ}
use mathlib.Core.List.Memᴰ
use system_c_uvm.Base.{
  ℕ, ◌≡◌, sym, ◌∙◌, ◌&&◌, Bool, true, false, ◌==◌, String, List, [], ◌∷◌, ◌++◌, some, Bool-cases,
  Option-cases, inl, inr, arith, subst,
}
use system_c_uvm.Base.Assoc.{nat_key, string_key, find}
use system_c_uvm.Factory.{Wrapper, Override, Factory, is_for, is_unnamed, queue_of}
use system_c_uvm.Factory.Lookup.{override_for, inst_override_for, first_of}

abbrev pub all_queues : List (ℕ × List Override) → List Override
all_queues [] = []
all_queues ((k, q) ∷ m) = q ++ all_queues m

-- Every override that a search by type can take.
abbrev pub overrides : Factory → List Override
overrides f = f.type_overrides ++ all_queues f.inst_override_queues

-- The type of a name, where the name is one that overrides are looked up by.
abbrev pub Named : (String → ℕ) → Wrapper → Type 0
Named address w = is_unnamed w.type_name ≡ false → w.ptr ≡ address w.type_name

-- An override whose original type was registered when it was set.
abbrev pub Resolved : (String → ℕ) → Override → Type 0
Resolved address o =
    (v : Wrapper) × (o.orig_type ≡ some v)
    × (o.orig_type_name ≡ v.type_name)
    × Named address v
    × Named address o.ovrd_type

first_of-Memᴰ :
    (p : Override → Bool) (q : List Override) (o : Override)
    → first_of p q ≡ some o
    → Memᴰ o q × (p o ≡ true)
unfolding first_of
first_of-Memᴰ p [] o e = ground (arith, e)
first_of-Memᴰ p (x ∷ q) o e = elim (Bool-cases (p x)) [
  | inl t ↦
      let same : x ≡ o = ground (arith, e, t) in
      (Memᴰ.head (sym same), subst (λ y. p y ≡ true) same t)
  | inr t ↦ let (m, h) = first_of-Memᴰ p q o (ground (arith, e, t)) in (Memᴰ.tail m, h)
]

find-Memᴰ :
    (k : ℕ) (m : List (ℕ × List Override)) (o : Override)
    → Memᴰ o (queue_of (find k m))
    → Memᴰ o (all_queues m)
unfolding find
find-Memᴰ k [] o = λ h. h
find-Memᴰ k ((j, q) ∷ m) o = elim (Bool-cases (j == k)) [
  | inl t ↦ rw t (λ h. Memᴰ.append_left (all_queues m) h)
  | inr t ↦ rw t (λ h. Memᴰ.append_right q (find-Memᴰ k m o h))
]

inst_override_for-Memᴰ :
    (matches : String → String → Bool) (w : Wrapper) (path : String) (f : Factory) (o : Override)
    → inst_override_for matches w path f ≡ some o
    → Memᴰ o (overrides f) × (is_for w o ≡ true)
unfolding inst_override_for
inst_override_for-Memᴰ matches w path f o = elim (Bool-cases (string_key.same path "")) [
  | inl t ↦ rw t (λ e. ground (arith, e))
  | inr t ↦ rw t (λ e.
      let (m, h) =
        first_of-Memᴰ (λ (x : Override). is_for w x && matches x.full_inst_path path)
          (queue_of (find w.ptr f.inst_override_queues)) o e in
      (
        Memᴰ.append_right f.type_overrides (find-Memᴰ w.ptr f.inst_override_queues o m),
        ground (arith, h),
      ))
]

-- What override_for takes is an override of the factory, and is for the type.
pub override_for-Memᴰ :
    (matches : String → String → Bool) (w : Wrapper) (path : String) (f : Factory) (o : Override)
    → override_for matches w path f ≡ some o
    → Memᴰ o (overrides f) × (is_for w o ≡ true)
unfolding override_for
override_for-Memᴰ matches w path f o = elim (Option-cases (inst_override_for matches w path f)) [
  | inl n ↦ rw n (λ e.
      let (m, h) = first_of-Memᴰ (is_for w) f.type_overrides o e in
      (Memᴰ.append_left (all_queues f.inst_override_queues) m, h))
  | inr (x, s) ↦ rw s (λ e. inst_override_for-Memᴰ matches w path f o (s ∙ e))
]
