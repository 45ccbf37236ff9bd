-- ===== src/Reg/Layout.antt =====
-- src/uvmsc/reg/uvm_reg.cpp: add_field and the places of the fields in a register.
use system_c_uvm.Base.{
  ℕ, ◌+◌, ◌≤◌, ◌<◌, ◌≡◌, ◌↔◌, refl, sym, ap, ◌∙◌, subst, ◌&&◌, ◌||◌, ltb, Bool, true, false,
  if◌then◌else◌, String, List, [], ◌∷◌, ◌++◌, exists, some, arith, Bool-cases, inl, inr, length,
  length-append,
}
use system_c_uvm.Reg.{
  Slot, Reg, size, insert_at, last_of, head_of, runs_into, add_field, error_if, error_of,
}
use mathlib.Core.List.{append-nil, append_assoc}

-- The fields stand one behind the other, from `n` on, and none reaches into the next.
abbrev pub Apart : ℕ → List Slot → Type 0
Apart n [] = Unit {0}
Apart n (s ∷ ss) = (n ≤ s.lsb_pos) × Apart (s.lsb_pos + size s) ss

-- Do two fields share a digit?
abbrev pub clashes : Slot → Slot → Bool
clashes s x = ltb s.lsb_pos (x.lsb_pos + size x) && ltb x.lsb_pos (s.lsb_pos + size s)

-- The fields in front of a new one, and those behind it.
lower : Slot → List Slot → List Slot
lower s [] = []
lower s (x ∷ xs) = let rest = lower s xs in if ltb s.lsb_pos x.lsb_pos then [] else x ∷ rest

upper : Slot → List Slot → List Slot
upper s [] = []
upper s (x ∷ xs) = let rest = upper s xs in if ltb s.lsb_pos x.lsb_pos then x ∷ xs else rest

insert_at-split :
    (s : Slot) (before xs : List Slot) → insert_at s before xs ≡ (before ++ lower s xs, upper s xs)
unfolding insert_at lower upper
insert_at-split s before [] = ap (λ l. (l, [])) (sym (append-nil before))
insert_at-split s before (x ∷ xs) = elim (Bool-cases (ltb s.lsb_pos x.lsb_pos)) [
  | inl t ↦ rw t (ap (λ l. (l, x ∷ xs)) (sym (append-nil before)))
  | inr t ↦ rw t (
      insert_at-split s (before ++ x ∷ []) xs
      ∙ ap (λ l. (l, upper s xs)) (append_assoc before (x ∷ []) (lower s xs)))
]

none_behind :
    (s : Slot) (n : ℕ) (xs : List Slot)
    → Apart n xs
    → s.lsb_pos + size s ≤ n
    → exists (clashes s) xs ≡ false
none_behind s n [] a h = refl
none_behind s n (x ∷ xs) (k, a) h = ground (arith, k, h, none_behind s (x.lsb_pos + size x) xs a)

-- The neighbours of a new field tell whether it clashes with any field.
neighbours :
    (s : Slot) (n : ℕ) (xs : List Slot)
    → Apart n xs
    → 0 < size s
    → exists (clashes s) xs
      ≡ (runs_into (last_of (lower s xs)) (some s) || runs_into (some s) (head_of (upper s xs)))
unfolding lower upper
neighbours s n [] a p = refl
neighbours s n (x ∷ []) (k, a) p = ground (arith, k, p)
neighbours s n (x ∷ y ∷ xs) (k, (l, a)) p = ground (
  arith,
  k,
  l,
  p,
  neighbours s (x.lsb_pos + size x) (y ∷ xs) (l, a) p,
  none_behind s (x.lsb_pos + size x) (y ∷ xs) (l, a),
)

placed :
    (s : Slot) (n : ℕ) (xs : List Slot)
    → Apart n xs
    → n ≤ s.lsb_pos
    → exists (clashes s) xs ≡ false
    → 0 < size s
    → Apart n (lower s xs ++ s ∷ upper s xs)
unfolding lower upper
placed s n [] a h c p = (h, tt)
placed s n (x ∷ xs) (k, a) h c p = elim (Bool-cases (ltb s.lsb_pos x.lsb_pos)) [
  | inl t ↦ rw t (ground (arith, k, a, h, c, t))
  | inr t ↦
      rw t (k, placed s (x.lsb_pos + size x) xs a (ground (arith, c, t, p)) (ground (arith, c)) p)
]

-- add_field, once the lists before and behind the new field are known.
abbrev insertion : Slot → Reg → List Slot × List Slot → Reg
insertion s r (before, behind) =
    let used = r.n_used_bits + size s in
    error_if (runs_into (some s) (head_of behind)) "overlaps" (
      error_if (runs_into (last_of before) (some s)) "overlaps" (
        error_if (ltb r.n_bits used) "Fields use more bits"
          (record r { fields = before ++ s ∷ behind; n_used_bits = used })))

add_field-insertion :
    (s : Slot) (r : Reg)
    → r.locked ≡ false
    → add_field s r ≡ insertion s r (lower s r.fields, upper s r.fields)
unfolding add_field
add_field-insertion s r h =
    ap
      (λ b.
        if b
        then error_of "Cannot add field to locked register model" r
        else insertion s r (insert_at s [] r.fields))
      h
    ∙ ap (insertion s r) (insert_at-split s [] r.fields)

error_if-fields : (b : Bool) (text : String) (r : Reg) → (error_if b text r).fields ≡ r.fields
error_if-fields true text r = refl
error_if-fields false text r = refl

error_if-used :
    (b : Bool) (text : String) (r : Reg) → (error_if b text r).n_used_bits ≡ r.n_used_bits
error_if-used true text r = refl
error_if-used false text r = refl

error_if-bits : (b : Bool) (text : String) (r : Reg) → (error_if b text r).n_bits ≡ r.n_bits
error_if-bits true text r = refl
error_if-bits false text r = refl

error_if-count :
    (b : Bool) (text : String) (r : Reg)
    → length (error_if b text r).errors ≡ (if b then 1 else 0) + length r.errors
error_if-count true text r = omega (arith, length-append r.errors (text ∷ []))
error_if-count false text r = omega arith

-- How many errors add_field reports.
add_field_count :
    (s : Slot) (r : Reg)
    → r.locked ≡ false
    → length (add_field s r).errors
      ≡ (if runs_into (some s) (head_of (upper s r.fields)) then 1 else 0)
        + (if runs_into (last_of (lower s r.fields)) (some s) then 1 else 0)
        + (if ltb r.n_bits (r.n_used_bits + size s) then 1 else 0)
        + length r.errors
add_field_count s r h =
    let q = record r {
      fields = lower s r.fields ++ s ∷ upper s r.fields;
      n_used_bits = r.n_used_bits + size s;
    } in
    let q₁ = error_if (ltb r.n_bits (r.n_used_bits + size s)) "Fields use more bits" q in
    let q₂ = error_if (runs_into (last_of (lower s r.fields)) (some s)) "overlaps" q₁ in
    omega (
      arith,
      ap (λ x. length x.errors) (add_field-insertion s r h),
      error_if-count (runs_into (some s) (head_of (upper s r.fields))) "overlaps" q₂,
      error_if-count (runs_into (last_of (lower s r.fields)) (some s)) "overlaps" q₁,
      error_if-count (ltb r.n_bits (r.n_used_bits + size s)) "Fields use more bits" q,
    )

-- add_field of a field with digits to a register that is not locked, whose fields do not overlap,
-- reports no error exactly if the field shares no digit with any field of the register and the bits of
-- all fields are not more than the register has.
pub add_field-errors :
    (s : Slot) (r : Reg)
    → r.locked ≡ false
    → Apart 0 r.fields
    → 0 < size s
    → (length (add_field s r).errors ≡ length r.errors)
      ↔ ((exists (clashes s) r.fields ≡ false) × (r.n_used_bits + size s ≤ r.n_bits))
add_field-errors s r h a p =
    let n = neighbours s 0 r.fields a p in
    let c = add_field_count s r h in (λ e. ground (arith, n, c, e), λ k. ground (arith, n, c, k))

-- The bits of all fields.
abbrev pub total : List Slot → ℕ
total [] = 0
total (s ∷ ss) = size s + total ss

-- The fields of a register do not overlap, and their bits are counted and not more than it has.
pub record IsLaidOut (r : Reg) : Type 0 where
  pub apart : Apart 0 r.fields
  pub counted : r.n_used_bits ≡ total r.fields
  pub enough : r.n_used_bits ≤ r.n_bits

total-split : (s : Slot) (xs : List Slot) → total (lower s xs ++ s ∷ upper s xs) ≡ size s + total xs
unfolding lower upper
total-split s [] = refl
total-split s (x ∷ xs) = ground (arith, total-split s xs)

add_field-fields :
    (s : Slot) (r : Reg)
    → r.locked ≡ false
    → ((add_field s r).fields ≡ lower s r.fields ++ s ∷ upper s r.fields)
      × ((add_field s r).n_used_bits ≡ r.n_used_bits + size s)
      × ((add_field s r).n_bits ≡ r.n_bits)
add_field-fields s r h =
    let q = record r {
      fields = lower s r.fields ++ s ∷ upper s r.fields;
      n_used_bits = r.n_used_bits + size s;
    } in
    let q₁ = error_if (ltb r.n_bits (r.n_used_bits + size s)) "Fields use more bits" q in
    let q₂ = error_if (runs_into (last_of (lower s r.fields)) (some s)) "overlaps" q₁ in
    let b = runs_into (some s) (head_of (upper s r.fields)) in
    let c = runs_into (last_of (lower s r.fields)) (some s) in
    let d = ltb r.n_bits (r.n_used_bits + size s) in
    let i = add_field-insertion s r h in
    let text : String = "overlaps" in
    let more : String = "Fields use more bits" in
    (
      ap (λ x. x.fields) i
          ∙ error_if-fields b text q₂
          ∙ error_if-fields c text q₁
          ∙ error_if-fields d more q,
      ap (λ x. x.n_used_bits) i
          ∙ error_if-used b text q₂
          ∙ error_if-used c text q₁
          ∙ error_if-used d more q,
      ap (λ x. x.n_bits) i
          ∙ error_if-bits b text q₂
          ∙ error_if-bits c text q₁
          ∙ error_if-bits d more q,
    )

-- add_field of a field with digits to a register that is not locked and is laid out well leaves it laid
-- out well, where no error is reported.
pub add_field-IsLaidOut :
    (s : Slot) (r : Reg)
    → r.locked ≡ false
    → 0 < size s
    → IsLaidOut r
    → length (add_field s r).errors ≡ length r.errors
    → IsLaidOut (add_field s r)
add_field-IsLaidOut s r h p v e =
    let (c, u) = (add_field-errors s r h v.apart p).0 e in
    let (f, k, b) = add_field-fields s r h in
    record {
      apart = subst (Apart 0) (sym f) (placed s 0 r.fields v.apart (omega arith) c p);
      counted =
          k ∙ ap (λ n. n + size s) v.counted ∙ omega (arith, total-split s r.fields, ap total f);
      enough = omega (arith, k, b, u);
    }
