-- ===== src/RegField/Prediction.antt =====
-- src/uvmsc/reg/uvm_reg_field.cpp: do_predict, reset, and an update that is followed by a prediction.
use system_c_uvm.Base.{
  ℕ, ◌^◌, ◌<◌, ◌≤◌, ◌≡◌, refl, ap, ◌∙◌, ◌⊎◌, inl, inr, Bool, true, false, String, arith, Option,
  none, some, bit_and,
}
use system_c_uvm.Base.Bits.{bit_and-le, bit_and-keeps}
use system_c_uvm.RegField.{
  Access, rw, wrc, wrs, wo, Map, Field, mask, by_policy, get_access, set, update_value, predicted,
  needs_update, reset, get_reset, set_reset, read_write, Item, Kind, read, write, direct, Status,
  Post, do_predict,
}
use system_c_uvm.RegField.{mirror, keep_not_ok}
use system_c_uvm.Base.Assoc.{string_key, find-insert_self}
use system_c_uvm.RegField.Policies.{update_value-set, mask-small}

abbrev pub is_plain : Access → Bool
is_plain rw = true
is_plain wrc = true
is_plain wrs = true
is_plain wo = true
is_plain _ = false

abbrev pub Unchanged : Field → Field → Type 0
Unchanged f g = (g.mirrored ≡ f.mirrored) × (g.desired ≡ f.desired) × (g.value ≡ f.value)

abbrev pub Settled : ℕ → Field → Type 0
Settled ones g = (g.mirrored ≤ ones) × (g.desired ≡ g.mirrored) × (g.value ≡ g.mirrored)

mirror-Settled : (ones v : ℕ) (g : Field) → Settled ones (mirror (bit_and v ones) g)
mirror-Settled ones v g = (bit_and-le v ones, refl, refl)

read-settles :
    (o : Option ℕ) (change : ℕ → ℕ) (ones : ℕ) (status : Status) (f g : Field)
    → Unchanged f g
    → let r : Field × Status = elim o [
      | none ↦ (g, status)
      | some v ↦ (mirror (bit_and (change v) ones) g, status)
    ] in
      Unchanged f r.0 ⊎ Settled ones r.0
read-settles none change ones status f g same = inl same
read-settles (some v) change ones status f g same = inr (mirror-Settled ones (change v) g)

-- A prediction of any kind, under every policy and with any callbacks, either leaves the mirrored
-- value, the desired value and the value of the field as they are, or makes the three equal to a
-- number that is at most the field's mask.
pub do_predict-settles :
    (wide : ℕ → ℕ) (post : Post) (be busy : Bool) (kind : Kind) (item : Item) (f : Field)
    → let g = (do_predict wide post be busy kind item f).0 in
      Unchanged f g ⊎ Settled (mask wide f.size) g
unfolding do_predict
do_predict-settles wide post false busy kind item f = inl (refl, refl, refl)
do_predict-settles wide post true busy direct item f = inr (bit_and-le item.value _, refl, refl)
do_predict-settles wide post true busy write item f = inr (bit_and-le _ _, refl, refl)
do_predict-settles wide post true busy read item f =
    read-settles _ _ (mask wide f.size) (keep_not_ok item.status) f _ (refl, refl, refl)

plain-written :
    (m : Map) (a : Access) (written : Bool) (ones cur wr other : ℕ)
    → is_plain a ≡ true
    → m.rights ≡ read_write
    → by_policy written ones cur wr other (get_access m a).0 ≡ wr
unfolding get_access by_policy
plain-written m a written ones cur wr other plain rights = ground arith

masked : (wide : ℕ → ℕ) (n v : ℕ) → n < 31 → v < 2 ^ n → bit_and v (mask wide n) ≡ v
masked wide n v small h = ap (bit_and v) (mask-small wide n small) ∙ bit_and-keeps n v h

write-mirrors :
    (wide : ℕ → ℕ) (v : ℕ) (busy : Bool) (item : Item) (f : Field)
    → f.size < 31
    → v < 2 ^ f.size
    → is_plain f.access ≡ true
    → item.map.rights ≡ read_write
    → item.value ≡ v
    → (do_predict wide (λ _ _ _ x. x) true busy write item f).0.mirrored ≡ v
unfolding do_predict predicted
write-mirrors wide v busy item f small h plain rights given =
    let ones = mask wide f.size in
    let seen : bit_and item.value ones ≡ v =
      ap (λ x. bit_and x ones) given ∙ masked wide f.size v small h in
    let by = plain-written item.map f.access f.written ones f.mirrored in
    ground (
      arith,
      seen,
      masked wide f.size v small h,
      by (bit_and item.value ones) (bit_and item.value ones) plain rights,
    )

-- Once a value that fits a field of fewer than 31 bits has been set, the prediction of the write of
-- the update's value, in a map with full rights, with the byte enabled and with no callbacks,
-- makes the value the mirrored one and the desired one, so that nothing is left to update. This
-- holds for the policies RW, WRC, WRS and WO.
pub do_predict-set :
    (wide : ℕ → ℕ) (v : ℕ) (fname : String) (lineno : ℕ) (busy : Bool) (item : Item) (f : Field)
    → f.size < 31
    → v < 2 ^ f.size
    → is_plain f.access ≡ true
    → item.map.rights ≡ read_write
    → item.value ≡ update_value wide (set wide v fname lineno f)
    → let g = (do_predict wide (λ _ _ _ x. x) true busy write item (set wide v fname lineno f)).0 in
      (g.mirrored ≡ v) × (g.desired ≡ v) × (needs_update g ≡ false)
unfolding do_predict set needs_update
do_predict-set wide v fname lineno busy item f small h plain rights given =
    let mirrored =
      write-mirrors wide v busy item (set wide v fname lineno f) small h plain rights
        (given ∙ update_value-set wide v fname lineno f small h) in
    (mirrored, mirrored, ground arith)

-- A reset to the value that set_reset stored under the same kind makes the mirrored value, the
-- desired value and the value equal to it, cut to the field's mask, which is also what get_reset
-- gives; nothing is left to update.
pub reset-set_reset :
    (wide : ℕ → ℕ) (v : ℕ) (kind : String) (f : Field)
    → let g = reset kind (set_reset wide v kind f) in
      let r = bit_and v (mask wide f.size) in
      (g.mirrored ≡ r)
      × (g.desired ≡ r)
      × (g.value ≡ r)
      × (get_reset kind (set_reset wide v kind f) ≡ r)
      × (needs_update g ≡ false)
unfolding reset set_reset get_reset needs_update
reset-set_reset wide v kind f =
    let stored = find-insert_self kind (bit_and v (mask wide f.size)) f.resets in
    ground (arith, stored)
