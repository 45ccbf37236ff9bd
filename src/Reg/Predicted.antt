-- ===== src/Reg/Predicted.antt =====
-- src/uvmsc/reg/uvm_reg.cpp: what the fields of a register hold together after do_predict.
use system_c_uvm.Base.{
  ℕ, ◌≡◌, refl, sym, ap, ◌∙◌, subst, ◌&&◌, ◌||◌, true, false, if◌then◌else◌, String, List, [], ◌∷◌,
  exists, bit_and, arith, All, ==_iff,
}
use system_c_uvm.RegField.{
  Field, mask, Map, Kind, direct, read, write, Item, Status, is_ok, not_ok, Post,
}
use system_c_uvm.RegField as Field
use system_c_uvm.Reg.{Slot, Reg, size, part, with_field, get_mirrored_value, needs_update}
use system_c_uvm.Reg.Predict.{enabled, predict_fields, do_predict}
use system_c_uvm.Reg.Fields.{Fits, cover, Parts, seen_part, gathered}

module _ (wide : ℕ → ℕ) (v : ℕ) where
  predicted_field : String → ℕ → Slot → Field
  predicted_field fname lineno s = record s.field {
    fname = fname;
    lineno = lineno;
    mirrored = bit_and (part wide v s) (mask wide (size s));
    desired = bit_and (part wide v s) (mask wide (size s));
    value = bit_and (part wide v s) (mask wide (size s));
  }

  direct_field :
      (post : Post) (item : Item) (s : Slot)
      → item.status ≡ is_ok
      → item.value ≡ part wide v s
      → Field.do_predict wide post true false direct item s.field
        ≡ (predicted_field item.fname item.lineno s, is_ok)
  unfolding Field.do_predict predicted_field
  direct_field post item s k e =
      ap
        (λ t. ((Field.do_predict wide post true false direct (record item { status = t }) s.field)))
        k
      ∙ ap
          (λ x.
            (Field.do_predict wide post true false direct
              (record item { status = is_ok; value = x }) s.field))
          e

  module _ (post : Slot → Post) (be : ℕ) where
    predict_one :
        (item : Item) (s : Slot)
        → item.status ≡ is_ok
        → enabled be s ≡ true
        → Field.do_predict wide
            (post s)
            (enabled be s)
            false
            direct
            (record item { value = part wide v s })
            s.field
          ≡ (predicted_field item.fname item.lineno s, is_ok)
    predict_one item s k e =
        ap
          (λ b.
            Field.do_predict wide (post s) b false direct (record item { value = part wide v s })
              s.field)
          e
        ∙ direct_field (post s) (record item { value = part wide v s }) s k refl

    -- The loop has made the parts of the value the mirrored and the desired ones, without an error.
    abbrev Predicted : List Slot → List Slot × Status → Type 0
    Predicted ss r =
        Parts wide v (λ f. (Field.get_mirrored_value "" 0 f).1) ss r.0
        × (exists (λ s. Field.needs_update s.field) r.0 ≡ false)
        × (r.1 ≡ is_ok)

    -- One round, from what the field makes of it.
    abbrev round : Item → Slot → List Slot → Field × Status → List Slot × Status
    round item s ss x =
        let rest = predict_fields wide post be false direct v (record item { status = x.1 }) ss in
        (with_field s x.0 ∷ rest.0, rest.1)

    settled :
        (item : Item) (s : Slot)
        → Field.needs_update (predicted_field item.fname item.lineno s) ≡ false
    unfolding Field.needs_update predicted_field
    settled item s = ground (
      arith,
      ==_iff (bit_and (part wide v s) (mask wide (size s)))
          (bit_and (part wide v s) (mask wide (size s))),
    )

    mirrored_part :
        (item : Item) (s : Slot)
        → Fits s
        → (Field.get_mirrored_value "" 0 (predicted_field item.fname item.lineno s)).1
          ≡ part wide v s
    unfolding Field.get_mirrored_value predicted_field
    mirrored_part item s f = seen_part wide v s f

    predict_fields-Predicted :
        (item : Item) (ss : List Slot)
        → item.status ≡ is_ok
        → All Fits ss
        → All (λ s. enabled be s ≡ true) ss
        → Predicted ss (predict_fields wide post be false direct v item ss)
    unfolding predict_fields
    predict_fields-Predicted item [] k f e = (tt, refl, k)
    predict_fields-Predicted item (s ∷ ss) k (f, fs) (e, es) =
        let (p, n, o) = predict_fields-Predicted (record item { status = is_ok }) ss refl fs es in
        subst (λ x. Predicted (s ∷ ss) (round item s ss x)) (sym (predict_one item s k e))
          (
            (refl, mirrored_part item s f, p),
            ap
                  (λ b.
                    b
                    || exists (λ (t : Slot). Field.needs_update t.field)
                        (predict_fields wide post be false direct v (record item { status = is_ok })
                          ss).0)
                  (settled item s)
                ∙ n,
            o,
          )

idle_predict :
    (wide : ℕ → ℕ) (post : Slot → Post) (be : ℕ) (item : Item) (r : Reg)
    → r.is_busy ≡ false
    → let x =
        predict_fields wide post be false direct item.value
          (record item { status = is_ok })
          r.fields in
      do_predict wide post be direct item r
      ≡ (record r { fname = item.fname; lineno = item.lineno; fields = x.0 }, x.1)
unfolding do_predict
idle_predict wide post be item r h =
    ap
      (λ b.
        let q = record r { fname = item.fname; lineno = item.lineno } in
        let x =
          predict_fields wide post be b direct item.value (record item { status = is_ok })
            r.fields in
        if b && true then (q, not_ok) else (record q { fields = x.0 }, x.1))
      h

-- What a direct prediction leaves: the mirrored value, no update to make, and the status.
abbrev pub Mirrors : ℕ → Reg × Status → Type 0
Mirrors v (r, status) =
    ((get_mirrored_value "" 0 r).1 ≡ v) × (needs_update r ≡ false) × (status ≡ is_ok)

-- A direct prediction of a register that is not busy, whose fields have fewer than 31 bits, lie within
-- the 64 bits and have their first bytes enabled, succeeds whatever the policies and the callbacks:
-- the mirrored value is then the digits of the predicted value that belong to fields, and no update is
-- needed.
pub predict-direct :
    (wide : ℕ → ℕ) (post : Slot → Post) (be : ℕ) (item : Item) (r : Reg)
    → r.is_busy ≡ false
    → All Fits r.fields
    → All (λ s. enabled be s ≡ true) r.fields
    → Mirrors (bit_and item.value (cover wide r.fields 0)) (do_predict wide post be direct item r)
unfolding get_mirrored_value needs_update
predict-direct wide post be item r h f e =
    let v = item.value in
    let start = record item { status = is_ok } in
    let x = predict_fields wide post be false direct v start r.fields in
    let (p, n, o) = predict_fields-Predicted wide v post be start r.fields refl f e in
    subst (Mirrors (bit_and v (cover wide r.fields 0))) (sym (idle_predict wide post be item r h))
      (gathered wide v (λ f. (Field.get_mirrored_value "" 0 f).1) r.fields x.0 f p, n, o)
