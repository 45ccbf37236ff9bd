-- ===== src/RegField/Policies.antt =====
-- src/uvmsc/reg/uvm_reg_field.cpp: what the access policies make of a write.
use system_c_uvm.Base.{
  ℕ, ◌-◌, ◌/◌, ◌^◌, ◌<◌, ◌≡◌, sym, ap, ◌∙◌, Bool, true, false, ◌==◌, ==_iff, String, arith, bit_and,
}
use system_c_uvm.Base.Bits.{bit_and-keeps}
use native.Mathlib.Nat.{div-eq_of_lt}
use system_c_uvm.RegField.{
  Access, user, read_only, Map, Field, mask, by_policy, restrict_to_read, get_access, set, get,
  update_value, predicted,
}

abbrev pub is_user : Access → Bool
is_user (user s) = true
is_user _ = false

pub mask-small : (wide : ℕ → ℕ) (n : ℕ) → n < 31 → mask wide n ≡ 2 ^ n - 1
mask-small wide n h = ground arith

pub fits : (n v : ℕ) → v < 2 ^ n → (v / 2 ^ n == 0) ≡ true
fits n v h = (==_iff (v / 2 ^ n) 0).1 (div-eq_of_lt h)

-- A value that fits the field is stored unchanged by `set` as the desired value and the value,
-- and read back by `get`, under every access policy and whatever the field held: also for a
-- read-only field and for a write-once field that has been written. The mirrored value is kept.
pub set-get :
    (wide : ℕ → ℕ) (v : ℕ) (fname : String) (lineno : ℕ) (f : Field)
    → v < 2 ^ f.size
    → ((get fname lineno (set wide v fname lineno f)).1 ≡ v)
      × ((set wide v fname lineno f).value ≡ v)
      × ((set wide v fname lineno f).mirrored ≡ f.mirrored)
unfolding set get
set-get wide v fname lineno f h = ground (arith, fits f.size v h)

-- For a field of fewer than 31 bits, the value that an update writes after a `set` of a value that
-- fits is that value itself, under every access policy.
pub update_value-set :
    (wide : ℕ → ℕ) (v : ℕ) (fname : String) (lineno : ℕ) (f : Field)
    → f.size < 31
    → v < 2 ^ f.size
    → update_value wide (set wide v fname lineno f) ≡ v
unfolding set update_value get
update_value-set wide v fname lineno f small h =
    ap (λ x. bit_and x (mask wide f.size)) (set-get wide v fname lineno f h).0
    ∙ ap (bit_and v) (mask-small wide f.size small)
    ∙ bit_and-keeps f.size v h

restricted_keeps :
    (written : Bool) (ones cur wr : ℕ) (a : Access)
    → is_user a ≡ false
    → (restrict_to_read a).1 ≡ false
    → by_policy written ones cur wr wr (restrict_to_read a).0 ≡ cur
unfolding restrict_to_read by_policy
restricted_keeps written ones cur wr a predefined ok = ground arith

get_access-read_only :
    (m : Map) (a : Access)
    → m.backdoor ≡ false
    → m.rights ≡ read_only
    → get_access m a ≡ restrict_to_read a
unfolding get_access
get_access-read_only m a back rights = ground arith

-- Where a register is read-only in a map that is not the backdoor, a write predicts no change of
-- the field, unless the policy is user-defined or get_access reports an error for the field.
pub predicted-read_only :
    (wide : ℕ → ℕ) (cur wr : ℕ) (m : Map) (f : Field)
    → m.backdoor ≡ false
    → m.rights ≡ read_only
    → is_user f.access ≡ false
    → (get_access m f.access).1 ≡ false
    → predicted wide m cur wr f ≡ cur
unfolding predicted
predicted-read_only wide cur wr m f back rights predefined ok =
    let eq = get_access-read_only m f.access back rights in
    ap (λ r. by_policy f.written (mask wide f.size) cur wr wr r.0) eq
    ∙ restricted_keeps f.written (mask wide f.size) cur wr f.access predefined
        (sym (ap (λ r. r.1) eq) ∙ ok)
