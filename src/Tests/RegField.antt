-- ===== src/Tests/RegField.antt =====
-- Runs of the register field (src/uvmsc/reg/uvm_reg_field.cpp).
use system_c_uvm.Base.{ℕ, ◌-◌, ◌^◌, ◌≡◌, refl, ◌⊎◌, true, false, []}
use system_c_uvm.RegField.{
  Access, w1c, rc, Rights, read_write, Map, Field, mask, by_policy, get_access, predicted, Item,
  frontdoor, read, write, is_ok, Post, do_predict, read_effect,
}
use system_c_uvm.RegField.Prediction.{Unchanged, Settled, do_predict-settles}

-- The mask of a field of 31 bits or more, as one compiler computes it.
abbrev wide : ℕ → ℕ
wide size = 2 ^ 64 - 1

abbrev field : Access → Field
field access = record {
  size = 8;
  access = access;
  value = 0x0f;
  mirrored = 0x0f;
  desired = 0x0f;
  resets = [];
  written = false;
  fname = "";
  lineno = 0;
}

abbrev map_of : Rights → Map
map_of rights = record { backdoor = false; rights = rights }

abbrev item_of : ℕ → Item
item_of value = record {
  value = value;
  status = is_ok;
  path = frontdoor;
  map = map_of read_write;
  fname = "b.cpp";
  lineno = 3;
}

abbrev no_callbacks : Post
no_callbacks f previous kind v = v

-- Writing ones clears the bits of a W1C field; reading an RC field clears it.
write_one_to_clear :
    (do_predict wide no_callbacks true false write (item_of 0x05) (field w1c)).0.mirrored ≡ 0x0a
unfolding do_predict predicted get_access by_policy
write_one_to_clear = refl

read_to_clear :
    (do_predict wide no_callbacks true false read (item_of 0x0f) (field rc)).0.mirrored ≡ 0
unfolding do_predict read_effect get_access
read_to_clear = refl

do_predict-settles_example :
    Unchanged
      (field w1c)
      (do_predict wide no_callbacks true true write (item_of 0x1ff) (field w1c)).0
    ⊎ Settled
        (mask wide 8)
        (do_predict wide no_callbacks true true write (item_of 0x1ff) (field w1c)).0
do_predict-settles_example =
    do_predict-settles wide no_callbacks true true write (item_of 0x1ff) (field w1c)
