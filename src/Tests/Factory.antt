-- ===== src/Tests/Factory.antt =====
-- Runs of the factory (src/uvmsc/factory/uvm_default_factory.cpp).
use system_c_uvm.Base.{
  ℕ, ◌≡◌, refl, String, Bool, true, List, [], ◌∷◌, Option, none, some, ◌||◌, if◌then◌else◌,
}
use system_c_uvm.Base.Assoc.{nat_key, string_key, find, insert}
use system_c_uvm.Factory.{Wrapper, Factory, do_register}
use system_c_uvm.Factory.Setters.{set_inst_override_by_name}
use system_c_uvm.Factory.Lookup.{
  Found, found, loop_found, out_of_fuel, find_override_by_type, create_by_type, inst_path,
}
use system_c_uvm.Factory.Chain.{Leads}
use system_c_uvm.Factory.Settings.{
  Setting, type_override, inst_override, configured, apply, no_overrides, create_by_type-configured,
}

abbrev matches : String → String → Bool
matches expr s = string_key.same expr "*" || string_key.same expr s

abbrev packet : Wrapper
packet = record { ptr = 1; type_name = "packet" }

abbrev short_packet : Wrapper
short_packet = record { ptr = 2; type_name = "short_packet" }

abbrev bad_packet : Wrapper
bad_packet = record { ptr = 3; type_name = "bad_packet" }

abbrev address : String → ℕ
address name =
    if string_key.same name "packet"
    then 1
    else if string_key.same name "short_packet"
    then 2
    else 3

abbrev settings : List Setting
settings =
    type_override packet short_packet true ∷ inst_override short_packet bad_packet "top.env" ∷ []

-- The type that a search ends at, by its address.
abbrev reached : Found → Option ℕ
reached (found w l) = some w.ptr
reached (loop_found w l) = none
reached out_of_fuel = none

by_instance :
    reached (create_by_type 3 matches packet "top" "env" (configured matches settings no_overrides))
    ≡ some 3
unfolding create_by_type inst_path configured apply no_overrides find insert
by_instance = refl

elsewhere :
    reached (create_by_type 3 matches packet "top" "sb" (configured matches settings no_overrides))
    ≡ some 2
unfolding create_by_type inst_path configured apply no_overrides find insert
elsewhere = refl

-- Two types of one name each, which overrides set for types of the other name confuse.
abbrev wrapper_of : ℕ → String → Wrapper
wrapper_of ptr name = record { ptr = ptr; type_name = name }

confused :
    find_override_by_type 20 matches (wrapper_of 4 "a") "top" [] (
      configured matches
        (type_override (wrapper_of 1 "a") (wrapper_of 2 "b") true
          ∷ type_override (wrapper_of 3 "b") (wrapper_of 4 "a") true
          ∷ [])
        no_overrides)
    ≡ out_of_fuel
unfolding find_override_by_type configured apply no_overrides find insert
confused = refl

create_by_type-configured_example :
    Leads matches "top.env"
      (configured matches settings no_overrides)
      packet
      []
      (create_by_type 3 matches packet "top" "env" (configured matches settings no_overrides))
unfolding inst_path
create_by_type-configured_example =
    create_by_type-configured matches address settings packet "top" "env"
      ((λ h. refl, λ h. refl), ((λ h. refl, λ h. refl), tt)) (λ h. refl)

-- A factory where an override waits for a type to be registered.
abbrev before : Factory
before =
    set_inst_override_by_name matches "packet" "bad_packet" "top.env"
      (do_register matches bad_packet no_overrides)
