-- ===== src/Report.antt =====
-- src/uvmsc/report and the report types of src/uvmsc/base/uvm_object_globals.h: severities,
-- actions and messages, which the handler, the catchers and the server share.
-- `uvm_action` is an `int` used as a set of flags. A flag is a power of two, so the test
-- `action & flag` reads one binary digit and `action | flag` sets it.
-- `UVM_FILE` is a pointer: an address, and 0 is NULL.
pub mod Handler
pub mod Catcher
pub mod Server
use system_c_uvm.Base.{
  ℕ, ◌+◌, ◌*◌, ◌/◌, ◌%◌, ◌^◌, ◌≡◌, ◌↔◌, refl, Bool, true, false, if◌then◌else◌, ◌==◌, String, arith,
  ◌||◌,
}
use system_c_uvm.Base.Assoc.{Key}

pub data Severity : Type 0 where
  info warning error fatal : Severity

-- The value of the enumerator.
abbrev pub rank : Severity → ℕ
rank info = 0
rank warning = 1
rank error = 2
rank fatal = 3

abbrev pub same_severity : Severity → Severity → Bool
same_severity a b = rank a == rank b

pub same_severity_iff : (a b : Severity) → (same_severity a b ≡ true) ↔ (a ≡ b)
same_severity_iff a b = ground arith

instance abbrev pub severity_key : Key Severity
severity_key = record { same = same_severity; same_iff = same_severity_iff }

-- The digits of UVM_DISPLAY and so on.
abbrev pub display_flag : ℕ
display_flag = 1

abbrev pub log_flag : ℕ
log_flag = 2

abbrev pub count_flag : ℕ
count_flag = 4

abbrev pub exit_flag : ℕ
exit_flag = 8

abbrev pub stop_flag : ℕ
stop_flag = 32

abbrev pub rm_record_flag : ℕ
rm_record_flag = 64

-- `action & flag`, for a flag with one digit
abbrev pub has : ℕ → ℕ → Bool
has action flag = (action / flag) % 2 == 1

-- `action | flag`
abbrev pub with_flag : ℕ → ℕ → ℕ
with_flag action flag = if has action flag then action else action + flag

-- uvm_report_message, with the fields that the handler, the catchers and the server read or write.
-- Its references to the handler, the server and the report object are not kept.
pub record Message : Type 0 where
  pub severity : Severity
  pub id : String
  pub text : String
  pub verbosity : ℕ
  pub filename : String
  pub line : ℕ
  pub context : String
  pub action : ℕ
  pub file : ℕ
