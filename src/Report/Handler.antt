-- ===== src/Report/Handler.antt =====
-- src/uvmsc/report/uvm_report_handler.cpp: the settings of one report object. A read of a map by
-- `[]` at a key that is missing gives 0; the entry with 0 that it leaves behind is not kept.
pub mod Settings
use system_c_uvm.Base.{
  ℕ, ◌+◌, ◌≡◌, refl, Bool, true, false, if◌then◌else◌, ◌==◌, String, arith, List, [], ◌∷◌, Option,
  none, some,
}
use system_c_uvm.Base.Assoc.{Key, string_key, find, insert}
use system_c_uvm.Report.{
  Severity, info, warning, error, fatal, severity_key, Message, display_flag, count_flag, exit_flag,
}

pub record Handler : Type 0 where
  pub max_verbosity_level : ℕ
  pub id_verbosities : List (String × ℕ)
  pub severity_id_verbosities : List (Severity × List (String × ℕ))
  pub severity_actions : List (Severity × ℕ)
  pub id_actions : List (String × ℕ)
  pub severity_id_actions : List (Severity × List (String × ℕ))
  pub sev_overrides : List (Severity × Severity)
  pub sev_id_overrides : List (String × List (Severity × Severity))
  pub default_file_handle : ℕ
  pub severity_file_handles : List (Severity × ℕ)
  pub id_file_handles : List (String × ℕ)
  pub severity_id_file_handles : List (Severity × List (String × ℕ))

-- `m.find(k1) != end && m[k1].find(k2) != end`, and then `m[k1][k2]`
unfoldable pub find₂ {ℓ κ ι} :
    {K : Type ℓ} {L : Type κ} {V : Type ι} ⦃k : Key K⦄ ⦃l : Key L⦄
    → K
    → L
    → List (K × List (L × V))
    → Option V
find₂ a b m = elim (find a m) [ none ↦ none | some inner ↦ find b inner ]

abbrev inner_of {ℓ} : {A : Type ℓ} → Option (List A) → List A
inner_of none = []
inner_of (some l) = l

-- `m[k1][k2] = v`
unfoldable pub insert₂ {ℓ κ ι} :
    {K : Type ℓ} {L : Type κ} {V : Type ι} ⦃k : Key K⦄ ⦃l : Key L⦄
    → K
    → L
    → V
    → List (K × List (L × V))
    → List (K × List (L × V))
insert₂ a b v m = insert a (insert b v (inner_of (find a m))) m

abbrev pub or_else {ℓ} : {A : Type ℓ} → Option A → A → A
or_else none b = b
or_else (some a) b = a

unfoldable pub get_verbosity_level : Severity → String → Handler → ℕ
get_verbosity_level severity id h =
    or_else (find₂ severity id h.severity_id_verbosities)
      (or_else (find id h.id_verbosities) h.max_verbosity_level)

unfoldable pub get_action : Severity → String → Handler → ℕ
get_action severity id h =
    or_else (find₂ severity id h.severity_id_actions)
      (or_else (find id h.id_actions) (or_else (find severity h.severity_actions) 0))

unfoldable pub get_severity_id_file : Severity → String → Handler → ℕ
get_severity_id_file severity id h = or_else (find₂ severity id h.severity_id_file_handles) (
    or_else (find id h.id_file_handles)
      (or_else (find severity h.severity_file_handles) h.default_file_handle))

-- `if (found) { file = ...; if (file != 0) return file; }` before the rest.
abbrev unless_null : Option ℕ → ℕ → ℕ
unless_null none rest = rest
unless_null (some file) rest = if file == 0 then rest else file

unfoldable pub get_file_handle : Severity → String → Handler → ℕ
unfolding get_severity_id_file
get_file_handle severity id h = unless_null (some (get_severity_id_file severity id h)) (
    unless_null (find id h.id_file_handles)
      (unless_null (find severity h.severity_file_handles) h.default_file_handle))

unfoldable pub set_verbosity_level : ℕ → Handler → Handler
set_verbosity_level level h = record h { max_verbosity_level = level }

unfoldable pub set_severity_action : Severity → ℕ → Handler → Handler
set_severity_action severity action h = record h {
  severity_actions = insert severity action h.severity_actions;
}

unfoldable pub set_id_action : String → ℕ → Handler → Handler
set_id_action id action h = record h { id_actions = insert id action h.id_actions }

unfoldable pub set_severity_id_action : Severity → String → ℕ → Handler → Handler
set_severity_id_action severity id action h = record h {
  severity_id_actions = insert₂ severity id action h.severity_id_actions;
}

unfoldable pub set_id_verbosity : String → ℕ → Handler → Handler
set_id_verbosity id level h = record h { id_verbosities = insert id level h.id_verbosities }

unfoldable pub set_severity_id_verbosity : Severity → String → ℕ → Handler → Handler
set_severity_id_verbosity severity id level h = record h {
  severity_id_verbosities = insert₂ severity id level h.severity_id_verbosities;
}

unfoldable pub set_default_file : ℕ → Handler → Handler
set_default_file file h = record h { default_file_handle = file }

unfoldable pub set_severity_file : Severity → ℕ → Handler → Handler
set_severity_file severity file h = record h {
  severity_file_handles = insert severity file h.severity_file_handles;
}

unfoldable pub set_id_file : String → ℕ → Handler → Handler
set_id_file id file h = record h { id_file_handles = insert id file h.id_file_handles }

unfoldable pub set_severity_id_file : Severity → String → ℕ → Handler → Handler
set_severity_id_file severity id file h = record h {
  severity_id_file_handles = insert₂ severity id file h.severity_id_file_handles;
}

unfoldable pub set_severity_override : Severity → Severity → Handler → Handler
set_severity_override current new h = record h {
  sev_overrides = insert current new h.sev_overrides;
}

unfoldable pub set_severity_id_override : Severity → String → Severity → Handler → Handler
set_severity_id_override current id new h = record h {
  sev_id_overrides = insert₂ id current new h.sev_id_overrides;
}

-- A handler before its constructor has called `initialize`.
abbrev blank : Handler
blank = record {
  max_verbosity_level = 0;
  id_verbosities = [];
  severity_id_verbosities = [];
  severity_actions = [];
  id_actions = [];
  severity_id_actions = [];
  sev_overrides = [];
  sev_id_overrides = [];
  default_file_handle = 0;
  severity_file_handles = [];
  id_file_handles = [];
  severity_id_file_handles = [];
}

unfoldable pub initialize : Handler → Handler
unfolding set_default_file set_severity_action set_severity_file find insert
initialize h₀ =
    let h₁ = record (set_default_file 0 h₀) { max_verbosity_level = 200 } in
    let h₂ = set_severity_action info display_flag h₁ in
    let h₃ = set_severity_action warning display_flag h₂ in
    let h₄ = set_severity_action error (display_flag + count_flag) h₃ in
    let h₅ = set_severity_action fatal (display_flag + exit_flag) h₄ in
    let file = h₅.default_file_handle in
    let h₆ = set_severity_file info file h₅ in
    let h₇ = set_severity_file warning file h₆ in
    let h₈ = set_severity_file error file h₇ in set_severity_file fatal file h₈

unfoldable pub new_handler : Handler
unfolding initialize
new_handler = initialize blank

-- The severity that process_report_message leaves in the message.
unfoldable pub overridden : Severity → String → Handler → Severity
overridden severity id h = elim (find id h.sev_id_overrides) [
  | some by_severity ↦ or_else (find severity by_severity) severity
  | none ↦ or_else (find severity h.sev_overrides) severity
]

-- The fields of the message that process_report_message sets before it calls the report server.
unfoldable pub process_report_message : Handler → Message → Message
unfolding overridden get_file_handle get_action
process_report_message h msg =
    let severity = overridden msg.severity msg.id h in
    record msg {
      severity = severity;
      file = get_file_handle severity msg.id h;
      action = get_action severity msg.id h;
    }
