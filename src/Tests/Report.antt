-- ===== src/Tests/Report.antt =====
-- Runs of the report handler, the catchers and the report server (src/uvmsc/report).
use system_c_uvm.Base.{◌+◌, ◌≡◌, refl, true, false, [], ◌∷◌, arith}
use system_c_uvm.Base.Assoc.{string_key, find, insert}
use system_c_uvm.Report.{severity_key, warning, error, Message, display_flag, count_flag}
use system_c_uvm.Report.Handler.{
  new_handler, find₂, get_action, set_severity_action, set_default_file, set_severity_file,
  initialize,
}
use system_c_uvm.Report.Catcher.{
  Catcher, CatcherData, throw, caught, process_report_catcher, follow_severity, catch_loop,
  process_all_report_catchers,
}
use system_c_uvm.Report.Server.{Server}
use system_c_uvm.Report.Server.Counts.{execute_all, execute_all-dies}

abbrev message : Message
message = record {
  severity = error;
  id = "BUS";
  text = "no answer";
  verbosity = 0;
  filename = "bus.cpp";
  line = 12;
  context = "top";
  action = display_flag + count_flag;
  file = 0;
}

-- One catcher makes a warning of what it sees, the other catches.
abbrev demote : Catcher
demote = record {
  callback_mode = true;
  do_catch = λ msg. (record msg { severity = warning }, throw);
}

abbrev catch_it : Catcher
catch_it = record { callback_mode = true; do_catch = λ msg. (msg, caught) }

abbrev no_counts : CatcherData
no_counts = record {
  demoted_fatal = 0;
  demoted_error = 0;
  demoted_warning = 0;
  caught_fatal = 0;
  caught_error = 0;
  caught_warning = 0;
  debug_flags = 0;
  in_catcher = false;
  rptcthr = 0;
}

-- A demoted error gets the action of a warning, so it no longer counts.
demoted_action :
    (process_all_report_catchers new_handler (demote ∷ []) message no_counts).0.action
    ≡ display_flag
unfolding process_all_report_catchers catch_loop process_report_catcher follow_severity get_action
    new_handler initialize set_severity_action set_severity_file set_default_file find insert find₂
demoted_action = refl

abbrev limited : Server
limited = record {
  max_quit_count = 2;
  quit_count = 0;
  max_quit_overridable = true;
  severity_count = (error, 4) ∷ [];
  id_count = [];
  record_all_messages = false;
}

execute_all-dies_example :
    (execute_all (("", message) ∷ ("", message) ∷ ("", message) ∷ []) limited).1 ≡ true
execute_all-dies_example =
    execute_all-dies (("", message) ∷ ("", message) ∷ ("", message) ∷ []) limited
      ((refl, refl), ((refl, refl), ((refl, refl), tt))) (omega arith)
