-- ===== src/Report/Catcher.antt =====
-- src/uvmsc/report/uvm_report_catcher.cpp with uvm_report_catcher_data.h: the loop over the report
-- catchers. What a catcher's `do_catch` does to the message is user code, a field of `Catcher`;
-- it is taken to issue no report of its own, so `in_catcher` changes only here.
pub mod Loop
use system_c_uvm.Base.{
  ℕ, ◌+◌, ◌/◌, ◌%◌, ◌≡◌, refl, ◌&&◌, not, ltb, Bool, true, false, if◌then◌else◌, ◌==◌, String,
  arith, List, [], ◌∷◌,
}
use system_c_uvm.Report.{Severity, info, warning, error, fatal, rank, same_severity, Message, has}
use system_c_uvm.Report.Handler.{Handler, get_action}

-- action_e
pub data Verdict : Type 0 where
  unknown_action throw caught : Verdict

pub record Catcher : Type 0 where
  pub callback_mode : Bool
  pub do_catch : Message → Message × Verdict

abbrev do_not_catch : ℕ
do_not_catch = 1

abbrev do_not_modify : ℕ
do_not_modify = 2

-- uvm_report_catcher_data and the static `in_catcher`. `m_set_action_called` is left out: the source
-- sets it to false before each catcher and never to true. `rptcthr` counts the RPTCTHR errors that
-- process_report_catcher reports.
pub record CatcherData : Type 0 where
  pub demoted_fatal : ℕ
  pub demoted_error : ℕ
  pub demoted_warning : ℕ
  pub caught_fatal : ℕ
  pub caught_error : ℕ
  pub caught_warning : ℕ
  pub debug_flags : ℕ
  pub in_catcher : Bool
  pub rptcthr : ℕ

abbrev is_caught : Verdict → Bool
is_caught caught = true
is_caught _ = false

abbrev complain : Verdict → CatcherData → CatcherData
complain unknown_action d = record d { rptcthr = d.rptcthr + 1 }
complain _ d = d

-- process_report_catcher: `orig` is the clone that is made before the loop. The Boolean is `thrown`.
unfoldable pub process_report_catcher :
    Catcher → Message → Message → CatcherData → Message × Bool × CatcherData
process_report_catcher c orig msg d =
    let (msg', act) = c.do_catch msg in
    (
      (if has d.debug_flags do_not_modify then orig else msg'),
      not (is_caught act && not (has d.debug_flags do_not_catch)),
      complain act d,
    )

abbrev count_caught : Severity → CatcherData → CatcherData
count_caught fatal d = record d { caught_fatal = d.caught_fatal + 1 }
count_caught error d = record d { caught_error = d.caught_error + 1 }
count_caught warning d = record d { caught_warning = d.caught_warning + 1 }
count_caught info d = d

abbrev count_demoted : Severity → CatcherData → CatcherData
count_demoted fatal d = record d { demoted_fatal = d.demoted_fatal + 1 }
count_demoted error d = record d { demoted_error = d.demoted_error + 1 }
count_demoted warning d = record d { demoted_warning = d.demoted_warning + 1 }
count_demoted info d = d

-- The id under which the default action of a severity is read.
abbrev no_id : String
no_id = "*@&*^*^*#"

-- After a catcher: a message whose severity changed and whose action is the old severity's default
-- gets the new severity's default.
unfoldable pub follow_severity : Handler → Severity → Message → Message
follow_severity h prev msg =
    if not (same_severity msg.severity prev) && msg.action == get_action prev no_id h
    then record msg { action = get_action msg.severity no_id h }
    else msg

-- The while loop; it ends at the first catcher that has caught the message.
unfoldable pub catch_loop :
    Handler → Message → List Catcher → Message → CatcherData → Message × Bool × CatcherData
catch_loop h orig [] msg d = (msg, true, d)
catch_loop h orig (c ∷ cs) msg d =
    let (msg₁, thrown, d₁) = process_report_catcher c orig msg d in
    let msg₂ = follow_severity h msg.severity msg₁ in
    let skipped = catch_loop h orig cs msg d in
    let rest = catch_loop h orig cs msg₂ d₁ in
    if c.callback_mode
    then (if thrown then rest else (msg₂, false, count_caught orig.severity d₁))
    else skipped

-- process_all_report_catchers over the catchers registered for the message's object, whose handler
-- is `h`. The Boolean is the result.
unfoldable pub process_all_report_catchers :
    Handler → List Catcher → Message → CatcherData → Message × Bool × CatcherData
process_all_report_catchers h cs msg d =
    let (msg', thrown, d') = catch_loop h msg cs msg (record d { in_catcher = true }) in
    let d'' =
      if ltb (rank msg'.severity) (rank msg.severity) then count_demoted msg.severity d' else d' in
    if d.in_catcher then (msg, true, d) else (msg', thrown, record d'' { in_catcher = false })
