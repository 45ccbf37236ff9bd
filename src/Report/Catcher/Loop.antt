-- ===== src/Report/Catcher/Loop.antt =====
-- What the loop of src/uvmsc/report/uvm_report_catcher.cpp does, for any catchers.
use system_c_uvm.Base.{
  ℕ, ◌+◌, ◌≡◌, refl, ◌||◌, not, ltb, true, false, if◌then◌else◌, arith, List, [], ◌∷◌, ◌++◌,
}
use system_c_uvm.Report.{Severity, info, rank, same_severity, Message, has}
use system_c_uvm.Report.Handler.{Handler}
use system_c_uvm.Report.Catcher.{
  Catcher, CatcherData, do_not_catch, do_not_modify, count_caught, process_report_catcher,
  follow_severity, catch_loop, process_all_report_catchers,
}

-- The message and the data after one enabled catcher, as the loop goes on with them.
abbrev msg_after : Handler → Catcher → Message → Message → CatcherData → Message
msg_after h c orig msg d = follow_severity h msg.severity (process_report_catcher c orig msg d).0

abbrev data_after : Catcher → Message → Message → CatcherData → CatcherData
data_after c orig msg d = (process_report_catcher c orig msg d).2

-- The loop over two lists of catchers is the loop over the first and then, unless a catcher of the
-- first has caught the message, over the second: a catcher behind one that caught is not called.
pub catch_loop-append :
    (h : Handler) (orig : Message) (cs ds : List Catcher) (msg : Message) (d : CatcherData)
    → catch_loop h orig (cs ++ ds) msg d ≡ (
        let r = catch_loop h orig cs msg d in
        if r.1 then catch_loop h orig ds r.0 r.2 else (r.0, false, r.2))
unfolding catch_loop
catch_loop-append h orig [] ds msg d = refl
catch_loop-append h orig (c ∷ cs) ds msg d = ground (
  arith,
  catch_loop-append h orig cs ds msg d,
  catch_loop-append h orig cs ds (msg_after h c orig msg d) (data_after c orig msg d),
)

abbrev pub total_caught : CatcherData → ℕ
total_caught d = d.caught_fatal + d.caught_error + d.caught_warning

abbrev pub total_demoted : CatcherData → ℕ
total_demoted d = d.demoted_fatal + d.demoted_error + d.demoted_warning

process_report_catcher-counts :
    (c : Catcher) (orig msg : Message) (d : CatcherData)
    → let r = process_report_catcher c orig msg d in
      (total_caught r.2 ≡ total_caught d)
      × (total_demoted r.2 ≡ total_demoted d)
      × (r.2.debug_flags ≡ d.debug_flags)
unfolding process_report_catcher
process_report_catcher-counts c orig msg d = ground arith

count_caught-counts :
    (s : Severity) (d : CatcherData)
    → (total_caught (count_caught s d)
        ≡ (if same_severity s info then total_caught d else total_caught d + 1))
      × (total_demoted (count_caught s d) ≡ total_demoted d)
count_caught-counts s d = ground arith

catch_loop-counts :
    (h : Handler) (orig : Message) (cs : List Catcher) (msg : Message) (d : CatcherData)
    → let r = catch_loop h orig cs msg d in
      (total_caught r.2 ≡ (
        if r.1
        then total_caught d
        else if same_severity orig.severity info
        then total_caught d
        else total_caught d + 1))
      × (total_demoted r.2 ≡ total_demoted d)
unfolding catch_loop
catch_loop-counts h orig [] msg d = ground arith
catch_loop-counts h orig (c ∷ cs) msg d = ground (
  arith,
  process_report_catcher-counts c orig msg d,
  count_caught-counts orig.severity (data_after c orig msg d),
  catch_loop-counts h orig cs msg d,
  catch_loop-counts h orig cs (msg_after h c orig msg d) (data_after c orig msg d),
)

-- A message that is not caught within another catcher is counted as caught, under its original
-- severity, exactly if some catcher caught it and it is no information; and as demoted exactly if its
-- severity has become lower than it was.
pub process_all_report_catchers-counts :
    (h : Handler) (cs : List Catcher) (msg : Message) (d : CatcherData)
    → d.in_catcher ≡ false
    → let r = process_all_report_catchers h cs msg d in
      (total_caught r.2 ≡ (
        if r.1
        then total_caught d
        else if same_severity msg.severity info
        then total_caught d
        else total_caught d + 1))
      × (total_demoted r.2 ≡ (
          if ltb (rank r.0.severity) (rank msg.severity)
          then total_demoted d + 1
          else total_demoted d))
      × (r.2.in_catcher ≡ false)
unfolding process_all_report_catchers
process_all_report_catchers-counts h cs msg d out =
    ground (arith, catch_loop-counts h msg cs msg (record d { in_catcher = true }))

process_report_catcher-thrown :
    (c : Catcher) (orig msg : Message) (d : CatcherData)
    → has d.debug_flags do_not_catch ≡ true
    → (process_report_catcher c orig msg d).1 ≡ true
unfolding process_report_catcher
process_report_catcher-thrown c orig msg d f = ground arith

msg_after-orig :
    (h : Handler) (c : Catcher) (orig : Message) (d : CatcherData)
    → has d.debug_flags do_not_modify ≡ true
    → msg_after h c orig orig d ≡ orig
unfolding process_report_catcher follow_severity
msg_after-orig h c orig d f = ground arith

catch_loop-flags :
    (h : Handler) (orig : Message) (cs : List Catcher) (msg : Message) (d : CatcherData)
    → has d.debug_flags do_not_catch ≡ true
    → (catch_loop h orig cs msg d).1 ≡ true
unfolding catch_loop
catch_loop-flags h orig [] msg d f = refl
catch_loop-flags h orig (c ∷ cs) msg d f = ground (
  arith,
  process_report_catcher-thrown c orig msg d f,
  process_report_catcher-counts c orig msg d,
  catch_loop-flags h orig cs msg d f,
  catch_loop-flags h orig cs (msg_after h c orig msg d) (data_after c orig msg d),
)

catch_loop-keeps :
    (h : Handler) (orig : Message) (cs : List Catcher) (d : CatcherData)
    → has d.debug_flags do_not_modify ≡ true
    → (catch_loop h orig cs orig d).0 ≡ orig
unfolding catch_loop
catch_loop-keeps h orig [] d f = refl
catch_loop-keeps h orig (c ∷ cs) d f = ground (
  arith,
  msg_after-orig h c orig d f,
  process_report_catcher-counts c orig orig d,
  catch_loop-keeps h orig cs d f,
  catch_loop-keeps h orig cs (data_after c orig orig d),
)

-- The debug flags do what they say, whatever the catchers do: under DO_NOT_CATCH every message is
-- passed on, and under DO_NOT_MODIFY the message comes out as it went in.
pub process_all_report_catchers-flags :
    (h : Handler) (cs : List Catcher) (msg : Message) (d : CatcherData)
    → let r = process_all_report_catchers h cs msg d in
      ((not (has d.debug_flags do_not_catch) || r.1) ≡ true)
      × ((if has d.debug_flags do_not_modify then r.0 else msg) ≡ msg)
unfolding process_all_report_catchers
process_all_report_catchers-flags h cs msg d =
    let d' : CatcherData = record d { in_catcher = true } in
    ground (arith, catch_loop-flags h msg cs msg d', catch_loop-keeps h msg cs d')
