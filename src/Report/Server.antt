-- ===== src/Report/Server.antt =====
-- src/uvmsc/report/uvm_default_report_server.cpp: counting, the quit limit and the actions. The
-- counters are `int`; they are taken not to overflow. The composed text, with the simulation time in
-- it, is an argument. `die` throws, so it ends the call.
pub mod Counts
use system_c_uvm.Base.{
  ℕ, ◌+◌, ◌/◌, ◌%◌, ◌≡◌, refl, ◌&&◌, ◌||◌, not, ltb, leb, Bool, true, false, if◌then◌else◌, ◌==◌,
  String, arith, List, [], ◌∷◌, ◌++◌, Option, none, some,
}
use system_c_uvm.Base.Int.{ℤ, clamp}
use system_c_uvm.Base.Assoc.{Key, string_key, find, insert}
use system_c_uvm.Report.{
  Severity, info, warning, error, fatal, severity_key, Message, has, with_flag, display_flag,
  log_flag, count_flag, exit_flag, stop_flag, rm_record_flag,
}
use system_c_uvm.Report.Handler.{Handler, or_else}
use system_c_uvm.Report.Catcher.{Catcher, CatcherData, process_all_report_catchers}

pub record Server : Type 0 where
  pub max_quit_count : ℕ
  pub quit_count : ℕ
  pub max_quit_overridable : Bool
  pub severity_count : List (Severity × ℕ)
  pub id_count : List (String × ℕ)
  pub record_all_messages : Bool

-- What the actions of a message do outside of the server.
pub data Effect : Type 0 where
  display : String → Effect
  log : ℕ → String → Effect
  die stop : Effect

unfoldable pub set_max_quit_count : ℤ → Bool → Server → Server
set_max_quit_count count overridable s =
    if s.max_quit_overridable
    then record s { max_quit_overridable = overridable; max_quit_count = clamp count }
    else s

unfoldable pub set_quit_count : ℤ → Server → Server
set_quit_count count s = record s { quit_count = clamp count }

unfoldable pub incr_quit_count : Server → Server
incr_quit_count s = record s { quit_count = s.quit_count + 1 }

unfoldable pub reset_quit_count : Server → Server
reset_quit_count s = record s { quit_count = 0 }

unfoldable pub is_quit_count_reached : Server → Bool
is_quit_count_reached s = leb s.max_quit_count s.quit_count

unfoldable pub get_severity_count : Severity → Server → ℕ
get_severity_count severity s = or_else (find severity s.severity_count) 0

unfoldable pub set_severity_count : Severity → ℤ → Server → Server
set_severity_count severity count s = record s {
  severity_count = insert severity (clamp count) s.severity_count;
}

unfoldable pub incr_severity_count : Severity → Server → Server
incr_severity_count severity s = record s {
  severity_count =
      insert severity (or_else (find severity s.severity_count) 0 + 1) s.severity_count;
}

unfoldable pub reset_severity_counts : Server → Server
unfolding insert
reset_severity_counts s = record s {
  severity_count =
      insert fatal 0 (insert error 0 (insert warning 0 (insert info 0 s.severity_count)));
}

unfoldable pub get_id_count : String → Server → ℕ
get_id_count id s = or_else (find id s.id_count) 0

unfoldable pub set_id_count : String → ℤ → Server → Server
set_id_count id count s = record s { id_count = insert id (clamp count) s.id_count }

unfoldable pub incr_id_count : String → Server → Server
incr_id_count id s = elim (find id s.id_count) [
  | some n ↦ record s { id_count = insert id (n + 1) s.id_count }
  | none ↦ record s { id_count = insert id 1 s.id_count }
]

unfoldable pub new_server : Server
unfolding reset_severity_counts
new_server = reset_severity_counts (record {
  max_quit_count = 0;
  quit_count = 0;
  max_quit_overridable = true;
  severity_count = [];
  id_count = [];
  record_all_messages = false;
})

-- The part of execute_report_message on UVM_COUNT.
unfoldable pub count_quit : Server → Message → Server × Message
count_quit s msg =
    let s' = incr_quit_count s in
    if has msg.action count_flag && not (s.max_quit_count == 0)
    then (
      s',
      (if is_quit_count_reached s'
          then record msg { action = with_flag msg.action exit_flag }
          else msg),
    )
    else (s, msg)

-- The part on UVM_EXIT and UVM_STOP.
abbrev finish : Message → List Effect
finish msg =
    if has msg.action exit_flag
    then die ∷ []
    else if has msg.action stop_flag
    then stop ∷ []
    else []

abbrev show : Message → String → List Effect
show msg composed =
    (if has msg.action display_flag then display composed ∷ [] else [])
    ++ (if has msg.action log_flag then log msg.file composed ∷ [] else [])

unfoldable pub execute_report_message : String → Message → Server → Server × Message × List Effect
execute_report_message composed msg s =
    let s₁ = incr_id_count msg.id (incr_severity_count msg.severity s) in
    let msg₁ =
      if s.record_all_messages
      then record msg { action = with_flag msg.action rm_record_flag }
      else msg in
    let (s₂, msg₂) = count_quit s₁ msg₁ in (s₂, msg₂, show msg₁ composed ++ finish msg₂)

-- process_report_message: `compose` is the server's compose_report_message.
unfoldable pub process_report_message :
    (Message → String)
    → Handler
    → List Catcher
    → Message
    → CatcherData
    → Server
    → Server × CatcherData × List Effect
process_report_message compose h cs msg d s =
    let (msg', thrown, d') = process_all_report_catchers h cs msg d in
    let composed =
      if has msg'.action log_flag || has msg'.action display_flag then compose msg' else "" in
    let (s', _, effects) = execute_report_message composed msg' s in
    if thrown && not (msg'.action == 0) then (s', d', effects) else (s, d', [])
