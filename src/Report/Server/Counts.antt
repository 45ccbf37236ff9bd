-- ===== src/Report/Server/Counts.antt =====
-- The counters of src/uvmsc/report/uvm_default_report_server.cpp and when the quit limit ends the
-- simulation.
use system_c_uvm.Base.{
  ℕ, ◌+◌, ◌-◌, ◌≡◌, ◌<◌, refl, ◌&&◌, ◌||◌, not, leb, Bool, true, false, if◌then◌else◌, ◌==◌, String,
  arith, List, [], ◌∷◌, ◌++◌, All, length, Option-cases, inl, inr,
}
use system_c_uvm.Base.Assoc.{string_key, find, find-insert}
use system_c_uvm.Report.{
  Severity, info, severity_key, same_severity, same_severity_iff, Message, has, with_flag,
  count_flag, exit_flag, rm_record_flag,
}
use system_c_uvm.Report.Handler.{or_else}
use system_c_uvm.Report.Server.{
  Server, Effect, die, get_severity_count, incr_severity_count, get_id_count, incr_id_count,
  count_quit, incr_quit_count, is_quit_count_reached, execute_report_message, finish, show,
}

incr_severity_count_lem :
    (t s : Severity) (r : Server)
    → get_severity_count t (incr_severity_count s r)
      ≡ get_severity_count t r + (if same_severity s t then 1 else 0)
unfolding get_severity_count incr_severity_count
incr_severity_count_lem t s r =
    rw (find-insert s t (or_else (find s r.severity_count) 0 + 1) r.severity_count)
      (ground (arith, same_severity_iff s t))

incr_id_count_lem :
    (j i : String) (r : Server)
    → get_id_count j (incr_id_count i r) ≡ get_id_count j r + (if string_key.same i j then 1 else 0)
unfolding get_id_count incr_id_count
incr_id_count_lem j i r = elim (Option-cases (find i r.id_count)) [
  | inl e ↦
      rw (e, incr_id_count)
        (rw (find-insert i j 1 r.id_count) (ground (arith, string_key.same_iff i j)))
  | inr (n, e) ↦
      rw (e, incr_id_count)
        (rw (find-insert i j (n + 1) r.id_count) (ground (arith, string_key.same_iff i j)))
]

-- What the steps of execute_report_message leave alone.
incr_severity_count-rest :
    (j i : String) (t : Severity) (r : Server)
    → let r' = incr_severity_count t r in
      (get_id_count j r' ≡ get_id_count j r)
      × (r'.quit_count ≡ r.quit_count)
      × (r'.max_quit_count ≡ r.max_quit_count)
unfolding incr_severity_count get_id_count
incr_severity_count-rest j i t r = (refl, refl, refl)

incr_id_count-rest :
    (t : Severity) (i : String) (r : Server)
    → let r' = incr_id_count i r in
      (get_severity_count t r' ≡ get_severity_count t r)
      × (r'.quit_count ≡ r.quit_count)
      × (r'.max_quit_count ≡ r.max_quit_count)
unfolding incr_id_count get_severity_count
incr_id_count-rest t i r = ground arith

count_quit-rest :
    (t : Severity) (j : String) (r : Server) (msg : Message)
    → let r' = (count_quit r msg).0 in
      (get_severity_count t r' ≡ get_severity_count t r) × (get_id_count j r' ≡ get_id_count j r)
unfolding count_quit incr_quit_count get_severity_count get_id_count
count_quit-rest t j r msg = ground arith

has_exit-with_exit : (a : ℕ) → has (with_flag a exit_flag) exit_flag ≡ true
has_exit-with_exit a = ground arith

has-with_record :
    (a : ℕ)
    → (has (with_flag a rm_record_flag) exit_flag ≡ has a exit_flag)
      × (has (with_flag a rm_record_flag) count_flag ≡ has a count_flag)
has-with_record a = ground arith

abbrev counted : Server → ℕ → Bool
counted s action = has action count_flag && not (s.max_quit_count == 0)

count_quit_lem :
    (s : Server) (msg : Message)
    → let r = count_quit s msg in
      (has r.1.action exit_flag ≡ (
        has msg.action exit_flag
        || (counted s msg.action && leb s.max_quit_count (s.quit_count + 1))))
      × (r.0.quit_count ≡ (if counted s msg.action then s.quit_count + 1 else s.quit_count))
      × (r.0.max_quit_count ≡ s.max_quit_count)
unfolding count_quit incr_quit_count is_quit_count_reached
count_quit_lem s msg = ground (arith, has_exit-with_exit msg.action)

-- Does the call end the simulation?
abbrev pub dies : List Effect → Bool
dies [] = false
dies (die ∷ es) = true
dies (_ ∷ es) = dies es

dies-show-append :
    (msg : Message) (composed : String) (es : List Effect)
    → dies (show msg composed ++ es) ≡ dies es
dies-show-append msg composed es = ground arith

dies-finish : (msg : Message) → dies (finish msg) ≡ has msg.action exit_flag
dies-finish msg = ground arith

abbrev recorded : Server → Message → Message
recorded s msg =
    if s.record_all_messages
    then record msg { action = with_flag msg.action rm_record_flag }
    else msg

recorded-flags :
    (s : Server) (msg : Message)
    → (has (recorded s msg).action exit_flag ≡ has msg.action exit_flag)
      × (has (recorded s msg).action count_flag ≡ has msg.action count_flag)
recorded-flags s msg = ground (arith, has-with_record msg.action)

abbrev entered : Server → Message → Server
entered s msg = incr_id_count msg.id (incr_severity_count msg.severity s)

-- Each message that is executed is counted once, under its severity and under its id; no other count
-- changes.
pub execute_report_message-counts :
    (t : Severity) (j composed : String) (msg : Message) (s : Server)
    → let s' = (execute_report_message composed msg s).0 in
      (get_severity_count t s'
        ≡ get_severity_count t s + (if same_severity msg.severity t then 1 else 0))
      × (get_id_count j s' ≡ get_id_count j s + (if string_key.same msg.id j then 1 else 0))
unfolding execute_report_message
execute_report_message-counts t j composed msg s = ground (
  arith,
  count_quit-rest t j (entered s msg) (recorded s msg),
  incr_id_count-rest t msg.id (incr_severity_count msg.severity s),
  incr_id_count_lem j msg.id (incr_severity_count msg.severity s),
  incr_severity_count-rest j msg.id msg.severity s,
  incr_severity_count_lem t msg.severity s,
)

-- A message ends the simulation exactly if its action says UVM_EXIT, or says UVM_COUNT while there is
-- a quit limit that this message reaches. The quit count goes up exactly when such a message is
-- counted, and the limit itself never changes.
pub execute_report_message-dies :
    (composed : String) (msg : Message) (s : Server)
    → let r = execute_report_message composed msg s in
      let counted = has msg.action count_flag && not (s.max_quit_count == 0) in
      (dies r.2
        ≡ (has msg.action exit_flag || (counted && leb s.max_quit_count (s.quit_count + 1))))
      × (r.0.quit_count ≡ (if counted then s.quit_count + 1 else s.quit_count))
      × (r.0.max_quit_count ≡ s.max_quit_count)
unfolding execute_report_message
execute_report_message-dies composed msg s =
    let s₁ : Server = entered s msg in
    let after = count_quit s₁ (recorded s msg) in
    ground (
      arith,
      dies-show-append (recorded s msg) composed (finish after.1),
      dies-finish after.1,
      count_quit_lem s₁ (recorded s msg),
      recorded-flags s msg,
      incr_id_count-rest info msg.id (incr_severity_count msg.severity s),
      incr_severity_count-rest msg.id msg.id msg.severity s,
    )

-- Messages that arrive one after the other; nothing is executed after the one that ends the
-- simulation. The Boolean says whether it has ended.
unfoldable pub execute_all : List (String × Message) → Server → Server × Bool
execute_all [] s = (s, false)
execute_all ((composed, msg) ∷ ms) s =
    let (s', _, effects) = execute_report_message composed msg s in
    let rest = execute_all ms s' in if dies effects then (s', true) else rest

abbrev Counted : String × Message → Type 0
Counted m = (has m.1.action count_flag ≡ true) × (has m.1.action exit_flag ≡ false)

-- The quit limit is exact: of messages that count and do not exit by themselves, a server with a
-- limit above its quit count executes as many as are missing to the limit and ends with the last of
-- these; fewer messages leave it running.
pub execute_all-dies :
    (ms : List (String × Message)) (s : Server)
    → All Counted ms
    → s.quit_count < s.max_quit_count
    → (execute_all ms s).1 ≡ leb (s.max_quit_count - s.quit_count) (length ms)
unfolding execute_all
execute_all-dies [] s c h = ground arith
execute_all-dies ((composed, msg) ∷ ms) s c h = ground (
  arith,
  execute_report_message-dies composed msg s,
  execute_all-dies ms (execute_report_message composed msg s).0 c.1,
)
