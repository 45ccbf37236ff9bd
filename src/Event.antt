-- ===== src/Event.antt =====
-- src/uvmsc/base/uvm_event.cpp: an event that processes wait for. The two events of the simulation kernel, m_event
-- and m_on_ev, are the lists of the processes that wait for them; a notification resumes all of
-- them. A process is known by a number, and so are data (NULL is `none`), times and callbacks.
pub mod Waiting
use system_c_uvm.Base.{
  ℕ, ◌+◌, ◌-◌, not, Bool, true, false, if◌then◌else◌, ◌==◌, String, List, [], ◌∷◌, ◌++◌, Option,
  none, some, exists,
}

-- A process in wait_on or in wait_off.
pub record OnWaiter : Type 0 where
  pub process : ℕ
  pub for_on : Bool

-- uvm_event, with the reports that are issued.
pub record Event : Type 0 where
  pub on : Bool
  pub event_val : Bool
  pub num_waiters : ℕ
  pub callbacks : List ℕ
  pub trigger_data : Option ℕ
  pub trigger_time : ℕ
  pub in_event : List ℕ
  pub in_on_ev : List OnWaiter
  pub reports : List String

unfoldable pub new_event : Event
new_event = record {
  on = false;
  event_val = false;
  num_waiters = 0;
  callbacks = [];
  trigger_data = none;
  trigger_time = 0;
  in_event = [];
  in_on_ev = [];
  reports = [];
}

-- What a call of a wait function does: it returns, or returns after a delta cycle, or waits.
pub data Outcome : Type 0 where
  returns delays waits : Outcome

abbrev at_once : Bool → Outcome
at_once delta = if delta then delays else returns

unfoldable pub wait_on : ℕ → Bool → Event → Event × Outcome
wait_on p delta e = if e.on then (e, at_once delta) else (
  record e {
    num_waiters = e.num_waiters + 1;
    in_on_ev = e.in_on_ev ++ record { process = p; for_on = true } ∷ [];
  },
  waits,
)

unfoldable pub wait_off : ℕ → Bool → Event → Event × Outcome
wait_off p delta e = if not e.on then (e, at_once delta) else (
  record e {
    num_waiters = e.num_waiters + 1;
    in_on_ev = e.in_on_ev ++ record { process = p; for_on = false } ∷ [];
  },
  waits,
)

unfoldable pub wait_trigger : ℕ → Event → Event × Outcome
wait_trigger p e =
    (record e { num_waiters = e.num_waiters + 1; in_event = e.in_event ++ p ∷ [] }, waits)

unfoldable pub wait_ptrigger : ℕ → Event → Event × Outcome
unfolding wait_trigger
wait_ptrigger p e = if e.event_val then (e, returns) else wait_trigger p e

-- The end of wait_trigger and wait_ptrigger, once the process is resumed.
unfoldable pub resumed : Event → Event
resumed e = record e { event_val = true }

-- Who is resumed by a call.
pub record Woken : Type 0 where
  pub triggered : List ℕ
  pub switched : List OnWaiter

abbrev pub nobody : Woken
nobody = record { triggered = []; switched = [] }

-- How many callbacks ask by pre_trigger not to trigger.
unfoldable pub skips : (ℕ → Bool) → List ℕ → ℕ
skips pre_trigger [] = 0
skips pre_trigger (c ∷ cs) = (if pre_trigger c then 1 else 0) + skips pre_trigger cs

-- trigger at a time; post_trigger is left to the callbacks.
unfoldable pub trigger : (ℕ → Bool) → Option ℕ → ℕ → Event → Event × Woken
unfolding skips
trigger pre_trigger value now e =
    if skips pre_trigger e.callbacks == 0
    then (
      record e {
        num_waiters = 0;
        on = true;
        trigger_time = now;
        trigger_data = value;
        in_event = [];
        in_on_ev = [];
      },
      record { triggered = e.in_event; switched = e.in_on_ev },
    )
    else (e, nobody)

-- reset
unfoldable pub reset : Bool → Event → Event × Woken
reset wakeup e = (
  record e {
    num_waiters = 0;
    on = false;
    trigger_time = 0;
    trigger_data = none;
    in_event = if wakeup then [] else e.in_event;
    in_on_ev = [];
  },
  record { triggered = if wakeup then e.in_event else []; switched = e.in_on_ev },
)

unfoldable pub cancel : Event → Event
cancel e = record e { num_waiters = e.num_waiters - 1 }

unfoldable pub add_callback : ℕ → Bool → Event → Event
add_callback cb append e =
    if exists (λ c. c == cb) e.callbacks
    then record e { reports = e.reports ++ "CBRGED" ∷ [] }
    else record e { callbacks = if append then e.callbacks ++ cb ∷ [] else cb ∷ e.callbacks }

unfoldable pub without : ℕ → List ℕ → List ℕ
without cb [] = []
without cb (c ∷ cs) = let rest = without cb cs in if c == cb then cs else c ∷ rest

unfoldable pub delete_callback : ℕ → Event → Event
unfolding without
delete_callback cb e =
    if exists (λ c. c == cb) e.callbacks
    then record e { callbacks = without cb e.callbacks }
    else record e { reports = e.reports ++ "CBNTFD" ∷ [] }

-- operator=, from another event. The events of the kernel are deleted and made anew, so no process
-- waits any more; num_waiters and the callbacks stay.
unfoldable pub assign : Event → Event → Event
assign ev e = record e {
  trigger_data = ev.trigger_data;
  trigger_time = ev.trigger_time;
  in_event = [];
  in_on_ev = [];
  on = ev.on;
  event_val = ev.event_val;
}

-- A call, with its arguments.
pub data Operation : Type 0 where
  on_wait off_wait : ℕ → Bool → Operation
  trigger_wait ptrigger_wait : ℕ → Operation
  resume cancel_one : Operation
  do_trigger : (ℕ → Bool) → Option ℕ → ℕ → Operation
  do_reset : Bool → Operation
  add : ℕ → Bool → Operation
  delete : ℕ → Operation
  copy_from : Event → Operation

unfoldable pub run : Operation → Event → Event
unfolding wait_on wait_off wait_trigger wait_ptrigger resumed trigger reset cancel add_callback
    delete_callback assign
run (on_wait p delta) e = (wait_on p delta e).0
run (off_wait p delta) e = (wait_off p delta e).0
run (trigger_wait p) e = (wait_trigger p e).0
run (ptrigger_wait p) e = (wait_ptrigger p e).0
run resume e = resumed e
run cancel_one e = cancel e
run (do_trigger pre_trigger value now) e = (trigger pre_trigger value now e).0
run (do_reset wakeup) e = (reset wakeup e).0
run (add cb append) e = add_callback cb append e
run (delete cb) e = delete_callback cb e
run (copy_from ev) e = assign ev e

unfoldable pub run_all : List Operation → Event → Event
unfolding run
run_all [] e = e
run_all (o ∷ os) e = run_all os (run o e)
