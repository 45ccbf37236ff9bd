-- ===== src/Event/Waiting.antt =====
-- src/uvmsc/base/uvm_event.cpp: when a wait for the trigger returns.
use system_c_uvm.Base.{All, ℕ, ◌≡◌, refl, true, List, [], ◌∷◌, arith}
use system_c_uvm.Event.{
  Event, Operation, on_wait, off_wait, trigger_wait, ptrigger_wait, resume, cancel_one, do_trigger,
  do_reset, add, delete, copy_from, assign, returns, run, run_all, resumed, wait_ptrigger, wait_on,
  wait_off, wait_trigger, trigger, reset, cancel, add_callback, delete_callback,
}

-- What is assigned is an event from whose trigger a process has been resumed.
abbrev pub IsSpent : Operation → Type 0
IsSpent (copy_from ev) = ev.event_val ≡ true
IsSpent _ = Unit

run-keeps :
    (o : Operation) (e : Event) → IsSpent o → e.event_val ≡ true → (run o e).event_val ≡ true
unfolding run wait_on wait_off wait_trigger wait_ptrigger resumed trigger reset cancel add_callback
    delete_callback assign
run-keeps (on_wait p delta) e k h = ground (arith, h)
run-keeps (off_wait p delta) e k h = ground (arith, h)
run-keeps (trigger_wait p) e k h = h
run-keeps (ptrigger_wait p) e k h = ground (arith, h)
run-keeps resume e k h = refl
run-keeps cancel_one e k h = h
run-keeps (do_trigger pre_trigger value now) e k h = ground (arith, h)
run-keeps (do_reset wakeup) e k h = h
run-keeps (add cb append) e k h = ground (arith, h)
run-keeps (delete cb) e k h = ground (arith, h)
run-keeps (copy_from ev) e k h = k

run_all-keeps :
    (os : List Operation) (e : Event)
    → All IsSpent os
    → e.event_val ≡ true
    → (run_all os e).event_val ≡ true
unfolding run_all
run_all-keeps [] e k h = h
run_all-keeps (o ∷ os) e k h = run_all-keeps os (run o e) k.1 (run-keeps o e k.0 h)

-- Once a process has been resumed from a wait for the trigger, wait_ptrigger returns at once and
-- counts no waiter, whatever calls follow, a reset included, as long as no other event is assigned
-- to this one but such from whose trigger a process has been resumed, too.
pub wait_ptrigger-resumed :
    (os : List Operation) (p : ℕ) (e : Event)
    → All IsSpent os
    → wait_ptrigger p (run_all os (resumed e)) ≡ (run_all os (resumed e), returns)
unfolding wait_ptrigger resumed
wait_ptrigger-resumed os p e k = ground (arith, run_all-keeps os (resumed e) k refl)
