-- ===== src/Tests/Event.antt =====
-- Runs of the event (src/uvmsc/base/uvm_event.cpp).
use system_c_uvm.Base.{ℕ, ◌≡◌, refl, Bool, true, false, List, [], ◌∷◌, some}
use system_c_uvm.Event.{
  Operation, on_wait, trigger_wait, cancel_one, do_reset, copy_from, assign, waits, returns,
  run_all, new_event, resumed, wait_ptrigger, wait_on, trigger, reset, add_callback,
}
use system_c_uvm.Event.Waiting.{wait_ptrigger-resumed}

abbrev calls : List Operation
calls = trigger_wait 1 ∷ on_wait 2 true ∷ do_reset false ∷ cancel_one ∷ []

abbrev never : ℕ → Bool
never cb = false

-- A reset resumes the process that waits for the event to be on.
spurious :
    (reset false (wait_on 2 true new_event).0).1.switched
    ≡ record { process = 2; for_on = true } ∷ []
unfolding reset wait_on new_event
spurious = refl

triggered : (trigger never (some 5) 10 (wait_on 2 true new_event).0).0.trigger_data ≡ some 5
unfolding trigger wait_on new_event
triggered = refl

twice : (add_callback 4 true (add_callback 4 true new_event)).callbacks ≡ 4 ∷ []
unfolding add_callback new_event
twice = refl

resumed_val : (resumed new_event).event_val ≡ true
unfolding resumed
resumed_val = refl

-- An event that is assigned from a new one makes processes wait again.
renewed : (wait_ptrigger 3 (assign new_event (resumed new_event))).1 ≡ waits
unfolding wait_ptrigger assign resumed new_event
renewed = refl

wait_ptrigger-resumed_example :
    wait_ptrigger 3
      (run_all (do_reset true ∷ copy_from (resumed new_event) ∷ []) (resumed new_event))
    ≡ (run_all (do_reset true ∷ copy_from (resumed new_event) ∷ []) (resumed new_event), returns)
wait_ptrigger-resumed_example =
    wait_ptrigger-resumed (do_reset true ∷ copy_from (resumed new_event) ∷ []) 3 new_event
      (tt, (resumed_val, tt))
