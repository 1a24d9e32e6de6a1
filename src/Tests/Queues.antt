-- ===== src/Tests/Queues.antt =====
-- The theorems on modules and write queues, at a few calls.
use x_ztl.Common.{
  ℕ, ◌≡◌, ◌≢◌, refl, inr, true, false, ltb, if◌then◌else◌, List, [], ◌∷◌, none, some,
}
use x_ztl.Consts.{xztl_ok}
use x_ztl.Modules.{mod_set, is_known}
use x_ztl.Modules.Installed.{Registration, register_all, last_of, installed, mod_set-register_all}
use x_ztl.Io.Queue.{
  WriteQueue, at_test, ended, writing, initial, QueueSteps, here, then_step, runs, submits, stops,
  thread_step, submit, stop, run_thread,
}
use x_ztl.Io.Queue.Order.{IsFifo, QueueSteps-IsFifo, run_thread-ended, QueueSteps-not_ended}

-- The mapping module is registered twice, and a module of an unknown type once.
abbrev registrations : List Registration
registrations = (4, 2, some 71) ∷ (5, 2, some 60) ∷ (4, 40, some 99) ∷ (4, 3, some 70) ∷ []

mod_set-register_all_example :
    ((mod_set (register_all registrations) (register_all registrations).modset).0 ≡ xztl_ok)
    × ((t : ℕ)
        → (mod_set (register_all registrations) (register_all registrations).modset).1.mods t ≡ (
            if ltb t 10
            then (if is_known t then installed (last_of registrations t) else none)
            else none))
mod_set-register_all_example = mod_set-register_all registrations

-- Two commands are submitted; the thread has begun and writes the first one when the queue is stopped.
abbrev stopped_queue : WriteQueue
stopped_queue = record {
  place = writing 5;
  flag_running = false;
  ucmds = 6 ∷ [];
  submitted = 5 ∷ 6 ∷ [];
  written = [];
}

abbrev stopped_steps : QueueSteps (λ _. true) true initial stopped_queue
unfolding thread_step submit stop
stopped_steps =
    then_step
      (then_step
        (then_step
          (then_step (then_step (then_step here (submits 5 refl)) (submits 6 refl)) (runs refl))
          (runs refl))
        (runs refl))
      (stops refl refl)

QueueSteps-IsFifo_example : IsFifo stopped_queue
QueueSteps-IsFifo_example = QueueSteps-IsFifo (λ _. true) true stopped_queue stopped_steps

run_thread-ended_example :
    (n : ℕ) × ((run_thread (λ _. true) n stopped_queue).place ≡ ended)
    × ((run_thread (λ _. true) n stopped_queue).written ≡ 5 ∷ 6 ∷ [])
run_thread-ended_example =
    run_thread-ended (λ _. true) (λ _. refl) true stopped_queue stopped_steps refl (inr (5, refl))

-- The thread begins after the stop.
abbrev begun_queue : WriteQueue
begun_queue = record {
  place = at_test;
  flag_running = true;
  ucmds = [];
  submitted = [];
  written = [];
}

QueueSteps-not_ended_example : begun_queue.place ≢ ended
unfolding thread_step stop
QueueSteps-not_ended_example =
    QueueSteps-not_ended (λ _. true) initial begun_queue refl (then_step here (runs refl))
