-- ===== src/Io/Queue.antt =====
-- The write queue of a level and its thread (xztl/src/ztl-io.c): `ztl_io_submit`, `ztl_io_write_th`, and the
-- stop in `_ztl_io_w_queue_exit`. A user command is a number; what its write does is in Io/Write, and whether
-- `ztl_io_write_ucmd` returns for it is a parameter: it waits for callbacks that may not come. Other
-- threads may submit or stop between any two steps of the thread.
pub mod Order
use x_ztl.Common.{ℕ, zero, suc, ◌≡◌, Bool, true, false, if◌then◌else◌, List, [], ◌∷◌, ◌++◌}

-- Where the thread stands: before its first statement, at the test of the loop, at NEXT, in the write
-- of a command, or past the loop.
pub data Place : Type 0 where
  created at_test at_next ended : Place
  writing : ℕ → Place

-- `ucmd_head` and `flag_running`, with the commands that were submitted and those that were written.
pub record WriteQueue : Type 0 where
  pub place : Place
  pub flag_running : Bool
  pub ucmds : List ℕ
  pub submitted : List ℕ
  pub written : List ℕ

-- A step of `ztl_io_write_th`. The thread stays in a write that does not return.
unfoldable pub step_at : (ℕ → Bool) → Place → List ℕ → WriteQueue → WriteQueue
step_at returns created cs s = record s { place = at_test; flag_running = true }
step_at returns at_test cs s = record s { place = if s.flag_running then at_next else ended }
step_at returns at_next [] s = record s { place = at_test }
step_at returns at_next (c ∷ cs) s = record s { place = writing c; ucmds = cs }
step_at returns (writing c) cs s =
    if returns c then (record s { place = at_next; written = s.written ++ c ∷ [] }) else s
step_at returns ended cs s = s

unfoldable pub thread_step : (ℕ → Bool) → WriteQueue → WriteQueue
unfolding step_at
thread_step returns s = step_at returns s.place s.ucmds s

-- `ztl_io_submit`
unfoldable pub submit : ℕ → WriteQueue → WriteQueue
submit c s = record s { ucmds = s.ucmds ++ c ∷ []; submitted = s.submitted ++ c ∷ [] }

-- `q->flag_running = 0`
unfoldable pub stop : WriteQueue → WriteQueue
stop s = record s { flag_running = false }

-- After `_ztl_io_w_queue_init`.
abbrev pub initial : WriteQueue
initial = record { place = created; flag_running = false; ucmds = []; submitted = []; written = [] }

-- A step of any thread; `may_stop` is whether the queue may be stopped.
pub data QueueStep (returns : ℕ → Bool) (may_stop : Bool) (s t : WriteQueue) : Type 0 where
  runs : t ≡ thread_step returns s → QueueStep returns may_stop s t
  submits : (c : ℕ) → t ≡ submit c s → QueueStep returns may_stop s t
  stops : may_stop ≡ true → t ≡ stop s → QueueStep returns may_stop s t

pub data QueueSteps (returns : ℕ → Bool) (may_stop : Bool) (s : WriteQueue)
    : WriteQueue → Type 0 where
  here : QueueSteps returns may_stop s s
  then_step :
      {t u : WriteQueue}
      → QueueSteps returns may_stop s t
      → QueueStep returns may_stop t u
      → QueueSteps returns may_stop s u

-- Steps of the thread alone.
unfoldable pub run_thread : (ℕ → Bool) → ℕ → WriteQueue → WriteQueue
unfolding thread_step
run_thread returns zero s = s
run_thread returns (suc n) s = run_thread returns n (thread_step returns s)
