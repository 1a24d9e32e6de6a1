-- ===== src/Io/Queue/Order.antt =====
-- The order in which the thread of a queue writes, and its end.
use x_ztl.Common.{
  ℕ, suc, ◌+◌, ◌*◌, ◌≡◌, ◌≢◌, ◌⊎◌, inl, inr, refl, ap, sym, ◌∙◌, Bool, true, false, Bool-cases,
  if◌then◌else◌, List, [], ◌∷◌, ◌++◌, length, arith,
}
use mathlib.Core.Path.{subst}
use mathlib.Core.List.{append_assoc, append-nil}
use x_ztl.Io.Queue.{
  Place, created, at_test, at_next, ended, writing, WriteQueue, step_at, thread_step, submit, stop,
  initial, QueueStep, runs, submits, stops, QueueSteps, here, then_step, run_thread,
}

-- The command in the thread's hand.
abbrev pub in_hand : Place → List ℕ
in_hand (writing c) = c ∷ []
in_hand created = []
in_hand at_test = []
in_hand at_next = []
in_hand ended = []

-- What was submitted is what was written, the command in hand and the queue, in this order.
abbrev pub IsFifo : WriteQueue → Type 0
IsFifo s = s.submitted ≡ s.written ++ (in_hand s.place ++ s.ucmds)

loop_hand : (b : Bool) → in_hand (if b then at_next else ended) ≡ []
loop_hand true = refl
loop_hand false = refl

abbrev is_ended : Place → Bool
is_ended ended = true
is_ended created = false
is_ended at_test = false
is_ended at_next = false
is_ended (writing c) = false

-- The thread has not begun, or it runs with its flag set.
abbrev Lives : WriteQueue → Type 0
Lives s = (s.place ≡ created) ⊎ ((s.flag_running ≡ true) × (is_ended s.place ≡ false))

module _ (returns : ℕ → Bool) where
  step_at-IsFifo :
      (p : Place) (cs : List ℕ) (s : WriteQueue)
      → s.place ≡ p
      → s.ucmds ≡ cs
      → IsFifo s
      → IsFifo (step_at returns p cs s)
  unfolding step_at
  step_at-IsFifo created cs s at queue h = rw at at h
  step_at-IsFifo at_test cs s at queue h = rw (loop_hand s.flag_running) (rw at at h)
  step_at-IsFifo at_next [] s at queue h = rw at at h
  step_at-IsFifo at_next (c ∷ cs) s at queue h = rw (at, queue) at h
  step_at-IsFifo (writing c) cs s at queue h = elim (Bool-cases (returns c)) [
    | inl y ↦ rw y (rw at at h ∙ sym (append_assoc s.written (c ∷ []) s.ucmds))
    | inr n ↦ rw n h
  ]
  step_at-IsFifo ended cs s at queue h = h

  QueueStep-IsFifo : (b : Bool) (s t : WriteQueue) → IsFifo s → QueueStep returns b s t → IsFifo t
  unfolding thread_step submit stop
  QueueStep-IsFifo b s t h (runs e) =
      subst IsFifo (sym e) (step_at-IsFifo s.place s.ucmds s refl refl h)
  QueueStep-IsFifo b s t h (submits c e) =
      let longer = ap (λ l. l ++ c ∷ []) h in
      subst IsFifo (sym e) (
        longer
        ∙ (append_assoc s.written (in_hand s.place ++ s.ucmds) (c ∷ [])
            ∙ ap (λ l. s.written ++ l) (append_assoc (in_hand s.place) s.ucmds (c ∷ []))))
  QueueStep-IsFifo b s t h (stops may e) = subst IsFifo (sym e) h

  -- Whatever the order of the steps, a queue's thread writes each command that was submitted once, in the
  -- order of the submissions: what was submitted is what was written, the command in its hand and the queue.
  pub QueueSteps-IsFifo : (b : Bool) (s : WriteQueue) → QueueSteps returns b initial s → IsFifo s
  QueueSteps-IsFifo b s here = refl
  QueueSteps-IsFifo b s (then_step {t = t} before last) =
      QueueStep-IsFifo b t s (QueueSteps-IsFifo b t before) last

  step_at-Lives :
      (p : Place) (cs : List ℕ) (s : WriteQueue)
      → s.place ≡ p
      → Lives s
      → Lives (step_at returns p cs s)
  unfolding step_at
  step_at-Lives created cs s at h = inr (refl, refl)
  step_at-Lives at_test cs s at (inl fresh) = absurd (cc (at, fresh))
  step_at-Lives at_test cs s at (inr (on, alive)) = inr (on, rw on refl)
  step_at-Lives at_next [] s at (inl fresh) = absurd (cc (at, fresh))
  step_at-Lives at_next [] s at (inr (on, alive)) = inr (on, refl)
  step_at-Lives at_next (c ∷ cs) s at (inl fresh) = absurd (cc (at, fresh))
  step_at-Lives at_next (c ∷ cs) s at (inr (on, alive)) = inr (on, refl)
  step_at-Lives (writing c) cs s at (inl fresh) = absurd (cc (at, fresh))
  step_at-Lives (writing c) cs s at (inr (on, alive)) = elim (Bool-cases (returns c)) [
    | inl y ↦ rw y (inr (on, refl))
    | inr n ↦ rw n (inr (on, alive))
  ]
  step_at-Lives ended cs s at h = h

  QueueSteps-Lives : (s t : WriteQueue) → Lives s → QueueSteps returns false s t → Lives t
  unfolding thread_step submit
  QueueSteps-Lives s t h here = h
  QueueSteps-Lives s u h (then_step {t = t} before (runs e)) =
      subst Lives (sym e) (step_at-Lives t.place t.ucmds t refl (QueueSteps-Lives s t h before))
  QueueSteps-Lives s u h (then_step {t = t} before (submits c e)) =
      subst Lives (sym e) (QueueSteps-Lives s t h before)
  QueueSteps-Lives s u h (then_step {t = t} before (stops may e)) = absurd (cc (may))

  Lives-not_ended : (s : WriteQueue) → Lives s → s.place ≢ ended
  Lives-not_ended s (inl fresh) e = absurd (cc (fresh, e))
  Lives-not_ended s (inr (on, alive)) e = absurd (cc (rw e at alive))

  -- Where a queue is stopped before its thread has begun, the thread sets the flag again, and does not
  -- end until it is stopped once more: whatever else happens, it is not past its loop.
  pub QueueSteps-not_ended :
      (s t : WriteQueue) → s.place ≡ created → QueueSteps returns false (stop s) t → t.place ≢ ended
  unfolding stop
  QueueSteps-not_ended s t at steps = Lives-not_ended t (QueueSteps-Lives (stop s) t (inl at) steps)

module _ (returns : ℕ → Bool) (all_return : (c : ℕ) → returns c ≡ true) where
  -- Two rounds of NEXT take a command and write it.
  write_first :
      (c : ℕ) (cs : List ℕ) (s : WriteQueue)
      → s.place ≡ at_next
      → s.ucmds ≡ c ∷ cs
      → thread_step returns (thread_step returns s)
        ≡ record s { place = at_next; ucmds = cs; written = s.written ++ c ∷ [] }
  unfolding thread_step step_at
  write_first c cs s at queue = rw (at, queue, all_return c) refl

  finish :
      (c : ℕ) (s : WriteQueue)
      → s.place ≡ writing c
      → thread_step returns s ≡ record s { place = at_next; written = s.written ++ c ∷ [] }
  unfolding thread_step step_at
  finish c s at = rw (at, all_return c) refl

  -- The empty queue of a stopped thread.
  leave :
      (s : WriteQueue)
      → s.place ≡ at_next
      → s.flag_running ≡ false
      → s.ucmds ≡ []
      → thread_step returns (thread_step returns s) ≡ record s { place = ended }
  unfolding thread_step step_at
  leave s at off queue = rw (at, queue, off) refl

  -- The thread at NEXT, of a queue that is stopped and to which nothing more is submitted.
  drain :
      (cs : List ℕ) (s : WriteQueue)
      → s.place ≡ at_next
      → s.flag_running ≡ false
      → s.ucmds ≡ cs
      → ((run_thread returns (2 * length cs + 2) s).place ≡ ended)
        × ((run_thread returns (2 * length cs + 2) s).written ≡ s.written ++ cs)
  unfolding run_thread
  drain [] s at off queue = rw (leave s at off queue) (refl, sym (append-nil s.written))
  drain (c ∷ cs) s at off queue =
      let n : 2 * suc (length cs) + 2 ≡ suc (suc (2 * length cs + 2)) = omega arith in
      let u : WriteQueue = record s {
        place = at_next;
        ucmds = cs;
        written = s.written ++ c ∷ [];
      } in
      let (over, all) = drain cs u refl off refl in
      rw (n, run_thread, write_first c cs s at queue)
        (over, all ∙ append_assoc s.written (c ∷ []) cs)

  -- Where every write returns, the thread of a queue that is stopped while it is at NEXT or writes, and to
  -- which nothing more is submitted, ends with every command written.
  pub run_thread-ended :
      (b : Bool) (s : WriteQueue)
      → QueueSteps returns b initial s
      → s.flag_running ≡ false
      → (s.place ≡ at_next) ⊎ ((c : ℕ) × (s.place ≡ writing c))
      → (n : ℕ) × ((run_thread returns n s).place ≡ ended)
        × ((run_thread returns n s).written ≡ s.submitted)
  unfolding run_thread
  run_thread-ended b s steps off (inl next) =
      let fifo = QueueSteps-IsFifo returns b s steps in
      let (over, all) = drain s.ucmds s next off refl in
      (2 * length s.ucmds + 2, over, all ∙ sym (rw next at fifo))
  run_thread-ended b s steps off (inr (c, busy)) =
      let u : WriteQueue = record s { place = at_next; written = s.written ++ c ∷ [] } in
      let step : thread_step returns s ≡ u = finish c s busy in
      let fifo = QueueSteps-IsFifo returns b s steps in
      let fifo' : s.submitted ≡ s.written ++ (c ∷ s.ucmds) = rw busy at fifo in
      let (over, all) = drain s.ucmds u refl off refl in
      (
        suc (2 * length s.ucmds + 2),
        rw (run_thread, step) over,
        rw (run_thread, step) (all ∙ (append_assoc s.written (c ∷ []) s.ucmds ∙ sym fifo')),
      )
