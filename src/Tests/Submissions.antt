-- ===== src/Tests/Submissions.antt =====
-- The theorems on the submission, at three commands of two zones.
use x_ztl.Common.{ℕ, ◌*◌, ◌≤◌, arith, ◌<◌, ◌≡◌, refl, ◌⊎◌, true, false, List, [], ◌∷◌}
use x_ztl.Io.Submit.{
  Submission, Step, submits, stalls, Steps, none_yet, more, submit_lane, stall_lane, start_lanes,
  start, num_commands,
}
use x_ztl.Io.Submit.Progress.{AllOrderly, start-AllOrderly}
use x_ztl.Io.Submit.Ends.{start-ends}

abbrev three : List (List ℕ)
three = (0 ∷ 2 ∷ []) ∷ (1 ∷ []) ∷ []

-- The second zone's submission fails after the first zone's.
abbrev stalled : Submission
stalled = record {
  lanes =
      (record { waiting = 2 ∷ []; minflight = true; running = (0, 0) ∷ [] })
      ∷ (record { waiting = 1 ∷ []; minflight = true; running = [] })
      ∷ [];
  submitted = 1;
  ncb = 0;
}

stalled-Steps : Steps true 2 (start three) stalled
unfolding start start_lanes submit_lane stall_lane
stalled-Steps =
    more (more none_yet (submits 0 0 (2 ∷ []) refl refl refl)) (stalls 1 1 [] refl refl refl refl)

start-AllOrderly_example : AllOrderly true stalled.lanes
start-AllOrderly_example = start-AllOrderly true three 2 stalled stalled-Steps

-- Both zones have a command on the device.
abbrev both : Submission
both = record {
  lanes =
      (record { waiting = 2 ∷ []; minflight = true; running = (0, 0) ∷ [] })
      ∷ (record { waiting = []; minflight = true; running = (1, 0) ∷ [] })
      ∷ [];
  submitted = 2;
  ncb = 0;
}

both-Steps : Steps false 2 (start three) both
unfolding start start_lanes submit_lane
both-Steps =
    more (more none_yet (submits 0 0 (2 ∷ []) refl refl refl)) (submits 1 1 [] refl refl refl)

start-ends_example :
    ((2 ≤ 4 * 3) × (◌≡◌ {A = ℕ} 2 3) × (◌≡◌ {A = ℕ} 0 3))
    ⊎ ((2 < 4 * 3) × ((t : Submission) × Step false both t))
unfolding num_commands
start-ends_example = start-ends three 2 both (omega arith) both-Steps
