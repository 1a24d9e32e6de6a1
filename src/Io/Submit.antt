-- ===== src/Io/Submit.antt =====
-- The submission of the commands of a node in `ztl_io_write_ucmd` (xztl/src/ztl-io.c), with the
-- completions that may come between any two rounds: each zone has its commands in order and at most one
-- write in flight. The order of the steps is any; the code's is one of them.
pub mod Progress
pub mod Ends
use x_ztl.Common.{
  ℕ, zero, suc, ◌+◌, ◌%◌, ◌^◌, ◌<◌, ◌≡◌, Bool, true, false, List, [], ◌∷◌, some, get_elem?, set,
  length,
}
use x_ztl.Consts.{max_callback_err_cnt}

-- A zone: its commands from `zn_cmd_id_index` on, `minflight`, and the commands on the device, each with
-- its `callback_err_cnt`.
pub record Lane : Type 0 where
  pub waiting : List ℕ
  pub minflight : Bool
  pub running : List (ℕ × ℕ)

-- `submitted` and `ncb` count over all zones; `ncb` is a `uint16_t`.
pub record Submission : Type 0 where
  pub lanes : List Lane
  pub submitted : ℕ
  pub ncb : ℕ

-- `xztl_media_submit_io` takes the next command of the zone.
unfoldable pub submit_lane : Lane → ℕ → List ℕ → Lane
submit_lane l c cs = record { waiting = cs; minflight = true; running = (c, 0) ∷ l.running }

-- It fails: `minflight` stays.
unfoldable pub stall_lane : Lane → Lane
stall_lane l = record l { minflight = true }

-- The callback of a command that failed, and may be tried again: it is submitted once more, and
-- `minflight` and `ncb` stay.
unfoldable pub retry_lane : Lane → ℕ → ℕ → List (ℕ × ℕ) → Lane
retry_lane l c errors rest = record l { running = (c, errors + 1) ∷ rest }

-- The same, where that submission fails: the command is on the device no more.
unfoldable pub drop_lane : Lane → List (ℕ × ℕ) → Lane
drop_lane l rest = record l { running = rest }

-- The callback of a command that succeeded, or failed once too often.
unfoldable pub complete_lane : Lane → List (ℕ × ℕ) → Lane
complete_lane l rest = record l { minflight = false; running = rest }

-- A step; `may_fail` is whether a submission may fail.
pub data Step (may_fail : Bool) : Submission → Submission → Type 0 where
  submits :
      {s : Submission} {l : Lane} (i c : ℕ) (cs : List ℕ)
      → get_elem? s.lanes i ≡ some l
      → l.minflight ≡ false
      → l.waiting ≡ c ∷ cs
      → Step may_fail s
          (record s { lanes = set s.lanes i (submit_lane l c cs); submitted = s.submitted + 1 })
  stalls :
      {s : Submission} {l : Lane} (i c : ℕ) (cs : List ℕ)
      → may_fail ≡ true
      → get_elem? s.lanes i ≡ some l
      → l.minflight ≡ false
      → l.waiting ≡ c ∷ cs
      → Step may_fail s (record s { lanes = set s.lanes i (stall_lane l) })
  retries :
      {s : Submission} {l : Lane} (i c errors : ℕ) (rest : List (ℕ × ℕ))
      → get_elem? s.lanes i ≡ some l
      → l.running ≡ (c, errors) ∷ rest
      → errors + 1 < max_callback_err_cnt
      → Step may_fail s (record s { lanes = set s.lanes i (retry_lane l c errors rest) })
  drops :
      {s : Submission} {l : Lane} (i c errors : ℕ) (rest : List (ℕ × ℕ))
      → may_fail ≡ true
      → get_elem? s.lanes i ≡ some l
      → l.running ≡ (c, errors) ∷ rest
      → errors + 1 < max_callback_err_cnt
      → Step may_fail s (record s { lanes = set s.lanes i (drop_lane l rest) })
  completes :
      {s : Submission} {l : Lane} (i c errors : ℕ) (rest : List (ℕ × ℕ))
      → get_elem? s.lanes i ≡ some l
      → l.running ≡ (c, errors) ∷ rest
      → Step may_fail s
          (record s { lanes = set s.lanes i (complete_lane l rest); ncb = (s.ncb + 1) % 2 ^ 16 })

-- So many steps.
pub data Steps (may_fail : Bool) : ℕ → Submission → Submission → Type 0 where
  none_yet : {s : Submission} → Steps may_fail 0 s s
  more :
      {n : ℕ} {s t u : Submission}
      → Steps may_fail n s t
      → Step may_fail t u
      → Steps may_fail (n + 1) s u

-- The zones before the first submission.
unfoldable pub start_lanes : List (List ℕ) → List Lane
start_lanes [] = []
start_lanes (cs ∷ css) = record { waiting = cs; minflight = false; running = [] } ∷ start_lanes css

unfoldable pub start : List (List ℕ) → Submission
unfolding start_lanes
start css = record { lanes = start_lanes css; submitted = 0; ncb = 0 }

-- `num`: the commands of all zones.
unfoldable pub num_commands : List (List ℕ) → ℕ
num_commands [] = 0
num_commands (cs ∷ css) = length cs + num_commands css
