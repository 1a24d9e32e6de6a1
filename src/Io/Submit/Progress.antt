-- ===== src/Io/Submit/Progress.antt =====
-- One write at a time in each zone, and the end of the submission.
use x_ztl.Common.{
  ℕ, zero, suc, ◌≤◌, ◌≡◌, refl, ap, Bool, true, false, List, [], ◌∷◌, some, get_elem?, set, length,
  arith,
}
use mathlib.Core.Path.{subst}
use x_ztl.Io.Submit.{
  Lane, Submission, submit_lane, stall_lane, retry_lane, drop_lane, complete_lane, Step, submits,
  stalls, retries, drops, completes, Steps, none_yet, more, start_lanes, start,
}

-- A zone has one write in flight or none; none if `minflight` is 0, and one if it is 1 and no submission has failed.
pub record IsOrderly (may_fail : Bool) (l : Lane) : Type 0 where
  pub at_most_one : length l.running ≤ 1
  pub idle : l.minflight ≡ false → length l.running ≡ 0
  pub busy : may_fail ≡ false → l.minflight ≡ true → length l.running ≡ 1

abbrev pub AllOrderly : Bool → List Lane → Type 0
AllOrderly may_fail [] = Unit
AllOrderly may_fail (l ∷ ls) = IsOrderly may_fail l × AllOrderly may_fail ls

pub AllOrderly-get :
    (b : Bool) (ls : List Lane) (i : ℕ) {l : Lane}
    → AllOrderly b ls
    → get_elem? ls i ≡ some l
    → IsOrderly b l
AllOrderly-get b [] i h e = absurd (cc)
AllOrderly-get b (m ∷ ls) zero (h, hs) e = let same : m ≡ _ = cc in subst (IsOrderly b) same h
AllOrderly-get b (m ∷ ls) (suc i) (h, hs) e = AllOrderly-get b ls i hs e

AllOrderly-set :
    (b : Bool) (ls : List Lane) (i : ℕ) (l : Lane)
    → AllOrderly b ls
    → IsOrderly b l
    → AllOrderly b (set ls i l)
AllOrderly-set b [] i l h g = tt
AllOrderly-set b (m ∷ ls) zero l (h, hs) g = (g, hs)
AllOrderly-set b (m ∷ ls) (suc i) l (h, hs) g = (h, AllOrderly-set b ls i l hs g)

Step-AllOrderly :
    (b : Bool) {s t : Submission} → AllOrderly b s.lanes → Step b s t → AllOrderly b t.lanes
unfolding submit_lane stall_lane retry_lane drop_lane complete_lane
Step-AllOrderly b {s = s} h (submits {l = l} i c cs at free next) =
    let o = AllOrderly-get b s.lanes i h at in
    AllOrderly-set b s.lanes i (submit_lane l c cs) h (record {
      at_most_one = omega (arith, o.idle free);
      idle = λ e. absurd (cc (e));
      busy = λ _ _. omega (arith, o.idle free);
    })
Step-AllOrderly b {s = s} h (stalls {l = l} i c cs fails at free next) =
    let o = AllOrderly-get b s.lanes i h at in
    AllOrderly-set b s.lanes i (stall_lane l) h (record {
      at_most_one = o.at_most_one;
      idle = λ e. absurd (cc (e));
      busy = λ e _. absurd (cc (e, fails));
    })
Step-AllOrderly b {s = s} h (retries {l = l} i c errors rest at runs few) =
    let o = AllOrderly-get b s.lanes i h at in
    let len : length l.running ≡ suc (length rest) = ap length runs in
    AllOrderly-set b s.lanes i (retry_lane l c errors rest) h (record {
      at_most_one = omega (arith, len, o.at_most_one);
      idle = λ e. omega (arith, len, o.idle e);
      busy = λ e k. omega (arith, len, o.busy e k);
    })
Step-AllOrderly b {s = s} h (drops {l = l} i c errors rest fails at runs few) =
    let o = AllOrderly-get b s.lanes i h at in
    let len : length l.running ≡ suc (length rest) = ap length runs in
    AllOrderly-set b s.lanes i (drop_lane l rest) h (record {
      at_most_one = omega (arith, len, o.at_most_one);
      idle = λ e. omega (arith, len, o.at_most_one);
      busy = λ e _. absurd (cc (e, fails));
    })
Step-AllOrderly b {s = s} h (completes {l = l} i c errors rest at runs) =
    let o = AllOrderly-get b s.lanes i h at in
    let len : length l.running ≡ suc (length rest) = ap length runs in
    AllOrderly-set b s.lanes i (complete_lane l rest) h (record {
      at_most_one = omega (arith, len, o.at_most_one);
      idle = λ _. omega (arith, len, o.at_most_one);
      busy = λ _ e. absurd (cc (e));
    })

start_lanes-AllOrderly : (b : Bool) (css : List (List ℕ)) → AllOrderly b (start_lanes css)
unfolding start_lanes
start_lanes-AllOrderly b [] = tt
start_lanes-AllOrderly b (cs ∷ css) = (
  record { at_most_one = omega arith; idle = λ _. refl; busy = λ _ e. absurd (cc (e)) },
  start_lanes-AllOrderly b css,
)

Steps-AllOrderly :
    (b : Bool) (n : ℕ) {s t : Submission}
    → AllOrderly b s.lanes
    → Steps b n s t
    → AllOrderly b t.lanes
Steps-AllOrderly b n h none_yet = h
Steps-AllOrderly b n h (more rest last) = Step-AllOrderly b (Steps-AllOrderly b _ h rest) last

-- Whatever steps the submission has made, also where submissions failed, no zone has more than one
-- write in flight.
pub start-AllOrderly :
    (b : Bool) (css : List (List ℕ)) (n : ℕ) (s : Submission)
    → Steps b n (start css) s
    → AllOrderly b s.lanes
unfolding start
start-AllOrderly b css n s h = Steps-AllOrderly b n (start_lanes-AllOrderly b css) h
