-- ===== src/Io/Submit/Ends.antt =====
-- Where no submission fails, every order of the steps comes to the end of the submission, and none
-- gets stuck before.
use x_ztl.Common.{
  ℕ, zero, suc, ◌+◌, ◌-◌, ◌*◌, ◌^◌, ◌≤◌, ◌<◌, ◌≡◌, refl, ap, ◌⊎◌, inl, inr, Bool, true, false, List,
  [], ◌∷◌, some, get_elem?, set, length, arith, Bool-cases, ltb, ltb→lt, ltb→le,
}
use x_ztl.Io.Submit.{
  Lane, Submission, submit_lane, retry_lane, complete_lane, Step, submits, stalls, retries, drops,
  completes, Steps, none_yet, more, start_lanes, start, num_commands,
}
use x_ztl.Io.Submit.Progress.{IsOrderly, AllOrderly-get, start-AllOrderly}

sum_lanes : (Lane → ℕ) → List Lane → ℕ
sum_lanes f [] = 0
sum_lanes f (l ∷ ls) = f l + sum_lanes f ls

sum_lanes-set :
    (f : Lane → ℕ) (ls : List Lane) (i : ℕ) (m : Lane) {l : Lane}
    → get_elem? ls i ≡ some l
    → sum_lanes f (set ls i m) + f l ≡ sum_lanes f ls + f m
unfolding sum_lanes
sum_lanes-set f [] i m e = absurd (cc)
sum_lanes-set f (k ∷ ls) zero m {l = l} e = let same : f k ≡ f l = ap f (cc) in omega (arith, same)
sum_lanes-set f (k ∷ ls) (suc i) m e = omega (arith, sum_lanes-set f ls i m e)

-- The steps that a zone has to make at most, its commands that are not completed, and those not submitted.
unfoldable tries : List (ℕ × ℕ) → ℕ
tries [] = 0
tries ((c, errors) ∷ rest) = (2 - errors) + 1 + tries rest

abbrev work : Lane → ℕ
work l = 4 * length l.waiting + tries l.running

abbrev open_commands : Lane → ℕ
open_commands l = length l.waiting + length l.running

abbrev waiting_commands : Lane → ℕ
waiting_commands l = length l.waiting

-- What a step leaves of the sums, as long as the commands fit `ncb`.
record Counts (s t : Submission) : Type 0 where
  works : sum_lanes work t.lanes + 1 ≤ sum_lanes work s.lanes
  opens :
      sum_lanes open_commands s.lanes + s.ncb < 2 ^ 16
      → sum_lanes open_commands t.lanes + t.ncb ≡ sum_lanes open_commands s.lanes + s.ncb
  waits :
      sum_lanes waiting_commands t.lanes + t.submitted
      ≡ sum_lanes waiting_commands s.lanes + s.submitted

sum_lanes-at :
    (f : Lane → ℕ) (ls : List Lane) (i : ℕ) {l : Lane}
    → get_elem? ls i ≡ some l
    → f l ≤ sum_lanes f ls
unfolding sum_lanes
sum_lanes-at f [] i e = absurd (cc)
sum_lanes-at f (k ∷ ls) zero {l = l} e = let same : f k ≡ f l = ap f (cc) in omega (arith, same)
sum_lanes-at f (k ∷ ls) (suc i) e = omega (arith, sum_lanes-at f ls i e)

Step-Counts : {s t : Submission} → Step false s t → Counts s t
unfolding submit_lane retry_lane complete_lane tries
Step-Counts {s = s} (submits {l = l} i c cs at free next) =
    let len : length l.waiting ≡ suc (length cs) = ap length next in
    let m = submit_lane l c cs in
    record {
      works = omega (arith, len, sum_lanes-set work s.lanes i m at);
      opens = λ _. omega (arith, len, sum_lanes-set open_commands s.lanes i m at);
      waits = omega (arith, len, sum_lanes-set waiting_commands s.lanes i m at);
    }
Step-Counts (stalls i c cs fails at free next) = absurd (cc (fails))
Step-Counts {s = s} (retries {l = l} i c errors rest at runs few) =
    let len : length l.running ≡ suc (length rest) = ap length runs in
    let tried : tries l.running ≡ (2 - errors) + 1 + tries rest = ap tries runs in
    let m = retry_lane l c errors rest in
    record {
      works = omega (arith, few, tried, sum_lanes-set work s.lanes i m at);
      opens = λ _. omega (arith, len, sum_lanes-set open_commands s.lanes i m at);
      waits = omega (arith, sum_lanes-set waiting_commands s.lanes i m at);
    }
Step-Counts (drops i c errors rest fails at runs few) = absurd (cc (fails))
Step-Counts {s = s} (completes {l = l} i c errors rest at runs) =
    let len : length l.running ≡ suc (length rest) = ap length runs in
    let tried : tries l.running ≡ (2 - errors) + 1 + tries rest = ap tries runs in
    let m = complete_lane l rest in
    let one = sum_lanes-at open_commands s.lanes i at in
    record {
      works = omega (arith, tried, sum_lanes-set work s.lanes i m at);
      opens = λ fits. omega (arith, fits, one, len, sum_lanes-set open_commands s.lanes i m at);
      waits = omega (arith, sum_lanes-set waiting_commands s.lanes i m at);
    }

-- A zone with something to do has a step.
lane_steps :
    (s : Submission) (i : ℕ) (l : Lane)
    → get_elem? s.lanes i ≡ some l
    → IsOrderly false l
    → 0 < work l
    → (t : Submission) × Step false s t
unfolding tries
lane_steps s i l at o h = by_lane l.waiting l.running l.minflight refl refl refl
  where
    by_lane :
        (ws : List ℕ) (rs : List (ℕ × ℕ)) (busy : Bool)
        → l.waiting ≡ ws
        → l.running ≡ rs
        → l.minflight ≡ busy
        → (t : Submission) × Step false s t
    by_lane ws ((c, errors) ∷ rest) busy ew er eb = (_, completes i c errors rest at er)
    by_lane (c ∷ cs) [] false ew er eb = (_, submits i c cs at eb ew)
    by_lane ws [] true ew er eb = absurd (omega (arith, o.busy refl eb, ap length er))
    by_lane [] [] false ew er eb = absurd (omega (arith, ap tries er, ap length ew, h))

busy_lane :
    (ls : List Lane)
    → 0 < sum_lanes work ls
    → (i : ℕ) × (l : Lane) × (get_elem? ls i ≡ some l) × (0 < work l)
unfolding sum_lanes
busy_lane [] h = absurd (omega arith)
busy_lane (l ∷ ls) h = elim (Bool-cases (ltb 0 (work l))) [
  | inl here ↦ (0, l, refl, ltb→lt _ _ here)
  | inr not_here ↦
      let (i, m, at, more_work) = busy_lane ls (omega (arith, h, ltb→le _ _ not_here)) in
      (suc i, m, at, more_work)
]

start_sums :
    (css : List (List ℕ))
    → (sum_lanes work (start_lanes css) ≡ 4 * num_commands css)
      × (sum_lanes open_commands (start_lanes css) ≡ num_commands css)
      × (sum_lanes waiting_commands (start_lanes css) ≡ num_commands css)
unfolding sum_lanes start_lanes num_commands tries
start_sums [] = (omega arith, omega arith, omega arith)
start_sums (cs ∷ css) =
    let (a, b, c) = start_sums css in (omega (arith, a), omega (arith, b), omega (arith, c))

Steps-sums :
    (n : ℕ) {s t : Submission}
    → Steps false n s t
    → sum_lanes open_commands s.lanes + s.ncb < 2 ^ 16
    → (n + sum_lanes work t.lanes ≤ sum_lanes work s.lanes)
      × (sum_lanes open_commands t.lanes + t.ncb ≡ sum_lanes open_commands s.lanes + s.ncb)
      × (sum_lanes waiting_commands t.lanes + t.submitted
          ≡ sum_lanes waiting_commands s.lanes + s.submitted)
Steps-sums n none_yet fits = (omega arith, refl, refl)
Steps-sums n (more {n = k} rest last) fits =
    let (a, b, c) = Steps-sums k rest fits in
    let d = Step-Counts last in
    (
      omega (arith, a, d.works),
      omega (arith, b, d.opens (omega (arith, b, fits))),
      omega (arith, c, d.waits),
    )

Steps-Counts :
    (css : List (List ℕ)) (n : ℕ) (s : Submission)
    → num_commands css < 2 ^ 16
    → Steps false n (start css) s
    → (n + sum_lanes work s.lanes ≤ 4 * num_commands css)
      × (sum_lanes open_commands s.lanes + s.ncb ≡ num_commands css)
      × (sum_lanes waiting_commands s.lanes + s.submitted ≡ num_commands css)
unfolding start
Steps-Counts css n s fits h =
    let (d, e, g) = start_sums css in
    let (a, b, c) = Steps-sums n h (omega (arith, e, fits)) in
    (omega (arith, a, d), omega (arith, b, e), omega (arith, c, g))

length-tries : (rs : List (ℕ × ℕ)) → length rs ≤ tries rs
unfolding tries
length-tries [] = omega arith
length-tries ((c, errors) ∷ rs) = let rest = length-tries rs in omega (arith, rest)

idle_sums :
    (ls : List Lane)
    → sum_lanes work ls ≡ 0
    → (sum_lanes open_commands ls ≡ 0) × (sum_lanes waiting_commands ls ≡ 0)
unfolding sum_lanes tries
idle_sums [] h = (refl, refl)
idle_sums (l ∷ ls) h =
    let (a, b) = idle_sums ls (omega (arith, h)) in
    let few = length-tries l.running in (omega (arith, a, h, few), omega (arith, b, h))

-- Where no submission fails, and fewer than 2^16 commands are submitted, any number of steps from the
-- start, in whatever order zones submit and commands fail, are tried again and complete, is at most four
-- times the number of commands. All commands are then submitted and completed, or there is a next step.
pub start-ends :
    (css : List (List ℕ)) (n : ℕ) (s : Submission)
    → num_commands css < 2 ^ 16
    → Steps false n (start css) s
    → ((n ≤ 4 * num_commands css) × (s.submitted ≡ num_commands css) × (s.ncb ≡ num_commands css))
      ⊎ ((n < 4 * num_commands css) × ((t : Submission) × Step false s t))
start-ends css n s fits h =
    let (a, b, c) = Steps-Counts css n s fits h in
    elim (Bool-cases (ltb 0 (sum_lanes work s.lanes))) [
      | inl busy ↦
          let (i, l, at, more_work) = busy_lane s.lanes (ltb→lt _ _ busy) in
          let orderly = AllOrderly-get false s.lanes i (start-AllOrderly false css n s h) at in
          inr (omega (arith, a, ltb→lt _ _ busy), lane_steps s i l at orderly more_work)
      | inr idle ↦
          let none_left : sum_lanes work s.lanes ≡ 0 = omega (arith, ltb→le _ _ idle) in
          let (d, e) = idle_sums s.lanes none_left in
          inl (omega (arith, a, none_left), omega (arith, c, e), omega (arith, b, d))
    ]
