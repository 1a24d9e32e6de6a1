-- ===== src/Io/Reading/Sent.antt =====
-- The commands of a read are all taken by the device, each one once.
use x_ztl.Common.{
  ℕ, zero, suc, ◌+◌, ◌≤◌, ◌<◌, ◌≡◌, refl, ◌∙◌, ◌⊎◌, inl, inr, Bool, ◌==◌, ltb, List, [], ◌∷◌, map,
  none, some, length, Bool-cases, ==→eq, ==→ne, ltb→lt, ltb→le, arith,
}
use x_ztl.Io.Cmd.{Mcmd}
use x_ztl.Io.Reading.{Slot, Sending, send_round, send_all, read_submit}
use x_ztl.Io.Reading.Rounds.{count, pending, any, unsent, Refuses, send_round-IsRound}

pending_le : (p : Mcmd → Bool) (ss : List Slot) → pending p ss ≤ pending any ss
unfolding pending
pending_le p [] = omega arith
pending_le p (s ∷ ss) =
    let rest = pending_le p ss in
    elim (Bool-cases s.submitted) [
      | inl before ↦ rw before rest
      | inr not_yet ↦ elim (Bool-cases (p s.cmd)) [
        | inl fits ↦ rw (not_yet, fits) (omega (arith, rest))
        | inr fails ↦ rw (not_yet, fails) (omega (arith, rest))
      ]
    ]

pending-count : (p : Mcmd → Bool) (ms : List Mcmd) → 0 + pending p (map unsent ms) ≡ count p ms
unfolding pending count
pending-count p [] = refl
pending-count p (m ∷ ms) = let rest = pending-count p ms in omega (arith, rest)

pending-length : (ms : List Mcmd) → 0 + pending any (map unsent ms) ≡ length ms
unfolding pending
pending-length [] = refl
pending-length (m ∷ ms) = let rest = pending-length ms in omega (arith, rest)

no_more : (ret n : ℕ) → n ≡ 0 → (ret ≡ 0) ⊎ (0 < n) → ret ≡ 0
no_more ret n h (inl ok) = ok
no_more ret n h (inr more) = absurd (omega (arith, h, more))

enough_left : (r fuel n : ℕ) → 0 < n → r + 1 < suc fuel ⊎ ((n ≡ 0) × (0 < suc fuel)) → r + 1 ≤ fuel
enough_left r fuel n h (inl few) = omega (arith, few)
enough_left r fuel n h (inr (done, few)) = absurd (omega (arith, h, done))

module _ {W : Type 0} (submit_io : W → Mcmd → ℕ × W) (drain : W → W) (refusals : W → ℕ)
    (refuses : Refuses submit_io refusals) where
  -- The loop ends with every command taken, once, and the result of the last call is 0.
  send_all-sent :
      (fuel total_cmd : ℕ) (ss : List Slot) (v : Sending W)
      → v.submitted + pending any ss ≡ total_cmd
      → refusals v.machine + 1 < fuel ⊎ ((pending any ss ≡ 0) × (0 < fuel))
      → (v.ret ≡ 0) ⊎ (0 < pending any ss)
      → (u : Sending W) × (send_all submit_io drain fuel total_cmd ss v ≡ some u)
        × (u.ret ≡ 0)
        × ((p : Mcmd → Bool) → count p u.sent ≡ count p v.sent + pending p ss)
  unfolding send_all
  send_all-sent zero total_cmd ss v h f r = elim f [
    | inl few ↦ absurd (omega (arith, few))
    | inr (done, few) ↦ absurd (omega (arith, few))
  ]
  send_all-sent (suc fuel) total_cmd ss v h f r = elim (Bool-cases (ltb v.submitted total_cmd)) [
    | inr ended ↦
        let le = ltb→le v.submitted total_cmd ended in
        let none_left : pending any ss ≡ 0 = omega (arith, le, h) in
        (
          v,
          rw ended refl,
          no_more v.ret (pending any ss) none_left r,
          λ p. let few = pending_le p ss in omega (arith, few, none_left),
        )
    | inl goes_on ↦
        let lt = ltb→lt v.submitted total_cmd goes_on in
        let some_left : 0 < pending any ss = omega (arith, lt, h) in
        let round = send_round-IsRound submit_io drain refusals refuses ss v in
        let ss1 = (send_round submit_io drain ss v).0 in
        let v1 = (send_round submit_io drain ss v).1 in
        let enough = enough_left (refusals v.machine) fuel (pending any ss) some_left f in
        let bound = round.bound in
        let fuel' : refusals v1.machine + 1 < fuel ⊎ ((pending any ss1 ≡ 0) × (0 < fuel)) =
          elim (Bool-cases (pending any ss1 == 0)) [
            | inl done ↦ inr (==→eq _ 0 done, omega (arith, enough))
            | inr left ↦ let ne = ==→ne _ 0 left in inl (omega (arith, enough, bound, ne))
          ] in
        let (u, is, ret, counts) =
          send_all-sent fuel total_cmd ss1 v1 (round.total ∙ h) fuel' (round.result r) in
        (u, rw goes_on is, ret, λ p. counts p ∙ round.counts p)
  ]

  -- Where a read has two commands or more, and the device refuses only so many, the read ends with
  -- every command taken once, in some order, and with the result 0.
  pub read_submit-sent :
      (fuel : ℕ) (m n : Mcmd) (ms : List Mcmd) (w : W)
      → refusals w + 1 < fuel
      → (u : Sending W) × (read_submit submit_io drain fuel (m ∷ n ∷ ms) w ≡ some (u, none))
        × (u.ret ≡ 0)
        × ((p : Mcmd → Bool) → count p u.sent ≡ count p (m ∷ n ∷ ms))
  unfolding read_submit count
  read_submit-sent fuel m n ms w h =
      let cs = m ∷ n ∷ ms in
      let slots = map unsent cs in
      let first : Sending W = record { submitted = 0; ret = 0; sent = []; machine = w } in
      let (u, is, ret, counts) =
        send_all-sent fuel (length cs) slots first (pending-length cs) (inl h) (inl refl) in
      (record u { machine = drain u.machine }, rw is refl, ret, λ p. counts p ∙ pending-count p cs)
