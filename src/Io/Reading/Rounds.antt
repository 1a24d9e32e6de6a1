-- ===== src/Io/Reading/Rounds.antt =====
-- What a round of the loop that sends the commands of a read does to them.
use x_ztl.Common.{
  ℕ, ◌+◌, ◌≤◌, ◌<◌, ◌≡◌, ◌≢◌, refl, ◌⊎◌, inl, inr, Bool, true, false, ◌==◌, if◌then◌else◌, List, [],
  ◌∷◌, ◌++◌, Bool-cases, ==→eq, ==→ne, arith,
}
use x_ztl.Io.Cmd.{Mcmd}
use x_ztl.Io.Reading.{Slot, Sending, send, send_round}

-- How many commands fulfil a test, of a list and of those that are not submitted.
unfoldable pub count : (Mcmd → Bool) → List Mcmd → ℕ
count p [] = 0
count p (m ∷ ms) = (if p m then 1 else 0) + count p ms

unfoldable pub pending : (Mcmd → Bool) → List Slot → ℕ
pending p [] = 0
pending p (s ∷ ss) =
    let rest = pending p ss in if s.submitted then rest else (if p s.cmd then 1 else 0) + rest

abbrev pub unsent : Mcmd → Slot
unsent c = record { cmd = c; submitted = false }

abbrev pub any : Mcmd → Bool
any m = true

count-append :
    (p : Mcmd → Bool) (ms : List Mcmd) (m : Mcmd)
    → count p (ms ++ m ∷ []) ≡ count p ms + (if p m then 1 else 0)
unfolding count
count-append p [] m = omega arith
count-append p (n ∷ ms) m = let rest = count-append p ms m in omega (arith, rest)

-- The device refuses so many commands at most: `refusals` falls with each refusal, and never rises.
pub record Refuses {W : Type 0} (submit_io : W → Mcmd → ℕ × W) (refusals : W → ℕ) : Type 0 where
  pub takes : (w : W) (m : Mcmd) → (submit_io w m).0 ≡ 0 → refusals (submit_io w m).1 ≤ refusals w
  pub refuses : (w : W) (m : Mcmd) → (submit_io w m).0 ≢ 0 → refusals (submit_io w m).1 < refusals w

module _ {W : Type 0} (submit_io : W → Mcmd → ℕ × W) (drain : W → W) where
  -- A command was taken before, is taken, or is refused.
  send-cases :
      (s : Slot) (v : Sending W)
      → ((s.submitted ≡ true) × (send submit_io drain s v ≡ (s, v)))
        ⊎ (((s.submitted ≡ false)
              × ((submit_io v.machine s.cmd).0 ≡ 0)
              × (send submit_io drain s v ≡ (
                record s { submitted = true },
                record {
                  submitted = v.submitted + 1;
                  ret = (submit_io v.machine s.cmd).0;
                  sent = v.sent ++ s.cmd ∷ [];
                  machine = (submit_io v.machine s.cmd).1;
                },
              )))
            ⊎ ((s.submitted ≡ false)
                × ((submit_io v.machine s.cmd).0 ≢ 0)
                × (send submit_io drain s v ≡ (
                  s,
                  record v {
                    ret = (submit_io v.machine s.cmd).0;
                    machine = (submit_io v.machine s.cmd).1;
                  },
                ))))
  unfolding send
  send-cases s v = elim (Bool-cases s.submitted) [
    | inl before ↦ inl (before, simp (send, before) refl)
    | inr not_yet ↦ elim (Bool-cases ((submit_io v.machine s.cmd).0 == 0)) [
      | inl taken ↦ inr (inl (not_yet, ==→eq _ 0 taken, rw (send, not_yet, taken) refl))
      | inr refused ↦ inr (inr (not_yet, ==→ne _ 0 refused, simp (send, not_yet, refused) refl))
    ]
  ]

module _ {W : Type 0} (submit_io : W → Mcmd → ℕ × W) (drain : W → W) (refusals : W → ℕ)
    (refuses : Refuses submit_io refusals) where
  -- What a round makes of the slots: commands are sent or stay, and each that stays was refused.
  pub record IsRound (ss : List Slot) (v : Sending W) (ss' : List Slot) (v' : Sending W)
      : Type 0 where
    pub counts : (p : Mcmd → Bool) → count p v'.sent + pending p ss' ≡ count p v.sent + pending p ss
    pub total : v'.submitted + pending any ss' ≡ v.submitted + pending any ss
    pub bound : refusals v'.machine + pending any ss' ≤ refusals v.machine
    pub result : (v.ret ≡ 0) ⊎ (0 < pending any ss) → (v'.ret ≡ 0) ⊎ (0 < pending any ss')

  taken_first :
      (s : Slot) (ss ss' : List Slot) (v v' : Sending W)
      → s.submitted ≡ true
      → IsRound ss v ss' v'
      → IsRound (s ∷ ss) v (s ∷ ss') v'
  unfolding pending
  taken_first s ss ss' v v' before r = record {
    counts = λ p. rw before (r.counts p);
    total = rw before r.total;
    bound = rw before r.bound;
    result = rw before r.result;
  }

  now_taken :
      (s : Slot) (ss ss' : List Slot) (v v' : Sending W)
      → s.submitted ≡ false
      → (submit_io v.machine s.cmd).0 ≡ 0
      → IsRound ss
          (record {
            submitted = v.submitted + 1;
            ret = (submit_io v.machine s.cmd).0;
            sent = v.sent ++ s.cmd ∷ [];
            machine = (submit_io v.machine s.cmd).1;
          })
          ss'
          v'
      → IsRound (s ∷ ss) v (record s { submitted = true } ∷ ss') v'
  unfolding pending
  now_taken s ss ss' v v' not_yet ok r = record {
    counts = λ p.
        let rest = r.counts p in
        let put = count-append p v.sent s.cmd in rw not_yet (omega (arith, rest, put));
    total = let rest = r.total in rw not_yet (omega (arith, rest));
    bound =
        let rest = r.bound in
        let falls = refuses.takes v.machine s.cmd ok in omega (arith, rest, falls);
    result = λ h. r.result (inl ok);
  }

  refused_now :
      (s : Slot) (ss ss' : List Slot) (v v' : Sending W)
      → s.submitted ≡ false
      → (submit_io v.machine s.cmd).0 ≢ 0
      → IsRound ss
          (record v {
            ret = (submit_io v.machine s.cmd).0;
            machine = (submit_io v.machine s.cmd).1;
          })
          ss'
          v'
      → IsRound (s ∷ ss) v (s ∷ ss') v'
  unfolding pending
  refused_now s ss ss' v v' not_yet failed r = record {
    counts = λ p. let rest = r.counts p in rw not_yet (omega (arith, rest));
    total = let rest = r.total in rw not_yet (omega (arith, rest));
    bound =
        let rest = r.bound in
        let falls = refuses.refuses v.machine s.cmd failed in
        rw not_yet (omega (arith, rest, falls));
    result = λ h. inr (rw not_yet (omega arith));
  }

  pub send_round-IsRound :
      (ss : List Slot) (v : Sending W)
      → IsRound ss v (send_round submit_io drain ss v).0 (send_round submit_io drain ss v).1
  unfolding send_round pending
  send_round-IsRound [] v = record {
    counts = λ p. refl;
    total = refl;
    bound = omega arith;
    result = λ h. h;
  }
  send_round-IsRound (s ∷ ss) v = elim (send-cases submit_io drain s v) [
    | inl (before, is) ↦
        rw (send_round, is) (taken_first s ss _ v _ before (send_round-IsRound ss v))
    | inr (inl (not_yet, ok, is)) ↦
        rw (send_round, is) (now_taken s ss _ v _ not_yet ok (send_round-IsRound ss _))
    | inr (inr (not_yet, failed, is)) ↦
        rw (send_round, is) (refused_now s ss _ v _ not_yet failed (send_round-IsRound ss _))
  ]
