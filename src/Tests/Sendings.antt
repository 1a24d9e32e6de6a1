-- ===== src/Tests/Sendings.antt =====
-- The theorem on the sending of the commands of a read, on a device that refuses three times.
use x_ztl.Common.{
  ℕ, zero, suc, ◌*◌, ◌<◌, ◌≤◌, ◌≡◌, ◌≢◌, refl, Bool, false, [], ◌∷◌, none, some, arith,
}
use x_ztl.Io.Cmd.{Mcmd, cmd_read}
use x_ztl.Io.Reading.{Sending, read_submit}
use x_ztl.Io.Reading.Rounds.{Refuses, count}
use x_ztl.Io.Reading.Sent.{read_submit-sent}

-- The first so many calls are refused.
abbrev busy : ℕ → Mcmd → ℕ × ℕ
busy zero m = (0, 0)
busy (suc w) m = (5, w)

busy-takes : (w : ℕ) (m : Mcmd) → (busy w m).0 ≡ 0 → (busy w m).1 ≤ w
busy-takes zero m e = omega arith
busy-takes (suc w) m e = omega arith

busy-refuses : (w : ℕ) (m : Mcmd) → (busy w m).0 ≢ 0 → (busy w m).1 < w
busy-refuses zero m e = absurd (e refl)
busy-refuses (suc w) m e = omega arith

busy-Refuses : Refuses busy (λ w. w)
busy-Refuses = record { takes = busy-takes; refuses = busy-refuses }

abbrev read_at : ℕ → Mcmd
read_at i = record {
  opcode = cmd_read;
  synch = false;
  sequence = 0;
  sequence_zn = 0;
  buf_off = 32768 * i;
  cpsize = 32768;
  nsec = 8;
  addr = record { grp = 0; punit = 0; zone = 0; sect = 524288 * i };
  prp = i;
  paddr = 0;
  status = 0;
  callback_err_cnt = 0;
}

read_submit-sent_example :
    (u : Sending ℕ) × (read_submit busy (λ w. w) 5 (read_at 0 ∷ read_at 1 ∷ read_at 2 ∷ []) 3
      ≡ some (u, none))
    × (u.ret ≡ 0)
    × ((p : Mcmd → Bool) → count p u.sent ≡ count p (read_at 0 ∷ read_at 1 ∷ read_at 2 ∷ []))
read_submit-sent_example =
    read_submit-sent busy (λ w. w) (λ w. w) busy-Refuses 5 (read_at 0) (read_at 1) (read_at 2 ∷ [])
      3 (omega arith)
