-- ===== src/Io/Reading.antt =====
-- The second half of `ztl_io_read_ucmd` (xztl/src/ztl-io.c): its media commands are sent until the
-- device has taken each one, and `ztl_io_read` around it. The device is a parameter; the callback of a
-- completion is in Io.
pub mod Rounds
pub mod Sent
use x_ztl.Common.{
  ℕ, zero, suc, ◌+◌, Bool, true, false, ◌==◌, ltb, if◌then◌else◌, List, [], ◌∷◌, ◌++◌, map, Option,
  none, some, ◌>>=◌, length,
}
use x_ztl.Consts.{xztl_ztl_io_err}
use x_ztl.Io.{Copy, get_read_rs, put_read_rs}
use x_ztl.Io.Cmd.{Mcmd}

-- A command with its `submitted`.
pub record Slot : Type 0 where
  pub cmd : Mcmd
  pub submitted : Bool

-- `submitted` and `ret` of the loop, with the commands that the device has taken.
pub record Sending (W : Type 0) : Type 0 where
  pub submitted : ℕ
  pub ret : ℕ
  pub sent : List Mcmd
  pub machine : W

module _ {W : Type 0} (submit_io : W → Mcmd → ℕ × W) (drain : W → W) where
  -- The body of the inner loop.
  unfoldable pub send : Slot → Sending W → Slot × Sending W
  send s v = elim s.submitted [
    | true ↦ (s, v)
    | false ↦
        let (ret, w) = submit_io v.machine s.cmd in
        if ret == 0
        then (
          record s { submitted = true },
          record {
            submitted = v.submitted + 1;
            ret = ret;
            sent = v.sent ++ s.cmd ∷ [];
            machine = w;
          },
        )
        else (s, record v { ret = ret; machine = w })
  ]

  unfoldable pub send_round : List Slot → Sending W → List Slot × Sending W
  unfolding send
  send_round [] v = ([], v)
  send_round (s ∷ ss) v =
      let (s1, v1) = send s v in let (ss1, v2) = send_round ss v1 in (s1 ∷ ss1, v2)

  -- `while (submitted < total_cmd)`
  unfoldable pub send_all : ℕ → ℕ → List Slot → Sending W → Option (Sending W)
  unfolding send_round
  send_all zero total_cmd ss v = none
  send_all (suc fuel) total_cmd ss v =
      let (ss1, v1) = send_round ss v in
      let rest = send_all fuel total_cmd ss1 v1 in
      if ltb v.submitted total_cmd then rest else some v

  -- A single command is synchronous, and copied whatever its result.
  unfoldable pub read_submit : ℕ → List Mcmd → W → Option (Sending W × Option Copy)
  unfolding send_all
  read_submit fuel [] w =
      some (record { submitted = 0; ret = 0; sent = []; machine = drain w }, none)
  read_submit fuel (m ∷ []) w =
      let m' = record m { synch = true } in
      let (ret, w1) = submit_io w m' in
      some (
        record { submitted = 0; ret = ret; sent = if ret == 0 then m' ∷ [] else []; machine = w1 },
        some (record { to_off = 0; from_prp = m.prp; from_off = m.sequence; size = m.cpsize }),
      )
  read_submit fuel (m ∷ n ∷ ms) w = do
    let slots = map (λ c. record { cmd = c; submitted = false }) (m ∷ n ∷ ms)
    v ←
        send_all fuel (length (m ∷ n ∷ ms)) slots
          (record { submitted = 0; ret = 0; sent = []; machine = w })
    some (record v { machine = drain v.machine }, none)

-- `ztl_io_read`: `read_ucmd` is run with the read resource of the number that it is given.
unfoldable pub io_read :
    {W : Type 0} → (ℕ → W → Option (ℕ × W)) → List Bool → W → Option (ℕ × List Bool × W)
io_read read_ucmd rs w = elim (get_read_rs rs) [
  | none ↦ some (xztl_ztl_io_err, rs, w)
  | some (id, rs') ↦ do (ret, w1) ← read_ucmd id w; some (ret, put_read_rs id rs', w1)
]
