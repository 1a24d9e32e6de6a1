-- ===== src/Media/Commands.antt =====
-- The commands of the media layer (xztl/src/ztl-media.c): `znd_media_submit_io`,
-- `znd_media_zone_mgmt` but for its counter of resets, and the completion callback. The calls of xnvme are
-- parameters. An outer `none` is the use of a null pointer.
use x_ztl.Common.{
  ℕ, ◌+◌, ◌-◌, ◌*◌, ◌%◌, ◌^◌, Bool, true, false, ltb, ◌==◌, if◌then◌else◌, Option, none, some,
  ◌>>=◌,
}
use x_ztl.Consts.{xztl_ok}
use x_ztl.Addr.{Maddr}
use x_ztl.Media.{mul32}

-- enum xztl_media_opcodes
abbrev pub xztl_cmd_write : ℕ
xztl_cmd_write = 0x01

abbrev pub xztl_cmd_read : ℕ
xztl_cmd_read = 0x02

abbrev pub xztl_zone_append : ℕ
xztl_zone_append = 0x7d

abbrev pub xztl_zone_mgmt_close : ℕ
xztl_zone_mgmt_close = 0x1

abbrev pub xztl_zone_mgmt_finish : ℕ
xztl_zone_mgmt_finish = 0x2

abbrev pub xztl_zone_mgmt_open : ℕ
xztl_zone_mgmt_open = 0x3

abbrev pub xztl_zone_mgmt_reset : ℕ
xztl_zone_mgmt_reset = 0x4

abbrev pub xztl_zone_mgmt_report : ℕ
xztl_zone_mgmt_report = 0xf

-- enum znd_media_error
abbrev pub znd_invalid_opcode : ℕ
znd_invalid_opcode = 0x3

abbrev pub znd_media_report_err : ℕ
znd_media_report_err = 0x4

-- struct xztl_io_mcmd, as far as the media reads and writes it; `async_ctx` is the queue of its thread.
pub record IoMcmd : Type 0 where
  pub opcode : ℕ
  pub synch : Bool
  pub status : ℕ
  pub nsec : ℕ
  pub addr : Maddr
  pub prp : ℕ
  pub paddr : ℕ
  pub async_ctx : ℕ
  pub media_ctx : Option ℕ

-- struct xztl_zn_mcmd; `opaque` is the report that it gets.
pub record ZnMcmd : Type 0 where
  pub opcode : ℕ
  pub status : ℕ
  pub addr : Maddr
  pub nzones : ℕ
  pub opaque : Option ℕ

-- `zndmedia.dev` and `zndmedia.dev_read`
pub data Device : Type 0 where
  dev dev_read : Device

-- The actions XNVME_SPEC_ZND_CMD_MGMT_SEND_…
pub data MgmtAction : Type 0 where
  send_close send_finish send_open send_reset : MgmtAction

-- xnvme over the state of the device and its queues: a command context is a number, `none` where a
-- context is null, or is that of a synchronous call.
pub record Xnvme (W : Type 0) : Type 0 where
  pub get_cmd_ctx : W → ℕ → Option ℕ × W
  pub put_cmd_ctx : W → ℕ → ℕ → W
  pub nvm_read : W → Option ℕ → Device → ℕ → ℕ → ℕ → ℕ × W
  pub nvm_write : W → Option ℕ → Device → ℕ → ℕ → ℕ → ℕ × W
  pub znd_append : W → Option ℕ → ℕ → ℕ → ℕ → ℕ × W
  pub znd_mgmt_send : W → ℕ → Bool → MgmtAction → ℕ × ℕ × W
  pub znd_report_from_dev : W → Option ℕ × W

-- `(uint16_t)cmd->nsec - 1`, as a number of blocks that counts from 0.
abbrev pub zero_based : ℕ → ℕ
zero_based nsec = (nsec % 2 ^ 16 + 2 ^ 16 - 1) % 2 ^ 16

-- The zones before an address, times `nsect`: by `nzone` in zone management, and by `geo.zn_grp` in an append.
abbrev pub zone_lba : ℕ → ℕ → Maddr → ℕ
zone_lba per_grp nsect a = (mul32 per_grp a.grp + a.zone) % 2 ^ 32 * nsect

-- The `uint32_t lba` of `znd_media_zone_manage`, and the `uint64_t zlba` of an append.
unfoldable pub manage_lba : ℕ → ℕ → Maddr → ℕ
manage_lba nzone nsect a = zone_lba nzone nsect a % 2 ^ 32

unfoldable pub append_lba : ℕ → ℕ → Maddr → ℕ
append_lba zn_grp nsect a = zone_lba zn_grp nsect a % 2 ^ 64

module _ {W : Type 0} (x : Xnvme W) (has_dev_read : Bool) where
  -- `(zndmedia.dev_read) ? zndmedia.dev_read : zndmedia.dev`
  unfoldable pub read_device : Device
  read_device = if has_dev_read then dev_read else dev

  -- The three asynchronous submissions: `call` is that of xnvme, and `puts` whether a failed one gives
  -- its context back.
  unfoldable pub submit_asynch :
      Bool → (W → Option ℕ → ℕ × W) → W → IoMcmd → Option (ℕ × IoMcmd × W)
  submit_asynch puts call w cmd = do
    let (got, w1) = x.get_cmd_ctx w cmd.async_ctx
    ctx ← got
    let cmd' = record cmd { media_ctx = some ctx }
    let (ret, w2) = call w1 (some ctx)
    let back = (if puts then x.put_cmd_ctx w2 cmd.async_ctx ctx else w2)
    some (ret, cmd', if ret == 0 then w2 else back)

  unfoldable pub submit_read_synch : W → IoMcmd → Option (ℕ × IoMcmd × W)
  unfolding read_device
  submit_read_synch w cmd =
      let (ret, w1) = x.nvm_read w none read_device cmd.addr.sect (zero_based cmd.nsec) cmd.prp in
      some (ret, cmd, w1)

  unfoldable pub submit_read_asynch : W → IoMcmd → Option (ℕ × IoMcmd × W)
  unfolding submit_asynch read_device
  submit_read_asynch w cmd =
      submit_asynch true
        (λ u c. x.nvm_read u c read_device cmd.addr.sect (zero_based cmd.nsec) cmd.prp) w cmd

  unfoldable pub submit_write_asynch : W → IoMcmd → Option (ℕ × IoMcmd × W)
  unfolding submit_asynch
  submit_write_asynch w cmd =
      submit_asynch true (λ u c. x.nvm_write u c dev cmd.addr.sect (zero_based cmd.nsec) cmd.prp) w
        cmd

  -- The append is sent where XZTL_WRITE_APPEND is 0, as it is.
  unfoldable pub submit_append_asynch : ℕ → ℕ → W → IoMcmd → Option (ℕ × IoMcmd × W)
  unfolding submit_asynch
  submit_append_asynch zn_grp nsect w cmd =
      submit_asynch false
        (λ u c. x.znd_append u c (append_lba zn_grp nsect cmd.addr) (zero_based cmd.nsec) cmd.prp) w
        cmd

  -- `znd_media_submit_io`; appends and writes cannot be synchronous.
  unfoldable pub submit_io : ℕ → ℕ → W → IoMcmd → Option (ℕ × IoMcmd × W)
  unfolding submit_read_synch submit_read_asynch submit_write_asynch submit_append_asynch
  submit_io zn_grp nsect w cmd =
      let refused : Option (ℕ × IoMcmd × W) = some (znd_invalid_opcode, cmd, w) in
      if cmd.opcode == xztl_zone_append
      then (if cmd.synch then refused else submit_append_asynch zn_grp nsect w cmd)
      else if cmd.opcode == xztl_cmd_read
      then (if cmd.synch then submit_read_synch w cmd else submit_read_asynch w cmd)
      else if cmd.opcode == xztl_cmd_write
      then (if cmd.synch then refused else submit_write_asynch w cmd)
      else refused

  -- `znd_media_async_cb` of a command whose completion has this status and this result in the eight bytes from cdw0, with the
  -- command's own callback, which may submit it again.
  unfoldable pub async_cb :
      ℕ → ℕ → (W → IoMcmd → Option (IoMcmd × W)) → W → IoMcmd → Option (IoMcmd × W)
  async_cb cpl_status cdw0 callback w cmd = do
    let status = cpl_status % 2 ^ 16
    let appended =
        (if status == 0
          then (if cmd.opcode == xztl_zone_append then cdw0 else cmd.paddr)
          else cmd.paddr)
    let paddr = (if cmd.opcode == xztl_cmd_write then cmd.addr.sect else appended)
    (cmd', w1) ← callback w (record cmd { status = status; paddr = paddr })
    ctx ← cmd'.media_ctx
    some (cmd', x.put_cmd_ctx w1 cmd'.async_ctx ctx)

  -- `znd_media_zone_manage`
  unfoldable pub zone_manage : ℕ → ℕ → MgmtAction → W → ZnMcmd → ℕ × ZnMcmd × W
  zone_manage nzone nsect op w cmd =
      let lba = manage_lba nzone nsect cmd.addr in
      let (ret, cpl_status, w1) = x.znd_mgmt_send w lba (ltb 1 cmd.nzones) op in
      (ret, record cmd { status = if ret == 0 then xztl_ok else cpl_status % 2 ^ 8 }, w1)

  unfoldable pub zone_report : W → ZnMcmd → ℕ × ZnMcmd × W
  zone_report w cmd =
      let (rep, w1) = x.znd_report_from_dev w in
      elim rep [
        | none ↦ (znd_media_report_err, cmd, w1)
        | some r ↦ (xztl_ok, record cmd { opaque = some r }, w1)
      ]

  -- `znd_media_zone_mgmt`
  unfoldable pub zone_mgmt : ℕ → ℕ → W → ZnMcmd → ℕ × ZnMcmd × W
  unfolding zone_manage zone_report
  zone_mgmt nzone nsect w cmd =
      if cmd.opcode == xztl_zone_mgmt_close
      then zone_manage nzone nsect send_close w cmd
      else if cmd.opcode == xztl_zone_mgmt_finish
      then zone_manage nzone nsect send_finish w cmd
      else if cmd.opcode == xztl_zone_mgmt_open
      then zone_manage nzone nsect send_open w cmd
      else if cmd.opcode == xztl_zone_mgmt_reset
      then zone_manage nzone nsect send_reset w cmd
      else if cmd.opcode == xztl_zone_mgmt_report
      then zone_report w cmd
      else (znd_invalid_opcode, cmd, w)
