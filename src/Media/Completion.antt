-- ===== src/Media/Completion.antt =====
-- The completion callback and the context that it gives back.
use x_ztl.Common.{ℕ, ◌%◌, ◌^◌, ◌≡◌, refl, Bool, false, Option, some, ◌>>=◌, eq→==}
use x_ztl.Media.Commands.{
  IoMcmd, Xnvme, submit_asynch, submit_io, async_cb, submit_write_asynch, xztl_cmd_write,
  zero_based, dev,
}

module _ {W : Type 0} (x : Xnvme W) (has_dev_read : Bool) where
  submit_io-write :
      (zn_grp nsect : ℕ) (w u v : W) (cmd : IoMcmd) (c : ℕ)
      → cmd.opcode ≡ xztl_cmd_write
      → cmd.synch ≡ false
      → x.get_cmd_ctx w cmd.async_ctx ≡ (some c, u)
      → x.nvm_write u (some c) dev cmd.addr.sect (zero_based cmd.nsec) cmd.prp ≡ (0, v)
      → submit_io x has_dev_read zn_grp nsect w cmd ≡ some (0, record cmd { media_ctx = some c }, v)
  unfolding submit_io submit_write_asynch submit_asynch
  submit_io-write zn_grp nsect w u v cmd c write queued got accepted =
      rw (submit_io, write, queued, submit_write_asynch, submit_asynch, got, accepted) refl

  -- The callback of a command that failed: it submits the command again.
  abbrev pub resubmit : ℕ → ℕ → W → IoMcmd → Option (IoMcmd × W)
  resubmit zn_grp nsect w cmd =
      submit_io x has_dev_read zn_grp nsect w cmd >>= λ (r : ℕ × IoMcmd × W). some (r.1, r.2)

  -- Where the callback of a write submits it again, with success, the context that the completion gives
  -- back is the new one, of the write under way, and not that of the write that is done.
  pub async_cb-resubmit :
      (zn_grp nsect status cdw0 : ℕ) (w u v : W) (cmd : IoMcmd) (c : ℕ)
      → cmd.opcode ≡ xztl_cmd_write
      → cmd.synch ≡ false
      → x.get_cmd_ctx w cmd.async_ctx ≡ (some c, u)
      → x.nvm_write u (some c) dev cmd.addr.sect (zero_based cmd.nsec) cmd.prp ≡ (0, v)
      → (done : IoMcmd) × (async_cb x has_dev_read status cdw0 (resubmit zn_grp nsect) w cmd
          ≡ some (done, x.put_cmd_ctx v cmd.async_ctx c))
        × (done.media_ctx ≡ some c)
  unfolding async_cb
  async_cb-resubmit zn_grp nsect status cdw0 w u v cmd c write queued got accepted =
      let status' : ℕ = status % 2 ^ 16 in
      let paddr' : ℕ = cmd.addr.sect in
      let again : IoMcmd = record cmd { status = status'; paddr = paddr' } in
      let run = submit_io-write zn_grp nsect w u v again c write queued got accepted in
      let is_write = eq→== cmd.opcode xztl_cmd_write write in
      (record again { media_ctx = some c }, rw (async_cb, is_write, run) refl, refl)
