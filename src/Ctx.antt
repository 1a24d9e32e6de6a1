-- ===== src/Ctx.antt =====
-- The contexts of threads (xztl/src/xztl-ctx.c): `xztl_ctx_media_init` and `xztl_ctx_media_exit`.
pub mod Balance
use x_ztl.Common.{ℕ, ◌==◌, if◌then◌else◌, Option, none, some}
use x_ztl.Consts.{xztl_ok, xztl_mp_asynch_err}
use x_ztl.Media.Queues.{
  Machine, MiscCmd, qpair_spin, xztl_misc_asynch_init, xztl_misc_asynch_term, cmd_exec,
}

-- struct xztl_mthread_ctx: its own memory, and its queue, which is not null.
pub record MthreadCtx : Type 0 where
  pub mem : ℕ
  pub queue : ℕ

-- The command on a queue.
abbrev pub misc : ℕ → ℕ → Option ℕ → MiscCmd
misc opcode depth queue = record {
  opcode = opcode;
  queue = queue;
  depth = depth;
  limit = 0;
  count = 0;
}

module _ {W : Type 0} (x : Machine W) where
  -- From the queue on: without one the lock and the memory are given back.
  unfoldable pub ctx_queue : ℕ → ℕ × MiscCmd × W → Option MthreadCtx × W
  ctx_queue mem (ret, cmd, w) =
      let gone : Option MthreadCtx × W = (none, x.free (x.lock_destroy w (qpair_spin mem)) mem) in
      if ret == 0
      then (elim cmd.queue [
        | none ↦ gone
        | some queue ↦ (some (record { mem = mem; queue = queue }), w)
      ])
      else gone

  -- `xztl_ctx_media_init`
  unfoldable pub ctx_media_init : W → ℕ → Option MthreadCtx × W
  unfolding ctx_queue cmd_exec
  ctx_media_init w depth =
      let (tctx, w1) = x.malloc w in
      elim tctx [
        | none ↦ (none, w1)
        | some mem ↦
            let (failed, w2) = x.lock_init w1 (qpair_spin mem) in
            if failed == 0
            then ctx_queue mem (cmd_exec x w2 (misc xztl_misc_asynch_init depth none))
            else (none, x.free w2 mem)
      ]

  -- `xztl_ctx_media_exit`; a context whose queue cannot be ended stays.
  unfoldable pub ctx_media_exit : W → Option MthreadCtx → ℕ × W
  unfolding cmd_exec
  ctx_media_exit w none = (xztl_ok, w)
  ctx_media_exit w (some tctx) =
      let (ret, cmd, w1) = cmd_exec x w (misc xztl_misc_asynch_term 0 (some tctx.queue)) in
      if ret == 0
      then (xztl_ok, x.free (x.lock_destroy w1 (qpair_spin tctx.mem)) tctx.mem)
      else (xztl_mp_asynch_err, w1)
