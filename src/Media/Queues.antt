-- ===== src/Media/Queues.antt =====
-- What the layer takes of the machine: memory, locks, threads, and the queues of xnvme; and
-- `znd_media_cmd_exec` (xztl/src/ztl-media.c), through which queues are made, polled and ended.
use x_ztl.Common.{ℕ, ◌%◌, ◌^◌, ◌==◌, if◌then◌else◌, Option}
use x_ztl.Common.Int.{ℤ, pos, negsuc}
use x_ztl.Consts.{xztl_ok}
use x_ztl.Media.Commands.{znd_invalid_opcode}

-- enum xztl_media_opcodes, the other commands
abbrev pub xztl_misc_asynch_init : ℕ
xztl_misc_asynch_init = 0x1

abbrev pub xztl_misc_asynch_term : ℕ
xztl_misc_asynch_term = 0x2

abbrev pub xztl_misc_asynch_poke : ℕ
xztl_misc_asynch_poke = 0x3

abbrev pub xztl_misc_asynch_outs : ℕ
xztl_misc_asynch_outs = 0x4

abbrev pub xztl_misc_asynch_wait : ℕ
xztl_misc_asynch_wait = 0x5

abbrev pub znd_media_asynch_err : ℕ
znd_media_asynch_err = 0x6

abbrev pub znd_media_poke_err : ℕ
znd_media_poke_err = 0x9

abbrev pub znd_media_outs_err : ℕ
znd_media_outs_err = 0xa

abbrev pub znd_media_wait_err : ℕ
znd_media_wait_err = 0xb

-- The locks of the layer: of a thread's context, of the write queue of a level, and `rs_mutex`.
pub data Lock : Type 0 where
  qpair_spin : ℕ → Lock
  ucmd_spin : ℕ → Lock
  rs_mutex : Lock

-- The calls over the state of the machine. A pointer is a number, a null pointer `none`; an `int` that is
-- only tested for 0 is a number.
pub record Machine (W : Type 0) : Type 0 where
  pub malloc : W → Option ℕ × W
  pub free : W → ℕ → W
  pub dma_alloc : W → ℕ → Option ℕ × W
  pub dma_free : W → Option ℕ → W
  pub lock_init : W → Lock → ℕ × W
  pub lock_destroy : W → Lock → W
  pub queue_init : W → ℕ → ℕ × Option ℕ × W
  pub queue_term : W → Option ℕ → ℕ × W
  pub queue_poke : W → Option ℕ → ℕ → ℤ × W
  pub get_outstanding : W → Option ℕ → ℤ × W
  pub thread_create : W → ℕ → ℕ × W
  pub thread_join : W → ℕ → Option W

-- struct xztl_misc_cmd; `queue` is that of its `ctx_ptr`.
pub record MiscCmd : Type 0 where
  pub opcode : ℕ
  pub queue : Option ℕ
  pub depth : ℕ
  pub limit : ℕ
  pub count : ℕ

module _ {W : Type 0} (x : Machine W) where
  -- An `int` that is an error where it is below 0, and a count elsewhere.
  unfoldable pub count_or : ℕ → MiscCmd → ℤ × W → ℕ × MiscCmd × W
  count_or err cmd (pos n, w) = (xztl_ok, record cmd { count = n }, w)
  count_or err cmd (negsuc n, w) = (err, cmd, w)

  -- `znd_media_async_wait`, which only tells whether nothing is outstanding.
  unfoldable pub async_wait : MiscCmd → ℤ × W → ℕ × MiscCmd × W
  async_wait cmd (pos n, w) =
      if n == 0 then (xztl_ok, record cmd { count = 0 }, w) else (znd_media_wait_err, cmd, w)
  async_wait cmd (negsuc n, w) = (znd_media_wait_err, cmd, w)

  -- `znd_media_asynch_init` and `znd_media_asynch_term`
  unfoldable pub asynch_init : W → MiscCmd → ℕ × MiscCmd × W
  asynch_init w cmd =
      let (ret, queue, w1) = x.queue_init w cmd.depth in
      (if ret == 0 then xztl_ok else znd_media_asynch_err, record cmd { queue = queue }, w1)

  unfoldable pub asynch_term : W → MiscCmd → ℕ × MiscCmd × W
  asynch_term w cmd =
      let (ret, w1) = x.queue_term w cmd.queue in
      (if ret == 0 then xztl_ok else znd_media_asynch_err, cmd, w1)

  -- `znd_media_cmd_exec`; the limit of a poll is a `uint16_t`.
  unfoldable pub cmd_exec : W → MiscCmd → ℕ × MiscCmd × W
  unfolding asynch_init asynch_term count_or async_wait
  cmd_exec w cmd =
      if cmd.opcode == xztl_misc_asynch_init
      then asynch_init w cmd
      else if cmd.opcode == xztl_misc_asynch_term
      then asynch_term w cmd
      else if cmd.opcode == xztl_misc_asynch_poke
      then count_or znd_media_poke_err cmd (x.queue_poke w cmd.queue (cmd.limit % 2 ^ 16))
      else if cmd.opcode == xztl_misc_asynch_outs
      then count_or znd_media_outs_err cmd (x.get_outstanding w cmd.queue)
      else if cmd.opcode == xztl_misc_asynch_wait
      then async_wait cmd (x.get_outstanding w cmd.queue)
      else (znd_invalid_opcode, cmd, w)
