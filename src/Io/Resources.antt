-- ===== src/Io/Resources.antt =====
-- What the I/O module prepares at its start (xztl/src/ztl-io.c): the resources of the write queues and of the
-- reads, `ztl_io_init` and `ztl_io_exit`. The group that the start writes into `prov` is left out, and
-- aligned_alloc counts as malloc. What a write thread does is in Io/Queue.
pub mod Balance
pub mod Cycle
use x_ztl.Common.{
  ℕ, zero, suc, ◌+◌, ◌*◌, Bool, false, ◌==◌, if◌then◌else◌, List, [], ◌∷◌, Option, none, some,
  ◌>>=◌,
}
use x_ztl.Consts.{xztl_ok, xztl_ztl_io_err, ztl_io_rc_num, ztl_io_sec_mcmd, zns_alignment}
use x_ztl.Media.Queues.{Machine, ucmd_spin, rs_mutex}
use x_ztl.Ctx.{MthreadCtx, ctx_media_init, ctx_media_exit}

-- struct ztl_queue_pool, what is allocated for it, and its node.
pub record QueueRes : Type 0 where
  pub tctx : Option MthreadCtx
  pub mcmd : List (Option ℕ)
  pub prov : Option ℕ
  pub node : Option ℕ

-- struct ztl_read_rs
pub record ReadRes : Type 0 where
  pub tctx : Option MthreadCtx
  pub mcmd : List (Option ℕ)
  pub prp : List (Option ℕ)
  pub usedflag : Bool

-- `qp`, `read_resource`, and the machine.
pub record IoRes (W : Type 0) : Type 0 where
  pub qp : List QueueRes
  pub read_resource : List ReadRes
  pub machine : W

-- `io_depth` and `read_ctx_num` of `zndmedia`, and `sizeof(struct app_pro_addr)`.
module _ {W : Type 0} (x : Machine W) (io_depth read_ctx_num prov_bytes : ℕ) where
  -- The loops over the media commands of a queue, whose memory may be null.
  unfoldable pub alloc_mcmds : ℕ → W → List (Option ℕ) × W
  alloc_mcmds zero w = ([], w)
  alloc_mcmds (suc n) w =
      let (m, w1) = x.malloc w in let (ms, w2) = alloc_mcmds n w1 in (m ∷ ms, w2)

  unfoldable pub free_some : W → Option ℕ → W
  free_some w none = w
  free_some w (some h) = x.free w h

  unfoldable pub free_mcmds : List (Option ℕ) → W → W
  unfolding free_some
  free_mcmds [] w = w
  free_mcmds (m ∷ ms) w = free_mcmds ms (free_some w m)

  -- `_ztl_io_write_rs_init`, with what the queue has before.
  unfoldable pub write_rs_init : QueueRes → W → ℕ × QueueRes × W
  unfolding alloc_mcmds
  write_rs_init q w =
      let (ms, w1) = alloc_mcmds ztl_io_rc_num w in
      let (prov, w2) = x.dma_alloc w1 prov_bytes in
      let (tctx, w3) = ctx_media_init x w2 io_depth in
      elim prov [
        | none ↦ (xztl_ztl_io_err, record q { mcmd = ms; prov = none }, w2)
        | some p ↦ elim tctx [
          | none ↦ (xztl_ztl_io_err, record q { mcmd = ms; prov = some p; tctx = none }, w3)
          | some c ↦ (xztl_ok, record { mcmd = ms; prov = some p; tctx = some c; node = none }, w3)
        ]
      ]

  -- `_ztl_io_write_rs_exit`
  unfoldable pub write_rs_exit : QueueRes → W → W
  unfolding free_mcmds
  write_rs_exit q w = free_mcmds q.mcmd (x.dma_free (ctx_media_exit x w q.tctx).1 q.prov)

  -- `_ztl_io_w_queue_init` from its lock on.
  unfoldable pub w_queue_thread : ℕ → QueueRes → W → ℕ × QueueRes × W
  unfolding write_rs_exit
  w_queue_thread level q w =
      let (no_spin, w1) = x.lock_init w (ucmd_spin level) in
      let (no_thread, w2) = x.thread_create w1 level in
      if no_spin == 0
      then (if no_thread == 0
          then (xztl_ok, q, w2)
          else (xztl_ztl_io_err, q, write_rs_exit q (x.lock_destroy w2 (ucmd_spin level))))
      else (xztl_ztl_io_err, q, write_rs_exit q w1)

  unfoldable pub w_queue_init : ℕ → QueueRes → W → ℕ × QueueRes × W
  unfolding write_rs_init w_queue_thread
  w_queue_init level q w =
      let (failed, q1, w1) = write_rs_init q w in
      if failed == 0 then w_queue_thread level q1 w1 else (xztl_ztl_io_err, q1, w1)

  -- `_ztl_io_w_queue_exit`; it waits for the thread of the queue, which may not end.
  unfoldable pub w_queue_exit : ℕ → QueueRes → W → Option W
  unfolding write_rs_exit
  w_queue_exit level q w = do
    w1 ← x.thread_join w level
    some (write_rs_exit q (x.lock_destroy w1 (ucmd_spin level)))

  -- The loop of a read resource: a command, and a buffer of eight sectors.
  unfoldable pub alloc_reads : ℕ → W → List (Option ℕ) × List (Option ℕ) × W
  alloc_reads zero w = ([], [], w)
  alloc_reads (suc n) w =
      let (m, w1) = x.malloc w in
      let (p, w2) = x.dma_alloc w1 (zns_alignment * ztl_io_sec_mcmd) in
      let (ms, ps, w3) = alloc_reads n w2 in (m ∷ ms, p ∷ ps, w3)

  unfoldable pub free_reads : List (Option ℕ) → List (Option ℕ) → W → W
  unfolding free_some
  free_reads (m ∷ ms) (p ∷ ps) w = free_reads ms ps (x.dma_free (free_some w m) p)
  free_reads _ _ w = w

  -- `_ztl_io_read_rs_init` and `_ztl_io_read_rs_exit`
  unfoldable pub read_rs_init : ReadRes → W → ℕ × ReadRes × W
  unfolding alloc_reads
  read_rs_init r w =
      let (ms, ps, w1) = alloc_reads ztl_io_rc_num w in
      let (tctx, w2) = ctx_media_init x w1 io_depth in
      elim tctx [
        | none ↦ (xztl_ztl_io_err, record r { mcmd = ms; prp = ps; tctx = none }, w2)
        | some c ↦ (xztl_ok, record { mcmd = ms; prp = ps; tctx = some c; usedflag = false }, w2)
      ]

  unfoldable pub read_rs_exit : ReadRes → W → W
  unfolding free_reads
  read_rs_exit r w = free_reads r.mcmd r.prp (ctx_media_exit x w r.tctx).1

  -- The loop over the levels, from `level` on; it stops at the first failure.
  unfoldable pub init_levels : ℕ → List QueueRes → W → ℕ × List QueueRes × W
  unfolding w_queue_init
  init_levels level [] w = (xztl_ok, [], w)
  init_levels level (q ∷ qs) w =
      let (ret, q1, w1) = w_queue_init level q w in
      let (rets, qs1, w2) = init_levels (level + 1) qs w1 in
      if ret == 0 then (rets, q1 ∷ qs1, w2) else (xztl_ztl_io_err, q1 ∷ qs, w1)

  unfoldable pub exit_levels : ℕ → List QueueRes → W → Option W
  unfolding w_queue_exit
  exit_levels level [] w = some w
  exit_levels level (q ∷ qs) w = do w1 ← w_queue_exit level q w; exit_levels (level + 1) qs w1

  -- The loop over so many read resources; past the array it is undefined.
  unfoldable pub init_reads : ℕ → List ReadRes → W → Option (ℕ × List ReadRes × W)
  unfolding read_rs_init
  init_reads zero rs w = some (xztl_ok, rs, w)
  init_reads (suc n) [] w = none
  init_reads (suc n) (r ∷ rs) w =
      let (ret, r1, w1) = read_rs_init r w in
      let rest = init_reads n rs w1 in
      if ret == 0
      then (do (rets, rs1, w2) ← rest; some (rets, r1 ∷ rs1, w2))
      else some (xztl_ztl_io_err, r1 ∷ rs, w1)

  unfoldable pub exit_reads : ℕ → List ReadRes → W → Option W
  unfolding read_rs_exit
  exit_reads zero rs w = some w
  exit_reads (suc n) [] w = none
  exit_reads (suc n) (r ∷ rs) w = exit_reads n rs (read_rs_exit r w)

  -- `ztl_io_init`
  unfoldable pub io_init : IoRes W → Option (ℕ × IoRes W)
  unfolding init_levels init_reads
  io_init s =
      let (ret, qs, w1) = init_levels 0 s.qp s.machine in
      let reads = init_reads read_ctx_num s.read_resource w1 in
      if ret == 0
      then (do
        (rets, rs, w2) ← reads
        let (no_mutex, w3) = x.lock_init w2 rs_mutex
        let stopped : ℕ × IoRes W =
            (xztl_ztl_io_err, record { qp = qs; read_resource = rs; machine = w2 })
        let locked : ℕ × IoRes W = (
          if no_mutex == 0 then xztl_ok else xztl_ztl_io_err,
          record { qp = qs; read_resource = rs; machine = w3 },
        )
        some (if rets == 0 then locked else stopped))
      else some (xztl_ztl_io_err, record s { qp = qs; machine = w1 })

  -- `ztl_io_exit`
  unfoldable pub io_exit : IoRes W → Option W
  unfolding exit_levels exit_reads
  io_exit s = do
    w ← exit_levels 0 s.qp s.machine
    exit_reads read_ctx_num s.read_resource (x.lock_destroy w rs_mutex)
