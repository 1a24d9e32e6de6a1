-- ===== src/Zrocks.antt =====
-- The interface of the library for a key-value store: xztl/zrocks/src/zrocks.c.
-- The group is the first of `groups`; the statistics, which no operation reads, are left out.
pub mod Maps
pub mod Trim
use x_ztl.Common.{
  ℕ, zero, suc, ◌+◌, ◌-◌, ◌*◌, ◌/◌, ◌%◌, ◌^◌, Bool, true, false, ◌==◌, ltb, leb, ◌&&◌, ◌||◌, not,
  if◌then◌else◌, List, [], ◌∷◌, ◌++◌, Option, none, some, ◌>>=◌, get_elem?, set, map,
}
use x_ztl.Common.Int.{ℤ, pos, negsuc}
use x_ztl.Consts.{
  zns_alignment, ztl_io_sec_mcmd, zrocks_level_num, ztl_pro_opt_sec_num_innode, xztl_ok,
  xztl_zrocks_read_err,
}
use x_ztl.Data.{Node, NodeGrp, Group, NodeStatus, node_full, node_reset, sub64, QueuePool}
use x_ztl.Addr.{ZrocksMap, zrocks_map_store}
use x_ztl.Io.Cmd.{Mcmd}
use x_ztl.Io.{io_nodeset}
use x_ztl.Io.Write.{Piece, Written, World, write_ucmd}
use x_ztl.Map.{MapState, upsert, map_read}
use x_ztl.Mgmt.{MgmtEntry, reset_zone, full_zone, submit_reset_finish, ZoneOp, clear_invalid_node}
use x_ztl.Addr.{Maddr}
use x_ztl.Pro.{node_at, put_node}

-- ZROCKS_READ_MAX_RETRY
abbrev pub zrocks_read_max_retry : ℕ
zrocks_read_max_retry = 3

-- `new_sz`: the size, rounded up to the pieces of a write.
abbrev pub piece_bytes : ℕ
piece_bytes = zns_alignment * ztl_io_sec_mcmd

unfoldable pub align_size : ℕ → ℕ
align_size size =
    let misalign = size % piece_bytes in
    if misalign == 0 then size else size + (piece_bytes - misalign)

-- The level, within those of the write queues.
pub clamp_level : ℤ → ℕ
clamp_level (negsuc n) = 0
clamp_level (pos n) = if leb zrocks_level_num n then zrocks_level_num - 1 else n

-- The loop that fills `maps`: the last piece has the padding.
unfoldable pub fill_maps : ℕ → List Piece → List ZrocksMap
fill_maps padding [] = []
fill_maps padding (p ∷ []) = zrocks_map_store p.node_id p.start p.num padding ∷ []
fill_maps padding (p ∷ q ∷ ps) =
    zrocks_map_store p.node_id p.start p.num 0 ∷ fill_maps padding (q ∷ ps)

-- The queues of the write threads, one for each level, with the group.
pub record Queues : Type 0 where
  pub grp : Group
  pub qp : List QueuePool

-- `zrocks_write`, with the write that the thread of the level's queue makes: the status and the maps.
pub zrocks_write :
    ℕ → ℕ → (List Mcmd → List ℕ) → ℕ → ℕ → ℤ → Queues → Option (ℕ × List ZrocksMap × Queues)
unfolding align_size clamp_level fill_maps
zrocks_write metadata_zone_num nbytes complete buf size level w = do
  let l = clamp_level level
  let new_sz = align_size size
  q ← get_elem? w.qp l
  (ret, world, u) ←
      write_ucmd metadata_zone_num nbytes l complete new_sz buf (record { grp = w.grp; queue = q })
  some (
    xztl_ok,
    fill_maps (new_sz - size) u.pieces,
    record { grp = world.grp; qp = set w.qp l world.queue },
  )

-- The retries of `zrocks_read`: `read_fn` takes the status of the command and gives its result and
-- the new status. `retry` counts the failures.
module _ {W : Type 0} (read_fn : W → ℕ → ℕ × ℕ × W) where
  pub read_tries : ℕ → ℕ → ℕ → W → Option (ℕ × W)
  read_tries zero retry status w = none
  read_tries (suc fuel) retry status w =
      let (ret, status', w') = read_fn w status in
      let retry' : ℕ = (if status' == 22 then 1 else retry + 1) in
      let again = read_tries fuel retry' status' w' in
      if ret == 0 && status' == 0
      then some (xztl_ok, w')
      else if ltb retry' zrocks_read_max_retry
      then again
      else some (xztl_zrocks_read_err, w')

  -- `zrocks_read` on fuel: the tries that are made before a try which is not busy (status 22).
  pub zrocks_read : ℕ → W → Option (ℕ × W)
  unfolding read_tries
  zrocks_read fuel w = read_tries fuel 0 0 w

-- `zrocks_new` does nothing; `zrocks_delete` stores 0; `zrocks_read_obj` only looks the id up.
abbrev pub zrocks_new : ℕ
zrocks_new = xztl_ok

pub zrocks_delete : MapState → ℕ → Option (ℕ × ℕ × MapState)
zrocks_delete s id = upsert s id 0 0 0

pub zrocks_read_obj : MapState → ℕ → Option (ℕ × MapState)
zrocks_read_obj s id = do (off, t) ← map_read s id; some (xztl_ok, t)

-- The pieces of a map are no longer valid.
abbrev pub invalidate : ℕ → Node → Node
invalidate num n = record n { nr_valid = sub64 n.nr_valid num }

-- `node->nr_valid == 0 && node->status == XZTL_ZMD_NODE_FULL`
unfoldable pub is_dead : ℕ → NodeStatus → Bool
is_dead nr_valid NodeStatus.node_full = nr_valid == 0
is_dead nr_valid _ = false

-- `zrocks_trim`: a full node without valid pieces is sent to be reset.
unfoldable pub zrocks_trim :
    Group → List MgmtEntry → ZrocksMap → Option (ℕ × Group × List MgmtEntry)
unfolding is_dead
zrocks_trim grp queue m = do
  node ← node_at grp.pro m.node_id
  let n = invalidate m.num node
  let (ret, queue') = submit_reset_finish queue m.node_id reset_zone
  if is_dead n.nr_valid n.status
      then some (
        ret,
        record grp { pro = put_node grp.pro m.node_id (record n { status = node_reset }) },
        queue',
      )
      else some (xztl_ok, record grp { pro = put_node grp.pro m.node_id n }, queue)

pub zrocks_node_set : List QueuePool → NodeGrp → ℕ → ℤ → ℕ → Option (List QueuePool × NodeGrp)
zrocks_node_set qp pro node_id level num = io_nodeset qp pro node_id level num

pub zrocks_node_finish : List MgmtEntry → ℕ → ℕ × List MgmtEntry
zrocks_node_finish queue node_id = submit_reset_finish queue node_id full_zone

pub zrocks_clear_invalid_nodes :
    {W : Type 0} → (W → ZoneOp → Maddr → ℕ × ℕ × W) → W → Group → Option (W × Group)
zrocks_clear_invalid_nodes zone_fn w grp = clear_invalid_node zone_fn w grp

pub zrocks_gc_get_nodes_num : Group → ℕ
zrocks_gc_get_nodes_num grp = grp.pro.nnodes

pub zrocks_gc_get_free_nodes_num : Group → ℕ
zrocks_gc_get_free_nodes_num grp = grp.pro.nfree

-- `node->level >= 1 && node->status == XZTL_ZMD_NODE_FULL`
pub is_sst : ℤ → NodeStatus → Bool
is_sst (pos (suc n)) NodeStatus.node_full = true
is_sst _ _ = false

-- The share of a node's pieces that are not valid, in per cent, on 64 bits and stored on 32.
pub percent_invalid : ℕ → ℕ
percent_invalid nr_valid = sub64 100 (100 * nr_valid % 2 ^ 64 / ztl_pro_opt_sec_num_innode) % 2 ^ 32

-- The loop of `zrocks_gc_get_full_nodes` over the full queue; `invalid_percent` has a place for each
-- node.
pub full_loop : NodeGrp → List ℕ → List ℕ → Option (List ℕ)
unfolding is_sst percent_invalid
full_loop pro invalid_percent [] = some invalid_percent
full_loop pro invalid_percent (id ∷ ids) = do
  n ← node_at pro id
  let next =
      (if is_sst n.level n.status
        then set invalid_percent n.id (percent_invalid n.nr_valid)
        else invalid_percent)
  full_loop pro next ids

pub zrocks_gc_get_full_nodes : Group → List ℕ → Option (List ℕ)
unfolding full_loop
zrocks_gc_get_full_nodes grp invalid_percent = full_loop grp.pro invalid_percent grp.pro.full_head
