-- ===== src/Mgmt.antt =====
-- Management commands (xztl/src/ztl-mgmt-cmd.c): resetting and finishing the zones of a node, and
-- the queue of such requests that one thread serves.
-- The zone command of the media, `core.media->zone_fn`, is a parameter: from the state of the
-- device, the command and its zone it gives the result, the status and the next state.
pub mod Nodes
pub mod Zones
use x_ztl.Common.{
  ℕ, zero, suc, ◌+◌, ◌-◌, ◌*◌, ◌/◌, ◌%◌, ◌^◌, Bool, true, false, ◌==◌, ltb, not, ◌||◌, ◌&&◌,
  if◌then◌else◌, List, [], ◌∷◌, ◌++◌, Option, none, some, ◌>>=◌, get_elem?, set, tailq_remove,
}
use x_ztl.Common.Int.{ℤ, pos, negsuc}
use x_ztl.Consts.{ztl_pro_zone_num_innode, ztl_pro_opt_sec_num_innode, xztl_ok}
use x_ztl.Data.{
  Zone, ZmdEntry, Node, NodeGrp, Group, NodeStatus, node_free, node_used, node_full, node_reset,
  add32, add64,
}
use x_ztl.Addr.{Maddr}
use x_ztl.Pro.{node_at, put_node, zone_of}

-- The zone management commands that the source sends.
pub data ZoneOp : Type 0 where
  mgmt_close mgmt_finish mgmt_open mgmt_reset mgmt_report : ZoneOp

-- enum ztl_pro_mgmt_opcode
pub data MgmtOpcode : Type 0 where
  full_zone reset_zone : MgmtOpcode

-- MGMT_MAX_RETRY
abbrev pub mgmt_max_retry : ℕ
mgmt_max_retry = 3

-- A request of the queue, `xnvme_node_mgmt_entry`; `node` is the node's id.
pub record MgmtEntry : Type 0 where
  pub node : ℕ
  pub op_code : MgmtOpcode

module _ {W : Type 0} (zone_fn : W → ZoneOp → Maddr → ℕ × ℕ × W) where
  -- `ztl_mgmt_node_reset_zn`: both write pointers go back to the zone's first sector, unless the
  -- media refused.
  unfoldable pub node_reset_zn : W → Zone → List ZmdEntry → Option (ℕ × W × List ZmdEntry)
  node_reset_zn w zone tbl = do
    e ← zone.zmd_entry
    let (ret, status, w') = zone_fn w mgmt_reset zone.addr
    if ret == 0 && status == 0
        then (do
          zmde ← get_elem? tbl e
          let sect = zone.addr.sect
          some (ret, w', set tbl e (record zmde { wptr = sect; wptr_inflight = sect })))
        else some (ret, w', tbl)

  -- The loop of `ztl_mgmt_node_reset` over the zones `i` to `i + left` of the node.
  unfoldable pub reset_loop :
      (ℕ → Option Zone) → ℕ → ℕ → W → List ZmdEntry → Option (ℕ × W × List ZmdEntry)
  unfolding node_reset_zn
  reset_loop zone zero i w tbl = some (xztl_ok, w, tbl)
  reset_loop zone (suc left) i w tbl = do
    z ← zone i
    (ret, w', tbl') ← node_reset_zn w z tbl
    let rest = reset_loop zone left (i + 1) w' tbl'
    if ret == 0 then rest else some (ret, w', tbl')

-- A node's fields when its zones are empty.
pub reset_fields : Node → Node
reset_fields n = record n {
  status = node_free;
  optimal_write_sec_left = ztl_pro_opt_sec_num_innode;
  optimal_write_sec_used = 0;
  nr_valid = 0;
  level = negsuc 0;
}

-- The node goes from the full to the free queue.
pub to_free : ℕ → NodeGrp → Option NodeGrp
to_free id pro = do
  full ← tailq_remove id pro.full_head
  some (record pro {
    full_head = full;
    free_head = pro.free_head ++ id ∷ [];
    nfree = add32 pro.nfree 1;
  })

-- What follows the loop of `ztl_mgmt_node_reset`: a zone has failed, or the node is free.
unfoldable pub end_reset : ℕ → ℕ → Node → NodeGrp → Option NodeGrp
unfolding reset_fields to_free
end_reset ret id n pro =
    if ret == 0
    then to_free id (put_node pro id (reset_fields n))
    else some (put_node pro id (record n { nr_reset_err = add32 n.nr_reset_err 1 }))

-- `node->status != XZTL_ZMD_NODE_FREE`
abbrev pub is_not_free : NodeStatus → Bool
is_not_free NodeStatus.node_free = false
is_not_free _ = true

-- `ztl_mgmt_clear_invalid_node` does not look at the result.
abbrev drop_ret : {W : Type 0} → Option (ℕ × W × Group) → Option (W × Group)
drop_ret none = none
drop_ret (some (ret, w, grp)) = some (w, grp)

module _ {W : Type 0} (zone_fn : W → ZoneOp → Maddr → ℕ × ℕ × W) where
  -- `ztl_mgmt_node_reset` of the node `id`.
  unfoldable pub mgmt_node_reset : W → Group → ℕ → Option (ℕ × W × Group)
  unfolding reset_loop end_reset
  mgmt_node_reset w grp id = do
    n ← node_at grp.pro id
    (ret, w', tbl) ← reset_loop zone_fn (zone_of grp.pro n) ztl_pro_zone_num_innode 0 w grp.tbl
    pro ← end_reset ret id n grp.pro
    some (ret, w', record grp { tbl = tbl; pro = pro })

  -- The loop of `ztl_mgmt_clear_invalid_node`: every node that holds no valid piece and is not free.
  pub clear_loop : ℕ → ℕ → W → Group → Option (W × Group)
  unfolding mgmt_node_reset
  clear_loop zero id w grp = some (w, grp)
  clear_loop (suc left) id w grp = do
    n ← node_at grp.pro id
    let invalid = n.nr_valid == 0 && is_not_free n.status
    (w', grp') ← (if invalid then drop_ret (mgmt_node_reset w grp id) else some (w, grp))
    clear_loop left (id + 1) w' grp'

  pub clear_invalid_node : W → Group → Option (W × Group)
  unfolding clear_loop
  clear_invalid_node w grp = clear_loop grp.pro.nnodes 0 w grp

  -- The loop of `ztl_mgmt_node_finish`: the write pointer goes to the zone's end. A result of 0 with
  -- a status that is not 0 ends the loop too, and is returned as it is.
  pub finish_loop :
      (ℕ → Option Zone) → ℕ → ℕ → W → List ZmdEntry → Option (Bool × ℕ × W × List ZmdEntry)
  finish_loop zone zero i w tbl = some (true, xztl_ok, w, tbl)
  finish_loop zone (suc left) i w tbl = do
    z ← zone i
    let (ret, status, w') = zone_fn w mgmt_finish z.addr
    e ← z.zmd_entry
    zmde ← get_elem? tbl e
    let tbl' = set tbl e (record zmde { wptr = add64 z.addr.sect z.capacity })
    let rest = finish_loop zone left (i + 1) w' tbl'
    if ret == 0 && status == 0 then rest else some (false, ret, w', tbl)

  -- `ztl_mgmt_node_finish`
  pub mgmt_node_finish : W → Group → ℕ → Option (ℕ × W × Group)
  unfolding finish_loop
  mgmt_node_finish w grp id = do
    n ← node_at grp.pro id
    (all, ret, w', tbl) ← finish_loop (zone_of grp.pro n) ztl_pro_zone_num_innode 0 w grp.tbl
    let failed : Node = record n { nr_finish_err = add32 n.nr_finish_err 1 }
    let pro : NodeGrp = (if all then grp.pro else put_node grp.pro id failed)
    some (ret, w', record grp { tbl = tbl; pro = pro })

  -- The request that the thread has taken, tried until it succeeds or `MGMT_MAX_RETRY` tries are
  -- made; `tries` are those left.
  pub mgmt_try : ℕ → W → Group → MgmtEntry → Option (ℕ × W × Group)
  unfolding mgmt_node_finish mgmt_node_reset
  mgmt_try zero w grp et = some (xztl_ok, w, grp)
  mgmt_try (suc tries) w grp et = do
    (ret, w', grp') ← elim et.op_code [
      | full_zone ↦ mgmt_node_finish w grp et.node
      | reset_zone ↦ mgmt_node_reset w grp et.node
    ]
    let again = mgmt_try tries w' grp' et
    elim tries [
      | zero ↦ some (ret, w', grp')
      | suc _ ↦ if ret == 0 then some (ret, w', grp') else again
    ]

  -- `ztl_mgmt_thd_process` serving every request that stands in the queue, first to last.
  pub thd_process : W → Group → List MgmtEntry → Option (W × Group)
  unfolding mgmt_try
  thd_process w grp [] = some (w, grp)
  thd_process w grp (et ∷ ets) = do
    (ret, w', grp') ← mgmt_try mgmt_max_retry w grp et
    thd_process w' grp' ets

-- `ztl_mgmt_submit_reset_finish`, with an entry at hand in the memory pool.
unfoldable pub submit_reset_finish : List MgmtEntry → ℕ → MgmtOpcode → ℕ × List MgmtEntry
submit_reset_finish submit_head id op_code =
    (xztl_ok, submit_head ++ record { node = id; op_code = op_code } ∷ [])
