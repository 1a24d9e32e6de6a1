-- ===== src/Pro/Init.antt =====
-- `ztl_pro_grp_node_init` and `_ztl_pro_grp_new_pro` (xztl/src/ztl-pro-grp.c): zones are gathered
-- into nodes, and each node is put on the queue of its state.
use x_ztl.Common.{
  ℕ, zero, suc, ◌+◌, ◌-◌, ◌*◌, ◌/◌, Bool, true, false, ◌==◌, ltb, not, ◌||◌, ◌&&◌, if◌then◌else◌,
  List, [], ◌∷◌, ◌++◌, Option, none, some, ◌>>=◌, get_elem?, set, replicate,
}
use x_ztl.Common.Int.{pos, negsuc}
use x_ztl.Consts.{ztl_pro_zone_num_innode, ztl_io_sec_mcmd, ztl_pro_opt_sec_num_innode}
use x_ztl.Data.{
  Descr, ZoneState, zone_empty, Zone, ZmdEntry, Node, NodeGrp, Group, NodeStatus, node_free,
  node_used, node_full, add32, sub64, has_flag, xztl_zmd_rsvd, xztl_zmd_avlb, xztl_zmd_used,
  xztl_zmd_open,
}

-- What `calloc` leaves in a node and in a zone.
abbrev pub blank_node : Node
blank_node = record {
  id = 0;
  vzones = [];
  optimal_write_sec_left = 0;
  optimal_write_sec_used = 0;
  nr_finish_err = 0;
  nr_reset_err = 0;
  nr_valid = 0;
  status = node_free;
  level = pos 0;
}

abbrev pub blank_zone : Zone
blank_zone = record {
  addr = record { grp = 0; punit = 0; zone = 0; sect = 0 };
  zmd_entry = none;
  capacity = 0;
  state = zone_empty;
}

-- `_ztl_pro_grp_new_pro`, where every allocation succeeds.
pub new_pro : ℕ → ℕ → NodeGrp
new_pro node_num entries = record {
  vnodes = replicate node_num blank_node;
  vzones = replicate entries blank_zone;
  nfree = 0;
  nzones = entries;
  nnodes = node_num;
  free_head = [];
  used_head = [];
  full_head = [];
}

-- The variables of the loop.
pub record Scan : Type 0 where
  pub pro : NodeGrp
  pub tbl : List ZmdEntry
  pub node_i : ℕ
  pub zone_num_in_node : ℕ
  pub full_count : ℕ
  pub sec_num : ℕ

-- The node's fields, by what its zones hold.
pub close_fields : ℕ → ℕ → ℕ → Node → Node
close_fields node_i full_count sec_num n =
    let n' = record n { id = node_i; nr_valid = 0; level = negsuc 0 } in
    if full_count == ztl_pro_zone_num_innode
    then record n' {
      status = node_full;
      optimal_write_sec_left = 0;
      optimal_write_sec_used = ztl_pro_opt_sec_num_innode;
    }
    else if sec_num == 0
    then record n' {
      status = node_free;
      optimal_write_sec_left = ztl_pro_opt_sec_num_innode;
      optimal_write_sec_used = 0;
    }
    else record n' {
      status = node_used;
      optimal_write_sec_left = sub64 ztl_pro_opt_sec_num_innode (sec_num / ztl_io_sec_mcmd);
      optimal_write_sec_used = sec_num / ztl_io_sec_mcmd;
    }

-- TAILQ_INSERT_TAIL on the queue of the node's status.
pub enqueue : ℕ → NodeStatus → NodeGrp → NodeGrp
enqueue node_i NodeStatus.node_full pro = record pro { full_head = pro.full_head ++ node_i ∷ [] }
enqueue node_i NodeStatus.node_free pro = record pro {
  free_head = pro.free_head ++ node_i ∷ [];
  nfree = add32 pro.nfree 1;
}
enqueue node_i _ pro = record pro { used_head = pro.used_head ++ node_i ∷ [] }

-- The head of the loop's body, once a node has all its zones.
pub close_node : Scan → Option Scan
unfolding close_fields enqueue
close_node s = do
  n ← get_elem? s.pro.vnodes s.node_i
  let n' = close_fields s.node_i s.full_count s.sec_num n
  let pro = record s.pro { vnodes = set s.pro.vnodes s.node_i n' }
  some (record s {
    pro = enqueue s.node_i n'.status pro;
    node_i = s.node_i + 1;
    zone_num_in_node = 0;
    sec_num = 0;
  })

-- `zmde->wptr = zmde->wptr_inflight = zinfo->wp`
pub set_wptr : ℕ → ZmdEntry → Descr → Scan → Scan
set_wptr zone_i zmde zinfo s = record s {
  tbl = set s.tbl zone_i (record zmde { wptr = zinfo.wp; wptr_inflight = zinfo.wp });
}

-- The `switch` on the zone's state.
pub count_zone : ℕ → ZmdEntry → Descr → ZoneState → ℕ → Scan → Scan
unfolding set_wptr
count_zone zone_i zmde zinfo ZoneState.zone_empty sect s =
    if has_flag zmde.flags xztl_zmd_used || has_flag zmde.flags xztl_zmd_open
    then s
    else set_wptr zone_i zmde zinfo s
count_zone zone_i zmde zinfo ZoneState.zone_full sect s =
    set_wptr zone_i zmde zinfo
      (record s { full_count = s.full_count + 1; sec_num = add32 s.sec_num zinfo.zcap })
count_zone zone_i zmde zinfo ZoneState.zone_unknown sect s = set_wptr zone_i zmde zinfo s
count_zone zone_i zmde zinfo _ sect s =
    set_wptr zone_i zmde zinfo (record s { sec_num = add32 s.sec_num (sub64 zinfo.wp sect) })

-- The rest of the body: the zone is skipped, or joins the node and is counted. The store to
-- `vnodes[node_i]` faults past the end of the array.
pub add_zone : ℕ → ℕ → Group → ℕ → Scan → Option Scan
unfolding count_zone
add_zone metadata_zone_num zn_grp grp zone_i s = do
  zmde ← get_elem? s.tbl zone_i
  zinfo ← get_elem? grp.report (grp.id * zn_grp + zone_i)
  n ← get_elem? s.pro.vnodes s.node_i
  let zone : Zone = record {
    addr = zmde.addr;
    zmd_entry = some zone_i;
    capacity = zinfo.zcap;
    state = zinfo.zs;
  }
  let n' = record n { vzones = n.vzones ++ (zone_i - metadata_zone_num) ∷ [] }
  let pro = record s.pro {
    vzones = set s.pro.vzones (zone_i - metadata_zone_num) zone;
    vnodes = set s.pro.vnodes s.node_i n';
  }
  some (
      count_zone zone_i zmde zinfo zinfo.zs zmde.addr.sect
        (record s { pro = pro; zone_num_in_node = s.zone_num_in_node + 1 }))

-- The zone's entry names the zone, and it is available and not reserved.
pub usable : Group → ℕ → ZmdEntry → Bool
usable grp zone_i zmde =
    zmde.addr.zone == zone_i
    && zmde.addr.grp == grp.id
    && not (has_flag zmde.flags xztl_zmd_rsvd)
    && has_flag zmde.flags xztl_zmd_avlb

pub visit_zone : ℕ → ℕ → Group → ℕ → Scan → Option Scan
unfolding add_zone usable
visit_zone metadata_zone_num zn_grp grp zone_i s = do
  zmde ← get_elem? s.tbl zone_i
  if usable grp zone_i zmde then add_zone metadata_zone_num zn_grp grp zone_i s else some s

-- `for (zone_i = ..; zone_i < grp->zmd.entries; zone_i++)` with `rounds` zones left: the early
-- `break` compares the zones left plus one with the zones of a node.
pub scan : ℕ → ℕ → Group → ℕ → ℕ → Scan → Option Scan
unfolding close_node visit_zone
scan metadata_zone_num zn_grp grp zero zone_i s = some s
scan metadata_zone_num zn_grp grp (suc rounds) zone_i s =
    let rest = λ (t : Scan).
      visit_zone metadata_zone_num zn_grp grp zone_i t
      >>= scan metadata_zone_num zn_grp grp rounds (zone_i + 1) in
    elim (s.zone_num_in_node == ztl_pro_zone_num_innode) [
      | true ↦ (do
        t ← close_node s
        if ltb (suc rounds + 1) ztl_pro_zone_num_innode
            then some t
            else rest (record t { full_count = 0 }))
      | false ↦ rest s
    ]

-- `ztl_pro_grp_node_init`; the metadata zones are not more than the zones.
pub grp_node_init : ℕ → ℕ → Group → Option Group
unfolding new_pro scan
grp_node_init metadata_zone_num zn_grp grp = do
  let pro = new_pro ((grp.entries - metadata_zone_num) / ztl_pro_zone_num_innode) grp.entries
  s ←
      scan metadata_zone_num zn_grp grp (grp.entries - metadata_zone_num) metadata_zone_num
        (record {
          pro = pro;
          tbl = grp.tbl;
          node_i = 0;
          zone_num_in_node = 0;
          full_count = 0;
          sec_num = 0;
        })
  some (record grp { pro = s.pro; tbl = s.tbl })
