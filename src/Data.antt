-- ===== src/Data.antt =====
-- The records that the translation layer's parts share: app_zmd_entry (xztl-mods.h), the zone, node
-- and node-group structs of xztl-pro.h, and app_group (xztl.h).
-- A pointer into an array is the index of its element; NULL is `none`. TAILQ heads are the lists of
-- the ids of their nodes, first to last.
use x_ztl.Common.{ℕ, ◌+◌, ◌-◌, ◌/◌, ◌%◌, ◌^◌, Bool, ◌==◌, List, Option}
use x_ztl.Common.Int.{ℤ}
use x_ztl.Addr.{Maddr}

-- Unsigned arithmetic of 32 and 64 bits.
abbrev pub add32 : ℕ → ℕ → ℕ
add32 a b = (a + b) % 2 ^ 32

abbrev pub sub32 : ℕ → ℕ → ℕ
sub32 a b = (a + 2 ^ 32 - b) % 2 ^ 32

abbrev pub add64 : ℕ → ℕ → ℕ
add64 a b = (a + b) % 2 ^ 64

abbrev pub sub64 : ℕ → ℕ → ℕ
sub64 a b = (a + 2 ^ 64 - b) % 2 ^ 64

-- enum xztl_zmd_flags; `flags & flag` for a flag of one bit.
abbrev pub xztl_zmd_used : ℕ
xztl_zmd_used = 1

abbrev pub xztl_zmd_open : ℕ
xztl_zmd_open = 2

abbrev pub xztl_zmd_rsvd : ℕ
xztl_zmd_rsvd = 4

abbrev pub xztl_zmd_avlb : ℕ
xztl_zmd_avlb = 8

abbrev pub has_flag : ℕ → ℕ → Bool
has_flag flags flag = flags / flag % 2 == 1

-- enum xztl_zmd_node_status
pub data NodeStatus : Type 0 where
  node_free node_used node_full node_reset : NodeStatus

-- The zone states of the device's report that the source names; `unknown` is any other.
pub data ZoneState : Type 0 where
  zone_empty zone_eopen zone_iopen zone_closed zone_full zone_unknown : ZoneState

-- A zone's entry in the device's report.
pub record Descr : Type 0 where
  pub zcap : ℕ
  pub zs : ZoneState
  pub wp : ℕ

pub record ZmdEntry : Type 0 where
  pub flags : ℕ
  pub level : ℕ
  pub addr : Maddr
  pub wptr : ℕ
  pub wptr_inflight : ℕ

-- `zmd_entry` is an index into the group's zone metadata table.
pub record Zone : Type 0 where
  pub addr : Maddr
  pub zmd_entry : Option ℕ
  pub capacity : ℕ
  pub state : ZoneState

-- `vzones` holds indexes into the group's zones, as many as have been set.
pub record Node : Type 0 where
  pub id : ℕ
  pub vzones : List ℕ
  pub optimal_write_sec_left : ℕ
  pub optimal_write_sec_used : ℕ
  pub nr_finish_err : ℕ
  pub nr_reset_err : ℕ
  pub nr_valid : ℕ
  pub status : NodeStatus
  pub level : ℤ

pub record NodeGrp : Type 0 where
  pub vnodes : List Node
  pub vzones : List Zone
  pub nfree : ℕ
  pub nzones : ℕ
  pub nnodes : ℕ
  pub free_head : List ℕ
  pub used_head : List ℕ
  pub full_head : List ℕ

-- struct app_group with its app_zmd; `tbl` is the zone metadata table, NULL when it is empty.
pub record Group : Type 0 where
  pub id : ℕ
  pub active : ℕ
  pub busy : ℕ
  pub entries : ℕ
  pub tbl : List ZmdEntry
  pub report : List Descr
  pub pro : NodeGrp

-- A provisioned piece: `ctx->addr[i]` and `ctx->nsec[i]`.
pub record Slot : Type 0 where
  pub addr : Maddr
  pub nsec : ℕ

-- struct ztl_queue_pool, as far as provisioning reads it: `node` is the id of the node in use.
pub record QueuePool : Type 0 where
  pub node : Option ℕ
