-- ===== src/Groups.antt =====
-- The groups of the device and their zone metadata: xztl/src/xztl-groups.c and ztl-zmd.c.
-- Whether the allocation and the zone report of a group succeed is a parameter (`loads`). The list of
-- groups is the list of their ids, the last one first, as LIST_INSERT_HEAD leaves it.
pub mod Zones
use x_ztl.Common.{
  ℕ, zero, suc, ◌+◌, ◌-◌, ◌*◌, ◌/◌, ◌%◌, ◌^◌, Bool, true, false, ◌==◌, if◌then◌else◌, List, [], ◌∷◌,
  Option, none, some, get_elem?, gen,
}
use x_ztl.Consts.{xztl_ztl_group_err}
use x_ztl.Data.{ZmdEntry, xztl_zmd_avlb}
use x_ztl.Addr.{Maddr, to_sect, to_zone, to_grp}

-- The entry that `ztl_zmd_create` makes for the zone `zn_i` of the group `id`; the product of the
-- group's id is taken on 32 bits.
unfoldable pub zmd_entry : ℕ → ℕ → ℕ → ℕ → ZmdEntry
zmd_entry id sec_grp sec_zn zn_i =
    let sect = to_sect (sec_grp * id % 2 ^ 32 + sec_zn * zn_i) in
    record {
      flags = xztl_zmd_avlb;
      level = 0;
      addr = record { grp = to_grp id; punit = 0; zone = to_zone zn_i; sect = sect };
      wptr = sect;
      wptr_inflight = sect;
    }

unfoldable pub zmd_create : ℕ → ℕ → ℕ → ℕ → List ZmdEntry
unfolding zmd_entry
zmd_create id sec_grp sec_zn entries = gen (zmd_entry id sec_grp sec_zn) 0 entries

-- `ztl_zmd_get`: NULL where there is no table. It does not test the index, and a zone past the table
-- is `none` here too.
unfoldable pub zmd_get : List ZmdEntry → ℕ → ℕ → Bool → Option ZmdEntry
zmd_get tbl sec_zn zone by_offset =
    let zone' : ℕ = (if by_offset then zone / sec_zn else zone) in get_elem? tbl zone'

-- The loop of `groups_init` over the groups from `grp_i` on, with `left` to go: the result, and the
-- list of the groups.
unfoldable pub groups_loop : (ℕ → Bool) → ℕ → ℕ → List ℕ → ℕ × List ℕ
groups_loop loads zero grp_i head = (grp_i, head)
groups_loop loads (suc left) grp_i head =
    let rest = groups_loop loads left (grp_i + 1) (grp_i ∷ head) in
    if loads grp_i then rest else (xztl_ztl_group_err, [])

unfoldable pub groups_init : (ℕ → Bool) → ℕ → ℕ × List ℕ
unfolding groups_loop
groups_init loads ngrps = groups_loop loads ngrps 0 []

-- `groups_get`
unfoldable pub groups_get : List ℕ → ℕ → Option ℕ
groups_get [] grp_id = none
groups_get (g ∷ gs) grp_id = if g == grp_id then some g else groups_get gs grp_id
