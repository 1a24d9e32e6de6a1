-- ===== src/Pro.antt =====
-- Zone provisioning: xztl/src/ztl-pro-grp.c and xztl/src/ztl-pro.c.
pub mod Get
pub mod Queues
pub mod Init
use x_ztl.Common.{
  ℕ, zero, suc, ◌+◌, ◌-◌, ◌*◌, ◌/◌, ◌%◌, ◌^◌, Bool, true, false, ◌==◌, ltb, if◌then◌else◌, List, [],
  ◌∷◌, ◌++◌, Option, none, some, ◌>>=◌, length, get_elem?, set, tailq_remove,
}
use x_ztl.Consts.{
  ztl_pro_zone_num_innode, ztl_io_sec_mcmd, app_pro_max_offs, xztl_ok, xztl_ztl_prov_err,
}
use x_ztl.Data.{
  Zone, ZmdEntry, Node, NodeGrp, Group, Slot, QueuePool, node_used, add32, sub32, add64,
}
use x_ztl.Addr.{Maddr, to_sect}

-- `pro->vnodes[id]`, and a store to it.
unfoldable pub node_at : NodeGrp → ℕ → Option Node
node_at pro id = get_elem? pro.vnodes id

unfoldable pub put_node : NodeGrp → ℕ → Node → NodeGrp
put_node pro id n = record pro { vnodes = set pro.vnodes id n }

-- `node->vzones[k]`
unfoldable pub zone_of : NodeGrp → Node → ℕ → Option Zone
zone_of pro node k = do z ← get_elem? node.vzones k; get_elem? pro.vzones z

-- The round of the loop in `ztl_pro_grp_get` for the zone `z`: the piece that it provisions, and
-- the metadata table with the zone's in-flight pointer moved.
pub take_piece : Zone → ℕ → List ZmdEntry → Option (Slot × List ZmdEntry)
take_piece z share tbl = do
  e ← z.zmd_entry
  zmde ← get_elem? tbl e
  let nsec = share * ztl_io_sec_mcmd % 2 ^ 32
  let addr = record z.addr { sect = to_sect zmde.wptr_inflight }
  some (
    record { addr = addr; nsec = nsec },
    set tbl e (record zmde { wptr_inflight = add64 zmde.wptr_inflight nsec }),
  )

-- `while (num)` of `ztl_pro_grp_get`. `zone` is `node->vzones[_]`, which the loop does not change,
-- `naddr` the number of pieces so far; a piece past the arrays of the context is a fault.
pub get_loop :
    (ℕ → Option Zone) → ℕ → ℕ → ℕ → ℕ → ℕ → ℕ → List ZmdEntry → Option (List Slot × List ZmdEntry)
get_loop zone zero num_zn addition zn_i num naddr tbl = none
get_loop zone (suc fuel) num_zn addition zn_i num naddr tbl =
    let i : ℕ = (if addition == 0 then 0 else 1) in
    let round = (do
      z ← zone zn_i
      (s, tbl') ← take_piece z (num_zn + i) tbl
      (ss, tbl'') ←
          get_loop zone fuel num_zn (addition - i) ((zn_i + 1) % ztl_pro_zone_num_innode)
            (sub32 num (num_zn + i)) (naddr + 1) tbl'
      some (s ∷ ss, tbl'')) in
    if num == 0 then some ([], tbl) else if ltb naddr app_pro_max_offs then round else none

-- `ztl_pro_grp_get` into an empty context. A node has `ztl_pro_zone_num_innode` zones, and each
-- round serves one of them, so one round more than that is fuel enough.
unfoldable pub grp_get : Group → ℕ → ℕ → ℕ → Option (List Slot × Group)
unfolding get_loop node_at zone_of
grp_get grp num node_id start = do
  node ← node_at grp.pro node_id
  (slots, tbl) ←
      get_loop (zone_of grp.pro node) (ztl_pro_zone_num_innode + 1) (num / ztl_pro_zone_num_innode)
        (num % ztl_pro_zone_num_innode) (start % ztl_pro_zone_num_innode) num 0 grp.tbl
  some (slots, record grp { tbl = tbl })

-- `app_grp_ctx_add` and `app_grp_ctx_sub` on the one-byte counter of contexts that use the group.
pub ctx_add : Group → Group
ctx_add grp = record grp { busy = (grp.busy + 1) % 2 ^ 8 }

pub ctx_sub : Group → Group
ctx_sub grp = record grp { busy = (grp.busy + 2 ^ 8 - 1) % 2 ^ 8 }

-- `ztl_pro_new`: the status, with the context's pieces.
pub pro_new : Group → ℕ → ℕ → ℕ → Option (ℕ × List Slot × Group)
unfolding grp_get ctx_add
pro_new grp num node_id start = do
  (slots, grp') ← grp_get grp num node_id start
  some (xztl_ok, slots, ctx_add grp')

-- `ztl_pro_grp_free`: moves the write pointer of the zone `zone_i` of the device.
pub grp_free : ℕ → Group → ℕ → ℕ → Option Group
grp_free metadata_zone_num grp zone_i nsec = do
  z ←
      (if ltb zone_i metadata_zone_num
        then none
        else get_elem? grp.pro.vzones (zone_i - metadata_zone_num))
  e ← z.zmd_entry
  zmde ← get_elem? grp.tbl e
  some (record grp { tbl = set grp.tbl e (record zmde { wptr = add64 zmde.wptr nsec }) })

-- The loop of `ztl_pro_free` over the context's pieces.
free_loop : ℕ → Group → List Slot → Option Group
unfolding grp_free
free_loop metadata_zone_num grp [] = some grp
free_loop metadata_zone_num grp (s ∷ ss) = do
  grp' ← grp_free metadata_zone_num grp s.addr.zone s.nsec
  free_loop metadata_zone_num grp' ss

pub pro_free : ℕ → Group → List Slot → Option Group
unfolding free_loop ctx_sub
pro_free metadata_zone_num grp slots = do
  grp' ← free_loop metadata_zone_num grp slots
  some (ctx_sub grp')

-- The node in use has no room left: it goes from the used to the full queue.
unfoldable pub retire : NodeGrp → ℕ → Option NodeGrp
retire pro id = do
  used ← tailq_remove id pro.used_head
  some (record pro { used_head = used; full_head = pro.full_head ++ id ∷ [] })

-- The first node of the free queue goes to the used queue; with none, the queue is left without a
-- node.
unfoldable pub take_node : NodeGrp → List ℕ → Option (ℕ × QueuePool × NodeGrp)
unfolding node_at put_node
take_node pro [] = some (xztl_ztl_prov_err, record { node = none }, pro)
take_node pro (id ∷ free) = do
  node ← node_at pro id
  some (
    xztl_ok,
    record { node = some id },
    record (put_node pro id (record node { status = node_used })) {
      free_head = free;
      used_head = pro.used_head ++ id ∷ [];
      nfree = sub32 pro.nfree 1;
    },
  )

unfoldable pub next_node : NodeGrp → Option (ℕ × QueuePool × NodeGrp)
unfolding take_node
next_node pro = take_node pro pro.free_head

-- `ztl_pro_grp_get_node`
unfoldable pub grp_get_node : QueuePool → NodeGrp → Option (ℕ × QueuePool × NodeGrp)
unfolding retire next_node node_at
grp_get_node q pro = elim q.node [
  | none ↦ next_node pro
  | some id ↦ (do
    node ← node_at pro id
    if node.optimal_write_sec_left == 0
        then (do pro' ← retire pro id; next_node pro')
        else some (xztl_ok, q, pro))
]
