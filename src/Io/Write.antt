-- ===== src/Io/Write.antt =====
-- `ztl_io_write_ucmd` (xztl/src/ztl-io.c): a user write takes room in one node after the other, and
-- the pieces of each node become media commands that go round its zones.
-- Io/Submit has the submission of the commands of a node; here `complete` gives the status with which
-- each of them completed in the end.
pub mod Populate
pub mod Address
use x_ztl.Common.{
  ℕ, zero, suc, ◌+◌, ◌-◌, ◌*◌, ◌/◌, ◌%◌, ◌^◌, Bool, true, false, ◌==◌, ltb, leb, not, if◌then◌else◌,
  List, [], ◌∷◌, ◌++◌, Option, none, some, ◌>>=◌, get_elem?, map, length,
}
use x_ztl.Common.Int.{ℤ, pos, negsuc, is_minus_one}
use x_ztl.Consts.{ztl_io_sec_mcmd, ztl_io_rc_num, xztl_io_max_mcmd, xztl_ztl_io_s_err, xztl_ok}
use x_ztl.Data.{Node, NodeGrp, Group, NodeStatus, node_full, QueuePool, Slot, add64, sub64}
use x_ztl.Addr.{Maddr, to_sect}
use x_ztl.Io.Cmd.{Mcmd, cmd_write}
use x_ztl.Io.{to_byte}
use x_ztl.Pro.{node_at, put_node, grp_get_node, pro_new, pro_free}

-- A zone's share while the commands are made: `prov->addr[zn_i]` and `zone_sector_num[zn_i]`.
pub record Share : Type 0 where
  pub addr : Maddr
  pub left : ℕ

-- The command number `cmd_i`, for the zone in turn `zn_i`, of the buffer address `boff`.
pub write_mcmd : ℕ → ℕ → ℕ → Maddr → Mcmd
write_mcmd cmd_i zn_i boff addr = record {
  opcode = cmd_write;
  synch = false;
  sequence = cmd_i;
  sequence_zn = zn_i;
  buf_off = 0;
  cpsize = 0;
  nsec = ztl_io_sec_mcmd;
  addr = record addr { punit = 0 };
  prp = boff;
  paddr = 0;
  status = 0;
  callback_err_cnt = 0;
}

-- A zone gives one command of `ztl_io_sec_mcmd` sectors.
pub advance : Share → Share
advance p = record p {
  addr = record p.addr { sect = to_sect (p.addr.sect + ztl_io_sec_mcmd) };
  left = p.left - ztl_io_sec_mcmd;
}

-- One `for` over the zones: a command for each zone that has sectors left. The arrays hold
-- `ztl_io_rc_num` commands.
pub round : ℕ → ℕ → ℕ → ℕ → List Share → Option (List Mcmd × List Share)
unfolding write_mcmd advance
round nbytes cmd_i zn_i boff [] = some ([], [])
round nbytes cmd_i zn_i boff (p ∷ ps) =
    let skip = (do (ms, ps') ← round nbytes cmd_i (zn_i + 1) boff ps; some (ms, p ∷ ps')) in
    let take = (do
      (ms, ps') ← round nbytes (cmd_i + 1) (zn_i + 1) (add64 boff (nbytes * ztl_io_sec_mcmd)) ps
      some (write_mcmd cmd_i zn_i boff p.addr ∷ ms, advance p ∷ ps')) in
    if p.left == 0 then skip else if ltb cmd_i ztl_io_rc_num then take else none

-- `while (cmd_i < num)`. A round over shares that are not used up makes a command.
pub populate : ℕ → ℕ → ℕ → ℕ → ℕ → List Share → Option (List Mcmd)
unfolding round
populate nbytes zero num cmd_i boff ps = none
populate nbytes (suc fuel) num cmd_i boff ps =
    let more = (do
      (ms, ps') ← round nbytes cmd_i 0 boff ps
      let n : ℕ = length ms
      rest ← populate nbytes fuel num (cmd_i + n) (add64 boff (n * (nbytes * ztl_io_sec_mcmd))) ps'
      some (ms ++ rest)) in
    if ltb cmd_i num then more else some []

pub share_of : Slot → Share
share_of s = record { addr = s.addr; left = s.nsec }

-- The commands of `num` pieces that were provisioned as `slots`.
pub write_commands : ℕ → ℕ → ℕ → List Slot → Option (List Mcmd)
unfolding populate share_of
write_commands nbytes num boff slots = populate nbytes (num + 1) num 0 boff (map share_of slots)

-- A piece of the mapping that the write returns.
pub record Piece : Type 0 where
  pub node_id : ℕ
  pub start : ℕ
  pub num : ℕ

-- The fields of `xztl_io_ucmd` that a write gives back; `done` is what the media has been told.
pub record Written : Type 0 where
  pub status : ℕ
  pub pieces : List Piece
  pub done : List Mcmd

pub record World : Type 0 where
  pub grp : Group
  pub queue : QueuePool

-- The user's status after the commands completed: the last failure, in one byte.
pub final_status : ℕ → List ℕ → ℕ
final_status old [] = old
final_status old (s ∷ ss) = final_status (if s == 0 then old else to_byte s) ss

-- The node's fields after `num` pieces more were written.
pub fill_node : ℕ → Node → Node
fill_node num n =
    let left = sub64 n.optimal_write_sec_left num in
    record n {
      optimal_write_sec_left = left;
      optimal_write_sec_used = add64 n.optimal_write_sec_used num;
      nr_valid = add64 n.nr_valid num;
      status = if left == 0 then node_full else n.status;
    }

abbrev pub level_of : ℕ → ℤ → ℤ
level_of prov_type l = if is_minus_one l then pos prov_type else l

-- The label FAIL_NCMD: `prov->nsec[i] = 0`.
abbrev pub no_sectors : Slot → Slot
no_sectors s = record s { nsec = 0 }

-- The commands of a node's turn, once its pieces are provisioned. The last completion frees the
-- pieces, so that nothing is freed where there is no command.
pub node_turn : ℕ → ℕ → ℕ → ℕ → ℕ → List Slot → Group → Option (List Mcmd × Group)
unfolding fill_node
node_turn metadata_zone_num nbytes num boff id slots grp = do
  ms ← write_commands nbytes num boff slots
  grp1 ← (if num == 0 then some grp else pro_free metadata_zone_num grp slots)
  n ← node_at grp1.pro id
  some (ms, record grp1 { pro = put_node grp1.pro id (fill_node num n) })

-- From the label `reget` on, for the commands `left`: a node, its pieces, their commands and what
-- they leave. The two places of `node_id`, `start` and `num` bound the pieces of a user write.
pub write_node :
    ℕ → ℕ → ℕ → (List Mcmd → List ℕ) → ℕ → ℕ → World → Written → Option (ℕ × ℕ × World × Written)
unfolding fill_node final_status node_turn
write_node metadata_zone_num nbytes prov_type complete left boff w u = do
  (ret, q, pro) ← grp_get_node w.queue w.grp.pro
  elim (ret == 0) [
    | false ↦ some (ret, left, record { grp = record w.grp { pro = pro }; queue = q }, u)
    | true ↦ (do
      id ← q.node
      n ← node_at pro id
      let num : ℕ = (if leb n.optimal_write_sec_left left then n.optimal_write_sec_left else left)
      let used = n.optimal_write_sec_used
      let n' : Node = record n { level = level_of prov_type n.level }
      let grp : Group = record w.grp { pro = put_node pro id n' }
      let piece : Piece = record { node_id = id; start = used; num = num }
      (st, slots, grp1) ← (if ltb (length u.pieces) 2 then pro_new grp num id used else none)
      elim (st == 0) [
        | true ↦ (do
          (ms, grp2) ← node_turn metadata_zone_num nbytes num boff id slots grp1
          some (
            xztl_ok,
            left - num,
            record { grp = grp2; queue = q },
            record {
              status = final_status u.status (complete ms);
              pieces = u.pieces ++ piece ∷ [];
              done = u.done ++ ms;
            },
          ))
        | false ↦ (do
          grp2 ← pro_free metadata_zone_num grp1 (map no_sectors slots)
          some (st, left, record { grp = grp2; queue = q }, u))
      ])
  ]

-- The loop that `goto reget` makes, on fuel: a turn with commands left writes at least one.
pub write_nodes :
    ℕ → ℕ → ℕ → (List Mcmd → List ℕ) → ℕ → ℕ → ℕ → World → Written → Option (ℕ × World × Written)
unfolding write_node
write_nodes mz nbytes prov_type complete zero left boff w u = none
write_nodes mz nbytes prov_type complete (suc fuel) left boff w u = do
  (ret, left', w', u') ← write_node mz nbytes prov_type complete left boff w u
  let next : ℕ = add64 boff ((left - left') * (nbytes * ztl_io_sec_mcmd))
  let rest = write_nodes mz nbytes prov_type complete fuel left' next w' u'
  if ret == 0 then (if left' == 0 then some (xztl_ok, w', u') else rest) else some (ret, w', u')

-- The label FAILURE.
abbrev pub io_failure : World → Written → ℕ × World × Written
io_failure w u = (xztl_ztl_io_s_err, w, record u { status = xztl_ztl_io_s_err })

-- `ztl_io_write_ucmd` for a buffer of `size` bytes at the address `buf`.
pub write_ucmd : ℕ → ℕ → ℕ → (List Mcmd → List ℕ) → ℕ → ℕ → World → Option (ℕ × World × Written)
unfolding write_nodes
write_ucmd mz nbytes prov_type complete size buf w =
    let u : Written = record { status = 0; pieces = []; done = [] } in
    let ncmd = size / nbytes % 2 ^ 32 / ztl_io_sec_mcmd in
    let go = (do
      (ret, w', u') ← write_nodes mz nbytes prov_type complete (ncmd + 1) ncmd buf w u
      some (if ret == 0 then (xztl_ok, w', u') else io_failure w' u')) in
    if size % (nbytes * ztl_io_sec_mcmd) == 0
    then (if ltb xztl_io_max_mcmd ncmd then some (io_failure w u) else go)
    else some (io_failure w u)
