-- ===== src/Io.antt =====
-- The commands of the I/O module (xztl/src/ztl-io.c) and its small handlers: the read resources, the
-- completion callbacks and `nodeset`.
pub mod Cmd
pub mod Read
pub mod Write
pub mod RoundTrip
pub mod Submit
pub mod Queue
pub mod Reading
pub mod Resources
use x_ztl.Common.{
  ℕ, zero, suc, ◌+◌, ◌-◌, ◌*◌, ◌/◌, ◌%◌, ◌^◌, Bool, true, false, ◌==◌, ltb, leb, not, if◌then◌else◌,
  List, [], ◌∷◌, ◌++◌, Option, none, some, ◌>>=◌, get_elem?, set,
}
use x_ztl.Common.Int.{ℤ, pos, negsuc}
use x_ztl.Consts.{max_callback_err_cnt, zrocks_level_num}
use x_ztl.Data.{
  NodeStatus, node_used, node_free, node_full, node_reset, Node, NodeGrp, QueuePool, add64,
}
use x_ztl.Io.Cmd.{Mcmd}

-- The flags `usedflag` of `read_resource`, one for each of `zndmedia.read_ctx_num`; `ret` is -1
-- where every one is set.
pub get_read_rs : List Bool → Option (ℕ × List Bool)
get_read_rs [] = none
get_read_rs (false ∷ rs) = some (0, true ∷ rs)
get_read_rs (true ∷ rs) = elim (get_read_rs rs) [
  | none ↦ none
  | some (id, rs') ↦ some (id + 1, true ∷ rs')
]

pub put_read_rs : ℕ → List Bool → List Bool
put_read_rs id rs = set rs id false

-- What a completion callback does with its command: it submits it again, or it is done with it.
pub data Completion : Type 0 where
  submit_again : Mcmd → Completion
  done : Mcmd → Completion

-- The fields of `xztl_io_ucmd` that the callbacks write. `status` is one byte.
pub record Progress : Type 0 where
  pub status : ℕ
  pub ncb : ℕ
  pub minflight : List Bool
  pub moffset : List ℕ

abbrev pub to_byte : ℕ → ℕ
to_byte x = x % 2 ^ 8

-- `mcmd->callback_err_cnt++`, on one byte
abbrev pub count_error : Mcmd → Mcmd
count_error m = record m { callback_err_cnt = to_byte (m.callback_err_cnt + 1) }

-- `ztl_io_read_callback_mcmd`. A read that succeeded copies `cpsize` bytes to the user's buffer: the
-- result is the status, with the bytes that are copied, as their places in the two buffers.
pub record Copy : Type 0 where
  pub to_off : ℕ
  pub from_prp : ℕ
  pub from_off : ℕ
  pub size : ℕ

abbrev pub copy_of : Mcmd → Copy
copy_of m = record { to_off = m.buf_off; from_prp = m.prp; from_off = m.sequence; size = m.cpsize }

pub read_callback : ℕ → Mcmd → ℕ × Completion × Option Copy
read_callback status m =
    if m.status == 0
    then (status, done m, some (copy_of m))
    else let m' = count_error m in
      if ltb m'.callback_err_cnt max_callback_err_cnt
      then (status, submit_again m', none)
      else (to_byte m.status, done m', none)

-- The end of `ztl_io_write_callback_mcmd`: the zone may take its next command.
pub finish_write : Mcmd → Progress → Progress
finish_write m p = record p {
  minflight = set p.minflight m.sequence_zn false;
  ncb = (p.ncb + 1) % 2 ^ 16;
}

-- `ztl_io_write_callback_mcmd`, up to the call of `free_fn` by the last completion.
pub write_callback : Progress → Mcmd → Progress × Completion
unfolding finish_write
write_callback p m =
    if m.status == 0
    then (finish_write m (record p { moffset = set p.moffset m.sequence m.paddr }), done m)
    else let m' = count_error m in
      if ltb m'.callback_err_cnt max_callback_err_cnt
      then (p, submit_again m')
      else (finish_write m (record p { status = to_byte m.status }), done m')

-- `ztl_io_nodeset`: recovery tells a node's valid pieces and, for a node in use, the level whose
-- queue it serves. A level below 0 is outside of `qp`.
pub io_nodeset : List QueuePool → NodeGrp → ℕ → ℤ → ℕ → Option (List QueuePool × NodeGrp)
io_nodeset qp pro node_id level nr_valid = do
  n ← get_elem? pro.vnodes node_id
  let n' : Node = record n { nr_valid = add64 n.nr_valid nr_valid }
  elim n.status [
    | NodeStatus.node_used ↦ elim level [
      | pos l ↦
          let l' : ℕ = (if leb zrocks_level_num l then zrocks_level_num - 1 else l) in
          let q : QueuePool = record { node = some node_id } in
          let n'' : Node = record n' { level = pos l' } in
          some (set qp l' q, record pro { vnodes = set pro.vnodes node_id n'' })
      | negsuc _ ↦ none
    ]
    | _ ↦ some (qp, record pro { vnodes = set pro.vnodes node_id n' })
  ]
