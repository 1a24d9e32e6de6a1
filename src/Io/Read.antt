-- ===== src/Io/Read.antt =====
-- `ztl_io_read_ucmd` (xztl/src/ztl-io.c): a read of `size` bytes at byte `offset` of a node becomes
-- one media command for each zone piece that it touches.
pub mod Coverage
use x_ztl.Common.{
  ℕ, zero, suc, ◌+◌, ◌-◌, ◌*◌, ◌/◌, ◌%◌, ◌^◌, Bool, true, false, ◌==◌, ltb, if◌then◌else◌, List, [],
  ◌∷◌, ◌++◌, Option, none, some, ◌>>=◌,
}
use x_ztl.Consts.{ztl_io_sec_mcmd, zns_alignment, ztl_pro_zone_num_innode, ztl_io_rc_num}
use x_ztl.Data.{Zone, add64}
use x_ztl.Addr.{Maddr, to_sect}
use x_ztl.Io.Cmd.{Mcmd, cmd_read}

-- `x / d`, rounded up, as the source writes it.
abbrev pub div_up : ℕ → ℕ → ℕ
div_up x d = x / d + (if x % d == 0 then 0 else 1)

-- A store to the source's 32-bit `nlevel`.
abbrev pub to_int : ℕ → ℕ
to_int x = x % 2 ^ 32

-- The variables of the loop.
pub record Cursor : Type 0 where
  pub total_cmd : ℕ
  pub sec_left : ℕ
  pub zindex : ℕ
  pub nlevel : ℕ
  pub zone_sec_off : ℕ
  pub read_num : ℕ
  pub bytes_off : ℕ
  pub left : ℕ
  pub misalign : ℕ

abbrev pub level_secs : ℕ
level_secs = ztl_pro_zone_num_innode * ztl_io_sec_mcmd

-- Their values before the loop.
pub start_read : ℕ → ℕ → Cursor
start_read offset size =
    let misalign = offset % zns_alignment in
    let sec_size = div_up (add64 size misalign) zns_alignment in
    let sec_start = offset / zns_alignment in
    let nlevel = to_int (sec_start / level_secs) in
    let room = ztl_io_sec_mcmd - sec_start % level_secs % ztl_io_sec_mcmd in
    record {
      total_cmd = 0;
      sec_left = sec_size;
      zindex = sec_start % level_secs / ztl_io_sec_mcmd;
      nlevel = nlevel;
      zone_sec_off = nlevel * ztl_io_sec_mcmd + sec_start % level_secs % ztl_io_sec_mcmd;
      read_num = if ltb room sec_size then room else sec_size;
      bytes_off = 0;
      left = size;
      misalign = misalign;
    }

-- The command of a round, for the zone that it reads; `prp` is the number of the resource's buffer.
pub read_mcmd : Zone → Cursor → Mcmd
read_mcmd z c =
    let room = c.read_num * zns_alignment - c.misalign in
    record {
      opcode = cmd_read;
      synch = false;
      sequence = c.misalign;
      sequence_zn = 0;
      buf_off = c.bytes_off;
      cpsize = if ltb c.left room then c.left else room;
      nsec = c.read_num;
      addr = record { grp = 0; punit = 0; zone = 0; sect = to_sect (z.addr.sect + c.zone_sec_off) };
      prp = c.total_cmd;
      paddr = 0;
      status = 0;
      callback_err_cnt = 0;
    }

-- The end of a round.
pub next_read : Cursor → Mcmd → Cursor
next_read c m =
    let sec_left = c.sec_left - c.read_num in
    let zindex = (c.zindex + 1) % ztl_pro_zone_num_innode in
    let nlevel = (if zindex == 0 then to_int (c.nlevel + 1) else c.nlevel) in
    record {
      total_cmd = c.total_cmd + 1;
      sec_left = sec_left;
      zindex = zindex;
      nlevel = nlevel;
      zone_sec_off = nlevel * ztl_io_sec_mcmd;
      read_num = if ltb ztl_io_sec_mcmd sec_left then ztl_io_sec_mcmd else sec_left;
      bytes_off = c.bytes_off + m.cpsize;
      left = c.left - m.cpsize;
      misalign = 0;
    }

-- `while (sec_left)`. A command past the `ztl_io_rc_num` of the resource is a fault.
pub read_loop : (ℕ → Option Zone) → ℕ → Cursor → Option (List Mcmd)
unfolding read_mcmd next_read
read_loop zone zero c = none
read_loop zone (suc fuel) c =
    let round = (do
      z ← zone c.zindex
      let m = read_mcmd z c
      ms ← read_loop zone fuel (next_read c m)
      some (m ∷ ms)) in
    if c.sec_left == 0 then some [] else if ltb c.total_cmd ztl_io_rc_num then round else none

-- Each round reads at least one sector, so as many rounds as sectors, and one more, are enough.
pub read_commands : (ℕ → Option Zone) → ℕ → ℕ → Option (List Mcmd)
unfolding start_read read_loop
read_commands zone offset size = let c = start_read offset size in read_loop zone (c.sec_left + 1) c
