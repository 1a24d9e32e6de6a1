-- ===== src/Io/Cmd.antt =====
-- struct xztl_io_mcmd (xztl/include/xztl-media.h) with its one address.
use x_ztl.Common.{ℕ, Bool}
use x_ztl.Addr.{Maddr}

-- enum xztl_media_opcodes, the I/O commands
pub data IoOpcode : Type 0 where
  cmd_write cmd_read zone_append : IoOpcode

pub record Mcmd : Type 0 where
  pub opcode : IoOpcode
  pub synch : Bool
  pub sequence : ℕ
  pub sequence_zn : ℕ
  pub buf_off : ℕ
  pub cpsize : ℕ
  pub nsec : ℕ
  pub addr : Maddr
  pub prp : ℕ
  pub paddr : ℕ
  pub status : ℕ
  pub callback_err_cnt : ℕ
