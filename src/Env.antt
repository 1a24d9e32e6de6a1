-- ===== src/Env.antt =====
-- The file system for a key-value store: env/env_zns.h, env_zns.cc and env_zns_io.cc.
-- A file's bytes stand in the pieces that `zrocks_write` placed and, after these, in its write cache.
pub mod Read
pub mod Bytes
pub mod Files
pub mod Meta
pub mod Load
pub mod Write
pub mod Gc
pub mod Names
use x_ztl.Common.{
  ℕ, zero, suc, ◌+◌, ◌-◌, ◌*◌, ◌^◌, ◌≡◌, Bool, true, false, List, [], ◌∷◌, ◌++◌, Option, none, some,
  gen,
}
use x_ztl.Common.Int.{ℤ, negsuc}
use x_ztl.Consts.{zns_alignment, ztl_io_sec_mcmd}
use x_ztl.Data.{sub64}
use x_ztl.Addr.{ZrocksMap}

-- The library as the file system calls it, on a state `W` of the device and the library: whether a
-- read succeeds and its bytes, the maps of a write, `zrocks_trim`, and `zrocks_write_file_metadata` with
-- its status. Both `bool is_gc` arguments only choose a statistic.
pub record Library (W : Type 0) : Type 0 where
  pub zrocks_read : W → ℕ → ℕ → ℕ → Option (List ℕ)
  pub zrocks_write : W → List ℕ → ℤ → Option (List ZrocksMap) × W
  pub zrocks_trim : W → ZrocksMap → W
  pub zrocks_alloc : W → ℕ → Bool × W
  pub zrocks_write_file_metadata : W → List ℕ → ℕ × W
  pub zrocks_get_metadata_slbas : W → List ℕ
  pub zrocks_read_metadata : W → ℕ → ℕ → Option (List ℕ)
  pub zrocks_switch_zone : W → ℕ → W
  pub zrocks_node_set : W → ℕ → ℤ → ℕ → W
  pub zrocks_clear_invalid_nodes : W → W

-- The statuses that the file system gives, but for OK.
pub data Error : Type 0 where
  io_error memory_limit : Error

pub data Status {ℓ} (A : Type ℓ) : Type ℓ where
  ok : A → Status A
  failed : Error → Status A

-- The name of a file, as bytes.
abbrev pub Name : Type 0
Name = List ℕ

-- class ZNSFile: `wcache` has the bytes from `wcache` to `cache_off`, and is `none` where both are null.
pub record ZnsFile : Type 0 where
  pub name : Name
  pub size : ℕ
  pub uuididx : ℕ
  pub level : ℤ
  pub pieces : List ZrocksMap
  pub start_index : ℕ
  pub wcache : Option (List ℕ)
  pub is_writing : Bool
  pub current_nid : ℤ

-- `ZNSFile(fname, lvl)`: whether the cache could be allocated is an argument.
pub new_file : Bool → Name → ℤ → ZnsFile
new_file allocated name level = record {
  name = name;
  size = 0;
  uuididx = 0;
  level = level;
  pieces = [];
  start_index = 0;
  wcache = if_allocated allocated;
  is_writing = false;
  current_nid = negsuc 0;
}
  where
    if_allocated : Bool → Option (List ℕ)
    if_allocated true = some []
    if_allocated false = none

-- The bytes in the cache; a null pointer less a null pointer is 0.
unfoldable pub cached_bytes : Option (List ℕ) → List ℕ
cached_bytes none = []
cached_bytes (some bytes) = bytes

-- `map->g.num * ZNS_ALIGMENT * ZTL_IO_SEC_MCMD - map->g.padding`
unfoldable pub piece_size : ZrocksMap → ℕ
piece_size m = sub64 (m.num * zns_alignment * ztl_io_sec_mcmd) m.padding

-- The first byte of a piece in its node.
unfoldable pub piece_start : ZrocksMap → ℕ
piece_start m = m.start * zns_alignment * ztl_io_sec_mcmd
