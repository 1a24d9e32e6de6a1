-- ===== src/Media.antt =====
-- The media layer (xztl/include/xztl-media.h): its geometry, and `xztl_media_check` and
-- `xztl_media_set` (xztl/src/xztl-core.c), which take it into use.
pub mod Geometry
pub mod Commands
pub mod Contexts
pub mod Options
pub mod Register
pub mod Zones
pub mod Completion
pub mod Queues
use x_ztl.Common.{
  ℕ, ◌*◌, ◌%◌, ◌^◌, Bool, true, false, ◌||◌, ltb, ◌==◌, if◌then◌else◌, Option, none, some,
}
use x_ztl.Consts.{
  xztl_ok, xztl_mem, xztl_noinit, xztl_noexit, xztl_media_noio, xztl_media_nozone,
  xztl_media_noalloc, xztl_media_nofree, xztl_media_geo,
}

abbrev pub xztl_media_max_grp : ℕ
xztl_media_max_grp = 128

abbrev pub xztl_media_max_pugrp : ℕ
xztl_media_max_pugrp = 8

abbrev pub xztl_media_max_znpu : ℕ
xztl_media_max_znpu = 8388608

abbrev pub xztl_media_max_seczn : ℕ
xztl_media_max_seczn = 8388608

abbrev pub xztl_media_max_secsz : ℕ
xztl_media_max_secsz = 1048576

abbrev pub xztl_media_max_oobsz : ℕ
xztl_media_max_oobsz = 128

-- struct xztl_mgeo
pub record Mgeo : Type 0 where
  pub ngrps : ℕ
  pub pu_grp : ℕ
  pub zn_pu : ℕ
  pub sec_zn : ℕ
  pub nbytes : ℕ
  pub nbytes_oob : ℕ
  pub zn_dev : ℕ
  pub zn_grp : ℕ
  pub sec_dev : ℕ
  pub sec_grp : ℕ
  pub sec_pu : ℕ
  pub nbytes_zn : ℕ
  pub nbytes_grp : ℕ
  pub oob_grp : ℕ
  pub oob_pu : ℕ
  pub oob_zn : ℕ

-- struct xztl_media: its geometry, and which of its functions are there.
pub record Media : Type 0 where
  pub geo : Mgeo
  pub init_fn : Bool
  pub exit_fn : Bool
  pub submit_io : Bool
  pub zone_fn : Bool
  pub dma_alloc : Bool
  pub dma_free : Bool
  pub cmd_exec : Bool

-- A product of two `uint32_t`.
abbrev pub mul32 : ℕ → ℕ → ℕ
mul32 a b = a * b % 2 ^ 32

-- `!x || x > max`
abbrev pub off_limits : ℕ → ℕ → Bool
off_limits max x = (x == 0) || ltb max x

-- The test of the geometry.
unfoldable pub bad_geometry : Mgeo → Bool
bad_geometry g =
    off_limits xztl_media_max_grp g.ngrps
    || (off_limits xztl_media_max_pugrp g.pu_grp
        || (off_limits xztl_media_max_znpu g.zn_pu
            || (off_limits xztl_media_max_seczn g.sec_zn
                || (off_limits xztl_media_max_secsz g.nbytes
                    || ltb xztl_media_max_oobsz g.nbytes_oob))))

-- "Fill up geometry fields"; `nbytes * sec_zn` is a product of 32 bits before it meets `1UL`.
unfoldable pub fill_geometry : Mgeo → Mgeo
fill_geometry g =
    let zn_grp = mul32 g.pu_grp g.zn_pu in
    let sec_grp = mul32 zn_grp g.sec_zn in
    let sec_pu = mul32 g.zn_pu g.sec_zn in
    let nbytes_zn = mul32 g.nbytes g.sec_zn in
    record g {
      zn_grp = zn_grp;
      zn_dev = mul32 zn_grp g.ngrps;
      sec_grp = sec_grp;
      sec_pu = sec_pu;
      sec_dev = mul32 sec_grp g.ngrps;
      nbytes_zn = nbytes_zn;
      nbytes_grp = nbytes_zn * zn_grp % 2 ^ 64;
      oob_grp = mul32 sec_grp g.nbytes_oob;
      oob_pu = mul32 sec_pu g.nbytes_oob;
      oob_zn = mul32 g.sec_zn g.nbytes_oob;
    }

-- The function pointers in their order: the code of the first that is missing.
unfoldable pub missing_fn : Media → Option ℕ
missing_fn m =
    if m.init_fn
    then (if m.exit_fn
        then (if m.submit_io
            then (if m.zone_fn
                then (if m.dma_alloc
                    then (if m.dma_free then none else some xztl_media_nofree)
                    else some xztl_media_noalloc)
                else some xztl_media_nozone)
            else some xztl_media_noio)
        else some xztl_noexit)
    else some xztl_noinit

unfoldable pub media_check : Media → ℕ × Media
unfolding missing_fn bad_geometry fill_geometry
media_check m = elim (missing_fn m) [
  | some err ↦ (err, m)
  | none ↦
      if bad_geometry m.geo
      then (xztl_media_geo, m)
      else (xztl_ok, record m { geo = fill_geometry m.geo })
]

-- The new `core.media`, and the caller's structure, which the check has filled; `allocated` is whether
-- malloc gives memory. Without it the pointer is null.
unfoldable pub media_set : Bool → Option Media → Media → ℕ × Option Media × Media
unfolding media_check
media_set allocated core m =
    let (ret, filled) = media_check m in
    if ret == xztl_ok
    then (if allocated then (xztl_ok, some filled, filled) else (xztl_mem, none, filled))
    else (ret, core, filled)
