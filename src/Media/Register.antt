-- ===== src/Media/Register.antt =====
-- `znd_media_register` and `znd_media_exit` (xztl/src/ztl-media.c). Opening and closing a device are
-- parameters; an outer `none` is what the options leave undefined.
pub mod Handles
use x_ztl.Common.{
  ℕ, ◌%◌, ◌^◌, Bool, true, false, ◌==◌, if◌then◌else◌, List, Option, none, some, ◌>>=◌,
}
use x_ztl.Consts.{xztl_ok}
use x_ztl.Media.{Mgeo, Media, media_set}
use x_ztl.Media.Options.{
  OptInfo, XnvmeOpts, no_options, opt_parse, opt_assign, is_blk_thrpool, read_ctx_num, io_depth,
  znd_media_nodevice,
}

abbrev pub znd_media_nogeo : ℕ
znd_media_nogeo = 0x2

-- `struct xnvme_geo`, as far as it is read.
pub record DevGeo : Type 0 where
  pub npugrp : ℕ
  pub npunit : ℕ
  pub nzone : ℕ
  pub nsect : ℕ
  pub nbytes : ℕ
  pub nbytes_oob : ℕ

-- The devices of the machine: a handle is a number, and a null pointer `none`.
pub record Devices (W : Type 0) : Type 0 where
  pub opts_default : XnvmeOpts
  pub dev_open : W → List ℕ → XnvmeOpts → Option ℕ × W
  pub dev_close : W → ℕ → W
  pub dev_get_geo : W → ℕ → Option DevGeo

-- struct znd_media
pub record ZndMedia : Type 0 where
  pub dev : Option ℕ
  pub dev_read : Option ℕ
  pub devgeo : Option DevGeo
  pub media : Media
  pub read_ctxs : ℕ
  pub depth : ℕ

-- The fields that the media takes from the device, over those that its check fills.
unfoldable pub device_geometry : DevGeo → Mgeo → Mgeo
device_geometry d g = record g {
  ngrps = d.npugrp % 2 ^ 32;
  pu_grp = d.npunit % 2 ^ 32;
  zn_pu = d.nzone % 2 ^ 32;
  sec_zn = d.nsect % 2 ^ 32;
  nbytes = d.nbytes % 2 ^ 32;
  nbytes_oob = d.nbytes_oob % 2 ^ 32;
}

-- All functions of the media are set.
unfoldable pub with_fns : DevGeo → Media → Media
unfolding device_geometry
with_fns d m = record {
  geo = device_geometry d m.geo;
  init_fn = true;
  exit_fn = true;
  submit_io = true;
  zone_fn = true;
  dma_alloc = true;
  dma_free = true;
  cmd_exec = true;
}

-- The state that a registration changes: `zndmedia`, `core.media` and the devices.
pub record Registry (W : Type 0) : Type 0 where
  pub zndmedia : ZndMedia
  pub core : Option Media
  pub devices : W

module _ {W : Type 0} (x : Devices W) (cpu_num : ℕ) (allocated : Bool) where
  -- From the geometry of the opened device on.
  unfoldable pub register_media : OptInfo → ℕ → Option ℕ → DevGeo → Registry W → ℕ × Registry W
  unfolding with_fns
  register_media info dev dev_read devgeo s =
      let (ret, core, media) = media_set allocated s.core (with_fns devgeo s.zndmedia.media) in
      (
        ret,
        record s {
          core = core;
          zndmedia = record {
            dev = some dev;
            dev_read = dev_read;
            devgeo = some devgeo;
            media = media;
            read_ctxs = read_ctx_num info.opt_async cpu_num;
            depth = io_depth info.opt_async;
          };
        },
      )

  -- From the two handles on: without a geometry only `dev` is closed.
  unfoldable pub register_geo : OptInfo → ℕ → Option ℕ → Registry W → ℕ × Registry W
  unfolding register_media
  register_geo info dev dev_read s = elim (x.dev_get_geo s.devices dev) [
    | none ↦ (znd_media_nogeo, record s { devices = x.dev_close s.devices dev })
    | some devgeo ↦ register_media info dev dev_read devgeo s
  ]

  -- The second handle, of a block device with the thread pool.
  unfoldable pub register_read : OptInfo → XnvmeOpts → ℕ → Registry W → ℕ × Registry W
  unfolding register_geo
  register_read info opts_read dev s =
      let (opened, devices) = x.dev_open s.devices info.opt_dev_name opts_read in
      let second : ℕ × Registry W = elim opened [
        | none ↦ (znd_media_nodevice, record s { devices = devices })
        | some dev_read ↦ register_geo info dev (some dev_read) (record s { devices = devices })
      ] in
      if is_blk_thrpool info then second else register_geo info dev none s

  -- `znd_media_register`
  unfoldable pub media_register : Registry W → List ℕ → Option (ℕ × Registry W)
  unfolding register_read
  media_register s name = do
    (ret, info) ← opt_parse name no_options
    let (opts, opts_read) = opt_assign x.opts_default x.opts_default info
    let (opened, devices) = x.dev_open s.devices info.opt_dev_name opts
    let first : ℕ × Registry W = elim opened [
      | none ↦ (znd_media_nodevice, record s { devices = devices })
      | some dev ↦ register_read info opts_read dev (record s { devices = devices })
    ]
    some (if ret == 0 then first else (ret, s))

module _ {W : Type 0} (x : Devices W) where
  unfoldable pub close_some : W → Option ℕ → W
  close_some w none = w
  close_some w (some h) = x.dev_close w h

  -- `znd_media_exit`
  unfoldable pub media_exit : Registry W → ℕ × Registry W
  unfolding close_some
  media_exit s =
      let w = close_some s.devices s.zndmedia.dev in
      (xztl_ok, record s { devices = close_some w s.zndmedia.dev_read })
