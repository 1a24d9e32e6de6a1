-- ===== src/Tests/Options.antt =====
-- The theorems on the options of a device and its registration.
use x_ztl.Common.{ℕ, ◌+◌, ◌-◌, ◌≡◌, refl, true, false, ◌==◌, if◌then◌else◌, ◌++◌, none, some, arith}
use x_ztl.Common.Int.{pos}
use x_ztl.Consts.{xztl_ok}
use x_ztl.Media.{media_check, media_set}
use x_ztl.Media.Options.{OptInfo, no_options, text, opt_assign, opt_parse, path_type}
use x_ztl.Media.Register.{
  DevGeo, Devices, Registry, register_media, register_geo, register_read, media_register,
  media_exit,
}
use x_ztl.Media.Register.Handles.{count, Counts, media_exit-media_register}
use x_ztl.Media.Options.Scan.{NoneOf-of-none_of, is_mark}
use x_ztl.Media.Options.Parsed.{opt_parse-path}
use x_ztl.Media.Options.Known.{IsKnown, opt_parse-IsKnown}
use x_ztl.Tests.Devices.{drive_media}

abbrev drive_geo : DevGeo
drive_geo = record {
  npugrp = 1;
  npunit = 1;
  nzone = 904;
  nsect = 524288;
  nbytes = 4096;
  nbytes_oob = 0;
}

opt_parse-path_example :
    (opt_parse (text "/dev/ng0n1") no_options
      ≡ some (
        xztl_ok,
        record {
          opt_dev_type = 2;
          opt_dev_name = text "/dev/ng0n1";
          opt_async = 1;
          opt_nsid = pos 0;
        },
      ))
    × (opt_parse (text "/dev/ng0n1" ++ (text "?be:" ++ text "io_uring")) no_options
        ≡ some (
          xztl_ok,
          record {
            opt_dev_type = 2;
            opt_dev_name = text "/dev/ng0n1";
            opt_async = 3;
            opt_nsid = pos 0;
          },
        ))
unfolding path_type
opt_parse-path_example =
    opt_parse-path (text "/dev/ng0n1") 2 2 (text "io_uring")
      (NoneOf-of-none_of is_mark (text "/dev/ng0n1") refl) refl refl refl (omega arith)
      (omega arith)

abbrev char_options : OptInfo
char_options = record {
  opt_dev_type = 2;
  opt_dev_name = text "/dev/ng0n1";
  opt_async = 3;
  opt_nsid = pos 0;
}

opt_parse-IsKnown_example : IsKnown char_options
opt_parse-IsKnown_example =
    opt_parse-IsKnown (text "/dev/ng0n1" ++ (text "?be:" ++ text "io_uring"))
      opt_parse-path_example.1

-- The machine as the devices that are open, by their handles.
abbrev opens : (ℕ → ℕ) → ℕ → ℕ → ℕ
opens w h j = w j + (if j == h then 1 else 0)

abbrev shuts : (ℕ → ℕ) → ℕ → ℕ → ℕ
shuts w h j = w j - (if j == h then 1 else 0)

-- How often each handle is open, and the next handle.
abbrev Opened : Type 0
Opened = (ℕ → ℕ) × ℕ

abbrev machine : Devices Opened
machine = record {
  opts_default = record {
    async = 0;
    direct = 0;
    be_spdk = false;
    nsid = pos 0;
    rdwr = 1;
    rdonly = 0;
    wronly = 0;
  };
  dev_open = λ w name o. (some w.1, (opens w.0 w.1, w.1 + 1));
  dev_close = λ w h. (shuts w.0 h, w.1);
  dev_get_geo = λ w h. some drive_geo;
}

machine-Counts : Counts machine (λ w. w.0)
unfolding count
machine-Counts = record { opens = λ w name o j. refl; closes = λ w h n e j. omega (arith, e j) }

abbrev unregistered : Registry Opened
unregistered = record {
  zndmedia = record {
    dev = none;
    dev_read = none;
    devgeo = none;
    media = drive_media;
    read_ctxs = 0;
    depth = 0;
  };
  core = none;
  devices = (λ j. 0, 4);
}

-- A block device with the thread pool, which is opened twice.
abbrev block_options : OptInfo
block_options = record {
  opt_dev_type = 1;
  opt_dev_name = text "/dev/nvme0n1";
  opt_async = 1;
  opt_nsid = pos 0;
}

abbrev opened_twice : Registry Opened
opened_twice =
    (register_media machine 16 true block_options 4 (some 5) drive_geo
      (record unregistered { devices = (opens (opens (λ j. 0) 4) 5, 6) })).1

block_parsed : opt_parse (text "/dev/nvme0n1") no_options ≡ some (xztl_ok, block_options)
unfolding path_type
block_parsed =
    (opt_parse-path (text "/dev/nvme0n1") 1 0 (text "thrpool")
      (NoneOf-of-none_of is_mark (text "/dev/nvme0n1") refl) refl refl refl (omega arith)
      (omega arith)).0

opened :
    media_register machine 16 true unregistered (text "/dev/nvme0n1") ≡ some (xztl_ok, opened_twice)
unfolding media_register register_read register_geo register_media media_set media_check opt_assign
opened = rw (media_register, block_parsed) refl

media_exit-media_register_example : (media_exit machine opened_twice).1.devices.0 4 ≡ 0
media_exit-media_register_example =
    media_exit-media_register machine 16 true (λ w. w.0) machine-Counts unregistered opened_twice
      (text "/dev/nvme0n1") opened 4
