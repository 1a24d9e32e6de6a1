-- ===== src/Tests/Devices.antt =====
-- The theorems on the media layer, at one device.
use x_ztl.Common.{
  ℕ, ◌+◌, ◌*◌, ◌<◌, ◌≤◌, ◌≡◌, ◌⊎◌, refl, true, false, List, [], ◌∷◌, Option, none, some, length,
  arith,
}
use x_ztl.Consts.{xztl_ok}
use x_ztl.Addr.{Maddr}
use x_ztl.Media.{Mgeo, Media, missing_fn, media_set}
use x_ztl.Media.Geometry.{IsWithin, IsExact, media_set-IsExact}
use x_ztl.Media.Commands.{IoMcmd, Xnvme, submit_io, manage_lba}
use x_ztl.Media.Contexts.{IsQueue, Balanced, held, submit_io-Balanced}
use x_ztl.Media.Zones.{manage_lba_apart}

-- 904 zones of 2 GB.
abbrev pub drive : Mgeo
drive = record {
  ngrps = 1;
  pu_grp = 1;
  zn_pu = 904;
  sec_zn = 524288;
  nbytes = 4096;
  nbytes_oob = 0;
  zn_dev = 0;
  zn_grp = 0;
  sec_dev = 0;
  sec_grp = 0;
  sec_pu = 0;
  nbytes_zn = 0;
  nbytes_grp = 0;
  oob_grp = 0;
  oob_pu = 0;
  oob_zn = 0;
}

abbrev pub drive_media : Media
drive_media = record {
  geo = drive;
  init_fn = true;
  exit_fn = true;
  submit_io = true;
  zone_fn = true;
  dma_alloc = true;
  dma_free = true;
  cmd_exec = true;
}

drive-IsWithin : IsWithin drive
drive-IsWithin = omega arith

media_set-IsExact_example :
    (t : Media) × (media_set true none drive_media ≡ (xztl_ok, some t, t)) × IsExact t.geo
unfolding missing_fn
media_set-IsExact_example =
    media_set-IsExact none drive_media refl drive-IsWithin (omega arith) (omega arith) (omega arith)

abbrev zone_at : ℕ → Maddr
zone_at z = record { grp = 0; punit = 0; zone = z; sect = 0 }

manage_lba_apart_example :
    (manage_lba 904 524288 (zone_at 3) + 524288 ≤ 904 * 1 * 1 * 524288)
    × (((◌≡◌ {A = ℕ} 0 0) × (◌≡◌ {A = ℕ} 0 0) × (◌≡◌ {A = ℕ} 3 7))
        ⊎ ((manage_lba 904 524288 (zone_at 3) + 524288 ≤ manage_lba 904 524288 (zone_at 7))
            ⊎ (manage_lba 904 524288 (zone_at 7) + 524288 ≤ manage_lba 904 524288 (zone_at 3))))
manage_lba_apart_example =
    manage_lba_apart 1 1 904 524288 (zone_at 3) (zone_at 7) refl (omega arith) (omega arith)
      (record { grp_in = omega arith; punit_in = omega arith; zone_in = omega arith })
      (record { grp_in = omega arith; punit_in = omega arith; zone_in = omega arith })

-- A queue as the list of its free contexts.
abbrev take_ctx : List ℕ → ℕ → Option ℕ × List ℕ
take_ctx [] q = (none, [])
take_ctx (c ∷ cs) q = (some c, cs)

abbrev contexts : Xnvme (List ℕ)
contexts = record {
  get_cmd_ctx = take_ctx;
  put_cmd_ctx = λ w q c. c ∷ w;
  nvm_read = λ w c d slba nlb buf. (0, w);
  nvm_write = λ w c d slba nlb buf. (0, w);
  znd_append = λ w c zlba nlb buf. (0, w);
  znd_mgmt_send = λ w lba all op. (0, 0, w);
  znd_report_from_dev = λ w. (none, w);
}

contexts_get :
    (w : List ℕ)
    → 0 < length w
    → (c : ℕ) × (u : List ℕ) × (take_ctx w 0 ≡ (some c, u)) × (length w ≡ length u + 1)
contexts_get [] h = absurd (omega (arith, h))
contexts_get (c ∷ cs) h = (c, cs, refl, omega arith)

contexts-IsQueue : IsQueue contexts 0 (λ w. length w)
contexts-IsQueue = record {
  gets = contexts_get;
  puts = λ w c. omega arith;
  reads = λ w c d slba nlb buf. refl;
  writes = λ w c d slba nlb buf. refl;
  appends = λ w c zlba nlb buf. refl;
}

abbrev write_cmd : IoMcmd
write_cmd = record {
  opcode = 1;
  synch = false;
  status = 0;
  nsec = 8;
  addr = record { grp = 0; punit = 0; zone = 3; sect = 1572864 };
  prp = 4096;
  paddr = 0;
  async_ctx = 0;
  media_ctx = some 9;
}

submit_io-Balanced_example :
    Balanced contexts false 0
      (λ w. length w)
      contexts-IsQueue
      (7 ∷ 8 ∷ [])
      write_cmd
      (held write_cmd)
      (submit_io contexts false 904 524288 (7 ∷ 8 ∷ []) write_cmd)
submit_io-Balanced_example =
    submit_io-Balanced contexts false 0 (λ w. length w) contexts-IsQueue 904 524288 (7 ∷ 8 ∷ [])
      write_cmd refl (omega arith)
