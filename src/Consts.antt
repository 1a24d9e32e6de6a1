-- ===== src/Consts.antt =====
-- The constants of xztl/include: limits, geometry, status codes, flags and opcodes.
-- An `int` result is the number of its 32-bit pattern; 0 is success.
use x_ztl.Common.{ℕ, ◌+◌, ◌*◌, ◌/◌, ◌-◌, ◌^◌}

-- xztl.h
abbrev pub and64 : ℕ
and64 = 2 ^ 64 - 1

abbrev pub max_callback_err_cnt : ℕ
max_callback_err_cnt = 3

abbrev pub zns_alignment : ℕ
zns_alignment = 4096

abbrev pub zns_max_buf : ℕ
zns_max_buf = 32 * (zns_alignment * 256)

abbrev pub zone_size : ℕ
zone_size = 96 * 1024 * 1024

abbrev pub ztl_io_sec_mcmd : ℕ
ztl_io_sec_mcmd = 8

abbrev pub ztl_pro_zone_num_innode : ℕ
ztl_pro_zone_num_innode = 64

abbrev pub zrocks_level_num : ℕ
zrocks_level_num = 5

abbrev pub ztl_io_rc_num : ℕ
ztl_io_rc_num = zns_max_buf / (ztl_io_sec_mcmd * zns_alignment)

abbrev pub xztl_io_max_mcmd : ℕ
xztl_io_max_mcmd = 65536

abbrev pub xztl_wio_max_mcmd : ℕ
xztl_wio_max_mcmd = 1024

abbrev pub xztl_ctx_nvme_depth : ℕ
xztl_ctx_nvme_depth = 1024

abbrev pub xztl_ctx_nvme_libaio_depth : ℕ
xztl_ctx_nvme_libaio_depth = 512

abbrev pub xztl_read_rs_num : ℕ
xztl_read_rs_num = 256

abbrev pub app_magic_byte : ℕ
app_magic_byte = 0x3c

-- xztl-pro.h
abbrev pub ztl_pro_sec_num_inzone : ℕ
ztl_pro_sec_num_inzone = zone_size / 1024 / 4

abbrev pub ztl_pro_opt_sec_num_innode : ℕ
ztl_pro_opt_sec_num_innode = ztl_pro_zone_num_innode * ztl_pro_sec_num_inzone / ztl_io_sec_mcmd

abbrev pub app_pro_max_offs : ℕ
app_pro_max_offs = 128

-- xztl-mods.h, xztl-mempool.h and ztl-map.c
abbrev pub app_mod_count : ℕ
app_mod_count = 10

abbrev pub app_fn_slots : ℕ
app_fn_slots = 32

abbrev pub ztl_mpe_pg_sec : ℕ
ztl_mpe_pg_sec = 8

abbrev pub ztl_mpe_cpgs : ℕ
ztl_mpe_cpgs = 256

abbrev pub map_buf_pgs : ℕ
map_buf_pgs = 8192

abbrev pub xztlmp_threads : ℕ
xztlmp_threads = 64

abbrev pub xztlmp_types : ℕ
xztlmp_types = 5

abbrev pub xztlmp_max_ent : ℕ
xztlmp_max_ent = 65536 + 2

abbrev pub xztlmp_max_ent_sz : ℕ
xztlmp_max_ent_sz = 1024 * 1024

-- enum xztl_status
abbrev pub xztl_ok : ℕ
xztl_ok = 0x00

abbrev pub xztl_mem : ℕ
xztl_mem = 0x01

abbrev pub xztl_nomedia : ℕ
xztl_nomedia = 0x02

abbrev pub xztl_noinit : ℕ
xztl_noinit = 0x03

abbrev pub xztl_noexit : ℕ
xztl_noexit = 0x04

abbrev pub xztl_media_nogeo : ℕ
xztl_media_nogeo = 0x05

abbrev pub xztl_media_geo : ℕ
xztl_media_geo = 0x06

abbrev pub xztl_media_noio : ℕ
xztl_media_noio = 0x07

abbrev pub xztl_media_nozone : ℕ
xztl_media_nozone = 0x08

abbrev pub xztl_media_noalloc : ℕ
xztl_media_noalloc = 0x09

abbrev pub xztl_media_nofree : ℕ
xztl_media_nofree = 0x0a

abbrev pub xztl_mctx_mem_err : ℕ
xztl_mctx_mem_err = 0x0b

abbrev pub xztl_mctx_async_err : ℕ
xztl_mctx_async_err = 0x0c

abbrev pub xztl_mctx_mp_err : ℕ
xztl_mctx_mp_err = 0x0d

abbrev pub xztl_ztl_prov_err : ℕ
xztl_ztl_prov_err = 0x0e

abbrev pub xztl_ztl_group_err : ℕ
xztl_ztl_group_err = 0x0f

abbrev pub xztl_ztl_prov_grp_err : ℕ
xztl_ztl_prov_grp_err = 0x10

abbrev pub xztl_ztl_mod_err : ℕ
xztl_ztl_mod_err = 0x11

abbrev pub xztl_ztl_zmd_rep : ℕ
xztl_ztl_zmd_rep = 0x12

abbrev pub xztl_ztl_prov_full : ℕ
xztl_ztl_prov_full = 0x13

abbrev pub xztl_ztl_mpe_err : ℕ
xztl_ztl_mpe_err = 0x14

abbrev pub xztl_ztl_map_err : ℕ
xztl_ztl_map_err = 0x15

abbrev pub xztl_ztl_io_err : ℕ
xztl_ztl_io_err = 0x16

abbrev pub xztl_ztl_append_err : ℕ
xztl_ztl_append_err = 0x17

abbrev pub xztl_ztl_io_s_err : ℕ
xztl_ztl_io_s_err = 0x18

abbrev pub xztl_ztl_io_s2_err : ℕ
xztl_ztl_io_s2_err = 0x19

abbrev pub xztl_ztl_md_init_err : ℕ
xztl_ztl_md_init_err = 0x1a

abbrev pub xztl_ztl_md_read_err : ℕ
xztl_ztl_md_read_err = 0x1b

abbrev pub xztl_ztl_md_write_err : ℕ
xztl_ztl_md_write_err = 0x1c

abbrev pub xztl_ztl_md_write_full : ℕ
xztl_ztl_md_write_full = 0x1d

abbrev pub xztl_ztl_md_reset_err : ℕ
xztl_ztl_md_reset_err = 0x1e

abbrev pub xztl_ztl_stats_err : ℕ
xztl_ztl_stats_err = 0x1f

abbrev pub xztl_ztl_prometheus_err : ℕ
xztl_ztl_prometheus_err = 0x20

abbrev pub xztl_media_error : ℕ
xztl_media_error = 0x100

abbrev pub xztl_zrocks_init_err : ℕ
xztl_zrocks_init_err = 0x101

abbrev pub xztl_zrocks_write_err : ℕ
xztl_zrocks_write_err = 0x102

abbrev pub xztl_zrocks_read_err : ℕ
xztl_zrocks_read_err = 0x103

abbrev pub xztl_ztl_mgmt_err : ℕ
xztl_ztl_mgmt_err = 0x104

-- enum xztl_mp_status and enum xztl_zmd_flags
abbrev pub xztl_mp_outbounds : ℕ
xztl_mp_outbounds = 1

abbrev pub xztl_mp_invalid : ℕ
xztl_mp_invalid = 2

abbrev pub xztl_mp_active : ℕ
xztl_mp_active = 3

abbrev pub xztl_mp_memerror : ℕ
xztl_mp_memerror = 4

abbrev pub xztl_mp_asynch_err : ℕ
xztl_mp_asynch_err = 5
