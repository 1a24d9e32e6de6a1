-- ===== src/Metadata.antt =====
-- The file metadata zones: xztl/src/ztl-metadata.c, for a device with sectors of 4096 bytes.
-- The media's write and read of sectors are parameters: from the state of the device, the sector, the
-- number of sectors and the place in the buffer, they give whether the command failed and the next state.
pub mod Writes
use x_ztl.Common.{
  ℕ, zero, suc, ◌+◌, ◌-◌, ◌*◌, ◌/◌, ◌%◌, ◌^◌, Bool, true, false, ◌==◌, ltb, leb, if◌then◌else◌,
  List, [], ◌∷◌, Option, none, some, ◌>>=◌, get_elem?, set, length,
}
use x_ztl.Consts.{
  zns_alignment, xztl_ok, xztl_ztl_md_read_err, xztl_ztl_md_write_err, xztl_ztl_md_write_full,
}

-- META_READ_MAX_RETRY and META_WRITE_MAX_RETRY, MAX_READ_NLB_NUM, MAX_WRITE_NLB_NUM
abbrev pub meta_read_max_retry : ℕ
meta_read_max_retry = 3

abbrev pub meta_write_max_retry : ℕ
meta_write_max_retry = 3

abbrev pub max_read_nlb_num : ℕ
max_read_nlb_num = 128

abbrev pub max_write_nlb_num : ℕ
max_write_nlb_num = 64

-- A metadata zone: its first sector, its capacity and its write pointer.
pub record MetaZone : Type 0 where
  pub sect : ℕ
  pub capacity : ℕ
  pub wptr : ℕ

-- struct ztl_metadata
pub record Metadata : Type 0 where
  pub zones : List MetaZone
  pub curr_zone_index : ℕ

-- `get_curr_metadata_zone`: the first zone that has room, or else zone 0.
unfoldable pub curr_zone : List MetaZone → ℕ → ℕ
curr_zone [] i = 0
curr_zone (z ∷ zs) i = if ltb z.wptr (z.sect + z.capacity) then i else curr_zone zs (i + 1)

-- `zrocks_switch_zone`: the first zone that does not begin at `slbas` is reset, and written next.
-- `mgmt_send` is the reset of the zone at a sector (`xnvme_znd_mgmt_send` in `zrocks_reset_file_md`): whether
-- it failed, which nobody asks, and the next state.
unfoldable pub other_zone : List MetaZone → ℕ → ℕ → Option ℕ
other_zone [] slbas i = none
other_zone (z ∷ zs) slbas i = if z.sect == slbas then other_zone zs slbas (i + 1) else some i

unfoldable pub switch_zone : {W : Type 0} → (W → ℕ → Bool × W) → W → Metadata → ℕ → W × Metadata
unfolding other_zone
switch_zone mgmt_send w md slbas = elim (other_zone md.zones slbas 0) [
  | none ↦ (w, md)
  | some i ↦ elim (get_elem? md.zones i) [
    | none ↦ (w, md)
    | some z ↦ (
      (mgmt_send w z.sect).1,
      record { zones = set md.zones i (record z { wptr = z.sect }); curr_zone_index = i },
    )
  ]
]

-- A command of `zrocks_write_file_metadata` or `zrocks_read_metadata`, tried again up to the limit:
-- `tries` are those left.
module _ {W : Type 0} (command : W → ℕ → ℕ → ℕ → Bool × W) where
  unfoldable pub meta_attempts : ℕ → W → ℕ → ℕ → ℕ → Bool × W
  meta_attempts zero w slba nlb off = (true, w)
  meta_attempts (suc tries) w slba nlb off =
      let (failed, w') = command w slba nlb off in
      let again = meta_attempts tries w' slba nlb off in if failed then again else (false, w')

  -- `while (remain_len > 0)` of the write: whether it failed, the write pointer and the device. Each
  -- round takes at least one sector where the length is a number of sectors.
  unfoldable pub meta_write_loop : ℕ → W → ℕ → ℕ → ℕ → Option (Bool × ℕ × W)
  unfolding meta_attempts
  meta_write_loop zero w wptr off remain = none
  meta_write_loop (suc fuel) w wptr off remain =
      let max_len = max_write_nlb_num * zns_alignment in
      let write_len : ℕ = (if ltb max_len remain then max_len else remain) in
      let nlb = write_len / zns_alignment in
      let (failed, w') = meta_attempts meta_write_max_retry w wptr nlb off in
      let rest = meta_write_loop fuel w' (wptr + nlb) (off + write_len) (remain - write_len) in
      if remain == 0 then some (false, wptr, w) else if failed then some (true, wptr, w') else rest

  -- `zrocks_write_file_metadata`
  unfoldable pub write_file_metadata :
      (W → ℕ → Bool × W) → W → Metadata → ℕ → Option (ℕ × W × Metadata)
  unfolding meta_write_loop switch_zone
  write_file_metadata mgmt_send w md len = do
    z ← get_elem? md.zones md.curr_zone_index
    let go = (do
      (failed, wptr, w') ← meta_write_loop (len / zns_alignment + 2) w z.wptr 0 len
      let md' : Metadata = record md {
        zones = set md.zones md.curr_zone_index (record z { wptr = wptr });
      }
      some (if failed then xztl_ztl_md_write_err else xztl_ok, w', md'))
    let (switched, next) = switch_zone mgmt_send w md z.sect
    if leb (z.sect + z.capacity) (z.wptr + len / zns_alignment)
        then some (xztl_ztl_md_write_full, switched, next)
        else go

  -- `while (left_nlb > 0)` of the read, and `zrocks_read_metadata`; the number of sectors is on 16 bits.
  unfoldable pub meta_read_loop : ℕ → W → ℕ → ℕ → ℕ → Option (ℕ × W)
  unfolding meta_attempts
  meta_read_loop zero w slba off left = none
  meta_read_loop (suc fuel) w slba off left =
      let nlb : ℕ = (if ltb max_read_nlb_num left then max_read_nlb_num else left) in
      let (failed, w') = meta_attempts meta_read_max_retry w slba nlb off in
      let rest = meta_read_loop fuel w' (slba + nlb) (off + nlb * zns_alignment) (left - nlb) in
      if left == 0
      then some (xztl_ok, w)
      else if failed
      then some (xztl_ztl_md_read_err, w')
      else rest

  unfoldable pub read_metadata : W → ℕ → ℕ → Option (ℕ × W)
  unfolding meta_read_loop
  read_metadata w slba len =
      let nlb = len / zns_alignment % 2 ^ 16 in meta_read_loop (nlb + 1) w slba 0 nlb
