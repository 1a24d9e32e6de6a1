-- ===== src/Env/Meta.antt =====
-- The metadata that is written for the files: env/env_zns.cc. The padding bytes of the structures and
-- the rest of a zone's head are 0 here; in C they are not set, and nothing reads them. An outer `none`
-- is a write past a buffer or a use of a deleted file.
pub mod RoundTrip
use x_ztl.Common.{
  ℕ, zero, suc, ◌+◌, ◌-◌, ◌*◌, ◌/◌, ◌%◌, ◌^◌, Bool, true, false, ◌==◌, ltb, leb, if◌then◌else◌,
  List, [], ◌∷◌, ◌++◌, Option, none, some, ◌>>=◌, length, replicate, set, take, drop,
}
use x_ztl.Common.Int.{ℤ, pos}
use x_ztl.Consts.{zns_alignment}
use x_ztl.Data.{sub64}
use x_ztl.Addr.{ZrocksMap, zrocks_map_word}
use x_ztl.Env.{Name, Library, Status, ok, failed, memory_limit, ZnsFile}
use x_ztl.Env.Bytes.{le_bytes, int8_byte}
use x_ztl.Env.Files.{FileMap, EnvState, deref}

abbrev pub file_metadata_buf_size : ℕ
file_metadata_buf_size = 80 * 1024 * 1024

abbrev pub md_write_full : ℕ
md_write_full = 0x1d

abbrev pub metadata_magic : ℕ
metadata_magic = 0x3d

abbrev pub file_name_len : ℕ
file_name_len = 128

-- enum Operation
abbrev pub op_base : ℕ
op_base = 0

abbrev pub op_update : ℕ
op_update = 1

abbrev pub op_replace : ℕ
op_replace = 2

abbrev pub op_delete : ℕ
op_delete = 3

abbrev pub op_gc_change : ℕ
op_gc_change = 4

-- sizeof(MetadataHead), sizeof(ZrocksFileMeta)
abbrev pub metadata_head_size : ℕ
metadata_head_size = 12

abbrev pub file_meta_size : ℕ
file_meta_size = 152

-- A name in `char[FILE_NAME_LEN]`, over memory that is 0; a longer one is written past the array.
unfoldable pub name_bytes : Name → Option (List ℕ)
name_bytes name =
    if leb (length name) file_name_len
    then some (name ++ replicate (file_name_len - length name) 0)
    else none

-- struct ZrocksFileMeta
unfoldable pub file_meta_bytes : ℤ → ℕ → ℕ → List ℕ → List ℕ
file_meta_bytes level size piece_num name =
    (int8_byte level ∷ replicate 7 0)
    ++ (le_bytes 8 size ++ (le_bytes 4 piece_num ++ (name ++ replicate 4 0)))

unfoldable pub pieces_bytes : List ZrocksMap → List ℕ
pieces_bytes [] = []
pieces_bytes (m ∷ ms) = le_bytes 8 (zrocks_map_word m) ++ pieces_bytes ms

-- `ZNSFile::GetFileMetaLen`
pub get_file_meta_len : ZnsFile → ℕ
get_file_meta_len f = (file_meta_size + length f.pieces * 8) % 2 ^ 32

-- `ZNSFile::WriteMetaToBuf`: the bytes, and the file with its new `startIndex`.
unfoldable pub write_meta_to_buf : ZnsFile → Bool → Option (List ℕ × ZnsFile)
unfolding name_bytes file_meta_bytes pieces_bytes
write_meta_to_buf f update = do
  let i : ℕ = (if update then f.start_index else 0)
  let piece_num = sub64 (length f.pieces) i
  name ← name_bytes f.name
  some (
    file_meta_bytes f.level f.size piece_num name ++ pieces_bytes (drop i f.pieces),
    record f { start_index = length f.pieces % 2 ^ 32 },
  )

-- struct MetadataHead
unfoldable pub metadata_head : ℕ → ℕ → List ℕ
metadata_head tag data_length = le_bytes 4 0 ++ (le_bytes 4 data_length ++ (tag ∷ replicate 3 0))

-- `dataLen`, rounded up to a sector.
unfoldable pub sector_align : ℕ → ℕ
sector_align len =
    if len % zns_alignment == 0 then len else (len / zns_alignment + 1) * zns_alignment

-- A buffer of `ZNS_ALIGMENT` zeros with a record in it.
unfoldable pub record_bytes : ℕ → List ℕ → Option (List ℕ)
unfolding metadata_head sector_align
record_bytes tag body =
    let len = metadata_head_size + length body in
    let aligned = sector_align len in
    if leb len zns_alignment
    then some
        (metadata_head tag (aligned - metadata_head_size) ++ (body ++ replicate (aligned - len) 0))
    else none

-- Two names in fields of `FILE_NAME_LEN`: the second is copied over what a long first one left.
unfoldable pub replace_body : Name → Name → List ℕ
replace_body src dest =
    let memory = src ++ replicate (2 * file_name_len - length src) 0 in
    take file_name_len memory ++ (dest ++ drop (file_name_len + length dest) memory)

-- struct MetaZoneHead
unfoldable pub meta_zone_head : ℕ → List ℕ
meta_zone_head sequence =
    metadata_magic ∷ replicate 3 0 ++ (le_bytes 4 sequence ++ replicate (zns_alignment - 8) 0)

-- The loop of `FlushMetaData` over the files, in the order of their names.
unfoldable pub flush_files :
    FileMap
    → List (Option ZnsFile)
    → ℕ
    → ℕ
    → List ℕ
    → Option (Status (ℕ × List ℕ) × List (Option ZnsFile))
unfolding write_meta_to_buf get_file_meta_len
flush_files [] heap file_num data_len out = some (ok (file_num, out), heap)
flush_files ((n, none) ∷ fs) heap file_num data_len out = flush_files fs heap file_num data_len out
flush_files ((n, some p) ∷ fs) heap file_num data_len out = do
  f ← deref heap p
  (bytes, f') ← write_meta_to_buf f false
  let rest =
      flush_files fs (set heap p (some f')) (file_num + 1) (data_len + length bytes) (out ++ bytes)
  if leb file_metadata_buf_size (data_len + get_file_meta_len f)
      then some (failed memory_limit, heap)
      else rest

-- What `FlushMetaData` writes: the zone's head, the record's head, the number of files and the files.
unfoldable pub base_bytes : ℕ → ℕ → List ℕ → List ℕ
unfolding meta_zone_head metadata_head sector_align
base_bytes sequence file_num out =
    let len = zns_alignment + metadata_head_size + 4 + length out in
    let aligned = sector_align len in
    meta_zone_head sequence
    ++ (metadata_head op_base (aligned - metadata_head_size - zns_alignment)
        ++ (le_bytes 4 file_num ++ (out ++ replicate (aligned - len) 0)))

module _ {W : Type 0} (lib : Library W) where
  -- A write that is tried once more when the zone was full.
  unfoldable pub write_twice : W → List ℕ → W
  write_twice dev bytes =
      let (ret, dev') = lib.zrocks_write_file_metadata dev bytes in
      let again = lib.zrocks_write_file_metadata dev' bytes in
      if ret == md_write_full then again.1 else dev'

  -- `ZNSEnv::FlushMetaData`
  unfoldable pub flush_meta_data : EnvState W → Option (Status (Unit {0}) × EnvState W)
  unfolding flush_files base_bytes write_twice
  flush_meta_data s = do
    let next : ℕ = (s.sequence + 1) % 2 ^ 64
    (r, heap) ← flush_files s.files s.heap 0 (zns_alignment + metadata_head_size + 4) []
    elim r [
      | failed e ↦ some (failed e, record s { heap = heap; sequence = next })
      | ok (file_num, out) ↦ some (
        ok tt,
        record s {
          heap = heap;
          sequence = next;
          dev = write_twice s.dev (base_bytes s.sequence file_num out);
        },
      )
    ]

  -- The end of each `Flush…MetaData` of one record: a full zone has all files written instead. The
  -- status of that, like an error of the write, is dropped.
  unfoldable pub flush_record : EnvState W → List ℕ → Option (Status (Unit {0}) × EnvState W)
  unfolding flush_meta_data
  flush_record s bytes = do
    let (ret, dev) = lib.zrocks_write_file_metadata s.dev bytes
    let written = record s { dev = dev }
    let all = (do (_, t) ← flush_meta_data written; some (ok tt, t))
    if ret == md_write_full then all else some (ok tt, written)

  -- `zrocks_alloc(ZNS_ALIGMENT)`, and what follows when there is memory.
  unfoldable pub with_buffer :
      EnvState W
      → (EnvState W → Option (Status (Unit {0}) × EnvState W))
      → Option (Status (Unit {0}) × EnvState W)
  with_buffer s k =
      let (allocated, dev) = lib.zrocks_alloc s.dev zns_alignment in
      elim allocated [
        | true ↦ k (record s { dev = dev })
        | false ↦ some (failed memory_limit, record s { dev = dev })
      ]

  -- The record of one file.
  unfoldable pub flush_file : ℕ → Bool → ℕ → EnvState W → Option (Status (Unit {0}) × EnvState W)
  unfolding flush_record write_meta_to_buf record_bytes
  flush_file tag update p s = do
    f ← deref s.heap p
    (meta, f') ← write_meta_to_buf f update
    bytes ← record_bytes tag meta
    flush_record (record s { heap = set s.heap p (some f') }) bytes

  -- `ZNSEnv::FlushUpdateMetaData`
  unfoldable pub flush_update_meta_data : ℕ → EnvState W → Option (Status (Unit {0}) × EnvState W)
  unfolding with_buffer flush_file
  flush_update_meta_data p s = do
    f ← deref s.heap p
    let flush = with_buffer s (flush_file op_update true p)
    if f.start_index == length f.pieces then some (ok tt, s) else flush

  -- `ZNSEnv::FlushGCChangeMetaData`
  pub flush_gc_change_meta_data : ℕ → EnvState W → Option (Status (Unit {0}) × EnvState W)
  unfolding with_buffer flush_file
  flush_gc_change_meta_data p s = with_buffer s (flush_file op_gc_change false p)

  -- `ZNSEnv::FlushDelMetaData`
  pub flush_del_meta_data : Name → EnvState W → Option (Status (Unit {0}) × EnvState W)
  unfolding with_buffer flush_record record_bytes
  flush_del_meta_data name s = with_buffer s λ t. (do
    bytes ← record_bytes op_delete (name ++ replicate (file_name_len - length name) 0)
    flush_record t bytes)

  -- `ZNSEnv::FlushReplaceMetaData`
  unfoldable pub flush_replace_meta_data :
      Name → Name → EnvState W → Option (Status (Unit {0}) × EnvState W)
  unfolding with_buffer flush_record replace_body record_bytes
  flush_replace_meta_data src dest s =
      with_buffer s
        λ t. (do bytes ← record_bytes op_replace (replace_body src dest); flush_record t bytes)
