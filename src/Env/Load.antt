-- ===== src/Env/Load.antt =====
-- The files from the records of their metadata: `RecoverFileFromBuf`, and the cases of `LoadMetaData`, in
-- env/env_zns.cc. `none` is a read past what was read from the device, a name without an end, a use of a
-- deleted file, or fuel that is used up.
pub mod Replay
pub mod Zones
use x_ztl.Common.{
  ℕ, zero, suc, ◌+◌, ◌-◌, ◌*◌, ◌/◌, ◌%◌, ◌^◌, Bool, true, false, ◌==◌, ltb, leb, if◌then◌else◌,
  List, [], ◌∷◌, ◌++◌, Option, none, some, ◌>>=◌, length, set,
}
use x_ztl.Common.Int.{ℤ, negsuc}
use x_ztl.Consts.{zns_alignment, zns_max_buf}
use x_ztl.Addr.{ZrocksMap, zrocks_map_fields}
use x_ztl.Env.{Name, Library, Status, ok, failed, io_error, memory_limit, ZnsFile, new_file}
use x_ztl.Env.Bytes.{get_le, get_bytes, c_str, int8_value}
use x_ztl.Env.Files.{FileMap, EnvState, deref, look_up, insert, erase, allocate, delete}
use x_ztl.Env.Meta.{
  file_metadata_buf_size, metadata_magic, metadata_head_size, file_name_len, op_base, op_update,
  op_replace, op_delete, op_gc_change, flush_meta_data,
}

-- What a record says of a file.
pub record FileMeta : Type 0 where
  pub level : ℤ
  pub size : ℕ
  pub name : Name
  pub pieces : List ZrocksMap

-- The maps of a record.
unfoldable pub get_pieces : ℕ → List ℕ → Option (List ZrocksMap × List ℕ)
get_pieces zero buf = some ([], buf)
get_pieces (suc n) buf = do
  (word, buf') ← get_le 8 buf
  (ms, rest) ← get_pieces n buf'
  some (zrocks_map_fields word ∷ ms, rest)

-- `pieceNum` is signed: the loop does not run where it is negative.
unfoldable pub piece_count : ℕ → ℕ
piece_count n = if ltb n (2 ^ 31) then n else 0

-- struct ZrocksFileMeta and the maps after it, and what follows.
unfoldable pub get_file_meta : List ℕ → Option (FileMeta × List ℕ)
unfolding get_pieces piece_count
get_file_meta buf = do
  (level, after_level) ← get_le 1 buf
  (padding, after_padding) ← get_bytes 7 after_level
  (size, after_size) ← get_le 8 after_padding
  (num, after_num) ← get_le 4 after_size
  (field, after_name) ← get_bytes file_name_len after_num
  (tail, after_tail) ← get_bytes 4 after_name
  name ← c_str field
  (pieces, rest) ← get_pieces (piece_count num) after_tail
  some (record { level = int8_value level; size = size; name = name; pieces = pieces }, rest)

-- The maps of a record are added to those of the file, or take their place.
unfoldable pub recovered : ZnsFile → FileMeta → Bool → ZnsFile
recovered f m replace = record f {
  size = m.size;
  level = m.level;
  pieces = (if replace then m.pieces else f.pieces ++ m.pieces);
}

-- struct MetadataHead: the length and the tag, and what follows.
unfoldable pub get_head : List ℕ → Option (ℕ × ℕ × List ℕ)
get_head buf = do
  (crc, after_crc) ← get_le 4 buf
  (data_length, after_length) ← get_le 4 after_crc
  (tag, after_tag) ← get_le 1 after_length
  (padding, body) ← get_bytes 3 after_tag
  some (data_length, tag, body)

module _ {W : Type 0} (lib : Library W) where
  -- `new ZNSFile(fileMetaData.filename, -1)`
  new_recovered : EnvState W → Name → ℕ × EnvState W
  unfolding allocate
  new_recovered s name =
      let (allocated, dev) = lib.zrocks_alloc s.dev zns_max_buf in
      let (p, heap) = allocate s.heap (new_file allocated name (negsuc 0)) in
      (p, record s { heap = heap; dev = dev })

  -- The object of the name in a record, made where the name has none.
  unfoldable pub recovered_object : EnvState W → Name → ℕ × EnvState W
  unfolding new_recovered look_up
  recovered_object s name =
      let (o, files) = look_up s.files name in
      let looked = record s { files = files } in
      elim o [ none ↦ new_recovered looked name | some p ↦ (p, looked) ]

  unfoldable pub recover : EnvState W → FileMeta → Bool → Option (EnvState W)
  unfolding recovered_object recovered
  recover s m replace = do
    let (p, t) = recovered_object s m.name
    f ← deref t.heap p
    let f' = recovered f m replace
    some (record t { heap = set t.heap p (some f'); files = insert t.files f'.name (some p) })

  -- `ZNSEnv::RecoverFileFromBuf`
  unfoldable pub recover_file_from_buf : EnvState W → List ℕ → Bool → Option (EnvState W × List ℕ)
  unfolding recover
  recover_file_from_buf s buf replace = do
    (m, rest) ← get_file_meta buf
    t ← recover s m replace
    some (t, rest)

  -- `ZNSEnv::ClearMetaData`
  delete_all : List (Option ZnsFile) → FileMap → Option (List (Option ZnsFile))
  delete_all heap [] = some heap
  delete_all heap ((n, o) ∷ fs) = do heap' ← delete heap o; delete_all heap' fs

  pub clear_meta_data : EnvState W → Option (EnvState W)
  unfolding delete_all
  clear_meta_data s = do
    heap ← delete_all s.heap s.files
    some (record s { heap = heap; files = [] })

  -- `ZNSEnv::SetNodesInfo`
  set_nodes : W → ℤ → List ZrocksMap → W
  set_nodes dev level [] = dev
  set_nodes dev level (m ∷ ms) = set_nodes (lib.zrocks_node_set dev m.node_id level m.num) level ms

  set_files : W → List (Option ZnsFile) → FileMap → Option W
  unfolding set_nodes
  set_files dev heap [] = some dev
  set_files dev heap ((n, none) ∷ fs) = set_files dev heap fs
  set_files dev heap ((n, some p) ∷ fs) = do
    f ← deref heap p
    set_files (set_nodes dev f.level f.pieces) heap fs

  pub set_nodes_info : EnvState W → Option (EnvState W)
  unfolding set_files
  set_nodes_info s = do dev ← set_files s.dev s.heap s.files; some (record s { dev = dev })

  -- The files of a base record. More of them than a `uint16_t` counts make the loop of the source
  -- endless.
  recover_files : ℕ → EnvState W → List ℕ → Option (EnvState W)
  unfolding recover_file_from_buf
  recover_files zero s buf = some s
  recover_files (suc n) s buf = do
    (t, rest) ← recover_file_from_buf s buf false
    recover_files n t rest

  load_base : EnvState W → List ℕ → Option (EnvState W)
  unfolding recover_files
  load_base s body = do
    (file_num, rest) ← get_le 4 body
    let all = recover_files file_num s rest
    if ltb file_num (2 ^ 16) then all else none

  -- A renamed file's object has the other name in the map alone.
  unfoldable pub load_replace : EnvState W → List ℕ → Option (EnvState W)
  unfolding look_up
  load_replace s body = do
    (field, rest) ← get_bytes file_name_len body
    src ← c_str body
    dst ← c_str rest
    let (o, files) = look_up s.files src
    some (record s { files = insert (erase files src) dst o })

  load_delete : EnvState W → List ℕ → Option (EnvState W)
  load_delete s body = do name ← c_str body; some (record s { files = erase s.files name })

  unfoldable pub load_file : EnvState W → List ℕ → Bool → Option (EnvState W)
  unfolding recover_file_from_buf
  load_file s body replace = do (t, rest) ← recover_file_from_buf s body replace; some t

  -- `switch (metadataHead->tag)`
  unfoldable pub load_record : EnvState W → ℕ → List ℕ → Option (EnvState W)
  unfolding load_base load_replace load_delete load_file
  load_record s tag body =
      if tag == op_base
      then load_base s body
      else if tag == op_update
      then load_file s body false
      else if tag == op_replace
      then load_replace s body
      else if tag == op_delete
      then load_delete s body
      else if tag == op_gc_change
      then load_file s body true
      else some s
