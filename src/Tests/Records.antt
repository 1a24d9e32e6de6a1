-- ===== src/Tests/Records.antt =====
-- The theorems on the files' records and on the migration of pieces, at one file.
use x_ztl.Common.{
  ℕ, ◌+◌, ◌-◌, ◌*◌, ◌≡◌, refl, ap, true, false, List, [], ◌∷◌, ◌++◌, none, some, arith, length,
}
use x_ztl.Common.Int.{pos, negsuc}
use x_ztl.Addr.{ZrocksMap}
use x_ztl.Env.{ZnsFile, piece_size, piece_start}
use x_ztl.Env.Files.{EnvState, deref, find, name_eq}
use x_ztl.Env.Meta.{write_meta_to_buf}
use x_ztl.Env.Meta.RoundTrip.{IsRecordable, get_file_meta-write_meta_to_buf}
use x_ztl.Env.Load.{get_file_meta}
use x_ztl.Env.Load.Replay.{update_record, load_bytes, load_bytes-update_record}
use x_ztl.Env.Names.{zns, is_file_posix, begins_with, rename_file}
use x_ztl.Env.Names.Renames.{Renamed, rename_file-Renamed}
use x_ztl.Env.Gc.{Migration, copy_pieces}
use x_ztl.Env.Gc.Migrate.{CopiedResult, copy_pieces-Copied}
use x_ztl.Tests.Memory.{Memory, memory, memory_store, memory-ReadsCells, cells, IsWritten, nth}

abbrev whole : ZrocksMap
whole = record { node_id = 0; start = 0; num = 1; padding = 0 }

abbrev last : ZrocksMap
last = record { node_id = 3; start = 9; num = 2; padding = 100 }

-- A file of two pieces, of which the first is recorded.
abbrev file : ZnsFile
file = record {
  name = 97 ∷ 98 ∷ [];
  size = 98204;
  uuididx = 0;
  level = pos 1;
  pieces = whole ∷ last ∷ [];
  start_index = 1;
  wcache = none;
  is_writing = false;
  current_nid = pos 3;
}

file-IsRecordable : IsRecordable file
file-IsRecordable = record {
  short_name = omega arith;
  c_name = (ground arith, (ground arith, tt));
  size_fits = omega arith;
  level_fits = omega arith;
  few_pieces = omega arith;
  fields_fit = (
    (omega arith, omega arith, omega arith, omega arith),
    ((omega arith, omega arith, omega arith, omega arith), tt),
  );
}

get_file_meta-write_meta_to_buf_example :
    (bytes : List ℕ) × (write_meta_to_buf file true ≡ some (bytes, record file { start_index = 2 }))
    × (get_file_meta (bytes ++ (5 ∷ []))
        ≡ some (
          record { level = pos 1; size = 98204; name = 97 ∷ 98 ∷ []; pieces = last ∷ [] },
          5 ∷ [],
        ))
    × (length bytes ≡ 152 + 8 * (2 - 1))
get_file_meta-write_meta_to_buf_example =
    get_file_meta-write_meta_to_buf file true (5 ∷ []) file-IsRecordable (omega arith)

abbrev filled : Memory
filled = record { next = 1; byte_at = λ i. i; lost = false }

-- The object as it was recorded before.
abbrev recorded : ZnsFile
recorded = record file {
  pieces = whole ∷ [];
  size = 32768;
  start_index = 0;
  current_nid = negsuc 0;
}

abbrev loading : EnvState Memory
loading = record {
  heap = some recorded ∷ [];
  files = (97 ∷ 98 ∷ [], some 0) ∷ [];
  nid_file_map = [];
  sequence = 1;
  uuididx = 0;
  dev = filled;
}

load_bytes-update_record_example :
    (bytes : List ℕ) × (t : EnvState Memory) × (update_record file ≡ some bytes)
    × (load_bytes memory loading bytes ≡ some t)
    × (deref t.heap 0 ≡ some (record recorded { size = 98204; pieces = whole ∷ last ∷ [] }))
unfolding find name_eq deref
load_bytes-update_record_example =
    load_bytes-update_record memory file recorded loading 0 file-IsRecordable (omega arith)
      (omega arith) refl refl refl

abbrev begun : Migration Memory
begun = record { dev = filled; nid_file_map = []; cnid = pos 0; maps = []; map_change = [] }

copy_pieces-Copied_example :
    CopiedResult memory cells IsWritten memory_store memory-ReadsCells filled
      (whole ∷ [])
      (copy_pieces memory 0 (pos 1) (97 ∷ 98 ∷ []) (whole ∷ []) begun)
unfolding piece_size piece_start
copy_pieces-Copied_example =
    copy_pieces-Copied memory cells IsWritten memory_store memory-ReadsCells 0 (pos 1)
      (97 ∷ 98 ∷ []) (whole ∷ []) begun (omega arith, tt) (λ here. (refl, omega arith), tt)

rename_file-Renamed_example :
    (t : EnvState Memory) × (rename_file memory (λ n. n) loading (97 ∷ 98 ∷ []) (99 ∷ 100 ∷ [])
      ≡ some (zns tt, t))
    × Renamed cells IsWritten loading t (97 ∷ 98 ∷ []) (99 ∷ 100 ∷ []) 0 recorded
unfolding is_file_posix begins_with find name_eq deref
rename_file-Renamed_example =
    rename_file-Renamed memory (λ n. n) cells IsWritten memory_store loading (97 ∷ 98 ∷ [])
      (99 ∷ 100 ∷ []) 0 recorded refl refl refl
      (λ e. let head : ◌≡◌ {A = ℕ} 97 99 = ap (λ l. nth l 0) e in absurd (omega (arith, head)))
      (omega arith) (omega arith) ((recorded, refl, omega arith), tt)
