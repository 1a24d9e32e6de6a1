-- ===== src/Tests/Appends.antt =====
-- The theorems on writable files, at a file that is open with two bytes in its cache.
use x_ztl.Common.{◌+◌, ◌≤◌, ◌≡◌, refl, true, false, [], ◌∷◌, some, arith, inl}
use x_ztl.Common.Int.{pos, negsuc}
use x_ztl.Env.{ZnsFile, Status, ok}
use x_ztl.Env.Files.{EnvState, deref, add_name}
use x_ztl.Env.Meta.{flush_update_meta_data}
use x_ztl.Env.Read.{rand_read}
use x_ztl.Env.Read.Slice.{flushed, Outcome}
use x_ztl.Env.Write.{
  WritableFile, other_node, push_maps, reset_cache, fill_cache, grow, sync_maps, sync, append_end,
  append,
}
use x_ztl.Env.Write.Contents.{Holds, sync-Holds}
use x_ztl.Env.Write.Results.{Appended, append-Appended, append-fits, rand_read-append}
use x_ztl.Tests.Memory.{
  Memory, memory, memory_map, memory_store, memory_sound, memory-ReadsCells, written_memory, cells,
  IsWritten,
}

abbrev empty : Memory
empty = record { next = 0; byte_at = λ i. 0; lost = false }

-- The update record that a first piece needs was written before, so that a sync has none to write.
abbrev begun : ZnsFile
begun = record {
  name = 97 ∷ [];
  size = 2;
  uuididx = 0;
  level = pos 1;
  pieces = [];
  start_index = 1;
  wcache = some (1 ∷ 2 ∷ []);
  is_writing = true;
  current_nid = negsuc 0;
}

abbrev opened : EnvState Memory
opened = record {
  heap = some begun ∷ [];
  files = (97 ∷ [], some 0) ∷ [];
  nid_file_map = [];
  sequence = 0;
  uuididx = 1;
  dev = empty;
}

abbrev handle : WritableFile
handle = record { filename = 97 ∷ []; znsfile = 0; filesize = 2 }

opened_holds : Holds memory cells IsWritten memory_store opened 0 2 (1 ∷ 2 ∷ [])
unfolding deref flushed
opened_holds = record {
  file = begun;
  cache = 1 ∷ 2 ∷ [];
  at = refl;
  opened = refl;
  live = λ k. tt;
  size_is = refl;
  bytes_are = λ k. refl;
}

abbrev longer : ZnsFile
longer = record begun { size = 4; wcache = some (1 ∷ 2 ∷ 3 ∷ 4 ∷ []) }

abbrev appended : EnvState Memory
appended = record opened { heap = some longer ∷ [] }

append_runs :
    append memory handle (3 ∷ 4 ∷ []) opened
    ≡ some (ok tt, record handle { filesize = 4 }, appended)
unfolding append append_end fill_cache grow deref
append_runs = refl

append-Appended_example :
    Appended memory cells IsWritten memory_store handle (3 ∷ 4 ∷ []) 2 (1 ∷ 2 ∷ []) (ok tt) appended
append-Appended_example =
    append-Appended memory cells IsWritten memory_store handle (3 ∷ 4 ∷ []) 2 (1 ∷ 2 ∷ []) opened
      (ok tt) (record handle { filesize = 4 }) appended opened_holds append_runs

append-fits_example :
    (w' : WritableFile) × (t : EnvState Memory) × (append memory handle (3 ∷ 4 ∷ []) opened
      ≡ some (ok tt, w', t))
    × (t.dev ≡ empty)
    × (w'.filesize ≡ 4)
    × Holds memory cells IsWritten memory_store t 0 4 (1 ∷ 2 ∷ 3 ∷ 4 ∷ [])
unfolding opened_holds
append-fits_example =
    append-fits memory cells IsWritten memory_store handle (3 ∷ 4 ∷ []) 2 (1 ∷ 2 ∷ []) opened
      opened_holds fits
  where
    fits : 2 + 2 ≤ 33554432
    fits = omega arith

rand_read-append_example :
    Outcome memory empty (rand_read memory empty longer 1 2) (some (ok (some (2 ∷ 3 ∷ []))))
unfolding deref flushed
rand_read-append_example =
    rand_read-append memory cells IsWritten memory_store handle (3 ∷ 4 ∷ []) (1 ∷ 2 ∷ []) opened
      (record handle { filesize = 4 }) appended longer 1 2 opened_holds (omega arith) append_runs
      (memory_sound empty refl) (memory-ReadsCells empty) refl (omega arith) (omega arith)
      (inl (omega arith))

abbrev flushed_file : ZnsFile
flushed_file = record begun {
  pieces = memory_map empty (1 ∷ 2 ∷ []) ∷ [];
  wcache = some [];
  current_nid = pos 0;
}

abbrev synced : EnvState Memory
synced = record opened {
  heap = some flushed_file ∷ [];
  nid_file_map = (0, (97 ∷ []) ∷ []) ∷ [];
  dev = written_memory empty (1 ∷ 2 ∷ []);
}

sync_runs : sync memory (97 ∷ []) 0 opened ≡ some (ok tt, synced)
unfolding sync sync_maps push_maps other_node add_name flush_update_meta_data reset_cache deref
sync_runs = refl

sync-Holds_example :
    (h : Holds memory cells IsWritten memory_store synced 0 2 (1 ∷ 2 ∷ [])) × (◌≡◌
        {A = Status (Unit {0})}
        (ok tt)
        (ok tt)
      → memory_store.IsSound (written_memory empty (1 ∷ 2 ∷ []))
      → flushed (cells (written_memory empty (1 ∷ 2 ∷ []))) h.file.pieces ≡ 1 ∷ 2 ∷ [])
sync-Holds_example =
    sync-Holds memory cells IsWritten memory_store (97 ∷ []) 0 2 (1 ∷ 2 ∷ []) opened opened_holds
      sync_runs
