-- ===== src/Tests/Files.antt =====
-- The theorems on file metadata, at concrete values.
use x_ztl.Common.{
  ℕ, ◌+◌, ◌*◌, ◌<◌, ◌≡◌, refl, Bool, false, leb, if◌then◌else◌, List, [], ◌∷◌, none, some, arith,
}
use x_ztl.Consts.{xztl_ok, xztl_ztl_md_write_full}
use x_ztl.Metadata.{MetaZone, Metadata, write_file_metadata}
use x_ztl.Metadata.Writes.{
  Chunk, recorder, written_at, write_file_metadata-written_at, write_file_metadata-switch_zone,
}

-- A reset that takes away what was written from its sector on.
abbrev resets : List Chunk → ℕ → Bool × List Chunk
resets [] s = (false, [])
resets (c ∷ cs) s = (false, if leb s c.slba then (resets cs s).1 else c ∷ (resets cs s).1)

abbrev first : MetaZone
first = record { sect = 0; capacity = 1000; wptr = 300 }

abbrev second : MetaZone
second = record { sect = 1024; capacity = 1000; wptr = 1500 }

abbrev two : Metadata
two = record { zones = first ∷ second ∷ []; curr_zone_index = 0 }

write_file_metadata-written_at_example :
    (w' : List Chunk) × (write_file_metadata recorder resets [] two (200 * 4096)
      ≡ some (xztl_ok, w', record two { zones = (record first { wptr = 500 }) ∷ second ∷ [] }))
    × ((s : ℕ) → s < 300 → written_at w' s ≡ written_at [] s)
    × ((i : ℕ) → i < 200 → written_at w' (300 + i) ≡ some (i * 4096))
write_file_metadata-written_at_example =
    write_file_metadata-written_at resets [] two first 200 refl (omega arith)

write_file_metadata-switch_zone_example :
    (md : Metadata) × (write_file_metadata recorder resets [] two (900 * 4096)
      ≡ some (xztl_ztl_md_write_full, [], md))
    × (w' : List Chunk) × (write_file_metadata recorder resets [] md (200 * 4096)
        ≡ some (
          xztl_ok,
          w',
          record { zones = first ∷ (record second { wptr = 1224 }) ∷ []; curr_zone_index = 1 },
        ))
    × ((s : ℕ) → s < 1024 → written_at w' s ≡ none)
    × ((i : ℕ) → i < 200 → written_at w' (1024 + i) ≡ some (i * 4096))
write_file_metadata-switch_zone_example =
    write_file_metadata-switch_zone resets [] first second (900 * 4096) 200 (λ e. omega arith)
      (omega arith) (omega arith)
