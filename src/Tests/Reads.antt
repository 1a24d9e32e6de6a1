-- ===== src/Tests/Reads.antt =====
-- The theorems on reads, at a file of two pieces and a cache.
use x_ztl.Common.{◌≡◌, refl, true, false, [], ◌∷◌, none, some, arith, inr, gen}
use x_ztl.Common.Int.{pos}
use x_ztl.Addr.{ZrocksMap}
use x_ztl.Env.{ZnsFile, ok, cached_bytes, piece_size, piece_start}
use x_ztl.Env.Read.{clip, rand_read, seq_read_offset}
use x_ztl.Env.Read.Slice.{flushed, Outcome}
use x_ztl.Env.Read.Extent.{file_bytes, IsConsistent}
use x_ztl.Env.Read.Contents.{rand_read-file_bytes, rand_read-past, seq_read_offset-eq_rand_read}
use x_ztl.Tests.Memory.{Memory, memory, memory-ReadsCells, cells}

-- Byte `i` of the node is `i`.
abbrev numbered : Memory
numbered = record { next = 2; byte_at = λ i. i; lost = false }

abbrev two_bytes : ZrocksMap
two_bytes = record { node_id = 0; start = 0; num = 1; padding = 32766 }

abbrev three_bytes : ZrocksMap
three_bytes = record { node_id = 0; start = 1; num = 1; padding = 32765 }

abbrev with_cache : ZnsFile
with_cache = record {
  name = 97 ∷ [];
  size = 7;
  uuididx = 0;
  level = pos 1;
  pieces = two_bytes ∷ three_bytes ∷ [];
  start_index = 2;
  wcache = some (7 ∷ 8 ∷ []);
  is_writing = true;
  current_nid = pos 0;
}

with_cache-IsConsistent : IsConsistent (cells numbered) with_cache
unfolding file_bytes flushed piece_size piece_start cached_bytes gen
with_cache-IsConsistent = (refl, omega arith)

rand_read-file_bytes_example :
    Outcome memory numbered
      (rand_read memory numbered with_cache 1 3)
      (some (ok (some (1 ∷ 32768 ∷ 32769 ∷ []))))
unfolding file_bytes flushed piece_size piece_start cached_bytes gen clip
rand_read-file_bytes_example =
    rand_read-file_bytes memory numbered (cells numbered) (memory-ReadsCells numbered) with_cache 1
      3 with_cache-IsConsistent (omega arith) (omega arith) (inr (omega arith))

rand_read-past_example : Outcome memory numbered (rand_read memory numbered with_cache 3 4) none
unfolding file_bytes flushed piece_size piece_start cached_bytes gen clip
rand_read-past_example =
    rand_read-past memory numbered (cells numbered) (memory-ReadsCells numbered) with_cache 3 4
      with_cache-IsConsistent (omega arith) (omega arith) (omega arith)

seq_read_offset-eq_rand_read_example :
    seq_read_offset memory numbered with_cache 5 9 ≡ rand_read memory numbered with_cache 5 9
seq_read_offset-eq_rand_read_example =
    seq_read_offset-eq_rand_read memory numbered with_cache 5 9 (omega arith) (omega arith)
