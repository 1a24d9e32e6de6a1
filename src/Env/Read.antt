-- ===== src/Env/Read.antt =====
-- Sequential and random reads: env/env_zns_io.cc. The outer `none` is an index past the end of the map,
-- at which the vector throws, or a slice past the end of the write cache. `ok none` leaves the caller's
-- result as it is. The debugging output and the prefetching, which are compiled out, are left out.
pub mod Slice
pub mod Contents
pub mod Extent
pub mod Copies
use x_ztl.Common.{
  ℕ, zero, suc, ◌+◌, ◌-◌, ◌^◌, ◌%◌, Bool, true, false, ltb, leb, if◌then◌else◌, List, [], ◌∷◌, ◌++◌,
  Option, none, some, ◌>>=◌, length, take, drop,
}
use x_ztl.Data.{sub64}
use x_ztl.Addr.{ZrocksMap}
use x_ztl.Env.{
  Library, Status, ok, failed, io_error, ZnsFile, cached_bytes, piece_size, piece_start,
}

-- The search for the piece of `offset` in `ZNSRandomAccessFile::ReadOffset`: the offset in the piece, and
-- the pieces from it on.
unfoldable pub find_piece : List ZrocksMap → ℕ → ℕ → Option (ℕ × List ZrocksMap)
unfolding piece_size
find_piece [] off offset = none
find_piece (m ∷ ms) off offset =
    let next : ℕ = (off + piece_size m) % 2 ^ 64 in
    let rest = find_piece ms next offset in
    if ltb offset next then some (sub64 (piece_size m) (next - offset), m ∷ ms) else rest

-- The same search in the copy of the loop in `ZNSSequentialFile::ReadOffset`.
unfoldable pub seq_find_piece : List ZrocksMap → ℕ → ℕ → Option (ℕ × List ZrocksMap)
unfolding piece_size
seq_find_piece [] off offset = none
seq_find_piece (m ∷ ms) off offset =
    let size = piece_size m in
    let past : ℕ = (off + size) % 2 ^ 64 in
    let later = seq_find_piece ms past offset in
    if ltb offset past then some (sub64 size (past - offset), m ∷ ms) else later

-- `offset + n > znsfile->size`: the bytes that are read.
unfoldable pub clip : ℕ → ℕ → ℕ → ℕ
clip size offset n = if ltb size ((offset + n) % 2 ^ 64) then sub64 size offset else n

-- The size of the part of a piece that is read.
unfoldable pub part : ZrocksMap → ℕ → ℕ → ℕ
unfolding piece_size
part m piece_off left =
    if ltb left (sub64 (piece_size m) piece_off) then left else sub64 (piece_size m) piece_off

module _ {W : Type 0} (lib : Library W) where
  -- One read per piece, in `ZNSRandomAccessFile::ReadOffset`.
  unfoldable pub read_pieces : W → ℕ → ℕ → List ZrocksMap → Option (Status (List ℕ))
  unfolding part piece_start
  read_pieces w piece_off zero ms = some (ok [])
  read_pieces w piece_off (suc l) [] = none
  read_pieces w piece_off (suc l) (m ∷ ms) =
      let size = part m piece_off (suc l) in
      let rest = read_pieces w 0 (suc l - size) ms in
      elim (lib.zrocks_read w m.node_id (piece_start m + piece_off) size) [
        | none ↦ some (failed io_error)
        | some bytes ↦ elim rest [
          | none ↦ none
          | some (ok more) ↦ some (ok (bytes ++ more))
          | some (failed e) ↦ some (failed e)
        ]
      ]

  -- The part of `ZNSRandomAccessFile::ReadOffset` that goes to the pieces.
  unfoldable pub read_extent : W → ZnsFile → ℕ → ℕ → Option (Status (Option (List ℕ)))
  unfolding find_piece read_pieces
  read_extent w f offset n = elim (find_piece f.pieces 0 offset) [
    | none ↦ some (failed io_error)
    | some (piece_off, ms) ↦ elim (read_pieces w piece_off n ms) [
      | none ↦ none
      | some (failed e) ↦ some (failed e)
      | some (ok bytes) ↦ some (ok (some bytes))
    ]
  ]

  -- One read per piece, in `ZNSSequentialFile::ReadOffset`.
  unfoldable pub seq_read_pieces : W → ℕ → ℕ → List ZrocksMap → Option (Status (List ℕ))
  unfolding piece_size piece_start
  seq_read_pieces w piece_off zero ms = some (ok [])
  seq_read_pieces w piece_off (suc l) [] = none
  seq_read_pieces w piece_off (suc l) (m ∷ ms) =
      let in_piece : ℕ = sub64 (piece_size m) piece_off in
      let size : ℕ = (if ltb (suc l) in_piece then suc l else in_piece) in
      let next = seq_read_pieces w 0 (suc l - size) ms in
      elim (lib.zrocks_read w m.node_id (piece_start m + piece_off) size) [
        | none ↦ some (failed io_error)
        | some bytes ↦ elim next [
          | none ↦ none
          | some (failed e) ↦ some (failed e)
          | some (ok more) ↦ some (ok (bytes ++ more))
        ]
      ]

  -- The part of `ZNSSequentialFile::ReadOffset` that goes to the pieces.
  unfoldable pub seq_read_extent : W → ZnsFile → ℕ → ℕ → Option (Status (Option (List ℕ)))
  unfolding seq_find_piece seq_read_pieces
  seq_read_extent w f offset n = elim (seq_find_piece f.pieces 0 offset) [
    | none ↦ some (failed io_error)
    | some (piece_off, ms) ↦ elim (seq_read_pieces w piece_off n ms) [
      | none ↦ none
      | some (failed e) ↦ some (failed e)
      | some (ok bytes) ↦ some (ok (some bytes))
    ]
  ]

  -- `Slice(znsfile->wcache + offset - cache_pos, n)`
  unfoldable pub cache_slice : List ℕ → ℕ → ℕ → Option (Status (Option (List ℕ)))
  cache_slice bytes k n =
      if leb (k + n) (length bytes) then some (ok (some (take n (drop k bytes)))) else none

  -- `ZNSRandomAccessFile::ReadOffset`
  unfoldable pub rand_read_offset : W → ZnsFile → ℕ → ℕ → Option (Status (Option (List ℕ)))
  unfolding clip read_extent
  rand_read_offset w f offset n =
      let extent = read_extent w f offset (clip f.size offset n) in
      if leb f.size offset then some (ok none) else extent

  -- `ZNSSequentialFile::ReadOffset`; `readLen` is the length of the result, or else stays 0.
  unfoldable pub seq_read_offset : W → ZnsFile → ℕ → ℕ → Option (Status (Option (List ℕ)))
  unfolding clip seq_read_extent cache_slice cached_bytes
  seq_read_offset w f offset n =
      let cache_pos = sub64 f.size (length (cached_bytes f.wcache)) in
      let size = clip f.size offset n in
      let extent = seq_read_extent w f offset size in
      let slice = cache_slice (cached_bytes f.wcache) (offset - cache_pos) size in
      if leb f.size offset then some (ok none) else if leb cache_pos offset then slice else extent

  -- `ZNSRandomAccessFile::Read`
  unfoldable pub rand_read : W → ZnsFile → ℕ → ℕ → Option (Status (Option (List ℕ)))
  unfolding clip cache_slice cached_bytes rand_read_offset
  rand_read w f offset n =
      let cache_pos = sub64 f.size (length (cached_bytes f.wcache)) in
      let size = clip f.size offset n in
      let extent = rand_read_offset w f offset size in
      let slice = cache_slice (cached_bytes f.wcache) (offset - cache_pos) size in
      if leb f.size offset then some (ok none) else if leb cache_pos offset then slice else extent

  -- `*readLen`
  unfoldable pub read_len : Option (List ℕ) → ℕ
  read_len none = 0
  read_len (some bytes) = length bytes

  -- `ZNSSequentialFile::Read`: the result and the new `read_off`.
  pub seq_read : W → ZnsFile → ℕ → ℕ → Option (Status (Option (List ℕ)) × ℕ)
  unfolding seq_read_offset read_len
  seq_read w f read_off n = elim (seq_read_offset w f read_off n) [
    | none ↦ none
    | some (failed e) ↦ some (failed e, read_off)
    | some (ok r) ↦ some (ok r, (read_off + read_len r) % 2 ^ 64)
  ]

  -- `ZNSSequentialFile::PositionedRead` reads at `read_off`, and is OK whatever comes of it; the number is
  -- the length of the slice of `scratch` that it gives.
  pub positioned_read : W → ZnsFile → ℕ → ℕ → ℕ → Option (Status ℕ)
  unfolding seq_read_offset read_len
  positioned_read w f read_off offset n = elim (seq_read_offset w f read_off n) [
    | none ↦ none
    | some (failed e) ↦ some (ok 0)
    | some (ok r) ↦ some (ok (read_len r))
  ]

-- `ZNSSequentialFile::Skip`: the new `read_off`.
pub skip : ZnsFile → ℕ → ℕ → ℕ
skip f read_off n =
    if leb ((read_off + n) % 2 ^ 64) f.size then (read_off + n) % 2 ^ 64 else read_off
