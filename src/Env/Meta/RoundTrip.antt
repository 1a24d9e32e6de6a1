-- ===== src/Env/Meta/RoundTrip.antt =====
-- The record of a file, written and read back.
use x_ztl.Common.{
  ℕ, zero, suc, ◌+◌, ◌-◌, ◌*◌, ◌%◌, ◌^◌, ◌≤◌, ◌<◌, ◌≡◌, refl, ◌∙◌, Bool, true, ltb, leb,
  if◌then◌else◌, List, [], ◌∷◌, ◌++◌, some, length, replicate, drop, arith, length-append,
  length-replicate, length-drop,
}
use x_ztl.Common.Int.{ℤ}
use mathlib.Core.List.{append_assoc}
use x_ztl.Addr.{ZrocksMap, zrocks_map_store, zrocks_map_word, zrocks_map_fields}
use x_ztl.Data.{sub64}
use x_ztl.Env.{Name, ZnsFile}
use x_ztl.Env.Bytes.{
  le_bytes, c_str, int8_byte, FitsInt8, IsCString, int8_value-int8_byte, length-le_bytes,
  get_le-le_bytes, get_le-one, get_bytes-append, c_str-append,
}
use x_ztl.Env.Meta.{name_bytes, file_meta_bytes, pieces_bytes, write_meta_to_buf}
use x_ztl.Env.Load.{get_pieces, piece_count, get_file_meta}

-- The fields of a map are within their widths.
abbrev pub FitsFields : ZrocksMap → Type 0
FitsFields m = (m.node_id < 2 ^ 14) × (m.start < 2 ^ 22) × (m.num < 2 ^ 11) × (m.padding < 2 ^ 16)

abbrev pub AllFit : List ZrocksMap → Type 0
AllFit [] = Unit
AllFit (m ∷ ms) = FitsFields m × AllFit ms

drop-AllFit : (i : ℕ) (ms : List ZrocksMap) → AllFit ms → AllFit (drop i ms)
drop-AllFit zero ms h = h
drop-AllFit (suc i) [] h = tt
drop-AllFit (suc i) (m ∷ ms) (h, hs) = drop-AllFit i ms hs

-- A file whose record can be read back.
pub record IsRecordable (f : ZnsFile) : Type 0 where
  pub short_name : length f.name < 128
  pub c_name : IsCString f.name
  pub size_fits : f.size < 2 ^ 64
  pub level_fits : FitsInt8 f.level
  pub few_pieces : length f.pieces < 2 ^ 31
  pub fields_fit : AllFit f.pieces

word_fits : (m : ZrocksMap) → FitsFields m → zrocks_map_word m < 256 ^ 8
unfolding zrocks_map_word
word_fits m (a, b, c, d) = omega arith

fields-word : (m : ZrocksMap) → FitsFields m → zrocks_map_fields (zrocks_map_word m) ≡ m
unfolding zrocks_map_word zrocks_map_fields zrocks_map_store
fields-word m (a, b, c, d) = ground arith

get_pieces-pieces_bytes :
    (ms : List ZrocksMap) (rest : List ℕ)
    → AllFit ms
    → get_pieces (length ms) (pieces_bytes ms ++ rest) ≡ some (ms, rest)
unfolding get_pieces pieces_bytes
get_pieces-pieces_bytes [] rest h = refl
get_pieces-pieces_bytes (m ∷ ms) rest (h, hs) =
    let word = get_le-le_bytes 8 (zrocks_map_word m) (pieces_bytes ms ++ rest) (word_fits m h) in
    rw
      (
        append_assoc (le_bytes 8 (zrocks_map_word m)) (pieces_bytes ms) rest,
        word,
        get_pieces-pieces_bytes ms rest hs,
        fields-word m h,
      )
      refl

-- The file's part of a record, by its fields.
get_file_meta-bytes :
    (level : ℤ) (size n : ℕ) (name : Name) (field : List ℕ) (ms : List ZrocksMap) (rest : List ℕ)
    → FitsInt8 level
    → size < 2 ^ 64
    → n < 2 ^ 31
    → length field ≡ 128
    → c_str field ≡ some name
    → get_pieces n (pieces_bytes ms ++ rest) ≡ some (ms, rest)
    → get_file_meta (file_meta_bytes level size n field ++ (pieces_bytes ms ++ rest))
      ≡ some (record { level = level; size = size; name = name; pieces = ms }, rest)
unfolding get_file_meta file_meta_bytes piece_count
get_file_meta-bytes level size n name field ms rest hl hs hn len str pieces =
    let after = pieces_bytes ms ++ rest in
    let tail : List ℕ = replicate 4 0 ++ after in
    let a1 = append_assoc (le_bytes 8 size) (le_bytes 4 n ++ (field ++ replicate 4 0)) after in
    let a2 = append_assoc (le_bytes 4 n) (field ++ replicate 4 0) after in
    let a3 = append_assoc field (replicate 4 0) after in
    let g1 = get_le-le_bytes 8 size (le_bytes 4 n ++ (field ++ tail)) (omega (arith, hs)) in
    let g2 = get_le-le_bytes 4 n (field ++ tail) (omega (arith, hn)) in
    let g3 = get_bytes-append 128 field tail len in
    let positive : ltb n (2 ^ 31) ≡ true = ground (arith, hn) in
    let g0 =
      get_le-one (int8_byte level)
        (replicate 7 0 ++ (le_bytes 8 size ++ (le_bytes 4 n ++ (field ++ tail)))) in
    let p7 =
      get_bytes-append 7 (replicate 7 0) (le_bytes 8 size ++ (le_bytes 4 n ++ (field ++ tail)))
        refl in
    let p4 = get_bytes-append 4 (replicate 4 0) after refl in
    rw (a1, a2, a3, g0, p7, g1, g2, g3, p4, str, positive, pieces, int8_value-int8_byte level hl)
      refl

-- A short name in its field.
name_bytes-short :
    (name : Name)
    → length name < 128
    → IsCString name
    → (field : List ℕ) × (name_bytes name ≡ some field)
      × (length field ≡ 128)
      × (c_str field ≡ some name)
unfolding name_bytes
name_bytes-short name short c =
    let fits : leb (length name) 128 ≡ true = ground (arith, short) in
    let zeros : ℕ = 127 - length name in
    let one_more : 128 - length name ≡ suc zeros = omega (arith, short) in
    (
      name ++ replicate (128 - length name) 0,
      rw fits refl,
      length-append name (replicate (128 - length name) 0)
          ∙ omega (arith, short, length-replicate {A = ℕ} (128 - length name) 0),
      rw one_more (c_str-append name (replicate zeros 0) c),
    )

length-pieces_bytes : (ms : List ZrocksMap) → length (pieces_bytes ms) ≡ 8 * length ms
unfolding pieces_bytes
length-pieces_bytes [] = omega arith
length-pieces_bytes (m ∷ ms) =
    length-append (le_bytes 8 (zrocks_map_word m)) (pieces_bytes ms)
    ∙ omega (arith, length-le_bytes 8 (zrocks_map_word m), length-pieces_bytes ms)

length-file_meta_bytes :
    (level : ℤ) (size n : ℕ) (field : List ℕ)
    → length field ≡ 128
    → length (file_meta_bytes level size n field) ≡ 152
unfolding file_meta_bytes
length-file_meta_bytes level size n field len =
    let inner = length-append field (replicate {A = ℕ} 4 0) in
    let num = length-append (le_bytes 4 n) (field ++ replicate {A = ℕ} 4 0) in
    let all = length-append (le_bytes 8 size) (le_bytes 4 n ++ (field ++ replicate {A = ℕ} 4 0)) in
    omega (arith, len, inner, num, all, length-le_bytes 4 n, length-le_bytes 8 size)

-- The number of the first piece in a record.
abbrev pub first_piece : ZnsFile → Bool → ℕ
first_piece f update = if update then f.start_index else 0

-- A file that can be recorded, with its first unrecorded piece within its map, is written to a record
-- from which the level, the size, the name and the pieces are read back, those from the first
-- unrecorded one on if it is an update and else all, and the bytes after the record are left. The
-- write notes all pieces as recorded.
pub get_file_meta-write_meta_to_buf :
    (f : ZnsFile) (update : Bool) (rest : List ℕ)
    → IsRecordable f
    → f.start_index ≤ length f.pieces
    → (bytes : List ℕ) × (write_meta_to_buf f update
        ≡ some (bytes, record f { start_index = length f.pieces }))
      × (get_file_meta (bytes ++ rest)
          ≡ some (
            record {
              level = f.level;
              size = f.size;
              name = f.name;
              pieces = drop (first_piece f update) f.pieces;
            },
            rest,
          ))
      × (length bytes ≡ 152 + 8 * (length f.pieces - first_piece f update))
unfolding write_meta_to_buf
get_file_meta-write_meta_to_buf f update rest r h =
    let (field, written, len, str) = name_bytes-short f.name r.short_name r.c_name in
    let i = first_piece f update in
    let within : i ≤ length f.pieces = ground (arith, h) in
    let ms = drop i f.pieces in
    let n : sub64 (length f.pieces) i ≡ length ms =
      omega (arith, within, length-drop i f.pieces, r.few_pieces) in
    let index : length f.pieces % 2 ^ 32 ≡ length f.pieces = omega (arith, r.few_pieces) in
    let few : length ms < 2 ^ 31 = omega (arith, length-drop i f.pieces, r.few_pieces) in
    let head = file_meta_bytes f.level f.size (length ms) field in
    let meta =
      get_file_meta-bytes f.level f.size (length ms) f.name field ms rest r.level_fits r.size_fits
        few len str (get_pieces-pieces_bytes ms rest (drop-AllFit i f.pieces r.fields_fit)) in
    (
      head ++ pieces_bytes ms,
      rw (written, n, index) refl,
      rw (append_assoc head (pieces_bytes ms) rest) meta,
      length-append head (pieces_bytes ms)
          ∙ omega (
            arith,
            length-file_meta_bytes f.level f.size (length ms) field len,
            length-pieces_bytes ms,
            length-drop i f.pieces,
          ),
    )
