-- ===== src/Env/Read/Extent.antt =====
-- What a read gives: a part of the bytes that the pieces and the cache hold, or a fault.
use x_ztl.Common.{
  ℕ, ◌+◌, ◌-◌, ◌^◌, ◌≤◌, ◌<◌, ◌≡◌, refl, ap, ◌∙◌, sym, ltb, List, [], ◌∷◌, ◌++◌, Option, none, some,
  length, take, drop, gen, arith, length-gen, drop-append_right, take-all, length-drop, le→ltb,
  lt→ltb, ltb→lt, ltb→le, inl, inr, ◌⊎◌, tests, ◌%◌, Bool-cases,
}
use x_ztl.Addr.{ZrocksMap}
use x_ztl.Data.{sub64}
use x_ztl.Env.{Library, Status, ok, failed, ZnsFile, cached_bytes, piece_size, piece_start}
use x_ztl.Env.Read.{find_piece, clip, read_pieces, read_extent}
use x_ztl.Env.Read.Slice.{
  flushed, ReadsCells, Outcome, Outcome-eq, head_size, length-flushed, read_pieces-flushed,
  read_pieces-past,
}

drop-first :
    (cell : ℕ → ℕ → ℕ) (m : ZrocksMap) (ms : List ZrocksMap) (k : ℕ)
    → piece_size m ≤ k
    → drop k (flushed cell (m ∷ ms)) ≡ drop (k - piece_size m) (flushed cell ms)
unfolding flushed
drop-first cell m ms k h =
    drop-append_right k (k - piece_size m) (gen (cell m.node_id) (piece_start m) (piece_size m))
      (flushed cell ms)
      (omega (arith, h, length-gen (cell m.node_id) (piece_start m) (piece_size m)))

-- Where the search stops: the piece that holds the byte `offset`, which is byte `k` from `off` on.
record Found (cell : ℕ → ℕ → ℕ) (pieces : List ZrocksMap) (k : ℕ) (o : Option (ℕ × List ZrocksMap))
    : Type 0 where
  po : ℕ
  rest : List ZrocksMap
  found : o ≡ some (po, rest)
  inside : po ≤ head_size rest
  bytes : drop k (flushed cell pieces) ≡ drop po (flushed cell rest)
  lengths : length (flushed cell pieces) + po ≡ k + length (flushed cell rest)

find_piece-here :
    (m : ZrocksMap) (ms : List ZrocksMap) (off offset k : ℕ)
    → offset ≡ off + k
    → k < piece_size m
    → off + piece_size m < 2 ^ 64
    → find_piece (m ∷ ms) off offset ≡ some (k, m ∷ ms)
unfolding find_piece
find_piece-here m ms off offset k e h b =
    let next : (off + piece_size m) % 2 ^ 64 ≡ off + piece_size m = omega (arith, b) in
    let po : sub64 (piece_size m) (off + piece_size m - offset) ≡ k = omega (arith, e, b) in
    rw (next, lt→ltb offset (off + piece_size m) (omega (arith, e)), po) refl

find_piece-later :
    (m : ZrocksMap) (ms : List ZrocksMap) (off offset : ℕ)
    → off + piece_size m ≤ offset
    → off + piece_size m < 2 ^ 64
    → find_piece (m ∷ ms) off offset ≡ find_piece ms (off + piece_size m) offset
unfolding find_piece
find_piece-later m ms off offset h b =
    let next : (off + piece_size m) % 2 ^ 64 ≡ off + piece_size m = omega (arith, b) in
    rw (next, le→ltb offset (off + piece_size m) h) refl

find_piece-Found :
    (cell : ℕ → ℕ → ℕ) (ms : List ZrocksMap) (off offset k : ℕ)
    → offset ≡ off + k
    → k < length (flushed cell ms)
    → off + length (flushed cell ms) < 2 ^ 64
    → Found cell ms k (find_piece ms off offset)
unfolding flushed head_size
find_piece-Found cell [] off offset k e h b = absurd (omega (arith, h))
find_piece-Found cell (m ∷ ms) off offset k e h b =
    let len = length-flushed cell m ms in
    elim (Bool-cases (ltb k (piece_size m))) [
      | inl here ↦ record {
        po = k;
        rest = m ∷ ms;
        found = find_piece-here m ms off offset k e (ltb→lt _ _ here) (omega (arith, len, b));
        inside = omega (tests, here);
        bytes = refl;
        lengths = omega arith;
      }
      | inr later ↦
          let beyond : piece_size m ≤ k = ltb→le _ _ later in
          let j : ℕ = k - piece_size m in
          let at =
            find_piece-Found cell ms (off + piece_size m) offset j (omega (arith, e, beyond))
              (omega (arith, len, beyond)) (omega (arith, len, b)) in
          record {
            po = at.po;
            rest = at.rest;
            found =
                find_piece-later m ms off offset (omega (arith, e, beyond)) (omega (arith, len, b))
                ∙ at.found;
            inside = at.inside;
            bytes = drop-first cell m ms k beyond ∙ at.bytes;
            lengths = omega (arith, len, at.lengths, beyond);
          }
    ]

-- The bytes of a file: those of its pieces, then those in its cache.
unfoldable pub file_bytes : (ℕ → ℕ → ℕ) → ZnsFile → List ℕ
unfolding flushed cached_bytes
file_bytes cell f = flushed cell f.pieces ++ cached_bytes f.wcache

-- The size is that of the bytes, and fits 64 bits.
abbrev pub IsConsistent : (ℕ → ℕ → ℕ) → ZnsFile → Type 0
IsConsistent cell f = (f.size ≡ length (file_bytes cell f)) × (f.size < 2 ^ 64)

-- The result of an extent, by that of its pieces.
unfoldable given : Option (Status (List ℕ)) → Option (Status (Option (List ℕ)))
given none = none
given (some (ok bytes)) = some (ok (some bytes))
given (some (failed e)) = some (failed e)

module _ {W : Type 0} (lib : Library W) (w : W) (cell : ℕ → ℕ → ℕ)
    (reads : ReadsCells lib w cell) where
  -- The result of the pieces is that of the extent.
  extent_of :
      (f : ZnsFile) (offset n po : ℕ) (rest : List ZrocksMap)
      → find_piece f.pieces 0 offset ≡ some (po, rest)
      → (v : Option (Status (List ℕ))) → Outcome lib w (read_pieces lib w po n rest) v
      → Outcome lib w (read_extent lib w f offset n) (given v)
  unfolding read_extent given
  extent_of f offset n po rest found v (inr (node_id, off, k, gone, error)) =
      inr (node_id, off, k, gone, rw (read_extent, found, error) refl)
  extent_of f offset n po rest found none (inl is) = inl (rw (read_extent, found, is) refl)
  extent_of f offset n po rest found (some (ok bytes)) (inl is) =
      inl (rw (read_extent, found, is) refl)
  extent_of f offset n po rest found (some (failed e)) (inl is) =
      inl (rw (read_extent, found, is) refl)

  pub read_extent-flushed :
      (f : ZnsFile) (offset n : ℕ)
      → length (flushed cell f.pieces) < 2 ^ 64
      → offset < length (flushed cell f.pieces)
      → offset + n ≤ length (flushed cell f.pieces)
      → Outcome lib w
          (read_extent lib w f offset n)
          (some (ok (some (take n (drop offset (flushed cell f.pieces))))))
  unfolding given
  read_extent-flushed f offset n b h g =
      let at = find_piece-Found cell f.pieces 0 offset offset (omega arith) h (omega arith) in
      let pieces =
        read_pieces-flushed lib w cell reads at.rest at.po n at.inside
          (omega (arith, at.lengths)) in
      extent_of f offset n at.po at.rest at.found
        (some (ok (take n (drop offset (flushed cell f.pieces)))))
        (Outcome-eq lib w refl (ap (λ t. some (ok (take n t))) (sym at.bytes)) pieces)

  pub read_extent-past :
      (f : ZnsFile) (offset n : ℕ)
      → length (flushed cell f.pieces) < 2 ^ 64
      → offset < length (flushed cell f.pieces)
      → length (flushed cell f.pieces) < offset + n
      → Outcome lib w (read_extent lib w f offset n) none
  unfolding given
  read_extent-past f offset n b h g =
      let at = find_piece-Found cell f.pieces 0 offset offset (omega arith) h (omega arith) in
      let pieces =
        read_pieces-past lib w cell reads at.rest at.po n at.inside (omega arith)
          (omega (arith, at.lengths)) in
      extent_of f offset n at.po at.rest at.found none pieces

-- What `clip` leaves of a range that begins in the file.
pub clip_lem :
    (size offset n : ℕ)
    → offset < size
    → size < 2 ^ 64
    → offset + n < 2 ^ 64
    → (offset + clip size offset n ≤ size)
      × (clip size offset n ≤ n)
      × ((clip size offset n ≡ n) ⊎ (offset + clip size offset n ≡ size))
unfolding clip
clip_lem size offset n h b c = ground arith

pub clip-clip :
    (size offset n : ℕ)
    → offset < size
    → size < 2 ^ 64
    → offset + n < 2 ^ 64
    → clip size offset (clip size offset n) ≡ clip size offset n
unfolding clip
clip-clip size offset n h b c = ground arith

pub take-clip :
    (xs : List ℕ) (offset n : ℕ)
    → offset < length xs
    → length xs < 2 ^ 64
    → offset + n < 2 ^ 64
    → take (clip (length xs) offset n) (drop offset xs) ≡ take n (drop offset xs)
take-clip xs offset n h b c =
    let (fits, less, exact) = clip_lem (length xs) offset n h b c in
    let len = length-drop offset xs in
    elim exact [
      | inl all ↦ rw all refl
      | inr end ↦
          take-all (clip (length xs) offset n) (drop offset xs) (omega (arith, len, end))
          ∙ sym (take-all n (drop offset xs) (omega (arith, len, end, less)))
    ]
