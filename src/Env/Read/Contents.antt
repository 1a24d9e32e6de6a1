-- ===== src/Env/Read/Contents.antt =====
-- Reads against the bytes that the pieces and the cache hold.
use x_ztl.Common.{
  ℕ, ◌+◌, ◌-◌, ◌^◌, ◌≤◌, ◌<◌, ◌≡◌, refl, ap, ◌∙◌, sym, false, true, ltb, leb, List, none, some,
  length, take, drop, arith, length-append, take-append_left, drop-append_left, drop-append_right,
  length-drop, ltb→lt, ltb→le, inl, inr, ◌⊎◌, leb, Bool-cases,
}
use x_ztl.Data.{sub64}
use x_ztl.Env.{Library, ok, ZnsFile, cached_bytes}
use x_ztl.Env.Read.{clip, cache_slice, read_extent, rand_read_offset, seq_read_offset, rand_read}
use x_ztl.Env.Read.Extent.{
  file_bytes, IsConsistent, clip_lem, clip-clip, take-clip, read_extent-flushed, read_extent-past,
}
use x_ztl.Env.Read.Copies.{seq_read_extent-eq}
use x_ztl.Env.Read.Slice.{flushed, ReadsCells, Outcome, Outcome-eq}

-- The range of a read that begins in the pieces and does not end in the cache, or begins in the cache.
abbrev pub IsUnbroken : (ℕ → ℕ → ℕ) → ZnsFile → ℕ → ℕ → Type 0
IsUnbroken cell f offset n =
    (length (flushed cell f.pieces) ≤ offset)
    ⊎ (offset + clip f.size offset n ≤ length (flushed cell f.pieces))

-- What `cache_pos` is.
cache_pos_lem :
    (cell : ℕ → ℕ → ℕ) (f : ZnsFile)
    → IsConsistent cell f
    → (sub64 f.size (length (cached_bytes f.wcache)) ≡ length (flushed cell f.pieces))
      × (f.size ≡ length (flushed cell f.pieces) + length (cached_bytes f.wcache))
unfolding file_bytes
cache_pos_lem cell f (size, fits) =
    let len = length-append (flushed cell f.pieces) (cached_bytes f.wcache) in
    (omega (arith, size, fits, len), omega (arith, size, fits, len))

cache_slice-fits :
    {W : Type 0} (lib : Library W) (bytes : List ℕ) (k n : ℕ)
    → k + n ≤ length bytes
    → cache_slice lib bytes k n ≡ some (ok (some (take n (drop k bytes))))
unfolding cache_slice
cache_slice-fits lib bytes k n h = ground (arith, h)

module _ (cell : ℕ → ℕ → ℕ) (f : ZnsFile) (offset n : ℕ) where
  -- The bytes that a read takes from the cache, or from the pieces.
  slice_in_cache :
      length (flushed cell f.pieces) ≤ offset
      → drop (offset - length (flushed cell f.pieces)) (cached_bytes f.wcache)
        ≡ drop offset (file_bytes cell f)
  unfolding file_bytes
  slice_in_cache h = sym (
      drop-append_right offset (offset - length (flushed cell f.pieces)) (flushed cell f.pieces)
        (cached_bytes f.wcache) (omega (arith, h)))

  slice_in_pieces :
      offset + n ≤ length (flushed cell f.pieces)
      → take n (drop offset (flushed cell f.pieces)) ≡ take n (drop offset (file_bytes cell f))
  unfolding file_bytes
  slice_in_pieces h = sym (
      ap (take n)
        (drop-append_left offset (flushed cell f.pieces) (cached_bytes f.wcache) (omega (arith, h)))
      ∙ take-append_left n (drop offset (flushed cell f.pieces)) (cached_bytes f.wcache)
          (omega (arith, h, length-drop offset (flushed cell f.pieces))))

-- Cutting a read to the file's size leaves the bytes it takes as they are.
clipped :
    (cell : ℕ → ℕ → ℕ) (f : ZnsFile) (offset n : ℕ)
    → IsConsistent cell f
    → offset < f.size
    → offset + n < 2 ^ 64
    → take (clip f.size offset n) (drop offset (file_bytes cell f))
      ≡ take n (drop offset (file_bytes cell f))
unfolding file_bytes
clipped cell f offset n (size, fits) h b =
    rw size (take-clip (file_bytes cell f) offset n (rw size at h) (rw size at fits) b)

module _ {W : Type 0} (lib : Library W) (w : W) (cell : ℕ → ℕ → ℕ)
    (reads : ReadsCells lib w cell) where
  rand_read-cache :
      (f : ZnsFile) (offset n : ℕ)
      → IsConsistent cell f
      → offset < f.size
      → offset + n < 2 ^ 64
      → length (flushed cell f.pieces) ≤ offset
      → rand_read lib w f offset n ≡ some (ok (some (take n (drop offset (file_bytes cell f)))))
  unfolding rand_read
  rand_read-cache f offset n (size, fits) h b inside =
      let (pos, sum) = cache_pos_lem cell f (size, fits) in
      let (less, _, _) = clip_lem f.size offset n h fits b in
      let slice =
        cache_slice-fits lib (cached_bytes f.wcache) (offset - length (flushed cell f.pieces))
          (clip f.size offset n) (omega (arith, less, sum, inside)) in
      let not_past : leb f.size offset ≡ false = ground (arith, h) in
      let in_cache : leb (length (flushed cell f.pieces)) offset ≡ true = ground (arith, inside) in
      rw (rand_read, not_past, pos, in_cache, slice, slice_in_cache cell f offset n inside)
        (ap (λ t. some (ok (some t))) (clipped cell f offset n (size, fits) h b))

  rand_read-pieces :
      (f : ZnsFile) (offset n : ℕ)
      → IsConsistent cell f
      → offset < f.size
      → offset + n < 2 ^ 64
      → offset < length (flushed cell f.pieces)
      → offset + clip f.size offset n ≤ length (flushed cell f.pieces)
      → Outcome lib w
          (rand_read lib w f offset n)
          (some (ok (some (take n (drop offset (file_bytes cell f))))))
  unfolding rand_read rand_read_offset
  rand_read-pieces f offset n (size, fits) h b inside upto =
      let (pos, sum) = cache_pos_lem cell f (size, fits) in
      let not_past : leb f.size offset ≡ false = ground (arith, h) in
      let not_cached : leb (length (flushed cell f.pieces)) offset ≡ false =
        ground (arith, inside) in
      let extent =
        read_extent-flushed lib w cell reads f offset (clip f.size offset n)
          (omega (arith, sum, fits)) inside upto in
      let run : rand_read lib w f offset n ≡ read_extent lib w f offset (clip f.size offset n) =
        rw
          (
            rand_read,
            not_past,
            pos,
            not_cached,
            rand_read_offset,
            clip-clip f.size offset n h fits b,
          )
          refl in
      Outcome-eq lib w run
        (ap (λ t. some (ok (some t)))
          (slice_in_pieces cell f offset (clip f.size offset n) upto
            ∙ clipped cell f offset n (size, fits) h b))
        extent

  -- Where the reads of the library that succeed give the bytes of the device, a random read that begins in
  -- a consistent file gives the file's bytes from `offset` on, `n` of them or as many as there are, if its
  -- range is unbroken: if it begins in the cache, or does not pass the end of the pieces. It gives an
  -- input/output error instead only where a read of the library fails.
  pub rand_read-file_bytes :
      (f : ZnsFile) (offset n : ℕ)
      → IsConsistent cell f
      → offset < f.size
      → offset + n < 2 ^ 64
      → IsUnbroken cell f offset n
      → Outcome lib w
          (rand_read lib w f offset n)
          (some (ok (some (take n (drop offset (file_bytes cell f))))))
  rand_read-file_bytes f offset n c h b (inl inside) = inl (rand_read-cache f offset n c h b inside)
  rand_read-file_bytes f offset n c h b (inr upto) =
      elim (Bool-cases (ltb offset (length (flushed cell f.pieces)))) [
        | inl before ↦ rand_read-pieces f offset n c h b (ltb→lt _ _ before) upto
        | inr after ↦ inl (rand_read-cache f offset n c h b (ltb→le _ _ after))
      ]

  -- Where the reads of the library that succeed give the bytes of the device, a random read that begins in
  -- the pieces of a consistent file and passes their end, into the cache, leaves the map's range, at which
  -- the vector throws, unless a read of the library fails before and the result is an input/output error.
  pub rand_read-past :
      (f : ZnsFile) (offset n : ℕ)
      → IsConsistent cell f
      → offset + n < 2 ^ 64
      → offset < length (flushed cell f.pieces)
      → length (flushed cell f.pieces) < offset + clip f.size offset n
      → Outcome lib w (rand_read lib w f offset n) none
  unfolding rand_read rand_read_offset
  rand_read-past f offset n (size, fits) b inside past =
      let (pos, sum) = cache_pos_lem cell f (size, fits) in
      let h : offset < f.size = omega (arith, sum, inside) in
      let not_past : leb f.size offset ≡ false = ground (arith, h) in
      let not_cached : leb (length (flushed cell f.pieces)) offset ≡ false =
        ground (arith, inside) in
      let extent =
        read_extent-past lib w cell reads f offset (clip f.size offset n) (omega (arith, sum, fits))
          inside past in
      let run : rand_read lib w f offset n ≡ read_extent lib w f offset (clip f.size offset n) =
        rw
          (
            rand_read,
            not_past,
            pos,
            not_cached,
            rand_read_offset,
            clip-clip f.size offset n h fits b,
          )
          refl in
      Outcome-eq lib w run refl extent

-- The two ways to read agree: `ReadOffset` of a sequential file gives what `Read` of a random access
-- file does, whatever the device answers, for every range whose end fits 64 bits in a file whose size
-- does.
pub seq_read_offset-eq_rand_read :
    {W : Type 0} (lib : Library W) (w : W) (f : ZnsFile) (offset n : ℕ)
    → f.size < 2 ^ 64
    → offset + n < 2 ^ 64
    → seq_read_offset lib w f offset n ≡ rand_read lib w f offset n
unfolding seq_read_offset rand_read rand_read_offset
seq_read_offset-eq_rand_read lib w f offset n fits b = elim (Bool-cases (leb f.size offset)) [
  | inl past ↦ rw past refl
  | inr inside ↦
      let h : offset < f.size = ground (arith, inside) in
      rw
        (
          inside,
          clip-clip f.size offset n h fits b,
          seq_read_extent-eq lib w f offset (clip f.size offset n),
        )
        refl
]
