-- ===== src/Env/Read/Copies.antt =====
-- The two copies of the loops over the pieces: those of sequential and of random access files.
use x_ztl.Common.{
  ℕ, zero, suc, ◌+◌, ◌-◌, ◌^◌, ◌%◌, ◌≡◌, refl, List, [], ◌∷◌, Option-cases, inl, inr,
}
use x_ztl.Addr.{ZrocksMap}
use x_ztl.Env.{Library, ZnsFile, piece_size, piece_start}
use x_ztl.Env.Read.{
  find_piece, seq_find_piece, part, read_pieces, seq_read_pieces, read_extent, seq_read_extent,
}

seq_find_piece-eq :
    (ms : List ZrocksMap) (off offset : ℕ) → seq_find_piece ms off offset ≡ find_piece ms off offset
unfolding seq_find_piece find_piece
seq_find_piece-eq [] off offset = refl
seq_find_piece-eq (m ∷ ms) off offset =
    let rest = seq_find_piece-eq ms ((off + piece_size m) % 2 ^ 64) offset in rw rest refl

module _ {W : Type 0} (lib : Library W) (w : W) where
  seq_read_pieces-eq :
      (ms : List ZrocksMap) (piece_off left : ℕ)
      → seq_read_pieces lib w piece_off left ms ≡ read_pieces lib w piece_off left ms
  unfolding seq_read_pieces read_pieces part
  seq_read_pieces-eq ms piece_off zero = refl
  seq_read_pieces-eq [] piece_off (suc l) = refl
  seq_read_pieces-eq (m ∷ ms) piece_off (suc l) =
      let rest = seq_read_pieces-eq ms 0 (suc l - part m piece_off (suc l)) in
      elim (Option-cases
        (lib.zrocks_read w m.node_id (piece_start m + piece_off) (part m piece_off (suc l)))) [
          | inl gone ↦ rw (seq_read_pieces, read_pieces, gone) refl
          | inr (bytes, got) ↦ rw (seq_read_pieces, read_pieces, got, rest) refl
        ]

  pub seq_read_extent-eq :
      (f : ZnsFile) (offset n : ℕ) → seq_read_extent lib w f offset n ≡ read_extent lib w f offset n
  unfolding seq_read_extent read_extent
  seq_read_extent-eq f offset n = elim (Option-cases (find_piece f.pieces 0 offset)) [
    | inl gone ↦ rw (seq_read_extent, read_extent, seq_find_piece-eq f.pieces 0 offset, gone) refl
    | inr ((piece_off, ms), found) ↦
        rw
          (
            seq_read_extent,
            read_extent,
            seq_find_piece-eq f.pieces 0 offset,
            found,
            seq_read_pieces-eq ms piece_off n,
          )
          refl
  ]
