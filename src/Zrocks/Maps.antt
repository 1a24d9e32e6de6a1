-- ===== src/Zrocks/Maps.antt =====
-- The size that `zrocks_write` asks for and the maps that it gives back, and the tries of `zrocks_read`.
use x_ztl.Common.{
  ℕ, zero, suc, ◌+◌, ◌-◌, ◌%◌, ◌^◌, ◌≤◌, ◌<◌, ◌≡◌, ◌≢◌, refl, ◌∙◌, false, ◌==◌, if◌then◌else◌, List,
  [], ◌∷◌, some, get_elem?, length, arith, ne→==, lt→ltb,
}
use x_ztl.Consts.{xztl_zrocks_read_err}
use x_ztl.Addr.{zrocks_map_store}
use x_ztl.Io.Write.{Piece}
use x_ztl.Zrocks.{align_size, fill_maps, zrocks_read, read_tries}

-- The size that is written is a number of whole pieces, not below the user's size, and the bytes
-- between them are fewer than a piece: they fit the 16 bits that a map has for its padding.
pub align_size_lem :
    (size : ℕ)
    → (align_size size % 32768 ≡ 0)
      × (size ≤ align_size size)
      × ((align_size size - size) % 2 ^ 16 ≡ align_size size - size)
unfolding align_size
align_size_lem size = ground arith

-- Map `i` has the fields of piece `i`, and the padding if it is the last one.
pub fill_maps_lem :
    (padding : ℕ) (ps : List Piece) (i : ℕ) (p : Piece)
    → get_elem? ps i ≡ some p
    → get_elem? (fill_maps padding ps) i
      ≡ some (zrocks_map_store p.node_id p.start p.num (if i + 1 == length ps then padding else 0))
unfolding fill_maps
fill_maps_lem padding [] i p e = absurd (cc)
fill_maps_lem padding (q ∷ []) zero p e = let same : q ≡ p = cc in rw same refl
fill_maps_lem padding (q ∷ []) (suc i) p e = absurd (cc)
fill_maps_lem padding (q ∷ r ∷ ps) zero p e =
    let same : q ≡ p = cc in
    let more : (0 + 1 == length (q ∷ r ∷ ps)) ≡ false = ground arith in rw (more, same) refl
fill_maps_lem padding (q ∷ r ∷ ps) (suc i) p e =
    let shift : (suc i + 1 == length (q ∷ r ∷ ps)) ≡ (i + 1 == length (r ∷ ps)) = ground arith in
    rw shift (fill_maps_lem padding (r ∷ ps) i p e)

module _ {W : Type 0} (read_fn : W → ℕ → ℕ × ℕ × W) where
  abbrev pub after_try : W → ℕ → W
  after_try w st = (read_fn w st).2

  abbrev pub status_after : W → ℕ → ℕ
  status_after w st = (read_fn w st).1

  read_tries-again :
      (fuel retry st : ℕ) (w : W)
      → (read_fn w st).0 ≢ 0
      → (read_fn w st).1 ≢ 22
      → retry < 2
      → read_tries read_fn (suc fuel) retry st w
        ≡ read_tries read_fn fuel (retry + 1) (status_after w st) (after_try w st)
  unfolding read_tries
  read_tries-again fuel retry st w bad quick h =
      rw
        (
          ne→== (read_fn w st).0 0 bad,
          ne→== (read_fn w st).1 22 quick,
          lt→ltb (retry + 1) 3 (omega arith),
        )
        refl

  read_tries-last :
      (fuel st : ℕ) (w : W)
      → (read_fn w st).0 ≢ 0
      → (read_fn w st).1 ≢ 22
      → read_tries read_fn (suc fuel) 2 st w ≡ some (xztl_zrocks_read_err, after_try w st)
  unfolding read_tries
  read_tries-last fuel st w bad quick =
      rw (ne→== (read_fn w st).0 0 bad, ne→== (read_fn w st).1 22 quick) refl

  -- A read whose every try fails, with a status other than 22, is tried three times, the status of one
  -- try being what the next one finds, and gives the error.
  pub zrocks_read-tries :
      (w : W)
      → ((w : W) (st : ℕ) → (read_fn w st).0 ≢ 0)
      → ((w : W) (st : ℕ) → (read_fn w st).1 ≢ 22)
      → zrocks_read read_fn 3 w
        ≡ some (
          xztl_zrocks_read_err,
          after_try
              (after_try (after_try w 0) (status_after w 0))
              (status_after (after_try w 0) (status_after w 0)),
        )
  unfolding zrocks_read
  zrocks_read-tries w bad quick =
      let w1 = after_try w 0 in
      let s1 = status_after w 0 in
      let w2 = after_try w1 s1 in
      let s2 = status_after w1 s1 in
      read_tries-again 2 0 0 w (bad w 0) (quick w 0) (omega arith)
      ∙ (read_tries-again 1 1 s1 w1 (bad w1 s1) (quick w1 s1) (omega arith)
          ∙ read_tries-last 0 s2 w2 (bad w2 s2) (quick w2 s2))
