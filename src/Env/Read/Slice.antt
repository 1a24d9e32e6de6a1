-- ===== src/Env/Read/Slice.antt =====
-- What a read gives: a part of the bytes that the pieces and the cache hold.
use x_ztl.Common.{
  ℕ, zero, suc, ◌+◌, ◌-◌, ◌^◌, ◌≤◌, ◌<◌, ◌≡◌, refl, ap, ◌∙◌, sym, leb, List, [], ◌∷◌, ◌++◌, none,
  some, length, take, drop, gen, arith, length-append, length-gen, drop-gen, take-gen,
  take-append_left, take-append_right, drop-append_left, leb→le, inl, inr, ◌⊎◌, Option,
  Option-cases, Bool-cases,
}
use mathlib.Core.Path.{subst}
use mathlib.Core.List.{append-nil}
use x_ztl.Addr.{ZrocksMap}
use x_ztl.Env.{Library, Status, ok, failed, io_error, piece_size, piece_start}
use x_ztl.Env.Read.{part, read_pieces}

-- The bytes of the pieces, one after the other, where `cell node i` is byte `i` of a node.
unfoldable pub flushed : (ℕ → ℕ → ℕ) → List ZrocksMap → List ℕ
unfolding piece_size piece_start
flushed cell [] = []
flushed cell (m ∷ ms) = gen (cell m.node_id) (piece_start m) (piece_size m) ++ flushed cell ms

-- The pieces' sizes tile the bytes.
pub length-flushed :
    (cell : ℕ → ℕ → ℕ) (m : ZrocksMap) (ms : List ZrocksMap)
    → length (flushed cell (m ∷ ms)) ≡ piece_size m + length (flushed cell ms)
unfolding flushed
length-flushed cell m ms =
    length-append (gen (cell m.node_id) (piece_start m) (piece_size m)) (flushed cell ms)
    ∙ ap (λ (t : ℕ). t + length (flushed cell ms))
        (length-gen (cell m.node_id) (piece_start m) (piece_size m))

-- A read of `lib` in the state `w` that succeeds gives the bytes of the node.
abbrev pub ReadsCells : {W : Type 0} → Library W → W → (ℕ → ℕ → ℕ) → Type 0
ReadsCells lib w cell =
    (node_id off n : ℕ) (bytes : List ℕ)
    → lib.zrocks_read w node_id off n ≡ some bytes
    → bytes ≡ gen (cell node_id) off n

-- The result `v`, or an input/output error after a read of the library that failed.
abbrev pub Outcome : {W A : Type 0} → Library W → W → Option (Status A) → Option (Status A) → Type 0
Outcome lib w r v =
    (r ≡ v)
    ⊎ ((node_id : ℕ) × (off : ℕ) × (n : ℕ) × (lib.zrocks_read w node_id off n ≡ none)
        × (r ≡ some (failed io_error)))

pub Outcome-eq :
    {W A : Type 0} (lib : Library W) (w : W) {r r' v v' : Option (Status A)}
    → r ≡ r'
    → v ≡ v'
    → Outcome lib w r' v
    → Outcome lib w r v'
Outcome-eq lib w e k (inl is) = inl (e ∙ (is ∙ k))
Outcome-eq lib w e k (inr (node_id, off, n, gone, error)) = inr (node_id, off, n, gone, e ∙ error)

-- The bytes of a piece before those of the next ones.
unfoldable prepend : List ℕ → Option (Status (List ℕ)) → Option (Status (List ℕ))
prepend bytes none = none
prepend bytes (some (failed e)) = some (failed e)
prepend bytes (some (ok more)) = some (ok (bytes ++ more))

piece_size-lt : (m : ZrocksMap) → piece_size m < 2 ^ 64
unfolding piece_size
piece_size-lt m = omega arith

-- A range of a buffer that begins in its first `p` bytes, and ends there or later.
slice-inside :
    (c : ℕ → ℕ) (s p po n : ℕ) (rest : List ℕ)
    → po + n ≤ p
    → take n (drop po (gen c s p ++ rest)) ≡ gen c (s + po) n
slice-inside c s p po n rest h =
    ap (take n) (
      drop-append_left po (gen c s p) rest (omega (arith, length-gen c s p))
      ∙ ap (λ t. t ++ rest) (drop-gen c po s p (omega arith)))
    ∙ (take-append_left n (gen c (s + po) (p - po)) rest
          (omega (arith, length-gen c (s + po) (p - po)))
        ∙ take-gen c n (s + po) (p - po) (omega arith))

slice-across :
    (c : ℕ → ℕ) (s p po n : ℕ) (rest : List ℕ)
    → po ≤ p
    → p ≤ po + n
    → take n (drop po (gen c s p ++ rest)) ≡ gen c (s + po) (p - po) ++ take (n - (p - po)) rest
slice-across c s p po n rest h g =
    ap (take n) (
      drop-append_left po (gen c s p) rest (omega (arith, length-gen c s p))
      ∙ ap (λ t. t ++ rest) (drop-gen c po s p h))
    ∙ take-append_right n (n - (p - po)) (gen c (s + po) (p - po)) rest
        (omega (arith, length-gen c (s + po) (p - po)))

-- What `part` is: the rest of the piece, or what is left to read.
part_inside : (m : ZrocksMap) (po l : ℕ) → po + l ≤ piece_size m → part m po l ≡ l
unfolding part
part_inside m po l h = let fits = piece_size-lt m in ground arith

part_across :
    (m : ZrocksMap) (po l : ℕ)
    → po ≤ piece_size m
    → piece_size m ≤ po + l
    → part m po l ≡ piece_size m - po
unfolding part
part_across m po l h g = let fits = piece_size-lt m in ground arith

unfoldable pub head_size : List ZrocksMap → ℕ
unfolding piece_size
head_size [] = 0
head_size (m ∷ ms) = piece_size m

module _ {W : Type 0} (lib : Library W) (w : W) (cell : ℕ → ℕ → ℕ)
    (reads : ReadsCells lib w cell) where
  read_pieces-step :
      (po l : ℕ) (m : ZrocksMap) (ms : List ZrocksMap) (v : Option (Status (List ℕ)))
      → Outcome lib w (read_pieces lib w 0 (suc l - part m po (suc l)) ms) v
      → Outcome lib w
          (read_pieces lib w po (suc l) (m ∷ ms))
          (prepend (gen (cell m.node_id) (piece_start m + po) (part m po (suc l))) v)
  unfolding read_pieces prepend
  read_pieces-step po l m ms v e =
      let off = piece_start m + po in
      let size = part m po (suc l) in
      elim (Option-cases (lib.zrocks_read w m.node_id off size)) [
        | inl gone ↦ inr (m.node_id, off, size, gone, rw (read_pieces, gone) refl)
        | inr (bytes, got) ↦
            let is = reads m.node_id off size bytes got in
            elim e [
              | inr (node_id, at, n, gone, error) ↦
                  inr (node_id, at, n, gone, rw (read_pieces, got, error) refl)
              | inl rest ↦ inl (prepended bytes v is got rest)
            ]
      ]
    where
      prepended :
          (bytes : List ℕ) (v : Option (Status (List ℕ)))
          → bytes ≡ gen (cell m.node_id) (piece_start m + po) (part m po (suc l))
          → lib.zrocks_read w m.node_id (piece_start m + po) (part m po (suc l)) ≡ some bytes
          → read_pieces lib w 0 (suc l - part m po (suc l)) ms ≡ v
          → read_pieces lib w po (suc l) (m ∷ ms)
            ≡ prepend (gen (cell m.node_id) (piece_start m + po) (part m po (suc l))) v
      prepended bytes none is got rest = rw (read_pieces, got, rest) refl
      prepended bytes (some (failed x)) is got rest = rw (read_pieces, got, rest) refl
      prepended bytes (some (ok more)) is got rest =
          rw (read_pieces, got, rest) (ap (λ b. some (ok (b ++ more))) is)

  -- The same, where the bytes are known.
  read_pieces-more :
      (po l : ℕ) (m : ZrocksMap) (ms : List ZrocksMap) (more bytes : List ℕ)
      → Outcome lib w (read_pieces lib w 0 (suc l - part m po (suc l)) ms) (some (ok more))
      → gen (cell m.node_id) (piece_start m + po) (part m po (suc l)) ++ more ≡ bytes
      → Outcome lib w (read_pieces lib w po (suc l) (m ∷ ms)) (some (ok bytes))
  unfolding prepend
  read_pieces-more po l m ms more bytes rest e =
      subst (λ b. Outcome lib w (read_pieces lib w po (suc l) (m ∷ ms)) (some (ok b))) e
        (read_pieces-step po l m ms (some (ok more)) rest)

  read_pieces-inside :
      (m : ZrocksMap) (ms : List ZrocksMap) (po l : ℕ)
      → po + suc l ≤ piece_size m
      → Outcome lib w
          (read_pieces lib w po (suc l) (m ∷ ms))
          (some (ok (take (suc l) (drop po (flushed cell (m ∷ ms))))))
  unfolding read_pieces flushed
  read_pieces-inside m ms po l h =
      let size = part_inside m po (suc l) h in
      let none_left : suc l - part m po (suc l) ≡ 0 = omega (arith, size) in
      read_pieces-more po l m ms [] _ (inl (rw none_left refl)) (
        rw size (append-nil (gen (cell m.node_id) (piece_start m + po) (suc l)))
        ∙ sym (
            slice-inside (cell m.node_id) (piece_start m) (piece_size m) po (suc l)
              (flushed cell ms) h))

  -- A read of the pieces from offset `po` of the first one.
  pub read_pieces-flushed :
      (ms : List ZrocksMap) (po left : ℕ)
      → po ≤ head_size ms
      → po + left ≤ length (flushed cell ms)
      → Outcome lib w
          (read_pieces lib w po left ms)
          (some (ok (take left (drop po (flushed cell ms)))))
  unfolding read_pieces flushed head_size
  read_pieces-flushed ms po zero h g = inl refl
  read_pieces-flushed [] po (suc l) h g = absurd (omega arith)
  read_pieces-flushed (m ∷ ms) po (suc l) h g =
      elim (Bool-cases (leb (po + suc l) (piece_size m))) [
        | inl inside ↦ read_pieces-inside m ms po l (leb→le _ _ inside)
        | inr across ↦
            let more : piece_size m ≤ po + suc l = ground (arith, across) in
            let size = part_across m po (suc l) h more in
            let left : ℕ = suc l - (piece_size m - po) in
            let e : suc l - part m po (suc l) ≡ left = omega (arith, size) in
            let len = length-flushed cell m ms in
            let rest = read_pieces-flushed ms 0 left (omega arith) (omega (arith, len, g)) in
            read_pieces-more po l m ms (take left (flushed cell ms)) _ (rw e rest) (
              rw size refl
              ∙ sym (
                  slice-across (cell m.node_id) (piece_start m) (piece_size m) po (suc l)
                    (flushed cell ms) h more))
      ]

  -- It goes past the last piece where there is more to read than the pieces hold.
  pub read_pieces-past :
      (ms : List ZrocksMap) (po left : ℕ)
      → po ≤ head_size ms
      → 0 < left
      → length (flushed cell ms) < po + left
      → Outcome lib w (read_pieces lib w po left ms) none
  unfolding read_pieces flushed head_size prepend
  read_pieces-past ms po zero h l g = absurd (omega arith)
  read_pieces-past [] po (suc l) h l' g = inl refl
  read_pieces-past (m ∷ ms) po (suc l) h l' g =
      let len = length-flushed cell m ms in
      let size = part_across m po (suc l) h (omega (arith, len, g)) in
      let left : ℕ = suc l - (piece_size m - po) in
      let e : suc l - part m po (suc l) ≡ left = omega (arith, size) in
      let rest =
        read_pieces-past ms 0 left (omega arith) (omega (arith, len, g)) (omega (arith, len, g)) in
      read_pieces-step po l m ms none (rw e rest)
