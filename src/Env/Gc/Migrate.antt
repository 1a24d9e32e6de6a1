-- ===== src/Env/Gc/Migrate.antt =====
-- What the copy of a file's pieces leaves of its bytes, and the order in which the nodes are collected.
use x_ztl.Common.{
  ℕ, ◌+◌, ◌^◌, ◌<◌, ◌≡◌, refl, ap, ◌∙◌, sym, ◌==◌, List, [], ◌∷◌, ◌++◌, Option, none, some, arith,
  inl, inr, Bool-cases, Option-cases, ==→eq, gen,
}
use mathlib.Core.Path.{subst}
use mathlib.Core.List.{append-nil}
use x_ztl.Common.Int.{ℤ}
use x_ztl.Addr.{ZrocksMap}
use x_ztl.Env.{Name, Library, piece_size, piece_start}
use x_ztl.Env.Read.Slice.{flushed, ReadsCells}
use x_ztl.Env.Write.Keeps.{
  KeepsPieces-refl, KeepsPieces-trans, AllLive, AllLive-keeps, AllLive-append, IsStore, Later,
}
use x_ztl.Env.Write.Contents.{flushed-append}
use x_ztl.Env.Gc.{Migration, note_maps, overwrite, whole_piece, copy_piece, copy_pieces}

-- The pieces that are in the node have no padding, and a number of sectors that fits its field.
abbrev pub AllUnpadded : ℕ → List ZrocksMap → Type 0
AllUnpadded nid [] = Unit
AllUnpadded nid (m ∷ ms) =
    (m.node_id ≡ nid → (m.padding ≡ 0) × (m.num < 2 ^ 11)) × AllUnpadded nid ms

whole_piece-unpadded :
    (m : ZrocksMap) → m.padding ≡ 0 → m.num < 2 ^ 11 → whole_piece m ≡ piece_size m
unfolding whole_piece piece_size
whole_piece-unpadded m h g = omega (arith, h, g)

-- The bytes of one piece.
single :
    (cell : ℕ → ℕ → ℕ) (m : ZrocksMap)
    → flushed cell (m ∷ []) ≡ gen (cell m.node_id) (piece_start m) (piece_size m)
unfolding flushed
single cell m = append-nil (gen (cell m.node_id) (piece_start m) (piece_size m))

note_maps-dev :
    {W : Type 0} (name : Name) (ms : List ZrocksMap) (i : ℕ) (g : Migration W)
    → (note_maps name ms i g).dev ≡ g.dev
unfolding note_maps
note_maps-dev name [] i g = refl
note_maps-dev name (m ∷ ms) i g = note_maps-dev name ms (i + 1) _

module _ {W : Type 0} (lib : Library W) (cell : W → ℕ → ℕ → ℕ) (Live : W → ZrocksMap → Type 0)
    (store : IsStore lib cell Live) (reads : (w : W) → ReadsCells lib w (cell w)) where
  -- What a copy of the piece `m` leaves: the live pieces, and, unless a write was lost, new maps that are
  -- live and hold what it did.
  Moves : W → ZrocksMap → Option (List ZrocksMap) × Migration W → Type 0
  Moves w m (r, g) =
      Later lib cell Live store w g.dev
      × ((new : List ZrocksMap)
          → r ≡ some new
          → store.IsSound g.dev
          → AllLive cell Live g.dev new
            × (flushed (cell g.dev) new ≡ gen (cell w m.node_id) (piece_start m) (piece_size m)))

  -- The write of the bytes that were read.
  write-Moves :
      (level : ℤ) (name : Name) (m : ZrocksMap) (g : Migration W) (bytes : List ℕ)
      → lib.zrocks_read g.dev m.node_id (piece_start m) (whole_piece m) ≡ some bytes
      → bytes ≡ gen (cell g.dev m.node_id) (piece_start m) (piece_size m)
      → Moves g.dev m (copy_piece lib level name m g)
  unfolding copy_piece Moves
  write-Moves level name m g bytes read is =
      let dev' = (lib.zrocks_write g.dev bytes level).1 in
      let kept : Later lib cell Live store g.dev dev' =
        (store.write_keeps g.dev bytes level, store.write_sound g.dev bytes level) in
      let written : Migration W = record g { dev = dev' } in
      elim (Option-cases (lib.zrocks_write g.dev bytes level).0) [
        | inl error ↦
            let c : copy_piece lib level name m g ≡ (none, written) =
              rw (copy_piece, read, error) refl in
            subst (Moves g.dev m) (sym c) (kept, λ new e s. absurd (cc (e)))
        | inr ([], empty) ↦
            let c : copy_piece lib level name m g ≡ (none, written) =
              rw (copy_piece, read, empty) refl in
            subst (Moves g.dev m) (sym c) (kept, λ new e s. absurd (cc (e)))
        | inr (n ∷ new, done) ↦
            let end : Migration W =
              note_maps name (n ∷ new) 0 (record written { maps = overwrite g.maps (n ∷ new) }) in
            let c : copy_piece lib level name m g ≡ (some (n ∷ new), end) =
              rw (copy_piece, read, done) refl in
            let same : end.dev ≡ dev' = note_maps-dev name (n ∷ new) 0 _ in
            let places = store.write_places g.dev bytes level (n ∷ new) done in
            subst (Moves g.dev m) (sym c) (
              subst (λ (d : W). Later lib cell Live store g.dev d) (sym same) kept,
              λ l e s.
                  let same_maps : n ∷ new ≡ l = cc (e) in
                  let (live, holds) =
                    subst
                      (λ (d : W).
                        store.IsSound d
                        → AllLive cell Live d (n ∷ new) × (flushed (cell d) (n ∷ new) ≡ bytes))
                      (sym same) places s in
                  subst
                    (λ l.
                      AllLive cell Live end.dev l
                      × (flushed (cell end.dev) l
                          ≡ gen (cell g.dev m.node_id) (piece_start m) (piece_size m)))
                    same_maps (live, holds ∙ is),
            )
      ]

  copy_piece-Moves :
      (level : ℤ) (name : Name) (m : ZrocksMap) (g : Migration W)
      → m.padding ≡ 0
      → m.num < 2 ^ 11
      → Moves g.dev m (copy_piece lib level name m g)
  unfolding copy_piece Moves
  copy_piece-Moves level name m g h k =
      elim (Option-cases (lib.zrocks_read g.dev m.node_id (piece_start m) (whole_piece m))) [
        | inl gone ↦
            let c : copy_piece lib level name m g ≡ (none, g) = rw (copy_piece, gone) refl in
            subst (Moves g.dev m) (sym c)
              ((KeepsPieces-refl cell Live g.dev, λ s. s), λ new e s. absurd (cc (e)))
        | inr (bytes, read) ↦
            let is : bytes ≡ gen (cell g.dev m.node_id) (piece_start m) (piece_size m) =
              reads g.dev m.node_id (piece_start m) (whole_piece m) bytes read
              ∙ ap (λ (n : ℕ). gen (cell g.dev m.node_id) (piece_start m) n)
                  (whole_piece-unpadded m h k) in
            write-Moves level name m g bytes read is
      ]

  -- What the loop leaves: the live pieces, and, unless a write was lost, live pieces with the same bytes.
  pub record Copied (w : W) (pieces out : List ZrocksMap) (w' : W) : Type 0 where
    pub keeps : Later lib cell Live store w w'
    pub live : store.IsSound w' → AllLive cell Live w' out
    pub bytes : store.IsSound w' → flushed (cell w') out ≡ flushed (cell w) pieces

  abbrev pub CopiedResult : W → List ZrocksMap → List ZrocksMap × Migration W → Type 0
  CopiedResult w pieces (out, g) = Copied w pieces out g.dev

  -- A piece, or its new maps, before the rest.
  Copied-more :
      (w v u : W) (m : ZrocksMap) (ms new rest : List ZrocksMap)
      → Later lib cell Live store w v
      → (store.IsSound v
          → AllLive cell Live v new
            × (flushed (cell v) new ≡ gen (cell w m.node_id) (piece_start m) (piece_size m)))
      → AllLive cell Live w ms
      → Copied v ms rest u
      → Copied w (m ∷ ms) (new ++ rest) u
  unfolding flushed
  Copied-more w v u m ms new rest (wv, sound) moved live_rest c =
      let (kept, before) = c.keeps in
      let (_, rest_same) = AllLive-keeps cell Live w v ms wv live_rest in
      record {
        keeps = (KeepsPieces-trans cell Live w v u wv kept, λ k. sound (before k));
        live = λ k.
            AllLive-append cell Live u new rest
              (AllLive-keeps cell Live v u new kept (moved (before k)).0).0 (c.live k);
        bytes = λ k.
            let (live, same) = moved (before k) in
            flushed-append (cell u) new rest
            ∙ (ap (λ l. l ++ flushed (cell u) rest)
                  ((AllLive-keeps cell Live v u new kept live).1 ∙ same)
                ∙ ap (λ l. gen (cell w m.node_id) (piece_start m) (piece_size m) ++ l)
                    (c.bytes k ∙ rest_same));
      }

  Copied-kept :
      (w v u : W) (m : ZrocksMap) (ms rest : List ZrocksMap)
      → Later lib cell Live store w v
      → Live w m
      → AllLive cell Live w ms
      → Copied v ms rest u
      → Copied w (m ∷ ms) (m ∷ rest) u
  Copied-kept w v u m ms rest wv live live_rest c =
      let (live', same) = wv.0 m live in
      Copied-more w v u m ms (m ∷ []) rest wv (λ k. ((live', tt), single (cell v) m ∙ same))
        live_rest c

  -- Where live pieces outlive every call of the library and the reads that succeed give the bytes of the
  -- device, the copy of the pieces of a node, whichever reads and writes report a failure, keeps every live
  -- piece and, unless a write was lost without an error, leaves live pieces with the bytes of those before.
  pub copy_pieces-Copied :
      (nid : ℕ) (level : ℤ) (name : Name) (pieces : List ZrocksMap) (g : Migration W)
      → AllLive cell Live g.dev pieces
      → AllUnpadded nid pieces
      → CopiedResult g.dev pieces (copy_pieces lib nid level name pieces g)
  unfolding copy_pieces Moves flushed
  copy_pieces-Copied nid level name [] g live flat = record {
    keeps = (KeepsPieces-refl cell Live g.dev, λ k. k);
    live = λ k. tt;
    bytes = λ k. refl;
  }
  copy_pieces-Copied nid level name (m ∷ ms) g (live, live_rest) (flat, flat_rest) =
      elim (Bool-cases (m.node_id == nid)) [
        | inr other ↦
            let rest = copy_pieces-Copied nid level name ms g live_rest flat_rest in
            rw other (
              Copied-kept g.dev g.dev _ m ms _ (KeepsPieces-refl cell Live g.dev, λ k. k) live
                live_rest rest)
        | inl here ↦
            let (pad, num) = flat (==→eq m.node_id nid here) in
            let moved = copy_piece-Moves level name m g pad num in
            let g' = (copy_piece lib level name m g).1 in
            let live_rest' = (AllLive-keeps cell Live g.dev g'.dev ms moved.0.0 live_rest).0 in
            let rest = copy_pieces-Copied nid level name ms g' live_rest' flat_rest in
            elim (Option-cases (copy_piece lib level name m g).0) [
              | inl stays ↦
                  rw (here, stays) (Copied-kept g.dev g'.dev _ m ms _ moved.0 live live_rest rest)
              | inr (new, done) ↦
                  rw (here, done)
                    (Copied-more g.dev g'.dev _ m ms new _ moved.0 (moved.1 new done) live_rest
                      rest)
            ]
      ]
