-- ===== src/Env/Load/Replay.antt =====
-- The record of an update, read back over the file as it was recorded before.
use x_ztl.Common.{
  ℕ, ◌+◌, ◌-◌, ◌*◌, ◌≤◌, ◌≡◌, refl, ap, ◌∙◌, sym, Bool, true, false, leb, List, [], ◌∷◌, ◌++◌,
  Option, some, ◌>>=◌, length, replicate, set, take, drop, arith, take-append_drop,
}
use mathlib.Core.List.{append_assoc}
use x_ztl.Env.{Library, ZnsFile}
use x_ztl.Env.Bytes.{le_bytes, get_le-le_bytes, get_le-one, get_bytes-append}
use x_ztl.Env.Files.{FileMap, EnvState, deref, find, look_up, insert}
use x_ztl.Env.Meta.{write_meta_to_buf, metadata_head, sector_align, record_bytes, op_update}
use x_ztl.Env.Meta.RoundTrip.{IsRecordable, get_file_meta-write_meta_to_buf}
use x_ztl.Env.Load.{
  FileMeta, get_head, get_file_meta, recovered, recovered_object, recover, recover_file_from_buf,
  load_file, load_record,
}
use x_ztl.Env.Write.Touches.{deref-set_self}

-- A record whose body fits its sector, taken apart.
get_head-record_bytes :
    (tag : ℕ) (body : List ℕ)
    → length body ≤ 4084
    → (bytes : List ℕ) × (zeros : List ℕ) × (record_bytes tag body ≡ some bytes)
      × (get_head bytes ≡ some (4084, tag, body ++ zeros))
unfolding record_bytes get_head metadata_head
get_head-record_bytes tag body h =
    let fits : leb (12 + length body) 4096 ≡ true = ground (arith, h) in
    let aligned : sector_align (12 + length body) ≡ 4096 =
      unfold sector_align in ground (arith, h) in
    let zeros : List ℕ = replicate (4096 - (12 + length body)) 0 in
    let a1 =
      append_assoc (le_bytes 4 0) (le_bytes 4 4084 ++ (tag ∷ replicate 3 0)) (body ++ zeros) in
    let a2 = append_assoc (le_bytes 4 4084) (tag ∷ replicate 3 0) (body ++ zeros) in
    let g1 =
      get_le-le_bytes 4 0 (le_bytes 4 4084 ++ (tag ∷ (replicate 3 0 ++ (body ++ zeros))))
        (omega arith) in
    let g2 = get_le-le_bytes 4 4084 (tag ∷ (replicate 3 0 ++ (body ++ zeros))) (omega arith) in
    let g3 = get_le-one tag (replicate 3 0 ++ (body ++ zeros)) in
    let g4 = get_bytes-append 3 (replicate 3 0) (body ++ zeros) refl in
    (
      metadata_head tag 4084 ++ (body ++ zeros),
      zeros,
      rw (fits, aligned) refl,
      rw (a1, a2, g1, g2, g3, g4) refl,
    )

-- The record that `FlushUpdateMetaData` writes for a file.
pub update_record : ZnsFile → Option (List ℕ)
update_record f = do (meta, f') ← write_meta_to_buf f true; record_bytes op_update meta

module _ {W : Type 0} (lib : Library W) where
  -- A record as `LoadMetaData` reads it.
  pub load_bytes : EnvState W → List ℕ → Option (EnvState W)
  load_bytes s bytes = do (data_length, tag, body) ← get_head bytes; load_record lib s tag body

  -- A record for a name that has a file.
  recover-found :
      (s : EnvState W) (m : FileMeta) (p : ℕ) (g : ZnsFile) (replace : Bool)
      → find s.files m.name ≡ some (some p)
      → deref s.heap p ≡ some g
      → recover lib s m replace
        ≡ some (record s {
          heap = set s.heap p (some (recovered g m replace));
          files = insert s.files g.name (some p);
        })
  unfolding recover recovered_object look_up recovered
  recover-found s m p g replace found at =
      let look : ◌≡◌ {A = Option ℕ × FileMap} (look_up s.files m.name) (some p, s.files) =
        rw (look_up, found) refl in
      let object : ◌≡◌ {A = ℕ × EnvState W} (recovered_object lib s m.name) (p, s) =
        rw (recovered_object, look)
          (ap (λ (l : Option ℕ × FileMap). (p, record s { files = l.1 })) look) in
      rw (recover, object, at) refl

  -- The update record of a file that can be recorded, of which the pieces that are not recorded yet fit
  -- a sector with it, is written, and is loaded where the file's name has an object with the pieces
  -- that were recorded before: the object then has all the file's pieces, its size and its level.
  pub load_bytes-update_record :
      (f g : ZnsFile) (s : EnvState W) (p : ℕ)
      → IsRecordable f
      → f.start_index ≤ length f.pieces
      → 8 * (length f.pieces - f.start_index) ≤ 3932
      → find s.files f.name ≡ some (some p)
      → deref s.heap p ≡ some g
      → g.pieces ≡ take f.start_index f.pieces
      → (bytes : List ℕ) × (t : EnvState W) × (update_record f ≡ some bytes)
        × (load_bytes s bytes ≡ some t)
        × (deref t.heap p ≡ some (record g { size = f.size; level = f.level; pieces = f.pieces }))
  unfolding update_record load_bytes load_record load_file recover_file_from_buf recovered
  load_bytes-update_record f g s p r le few found at before =
      let (meta, written, _, len) = get_file_meta-write_meta_to_buf f true [] r le in
      let (bytes, zeros, made, head) =
        get_head-record_bytes op_update meta (omega (arith, len, few)) in
      let (meta', written', back, _) = get_file_meta-write_meta_to_buf f true zeros r le in
      let same : meta' ≡ meta = cc (written, written') in
      let m : FileMeta = record {
        level = f.level;
        size = f.size;
        name = f.name;
        pieces = drop f.start_index f.pieces;
      } in
      let loaded = recover-found s m p g false found at in
      let all : g.pieces ++ drop f.start_index f.pieces ≡ f.pieces =
        ap (λ l. l ++ drop f.start_index f.pieces) before
        ∙ take-append_drop f.start_index f.pieces in
      let body : get_file_meta (meta ++ zeros) ≡ some (m, zeros) =
        ap (λ l. get_file_meta (l ++ zeros)) (sym same) ∙ back in
      (
        bytes,
        record s {
          heap = set s.heap p (some (recovered g m false));
          files = insert s.files g.name (some p);
        },
        rw (written, made) refl,
        rw (head, load_file, recover_file_from_buf, body, loaded) refl,
        deref-set_self s.heap p (recovered g m false) at
            ∙ ap (λ l. some (record g { size = f.size; level = f.level; pieces = l })) all,
      )
