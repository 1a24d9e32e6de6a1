-- ===== src/Env/Write/Contents.antt =====
-- Writable files against the bytes that they hold.
use x_ztl.Common.{
  ℕ, ◌≡◌, refl, ap, ◌∙◌, sym, List, [], ◌∷◌, ◌++◌, Option, some, set, gen, inl, inr, Option-cases,
  if◌then◌else◌,
}
use x_ztl.Common.Int.{pos}
use mathlib.Core.Path.{subst}
use mathlib.Core.List.{append-nil, append_assoc}
use x_ztl.Addr.{ZrocksMap}
use x_ztl.Env.{Name, Library, Status, ok, ZnsFile, piece_start, piece_size}
use x_ztl.Env.Files.{EnvState, deref, add_name}
use x_ztl.Env.Meta.{flush_update_meta_data}
use x_ztl.Env.Write.{other_node, push_maps, reset_cache, sync_maps, sync}
use x_ztl.Env.Read.Slice.{flushed}
use x_ztl.Env.Write.Touches.{deref-set_self}
use x_ztl.Env.Write.Keeps.{
  KeepsPieces, AllLive, AllLive-keeps, AllLive-append, IsStore, flush_update_meta_data-Keeps,
}

pub flushed-append :
    (cell : ℕ → ℕ → ℕ) (ms ns : List ZrocksMap)
    → flushed cell (ms ++ ns) ≡ flushed cell ms ++ flushed cell ns
unfolding flushed
flushed-append cell [] ns = refl
flushed-append cell (m ∷ ms) ns =
    let first = gen (cell m.node_id) (piece_start m) (piece_size m) in
    ap (λ t. first ++ t) (flushed-append cell ms ns)
    ∙ sym (append_assoc first (flushed cell ms) (flushed cell ns))

-- The maps of a write are at the end of the file's, and nothing else but `current_nid` changes.
push_maps-pieces :
    (name : Name) (ms : List ZrocksMap) (f : ZnsFile) (nids : List (ℕ × List Name))
    → (nid : _) × ((push_maps name ms f nids).0
        ≡ record f { pieces = f.pieces ++ ms; current_nid = nid })
unfolding push_maps
push_maps-pieces name [] f nids = (f.current_nid, rw append-nil refl)
push_maps-pieces name (m ∷ ms) f nids =
    let other = other_node f.current_nid m.node_id in
    let f1 : ZnsFile = record f {
      pieces = f.pieces ++ (m ∷ []);
      current_nid = (if other then pos m.node_id else f.current_nid);
    } in
    let (nid, e) =
      push_maps-pieces name ms f1 (if other then add_name nids m.node_id name else nids) in
    (
      nid,
      e ∙ ap (λ t. record f { pieces = t; current_nid = nid }) (append_assoc f.pieces (m ∷ []) ms),
    )

-- The state of a result.
pub of_some :
    {S R : Type 0} (P : S → Type 0) {r r' : R} {t u : S}
    → P u
    → ◌≡◌ {A = Option (R × S)} (some (r', u)) (some (r, t))
    → P t
of_some P {t = t} {u = u} h e = let same : u ≡ t = cc in rw same at h

module _ {W : Type 0} (lib : Library W) (cell : W → ℕ → ℕ → ℕ) (Live : W → ZrocksMap → Type 0)
    (store : IsStore lib cell Live) where
  -- The object at `p` is open for writing and says that it has `size`; unless a write of the library was
  -- lost, its pieces are live and it holds `bytes`.
  pub record Holds (s : EnvState W) (p size : ℕ) (bytes : List ℕ) : Type 0 where
    pub file : ZnsFile
    pub cache : List ℕ
    pub at : deref s.heap p ≡ some file
    pub opened : file.wcache ≡ some cache
    pub live : store.IsSound s.dev → AllLive cell Live s.dev file.pieces
    pub size_is : file.size ≡ size
    pub bytes_are : store.IsSound s.dev → flushed (cell s.dev) file.pieces ++ cache ≡ bytes

  -- What a write and the flush after it leave of a file's pieces.
  synced_pieces :
      (w u : W) (ms maps : List ZrocksMap) (cache : List ℕ)
      → KeepsPieces cell Live w u
      → AllLive cell Live w ms
      → AllLive cell Live w maps
      → flushed (cell w) maps ≡ cache
      → AllLive cell Live u (ms ++ maps)
        × (flushed (cell u) (ms ++ maps) ≡ flushed (cell w) ms ++ cache)
  synced_pieces w u ms maps cache k h g e =
      let (live, same) =
        AllLive-keeps cell Live w u (ms ++ maps) k (AllLive-append cell Live w ms maps h g) in
      (live, same ∙ (flushed-append (cell w) ms maps ∙ ap (λ t. flushed (cell w) ms ++ t) e))

  sync_maps-Holds :
      (name : Name) (p size : ℕ) (bytes : List ℕ) (f : ZnsFile) (maps : List ZrocksMap)
      (cache : List ℕ) (s : EnvState W) {r : Status (Unit {0})} {t : EnvState W}
      → deref s.heap p ≡ some f
      → f.size ≡ size
      → (store.IsSound s.dev
          → AllLive cell Live s.dev f.pieces
            × AllLive cell Live s.dev maps
            × (flushed (cell s.dev) maps ≡ cache)
            × (flushed (cell s.dev) f.pieces ++ cache ≡ bytes))
      → sync_maps lib name p f maps s ≡ some (r, t)
      → (h : Holds t p size bytes) × (store.IsSound t.dev
          → flushed (cell t.dev) h.file.pieces ≡ bytes)
  unfolding sync_maps reset_cache
  sync_maps-Holds name p size bytes f maps cache s {t = t} at size_is before e =
      let (nid, made) = push_maps-pieces name maps f s.nid_file_map in
      let f' : ZnsFile = (push_maps name maps f s.nid_file_map).0 in
      let pushed : EnvState W = record s {
        heap = set s.heap p (some f');
        nid_file_map = (push_maps name maps f s.nid_file_map).1;
      } in
      elim (Option-cases (flush_update_meta_data lib p pushed)) [
        | inl fault ↦ absurd (cc (rw (sync_maps, fault) at e))
        | inr ((r', u), flush) ↦
            let (touched, (kept, sound), _) =
              flush_update_meta_data-Keeps lib cell Live store p pushed flush in
            let (i, there) = touched p f' (deref-set_self s.heap p f' at) in
            let pieces_made = ap (λ (z : ZnsFile). z.pieces) made in
            let size_made = ap (λ (z : ZnsFile). z.size) made in
            let g : ZnsFile = reset_cache (record f' { start_index = i }) in
            let after : store.IsSound u.dev
                → AllLive cell Live u.dev (f.pieces ++ maps)
                  × (flushed (cell u.dev) (f.pieces ++ maps) ≡ bytes) =
              λ k.
                let (live, new, written, sum) = before (sound k) in
                let (live', bytes') =
                  synced_pieces s.dev u.dev f.pieces maps cache kept live new written in
                (live', bytes' ∙ sum) in
            let flat : store.IsSound u.dev → flushed (cell u.dev) f'.pieces ≡ bytes =
              λ k. ap (flushed (cell u.dev)) pieces_made ∙ (after k).1 in
            let end : EnvState W = record u { heap = set u.heap p (some g) } in
            of_some
              (λ (v : EnvState W).
                (h : Holds v p size bytes) × (store.IsSound v.dev
                  → flushed (cell v.dev) h.file.pieces ≡ bytes))
              {u = end}
              (
                record {
                  file = g;
                  cache = [];
                  at = deref-set_self u.heap p g there;
                  opened = refl;
                  live =
                      λ k. subst (λ ms. AllLive cell Live u.dev ms) (sym pieces_made) (after k).0;
                  size_is = size_made ∙ size_is;
                  bytes_are = λ k. append-nil (flushed (cell u.dev) f'.pieces) ∙ flat k;
                },
                flat,
              )
              (rw (sync_maps, flush, there) at e)
      ]

  -- `Sync`, where the object's cache is known.
  sync-cases :
      (name : Name) (p size : ℕ) (bytes : List ℕ) (f : ZnsFile) (cache : List ℕ) (s : EnvState W)
      {r : Status (Unit {0})} {t : EnvState W}
      → deref s.heap p ≡ some f
      → f.wcache ≡ some cache
      → f.size ≡ size
      → (store.IsSound s.dev → AllLive cell Live s.dev f.pieces)
      → (store.IsSound s.dev → flushed (cell s.dev) f.pieces ++ cache ≡ bytes)
      → sync lib name p s ≡ some (r, t)
      → (h : Holds t p size bytes) × (r ≡ ok tt
          → store.IsSound t.dev
          → flushed (cell t.dev) h.file.pieces ≡ bytes)
  unfolding sync
  sync-cases name p size bytes f [] s {r = r} {t = t} at opened size_is live sum e =
      of_some
        (λ (v : EnvState W).
          (h : Holds v p size bytes) × (r ≡ ok tt
            → store.IsSound v.dev
            → flushed (cell v.dev) h.file.pieces ≡ bytes))
        {u = s}
        (
          record {
            file = f;
            cache = [];
            at = at;
            opened = opened;
            live = live;
            size_is = size_is;
            bytes_are = sum;
          },
          λ _ k. sym (append-nil (flushed (cell s.dev) f.pieces)) ∙ sum k,
        )
        (rw (sync, at, opened) at e)
  sync-cases name p size bytes f (b ∷ bs) s {r = r} {t = t} at opened size_is live sum e =
      let w' = (lib.zrocks_write s.dev (b ∷ bs) f.level).1 in
      let kept = store.write_keeps s.dev (b ∷ bs) f.level in
      let sound = store.write_sound s.dev (b ∷ bs) f.level in
      let live' : store.IsSound w' → AllLive cell Live w' f.pieces =
        λ k. (AllLive-keeps cell Live s.dev w' f.pieces kept (live (sound k))).0 in
      let sum' : store.IsSound w' → flushed (cell w') f.pieces ++ (b ∷ bs) ≡ bytes = λ k.
        ap (λ l. l ++ (b ∷ bs)) (AllLive-keeps cell Live s.dev w' f.pieces kept (live (sound k))).1
        ∙ sum (sound k) in
      let written : EnvState W = record s { dev = w' } in
      elim (Option-cases (lib.zrocks_write s.dev (b ∷ bs) f.level).0) [
        | inl error ↦
            let result = rw (sync, at, opened, error) at e in
            let h =
              of_some (λ (v : EnvState W). Holds v p size bytes) {u = written}
                (record {
                  file = f;
                  cache = b ∷ bs;
                  at = at;
                  opened = opened;
                  live = live';
                  size_is = size_is;
                  bytes_are = sum';
                })
                result in
            (h, λ good. absurd (cc (result, good)))
        | inr (maps, done) ↦
            let (h, flat) =
              sync_maps-Holds name p size bytes f maps (b ∷ bs) written at size_is
                (λ k.
                  let (new, places) = store.write_places s.dev (b ∷ bs) f.level maps done k in
                  (live' k, new, places, sum' k))
                (rw (sync, at, opened, done) at e) in
            (h, λ _. flat)
      ]

  -- Where live pieces outlive every call of the library, `Sync` keeps the size of the object and, unless a write of the library was lost without an error, its
  -- bytes, whether or not the library reports that the write failed; where it reports none, all the bytes
  -- are in the pieces.
  pub sync-Holds :
      (name : Name) (p size : ℕ) (bytes : List ℕ) (s : EnvState W) {r : Status (Unit {0})}
      {t : EnvState W}
      → Holds s p size bytes
      → sync lib name p s ≡ some (r, t)
      → (h : Holds t p size bytes) × (r ≡ ok tt
          → store.IsSound t.dev
          → flushed (cell t.dev) h.file.pieces ≡ bytes)
  sync-Holds name p size bytes s h e =
      sync-cases name p size bytes h.file h.cache s h.at h.opened h.size_is h.live h.bytes_are e
