-- ===== src/Env/Write/Keeps.antt =====
-- What the metadata's writes leave: the files but for `start_index`, and the bytes on the device.
use x_ztl.Common.{
  ℕ, ◌%◌, ◌^◌, ◌≡◌, refl, ap, ◌∙◌, Bool, true, ◌==◌, List, [], ◌∷◌, ◌++◌, Option, some, set, length,
  inl, inr, Bool-cases, Option-cases, gen,
}
use x_ztl.Addr.{ZrocksMap}
use x_ztl.Common.Int.{ℤ}
use x_ztl.Env.{Name, Library, Status, ok, failed, piece_size, piece_start}
use x_ztl.Env.Files.{EnvState, deref}
use x_ztl.Env.Meta.{
  write_meta_to_buf, flush_files, write_twice, flush_meta_data, flush_record,
  flush_update_meta_data, md_write_full, record_bytes, base_bytes, op_update, op_replace,
  replace_body, flush_replace_meta_data, with_buffer, flush_file,
}
use x_ztl.Env.Read.Slice.{flushed}
use x_ztl.Env.Write.Touches.{
  Touches, Touches-refl, Touches-trans, Touches-set, write_meta_to_buf-index, flush_files-Touches,
}

-- What a device keeps from one state to another: the maps that are live stay live, with their bytes.
module _ {W : Type 0} (cell : W → ℕ → ℕ → ℕ) (Live : W → ZrocksMap → Type 0) where
  abbrev pub piece_cells : W → ZrocksMap → List ℕ
  piece_cells w m = gen (cell w m.node_id) (piece_start m) (piece_size m)

  abbrev pub KeepsPieces : W → W → Type 0
  KeepsPieces w w' = (m : ZrocksMap) → Live w m → Live w' m × (piece_cells w' m ≡ piece_cells w m)

  pub KeepsPieces-refl : (w : W) → KeepsPieces w w
  KeepsPieces-refl w m l = (l, refl)

  pub KeepsPieces-trans : (a b c : W) → KeepsPieces a b → KeepsPieces b c → KeepsPieces a c
  KeepsPieces-trans a b c ab bc m l =
      let (l', e) = ab m l in let (l'', e') = bc m l' in (l'', e' ∙ e)

  abbrev pub AllLive : W → List ZrocksMap → Type 0
  AllLive w [] = Unit
  AllLive w (m ∷ ms) = Live w m × AllLive w ms

  pub AllLive-keeps :
      (w w' : W) (ms : List ZrocksMap)
      → KeepsPieces w w'
      → AllLive w ms
      → AllLive w' ms × (flushed (cell w') ms ≡ flushed (cell w) ms)
  unfolding flushed
  AllLive-keeps w w' [] k h = (tt, refl)
  AllLive-keeps w w' (m ∷ ms) k (l, ls) =
      let (l', e) = k m l in
      let (ls', es) = AllLive-keeps w w' ms k ls in
      ((l', ls'), ap (λ t. t ++ flushed (cell w') ms) e ∙ ap (λ t. piece_cells w m ++ t) es)

  pub AllLive-append :
      (w : W) (ms ns : List ZrocksMap) → AllLive w ms → AllLive w ns → AllLive w (ms ++ ns)
  AllLive-append w [] ns h g = g
  AllLive-append w (m ∷ ms) ns (l, ls) g = (l, AllLive-append w ms ns ls g)

-- What the users of the library rely on: live maps outlive every call. A write may be lost without an
-- error, as where `zrocks_write` returns OK for a media write that failed; `IsSound` says of a state
-- that no write so far was. If none was, a write that succeeds gave live maps that hold the bytes.
pub record IsStore {W : Type 0} (lib : Library W) (cell : W → ℕ → ℕ → ℕ)
    (Live : W → ZrocksMap → Type 0) : Type 1 where
  pub IsSound : W → Type 0
  pub alloc_sound : (w : W) (n : ℕ) → IsSound (lib.zrocks_alloc w n).1 → IsSound w
  pub meta_sound :
      (w : W) (bytes : List ℕ) → IsSound (lib.zrocks_write_file_metadata w bytes).1 → IsSound w
  pub write_sound :
      (w : W) (bytes : List ℕ) (level : ℤ) → IsSound (lib.zrocks_write w bytes level).1 → IsSound w
  pub alloc_keeps : (w : W) (n : ℕ) → KeepsPieces cell Live w (lib.zrocks_alloc w n).1
  pub meta_keeps :
      (w : W) (bytes : List ℕ) → KeepsPieces cell Live w (lib.zrocks_write_file_metadata w bytes).1
  pub write_keeps :
      (w : W) (bytes : List ℕ) (level : ℤ)
      → KeepsPieces cell Live w (lib.zrocks_write w bytes level).1
  pub write_places :
      (w : W) (bytes : List ℕ) (level : ℤ) (maps : List ZrocksMap)
      → (lib.zrocks_write w bytes level).0 ≡ some maps
      → IsSound (lib.zrocks_write w bytes level).1
      → AllLive cell Live (lib.zrocks_write w bytes level).1 maps
        × (flushed (cell (lib.zrocks_write w bytes level).1) maps ≡ bytes)

module _ {W : Type 0} (lib : Library W) (cell : W → ℕ → ℕ → ℕ) (Live : W → ZrocksMap → Type 0)
    (store : IsStore lib cell Live) where
  -- A later state of the device: live maps are kept, and if no write was lost, none was before.
  abbrev pub Later : W → W → Type 0
  Later w w' = KeepsPieces cell Live w w' × (store.IsSound w' → store.IsSound w)

  Later-refl : (w : W) → Later w w
  Later-refl w = (KeepsPieces-refl cell Live w, λ k. k)

  Later-trans : (a b c : W) → Later a b → Later b c → Later a c
  Later-trans a b c (k, h) (k', h') = (KeepsPieces-trans cell Live a b c k k', λ s. h (h' s))

  meta-Later : (w : W) (bytes : List ℕ) → Later w (lib.zrocks_write_file_metadata w bytes).1
  meta-Later w bytes = (store.meta_keeps w bytes, store.meta_sound w bytes)

  alloc-Later : (w : W) (n : ℕ) → Later w (lib.zrocks_alloc w n).1
  alloc-Later w n = (store.alloc_keeps w n, store.alloc_sound w n)

  abbrev pub Keeps : EnvState W → EnvState W → Type 0
  Keeps s t = Touches s.heap t.heap × (l : Later s.dev t.dev) × (t.files ≡ s.files)

  Keeps-trans : (a b c : EnvState W) → Keeps a b → Keeps b c → Keeps a c
  Keeps-trans a b c (h, d, e) (h', d', e') =
      (Touches-trans a.heap b.heap c.heap h h', Later-trans a.dev b.dev c.dev d d', e' ∙ e)

  -- The state of a result.
  Keeps-some :
      (s : EnvState W) {r r' : Status (Unit {0})} {t u : EnvState W}
      → Keeps s u
      → ◌≡◌ {A = Option (Status (Unit {0}) × EnvState W)} (some (r', u)) (some (r, t))
      → Keeps s t
  Keeps-some s {t = t} {u = u} k e = let same : u ≡ t = cc in rw same at k

  write_twice-keeps : (w : W) (bytes : List ℕ) → Later w (write_twice lib w bytes)
  unfolding write_twice
  write_twice-keeps w bytes =
      let once = meta-Later w bytes in
      let w' = (lib.zrocks_write_file_metadata w bytes).1 in
      let twice = meta-Later w' bytes in
      elim (Bool-cases ((lib.zrocks_write_file_metadata w bytes).0 == md_write_full)) [
        | inl full ↦
            rw full (Later-trans w w' (lib.zrocks_write_file_metadata w' bytes).1 once twice)
        | inr done ↦ rw done once
      ]

  flush_meta_data-Keeps :
      (s : EnvState W) {r : Status (Unit {0})} {t : EnvState W}
      → flush_meta_data lib s ≡ some (r, t)
      → Keeps s t
  unfolding flush_meta_data
  flush_meta_data-Keeps s {t = t} e = elim (Option-cases (flush_files s.files s.heap 0 4112 [])) [
    | inl fault ↦ absurd (cc (rw (flush_meta_data, fault) at e))
    | inr ((failed x, heap), done) ↦
        Keeps-some s (flush_files-Touches s.files s.heap 0 4112 [] done, Later-refl s.dev, refl)
          (rw (flush_meta_data, done) at e)
    | inr ((ok (n, out), heap), done) ↦
        Keeps-some s
          (
            flush_files-Touches s.files s.heap 0 4112 [] done,
            write_twice-keeps s.dev (base_bytes s.sequence n out),
            refl,
          )
          (rw (flush_meta_data, done) at e)
  ]

  flush_record-Keeps :
      (s : EnvState W) (bytes : List ℕ) {r : Status (Unit {0})} {t : EnvState W}
      → flush_record lib s bytes ≡ some (r, t)
      → Keeps s t
  unfolding flush_record
  flush_record-Keeps s bytes {t = t} e =
      let w' = (lib.zrocks_write_file_metadata s.dev bytes).1 in
      let written : EnvState W = record s { dev = w' } in
      let once : Keeps s written = (Touches-refl s.heap, meta-Later s.dev bytes, refl) in
      elim (Bool-cases ((lib.zrocks_write_file_metadata s.dev bytes).0 == md_write_full)) [
        | inr done ↦ Keeps-some s once (rw (flush_record, done) at e)
        | inl full ↦ elim (Option-cases (flush_meta_data lib written)) [
          | inl fault ↦ absurd (cc (rw (flush_record, full, fault) at e))
          | inr ((r', u), all) ↦
              Keeps-some s (Keeps-trans s written u once (flush_meta_data-Keeps written all))
                (rw (flush_record, full, all) at e)
        ]
      ]

  flush_file-Keeps :
      (tag : ℕ) (update : Bool) (p : ℕ) (s : EnvState W) {r : Status (Unit {0})} {t : EnvState W}
      → flush_file lib tag update p s ≡ some (r, t)
      → Keeps s t
  unfolding flush_file
  flush_file-Keeps tag update p s {t = t} e = elim (Option-cases (deref s.heap p)) [
    | inl dangling ↦ absurd (cc (rw (flush_file, dangling) at e))
    | inr (f, at) ↦ elim (Option-cases (write_meta_to_buf f update)) [
      | inl long ↦ absurd (cc (rw (flush_file, at, long) at e))
      | inr ((meta, f'), written) ↦ elim (Option-cases (record_bytes tag meta)) [
        | inl large ↦ absurd (cc (rw (flush_file, at, written, large) at e))
        | inr (bytes, fits) ↦
            let index = write_meta_to_buf-index f update written in
            let touched : EnvState W = record s { heap = set s.heap p (some f') } in
            let first : Keeps s touched = (
              rw index (Touches-set s.heap p (length f.pieces % 2 ^ 32) f at),
              Later-refl s.dev,
              refl,
            ) in
            Keeps-trans s touched t first
              (flush_record-Keeps touched bytes (rw (flush_file, at, written, fits) at e))
      ]
    ]
  ]

  -- The update record of a file leaves every file but for what is noted as recorded, and the live
  -- pieces.
  pub flush_update_meta_data-Keeps :
      (p : ℕ) (s : EnvState W) {r : Status (Unit {0})} {t : EnvState W}
      → flush_update_meta_data lib p s ≡ some (r, t)
      → Keeps s t
  unfolding flush_update_meta_data with_buffer
  flush_update_meta_data-Keeps p s {t = t} e =
      let w' = (lib.zrocks_alloc s.dev 4096).1 in
      let buffered : EnvState W = record s { dev = w' } in
      let once : Keeps s buffered = (Touches-refl s.heap, alloc-Later s.dev 4096, refl) in
      elim (Option-cases (deref s.heap p)) [
        | inl dangling ↦ absurd (cc (rw (flush_update_meta_data, dangling) at e))
        | inr (f, at) ↦ elim (Bool-cases (f.start_index == length f.pieces)) [
          | inl recorded ↦
              Keeps-some s (Touches-refl s.heap, Later-refl s.dev, refl)
                (rw (flush_update_meta_data, at, recorded) at e)
          | inr new ↦ elim (Bool-cases (lib.zrocks_alloc s.dev 4096).0) [
            | inl memory ↦ Keeps-trans s buffered t once (
                flush_file-Keeps op_update true p buffered
                  (rw (flush_update_meta_data, with_buffer, at, new, memory) at e))
            | inr none_left ↦
                Keeps-some s once
                  (rw (flush_update_meta_data, with_buffer, at, new, none_left) at e)
          ]
        ]
      ]

  -- The same of the record of a new name.
  pub flush_replace_meta_data-Keeps :
      (src dest : Name) (s : EnvState W) {r : Status (Unit {0})} {t : EnvState W}
      → flush_replace_meta_data lib src dest s ≡ some (r, t)
      → Keeps s t
  unfolding flush_replace_meta_data with_buffer
  flush_replace_meta_data-Keeps src dest s {t = t} e =
      let w' = (lib.zrocks_alloc s.dev 4096).1 in
      let buffered : EnvState W = record s { dev = w' } in
      let once : Keeps s buffered = (Touches-refl s.heap, alloc-Later s.dev 4096, refl) in
      elim (Bool-cases (lib.zrocks_alloc s.dev 4096).0) [
        | inr none_left ↦
            Keeps-some s once (rw (flush_replace_meta_data, with_buffer, none_left) at e)
        | inl memory ↦ elim (Option-cases (record_bytes op_replace (replace_body src dest))) [
          | inl large ↦ absurd (cc (rw (flush_replace_meta_data, with_buffer, memory, large) at e))
          | inr (bytes, fits) ↦ Keeps-trans s buffered t once (
              flush_record-Keeps buffered bytes
                (rw (flush_replace_meta_data, with_buffer, memory, fits) at e))
        ]
      ]
