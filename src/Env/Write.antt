-- ===== src/Env/Write.antt =====
-- Writable files: env/env_zns_io.cc. An outer `none` is a write past the write cache or to a null one, a use of a
-- deleted file, or a fault of the metadata's writes. `zrocks_write` gives at most the two maps that
-- `maps` has place for.
pub mod Touches
pub mod Keeps
pub mod Contents
pub mod Append
pub mod Results
use x_ztl.Common.{
  ℕ, zero, suc, ◌+◌, ◌-◌, ◌*◌, ◌%◌, ◌^◌, Bool, true, false, not, ◌==◌, ltb, leb, if◌then◌else◌,
  List, [], ◌∷◌, ◌++◌, Option, none, some, ◌>>=◌, length, set, take, drop,
}
use mathlib.Core.Option
use x_ztl.Common.Int.{ℤ, pos, negsuc}
use x_ztl.Consts.{zns_max_buf}
use x_ztl.Data.{sub64}
use x_ztl.Addr.{ZrocksMap}
use x_ztl.Env.{Name, Library, Status, ok, failed, io_error, ZnsFile, cached_bytes}
use x_ztl.Env.Files.{EnvState, deref, add_name}
use x_ztl.Env.Meta.{flush_update_meta_data}

-- class ZNSWritableFile: its name, the object that `znsfile` points to, and `filesize_`.
pub record WritableFile : Type 0 where
  pub filename : Name
  pub znsfile : ℕ
  pub filesize : ℕ

-- `znsfile->current_nid != maps[i].g.node_id`
unfoldable pub other_node : ℤ → ℕ → Bool
other_node (pos n) node_id = not (n == node_id)
other_node (negsuc n) node_id = true

-- The loop over the maps of a write.
unfoldable pub push_maps :
    Name → List ZrocksMap → ZnsFile → List (ℕ × List Name) → ZnsFile × List (ℕ × List Name)
unfolding other_node add_name
push_maps name [] f nids = (f, nids)
push_maps name (m ∷ ms) f nids =
    let other = other_node f.current_nid m.node_id in
    push_maps name ms
      (record f {
        pieces = f.pieces ++ (m ∷ []);
        current_nid = (if other then pos m.node_id else f.current_nid);
      })
      (if other then add_name nids m.node_id name else nids)

-- `cache_off = wcache`
unfoldable pub reset_cache : ZnsFile → ZnsFile
reset_cache f = record f { wcache = some [] }

-- memcpy to `cache_off`, and its step.
unfoldable pub fill_cache : List (Option ZnsFile) → ℕ → List ℕ → Option (List (Option ZnsFile))
unfolding deref
fill_cache heap p bytes = do
  f ← deref heap p
  old ← f.wcache
  let new = old ++ bytes
  if leb (length new) zns_max_buf
      then some (set heap p (some (record f { wcache = some new })))
      else none

-- `znsfile->size += data.size()`
unfoldable pub grow : List (Option ZnsFile) → ℕ → ℕ → Option (List (Option ZnsFile))
unfolding deref
grow heap p n = do
  f ← deref heap p
  some (set heap p (some (record f { size = (f.size + n) % 2 ^ 64 })))

module _ {W : Type 0} (lib : Library W) where
  -- What follows a `zrocks_write` that succeeded.
  unfoldable pub sync_maps :
      Name → ℕ → ZnsFile → List ZrocksMap → EnvState W → Option (Status (Unit {0}) × EnvState W)
  unfolding push_maps deref reset_cache
  sync_maps name p f maps s = do
    let (f', nids) = push_maps name maps f s.nid_file_map
    (_, t) ←
        flush_update_meta_data lib p
          (record s { heap = set s.heap p (some f'); nid_file_map = nids })
    g ← deref t.heap p
    some (ok tt, record t { heap = set t.heap p (some (reset_cache g)) })

  -- `ZNSWritableFile::Sync`
  unfoldable pub sync : Name → ℕ → EnvState W → Option (Status (Unit {0}) × EnvState W)
  unfolding sync_maps deref
  sync name p s = do
    f ← deref s.heap p
    elim f.wcache [
      | none ↦ some (ok tt, s)
      | some [] ↦ some (ok tt, s)
      | some (b ∷ bs) ↦
          let (r, dev) = lib.zrocks_write s.dev (b ∷ bs) f.level in
          elim r [
            | none ↦ some (failed io_error, record s { dev = dev })
            | some maps ↦ sync_maps name p f maps (record s { dev = dev })
          ]
    ]

  -- memcpy to the cache and `Sync`.
  unfoldable pub fill_and_sync :
      Name → ℕ → List ℕ → EnvState W → Option (Status (Unit {0}) × EnvState W)
  unfolding fill_cache sync
  fill_and_sync name p bytes s = do
    heap ← fill_cache s.heap p bytes
    sync name p (record s { heap = heap })

  -- `while (size > cpytobuf_size)`: what is left for the cache. Each round takes bytes, so as much
  -- fuel as there are bytes is enough.
  unfoldable pub append_loop :
      ℕ → Name → ℕ → List ℕ → EnvState W → Option (Status (List ℕ) × EnvState W)
  unfolding fill_and_sync
  append_loop zero name p bytes s =
      if ltb zns_max_buf (length bytes) then none else some (ok bytes, s)
  append_loop (suc fuel) name p bytes s =
      let round = (do
        (r, t) ← fill_and_sync name p (take zns_max_buf bytes) s
        elim r [
          | failed e ↦ some (failed io_error, t)
          | ok _ ↦ append_loop fuel name p (drop zns_max_buf bytes) t
        ]) in
      if ltb zns_max_buf (length bytes) then round else some (ok bytes, s)

  -- The part of `Append` for data that the cache has no room for: what is left for the cache.
  unfoldable pub append_large :
      Name → ℕ → ℕ → List ℕ → EnvState W → Option (Status (List ℕ) × EnvState W)
  unfolding fill_and_sync append_loop
  append_large name p room bytes s = do
    (r, t) ← fill_and_sync name p (take room bytes) s
    elim r [
      | failed e ↦ some (failed io_error, t)
      | ok _ ↦ append_loop (length bytes) name p (drop room bytes) t
    ]

  -- The end of `Append`.
  unfoldable pub append_end :
      WritableFile
      → ℕ
      → List ℕ
      → EnvState W
      → Option (Status (Unit {0}) × WritableFile × EnvState W)
  unfolding fill_cache grow
  append_end h n bytes s = do
    heap ← fill_cache s.heap h.znsfile bytes
    grown ← grow heap h.znsfile n
    some (ok tt, record h { filesize = (h.filesize + n) % 2 ^ 64 }, record s { heap = grown })

  -- `ZNSWritableFile::Append`
  unfoldable pub append :
      WritableFile → List ℕ → EnvState W → Option (Status (Unit {0}) × WritableFile × EnvState W)
  unfolding append_large append_end deref
  append h bytes s = do
    f ← deref s.heap h.znsfile
    elim f.wcache [
      | none ↦ some (failed io_error, h, s)
      | some old ↦
          let large = (do
            (r, t) ← append_large h.filename h.znsfile (zns_max_buf - length old) bytes s
            elim r [
              | failed e ↦ some (failed e, h, t)
              | ok rest ↦ append_end h (length bytes) rest t
            ]) in
          let small = append_end h (length bytes) bytes s in
          if ltb zns_max_buf (length old + length bytes) then large else small
    ]

  -- `ZNSWritableFile::PositionedAppend`, which only prints where the offset is not the end.
  pub positioned_append :
      WritableFile
      → List ℕ
      → ℕ
      → EnvState W
      → Option (Status (Unit {0}) × WritableFile × EnvState W)
  positioned_append h bytes offset s = append h bytes s

  -- `ZNSWritableFile::Fsync`
  pub fsync : Name → ℕ → EnvState W → Option (Status (Unit {0}) × EnvState W)
  fsync name p s = sync name p s

  -- `ZNSWritableFile::Truncate`, with the file's `filesize_`: only the cache gives bytes back.
  unfoldable pub truncate : WritableFile → ℕ → EnvState W → Option (WritableFile × EnvState W)
  unfolding deref cached_bytes
  truncate h size s = do
    f ← deref s.heap h.znsfile
    let trun_size = sub64 f.size size
    let shorter = Option.map (λ (bytes : List ℕ). take (length bytes - trun_size) bytes) f.wcache
    if ltb (length (cached_bytes f.wcache)) trun_size
        then some (h, s)
        else some (
          record h { filesize = size },
          record s {
            heap = set s.heap h.znsfile (some (record f { size = size; wcache = shorter }));
          },
        )

  -- `ZNSWritableFile::Close`: the status of `Sync` is dropped. `none` is also the assertion of
  -- `ReleaseWRLock`.
  pub close : WritableFile → EnvState W → Option (EnvState W)
  unfolding sync deref
  close h s = do
    (_, t) ← sync h.filename h.znsfile s
    f ← deref t.heap h.znsfile
    let closed = record f { wcache = none; is_writing = false }
    if f.is_writing then some (record t { heap = set t.heap h.znsfile (some closed) }) else none

-- `hint - Env::WLTH_SHORT`
hint_level : ℕ → ℕ → ℤ
hint_level wlth_short hint =
    if leb wlth_short hint then pos (hint - wlth_short) else negsuc (wlth_short - hint - 1)

-- `ZNSWritableFile::SetWriteLifeTimeHint`
pub set_write_life_time_hint : ℕ → List (Option ZnsFile) → ℕ → ℕ → Option (List (Option ZnsFile))
unfolding hint_level deref
set_write_life_time_hint wlth_short heap p hint = do
  f ← deref heap p
  some (set heap p (some (record f { level = hint_level wlth_short hint })))

-- `GetUniqueId` of a writable file: the identifier, of which it returns the length. The coding of
-- numbers is that of the key-value store.
pub get_unique_id : (ℕ → List ℕ) → ℕ → ZnsFile → ℕ → List ℕ
get_unique_id encode_varint64 max_varint64_length f max_size =
    if ltb max_size (max_varint64_length * 3)
    then []
    else encode_varint64 f.uuididx ++ (encode_varint64 f.uuididx ++ encode_varint64 f.uuididx)
