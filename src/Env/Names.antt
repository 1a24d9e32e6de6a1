-- ===== src/Env/Names.antt =====
-- Files by name: env/env_zns.cc. `NormalizePath` is a parameter. The files whose names have MANIFEST in
-- them, and those that are not found, are left to the Posix environment, which is another store; the
-- calls that it gets besides are left out.
pub mod Recordable
pub mod Renames
use x_ztl.Common.{
  ℕ, ◌+◌, ◌%◌, ◌^◌, Bool, true, false, ◌||◌, if◌then◌else◌, ◌==◌, List, [], ◌∷◌, Option, none, some,
  ◌>>=◌, set,
}
use x_ztl.Common.Int.{pos}
use x_ztl.Consts.{zns_max_buf}
use x_ztl.Addr.{ZrocksMap}
use x_ztl.Env.{Name, Library, new_file}
use x_ztl.Env.Files.{FileMap, EnvState, deref, find, look_up, insert, erase, allocate, delete}
use x_ztl.Env.Meta.{flush_del_meta_data, flush_replace_meta_data}
use x_ztl.Env.Write.{WritableFile}

-- What answers a call: the Posix environment, or this one.
pub data Answer {ℓ} (A : Type ℓ) : Type ℓ where
  posix : Answer A
  zns : A → Answer A

abbrev manifest : Name
manifest = 77 ∷ 65 ∷ 78 ∷ 73 ∷ 70 ∷ 69 ∷ 83 ∷ 84 ∷ []

unfoldable pub begins_with : Name → Name → Bool
begins_with [] name = true
begins_with (x ∷ xs) [] = false
begins_with (x ∷ xs) (y ∷ ys) = elim (x == y) [ true ↦ begins_with xs ys | false ↦ false ]

-- `ZNSEnv::IsFilePosix`: `fname.find("MANIFEST")`
unfoldable pub is_file_posix : Name → Bool
unfolding begins_with
is_file_posix [] = begins_with manifest []
is_file_posix (x ∷ xs) = let rest = is_file_posix xs in begins_with manifest (x ∷ xs) || rest

-- `files.find(name)`, unless it is a null pointer.
unfoldable pub live_file : FileMap → Name → Option ℕ
unfolding find
live_file files name = elim (find files name) [ none ↦ none | some o ↦ o ]

unfoldable pub trim_all : {W : Type 0} → Library W → W → List ZrocksMap → W
trim_all lib dev [] = dev
trim_all lib dev (m ∷ ms) = trim_all lib (lib.zrocks_trim dev m) ms

module _ {W : Type 0} (lib : Library W) (normalize : Name → Name) where
  -- `ZNSEnv::NewSequentialFile`: the object, and `read_off` is 0.
  pub new_sequential_file : EnvState W → Name → Answer ℕ × EnvState W
  unfolding is_file_posix look_up
  new_sequential_file s fname =
      let name = normalize fname in
      let (o, files) = look_up s.files name in
      let found : Answer ℕ = elim o [ none ↦ posix | some p ↦ zns p ] in
      if is_file_posix name then (posix, s) else (found, record s { files = files })

  -- `ZNSEnv::NewRandomAccessFile`: the object, which may be a null pointer.
  pub new_random_access_file : EnvState W → Name → Answer (Option ℕ) × EnvState W
  unfolding is_file_posix look_up
  new_random_access_file s fname =
      let name = normalize fname in
      let (o, files) = look_up s.files name in
      if is_file_posix name then (posix, s) else (zns o, record s { files = files })

  -- The object of a name is deleted; the pieces that it has are not trimmed.
  delete_old : EnvState W → Name → Option (EnvState W)
  unfolding find delete
  delete_old s name = elim (find s.files name) [
    | none ↦ some s
    | some o ↦ do
      heap ← delete s.heap o
      some (record s { heap = heap; files = erase s.files name })
  ]

  -- The new object of a name, open for writing.
  create_file : EnvState W → Name → WritableFile × EnvState W
  unfolding allocate insert
  create_file s name =
      let (allocated, dev) = lib.zrocks_alloc s.dev zns_max_buf in
      let f = record (new_file allocated name (pos 0)) { uuididx = s.uuididx; is_writing = true } in
      let (p, heap) = allocate s.heap f in
      (
        record { filename = name; znsfile = p; filesize = 0 },
        record s {
          heap = heap;
          files = insert s.files name (some p);
          uuididx = (s.uuididx + 1) % 2 ^ 64;
          dev = dev;
        },
      )

  -- `ZNSEnv::NewWritableFile`
  pub new_writable_file : EnvState W → Name → Option (Answer WritableFile × EnvState W)
  unfolding is_file_posix delete_old create_file
  new_writable_file s fname =
      let name = normalize fname in
      let made = (do t ← delete_old s name; let (w, u) = create_file t name; some (zns w, u)) in
      if is_file_posix name then some (posix, s) else made

  -- `ZNSEnv::DeleteFile`, where the file is in the map.
  unfoldable pub delete_live : EnvState W → Name → ℕ → Option (EnvState W)
  unfolding deref delete erase trim_all
  delete_live s name p = do
    f ← deref s.heap p
    heap ← delete s.heap (some p)
    (_, t) ←
        flush_del_meta_data lib name
          (record s { heap = heap; files = erase s.files name; dev = trim_all lib s.dev f.pieces })
    some t

  pub delete_file : EnvState W → Name → Option (Answer (Unit {0}) × EnvState W)
  unfolding is_file_posix live_file delete_live
  delete_file s fname =
      let name = normalize fname in
      let gone : Option (Answer (Unit {0}) × EnvState W) = elim (live_file s.files name) [
        | none ↦ some (zns tt, s)
        | some p ↦ do t ← delete_live s name p; some (zns tt, t)
      ] in
      if is_file_posix name then some (posix, s) else gone

  -- `ZNSEnv::GetFileSize`; `zns none` leaves the caller's size as it is.
  pub get_file_size : EnvState W → Name → Option (Answer (Option ℕ))
  unfolding is_file_posix live_file deref
  get_file_size s fname =
      let name = normalize fname in
      let found : Option (Answer (Option ℕ)) = elim (live_file s.files name) [
        | none ↦ some (zns none)
        | some p ↦ do f ← deref s.heap p; some (zns (some f.size))
      ] in
      if is_file_posix name then some posix else found

  -- `ZNSEnv::GetFileModificationTime`
  pub get_file_modification_time : Name → Answer ℕ
  unfolding is_file_posix
  get_file_modification_time fname = if is_file_posix (normalize fname) then posix else zns 0

  -- `ZNSEnv::RenameFile`, where the file is in the map: an object that `target` had stays on the heap.
  unfoldable pub rename_live : EnvState W → Name → Name → ℕ → Option (EnvState W)
  unfolding deref insert erase
  rename_live s src target p = do
    f ← deref s.heap p
    (_, t) ← flush_replace_meta_data lib src target (record s {
      heap = set s.heap p (some (record f { name = target }));
      files = erase (insert s.files target (some p)) src;
    })
    some t

  unfoldable pub rename_file : EnvState W → Name → Name → Option (Answer (Unit {0}) × EnvState W)
  unfolding is_file_posix live_file rename_live
  rename_file s fsrc ftarget =
      let src = normalize fsrc in
      let target = normalize ftarget in
      let renamed : Option (Answer (Unit {0}) × EnvState W) = elim (live_file s.files src) [
        | none ↦ some (zns tt, s)
        | some p ↦ do t ← rename_live s src target p; some (zns tt, t)
      ] in
      if is_file_posix src then some (posix, s) else renamed

  -- `ZNSEnv::FileExists`
  pub file_exists : EnvState W → Name → Answer (Unit {0})
  unfolding live_file
  file_exists s fname = elim (live_file s.files (normalize fname)) [
    | none ↦ posix
    | some p ↦ zns tt
  ]
