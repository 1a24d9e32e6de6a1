-- ===== src/Env/Gc.antt =====
-- The garbage collection of the file system: `GCWorker` and `MigrateNodeFile` in env/env_zns.cc, while
-- `run_gc_worker_` is set. A round is one run of the worker's loop.
pub mod Migrate
use x_ztl.Common.{
  ℕ, zero, suc, ◌+◌, ◌*◌, ◌/◌, Bool, true, false, ◌==◌, ltb, leb, if◌then◌else◌, ◌||◌, List, [],
  ◌∷◌, ◌++◌, Option, none, some, ◌>>=◌, get_elem?, set, length, drop,
}
use x_ztl.Common.Int.{ℤ, pos}
use x_ztl.Consts.{zns_alignment, ztl_io_sec_mcmd}
use x_ztl.Addr.{ZrocksMap}
use x_ztl.Env.{Name, Library, ZnsFile, piece_start}
use x_ztl.Env.Files.{EnvState, deref, find, add_name, names_of}
use x_ztl.Env.Meta.{flush_gc_change_meta_data}
use x_ztl.Env.Write.{other_node}

abbrev pub zns_gc_node_ivd_min_percent : ℕ
zns_gc_node_ivd_min_percent = 85

abbrev pub zns_gc_nodes_percent : ℕ
zns_gc_nodes_percent = 28

-- `gc_nodes_threshold`, as the constructor of `ZNSEnv` sets it.
pub gc_nodes_threshold : ℕ → ℕ
gc_nodes_threshold nr_nodes = nr_nodes * zns_gc_nodes_percent / 100

-- The nodes that are worth to be collected, with their percents.
unfoldable pub candidates : List ℕ → ℕ → List (ℕ × ℕ)
candidates [] id = []
candidates (percent ∷ ps) id =
    let rest = candidates ps (id + 1) in
    if (percent == 100) || ltb percent zns_gc_node_ivd_min_percent
    then rest
    else (percent, id) ∷ rest

-- `std::greater` on the pairs, and the sort by it.
unfoldable pub pair_greater : ℕ × ℕ → ℕ × ℕ → Bool
pair_greater (a, x) (b, y) = if a == b then ltb y x else ltb b a

unfoldable pub insert_pair : ℕ × ℕ → List (ℕ × ℕ) → List (ℕ × ℕ)
unfolding pair_greater
insert_pair p [] = p ∷ []
insert_pair p (q ∷ qs) =
    let rest = insert_pair p qs in if pair_greater p q then p ∷ q ∷ qs else q ∷ rest

unfoldable pub sort_pairs : List (ℕ × ℕ) → List (ℕ × ℕ)
unfolding insert_pair
sort_pairs [] = []
sort_pairs (p ∷ ps) = insert_pair p (sort_pairs ps)

-- `maps[2]` after a write, of which each map takes its place.
unfoldable pub overwrite : List ZrocksMap → List ZrocksMap → List ZrocksMap
overwrite maps [] = maps
overwrite [] (n ∷ new) = n ∷ new
overwrite (m ∷ maps) (n ∷ new) = n ∷ overwrite maps new

-- The local variables of a migration: `cnid`, the maps of the last writes, and the places in them that
-- `map_change` points to.
pub record Migration (W : Type 0) : Type 0 where
  pub dev : W
  pub nid_file_map : List (ℕ × List Name)
  pub cnid : ℤ
  pub maps : List ZrocksMap
  pub map_change : List ℕ

-- The new maps of a piece.
unfoldable pub note_maps : {W : Type 0} → Name → List ZrocksMap → ℕ → Migration W → Migration W
unfolding other_node add_name
note_maps name [] i g = g
note_maps name (m ∷ ms) i g =
    let other = other_node g.cnid m.node_id in
    note_maps name ms (i + 1) (record g {
      cnid = (if other then pos m.node_id else g.cnid);
      nid_file_map = (if other then add_name g.nid_file_map m.node_id name else g.nid_file_map);
      map_change = g.map_change ++ (i ∷ []);
    })

-- What is read of a piece: all its sectors, the padding too.
unfoldable pub whole_piece : ZrocksMap → ℕ
whole_piece m = m.num * zns_alignment * ztl_io_sec_mcmd

module _ {W : Type 0} (lib : Library W) where
  -- The copy of a piece: its new maps, or `none` where it stays where it is.
  unfoldable pub copy_piece :
      ℤ → Name → ZrocksMap → Migration W → Option (List ZrocksMap) × Migration W
  unfolding note_maps overwrite whole_piece
  copy_piece level name m g =
      elim (lib.zrocks_read g.dev m.node_id (piece_start m) (whole_piece m)) [
        | none ↦ (none, g)
        | some bytes ↦
            let (r, dev) = lib.zrocks_write g.dev bytes level in
            let written = record g { dev = dev } in
            elim r [
              | none ↦ (none, written)
              | some [] ↦ (none, written)
              | some (n ∷ new) ↦ (
                some (n ∷ new),
                note_maps name (n ∷ new) 0 (record written { maps = overwrite g.maps (n ∷ new) }),
              )
            ]
      ]

  -- The loop over the copy of the file's map.
  unfoldable pub copy_pieces :
      ℕ → ℤ → Name → List ZrocksMap → Migration W → List ZrocksMap × Migration W
  unfolding copy_piece
  copy_pieces nid level name [] g = ([], g)
  copy_pieces nid level name (m ∷ ms) g =
      let (r, moved) = copy_piece level name m g in
      let (kept_rest, kept_end) = copy_pieces nid level name ms g in
      let (rest, end) = copy_pieces nid level name ms moved in
      if m.node_id == nid
      then (elim r [ none ↦ (m ∷ rest, end) | some new ↦ (new ++ rest, end) ])
      else (m ∷ kept_rest, kept_end)

  -- `zrocks_trim` of the pieces that the file has in the node.
  unfoldable pub trim_node : ℕ → List ZrocksMap → W → W
  trim_node nid [] dev = dev
  trim_node nid (m ∷ ms) dev =
      let trimmed = trim_node nid ms (lib.zrocks_trim dev m) in
      let kept = trim_node nid ms dev in if m.node_id == nid then trimmed else kept

  -- `zrocks_trim` of what `map_change` points to.
  unfoldable pub trim_changes : List ℕ → List ZrocksMap → W → W
  trim_changes [] maps dev = dev
  trim_changes (i ∷ is) maps dev =
      trim_changes is maps (elim (get_elem? maps i) [ none ↦ dev | some m ↦ lib.zrocks_trim dev m ])

  -- The end of a migration, under the mutex: the file may have been deleted since it began.
  unfoldable pub migrate_end :
      ℕ → Name → ℕ → List ZrocksMap → Migration W → EnvState W → Option (EnvState W)
  unfolding find deref trim_node trim_changes
  migrate_end nid name p pieces g s =
      let copied = record s { nid_file_map = g.nid_file_map } in
      elim (find s.files name) [
        | none ↦ some (record copied { dev = trim_changes g.map_change g.maps g.dev })
        | some _ ↦ do
          f ← deref s.heap p
          let trimmed = record copied {
            heap = set s.heap p (some (record f { pieces = pieces }));
            dev = trim_node nid f.pieces g.dev;
          }
          (_, t) ← flush_gc_change_meta_data lib p trimmed
          some t
      ]

  -- `ZNSEnv::MigrateNodeFile`; a null pointer in the map is a fault.
  pub migrate_node_file : ℕ → Name → EnvState W → Option (EnvState W)
  unfolding copy_pieces migrate_end find deref
  migrate_node_file nid name s = elim (find s.files name) [
    | none ↦ some s
    | some none ↦ none
    | some (some p) ↦ do
      f ← deref s.heap p
      let begun : Migration W = record {
        dev = s.dev;
        nid_file_map = s.nid_file_map;
        cnid = f.current_nid;
        maps = [];
        map_change = [];
      }
      let (pieces, g) = copy_pieces nid f.level name f.pieces begun
      let done = migrate_end nid name p pieces g (record s { dev = g.dev })
      if f.is_writing then some s else done
  ]

  migrate_names : ℕ → List Name → EnvState W → Option (EnvState W)
  unfolding migrate_node_file
  migrate_names nid [] s = some s
  migrate_names nid (name ∷ names) s = do
    t ← migrate_node_file nid name s
    migrate_names nid names t

  -- The nodes, from the one with the most invalid pieces on, until enough nodes are free.
  migrate_nodes : (W → ℕ) → ℕ → List (ℕ × ℕ) → EnvState W → Option (EnvState W)
  unfolding migrate_names names_of
  migrate_nodes free_nodes threshold [] s = some s
  migrate_nodes free_nodes threshold ((percent, nid) ∷ ns) s =
      let collect = (do
        t ← migrate_names nid (names_of s.nid_file_map nid) s
        migrate_nodes free_nodes threshold ns t) in
      if leb threshold (free_nodes s.dev) then some s else collect

  -- A round of `ZNSEnv::GCWorker`, with the library's numbers of free nodes and percents.
  pub gc_round : (W → ℕ) → (W → List ℕ) → ℕ → EnvState W → Option (EnvState W)
  unfolding candidates sort_pairs migrate_nodes
  gc_round free_nodes full_nodes threshold s =
      let collect =
        migrate_nodes free_nodes threshold (sort_pairs (candidates (full_nodes s.dev) 0)) s in
      if leb threshold (free_nodes s.dev) then some s else collect
