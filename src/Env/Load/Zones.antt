-- ===== src/Env/Load/Zones.antt =====
-- The metadata zones at start: `LoadMetaData` in env/env_zns.cc. `none` is as for the records, or fuel
-- that is used up.
use x_ztl.Common.{
  ℕ, zero, suc, ◌+◌, ◌-◌, ◌/◌, ◌%◌, ◌^◌, true, false, ◌==◌, ltb, leb, if◌then◌else◌, List, [], ◌∷◌,
  ◌++◌, Option, none, some, ◌>>=◌,
}
use x_ztl.Consts.{zns_alignment}
use x_ztl.Env.{Library, Status, ok, failed, io_error, memory_limit}
use x_ztl.Env.Bytes.{get_le, get_bytes}
use x_ztl.Env.Files.{EnvState}
use x_ztl.Env.Meta.{file_metadata_buf_size, metadata_magic, metadata_head_size, flush_meta_data}
use x_ztl.Env.Load.{get_head, load_record, clear_meta_data, set_nodes_info}

module _ {W : Type 0} (lib : Library W) where
  -- The record at a sector, with the sectors after the first one where it is longer.
  read_rest : W → ℕ → ℕ → List ℕ → Option (List ℕ)
  read_rest dev slba data_length body =
      let len = data_length + metadata_head_size in
      let more = (do
        b ← lib.zrocks_read_metadata dev (slba + 1) (len - zns_alignment)
        some (body ++ b)) in
      if ltb zns_alignment len then more else some body

  -- `while (true)` over the records of a zone: whether a read failed, and the state.
  load_loop : ℕ → EnvState W → ℕ → Option (Status (Unit {0}) × EnvState W)
  unfolding get_head read_rest load_record
  load_loop zero s slba = none
  load_loop (suc fuel) s slba = elim (lib.zrocks_read_metadata s.dev slba zns_alignment) [
    | none ↦ some (failed io_error, s)
    | some first ↦ do
      (data_length, tag, body) ← get_head first
      elim (data_length == 0) [
        | true ↦ some (ok tt, s)
        | false ↦ elim (leb (data_length + metadata_head_size) file_metadata_buf_size) [
          | false ↦ none
          | true ↦ elim (read_rest s.dev slba data_length body) [
            | none ↦ some (failed io_error, s)
            | some whole ↦ do
              t ← load_record lib s tag whole
              load_loop fuel t (slba + (metadata_head_size + data_length) / zns_alignment)
          ]
        ]
      ]
  ]

  -- The zone heads: the sequence numbers with their zones, the highest last.
  insert_seq : List (ℕ × ℕ) → ℕ → ℕ → List (ℕ × ℕ)
  insert_seq [] seq slba = (seq, slba) ∷ []
  insert_seq ((n, a) ∷ ns) seq slba =
      let rest = insert_seq ns seq slba in
      if seq == n
      then (seq, slba) ∷ ns
      else if ltb seq n
      then (seq, slba) ∷ (n, a) ∷ ns
      else (n, a) ∷ rest

  read_heads : W → List ℕ → List (ℕ × ℕ) → ℕ → Option (Status (List (ℕ × ℕ) × ℕ))
  unfolding insert_seq
  read_heads dev [] seqs sequence = some (ok (seqs, sequence))
  read_heads dev (slba ∷ slbas) seqs sequence =
      elim (lib.zrocks_read_metadata dev slba zns_alignment) [
        | none ↦ some (failed io_error)
        | some head ↦ do
          (magic, after_magic) ← get_le 1 head
          (padding, after_padding) ← get_bytes 3 after_magic
          (seq, rest) ← get_le 4 after_padding
          let next : ℕ = (if ltb sequence seq then seq else sequence)
          let marked = read_heads dev slbas (insert_seq seqs seq slba) next
          let other = read_heads dev slbas seqs sequence
          if magic == metadata_magic then marked else other
      ]

  last_zone : List (ℕ × ℕ) → Option ℕ
  last_zone [] = none
  last_zone ((n, a) ∷ []) = some a
  last_zone ((n, a) ∷ m ∷ ns) = last_zone (m ∷ ns)

  -- The zone with the highest sequence number is read to its end, which also ends the loop over the
  -- zones.
  load_zone : ℕ → EnvState W → ℕ → Option (Status (Unit {0}) × EnvState W)
  unfolding clear_meta_data load_loop
  load_zone fuel s slba = do
    cleared ← clear_meta_data lib s
    (r, t) ← load_loop fuel cleared (slba + 1)
    some (elim r [
      | failed e ↦ (failed e, t)
      | ok _ ↦ (
        ok tt,
        record t { dev = lib.zrocks_switch_zone t.dev slba; sequence = (t.sequence + 1) % 2 ^ 64 },
      )
    ])

  -- LOAD_END
  load_end : EnvState W → Option (Status (Unit {0}) × EnvState W)
  unfolding set_nodes_info
  load_end s = do
    t ← set_nodes_info lib s
    (_, u) ← flush_meta_data lib (record t { dev = lib.zrocks_clear_invalid_nodes t.dev })
    some (ok tt, u)

  -- The zone heads that were read, and the zone that they name.
  load_zones : ℕ → EnvState W → List (ℕ × ℕ) → Option (Status (Unit {0}) × EnvState W)
  unfolding last_zone load_zone load_end
  load_zones fuel s seqs = elim (last_zone seqs) [
    | none ↦ load_end s
    | some slba ↦ do
      (r, t) ← load_zone fuel s slba
      elim r [ failed e ↦ some (failed e, t) | ok _ ↦ load_end t ]
  ]

  -- `ZNSEnv::LoadMetaData`
  pub load_meta_data : ℕ → EnvState W → Option (Status (Unit {0}) × EnvState W)
  unfolding read_heads load_zones
  load_meta_data fuel s =
      let (allocated, dev) = lib.zrocks_alloc s.dev file_metadata_buf_size in
      let begun = record s { dev = dev } in
      elim allocated [
        | false ↦ some (failed memory_limit, begun)
        | true ↦ do
          heads ← read_heads dev (lib.zrocks_get_metadata_slbas dev) [] s.sequence
          elim heads [
            | failed e ↦ some (failed e, begun)
            | ok (seqs, sequence) ↦ load_zones fuel (record begun { sequence = sequence }) seqs
          ]
      ]
