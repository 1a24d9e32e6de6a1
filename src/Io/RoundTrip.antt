-- ===== src/Io/RoundTrip.antt =====
-- What the read path and the write path of xztl/src/ztl-io.c agree on: the place of every byte.
use x_ztl.Common.{
  ℕ, ◌+◌, ◌-◌, ◌*◌, ◌/◌, ◌%◌, ◌^◌, ◌≤◌, ◌<◌, ◌≡◌, refl, sym, ap, ◌∙◌, Option, some, ◌>>=◌, List,
  arith, get_elem?,
}
use x_ztl.Data.{Zone, Node, Group, Slot}
use x_ztl.Io.Read.{div_up, read_commands}
use x_ztl.Io.Read.Coverage.{source_of, byte_at, read_commands-source}
use x_ztl.Io.Write.{write_commands}
use x_ztl.Io.Write.Address.{IsNode, InStep, write_node-Placed}
use x_ztl.Pro.{zone_of, grp_get}

-- The device byte from which a read of `size` bytes at `offset` fills byte `d` of the user's buffer.
abbrev pub read_byte : (ℕ → Option Zone) → ℕ → ℕ → ℕ → Option ℕ
read_byte zone offset size d = do ms ← read_commands zone offset size; source_of ms d

-- The device byte to which a write of `num` pieces at `start` of the node puts byte `d` of piece `i`.
abbrev pub write_byte : Group → ℕ → ℕ → ℕ → ℕ → ℕ → ℕ → ℕ → Option ℕ
write_byte grp id num start nbytes boff i d = do
  (slots, grp') ← grp_get grp num id start
  ms ← write_commands nbytes num boff slots
  m ← get_elem? ms i
  some (m.addr.sect * 4096 + d)

-- The sectors and the memory address of the command of piece `i` of such a write.
abbrev pub write_fields : Group → ℕ → ℕ → ℕ → ℕ → ℕ → ℕ → Option (ℕ × ℕ)
write_fields grp id num start nbytes boff i = do
  (slots, grp') ← grp_get grp num id start
  ms ← write_commands nbytes num boff slots
  m ← get_elem? ms i
  some (m.nsec, m.prp)

module _ (grp : Group) (id : ℕ) (node : Node) (zn : ℕ → Zone) (ent : ℕ → ℕ)
    (v : IsNode grp id node zn ent) where
  -- A read of a node of 64 zones, each with a metadata entry of its own and beginning 2^23 sectors
  -- or more below 2^36 that ends below byte 2^40 and makes at most 1024 commands does not fault,
  -- and fills byte `d < size` of the user's buffer from the place of the node's byte `offset + d`:
  -- pieces of 8 sectors go round the 64 zones.
  pub read_byte_lem :
      (offset size d : ℕ)
      → offset + size < 2 ^ 40
      → offset / 4096 % 8 + div_up (size + offset % 4096) 4096 ≤ 8192
      → d < size
      → read_byte (zone_of grp.pro node) offset size d ≡ some (byte_at zn (offset + d))
  read_byte_lem offset size d h r lt =
      let (ms, run, source) =
        read_commands-source (zone_of grp.pro node) zn (λ k hk. (v.laid k hk).0) v.low offset size h
          r in
      rw run (source d lt)

  -- A write of `num` pieces (at most 1024, up to piece 2^20) to a node of 64 zones, each with a
  -- metadata entry of its own and beginning 2^23 sectors or more below 2^36, which holds `start`
  -- pieces and has its in-flight pointers in step with them, does not fault, and puts byte `d` of
  -- piece `i < num` in the place of the node's byte `(start + i) * 32768 + d`.
  pub write_byte_lem :
      (num start nbytes boff i d : ℕ)
      → num ≤ 1024
      → start + num ≤ 2 ^ 20
      → InStep grp.tbl zn ent start
      → boff < 2 ^ 64
      → i < num
      → d < 32768
      → write_byte grp id num start nbytes boff i d ≡ some (byte_at zn ((start + i) * 32768 + d))
  write_byte_lem num start nbytes boff i d small room step hb lt ld =
      let (slots, tbl, ms, given, made, placed, after) =
        write_node-Placed grp id node zn ent v num start small room step nbytes boff hb in
      let (m, here, size, prp, place) = placed.command i lt in
      rw (given, made, here) (ap some (place d ld))

  -- Provisioning `num` pieces (at most 1024, up to piece 2^20) of a node of 64 zones, each with a
  -- metadata entry of its own and beginning 2^23 sectors or more below 2^36, whose in-flight
  -- pointers are in step with `start` pieces, does not fault and leaves the pointers in step with
  -- `start + num` pieces.
  pub grp_get-InStep :
      (num start : ℕ)
      → num ≤ 1024
      → start + num ≤ 2 ^ 20
      → InStep grp.tbl zn ent start
      → (slots : List Slot) × (grp' : Group) × (grp_get grp num id start ≡ some (slots, grp'))
        × InStep grp'.tbl zn ent (start + num)
  grp_get-InStep num start small room step =
      let (slots, tbl, ms, given, made, placed, after) =
        write_node-Placed grp id node zn ent v num start small room step 0 0 (omega arith) in
      (slots, record grp { tbl = tbl }, given, after)

  -- In a write of `num` pieces (at most 1024, up to piece 2^20) to a node of 64 zones, each with a
  -- metadata entry of its own and beginning 2^23 sectors or more below 2^36, whose in-flight
  -- pointers are in step with `start` pieces, the command of piece `i < num` is for 8 sectors and
  -- takes the user's bytes from `i * 8` sectors into the buffer on, its address on 64 bits.
  pub write_commands-prp :
      (num start nbytes boff i : ℕ)
      → num ≤ 1024
      → start + num ≤ 2 ^ 20
      → InStep grp.tbl zn ent start
      → boff < 2 ^ 64
      → i < num
      → write_fields grp id num start nbytes boff i ≡ some (8, (boff + i * (nbytes * 8)) % 2 ^ 64)
  write_commands-prp num start nbytes boff i small room step hb lt =
      let (slots, tbl, ms, given, made, placed, after) =
        write_node-Placed grp id node zn ent v num start small room step nbytes boff hb in
      let (m, here, size, prp, place) = placed.command i lt in
      rw (given, made, here, size, prp) refl

  -- What is written is read back: for a write of `num` pieces (at most 1024, up to piece 2^20) to a
  -- node of 64 zones, each with a metadata entry of its own and beginning 2^23 sectors or more
  -- below 2^36, whose in-flight pointers are in step with `start` pieces, and a read of the node
  -- that ends below byte 2^40 and makes at most 1024 commands, byte `d < size` of the read's buffer
  -- comes from the place where the write put byte `(offset + d) % 32768` of the piece `(offset + d)
  -- / 32768 - start`, if that piece is one of the `num` written.
  pub read_byte-write_byte :
      (num start nbytes boff offset size d : ℕ)
      → num ≤ 1024
      → start + num ≤ 2 ^ 20
      → InStep grp.tbl zn ent start
      → boff < 2 ^ 64
      → offset + size < 2 ^ 40
      → offset / 4096 % 8 + div_up (size + offset % 4096) 4096 ≤ 8192
      → d < size
      → start * 32768 ≤ offset + d
      → offset + d < (start + num) * 32768
      → read_byte (zone_of grp.pro node) offset size d
        ≡ write_byte grp id num start nbytes boff
            ((offset + d) / 32768 - start)
            ((offset + d) % 32768)
  read_byte-write_byte num start nbytes boff offset size d small room step hb h r lt lo hi =
      let i : ℕ = (offset + d) / 32768 - start in
      let e : (start + i) * 32768 + (offset + d) % 32768 ≡ offset + d = omega arith in
      read_byte_lem offset size d h r lt
      ∙ sym (
          rw e at (
            write_byte_lem num start nbytes boff i ((offset + d) % 32768) small room step hb
              (omega arith) (omega arith)))
