-- ===== src/Io/Write/Address.antt =====
-- A write puts piece `used + i` of a node where the read path looks for it: in zone
-- `(used + i) % 64`, `8 * ((used + i) / 64)` sectors from the zone's start.
use x_ztl.Common.{
  ℕ, ◌+◌, ◌-◌, ◌*◌, ◌/◌, ◌%◌, ◌^◌, ◌≤◌, ◌<◌, ◌≡◌, inl, inr, refl, sym, ap, ◌∙◌, ltb, if◌then◌else◌,
  List, map, some, arith, ltb→lt, ltb→le, Bool-cases, length, gen, gen-of-get, map-gen, get_elem?,
}
use x_ztl.Data.{Zone, Node, Group, Slot, ZmdEntry, add64}
use x_ztl.Addr.{Maddr}
use x_ztl.Io.Cmd.{Mcmd}
use x_ztl.Io.Write.{Share, share_of, write_mcmd, write_commands}
use x_ztl.Io.Write.Populate.{adv, adv-sect, Commands, populate-Commands}
use x_ztl.Io.Read.Coverage.{byte_at, byte_at-piece}
use x_ztl.Pro.{node_at, zone_of, grp_get}
use x_ztl.Pro.Get.{share, turn, Got, get_loop-Got, slot, Counters}

-- A node of the group with its 64 zones, each with a metadata entry of its own.
pub record IsNode (grp : Group) (id : ℕ) (node : Node) (zn : ℕ → Zone) (ent : ℕ → ℕ) : Type 0 where
  pub found : node_at grp.pro id ≡ some node
  pub laid :
      (k : ℕ) → k < 64 → (zone_of grp.pro node k ≡ some (zn k)) × ((zn k).zmd_entry ≡ some (ent k))
  pub apart : (j k : ℕ) → j < 64 → k < 64 → ent j ≡ ent k → j ≡ k
  pub low : (k : ℕ) → k < 64 → (zn k).addr.sect + 2 ^ 23 ≤ 2 ^ 36

-- The in-flight pointer of zone `k` when `used` pieces of the node are written.
abbrev pub level : (ℕ → Zone) → ℕ → ℕ → ℕ
level zn used k = (zn k).addr.sect + 8 * ((used + 63 - k) / 64)

-- The zones' in-flight pointers stand where `used` pieces end.
abbrev pub InStep : List ZmdEntry → (ℕ → Zone) → (ℕ → ℕ) → ℕ → Type 0
InStep tbl zn ent used =
    (k : ℕ)
    → k < 64
    → (e : ZmdEntry) × (get_elem? tbl (ent k) ≡ some e) × (e.wptr_inflight ≡ level zn used k)

-- The zones that `num` pieces touch.
abbrev pub touched : ℕ → ℕ
touched num = if ltb num 64 then num else 64

write_mcmd-fields :
    (c z boff : ℕ) (a : Maddr)
    → ((write_mcmd c z boff a).nsec ≡ 8)
      × ((write_mcmd c z boff a).prp ≡ boff)
      × ((write_mcmd c z boff a).addr.sect ≡ a.sect)
unfolding write_mcmd
write_mcmd-fields c z boff a = (refl, refl, refl)

start-Counters : (num : ℕ) → num < 2 ^ 32 → Counters (num / 64) (num % 64) (touched num) num
start-Counters num h = record {
  within = ground arith;
  last = λ z. ground arith;
  total = ground arith;
  small = h;
}

share-le : (num j : ℕ) → num ≤ 1024 → share (num / 64) (num % 64) j ≤ 17
share-le num j h = ground arith

-- The turn in which zone `k` is served, from zone `used % 64` on.
abbrev turn_of : ℕ → ℕ → ℕ
turn_of used k = (k + 64 - used % 64) % 64

-- What a zone's pointer gains is what its level gains.
level-add :
    (used num k base : ℕ)
    → k < 64
    → turn_of used k < touched num
    → base + 8 * ((used + num + 63 - k) / 64)
      ≡ base + 8 * ((used + 63 - k) / 64) + share (num / 64) (num % 64) (turn_of used k) * 8
level-add used num k base hk h = ground arith

level-same :
    (used num k base : ℕ)
    → k < 64
    → touched num ≤ turn_of used k
    → base + 8 * ((used + num + 63 - k) / 64) ≡ base + 8 * ((used + 63 - k) / 64)
level-same used num k base hk h = ground arith

-- Command `i` continues the level of its zone.
level-command :
    (used i base : ℕ)
    → base + 8 * ((used + 63 - turn (used % 64) (i % 64)) / 64) + 8 * (i / 64)
      ≡ base + 8 * ((used + i) / 64)
level-command used i base = omega arith

module _ (grp : Group) (id : ℕ) (node : Node) (zn : ℕ → Zone) (ent : ℕ → ℕ)
    (v : IsNode grp id node zn ent) (num used : ℕ) (small : num ≤ 1024) (room : used + num ≤ 2 ^ 20)
    (step : InStep grp.tbl zn ent used) where
  -- What `ztl_pro_grp_get` gives for `num` pieces at `used`.
  abbrev Provided : List Slot → List ZmdEntry → Type 0
  Provided slots tbl =
      Got (zone_of grp.pro node) zn ent (level zn used) v.laid v.apart (num / 64) (num % 64)
        (used % 64) (touched num) grp.tbl slots tbl

  provision :
      (slots : List Slot) × (tbl : List ZmdEntry) × (grp_get grp num id used
        ≡ some (slots, record grp { tbl = tbl }))
      × Provided slots tbl
  unfolding grp_get
  provision =
      let (slots, tbl, run, got) =
        get_loop-Got (zone_of grp.pro node) zn ent (level zn used) v.laid v.apart (touched num) 65
          (num / 64) (num % 64) (used % 64) num 0 grp.tbl (ground arith) (omega arith)
          (ground arith) (ground arith) (start-Counters num (omega arith))
          (λ j h. step (turn (used % 64) j) (omega arith)) in
      (slots, tbl, rw (v.found, run) refl, got)

  pointer :
      (k : ℕ)
      → k < 64
      → turn_of used k < touched num
      → add64 (level zn used k) (share (num / 64) (num % 64) (turn_of used k) * 8 % 2 ^ 32)
        ≡ level zn (used + num) k
  pointer k h t =
      let low = v.low k h in
      sym (
        level-add used num k (zn k).addr.sect h t
        ∙ omega (arith, share-le num (turn_of used k) small))

  InStep-after :
      (slots : List Slot) (tbl : List ZmdEntry)
      → Provided slots tbl
      → InStep tbl zn ent (used + num)
  InStep-after slots tbl got k h =
      let back : turn (used % 64) (turn_of used k) ≡ k = omega arith in
      elim (Bool-cases (ltb (turn_of used k) (touched num))) [
        | inl y ↦
            let t = ltb→lt (turn_of used k) (touched num) y in
            let (e, at_k, w) = rw back at (got.moved (turn_of used k) t) in
            (e, at_k, w ∙ pointer k h t)
        | inr y ↦
            let t = ltb→le (turn_of used k) (touched num) y in
            let (e, at_k, w) = step k h in
            (
              e,
              got.kept (ent k) (λ j lt q. missed k j h t lt (v.apart k _ h (omega arith) q)) ∙ at_k,
              w ∙ sym (level-same used num k (zn k).addr.sect h t),
            )
      ]
    where
      missed :
          (k j : ℕ)
          → k < 64
          → touched num ≤ turn_of used k
          → j < touched num
          → k ≡ turn (used % 64) j
          → ⊥
      missed k j h t lt q = ground arith

  -- The share of the zone in turn `j`.
  given : ℕ → Share
  given j = share_of (
      slot (zone_of grp.pro node) zn ent (level zn used) v.laid v.apart (turn (used % 64) j)
        (share (num / 64) (num % 64) j))

  shares :
      (slots : List Slot) (tbl : List ZmdEntry)
      → Provided slots tbl
      → map share_of slots ≡ gen given 0 (touched num)
  unfolding given
  shares slots tbl got =
      ap (map share_of) (
        gen-of-get _ 0 (touched num) slots got.count
          (λ j h. let e : 0 + j ≡ j = omega arith in rw e (got.piece j h)))
      ∙ map-gen share_of _ 0 (touched num)

  given-left : (j : ℕ) → j < touched num → (given j).left ≡ 8 * share (num / 64) (num % 64) j
  unfolding given share_of
  given-left j h = omega (arith, share-le num j small)

  commands :
      (nbytes boff : ℕ) (slots : List Slot) (tbl : List ZmdEntry)
      → boff < 2 ^ 64
      → Provided slots tbl
      → (ms : List Mcmd) × (write_commands nbytes num boff slots ≡ some ms)
        × Commands nbytes 0 boff (num / 64 * 64 + num % 64) given ms
  unfolding write_commands
  commands nbytes boff slots tbl hb got = rw (shares slots tbl got) (
      populate-Commands (num / 64) (num + 1) nbytes num 0 boff (num % 64) (touched num) given
        given-left (omega arith) (ground arith) (ground arith) (λ z. ground arith) (omega arith)
        small (omega arith) hb)

  given-start : (j : ℕ) → j < 64 → (given j).addr.sect ≡ level zn used (turn (used % 64) j)
  unfolding given share_of
  given-start j h = let low = v.low (turn (used % 64) j) (omega arith) in omega arith

  given-sect :
      (i : ℕ)
      → i < num
      → (adv (i / 64) (given (i % 64))).addr.sect
        ≡ (zn ((used + i) % 64)).addr.sect + 8 * ((used + i) / 64)
  given-sect i h =
      let k : ℕ = turn (used % 64) (i % 64) in
      let here : k ≡ (used + i) % 64 = omega arith in
      let low = v.low k (omega arith) in
      let start = given-start (i % 64) (omega arith) in
      adv-sect (i / 64) (given (i % 64)) (omega arith)
      ∙ (omega (arith, level-command used i (zn k).addr.sect)
          ∙ ap (λ z. (zn z).addr.sect + 8 * ((used + i) / 64)) here)

  -- What a node's turn of a write has done: command `i` is for the sectors where the read path
  -- looks for piece `used + i`, and carries the buffer's bytes from `i * (nbytes * 8)` on.
  pub record Placed (nbytes boff : ℕ) (ms : List Mcmd) : Type 0 where
    pub number : length ms ≡ num
    pub command :
        (i : ℕ)
        → i < num
        → (m : Mcmd) × (get_elem? ms i ≡ some m)
          × (m.nsec ≡ 8)
          × (m.prp ≡ add64 boff (i * (nbytes * 8)))
          × ((d : ℕ) → d < 32768 → m.addr.sect * 4096 + d ≡ byte_at zn ((used + i) * 32768 + d))

  -- A write of `num` pieces (at most 1024) to a node that has `used` pieces, all of its zones in
  -- step, provisions and makes its commands without fault. Command `i` covers the device bytes at
  -- which a read of the node finds piece `used + i`, and takes that piece's bytes of the buffer;
  -- afterwards the zones are in step with `used + num` pieces, and only the metadata table changed.
  pub write_node-Placed :
      (nbytes boff : ℕ)
      → boff < 2 ^ 64
      → (slots : List Slot) × (tbl : List ZmdEntry) × (ms : List Mcmd) × (grp_get grp num id used
          ≡ some (slots, record grp { tbl = tbl }))
        × (write_commands nbytes num boff slots ≡ some ms)
        × Placed nbytes boff ms
        × InStep tbl zn ent (used + num)
  write_node-Placed nbytes boff hb =
      let (slots, tbl, run, got) = provision in
      let (ms, made, cs) = commands nbytes boff slots tbl hb got in
      (
        slots,
        tbl,
        ms,
        run,
        made,
        record {
          number = cs.number ∙ omega arith;
          command = λ i h.
              let a : Maddr = (adv (i / 64) (given (i % 64))).addr in
              let f = write_mcmd-fields (0 + i) (i % 64) (add64 boff (i * (nbytes * 8))) a in
              (
                write_mcmd (0 + i) (i % 64) (add64 boff (i * (nbytes * 8))) a,
                cs.command i (omega arith),
                f.0,
                f.1,
                λ d hd. rw (f.2, given-sect i h, byte_at-piece zn (used + i) d hd) refl,
              );
        },
        InStep-after slots tbl got,
      )
