-- ===== src/Metadata/Writes.antt =====
-- What a write of file metadata does to the zones, with a device that accepts every write.
use x_ztl.Common.{
  ◌&&◌, ℕ, zero, suc, ◌+◌, ◌-◌, ◌*◌, ◌/◌, ◌≤◌, ◌<◌, ◌≡◌, ◌≢◌, refl, sym, ap, ◌∙◌, Bool, true, false,
  ◌==◌, ltb, leb, if◌then◌else◌, List, [], ◌∷◌, Option, none, some, get_elem?, set, inl, inr,
  Bool-cases, arith, ==→eq, ==→ne, ne→==, eq→==,
}
use x_ztl.Consts.{xztl_ok, xztl_ztl_md_write_full}
use x_ztl.Metadata.{
  MetaZone, Metadata, meta_attempts, meta_write_loop, other_zone, switch_zone, write_file_metadata,
}

-- A command of the device: its sector, its sectors and its place in the buffer.
pub record Chunk : Type 0 where
  pub slba : ℕ
  pub nlb : ℕ
  pub off : ℕ

-- A device that accepts every command and keeps them, the last one first.
abbrev pub recorder : List Chunk → ℕ → ℕ → ℕ → Bool × List Chunk
recorder w slba nlb off = (false, record { slba = slba; nlb = nlb; off = off } ∷ w)

-- The place in the buffer that is written to the sector `s`, by the last command that covers it.
abbrev pub written_at : List Chunk → ℕ → Option ℕ
written_at [] s = none
written_at (c ∷ cs) s =
    if leb c.slba s && ltb s (c.slba + c.nlb)
    then some (c.off + (s - c.slba) * 4096)
    else written_at cs s

-- The sectors of a round with `n` to go.
abbrev taken : ℕ → ℕ
taken n = if ltb 64 n then 64 else n

taken_lem :
    (n : ℕ)
    → ((if ltb 262144 (n * 4096) then 262144 else n * 4096) ≡ taken n * 4096)
      × (taken n * 4096 / 4096 ≡ taken n)
      × (n * 4096 - taken n * 4096 ≡ (n - taken n) * 4096)
taken_lem n = (ground arith, omega arith, ground arith)

chunk : ℕ → ℕ → ℕ → Chunk
chunk slba nlb off = record { slba = slba; nlb = nlb; off = off }

meta_write_loop-step :
    (fuel : ℕ) (w : List Chunk) (wptr off n : ℕ)
    → n ≢ 0
    → meta_write_loop recorder (suc fuel) w wptr off (n * 4096)
      ≡ meta_write_loop recorder fuel
          (chunk wptr (taken n) off ∷ w)
          (wptr + taken n)
          (off + taken n * 4096)
          ((n - taken n) * 4096)
unfolding meta_write_loop meta_attempts chunk
meta_write_loop-step fuel w wptr off n ne =
    let (a, b, c) = taken_lem n in
    let some_left : (n * 4096 == 0) ≡ false = ground arith in rw (some_left, a, b, c) refl

written_at-chunk :
    (w : List Chunk) (slba nlb off s : ℕ)
    → (slba ≤ s
        → s < slba + nlb
        → written_at (chunk slba nlb off ∷ w) s ≡ some (off + (s - slba) * 4096))
      × (s < slba → written_at (chunk slba nlb off ∷ w) s ≡ written_at w s)
unfolding chunk
written_at-chunk w slba nlb off s = (λ lo hi. ground arith, λ lt. ground arith)

stops :
    (fuel : ℕ) (w : List Chunk) (wptr off n : ℕ)
    → n ≡ 0
    → meta_write_loop recorder (suc fuel) w wptr off (n * 4096) ≡ some (false, wptr + n, w)
unfolding meta_write_loop meta_attempts
stops fuel w wptr off n e =
    let z : (n * 4096 == 0) ≡ true = ground arith in
    let b : wptr + n ≡ wptr = omega arith in rw (z, b) refl

meta_write_loop-recorder :
    (fuel : ℕ) (w : List Chunk) (wptr off n : ℕ)
    → n < fuel
    → (w' : List Chunk) × (meta_write_loop recorder fuel w wptr off (n * 4096)
        ≡ some (false, wptr + n, w'))
      × ((s : ℕ) → s < wptr → written_at w' s ≡ written_at w s)
      × ((i : ℕ) → i < n → written_at w' (wptr + i) ≡ some (off + i * 4096))
meta_write_loop-recorder zero w wptr off n h = elim h [ ]
meta_write_loop-recorder (suc fuel) w wptr off n h = elim (Bool-cases (n == 0)) [
  | inl y ↦
      let e = ==→eq n 0 y in
      (w, stops fuel w wptr off n e, λ s lt. refl, λ i lt. absurd (omega arith))
  | inr x ↦
      let ne = ==→ne n 0 x in
      let k = taken n in
      let (w', run, below, above) =
        meta_write_loop-recorder fuel (chunk wptr k off ∷ w) (wptr + k) (off + k * 4096) (n - k)
          (ground (arith, ne)) in
      let all : wptr + k + (n - k) ≡ wptr + n = ground arith in
      (
        w',
        meta_write_loop-step fuel w wptr off n ne ∙ (run ∙ rw all refl),
        λ s lt. below s (omega arith) ∙ (written_at-chunk w wptr k off s).1 lt,
        λ i lt. elim (Bool-cases (ltb i k)) [
          | inl y ↦ first w w' wptr off n i y (below (wptr + i) (ground arith))
          | inr z ↦ later w' wptr off n i z (above (i - k) (ground arith))
        ],
      )
]
  where
    first :
        (w w' : List Chunk) (wptr off n i : ℕ)
        → ltb i (taken n) ≡ true
        → written_at w' (wptr + i) ≡ written_at (chunk wptr (taken n) off ∷ w) (wptr + i)
        → written_at w' (wptr + i) ≡ some (off + i * 4096)
    first w w' wptr off n i y e =
        let d : wptr + i - wptr ≡ i = omega arith in
        e
        ∙ ((written_at-chunk w wptr (taken n) off (wptr + i)).0 (omega arith) (ground arith)
            ∙ rw d refl)

    later :
        (w' : List Chunk) (wptr off n i : ℕ)
        → ltb i (taken n) ≡ false
        → written_at w' (wptr + taken n + (i - taken n))
          ≡ some (off + taken n * 4096 + (i - taken n) * 4096)
        → written_at w' (wptr + i) ≡ some (off + i * 4096)
    later w' wptr off n i z e =
        let a : wptr + taken n + (i - taken n) ≡ wptr + i = ground arith in
        let b : off + taken n * 4096 + (i - taken n) * 4096 ≡ off + i * 4096 = ground arith in
        rw (← a, ← b) e

write_file_metadata-step :
    (mgmt_send : List Chunk → ℕ → Bool × List Chunk) (w w' : List Chunk) (md : Metadata)
    (z : MetaZone) (n wptr : ℕ)
    → get_elem? md.zones md.curr_zone_index ≡ some z
    → leb (z.sect + z.capacity) (z.wptr + n) ≡ false
    → meta_write_loop recorder (n + 2) w z.wptr 0 (n * 4096) ≡ some (false, wptr, w')
    → write_file_metadata recorder mgmt_send w md (n * 4096)
      ≡ some (
        xztl_ok,
        w',
        record md { zones = set md.zones md.curr_zone_index (record z { wptr = wptr }) },
      )
unfolding write_file_metadata
write_file_metadata-step mgmt_send w w' md z n wptr cur fits run =
    let k : n * 4096 / 4096 ≡ n = omega arith in rw (cur, k, fits, run) refl

other_zone-second : (a b : MetaZone) → a.sect ≢ b.sect → other_zone (a ∷ b ∷ []) a.sect 0 ≡ some 1
unfolding other_zone
other_zone-second a b ne =
    let own : (a.sect == a.sect) ≡ true = eq→== a.sect a.sect refl in
    let other : (b.sect == a.sect) ≡ false = ne→== b.sect a.sect (λ q. ne (sym q)) in
    rw (own, other) refl

switch_zone-second :
    {W : Type 0} (mgmt_send : W → ℕ → Bool × W) (w : W) (a b : MetaZone)
    → a.sect ≢ b.sect
    → switch_zone mgmt_send w (record { zones = a ∷ b ∷ []; curr_zone_index = 0 }) a.sect ≡ (
      (mgmt_send w b.sect).1,
      record { zones = a ∷ (record b { wptr = b.sect }) ∷ []; curr_zone_index = 1 },
    )
unfolding switch_zone
switch_zone-second mgmt_send w a b ne = rw (switch_zone, other_zone-second a b ne) refl

-- A write of `n` sectors of file metadata that leaves room in the current zone, on a device that accepts
-- every command, succeeds: sector `i` of the buffer is at the write pointer's sector plus `i`, no sector
-- before the pointer is touched, and the pointer moves on by `n`.
pub write_file_metadata-written_at :
    (mgmt_send : List Chunk → ℕ → Bool × List Chunk) (w : List Chunk) (md : Metadata) (z : MetaZone)
    (n : ℕ)
    → get_elem? md.zones md.curr_zone_index ≡ some z
    → z.wptr + n < z.sect + z.capacity
    → (w' : List Chunk) × (write_file_metadata recorder mgmt_send w md (n * 4096)
        ≡ some (
          xztl_ok,
          w',
          record md { zones = set md.zones md.curr_zone_index (record z { wptr = z.wptr + n }) },
        ))
      × ((s : ℕ) → s < z.wptr → written_at w' s ≡ written_at w s)
      × ((i : ℕ) → i < n → written_at w' (z.wptr + i) ≡ some (i * 4096))
write_file_metadata-written_at mgmt_send w md z n cur room =
    let (w', run, below, above) = meta_write_loop-recorder (n + 2) w z.wptr 0 n (omega arith) in
    let fits : leb (z.sect + z.capacity) (z.wptr + n) ≡ false = ground arith in
    (
      w',
      write_file_metadata-step mgmt_send w w' md z n (z.wptr + n) cur fits run,
      below,
      λ i lt. above i lt ∙ ap some (omega arith),
    )

-- The write that goes over to the second zone.
switched :
    (mgmt_send : List Chunk → ℕ → Bool × List Chunk) (w : List Chunk) (a b : MetaZone) (len : ℕ)
    → a.sect ≢ b.sect
    → a.sect + a.capacity ≤ a.wptr + len / 4096
    → write_file_metadata recorder mgmt_send w
        (record { zones = a ∷ b ∷ []; curr_zone_index = 0 })
        len
      ≡ some (
        xztl_ztl_md_write_full,
        (mgmt_send w b.sect).1,
        record { zones = a ∷ (record b { wptr = b.sect }) ∷ []; curr_zone_index = 1 },
      )
unfolding write_file_metadata
switched mgmt_send w a b len ne full =
    let out : leb (a.sect + a.capacity) (a.wptr + len / 4096) ≡ true = ground arith in
    rw (out, switch_zone-second mgmt_send w a b ne) refl

-- A write that does not fit the first of two metadata zones fails and writes nothing, but sends the reset
-- of the second zone to the device. The next write of `n` sectors that leaves room in that zone, on a
-- device that accepts every write, succeeds: sector `i` of its buffer is at sector `i` of the second zone,
-- and no sector before that zone is touched after the reset.
pub write_file_metadata-switch_zone :
    (mgmt_send : List Chunk → ℕ → Bool × List Chunk) (w : List Chunk) (a b : MetaZone) (len n : ℕ)
    → a.sect ≢ b.sect
    → a.sect + a.capacity ≤ a.wptr + len / 4096
    → n < b.capacity
    → (md : Metadata) × (write_file_metadata recorder mgmt_send w
          (record { zones = a ∷ b ∷ []; curr_zone_index = 0 })
          len
        ≡ some (xztl_ztl_md_write_full, (mgmt_send w b.sect).1, md))
      × (w' : List Chunk) × (write_file_metadata recorder mgmt_send
            (mgmt_send w b.sect).1
            md
            (n * 4096)
          ≡ some (
            xztl_ok,
            w',
            record { zones = a ∷ (record b { wptr = b.sect + n }) ∷ []; curr_zone_index = 1 },
          ))
      × ((s : ℕ) → s < b.sect → written_at w' s ≡ written_at (mgmt_send w b.sect).1 s)
      × ((i : ℕ) → i < n → written_at w' (b.sect + i) ≡ some (i * 4096))
write_file_metadata-switch_zone mgmt_send w a b len n ne full room =
    let next : Metadata = record {
      zones = a ∷ (record b { wptr = b.sect }) ∷ [];
      curr_zone_index = 1;
    } in
    let empty : MetaZone = record b { wptr = b.sect } in
    let (w', run, below, above) =
      write_file_metadata-written_at mgmt_send (mgmt_send w b.sect).1 next empty n refl
        (omega (arith, room)) in
    (next, switched mgmt_send w a b len ne full, w', run, below, above)
