-- ===== src/Media/Zones.antt =====
-- The addresses that zone management sends to the device.
use x_ztl.Common.{
  ℕ, ◌+◌, ◌*◌, ◌%◌, ◌^◌, ◌<◌, ◌≤◌, ◌≡◌, ap, ◌⊎◌, inl, inr, arith, Bool-cases, ltb, ltb→lt, ltb→le,
  le_mul, small_mod,
}
use x_ztl.Addr.{Maddr}
use x_ztl.Media.{mul32}
use x_ztl.Media.Commands.{manage_lba}

-- The number of a zone on a device with one unit in each group.
abbrev pub zone_index : ℕ → Maddr → ℕ
zone_index nzone a = nzone * a.grp + a.zone

-- An address of a zone that there is, on a device of so many groups of so many units of so many zones.
pub record IsZone (ngrps npunit nzone : ℕ) (a : Maddr) : Type 0 where
  pub grp_in : a.grp < ngrps
  pub punit_in : a.punit < npunit
  pub zone_in : a.zone < nzone

zone_index-lt :
    (ngrps npunit nzone : ℕ) (a : Maddr)
    → IsZone ngrps npunit nzone a
    → zone_index nzone a < nzone * ngrps
zone_index-lt ngrps npunit nzone a h = grind arith

mul_mono : (a b c : ℕ) → a ≤ b → a * c ≤ b * c
mul_mono a b c h = grind arith

-- On a device of at most 2^32 sectors the address is the first sector of the zone.
manage_lba_lem :
    (ngrps npunit nzone nsect : ℕ) (a : Maddr)
    → 0 < nsect
    → nzone * ngrps * nsect ≤ 2 ^ 32
    → IsZone ngrps npunit nzone a
    → manage_lba nzone nsect a ≡ zone_index nzone a * nsect
unfolding manage_lba
manage_lba_lem ngrps npunit nzone nsect a some_sectors fits h =
    let below = zone_index-lt ngrps npunit nzone a h in
    let end = mul_mono (zone_index nzone a + 1) (nzone * ngrps) nsect (omega (arith, below)) in
    let next : (zone_index nzone a + 1) * nsect ≡ zone_index nzone a * nsect + nsect =
      grind arith in
    let few = le_mul (nzone * ngrps) nsect some_sectors in
    let index : (mul32 nzone a.grp + a.zone) % 2 ^ 32 ≡ zone_index nzone a =
      omega (arith, below, few, fits) in
    rw index (
      small_mod (zone_index nzone a * nsect) (2 ^ 32)
        (omega (arith, end, next, fits, some_sectors)))

next_grp : (n g k : ℕ) → g < k → n * g + n ≤ n * k
next_grp n g k h = grind arith

zone_index-apart :
    (nzone : ℕ) (a b : Maddr)
    → a.zone < nzone
    → b.zone < nzone
    → zone_index nzone a ≡ zone_index nzone b
    → (a.grp ≡ b.grp) × (a.zone ≡ b.zone)
zone_index-apart nzone a b h k e = elim (Bool-cases (ltb a.grp b.grp)) [
  | inl before ↦ absurd (omega (arith, next_grp nzone a.grp b.grp (ltb→lt _ _ before), e, h))
  | inr not_before ↦ elim (Bool-cases (ltb b.grp a.grp)) [
    | inl after ↦ absurd (omega (arith, next_grp nzone b.grp a.grp (ltb→lt _ _ after), e, k))
    | inr not_after ↦
        let same : a.grp ≡ b.grp = omega (arith, ltb→le _ _ not_before, ltb→le _ _ not_after) in
        (same, omega (arith, ap (λ (g : ℕ). nzone * g) same, e))
  ]
]

next_zone : (n i j : ℕ) → i < j → i * n + n ≤ j * n
next_zone n i j h = grind arith

-- On a device of at most 2^32 sectors with one unit in each group, the addresses that zone management
-- sends for two zones are at least a zone apart, unless they are the same zone, and each zone from its
-- address on lies on the device.
pub manage_lba_apart :
    (ngrps npunit nzone nsect : ℕ) (a b : Maddr)
    → npunit ≡ 1
    → 0 < nsect
    → nzone * npunit * ngrps * nsect ≤ 2 ^ 32
    → IsZone ngrps npunit nzone a
    → IsZone ngrps npunit nzone b
    → (manage_lba nzone nsect a + nsect ≤ nzone * npunit * ngrps * nsect)
      × (((a.grp ≡ b.grp) × (a.punit ≡ b.punit) × (a.zone ≡ b.zone))
          ⊎ ((manage_lba nzone nsect a + nsect ≤ manage_lba nzone nsect b)
              ⊎ (manage_lba nzone nsect b + nsect ≤ manage_lba nzone nsect a)))
manage_lba_apart ngrps npunit nzone nsect a b one_unit some_sectors small h k =
    let units : nzone * npunit ≡ nzone = rw one_unit (omega arith) in
    let fits : nzone * ngrps * nsect ≤ 2 ^ 32 = rw units at small in
    let at_a = manage_lba_lem ngrps npunit nzone nsect a some_sectors fits h in
    let at_b = manage_lba_lem ngrps npunit nzone nsect b some_sectors fits k in
    let i = zone_index nzone a in
    let j = zone_index nzone b in
    let within = next_zone nsect i (nzone * ngrps) (zone_index-lt ngrps npunit nzone a h) in
    let in_a = h.punit_in in
    let in_b = k.punit_in in
    (
      rw units (omega (arith, at_a, within)),
      elim (Bool-cases (ltb i j)) [
        | inl before ↦
            inr (inl (omega (arith, at_a, at_b, next_zone nsect i j (ltb→lt _ _ before))))
        | inr not_before ↦ elim (Bool-cases (ltb j i)) [
          | inl after ↦
              inr (inr (omega (arith, at_a, at_b, next_zone nsect j i (ltb→lt _ _ after))))
          | inr not_after ↦
              let (grp, zone) =
                zone_index-apart nzone a b h.zone_in k.zone_in
                  (omega (arith, ltb→le _ _ not_before, ltb→le _ _ not_after)) in
              inl (grp, omega (arith, in_a, in_b, one_unit), zone)
        ]
      ],
    )
