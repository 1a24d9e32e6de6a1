-- ===== src/Media/Geometry.antt =====
-- The sizes that the check of a geometry computes, and where they are exact.
use x_ztl.Common.{
  ℕ, ◌*◌, ◌^◌, ◌≤◌, ◌<◌, ◌≡◌, refl, ◌↔◌, ◌≢◌, ne→==, inl, inr, true, false, Bool-cases,
  Option-cases, Option, none, some, le_mul, mul_le, small_mod, arith,
}
use x_ztl.Consts.{xztl_ok}
use x_ztl.Media.{
  Mgeo, Media, bad_geometry, fill_geometry, missing_fn, media_check, media_set, mul32,
}

-- Within the limits.
pub record IsWithin (g : Mgeo) : Type 0 where
  pub some_grps : 0 < g.ngrps
  pub some_pus : 0 < g.pu_grp
  pub some_zones : 0 < g.zn_pu
  pub some_sectors : 0 < g.sec_zn
  pub some_bytes : 0 < g.nbytes
  pub grps : g.ngrps ≤ 128
  pub pus : g.pu_grp ≤ 8
  pub zones : g.zn_pu ≤ 8388608
  pub sectors : g.sec_zn ≤ 8388608
  pub bytes : g.nbytes ≤ 1048576
  pub oob : g.nbytes_oob ≤ 128

-- Every product of the counts, with no bound on its width.
pub record IsExact (g : Mgeo) : Type 0 where
  pub zn_grp : g.zn_grp ≡ g.pu_grp * g.zn_pu
  pub zn_dev : g.zn_dev ≡ g.pu_grp * g.zn_pu * g.ngrps
  pub sec_pu : g.sec_pu ≡ g.zn_pu * g.sec_zn
  pub sec_grp : g.sec_grp ≡ g.pu_grp * g.zn_pu * g.sec_zn
  pub sec_dev : g.sec_dev ≡ g.pu_grp * g.zn_pu * g.sec_zn * g.ngrps
  pub nbytes_zn : g.nbytes_zn ≡ g.nbytes * g.sec_zn
  pub nbytes_grp : g.nbytes_grp ≡ g.nbytes * g.sec_zn * (g.pu_grp * g.zn_pu)
  pub oob_grp : g.oob_grp ≡ g.pu_grp * g.zn_pu * g.sec_zn * g.nbytes_oob
  pub oob_pu : g.oob_pu ≡ g.zn_pu * g.sec_zn * g.nbytes_oob
  pub oob_zn : g.oob_zn ≡ g.sec_zn * g.nbytes_oob

bad_geometry-IsWithin : (g : Mgeo) → bad_geometry g ≡ false → IsWithin g
unfolding bad_geometry
bad_geometry-IsWithin g h = ground arith

within-good : (g : Mgeo) → IsWithin g → bad_geometry g ≡ false
unfolding bad_geometry
within-good g h = ground arith

le_mul_left : (a b c : ℕ) → 0 < a → b * c ≤ a * b * c
le_mul_left a b c h = let grown : b ≤ a * b = grind arith in mul_le b (a * b) c grown

mul_small : (a b : ℕ) → a < 2 ^ 32 → b < 2 ^ 32 → a * b < 2 ^ 64
mul_small a b h k = grind arith

fill_geometry-IsExact :
    (g : Mgeo)
    → IsWithin g
    → g.pu_grp * g.zn_pu * g.sec_zn * g.ngrps < 2 ^ 32
    → g.nbytes * g.sec_zn < 2 ^ 32
    → g.pu_grp * g.zn_pu * g.sec_zn * g.nbytes_oob < 2 ^ 32
    → IsExact (fill_geometry g)
unfolding fill_geometry
fill_geometry-IsExact g w fits zone few_oob =
    let zns : ℕ = g.pu_grp * g.zn_pu in
    let secs : ℕ = zns * g.sec_zn in
    let few : secs < 2 ^ 32 = omega (arith, le_mul secs g.ngrps w.some_grps, fits) in
    let few_zns : zns < 2 ^ 32 = omega (arith, le_mul zns g.sec_zn w.some_sectors, few) in
    let zn : mul32 g.pu_grp g.zn_pu ≡ zns = small_mod zns (2 ^ 32) few_zns in
    let sec : mul32 zns g.sec_zn ≡ secs = small_mod secs (2 ^ 32) few in
    let zone_bytes : mul32 g.nbytes g.sec_zn ≡ g.nbytes * g.sec_zn = small_mod _ (2 ^ 32) zone in
    let dev : mul32 secs g.ngrps ≡ secs * g.ngrps = small_mod _ (2 ^ 32) fits in
    let in_secs = mul_le zns secs g.ngrps (le_mul zns g.sec_zn w.some_sectors) in
    let zones : mul32 zns g.ngrps ≡ zns * g.ngrps =
      small_mod _ (2 ^ 32) (omega (arith, in_secs, fits)) in
    let in_grp = le_mul_left g.pu_grp g.zn_pu g.sec_zn w.some_pus in
    let pu : mul32 g.zn_pu g.sec_zn ≡ g.zn_pu * g.sec_zn =
      small_mod (g.zn_pu * g.sec_zn) (2 ^ 32) (omega (arith, in_grp, few)) in
    let oob = g.nbytes_oob in
    let pu_oob : g.zn_pu * g.sec_zn * oob ≤ secs * oob =
      mul_le (g.zn_pu * g.sec_zn) secs oob in_grp in
    let zn_oob : g.sec_zn * oob ≤ g.zn_pu * g.sec_zn * oob =
      le_mul_left g.zn_pu g.sec_zn oob w.some_zones in
    record {
      zn_grp = zn;
      zn_dev = rw zn zones;
      sec_pu = pu;
      sec_grp = rw zn sec;
      sec_dev = rw (zn, sec) dev;
      nbytes_zn = zone_bytes;
      nbytes_grp =
          rw (zone_bytes, zn)
            (small_mod (g.nbytes * g.sec_zn * zns) (2 ^ 64)
              (mul_small (g.nbytes * g.sec_zn) zns zone few_zns));
      oob_grp = rw (zn, sec) (small_mod (secs * oob) (2 ^ 32) few_oob);
      oob_pu =
          rw pu (small_mod (g.zn_pu * g.sec_zn * oob) (2 ^ 32) (omega (arith, pu_oob, few_oob)));
      oob_zn = small_mod (g.sec_zn * oob) (2 ^ 32) (omega (arith, zn_oob, pu_oob, few_oob));
    }

missing_fn-ne : (m : Media) {err : ℕ} → missing_fn m ≡ some err → err ≢ 0
unfolding missing_fn
missing_fn-ne m h = ground arith

-- A media is taken exactly where no function is missing and the geometry is within its limits.
pub media_set-accepts :
    (core : Option Media) (m : Media)
    → ((media_set true core m).0 ≡ xztl_ok) ↔ ((missing_fn m ≡ none) × IsWithin m.geo)
unfolding media_set media_check
media_set-accepts core m = elim (Option-cases (missing_fn m)) [
  | inr (err, missing) ↦
      let failed = missing_fn-ne m missing in
      (
        λ e. absurd (failed (rw (media_set, media_check, missing, ne→== err 0 failed) at e)),
        λ (all, w). absurd (cc (missing, all)),
      )
  | inl all ↦ elim (Bool-cases (bad_geometry m.geo)) [
    | inl bad ↦ (
      λ e. absurd (cc (rw (media_set, media_check, all, bad) at e)),
      λ (_, w). absurd (cc (within-good m.geo w, bad)),
    )
    | inr good ↦ (
      λ _. (all, bad_geometry-IsWithin m.geo good),
      λ _. rw (media_set, media_check, all, good) refl,
    )
  ]
]

-- A media with all functions, a geometry within the limits, fewer than 2^32 sectors, zones of fewer than
-- 2^32 bytes and fewer than 2^32 bytes of metadata in a group is taken, and each size that it gets is the
-- product of its counts: those in zones, in sectors, in bytes and in bytes of metadata.
pub media_set-IsExact :
    (core : Option Media) (m : Media)
    → missing_fn m ≡ none
    → IsWithin m.geo
    → m.geo.pu_grp * m.geo.zn_pu * m.geo.sec_zn * m.geo.ngrps < 2 ^ 32
    → m.geo.nbytes * m.geo.sec_zn < 2 ^ 32
    → m.geo.pu_grp * m.geo.zn_pu * m.geo.sec_zn * m.geo.nbytes_oob < 2 ^ 32
    → (t : Media) × (media_set true core m ≡ (xztl_ok, some t, t)) × IsExact t.geo
unfolding media_set media_check
media_set-IsExact core m all w fits zone few_oob =
    let good = within-good m.geo w in
    (
      record m { geo = fill_geometry m.geo },
      rw (media_set, media_check, all, good) refl,
      fill_geometry-IsExact m.geo w fits zone few_oob,
    )
