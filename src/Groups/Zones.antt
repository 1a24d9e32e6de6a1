-- ===== src/Groups/Zones.antt =====
-- Zones found in the table, and what the start of the groups reports.
use x_ztl.Common.{
  ℕ, zero, suc, ◌+◌, ◌*◌, ◌/◌, ◌≤◌, ◌<◌, ◌≡◌, refl, ap, ◌∙◌, inl, inr, Bool, true, false, ◌==◌,
  List, [], ◌∷◌, some, get_elem?, gen, get_elem?-gen_zero, Bool-cases, arith, ==→eq, ==→ne,
}
use native.Mathlib.Nat.{mul-add-div, div-eq_of_lt}
use x_ztl.Consts.{xztl_ztl_group_err}
use x_ztl.Groups.{zmd_entry, zmd_create, zmd_get, groups_loop, groups_init, groups_get}

-- The table that is made has, by its number and by the offset of each of its sectors, the entry of the
-- zone.
pub zmd_get-zmd_create :
    (id sec_grp sec_zn entries z o : ℕ)
    → z < entries
    → o < sec_zn
    → (zmd_get (zmd_create id sec_grp sec_zn entries) sec_zn z false
        ≡ some (zmd_entry id sec_grp sec_zn z))
      × (zmd_get (zmd_create id sec_grp sec_zn entries) sec_zn (sec_zn * z + o) true
          ≡ some (zmd_entry id sec_grp sec_zn z))
unfolding zmd_get zmd_create
zmd_get-zmd_create id sec_grp sec_zn entries z o h lt =
    let here = get_elem?-gen_zero (zmd_entry id sec_grp sec_zn) entries z h in
    let pos : 0 < sec_zn = omega arith in
    let q : (sec_zn * z + o) / sec_zn ≡ z = mul-add-div pos z o ∙ omega (arith, div-eq_of_lt lt) in
    (here, ap (get_elem? (gen (zmd_entry id sec_grp sec_zn) 0 entries)) q ∙ here)

groups_loop-get :
    (loads : ℕ → Bool) (left i : ℕ) (head : List ℕ)
    → ((g : ℕ) → g < i + left → loads g ≡ true)
    → ((g : ℕ) → g < i → groups_get head g ≡ some g)
    → (gs : List ℕ) × (groups_loop loads left i head ≡ (i + left, gs))
      × ((g : ℕ) → g < i + left → groups_get gs g ≡ some g)
unfolding groups_loop groups_get
groups_loop-get loads zero i head good all =
    let e : i + 0 ≡ i = omega arith in (head, rw e refl, λ g h. all g (omega arith))
groups_loop-get loads (suc left) i head good all =
    let e : i + 1 + left ≡ i + suc left = omega arith in
    let (gs, run, found) =
      groups_loop-get loads left (i + 1) (i ∷ head) (λ g h. good g (omega arith))
        (λ g h. elim (Bool-cases (i == g)) [
          | inl y ↦ rw y (ap some (==→eq i g y))
          | inr n ↦ rw n (all g (let d = ==→ne i g n in grind arith))
        ]) in
    (gs, rw (good i (omega arith)) (run ∙ rw e refl), λ g h. found g (omega arith))

-- Where every group loads, the start of the groups gives their number, and each is found by its id.
pub groups_init-groups_get :
    (loads : ℕ → Bool) (ngrps : ℕ)
    → ((g : ℕ) → g < ngrps → loads g ≡ true)
    → (gs : List ℕ) × (groups_init loads ngrps ≡ (ngrps, gs))
      × ((g : ℕ) → g < ngrps → groups_get gs g ≡ some g)
unfolding groups_init
groups_init-groups_get loads ngrps good =
    let e : 0 + ngrps ≡ ngrps = omega arith in
    let (gs, run, found) =
      groups_loop-get loads ngrps 0 [] (λ g h. good g (omega arith))
        (λ g h. absurd (omega arith)) in
    (gs, run ∙ rw e refl, λ g h. found g (omega arith))

groups_loop-fails :
    (loads : ℕ → Bool) (left i bad : ℕ) (head : List ℕ)
    → i ≤ bad
    → bad < i + left
    → loads bad ≡ false
    → groups_loop loads left i head ≡ (xztl_ztl_group_err, [])
unfolding groups_loop
groups_loop-fails loads zero i bad head lo hi e = absurd (omega arith)
groups_loop-fails loads (suc left) i bad head lo hi e = elim (Bool-cases (loads i)) [
  | inr n ↦ rw n refl
  | inl y ↦ rw y (groups_loop-fails loads left (i + 1) bad (i ∷ head) (next y) (omega arith) e)
]
  where
    next : loads i ≡ true → i + 1 ≤ bad
    next y = elim (Bool-cases (i == bad)) [
      | inl same ↦ let q = ==→eq i bad same in absurd (cc)
      | inr n ↦ let d = ==→ne i bad n in grind arith
    ]

-- Where a group does not load, no group is left, and the start of the groups gives a number above 0,
-- which `ztl_init` takes for a number of groups.
pub groups_init-fails :
    (loads : ℕ → Bool) (ngrps bad : ℕ)
    → bad < ngrps
    → loads bad ≡ false
    → ((groups_init loads ngrps).1 ≡ []) × (0 < (groups_init loads ngrps).0)
unfolding groups_init
groups_init-fails loads ngrps bad h e =
    let run = groups_loop-fails loads ngrps 0 bad [] (omega arith) (omega arith) e in
    rw run (refl, omega arith)
