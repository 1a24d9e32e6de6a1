-- ===== src/Modules.antt =====
-- The modules of the layer and their registration: `ztl_mod_register` and `ztl_mod_set`
-- (xztl/src/ztl.c). A module is a number, and a null pointer `none`; a table of C is a function of its
-- indices, which the code keeps in range.
pub mod Installed
use x_ztl.Common.{
  ℕ, zero, suc, Bool, true, false, ◌||◌, ◌&&◌, ltb, leb, ◌==◌, if◌then◌else◌, Option, none, some,
}
use x_ztl.Consts.{xztl_ok, xztl_ztl_mod_err, app_mod_count, app_fn_slots}

-- The types of modules that `ztl_mod_set` knows: ZTLMOD_ZMD, _PRO, _MPE, _MAP, _IO and _MGMT.
abbrev pub ztlmod_zmd : ℕ
ztlmod_zmd = 0x1

abbrev pub ztlmod_pro : ℕ
ztlmod_pro = 0x2

abbrev pub ztlmod_mpe : ℕ
ztlmod_mpe = 0x3

abbrev pub ztlmod_map : ℕ
ztlmod_map = 0x4

abbrev pub ztlmod_io : ℕ
ztlmod_io = 0x7

abbrev pub ztlmod_mgmt : ℕ
ztlmod_mgmt = 0x8

-- `mod_list`, `app_modset_libztl`, and the pointers `zmd`, `pro`, … of `struct app_global` by type.
pub record Modules : Type 0 where
  pub mod_list : ℕ → ℕ → Option ℕ
  pub modset : ℕ → ℕ
  pub mods : ℕ → Option ℕ

-- The cases of the switch.
abbrev pub is_known : ℕ → Bool
is_known t =
    (t == ztlmod_zmd)
    || ((t == ztlmod_pro)
        || ((t == ztlmod_mpe) || ((t == ztlmod_map) || ((t == ztlmod_io) || (t == ztlmod_mgmt)))))

abbrev pub update {ℓ} : {A : Type ℓ} → (ℕ → A) → ℕ → A → ℕ → A
update f i v j = if i == j then v else f j

-- `ztl_mod_register`
unfoldable pub mod_register : Modules → ℕ → ℕ → Option ℕ → ℕ × Modules
mod_register s modtype modid mod_ptr =
    if leb app_fn_slots modid || leb app_mod_count modtype
    then (xztl_ztl_mod_err, s)
    else elim mod_ptr [
      | none ↦ (xztl_ztl_mod_err, s)
      | some m ↦ (
        xztl_ok,
        record s {
          mod_list = update s.mod_list modtype (update (s.mod_list modtype) modid (some m));
          modset = update s.modset modtype modid;
        },
      )
    ]

-- The first loop of `ztl_mod_set`, over the first types.
unfoldable pub any_off : ℕ → (ℕ → ℕ) → Bool
any_off zero modset = false
any_off (suc n) modset =
    let rest = any_off n modset in if leb app_fn_slots (modset n) then true else rest

-- A round of the second loop.
unfoldable pub set_one : ℕ → (ℕ → ℕ) → Modules → Modules
set_one mod_i modset s = elim (s.mod_list mod_i (modset mod_i)) [
  | none ↦ s
  | some m ↦
      if modset mod_i == 0
      then s
      else if is_known mod_i
      then record s { mods = update s.mods mod_i (some m) }
      else s
]

-- The second loop over the first types, in their order.
unfoldable pub set_loop : ℕ → (ℕ → ℕ) → Modules → Modules
unfolding set_one
set_loop zero modset s = s
set_loop (suc n) modset s = set_one n modset (set_loop n modset s)

-- `ztl_mod_set`
unfoldable pub mod_set : Modules → (ℕ → ℕ) → ℕ × Modules
unfolding any_off set_loop
mod_set s modset =
    if any_off app_mod_count modset
    then (xztl_ztl_mod_err, s)
    else (xztl_ok, set_loop app_mod_count modset s)
