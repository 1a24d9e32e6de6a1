-- ===== src/Boot.antt =====
-- The order in which the library starts and stops its parts: app_global_init and app_global_exit,
-- ztl_init and ztl_exit (xztl/src/ztl.c), xztl_init and xztl_exit (xztl/src/xztl-core.c).
-- What each `init_fn` returns is a parameter; what a part leaves behind whose `init_fn` fails is not modelled.
pub mod Order
use x_ztl.Common.{
  ℕ, ◌+◌, Bool, true, false, ◌==◌, if◌then◌else◌, List, [], ◌∷◌, ◌++◌, Option, none, some,
}
use x_ztl.Consts.{
  xztl_ok, xztl_nomedia, xztl_media_error, xztl_ztl_prov_err, xztl_ztl_mpe_err, xztl_ztl_map_err,
  xztl_ztl_io_err, xztl_ztl_mgmt_err, xztl_ztl_group_err, xztl_ztl_mod_err,
}

pub data Part : Type 0 where
  mempool media groups pro mpe map io mgmt stats : Part

-- A call of an `init_fn` that succeeds or fails, or of an `exit_fn`.
pub data Call : Type 0 where
  start fails stop : Part → Call

-- The result of a routine, with the calls that it made.
pub record Outcome : Type 0 where
  pub ret : ℕ
  pub calls : List Call

-- `ret = init_fn(); if (ret) { ret = err; goto label; }`, where the label stops what was started.
unfoldable pub attempt : ℕ → ℕ → Part → List Call → Outcome → Outcome
attempt ret err p undo next =
    if ret == 0
    then record { ret = next.ret; calls = start p ∷ next.calls }
    else record { ret = err; calls = fails p ∷ undo }

-- The labels of `app_global_init`, each going on to the next one.
abbrev pub stop_pro : List Call
stop_pro = stop pro ∷ []

abbrev pub stop_mpe : List Call
stop_mpe = stop mpe ∷ stop_pro

abbrev pub stop_map : List Call
stop_map = stop map ∷ stop_mpe

abbrev pub stop_io : List Call
stop_io = stop io ∷ stop_map

unfoldable pub app_global_init : (Part → ℕ) → Outcome
unfolding attempt
app_global_init result = attempt (result pro) xztl_ztl_prov_err pro [] (
    attempt (result mpe) xztl_ztl_mpe_err mpe stop_pro (
      attempt (result map) xztl_ztl_map_err map stop_mpe (
        attempt (result io) xztl_ztl_io_err io stop_map (
          attempt (result mgmt) xztl_ztl_mgmt_err mgmt stop_io
            (record { ret = xztl_ok; calls = [] })))))

unfoldable pub app_global_exit : List Call
app_global_exit = stop mgmt ∷ stop io ∷ stop map ∷ stop mpe ∷ stop pro ∷ []

unfoldable pub ztl_exit : List Call
unfolding app_global_exit
ztl_exit = app_global_exit ++ stop groups ∷ []

-- `ztl_init`, once the modules are set: `ngrps` is what the groups' `init_fn` returns, and the groups
-- count as running where it is positive.
unfoldable pub ztl_init : ℕ → (Part → ℕ) → Outcome
unfolding app_global_init
ztl_init ngrps result =
    let o = app_global_init result in
    let undo : List Call = (if o.ret == 0 then [] else stop groups ∷ []) in
    if ngrps == 0
    then record { ret = xztl_ztl_group_err; calls = fails groups ∷ [] }
    else record { ret = o.ret; calls = start groups ∷ (o.calls ++ undo) }

-- The labels MEDIA and ZTL of `xztl_init`.
unfoldable pub core_undo : List Call
core_undo = stop media ∷ stop mempool ∷ []

-- The call of `ztl_init` in `xztl_init`, and what follows it.
unfoldable pub init_ztl : Outcome → ℕ → List Call × ℕ
unfolding core_undo ztl_exit
init_ztl o stats_ret =
    if o.ret == 0
    then (if stats_ret == 0
        then (o.calls ++ start stats ∷ [], xztl_ok)
        else (o.calls ++ fails stats ∷ (ztl_exit ++ core_undo), stats_ret))
    else (o.calls ++ core_undo, o.ret)

-- `xztl_init` from the mempools on.
unfoldable pub xztl_init : ℕ → (Part → ℕ) → Outcome
unfolding init_ztl ztl_init
xztl_init ngrps result =
    let (calls, ret) = init_ztl (ztl_init ngrps result) (result stats) in
    if result mempool == 0
    then (if result media == 0
        then record { ret = ret; calls = start mempool ∷ start media ∷ calls }
        else record { ret = result media; calls = start mempool ∷ fails media ∷ stop mempool ∷ [] })
    else record { ret = result mempool; calls = fails mempool ∷ [] }

pub xztl_exit : List Call
unfolding ztl_exit core_undo
xztl_exit = stop stats ∷ (ztl_exit ++ core_undo)
