-- ===== src/Zrocks/Trim.antt =====
-- Trimming the pieces of a full node: the reset is asked for once, when the last one goes.
use x_ztl.Common.{
  ℕ, ◌+◌, ◌-◌, ◌^◌, ◌≤◌, ◌<◌, ◌≡◌, refl, false, ◌==◌, List, [], ◌∷◌, ◌++◌, Option, some, ◌>>=◌,
  arith, get_elem?-set_self, lt-of-get_elem?,
}
use x_ztl.Consts.{xztl_ok}
use x_ztl.Data.{Node, Group, node_full, node_reset, sub64}
use x_ztl.Addr.{ZrocksMap}
use x_ztl.Pro.{node_at, put_node}
use x_ztl.Mgmt.{MgmtEntry, reset_zone, submit_reset_finish}
use x_ztl.Zrocks.{zrocks_trim, is_dead}

-- `zrocks_trim` for one map after the other.
pub trims : Group → List MgmtEntry → List ZrocksMap → Option (Group × List MgmtEntry)
trims grp queue [] = some (grp, queue)
trims grp queue (m ∷ ms) = do (ret, grp', queue') ← zrocks_trim grp queue m; trims grp' queue' ms

-- The maps are of the node `id` and hold pieces.
abbrev pub OfNode : ℕ → List ZrocksMap → Type 0
OfNode id [] = id ≡ id
OfNode id (m ∷ ms) = (m.node_id ≡ id) × (0 < m.num) × OfNode id ms

abbrev pub total : List ZrocksMap → ℕ
total [] = 0
total (m ∷ ms) = m.num + total ms

abbrev pub request : ℕ → MgmtEntry
request id = record { node = id; op_code = reset_zone }

module _ (grp : Group) (queue : List MgmtEntry) (m : ZrocksMap) (id : ℕ) (n : Node)
    (found : node_at grp.pro id ≡ some n) (of : m.node_id ≡ id) (full : n.status ≡ node_full)
    (small : n.nr_valid < 2 ^ 64) (enough : m.num ≤ n.nr_valid) where
  left_lem : sub64 n.nr_valid m.num ≡ n.nr_valid - m.num
  left_lem = omega arith

  abbrev put : Node → Group
  put x = record grp { pro = put_node grp.pro id x }

  put-found : (x : Node) → node_at (put x).pro id ≡ some x
  unfolding node_at put_node
  put-found x = get_elem?-set_self grp.pro.vnodes id x (lt-of-get_elem? grp.pro.vnodes id found)

  -- A trim that leaves valid pieces, and one that leaves none.
  trim-some :
      m.num < n.nr_valid
      → zrocks_trim grp queue m
        ≡ some (xztl_ok, put (record n { nr_valid = n.nr_valid - m.num }), queue)
  unfolding zrocks_trim is_dead
  trim-some h =
      let alive : (n.nr_valid - m.num == 0) ≡ false = ground arith in
      rw (of, found, left_lem, full, alive) refl

  trim-last :
      m.num ≡ n.nr_valid
      → zrocks_trim grp queue m
        ≡ some (
          xztl_ok,
          put (record n { nr_valid = 0; status = node_reset }),
          queue ++ request id ∷ [],
        )
  unfolding zrocks_trim is_dead submit_reset_finish
  trim-last h =
      let gone : n.nr_valid - m.num ≡ 0 = omega arith in rw (of, found, left_lem, full, gone) refl

-- A full node whose valid pieces are those of the maps, each of at least one piece: trimming the maps in
-- turn takes the last valid piece away, marks the node for its reset, and asks for the reset exactly
-- once, after the requests that were there.
pub trims-request :
    (ms : List ZrocksMap) (grp : Group) (queue : List MgmtEntry) (id : ℕ) (n : Node)
    → node_at grp.pro id ≡ some n
    → OfNode id ms
    → n.status ≡ node_full
    → n.nr_valid < 2 ^ 64
    → total ms ≡ n.nr_valid
    → 0 < n.nr_valid
    → (grp' : Group) × (trims grp queue ms ≡ some (grp', queue ++ request id ∷ []))
      × (node_at grp'.pro id ≡ some (record n { nr_valid = 0; status = node_reset }))
unfolding trims
trims-request [] grp queue id n found of full small sum pos = absurd (omega arith)
trims-request (m ∷ []) grp queue id n found of full small sum pos =
    let le : m.num ≤ n.nr_valid = omega arith in
    let x : Node = record n { nr_valid = 0; status = node_reset } in
    (
      put grp queue m id n found of.0 full small le x,
      rw (trim-last grp queue m id n found of.0 full small le (omega arith)) refl,
      put-found grp queue m id n found of.0 full small le x,
    )
trims-request (m ∷ k ∷ ms) grp queue id n found of full small sum pos =
    let k_pos : 0 < k.num = of.2.1 in
    let lt : m.num < n.nr_valid = omega (arith, k_pos) in
    let le : m.num ≤ n.nr_valid = omega (arith, lt) in
    let x : Node = record n { nr_valid = n.nr_valid - m.num } in
    let grp1 = put grp queue m id n found of.0 full small le x in
    let (grp', run, last) =
      trims-request (k ∷ ms) grp1 queue id x (put-found grp queue m id n found of.0 full small le x)
        of.2 full (omega arith) (omega arith) (omega (arith, lt)) in
    (grp', rw (trim-some grp queue m id n found of.0 full small le lt) run, last)
