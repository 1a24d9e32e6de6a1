-- ===== src/Mempool.antt =====
-- The memory pools: xztl/src/xztl-mempool.c, built without MP_LOCKFREE.
-- Allocation is a parameter: whether the allocation of entry `i` succeeds, and the memory that the
-- caller's `alloc` (or `aligned_alloc`) gives it. A pool's state is `xztl_mp_pool_i`.
pub mod Create
use x_ztl.Common.{
  ℕ, zero, suc, ◌+◌, ◌-◌, ◌*◌, ◌%◌, ◌^◌, Bool, true, false, ◌==◌, ltb, leb, ◌||◌, not,
  if◌then◌else◌, List, [], ◌∷◌, ◌++◌, Option, none, some, ◌>>=◌, get_elem?, set, map, replicate,
}
use x_ztl.Consts.{
  xztlmp_types, xztlmp_threads, xztlmp_max_ent, xztlmp_max_ent_sz, xztl_ok, xztl_mp_outbounds,
  xztl_mp_invalid, xztl_mp_active, xztl_mp_memerror,
}
use x_ztl.Data.{sub32, add32}

-- struct xztl_mp_entry; `opaque` is the address of its memory.
pub record Entry : Type 0 where
  pub opaque : ℕ
  pub tid : ℕ
  pub entry_id : ℕ

pub record Pool : Type 0 where
  pub active : Bool
  pub in_count : ℕ
  pub out_count : ℕ
  pub entries : ℕ
  pub head : List Entry

-- `xztl_mempool_init`: `xztlmp.mp[type].pool[tid]`, all zeroes.
abbrev pub no_pool : Pool
no_pool = record { active = false; in_count = 0; out_count = 0; entries = 0; head = [] }

pub mempool_init : List (List Pool)
mempool_init = replicate xztlmp_types (replicate xztlmp_threads no_pool)

pub pool_at : List (List Pool) → ℕ → ℕ → Option Pool
pool_at mp type tid = do pools ← get_elem? mp type; get_elem? pools tid

pub put_pool : List (List Pool) → ℕ → ℕ → Pool → List (List Pool)
put_pool mp type tid pool = elim (get_elem? mp type) [
  | none ↦ mp
  | some pools ↦ set mp type (set pools tid pool)
]

-- `xztl_mempool_free`: the memory that it gives back, and the empty pool.
pub pool_free : Pool → List ℕ × Pool
pool_free pool = (map (λ e. e.opaque) pool.head, record pool { head = [] })

-- The allocation of entry `i`, with its memory.
pub alloc_entry : (ℕ → Bool) → (ℕ → Option ℕ) → ℕ → ℕ → Option Entry
alloc_entry ent_ok alloc tid ent_i = do
  ok ← (if ent_ok ent_i then some true else none)
  p ← alloc ent_i
  some (record { opaque = p; tid = tid % 2 ^ 16; entry_id = ent_i })

-- The loop of `xztl_mempool_create` over the entries from `ent_i` on: whether all were allocated, and
-- the queue.
pub alloc_loop : (ℕ → Option Entry) → ℕ → ℕ → List Entry → Bool × List Entry
alloc_loop make zero ent_i head = (true, head)
alloc_loop make (suc left) ent_i head = elim (make ent_i) [
  | none ↦ (false, head)
  | some ent ↦ alloc_loop make left (ent_i + 1) (head ++ ent ∷ [])
]

-- What `xztl_mempool_create` does to a pool once its arguments are good: the status, the memory given
-- back, and the pool. `spin_ok` is whether the lock could be made. The memory of the entry itself whose
-- `opaque` was not got (leaked, or given to the caller's `free`) is not modelled.
pub pool_create : Bool → (ℕ → Option Entry) → ℕ → Pool → ℕ × List ℕ × Pool
unfolding alloc_loop pool_free
pool_create spin_ok make entries pool =
    let (all, head) = alloc_loop make entries 0 [] in
    let (freed, empty) = pool_free (record pool { head = head }) in
    let full : Pool = record {
      active = true;
      in_count = 0;
      out_count = 0;
      entries = entries;
      head = head;
    } in
    if pool.active
    then (xztl_mp_active, [], pool)
    else if not spin_ok
    then (xztl_mp_memerror, [], pool)
    else if all
    then (xztl_ok, [], full)
    else (xztl_mp_memerror, freed, empty)

-- `type >= XZTLMP_TYPES || tid >= XZTLMP_THREADS`
pub out_of_bounds : ℕ → ℕ → Bool
out_of_bounds type tid = leb xztlmp_types type || leb xztlmp_threads tid

pub bad_sizes : ℕ → ℕ → Bool
bad_sizes entries ent_sz =
    entries == 0 || ltb xztlmp_max_ent entries || ent_sz == 0 || ltb xztlmp_max_ent_sz ent_sz

-- `xztl_mempool_create`
pub mempool_create :
    Bool
    → (ℕ → Bool)
    → (ℕ → Option ℕ)
    → List (List Pool)
    → ℕ
    → ℕ
    → ℕ
    → ℕ
    → Option (ℕ × List ℕ × List (List Pool))
unfolding alloc_entry pool_create out_of_bounds bad_sizes pool_at put_pool
mempool_create spin_ok ent_ok alloc mp type tid entries ent_sz =
    if out_of_bounds type tid
    then some (xztl_mp_outbounds, [], mp)
    else if bad_sizes entries ent_sz
    then some (xztl_mp_invalid, [], mp)
    else (do
      pool ← pool_at mp type tid
      let (st, freed, pool') = pool_create spin_ok (alloc_entry ent_ok alloc tid) entries pool
      some (st, freed, put_pool mp type tid pool'))

-- `xztl_mempool_destroy`: entries that are out of the pool are not given back.
pub pool_destroy : Pool → List ℕ × Pool
unfolding pool_free
pool_destroy pool = if pool.active then pool_free (record pool { active = false }) else ([], pool)

pub mempool_destroy : List (List Pool) → ℕ → ℕ → Option (ℕ × List ℕ × List (List Pool))
unfolding pool_destroy out_of_bounds pool_at put_pool
mempool_destroy mp type tid =
    if out_of_bounds type tid then some (xztl_mp_outbounds, [], mp) else (do
      pool ← pool_at mp type tid
      let (freed, pool') = pool_destroy pool
      some (xztl_ok, freed, put_pool mp type tid pool'))

-- `xztl_mempool_exit`: every pool of every type.
pub exit_pools : List Pool → List ℕ × List Pool
unfolding pool_destroy
exit_pools [] = ([], [])
exit_pools (p ∷ ps) =
    let (freed, p') = pool_destroy p in let (rest, ps') = exit_pools ps in (freed ++ rest, p' ∷ ps')

pub mempool_exit : List (List Pool) → List ℕ × List (List Pool)
unfolding exit_pools
mempool_exit [] = ([], [])
mempool_exit (pools ∷ mp) =
    let (freed, pools') = exit_pools pools in
    let (rest, mp') = mempool_exit mp in (freed ++ rest, pools' ∷ mp')

-- `xztl_mempool_get`; an empty pool makes it wait for a `put`, which is `none` here.
pub pool_get : Pool → Option (Entry × Pool)
pool_get pool = elim pool.head [
  | [] ↦ none
  | e ∷ es ↦ some (e, record pool { head = es; out_count = (pool.out_count + 1) % 2 ^ 16 })
]

-- `xztl_mempool_put`
pub pool_put : Entry → Pool → Pool
pool_put e pool = record pool { head = pool.head ++ e ∷ [] }

-- `xztl_mempool_left`
pub pool_left : Pool → ℕ
pool_left pool = add32 (sub32 pool.entries pool.out_count) pool.in_count
