-- ===== src/Map.antt =====
-- The mapping from ids to media offsets: xztl/src/ztl-map.c with the table of xztl/src/ztl-mpe.c.
-- A page of the cache is its index in `pg_buf`. `cp_running` is 0: nothing sets it.
pub mod Valid
pub mod Refine
pub mod Runs
use x_ztl.Common.{
  ℕ, zero, suc, ◌+◌, ◌-◌, ◌*◌, ◌/◌, ◌%◌, ◌^◌, Bool, true, false, ◌==◌, leb, not, ◌&&◌,
  if◌then◌else◌, List, [], ◌∷◌, ◌++◌, Option, none, some, ◌>>=◌, get_elem?, set, tailq_remove,
  replicate, gen,
}
use x_ztl.Consts.{and64, map_buf_pgs, ztl_mpe_cpgs, xztl_ok, xztl_ztl_map_err}
use x_ztl.Data.{add32, sub32}
use x_ztl.Addr.{map_entry_fields}

-- struct map_md_addr, by its flag: an address on the media, or a page of the cache.
pub data MdAddr : Type 0 where
  on_media : ℕ → MdAddr
  cached : ℕ → MdAddr

-- struct map_cache_entry; `buf` is the page as the words of its mapping entries, `md_entry` the
-- index of its entry in the table.
pub record CachePage : Type 0 where
  pub dirty : Bool
  pub buf : List ℕ
  pub addr : ℕ
  pub md_entry : Option ℕ

-- The cache, the table `smap.tbl` and the entries of a page, `map_ent_per_pg`.
pub record MapState : Type 0 where
  pub pg_buf : List CachePage
  pub mbf_head : List ℕ
  pub mbu_head : List ℕ
  pub nfree : ℕ
  pub nused : ℕ
  pub tbl : List MdAddr
  pub ent_per_pg : ℕ

-- `map_init_cache` with `map_init`, where every allocation succeeds: each page goes to the head of
-- the free list, so that the last one is its first.
pub blank_page : ℕ → CachePage
blank_page ent_per_pg = record {
  dirty = false;
  buf = replicate ent_per_pg 0;
  addr = 0;
  md_entry = none;
}

unfoldable pub map_init : ℕ → ℕ → ℕ → MapState
unfolding blank_page
map_init pages entries ent_per_pg = record {
  pg_buf = replicate pages (blank_page ent_per_pg);
  mbf_head = gen (λ k. pages - 1 - k) 0 pages;
  mbu_head = [];
  nfree = pages;
  nused = 0;
  tbl = replicate entries (on_media 0);
  ent_per_pg = ent_per_pg;
}

-- `map_evict_pg_cache`: the page used least recently is dropped.
pub evict_page : MapState → ℕ → List ℕ → Option MapState
evict_page s i used = do
  page ← get_elem? s.pg_buf i
  md ← page.md_entry
  some (record s {
    pg_buf = set s.pg_buf i (record page { addr = 0; md_entry = none });
    mbu_head = used;
    mbf_head = i ∷ s.mbf_head;
    nused = sub32 s.nused 1;
    nfree = add32 s.nfree 1;
    tbl = set s.tbl md (on_media page.addr);
  })

pub evict : MapState → Option (ℕ × MapState)
unfolding evict_page
evict s = elim s.mbu_head [
  | [] ↦ some (xztl_ztl_map_err, s)
  | i ∷ used ↦ (do t ← evict_page s i used; some (xztl_ok, t))
]

-- A mapping page that is not on the media starts with zeroes; the other is read by `map_nvm_read`,
-- which does nothing.
pub fill_page : ℕ → MdAddr → CachePage → CachePage
fill_page ent_per_pg (on_media zero) page = record page {
  dirty = true;
  buf = replicate ent_per_pg 0;
}
fill_page ent_per_pg _ page = page

-- The page `i`, the first of the free list, becomes that of the table's entry `pg_off`.
pub load_page : MapState → ℕ → ℕ → List ℕ → Option MapState
unfolding fill_page
load_page s pg_off i free = do
  page ← get_elem? s.pg_buf i
  md ← get_elem? s.tbl pg_off
  let page' = fill_page s.ent_per_pg md (record page { md_entry = some pg_off })
  some (record s {
    pg_buf = set s.pg_buf i page';
    mbf_head = free;
    mbu_head = s.mbu_head ++ i ∷ [];
    nfree = sub32 s.nfree 1;
    nused = add32 s.nused 1;
    tbl = set s.tbl pg_off (cached i);
  })

-- `map_load_pg_cache`, with the free list `head`.
pub load_from : MapState → ℕ → List ℕ → Option (ℕ × MapState)
unfolding load_page
load_from s pg_off [] = some (xztl_ztl_map_err, s)
load_from s pg_off (i ∷ free) = do t ← load_page s pg_off i free; some (xztl_ok, t)

pub load_pg_cache : MapState → ℕ → Option (ℕ × MapState)
unfolding evict load_from
load_pg_cache s pg_off = elim s.mbf_head [
  | [] ↦ (do
    (ret, t) ← evict s
    if ret == 0 then load_from t pg_off t.mbf_head else some (xztl_ztl_map_err, t))
  | i ∷ free ↦ load_from s pg_off (i ∷ free)
]

-- The page of a table entry that is in the cache.
pub cached_page : MapState → ℕ → Option (Option ℕ × MapState)
cached_page s pg_off = do
  md ← get_elem? s.tbl pg_off
  elim md [ on_media w ↦ none | cached i ↦ some (some i, s) ]

-- `map_get_cache_entry` with the page `pg_off`, NULL as `none` inside; `ztl_mpe_get` does not test its
-- index, and an entry past the table is a fault.
pub get_page : MapState → ℕ → Option (Option ℕ × MapState)
unfolding load_pg_cache cached_page
get_page s pg_off = do
  md ← get_elem? s.tbl pg_off
  elim md [
    | on_media w ↦ (do
      (ret, t) ← load_pg_cache s pg_off
      if ret == 0 then cached_page t pg_off else some (none, t))
    | cached i ↦ (do
      used ← tailq_remove i s.mbu_head
      some (some i, record s { mbu_head = used ++ i ∷ [] }))
  ]

pub get_cache_entry : MapState → ℕ → Option (Option ℕ × MapState)
unfolding get_page
get_cache_entry s id = get_page s (id / s.ent_per_pg % 2 ^ 32)

-- The rest of `map_upsert`, with the page: the status, the old word and the state.
pub store_entry : MapState → ℕ → ℕ → ℕ → ℕ → Option (ℕ × ℕ × MapState)
store_entry s i ent_off val old_caller = do
  page ← get_elem? s.pg_buf i
  old ← get_elem? page.buf ent_off
  if not (old_caller == 0) && not (old == old_caller)
      then some (xztl_ztl_map_err, old, s)
      else some (
        xztl_ok,
        old,
        record s { pg_buf = set s.pg_buf i (record page { buf = set page.buf ent_off val }) },
      )

-- `map_upsert`; `old` is what `*old` was.
pub upsert : MapState → ℕ → ℕ → ℕ → ℕ → Option (ℕ × ℕ × MapState)
unfolding get_cache_entry store_entry
upsert s id val old old_caller = do
  let ent_off = id % s.ent_per_pg
  (ent, t) ← (if leb s.ent_per_pg ent_off then some (none, s) else get_cache_entry s id)
  elim ent [
    | none ↦ some (xztl_ztl_map_err, old, t)
    | some i ↦ store_entry t i ent_off val old_caller
  ]

-- `map_read`: the 40 bits of the offset.
pub read_entry : MapState → ℕ → ℕ → Option ℕ
read_entry s i ent_off = do
  page ← get_elem? s.pg_buf i
  word ← get_elem? page.buf ent_off
  some ((map_entry_fields word).offset)

pub map_read : MapState → ℕ → Option (ℕ × MapState)
unfolding get_cache_entry read_entry
map_read s id = do
  let ent_off = id % s.ent_per_pg
  (ent, t) ← (if leb s.ent_per_pg ent_off then some (none, s) else get_cache_entry s id)
  elim ent [ none ↦ some (and64, t) | some i ↦ (do off ← read_entry t i ent_off; some (off, t)) ]
