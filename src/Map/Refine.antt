-- ===== src/Map/Refine.antt =====
-- The cache refines a map from ids to words.
use x_ztl.Common.{
  ℕ, ◌/◌, ◌%◌, ◌^◌, ◌<◌, ◌≡◌, ◌≢◌, inl, inr, refl, sym, ap, ◌∙◌, Bool, true, false, ◌==◌, leb, not,
  ◌&&◌, if◌then◌else◌, Option, some, get_elem?, set, length, length-set, get_elem?-set_self,
  get_elem?-set_ne, lt-of-get_elem?, get_elem?-of-lt, arith, Bool-cases, ==→eq, ==→ne,
}
use native.Mathlib.Nat.{div-add-mod, mod-lt}
use x_ztl.Consts.{xztl_ok, xztl_ztl_map_err}
use x_ztl.Map.{
  cached, CachePage, MapState, get_page, get_cache_entry, store_entry, upsert, read_entry, map_read,
}
use x_ztl.Addr.{map_entry_fields}
use x_ztl.Map.Valid.{IsPage, IsValid, cell_of, cell, Cached, get_page-Cached, md_cases}

-- The word of an id: 0 for a page that is not in the cache.
abbrev pub word : MapState → ℕ → Option ℕ
word s id = cell s (id / s.ent_per_pg) (id % s.ent_per_pg)

-- The id has an entry in the table.
pub record InRange (s : MapState) (id : ℕ) : Type 0 where
  pub page : id / s.ent_per_pg < length s.tbl
  pub small : length s.tbl < 2 ^ 32

module _ (s : MapState) (v : IsValid s) (p i o val : ℕ) (here : get_elem? s.tbl p ≡ some (cached i))
    (lt : o < s.ent_per_pg) where
  page_i : CachePage
  page_i = (v.page p i here).0

  is_page : IsPage s p i page_i
  unfolding page_i
  is_page = (v.page p i here).1

  abbrev written : CachePage
  written = record page_i { buf = set page_i.buf o val }

  abbrev stored : MapState
  stored = record s { pg_buf = set s.pg_buf i written }

  stored_page : get_elem? stored.pg_buf i ≡ some written
  stored_page = get_elem?-set_self s.pg_buf i written (lt-of-get_elem? s.pg_buf i is_page.there)

  stored-IsValid : IsValid stored
  stored-IsValid = record {
    some_entries = v.some_entries;
    blank = v.blank;
    page = pages;
    free = λ j h. omega (arith, v.free j h, length-set s.pg_buf i written);
    once = v.once;
    apart = v.apart;
    room = v.room;
  }
    where
      pages :
          (q j : ℕ) → get_elem? s.tbl q ≡ some (cached j) → (pg : CachePage) × IsPage stored q j pg
      pages q j e =
          let (pg, is) = v.page q j e in
          elim (Bool-cases (i == j)) [
            | inl y ↦
                let same : i ≡ j = ==→eq i j y in
                let at_i : get_elem? s.pg_buf i ≡ some pg = rw same is.there in
                let both : some page_i ≡ some pg = sym is_page.there ∙ at_i in
                let pgs : page_i ≡ pg = cc in
                (
                  written,
                  record {
                    there = rw (← same) stored_page;
                    size = length-set page_i.buf o val ∙ is_page.size;
                    owner = ap (λ (g : CachePage). g.md_entry) pgs ∙ is.owner;
                    listed = is.listed;
                  },
                )
            | inr n ↦ (
              pg,
              record {
                there = get_elem?-set_ne s.pg_buf i j written (==→ne i j n) ∙ is.there;
                size = is.size;
                owner = is.owner;
                listed = is.listed;
              },
            )
          ]

  cell-stored : cell stored p o ≡ some val
  unfolding cell cell_of
  cell-stored = rw (here, stored_page) (get_elem?-set_self page_i.buf o val (rw (is_page.size) lt))

  cell_other : (q r : ℕ) → ((p ≡ q) → o ≢ r) → cell stored q r ≡ cell s q r
  unfolding cell cell_of
  cell_other q r far = elim (md_cases (get_elem? s.tbl q)) [
    | inl gone ↦ rw gone refl
    | inr (inl (w, e)) ↦ rw e refl
    | inr (inr (j, e)) ↦
        let (pg, is) = v.page q j e in
        elim (Bool-cases (i == j)) [
          | inl y ↦
              let same : i ≡ j = ==→eq i j y in
              let at_i : get_elem? s.pg_buf i ≡ some pg = rw same is.there in
              let both : some page_i ≡ some pg = sym is_page.there ∙ at_i in
              let pgs : page_i ≡ pg = cc in
              let owners : some p ≡ some q =
                sym is_page.owner ∙ (ap (λ (g : CachePage). g.md_entry) pgs ∙ is.owner) in
              let pq : p ≡ q = cc in
              rw (e, ← same, stored_page, is_page.there)
                (get_elem?-set_ne page_i.buf o r val (far pq))
          | inr n ↦ rw (e, get_elem?-set_ne s.pg_buf i j written (==→ne i j n)) refl
        ]
  ]

  old_word : (old : ℕ) × (get_elem? page_i.buf o ≡ some old)
  old_word = get_elem?-of-lt page_i.buf o (rw is_page.size lt)

  cell_old : cell s p o ≡ some (old_word.0)
  unfolding cell cell_of
  cell_old = rw (here, is_page.there) (old_word.1)

-- Two ids have the same page and offset only if they are the same.
ids_apart : (d a b : ℕ) → a ≢ b → a / d ≡ b / d → a % d ≢ b % d
ids_apart d a b ne q r = ne (sym (div-add-mod a d) ∙ (rw (q, r) refl ∙ div-add-mod b d))

-- GC's update of an entry that another thread has changed.
abbrev pub stale : ℕ → ℕ → Bool
stale old old_caller = not (old_caller == 0) && not (old == old_caller)

-- The state of `map_upsert` after the page is found.
module _ (s : MapState) (v : IsValid s) (p i o val old_caller : ℕ)
    (here : get_elem? s.tbl p ≡ some (cached i)) (lt : o < s.ent_per_pg) where
  store_entry-fresh :
      stale ((old_word s v p i o val here lt).0) old_caller ≡ false
      → store_entry s i o val old_caller
        ≡ some (xztl_ok, (old_word s v p i o val here lt).0, stored s v p i o val here lt)
  unfolding store_entry
  store_entry-fresh fresh =
      let is = is_page s v p i o val here lt in
      rw (is.there, (old_word s v p i o val here lt).1, fresh) refl

  store_entry-stale :
      stale ((old_word s v p i o val here lt).0) old_caller ≡ true
      → store_entry s i o val old_caller
        ≡ some (xztl_ztl_map_err, (old_word s v p i o val here lt).0, s)
  unfolding store_entry
  store_entry-stale fresh =
      let is = is_page s v p i o val here lt in
      rw (is.there, (old_word s v p i o val here lt).1, fresh) refl

  read_entry_lem : read_entry s i o ≡ some ((old_word s v p i o val here lt).0 % 2 ^ 40)
  unfolding read_entry map_entry_fields
  read_entry_lem =
      let is = is_page s v p i o val here lt in
      rw (is.there, (old_word s v p i o val here lt).1) refl

-- The state stands for another map: `id` has the word `val`, and the others what they had.
pub record Updates (s : MapState) (id val : ℕ) (t : MapState) : Type 0 where
  pub valid : IsValid t
  pub size : length t.tbl ≡ length s.tbl
  pub per : t.ent_per_pg ≡ s.ent_per_pg
  pub new : word t id ≡ some val
  pub others : (other : ℕ) → other ≢ id → word t other ≡ word s other

-- The page is found, and the state is the same map.
found :
    (s : MapState) (id : ℕ)
    → IsValid s
    → InRange s id
    → (i : ℕ) × (t : MapState) × (get_cache_entry s id ≡ some (some i, t))
      × Cached s (id / s.ent_per_pg) i t
unfolding get_cache_entry
found s id v r =
    let (i, t, run, c) = get_page-Cached s (id / s.ent_per_pg) v r.page in
    let fits : id / s.ent_per_pg % 2 ^ 32 ≡ id / s.ent_per_pg = omega (arith, r.page, r.small) in
    (i, t, ap (get_page s) fits ∙ run, c)

in_page : (s : MapState) (id : ℕ) → IsValid s → leb s.ent_per_pg (id % s.ent_per_pg) ≡ false
in_page s id v = let lt = mod-lt id v.some_entries in ground (arith, lt)

upsert-step :
    (s t u : MapState) (id val old old_caller i st w : ℕ)
    → IsValid s
    → get_cache_entry s id ≡ some (some i, t)
    → store_entry t i (id % s.ent_per_pg) val old_caller ≡ some (st, w, u)
    → upsert s id val old old_caller ≡ some (st, w, u)
unfolding upsert
upsert-step s t u id val old old_caller i st w v run store = rw (in_page s id v, run, store) refl

word-per : (t : MapState) (d a : ℕ) → t.ent_per_pg ≡ d → word t a ≡ cell t (a / d) (a % d)
word-per t d a e = ap (λ x. cell t (a / x) (a % x)) e

-- The words of the state that found the page, and of the state with a new word there.
Updates-found :
    (s t : MapState) (id i w : ℕ)
    → Cached s (id / s.ent_per_pg) i t
    → IsValid s
    → word s id ≡ some w
    → Updates s id w t
Updates-found s t id i w c v e = record {
  valid = c.valid;
  size = c.size;
  per = c.per;
  new = keep id ∙ e;
  others = λ other ne. keep other;
}
  where
    keep : (a : ℕ) → word t a ≡ word s a
    keep a =
        word-per t s.ent_per_pg a c.per
        ∙ (c.same (a / s.ent_per_pg) (a % s.ent_per_pg) (mod-lt a v.some_entries))

module _ (s t : MapState) (id i val : ℕ) (v : IsValid s)
    (c : Cached s (id / s.ent_per_pg) i t) where
  in_entries : id % s.ent_per_pg < t.ent_per_pg
  in_entries = rw c.per (mod-lt id v.some_entries)

  abbrev after : MapState
  after = stored t c.valid (id / s.ent_per_pg) i (id % s.ent_per_pg) val c.here in_entries

  after-Updates : Updates s id val after
  after-Updates = record {
    valid =
        stored-IsValid t c.valid (id / s.ent_per_pg) i (id % s.ent_per_pg) val c.here in_entries;
    size = c.size;
    per = c.per;
    new =
        word-per after s.ent_per_pg id c.per
        ∙ (cell-stored t c.valid (id / s.ent_per_pg) i (id % s.ent_per_pg) val c.here in_entries);
    others = λ other ne.
        word-per after s.ent_per_pg other c.per
        ∙ (cell_other t c.valid (id / s.ent_per_pg) i (id % s.ent_per_pg) val c.here in_entries
              (other / s.ent_per_pg) (other % s.ent_per_pg)
              (ids_apart s.ent_per_pg id other (λ z. ne (sym z)))
            ∙ c.same (other / s.ent_per_pg) (other % s.ent_per_pg) (mod-lt other v.some_entries));
  }

-- With a cache that has a free page for every entry of its table that is not cached (`IsValid`),
-- `map_upsert` of an id of the table gives the id's old word. It stores `val`, but where the caller
-- names an old word and the word is another one, it fails and stores nothing. No other id changes.
pub upsert-Updates :
    (s : MapState) (id val old old_caller : ℕ)
    → IsValid s
    → InRange s id
    → (w : ℕ) × (t : MapState) × (word s id ≡ some w)
      × (upsert s id val old old_caller
          ≡ some (if stale w old_caller then xztl_ztl_map_err else xztl_ok, w, t))
      × Updates s id (if stale w old_caller then w else val) t
upsert-Updates s id val old old_caller v r =
    let (i, t, run, c) = found s id v r in
    let p = id / s.ent_per_pg in
    let o = id % s.ent_per_pg in
    let lt = in_entries s t id i val v c in
    let (w, at_o) = old_word t c.valid p i o val c.here lt in
    let was : word s id ≡ some w =
      sym (c.same p o (mod-lt id v.some_entries)) ∙ cell_old t c.valid p i o val c.here lt in
    elim (Bool-cases (stale w old_caller)) [
      | inl y ↦ (
        w,
        t,
        was,
        rw y (
            upsert-step s t t id val old old_caller i xztl_ztl_map_err w v run
              (store_entry-stale t c.valid p i o val old_caller c.here lt y)),
        rw y (Updates-found s t id i w c v was),
      )
      | inr n ↦ (
        w,
        after s t id i val v c,
        was,
        rw n (
            upsert-step s t (after s t id i val v c) id val old old_caller i xztl_ok w v run
              (store_entry-fresh t c.valid p i o val old_caller c.here lt n)),
        rw n (after-Updates s t id i val v c),
      )
    ]

map_read-step :
    (s t : MapState) (id i off : ℕ)
    → IsValid s
    → get_cache_entry s id ≡ some (some i, t)
    → read_entry t i (id % s.ent_per_pg) ≡ some off
    → map_read s id ≡ some (off, t)
unfolding map_read
map_read-step s t id i off v run load = rw (in_page s id v, run, load) refl

-- With a cache that has a free page for every entry of its table that is not cached (`IsValid`),
-- `map_read` of an id of the table gives the offset of its word, and no word changes.
pub map_read-Updates :
    (s : MapState) (id : ℕ)
    → IsValid s
    → InRange s id
    → (w : ℕ) × (t : MapState) × (word s id ≡ some w)
      × (map_read s id ≡ some (w % 2 ^ 40, t))
      × Updates s id w t
map_read-Updates s id v r =
    let (i, t, run, c) = found s id v r in
    let p = id / s.ent_per_pg in
    let o = id % s.ent_per_pg in
    let lt = in_entries s t id i 0 v c in
    let (w, at_o) = old_word t c.valid p i o 0 c.here lt in
    let was : word s id ≡ some w =
      sym (c.same p o (mod-lt id v.some_entries)) ∙ cell_old t c.valid p i o 0 c.here lt in
    (
      w,
      t,
      was,
      map_read-step s t id i (w % 2 ^ 40) v run (read_entry_lem t c.valid p i o 0 0 c.here lt),
      Updates-found s t id i w c v was,
    )
