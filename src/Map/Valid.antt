-- ===== src/Map/Valid.antt =====
-- The cache of mapping pages when it has a page for every entry of the table: nothing is evicted.
use x_ztl.Common.{
  ℕ, zero, suc, ◌+◌, ◌-◌, ◌%◌, ◌^◌, ◌≤◌, ◌<◌, ◌≡◌, ◌≢◌, ◌⊎◌, inl, inr, refl, sym, ap, ◌∙◌, true,
  ◌==◌, List, [], ◌∷◌, ◌++◌, Option, none, some, ◌>>=◌, get_elem?, set, tailq_remove, replicate,
  length, length-set, length-replicate, get_elem?-set_self, get_elem?-set_ne, lt-of-get_elem?,
  get_elem?-of-lt, get_elem?-replicate, times, times-append, tailq_remove-times,
  tailq_remove-of-times, arith, Bool-cases, ==→eq, ==→ne,
}
use x_ztl.Consts.{xztl_ok}
use x_ztl.Map.{
  MdAddr, on_media, cached, CachePage, MapState, fill_page, load_page, load_from, load_pg_cache,
  cached_page, get_page,
}

-- The entries of the table that are in the cache.
abbrev pub cached_count : List MdAddr → ℕ
cached_count [] = 0
cached_count (on_media w ∷ t) = cached_count t
cached_count (cached i ∷ t) = suc (cached_count t)

cached_count-lt :
    (t : List MdAddr) (p : ℕ) {w : ℕ}
    → get_elem? t p ≡ some (on_media w)
    → cached_count t < length t
cached_count-lt [] p e = absurd (cc)
cached_count-lt (on_media v ∷ t) zero e = omega (arith, cached_count-le t)
  where
    cached_count-le : (t : List MdAddr) → cached_count t ≤ length t
    cached_count-le [] = omega arith
    cached_count-le (on_media w ∷ t) = omega (arith, cached_count-le t)
    cached_count-le (cached i ∷ t) = omega (arith, cached_count-le t)
cached_count-lt (cached i ∷ t) zero e = absurd (cc)
cached_count-lt (on_media v ∷ t) (suc p) e = omega (arith, cached_count-lt t p e)
cached_count-lt (cached i ∷ t) (suc p) e = omega (arith, cached_count-lt t p e)

cached_count-set :
    (t : List MdAddr) (p i : ℕ) {w : ℕ}
    → get_elem? t p ≡ some (on_media w)
    → cached_count (set t p (cached i)) ≡ suc (cached_count t)
cached_count-set [] p i e = absurd (cc)
cached_count-set (on_media v ∷ t) zero i e = refl
cached_count-set (cached k ∷ t) zero i e = absurd (cc)
cached_count-set (on_media v ∷ t) (suc p) i e = cached_count-set t p i e
cached_count-set (cached k ∷ t) (suc p) i e = ap suc (cached_count-set t p i e)

pub record IsPage (s : MapState) (p i : ℕ) (page : CachePage) : Type 0 where
  pub there : get_elem? s.pg_buf i ≡ some page
  pub size : length page.buf ≡ s.ent_per_pg
  pub owner : page.md_entry ≡ some p
  pub listed : 0 < times i s.mbu_head

-- An entry that is not cached is 0, one that is has a page of its own on the used queue; the free
-- pages are pages of the cache, each once, and enough for the entries that are not cached.
pub record IsValid (s : MapState) : Type 0 where
  pub some_entries : 0 < s.ent_per_pg
  pub blank : (p w : ℕ) → get_elem? s.tbl p ≡ some (on_media w) → w ≡ 0
  pub page : (p i : ℕ) → get_elem? s.tbl p ≡ some (cached i) → (pg : CachePage) × IsPage s p i pg
  pub free : (i : ℕ) → 0 < times i s.mbf_head → i < length s.pg_buf
  pub once : (i : ℕ) → times i s.mbf_head ≤ 1
  pub apart : (p i : ℕ) → 0 < times i s.mbf_head → get_elem? s.tbl p ≢ some (cached i)
  pub room : length s.tbl ≤ length s.mbf_head + cached_count s.tbl

-- The word of the entry `o` of the table's page `p`.
unfoldable pub cell_of : MapState → ℕ → MdAddr → Option ℕ
cell_of s o (on_media w) = some 0
cell_of s o (cached i) = do page ← get_elem? s.pg_buf i; get_elem? page.buf o

unfoldable pub cell : MapState → ℕ → ℕ → Option ℕ
unfolding cell_of
cell s p o = do md ← get_elem? s.tbl p; cell_of s o md

-- What `map_get_cache_entry` gives for the page `p`: the state has the same words, and the page.
pub record Cached (s : MapState) (p i : ℕ) (t : MapState) : Type 0 where
  pub here : get_elem? t.tbl p ≡ some (cached i)
  pub valid : IsValid t
  pub size : length t.tbl ≡ length s.tbl
  pub per : t.ent_per_pg ≡ s.ent_per_pg
  pub same : (q o : ℕ) → o < s.ent_per_pg → cell t q o ≡ cell s q o

pub md_cases :
    (m : Option MdAddr)
    → (m ≡ none) ⊎ (((w : ℕ) × (m ≡ some (on_media w))) ⊎ ((i : ℕ) × (m ≡ some (cached i))))
md_cases none = inl refl
md_cases (some (on_media w)) = inr (inl (w, refl))
md_cases (some (cached i)) = inr (inr (i, refl))

module _ (s : MapState) (v : IsValid s) (p i : ℕ) (rest : List ℕ) (head : s.mbf_head ≡ i ∷ rest)
    (empty : get_elem? s.tbl p ≡ some (on_media 0)) where
  abbrev new_page : CachePage → CachePage
  new_page pg = record pg { dirty = true; md_entry = some p; buf = replicate s.ent_per_pg 0 }

  loaded : (pg : CachePage) × (get_elem? s.pg_buf i ≡ some pg)
  loaded = get_elem?-of-lt s.pg_buf i (v.free i (rw head (ground arith)))

  page_i : CachePage
  page_i = loaded.0

  abbrev state_with : MapState
  state_with = record s {
    pg_buf = set s.pg_buf i (new_page page_i);
    mbf_head = rest;
    mbu_head = s.mbu_head ++ i ∷ [];
    nfree = (s.nfree + 2 ^ 32 - 1) % 2 ^ 32;
    nused = (s.nused + 1) % 2 ^ 32;
    tbl = set s.tbl p (cached i);
  }

  load_page-runs : load_page s p i rest ≡ some state_with
  unfolding load_page page_i fill_page
  load_page-runs = rw (loaded.1, empty) refl

  in_tbl : p < length s.tbl
  in_tbl = lt-of-get_elem? s.tbl p empty

  i_free : 0 < times i s.mbf_head
  i_free = rw head (ground arith)

  own_page : get_elem? (set s.pg_buf i (new_page page_i)) i ≡ some (new_page page_i)
  own_page = get_elem?-set_self s.pg_buf i (new_page page_i) (v.free i i_free)

  other_page :
      (q j : ℕ) (pg : CachePage)
      → get_elem? s.tbl q ≡ some (cached j)
      → get_elem? s.pg_buf j ≡ some pg
      → get_elem? (set s.pg_buf i (new_page page_i)) j ≡ some pg
  other_page q j pg e at_j =
      get_elem?-set_ne s.pg_buf i j (new_page page_i) (λ z. v.apart q i i_free (rw (← z) at (e)))
      ∙ at_j

  tbl_at :
      (q : ℕ)
      → ((p ≡ q) × (get_elem? (set s.tbl p (cached i)) q ≡ some (cached i)))
        ⊎ ((p ≢ q) × (get_elem? (set s.tbl p (cached i)) q ≡ get_elem? s.tbl q))
  tbl_at q = elim (Bool-cases (p == q)) [
    | inl y ↦
        let e = ==→eq p q y in inl (e, rw (← e) (get_elem?-set_self s.tbl p (cached i) in_tbl))
    | inr n ↦ let d = ==→ne p q n in inr (d, get_elem?-set_ne s.tbl p q (cached i) d)
  ]

  pages :
      (q j : ℕ)
      → get_elem? state_with.tbl q ≡ some (cached j)
      → (pg : CachePage) × IsPage state_with q j pg
  pages q j e = elim (tbl_at q) [
    | inl (same, at_q) ↦
        let ij : some (cached i) ≡ some (cached j) = sym at_q ∙ e in
        let eq : i ≡ j = cc in
        (
          new_page page_i,
          record {
            there = rw (← eq) own_page;
            size = length-replicate s.ent_per_pg 0;
            owner = ap some same;
            listed = ground (arith, times-append j s.mbu_head (i ∷ []));
          },
        )
    | inr (d, at_q) ↦
        let old : get_elem? s.tbl q ≡ some (cached j) = sym at_q ∙ e in
        let (pg, is) = v.page q j old in
        (
          pg,
          record {
            there = other_page q j pg old is.there;
            size = is.size;
            owner = is.owner;
            listed = ground (arith, is.listed, times-append j s.mbu_head (i ∷ []));
          },
        )
  ]

  state_with-IsValid : IsValid state_with
  state_with-IsValid = record {
    some_entries = v.some_entries;
    blank = λ q w e. elim (tbl_at q) [
      | inl (same, at_q) ↦ absurd (cc)
      | inr (d, at_q) ↦ v.blank q w (sym at_q ∙ e)
    ];
    page = pages;
    free = λ j h.
        let lt = v.free j (rw head (ground (arith, h))) in
        omega (arith, length-set s.pg_buf i (new_page page_i));
    once = λ j. let o = (rw head at (v.once j)) in ground (arith, o);
    apart = λ q j h e. elim (tbl_at q) [
      | inl (same, at_q) ↦
          let ij : some (cached i) ≡ some (cached j) = sym at_q ∙ e in
          let eq : i ≡ j = cc in let o = (rw head at (v.once j)) in ground (arith, o, h, eq)
      | inr (d, at_q) ↦ v.apart q j (rw head (ground (arith, h))) (sym at_q ∙ e)
    ];
    room =
        let r = (rw head at v.room) in
        omega (arith, r, length-set s.tbl p (cached i), cached_count-set s.tbl p i empty);
  }

  cell_same : (q o : ℕ) → o < s.ent_per_pg → cell state_with q o ≡ cell s q o
  unfolding cell cell_of
  cell_same q o h = elim (tbl_at q) [
    | inl (same, at_q) ↦ rw (at_q, ← same, empty, own_page) (get_elem?-replicate s.ent_per_pg o 0 h)
    | inr (d, at_q) ↦ rw at_q (elim (md_cases (get_elem? s.tbl q)) [
      | inl gone ↦ rw gone refl
      | inr (inl (w, e)) ↦ rw e refl
      | inr (inr (j, e)) ↦
          let (pg, is) = v.page q j e in rw (e, other_page q j pg e is.there, is.there) refl
    ])
  ]

  load_pg_cache-Cached : (load_pg_cache s p ≡ some (xztl_ok, state_with)) × Cached s p i state_with
  unfolding load_pg_cache load_from
  load_pg_cache-Cached = (
    rw (head, load_page-runs) refl,
    record {
      here = get_elem?-set_self s.tbl p (cached i) in_tbl;
      valid = state_with-IsValid;
      size = length-set s.tbl p (cached i);
      per = refl;
      same = cell_same;
    },
  )

-- A page that is in the cache goes to the end of the used queue.
module _ (s : MapState) (v : IsValid s) (p i : ℕ) (here : get_elem? s.tbl p ≡ some (cached i)) where
  abbrev moved : List ℕ → MapState
  moved used = record s { mbu_head = used ++ i ∷ [] }

  moved-Cached : (used : List ℕ) → tailq_remove i s.mbu_head ≡ some used → Cached s p i (moved used)
  unfolding cell cell_of
  moved-Cached used e = record {
    here = here;
    valid = record {
      some_entries = v.some_entries;
      blank = v.blank;
      page = λ q j at_q.
          let (pg, is) = v.page q j at_q in
          (
            pg,
            record {
              there = is.there;
              size = is.size;
              owner = is.owner;
              listed = ground (
                arith,
                is.listed,
                tailq_remove-times i j s.mbu_head e,
                times-append j used (i ∷ []),
              );
            },
          );
      free = v.free;
      once = v.once;
      apart = v.apart;
      room = v.room;
    };
    size = refl;
    per = refl;
    same = same_cell used;
  }
    where
      same_cell : (used : List ℕ) (q o : ℕ) → o < s.ent_per_pg → cell (moved used) q o ≡ cell s q o
      same_cell used q o h = elim (md_cases (get_elem? s.tbl q)) [
        | inl gone ↦ rw gone refl
        | inr (inl (w, e)) ↦ rw e refl
        | inr (inr (j, e)) ↦ rw e refl
      ]

free_page :
    (s : MapState)
    → IsValid s
    → (p : ℕ) {w : ℕ} → get_elem? s.tbl p ≡ some (on_media w)
    → (i : ℕ) × (rest : List ℕ) × (s.mbf_head ≡ i ∷ rest)
free_page s v p e = elim (uncons s.mbf_head) [
  | inl gone ↦ let r = (rw gone at v.room) in absurd (omega (arith, r, cached_count-lt s.tbl p e))
  | inr found ↦ found
]
  where
    uncons : (xs : List ℕ) → (xs ≡ []) ⊎ ((i : ℕ) × (rest : List ℕ) × (xs ≡ i ∷ rest))
    uncons [] = inl refl
    uncons (i ∷ rest) = inr (i, rest, refl)

-- The two ways of `map_get_cache_entry`.
module _ (s t : MapState) (p i : ℕ) where
  page_loaded :
      {w : ℕ}
      → get_elem? s.tbl p ≡ some (on_media w)
      → load_pg_cache s p ≡ some (xztl_ok, t)
      → get_elem? t.tbl p ≡ some (cached i)
      → get_page s p ≡ some (some i, t)
  unfolding get_page cached_page
  page_loaded e run here = rw (e, run, here) refl

  page_cached :
      {used : List ℕ}
      → get_elem? s.tbl p ≡ some (cached i)
      → tailq_remove i s.mbu_head ≡ some used
      → get_page s p ≡ some (some i, record s { mbu_head = used ++ i ∷ [] })
  unfolding get_page
  page_cached e gone = rw (e, gone) refl

-- `map_get_cache_entry` on a page of the table gives its page of the cache.
pub get_page-Cached :
    (s : MapState) (p : ℕ)
    → IsValid s
    → p < length s.tbl
    → (i : ℕ) × (t : MapState) × (get_page s p ≡ some (some i, t)) × Cached s p i t
get_page-Cached s p v h = elim (md_cases (get_elem? s.tbl p)) [
  | inl gone ↦ let (md, at_p) = get_elem?-of-lt s.tbl p h in absurd (cc)
  | inr (inl (w, e)) ↦
      let (i, rest, head) = free_page s v p e in
      let e0 : get_elem? s.tbl p ≡ some (on_media 0) =
        e ∙ ap (λ x. some (on_media x)) (v.blank p w e) in
      let (run, c) = load_pg_cache-Cached s v p i rest head e0 in
      let t = state_with s v p i rest head e0 in (i, t, page_loaded s t p i e run c.here, c)
  | inr (inr (i, e)) ↦
      let (pg, is) = v.page p i e in
      let (used, gone) = tailq_remove-of-times i s.mbu_head is.listed in
      (i, moved s v p i e used, page_cached s s p i e gone, moved-Cached s v p i e used gone)
]
