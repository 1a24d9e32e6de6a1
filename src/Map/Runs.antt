-- ===== src/Map/Runs.antt =====
-- Runs of the mapping's operations from its start, against a function from ids to words.
use x_ztl.Common.{
  ℕ, zero, suc, ◌+◌, ◌-◌, ◌/◌, ◌%◌, ◌^◌, ◌≤◌, ◌<◌, ◌≡◌, refl, sym, ap, ◌∙◌, ◌==◌, leb, ltb,
  if◌then◌else◌, List, [], ◌∷◌, Option, none, some, ◌>>=◌, get_elem?, replicate, gen, length,
  length-replicate, get_elem?-replicate, lt-of-get_elem?, length-gen, times, arith, Bool-cases,
  ==→eq, ==→ne, inl, inr,
}
use x_ztl.Map.{MdAddr, on_media, cached, MapState, upsert, map_read, map_init, blank_page}
use x_ztl.Map.Valid.{IsValid, cached_count, cell, cell_of}
use x_ztl.Map.Refine.{word, InRange, Updates, upsert-Updates, map_read-Updates}

times-gen :
    (n a z m : ℕ)
    → z + m ≤ n
    → times a (gen (λ k. n - 1 - k) z m)
      ≡ (if leb (a + z + 1) n then (if ltb n (a + z + m + 1) then 1 else 0) else 0)
unfolding gen
times-gen n a z zero h = ground arith
times-gen n a z (suc m) h = let ih = times-gen n a (z + 1) m (omega arith) in ground (arith, ih)

cached_count-replicate : (n : ℕ) → cached_count (replicate n (on_media 0)) ≡ 0
cached_count-replicate zero = refl
cached_count-replicate (suc n) = cached_count-replicate n

replicate-inv :
    (n p : ℕ) (md : MdAddr) → get_elem? (replicate n (on_media 0)) p ≡ some md → on_media 0 ≡ md
replicate-inv n p md e =
    let lt : p < n =
      omega
        (arith, lt-of-get_elem? (replicate n (on_media 0)) p e, length-replicate n (on_media 0)) in
    let same : some (on_media 0) ≡ some md = sym (get_elem?-replicate n p (on_media 0) lt) ∙ e in cc

-- The mapping starts valid where the cache has a page for each entry of the table.
pub map_init-IsValid :
    (pages entries per : ℕ) → 0 < per → entries ≤ pages → IsValid (map_init pages entries per)
unfolding map_init
map_init-IsValid pages entries per pos enough =
    let free = λ (a : ℕ). times-gen pages a 0 pages (omega arith) in
    record {
      some_entries = pos;
      blank = λ p w e. let same = replicate-inv entries p (on_media w) e in cc;
      page = λ p i e. let same = replicate-inv entries p (cached i) e in absurd (cc);
      free = λ i h. ground (arith, free i, length-replicate pages (blank_page per));
      once = λ i. ground (arith, free i);
      apart = λ p i h e. let same = replicate-inv entries p (cached i) e in absurd (cc);
      room =
          omega
            (arith, length-replicate entries (on_media 0), length-gen (λ k. pages - 1 - k) 0 pages);
    }

pub data MapOp : Type 0 where
  store : ℕ → ℕ → MapOp
  load : ℕ → MapOp

-- What the operations give: the old word of a store, the offset of a load.
pub run : MapState → List MapOp → Option (List ℕ)
run s [] = some []
run s (store id val ∷ ops) = do
  (st, old, t) ← upsert s id val 0 0
  outs ← run t ops
  if st == 0 then some (old ∷ outs) else none
run s (load id ∷ ops) = do (off, t) ← map_read s id; outs ← run t ops; some (off ∷ outs)

-- The same on a function from ids to words.
pub run_words : (ℕ → ℕ) → List MapOp → List ℕ
run_words m [] = []
run_words m (store id val ∷ ops) =
    m id ∷ run_words (λ other. if other == id then val else m other) ops
run_words m (load id ∷ ops) = m id % 2 ^ 40 ∷ run_words m ops

-- Every id of the operations has an entry in a table of `entries` pages.
abbrev pub InTable : ℕ → ℕ → List MapOp → Type 0
InTable entries per [] = entries ≡ entries
InTable entries per (store id val ∷ ops) = (id / per < entries) × InTable entries per ops
InTable entries per (load id ∷ ops) = (id / per < entries) × InTable entries per ops

record StandsFor (entries per : ℕ) (s : MapState) (m : ℕ → ℕ) : Type 0 where
  valid : IsValid s
  size : length s.tbl ≡ entries
  width : s.ent_per_pg ≡ per
  words : (id : ℕ) → id / per < entries → word s id ≡ some (m id)

in_range :
    (entries per : ℕ) (s : MapState) (m : ℕ → ℕ) (id : ℕ)
    → StandsFor entries per s m
    → entries < 2 ^ 32
    → id / per < entries
    → InRange s id
in_range entries per s m id f small h = record {
  page = rw (f.size, f.width) h;
  small = rw f.size small;
}

StandsFor-Updates :
    (entries per : ℕ) (s t : MapState) (m : ℕ → ℕ) (id val : ℕ)
    → StandsFor entries per s m
    → Updates s id val t
    → StandsFor entries per t (λ other. if other == id then val else m other)
StandsFor-Updates entries per s t m id val f u = record {
  valid = u.valid;
  size = u.size ∙ f.size;
  width = u.per ∙ f.width;
  words = λ a h. elim (Bool-cases (a == id)) [
    | inl y ↦ let e = ==→eq a id y in rw (y, e) u.new
    | inr n ↦ rw n (u.others a (==→ne a id n) ∙ f.words a h)
  ];
}

StandsFor-same :
    (entries per : ℕ) (s t : MapState) (m : ℕ → ℕ) (id : ℕ)
    → StandsFor entries per s m
    → Updates s id (m id) t
    → StandsFor entries per t m
StandsFor-same entries per s t m id f u =
    let g = StandsFor-Updates entries per s t m id (m id) f u in
    record {
      valid = g.valid;
      size = g.size;
      width = g.width;
      words = λ a h. g.words a h ∙ ap some (unchanged a);
    }
  where
    unchanged : (a : ℕ) → (if a == id then m id else m a) ≡ m a
    unchanged a = elim (Bool-cases (a == id)) [
      | inl y ↦ rw y (ap m (sym (==→eq a id y)))
      | inr n ↦ rw n refl
    ]

run-StandsFor :
    (entries per : ℕ) (small : entries < 2 ^ 32) (ops : List MapOp) (s : MapState) (m : ℕ → ℕ)
    → StandsFor entries per s m
    → InTable entries per ops
    → run s ops ≡ some (run_words m ops)
unfolding run run_words
run-StandsFor entries per small [] s m f h = refl
run-StandsFor entries per small (store id val ∷ ops) s m f h =
    let (w, t, was, step, u) =
      upsert-Updates s id val 0 0 f.valid (in_range entries per s m id f small h.0) in
    let same : some w ≡ some (m id) = sym was ∙ f.words id h.0 in
    let old : w ≡ m id = cc in
    let rest =
      run-StandsFor entries per small ops t _ (StandsFor-Updates entries per s t m id val f u)
        h.1 in
    rw (step, rest, old) refl
run-StandsFor entries per small (load id ∷ ops) s m f h =
    let (w, t, was, step, u) =
      map_read-Updates s id f.valid (in_range entries per s m id f small h.0) in
    let same : some w ≡ some (m id) = sym was ∙ f.words id h.0 in
    let old : w ≡ m id = cc in
    let rest =
      run-StandsFor entries per small ops t m
        (StandsFor-same entries per s t m id f (rw old at (u))) h.1 in
    rw (step, rest, old) refl

start-StandsFor :
    (pages entries per : ℕ)
    → 0 < per
    → entries ≤ pages
    → StandsFor entries per (map_init pages entries per) (λ id. 0)
unfolding map_init cell cell_of
start-StandsFor pages entries per pos enough = record {
  valid = map_init-IsValid pages entries per pos enough;
  size = length-replicate entries (on_media 0);
  width = refl;
  words = λ id h. blank_word id h;
}
  where
    blank_word : (id : ℕ) → id / per < entries → word (map_init pages entries per) id ≡ some 0
    blank_word id h = rw (get_elem?-replicate entries (id / per) (on_media 0) h) refl

-- From its start, a mapping whose cache has at least as many pages as its table (fewer than 2^32) has
-- entries answers every sequence of stores and loads, of ids within the table, as a function from ids
-- to words that is 0 at first does: a store gives the old word, a load the low 40 bits of the word.
pub run_refines :
    (pages entries per : ℕ) (ops : List MapOp)
    → 0 < per
    → entries ≤ pages
    → entries < 2 ^ 32
    → InTable entries per ops
    → run (map_init pages entries per) ops ≡ some (run_words (λ id. 0) ops)
run_refines pages entries per ops pos enough small h =
    run-StandsFor entries per small ops (map_init pages entries per) (λ id. 0)
      (start-StandsFor pages entries per pos enough) h
