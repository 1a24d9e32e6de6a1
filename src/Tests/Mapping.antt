-- ===== src/Tests/Mapping.antt =====
-- The mapping of the repository's sizes (8192 pages, 256 entries, 4096 words a page).
use x_ztl.Common.{ℕ, ◌≡◌, refl, List, [], ◌∷◌, some, if◌then◌else◌, arith, length-replicate}
use x_ztl.Consts.{xztl_ok, xztl_ztl_map_err}
use x_ztl.Map.{MapState, on_media, upsert, map_init}
use x_ztl.Map.Refine.{word, InRange, stale, Updates, upsert-Updates}
use x_ztl.Map.Runs.{MapOp, store, load, run, run_words, run_refines, map_init-IsValid}

abbrev sizes : MapState
sizes = map_init 8192 256 4096

sizes-InRange : InRange sizes 1000000
unfolding map_init
sizes-InRange = record {
  page = omega (arith, length-replicate 256 (on_media 0));
  small = omega (arith, length-replicate 256 (on_media 0));
}

upsert-Updates_example :
    (w : ℕ) × (t : MapState) × (word sizes 1000000 ≡ some w)
    × (upsert sizes 1000000 77 0 5 ≡ some (if stale w 5 then xztl_ztl_map_err else xztl_ok, w, t))
    × Updates sizes 1000000 (if stale w 5 then w else 77) t
upsert-Updates_example =
    upsert-Updates sizes 1000000 77 0 5 (map_init-IsValid 8192 256 4096 (omega arith) (omega arith))
      sizes-InRange

abbrev script : List MapOp
script = store 1000000 77 ∷ store 5 8 ∷ load 1000000 ∷ store 1000000 9 ∷ load 5 ∷ []

run_refines_example : run sizes script ≡ some (run_words (λ id. 0) script)
run_refines_example =
    run_refines 8192 256 4096 script (omega arith) (omega arith) (omega arith)
      (omega arith, (omega arith, (omega arith, (omega arith, (omega arith, refl)))))
