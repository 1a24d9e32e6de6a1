-- ===== src/Env/Write/Touches.antt =====
-- The file objects that the metadata's writes leave as they are, but for `start_index`.
use x_ztl.Common.{
  ℕ, ◌+◌, ◌%◌, ◌^◌, ◌<◌, ◌≡◌, ◌≢◌, refl, ap, ◌∙◌, sym, Bool, false, ◌==◌, leb, List, [], ◌∷◌, ◌++◌,
  Option, none, some, >>=-eq-some, get_elem?, set, length, inl, inr, Bool-cases, Option-cases,
  get_elem?-set_self, get_elem?-set_ne, lt-of-get_elem?, ==→eq, ==→ne,
}
use x_ztl.Env.{Status, ZnsFile}
use x_ztl.Env.Files.{FileMap, deref}
use x_ztl.Env.Meta.{
  name_bytes, write_meta_to_buf, flush_files, get_file_meta_len, file_metadata_buf_size,
}

-- The file objects stay, but for what is noted as recorded.
abbrev pub Touches : List (Option ZnsFile) → List (Option ZnsFile) → Type 0
Touches heap heap' =
    (q : ℕ) (f : ZnsFile)
    → deref heap q ≡ some f
    → (i : ℕ) × (deref heap' q ≡ some (record f { start_index = i }))

pub Touches-refl : (heap : List (Option ZnsFile)) → Touches heap heap
Touches-refl heap q f e = (f.start_index, e)

pub Touches-trans : (a b c : List (Option ZnsFile)) → Touches a b → Touches b c → Touches a c
Touches-trans a b c ab bc q f e =
    let (i, at) = ab q f e in let (j, at') = bc q (record f { start_index = i }) at in (j, at')

pub deref-lt :
    (heap : List (Option ZnsFile)) (p : ℕ) {f : ZnsFile} → deref heap p ≡ some f → p < length heap
unfolding deref
deref-lt heap p e =
    let (o, at, _) = >>=-eq-some (get_elem? heap p) (λ o. o) e in lt-of-get_elem? heap p at

pub deref-set_self :
    (heap : List (Option ZnsFile)) (p : ℕ) (g : ZnsFile) {f : ZnsFile}
    → deref heap p ≡ some f
    → deref (set heap p (some g)) p ≡ some g
unfolding deref
deref-set_self heap p g e = rw (get_elem?-set_self heap p (some g) (deref-lt heap p e)) refl

pub deref-set_ne :
    (heap : List (Option ZnsFile)) (p q : ℕ) (o : Option ZnsFile)
    → p ≢ q
    → deref (set heap p o) q ≡ deref heap q
unfolding deref
deref-set_ne heap p q o h = rw (get_elem?-set_ne heap p q o h) refl

pub Touches-set :
    (heap : List (Option ZnsFile)) (p i : ℕ) (f : ZnsFile)
    → deref heap p ≡ some f
    → Touches heap (set heap p (some (record f { start_index = i })))
Touches-set heap p i f e q g at = elim (Bool-cases (p == q)) [
  | inl same ↦
      let here : q ≡ p = sym (==→eq p q same) in
      let eq : some g ≡ some f = sym at ∙ (ap (deref heap) here ∙ e) in
      let eq' : g ≡ f = cc in
      (i, rw (here, eq') (deref-set_self heap p (record f { start_index = i }) e))
  | inr other ↦
      let ne = ==→ne p q other in
      (g.start_index, deref-set_ne heap p q (some (record f { start_index = i })) ne ∙ at)
]

pub write_meta_to_buf-index :
    (f : ZnsFile) (update : Bool) {bytes : List ℕ} {f' : ZnsFile}
    → write_meta_to_buf f update ≡ some (bytes, f')
    → f' ≡ record f { start_index = length f.pieces % 2 ^ 32 }
unfolding write_meta_to_buf
write_meta_to_buf-index f update e = elim (Option-cases (name_bytes f.name)) [
  | inl long ↦ absurd (cc (rw (write_meta_to_buf, long) at e))
  | inr (field, short) ↦ let made = rw (write_meta_to_buf, short) at e in cc (made)
]

pub flush_files-Touches :
    (fs : FileMap) (heap : List (Option ZnsFile)) (n len : ℕ) (out : List ℕ)
    {r : Status (ℕ × List ℕ)} {heap' : List (Option ZnsFile)}
    → flush_files fs heap n len out ≡ some (r, heap')
    → Touches heap heap'
unfolding flush_files
flush_files-Touches [] heap n len out {heap' = heap'} e =
    let same : heap ≡ heap' = cc in rw same (Touches-refl heap')
flush_files-Touches ((k, none) ∷ fs) heap n len out e = flush_files-Touches fs heap n len out e
flush_files-Touches ((k, some p) ∷ fs) heap n len out {heap' = heap'} e =
    elim (Option-cases (deref heap p)) [
      | inl dangling ↦ absurd (cc (rw (flush_files, dangling) at e))
      | inr (f, at) ↦ elim (Option-cases (write_meta_to_buf f false)) [
        | inl long ↦ absurd (cc (rw (flush_files, at, long) at e))
        | inr ((bytes, f'), written) ↦
            let index = write_meta_to_buf-index f false written in
            let first : Touches heap (set heap p (some f')) =
              rw index (Touches-set heap p (length f.pieces % 2 ^ 32) f at) in
            elim (Bool-cases (leb file_metadata_buf_size (len + get_file_meta_len f))) [
              | inl over ↦
                  let stopped = rw (flush_files, at, written, over) at e in
                  let same : heap ≡ heap' = cc in rw same (Touches-refl heap')
              | inr room ↦
                  let rest = rw (flush_files, at, written, room) at e in
                  Touches-trans heap (set heap p (some f')) heap' first (
                    flush_files-Touches fs (set heap p (some f')) (n + 1) (len + length bytes)
                      (out ++ bytes) rest)
            ]
      ]
    ]
