-- ===== src/Env/Names/Renames.antt =====
-- The map of the files by its look-up, and what a rename makes of it.
use x_ztl.Common.{
  ℕ, ◌≡◌, ◌≢◌, refl, ap, sym, ◌∙◌, inl, inr, true, false, ◌==◌, [], ◌∷◌, Option, none, some, set,
  length, ◌≤◌, arith, Bool-cases, Option-cases, ==→eq,
}
use x_ztl.Addr.{ZrocksMap}
use x_ztl.Env.{Name, Library, ZnsFile}
use x_ztl.Env.Files.{FileMap, EnvState, deref, find, insert, erase, name_eq, name_lt}
use x_ztl.Env.Meta.{flush_replace_meta_data}
use x_ztl.Env.Names.{zns, is_file_posix, live_file, rename_live, rename_file}
use x_ztl.Env.Names.Recordable.{
  IsNamed, AllNamed, AllNamed-set, AllNamed-insert, AllNamed-erase, AllNamed-find,
  flush_replace_meta_data-fits,
}
use x_ztl.Env.Write.Touches.{deref-set_self}
use x_ztl.Env.Write.Keeps.{KeepsPieces, IsStore, flush_replace_meta_data-Keeps}

pub name_eq_refl : (n : Name) → name_eq n n ≡ true
unfolding name_eq
name_eq_refl [] = refl
name_eq_refl (x ∷ xs) =
    let same : (x == x) ≡ true = ground arith in rw (name_eq, same) (name_eq_refl xs)

pub eq-of-name_eq : (n m : Name) → name_eq n m ≡ true → n ≡ m
unfolding name_eq
eq-of-name_eq [] [] h = refl
eq-of-name_eq [] (y ∷ ys) h = absurd (cc)
eq-of-name_eq (x ∷ xs) [] h = absurd (cc)
eq-of-name_eq (x ∷ xs) (y ∷ ys) h = elim (Bool-cases (x == y)) [
  | inr other ↦ absurd (cc (rw (name_eq, other) at h))
  | inl same ↦
      let rest = eq-of-name_eq xs ys (rw (name_eq, same) at h) in
      let first = ==→eq x y same in ap (λ z. z ∷ xs) first ∙ ap (λ l. y ∷ l) rest
]

pub name_eq-ne : (n m : Name) → n ≢ m → name_eq n m ≡ false
name_eq-ne n m h = elim (Bool-cases (name_eq n m)) [
  | inl same ↦ absurd (h (eq-of-name_eq n m same))
  | inr other ↦ other
]

pub find-insert_self : (fs : FileMap) (k : Name) (v : Option ℕ) → find (insert fs k v) k ≡ some v
unfolding find insert
find-insert_self [] k v = rw (insert, find, name_eq_refl k) refl
find-insert_self ((n, u) ∷ fs) k v = elim (Bool-cases (name_eq n k)) [
  | inl here ↦ rw (insert, here, find, name_eq_refl k) refl
  | inr other ↦ elim (Bool-cases (name_lt k n)) [
    | inl before ↦ rw (insert, other, before, find, name_eq_refl k) refl
    | inr after ↦ rw (insert, other, after, find, other) (find-insert_self fs k v)
  ]
]

pub find-insert_ne :
    (fs : FileMap) (k j : Name) (v : Option ℕ) → k ≢ j → find (insert fs k v) j ≡ find fs j
unfolding find insert
find-insert_ne [] k j v h = rw (insert, find, name_eq-ne k j h) refl
find-insert_ne ((n, u) ∷ fs) k j v h = elim (Bool-cases (name_eq n k)) [
  | inl here ↦
      let same : n ≡ k = eq-of-name_eq n k here in
      let not_j : name_eq n j ≡ false = name_eq-ne n j (λ e. h (sym same ∙ e)) in
      rw (insert, here, find, name_eq-ne k j h, not_j) refl
  | inr other ↦ elim (Bool-cases (name_lt k n)) [
    | inl before ↦ rw (insert, other, before, find, name_eq-ne k j h) refl
    | inr after ↦ elim (Bool-cases (name_eq n j)) [
      | inl found ↦ rw (insert, other, after, find, found) refl
      | inr further ↦ rw (insert, other, after, find, further) (find-insert_ne fs k j v h)
    ]
  ]
]

pub find-erase_self : (fs : FileMap) (k : Name) → find (erase fs k) k ≡ none
unfolding find erase
find-erase_self [] k = refl
find-erase_self ((n, u) ∷ fs) k = elim (Bool-cases (name_eq n k)) [
  | inl here ↦ rw (erase, here) (find-erase_self fs k)
  | inr other ↦ rw (erase, other, find, other) (find-erase_self fs k)
]

pub find-erase_ne : (fs : FileMap) (k j : Name) → k ≢ j → find (erase fs k) j ≡ find fs j
unfolding find erase
find-erase_ne [] k j h = refl
find-erase_ne ((n, u) ∷ fs) k j h = elim (Bool-cases (name_eq n k)) [
  | inl here ↦
      let same : n ≡ k = eq-of-name_eq n k here in
      let not_j : name_eq n j ≡ false = name_eq-ne n j (λ e. h (sym same ∙ e)) in
      rw (erase, here, find, not_j) (find-erase_ne fs k j h)
  | inr other ↦ elim (Bool-cases (name_eq n j)) [
    | inl found ↦ rw (erase, other, find, found) refl
    | inr further ↦ rw (erase, other, find, further) (find-erase_ne fs k j h)
  ]
]

module _ {W : Type 0} (cell : W → ℕ → ℕ → ℕ) (Live : W → ZrocksMap → Type 0) where
  -- The target has the object of the source, under its new name and with all it had but for what is
  -- noted as recorded; the source is not found; every other name has what it had.
  pub record Renamed (s t : EnvState W) (src target : Name) (p : ℕ) (f : ZnsFile) : Type 0 where
    pub found : find t.files target ≡ some (some p)
    pub gone : find t.files src ≡ none
    pub others : (k : Name) → k ≢ src → k ≢ target → find t.files k ≡ find s.files k
    pub recorded : ℕ
    pub object : deref t.heap p ≡ some (record f { name = target; start_index = recorded })
    pub keeps : KeepsPieces cell Live s.dev t.dev

module _ {W : Type 0} (lib : Library W) (normalize : Name → Name) (cell : W → ℕ → ℕ → ℕ)
    (Live : W → ZrocksMap → Type 0) (store : IsStore lib cell Live) where
  rename_live-Renamed :
      (s : EnvState W) (src target : Name) (p : ℕ) (f : ZnsFile)
      → deref s.heap p ≡ some f
      → src ≢ target
      → length src ≤ 128
      → length target ≤ 128
      → AllNamed s.files s.heap
      → IsNamed s.heap p
      → (t : EnvState W) × (rename_live lib normalize s src target p ≡ some t)
        × Renamed cell Live s t src target p f
  unfolding rename_live
  rename_live-Renamed s src target p f at ne short short' named here =
      let g : ZnsFile = record f { name = target } in
      let inserted = insert s.files target (some p) in
      let moved : EnvState W = record s {
        heap = set s.heap p (some g);
        files = erase inserted src;
      } in
      let all_named =
        AllNamed-set (erase inserted src) s.heap p g here short' (
          AllNamed-erase inserted s.heap src
            (AllNamed-insert s.files s.heap target p here named)) in
      elim (Option-cases (flush_replace_meta_data lib src target moved)) [
        | inl fault ↦
            absurd (flush_replace_meta_data-fits lib src target moved short short' all_named fault)
        | inr ((r, t), done) ↦
            let (touched, (kept, _), files) =
              flush_replace_meta_data-Keeps lib cell Live store src target moved done in
            let (i, there) = touched p g (deref-set_self s.heap p g at) in
            (
              t,
              rw (rename_live, at, done) refl,
              record {
                found =
                    ap (λ fs. find fs target) files
                    ∙ (find-erase_ne inserted src target ne
                        ∙ find-insert_self s.files target (some p));
                gone = ap (λ fs. find fs src) files ∙ find-erase_self inserted src;
                others = λ k not_src not_target.
                    ap (λ fs. find fs k) files
                    ∙ (find-erase_ne inserted src k (λ x. not_src (sym x))
                        ∙ find-insert_ne s.files target k (some p) (λ x. not_target (sym x)));
                recorded = i;
                object = there;
                keeps = kept;
              },
            )
      ]

  -- Where live pieces outlive every call of the library: a file that is renamed to another name, where both
  -- names fit in the record and all files of the map are there and have names that fit, is found under the
  -- new name only, as the same object with all it had; every other name has what it had, and the live pieces keep their bytes.
  pub rename_file-Renamed :
      (s : EnvState W) (fsrc ftarget : Name) (p : ℕ) (f : ZnsFile)
      → is_file_posix (normalize fsrc) ≡ false
      → find s.files (normalize fsrc) ≡ some (some p)
      → deref s.heap p ≡ some f
      → normalize fsrc ≢ normalize ftarget
      → length (normalize fsrc) ≤ 128
      → length (normalize ftarget) ≤ 128
      → AllNamed s.files s.heap
      → (t : EnvState W) × (rename_file lib normalize s fsrc ftarget ≡ some (zns tt, t))
        × Renamed cell Live s t (normalize fsrc) (normalize ftarget) p f
  unfolding rename_file live_file
  rename_file-Renamed s fsrc ftarget p f ours there at ne short short' named =
      let (t, run, renamed) =
        rename_live-Renamed s (normalize fsrc) (normalize ftarget) p f at ne short short' named
          (AllNamed-find s.files s.heap (normalize fsrc) named there) in
      (t, rw (rename_file, ours, live_file, there, run) refl, renamed)
