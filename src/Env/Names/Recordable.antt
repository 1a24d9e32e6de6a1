-- ===== src/Env/Names/Recordable.antt =====
-- The metadata of files whose pointers are valid and whose names fit is written without a fault.
use x_ztl.Common.{
  ℕ, ◌+◌, ◌-◌, ◌%◌, ◌^◌, ◌≤◌, ◌≡◌, ◌≢◌, inl, inr, true, false, leb, ◌==◌, List, [], ◌∷◌, ◌++◌,
  Option, none, some, set, length, replicate, take, drop, arith, Bool-cases, Option-cases, ==→eq,
  ==→ne, length-append, length-replicate, length-drop, length-take_le,
}
use mathlib.Core.Path.{subst}
use x_ztl.Env.{Name, Library, ZnsFile, ok, failed}
use x_ztl.Env.Files.{FileMap, EnvState, deref, find, insert, erase, name_eq, name_lt}
use x_ztl.Env.Meta.{
  name_bytes, write_meta_to_buf, flush_files, flush_meta_data, flush_record,
  flush_replace_meta_data, record_bytes, replace_body, with_buffer, get_file_meta_len,
  file_metadata_buf_size, md_write_full,
}
use x_ztl.Env.Write.Touches.{
  Touches, Touches-set, write_meta_to_buf-index, deref-set_self, deref-set_ne,
}

-- A pointer to a file whose name fits.
abbrev pub IsNamed : List (Option ZnsFile) → ℕ → Type 0
IsNamed heap p = (f : ZnsFile) × (deref heap p ≡ some f) × (length f.name ≤ 128)

abbrev pub AllNamed : FileMap → List (Option ZnsFile) → Type 0
AllNamed [] heap = Unit
AllNamed ((n, none) ∷ fs) heap = AllNamed fs heap
AllNamed ((n, some p) ∷ fs) heap = IsNamed heap p × AllNamed fs heap

AllNamed-Touches :
    (fs : FileMap) (a b : List (Option ZnsFile)) → Touches a b → AllNamed fs a → AllNamed fs b
AllNamed-Touches [] a b t h = tt
AllNamed-Touches ((n, none) ∷ fs) a b t h = AllNamed-Touches fs a b t h
AllNamed-Touches ((n, some p) ∷ fs) a b t ((f, at, short), hs) =
    let (i, at') = t p f at in
    ((record f { start_index = i }, at', short), AllNamed-Touches fs a b t hs)

IsNamed-set :
    (heap : List (Option ZnsFile)) (p q : ℕ) (g : ZnsFile)
    → IsNamed heap p
    → length g.name ≤ 128
    → IsNamed heap q
    → IsNamed (set heap p (some g)) q
IsNamed-set heap p q g (f, at, fits) short (h, at', short') = elim (Bool-cases (p == q)) [
  | inl same ↦
      let here : p ≡ q = ==→eq p q same in (g, rw (← here) (deref-set_self heap p g at), short)
  | inr other ↦ (h, rw (deref-set_ne heap p q (some g) (==→ne p q other)) at', short')
]

pub AllNamed-set :
    (fs : FileMap) (heap : List (Option ZnsFile)) (p : ℕ) (g : ZnsFile)
    → IsNamed heap p
    → length g.name ≤ 128
    → AllNamed fs heap
    → AllNamed fs (set heap p (some g))
AllNamed-set [] heap p g h short a = tt
AllNamed-set ((n, none) ∷ fs) heap p g h short a = AllNamed-set fs heap p g h short a
AllNamed-set ((n, some q) ∷ fs) heap p g h short (b, bs) =
    (IsNamed-set heap p q g h short b, AllNamed-set fs heap p g h short bs)

AllNamed-tail :
    (n : Name) (o : Option ℕ) (fs : FileMap) (heap : List (Option ZnsFile))
    → AllNamed ((n, o) ∷ fs) heap
    → AllNamed fs heap
AllNamed-tail n none fs heap h = h
AllNamed-tail n (some p) fs heap (h, hs) = hs

AllNamed-cons :
    (n : Name) (o : Option ℕ) (fs gs : FileMap) (heap : List (Option ZnsFile))
    → AllNamed ((n, o) ∷ fs) heap
    → AllNamed gs heap
    → AllNamed ((n, o) ∷ gs) heap
AllNamed-cons n none fs gs heap h g = g
AllNamed-cons n (some p) fs gs heap (h, hs) g = (h, g)

pub AllNamed-insert :
    (fs : FileMap) (heap : List (Option ZnsFile)) (k : Name) (p : ℕ)
    → IsNamed heap p
    → AllNamed fs heap
    → AllNamed (insert fs k (some p)) heap
unfolding insert
AllNamed-insert [] heap k p b a = (b, tt)
AllNamed-insert ((n, o) ∷ fs) heap k p b a =
    let rest = AllNamed-tail n o fs heap a in
    elim (Bool-cases (name_eq n k)) [
      | inl here ↦ rw (insert, here) (b, rest)
      | inr other ↦ elim (Bool-cases (name_lt k n)) [
        | inl before ↦ rw (insert, other, before) (b, a)
        | inr after ↦
            rw (insert, other, after)
              (AllNamed-cons n o fs (insert fs k (some p)) heap a
                (AllNamed-insert fs heap k p b rest))
      ]
    ]

pub AllNamed-erase :
    (fs : FileMap) (heap : List (Option ZnsFile)) (k : Name)
    → AllNamed fs heap
    → AllNamed (erase fs k) heap
unfolding erase
AllNamed-erase [] heap k a = tt
AllNamed-erase ((n, o) ∷ fs) heap k a =
    let rest = AllNamed-erase fs heap k (AllNamed-tail n o fs heap a) in
    elim (Bool-cases (name_eq n k)) [
      | inl here ↦ rw (erase, here) rest
      | inr other ↦ rw (erase, other) (AllNamed-cons n o fs (erase fs k) heap a rest)
    ]

pub AllNamed-find :
    (fs : FileMap) (heap : List (Option ZnsFile)) (k : Name) {p : ℕ}
    → AllNamed fs heap
    → find fs k ≡ some (some p)
    → IsNamed heap p
unfolding find
AllNamed-find [] heap k a e = absurd (cc (e))
AllNamed-find ((n, o) ∷ fs) heap k {p = p} a e = elim (Bool-cases (name_eq n k)) [
  | inr other ↦ AllNamed-find fs heap k (AllNamed-tail n o fs heap a) (rw (find, other) at e)
  | inl here ↦
      let same : o ≡ some p = cc (rw (find, here) at e) in
      (subst (λ x. AllNamed ((n, x) ∷ fs) heap) same a).0
]

write_meta_to_buf-fits : (f : ZnsFile) → length f.name ≤ 128 → write_meta_to_buf f false ≢ none
unfolding write_meta_to_buf name_bytes
write_meta_to_buf-fits f h e =
    let short : leb (length f.name) 128 ≡ true = ground (arith, h) in
    absurd (cc (rw (write_meta_to_buf, name_bytes, short) at e))

flush_files-fits :
    (fs : FileMap) (heap : List (Option ZnsFile)) (n len : ℕ) (out : List ℕ)
    → AllNamed fs heap
    → flush_files fs heap n len out ≢ none
unfolding flush_files
flush_files-fits [] heap n len out a e = absurd (cc (e))
flush_files-fits ((k, none) ∷ fs) heap n len out a e = flush_files-fits fs heap n len out a e
flush_files-fits ((k, some p) ∷ fs) heap n len out ((f, at, short), hs) e =
    elim (Option-cases (write_meta_to_buf f false)) [
      | inl long ↦ absurd (write_meta_to_buf-fits f short long)
      | inr ((bytes, f'), written) ↦
          let index = write_meta_to_buf-index f false written in
          let first : Touches heap (set heap p (some f')) =
            rw index (Touches-set heap p (length f.pieces % 2 ^ 32) f at) in
          elim (Bool-cases (leb file_metadata_buf_size (len + get_file_meta_len f))) [
            | inl over ↦ absurd (cc (rw (flush_files, at, written, over) at e))
            | inr room ↦
                flush_files-fits fs (set heap p (some f')) (n + 1) (len + length bytes)
                  (out ++ bytes) (AllNamed-Touches fs heap (set heap p (some f')) first hs)
                  (rw (flush_files, at, written, room) at e)
          ]
    ]

length-replace_body :
    (src dest : Name) → length src ≤ 128 → length dest ≤ 128 → length (replace_body src dest) ≤ 512
unfolding replace_body
length-replace_body src dest h g =
    let memory : List ℕ = src ++ replicate (256 - length src) 0 in
    let all = length-append src (replicate {A = ℕ} (256 - length src) 0) in
    let zeros = length-replicate {A = ℕ} (256 - length src) 0 in
    let first = length-take_le 128 memory in
    let last = length-drop (128 + length dest) memory in
    let tail = length-append dest (drop (128 + length dest) memory) in
    let both = length-append (take 128 memory) (dest ++ drop (128 + length dest) memory) in
    omega (arith, all, zeros, first, last, tail, both, h, g)

module _ {W : Type 0} (lib : Library W) where
  flush_meta_data-fits : (s : EnvState W) → AllNamed s.files s.heap → flush_meta_data lib s ≢ none
  unfolding flush_meta_data
  flush_meta_data-fits s a e = elim (Option-cases (flush_files s.files s.heap 0 4112 [])) [
    | inl fault ↦ absurd (flush_files-fits s.files s.heap 0 4112 [] a fault)
    | inr ((failed x, heap), done) ↦ absurd (cc (rw (flush_meta_data, done) at e))
    | inr ((ok (n, out), heap), done) ↦ absurd (cc (rw (flush_meta_data, done) at e))
  ]

  flush_record-fits :
      (s : EnvState W) (bytes : List ℕ) → AllNamed s.files s.heap → flush_record lib s bytes ≢ none
  unfolding flush_record
  flush_record-fits s bytes a e =
      let written : EnvState W = record s {
        dev = (lib.zrocks_write_file_metadata s.dev bytes).1;
      } in
      elim (Bool-cases ((lib.zrocks_write_file_metadata s.dev bytes).0 == md_write_full)) [
        | inr done ↦ absurd (cc (rw (flush_record, done) at e))
        | inl full ↦ elim (Option-cases (flush_meta_data lib written)) [
          | inl fault ↦ absurd (flush_meta_data-fits written a fault)
          | inr ((r, u), all) ↦ absurd (cc (rw (flush_record, full, all) at e))
        ]
      ]

  pub flush_replace_meta_data-fits :
      (src dest : Name) (s : EnvState W)
      → length src ≤ 128
      → length dest ≤ 128
      → AllNamed s.files s.heap
      → flush_replace_meta_data lib src dest s ≢ none
  unfolding flush_replace_meta_data with_buffer record_bytes
  flush_replace_meta_data-fits src dest s h g a e =
      let small = length-replace_body src dest h g in
      let fits : leb (12 + length (replace_body src dest)) 4096 ≡ true = ground (arith, small) in
      let buffered : EnvState W = record s { dev = (lib.zrocks_alloc s.dev 4096).1 } in
      elim (Bool-cases (lib.zrocks_alloc s.dev 4096).0) [
        | inr none_left ↦ absurd (cc (rw (flush_replace_meta_data, with_buffer, none_left) at e))
        | inl memory ↦
            flush_record-fits buffered _ a
              (rw (flush_replace_meta_data, with_buffer, memory, record_bytes, fits) at e)
      ]
