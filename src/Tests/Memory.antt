-- ===== src/Tests/Memory.antt =====
-- A library over a node in memory, with which the theorems on files are applied.
use x_ztl.Common.{
  ℕ, ◌+◌, ◌-◌, ◌*◌, ◌/◌, ◌^◌, ◌<◌, ◌≤◌, ◌≡◌, refl, ap, ◌∙◌, sym, Bool, true, false, ltb,
  if◌then◌else◌, List, [], ◌∷◌, Option, none, some, get_elem?, length, arith, inl, inr, Bool-cases,
  gen, gen-of-get, get_elem?-gen, length-gen, get_elem?-of-lt, ltb→lt,
}
use mathlib.Core.Path.{subst}
use mathlib.Core.List.{append-nil}
use x_ztl.Common.Int.{ℤ}
use x_ztl.Addr.{ZrocksMap}
use x_ztl.Env.{Library, piece_size, piece_start}
use x_ztl.Env.Read.Slice.{flushed, ReadsCells}
use x_ztl.Env.Write.Keeps.{KeepsPieces, KeepsPieces-refl, AllLive, IsStore}

-- The number of pieces that are written, the bytes, and whether a write was lost.
pub record Memory : Type 0 where
  pub next : ℕ
  pub byte_at : ℕ → ℕ
  pub lost : Bool

abbrev pub nth : List ℕ → ℕ → ℕ
nth bytes i = elim (get_elem? bytes i) [ none ↦ 0 | some b ↦ b ]

abbrev pub piece_count_of : List ℕ → ℕ
piece_count_of bytes = (length bytes + 32767) / 32768

abbrev pub memory_map : Memory → List ℕ → ZrocksMap
memory_map w bytes = record {
  node_id = 0;
  start = w.next;
  num = piece_count_of bytes;
  padding = piece_count_of bytes * 32768 - length bytes;
}

abbrev pub written_memory : Memory → List ℕ → Memory
written_memory w bytes = record {
  next = w.next + piece_count_of bytes;
  byte_at = λ i. if ltb i (w.next * 32768) then w.byte_at i else nth bytes (i - w.next * 32768);
  lost = w.lost;
}

-- A large write returns without an error and without pieces.
abbrev pub memory_write : Memory → List ℕ → ℤ → Option (List ZrocksMap) × Memory
memory_write w bytes level =
    if ltb (length bytes) (2 ^ 40)
    then (some (memory_map w bytes ∷ []), written_memory w bytes)
    else (some [], record w { lost = true })

-- A read of more than 32 MB fails.
abbrev pub memory_read : Memory → ℕ → ℕ → ℕ → Option (List ℕ)
memory_read w node_id off n = if ltb 33554432 n then none else some (gen w.byte_at off n)

abbrev pub memory : Library Memory
memory = record {
  zrocks_read = memory_read;
  zrocks_write = memory_write;
  zrocks_trim = λ w m. w;
  zrocks_alloc = λ w n. (true, w);
  zrocks_write_file_metadata = λ w bytes. (0, w);
  zrocks_get_metadata_slbas = λ w. [];
  zrocks_read_metadata = λ w slba n. none;
  zrocks_switch_zone = λ w slba. w;
  zrocks_node_set = λ w node_id level num. w;
  zrocks_clear_invalid_nodes = λ w. w;
}

abbrev pub cells : Memory → ℕ → ℕ → ℕ
cells w node_id = w.byte_at

abbrev pub IsWritten : Memory → ZrocksMap → Type 0
IsWritten w m = piece_start m + piece_size m ≤ w.next * 32768

gen-ext :
    (g h : ℕ → ℕ) (z n : ℕ) → ((j : ℕ) → j < n → g (z + j) ≡ h (z + j)) → gen g z n ≡ gen h z n
gen-ext g h z n e =
    gen-of-get h z n (gen g z n) (length-gen g z n)
      (λ j lt. get_elem?-gen g z n j lt ∙ ap some (e j lt))

written_memory-keeps :
    (w : Memory) (bytes : List ℕ) → KeepsPieces cells IsWritten w (written_memory w bytes)
written_memory-keeps w bytes m l = (
  omega (arith, l),
  gen-ext _ w.byte_at (piece_start m) (piece_size m) (λ j lt.
      let old : ltb (piece_start m + j) (w.next * 32768) ≡ true = ground (arith, lt, l) in
      rw old refl),
)

written_byte :
    (w : Memory) (bytes : List ℕ) (j : ℕ)
    → j < length bytes
    → get_elem? bytes j ≡ some (cells (written_memory w bytes) 0 (w.next * 32768 + j))
written_byte w bytes j h =
    let (b, at) = get_elem?-of-lt bytes j h in
    let past : ltb (w.next * 32768 + j) (w.next * 32768) ≡ false = ground arith in
    let back : w.next * 32768 + j - w.next * 32768 ≡ j = omega arith in
    let value : nth bytes j ≡ b = rw (nth, at) refl in
    let stored : cells (written_memory w bytes) 0 (w.next * 32768 + j) ≡ b =
      rw (past, back) value in
    at ∙ ap some (sym stored)

written_memory-holds :
    (w : Memory) (bytes : List ℕ)
    → length bytes < 2 ^ 40
    → (IsWritten (written_memory w bytes) (memory_map w bytes) × Unit {0})
      × (flushed (cells (written_memory w bytes)) (memory_map w bytes ∷ []) ≡ bytes)
unfolding flushed piece_size piece_start
written_memory-holds w bytes h =
    let size : piece_size (memory_map w bytes) ≡ length bytes = omega (arith, h) in
    let start : piece_start (memory_map w bytes) ≡ w.next * 32768 = omega arith in
    let base : ℕ = w.next * 32768 in
    let here = written_byte w bytes in
    (
      (omega (arith, size, start), tt),
      append-nil (
            gen (cells (written_memory w bytes) 0) (piece_start (memory_map w bytes))
              (piece_size (memory_map w bytes)))
          ∙ (ap
                (λ (z : ℕ).
                  gen (cells (written_memory w bytes) 0) z (piece_size (memory_map w bytes)))
                start
              ∙ (ap (λ (n : ℕ). gen (cells (written_memory w bytes) 0) base n) size
                  ∙ sym (
                      gen-of-get (cells (written_memory w bytes) 0) base (length bytes) bytes refl
                        here))),
    )

-- The memory keeps what is written, and holds it, but for writes that are lost.
pub memory_store : IsStore memory cells IsWritten
memory_store = record {
  IsSound = λ w. w.lost ≡ false;
  alloc_sound = λ w n k. k;
  meta_sound = λ w bytes k. k;
  write_sound = λ w bytes level k. elim (Bool-cases (ltb (length bytes) (2 ^ 40))) [
    | inl small ↦
        sym (ap (λ (r : Option (List ZrocksMap) × Memory). r.1.lost) (written w bytes level small))
        ∙ k
    | inr large ↦ absurd (
        cc (
          sym
            (ap (λ (r : Option (List ZrocksMap) × Memory). r.1.lost) (refused w bytes level large))
          ∙ k))
  ];
  alloc_keeps = λ w n. KeepsPieces-refl cells IsWritten w;
  meta_keeps = λ w bytes. KeepsPieces-refl cells IsWritten w;
  write_keeps = λ w bytes level. elim (Bool-cases (ltb (length bytes) (2 ^ 40))) [
    | inl small ↦
        subst (λ (r : Option (List ZrocksMap) × Memory). KeepsPieces cells IsWritten w r.1)
          (sym (written w bytes level small)) (written_memory-keeps w bytes)
    | inr large ↦
        subst (λ (r : Option (List ZrocksMap) × Memory). KeepsPieces cells IsWritten w r.1)
          (sym (refused w bytes level large)) (λ m l. (l, refl))
  ];
  write_places = λ w bytes level maps e k. elim (Bool-cases (ltb (length bytes) (2 ^ 40))) [
    | inl small ↦
        let c = written w bytes level small in
        let same : memory_map w bytes ∷ [] ≡ maps =
          cc (sym (ap (λ (r : Option (List ZrocksMap) × Memory). r.0) c) ∙ e) in
        subst
          (λ (r : Option (List ZrocksMap) × Memory).
            AllLive cells IsWritten r.1 maps × (flushed (cells r.1) maps ≡ bytes))
          (sym c)
          (subst
            (λ (l : List ZrocksMap).
              AllLive cells IsWritten (written_memory w bytes) l
              × (flushed (cells (written_memory w bytes)) l ≡ bytes))
            same (written_memory-holds w bytes (ltb→lt _ _ small)))
    | inr large ↦ absurd (
        cc (
          sym
            (ap (λ (r : Option (List ZrocksMap) × Memory). r.1.lost) (refused w bytes level large))
          ∙ k))
  ];
}
  where
    written :
        (w : Memory) (bytes : List ℕ) (level : ℤ)
        → ltb (length bytes) (2 ^ 40) ≡ true
        → memory_write w bytes level ≡ (some (memory_map w bytes ∷ []), written_memory w bytes)
    written w bytes level h = rw h refl

    refused :
        (w : Memory) (bytes : List ℕ) (level : ℤ)
        → ltb (length bytes) (2 ^ 40) ≡ false
        → memory_write w bytes level ≡ (some [], record w { lost = true })
    refused w bytes level h = rw h refl

pub memory_sound : (w : Memory) → w.lost ≡ false → memory_store.IsSound w
unfolding memory_store
memory_sound w k = k

pub memory-ReadsCells : (w : Memory) → ReadsCells memory w (cells w)
memory-ReadsCells w node_id off n bytes e = elim (Bool-cases (ltb 33554432 n)) [
  | inl large ↦ absurd (cc (rw large at e))
  | inr small ↦ let read = rw small at e in cc (read)
]
