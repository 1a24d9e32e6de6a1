-- ===== src/Env/Write/Results.antt =====
-- What `Append` and `Truncate` make of a file's bytes, and reads after them.
use x_ztl.Common.{
  ℕ, ◌+◌, ◌-◌, ◌%◌, ◌^◌, ◌<◌, ◌≤◌, ◌≡◌, refl, ap, ◌∙◌, sym, true, false, ltb, leb, List, ◌++◌, some,
  set, length, arith, inl, inr, Bool-cases, Option-cases, take, drop, length-append,
}
use mathlib.Core.Path.{subst}
use mathlib.Core.List.{append_assoc}
use x_ztl.Addr.{ZrocksMap}
use x_ztl.Consts.{zns_max_buf}
use x_ztl.Env.{Library, Status, ok, failed, ZnsFile, cached_bytes, Error}
use x_ztl.Env.Files.{EnvState, deref}
use x_ztl.Env.Write.{WritableFile, fill_cache, grow, append_large, append_end, append}
use x_ztl.Env.Read.{rand_read}
use x_ztl.Env.Read.Slice.{flushed, ReadsCells, Outcome, Outcome-eq}
use x_ztl.Env.Read.Extent.{file_bytes}
use x_ztl.Env.Read.Contents.{IsUnbroken, rand_read-file_bytes}
use x_ztl.Env.Write.Touches.{deref-set_self}
use x_ztl.Env.Write.Keeps.{IsStore}
use x_ztl.Env.Write.Contents.{Holds}
use x_ztl.Env.Write.Append.{append_large-Taken, append_end-Holds}

module _ {W : Type 0} (lib : Library W) (cell : W → ℕ → ℕ → ℕ) (Live : W → ZrocksMap → Type 0)
    (store : IsStore lib cell Live) where
  append-ok :
      (w : WritableFile) (slice : List ℕ) (size : ℕ) (bytes : List ℕ) (s : EnvState W)
      {w' : WritableFile} {t : EnvState W}
      → Holds lib cell Live store s w.znsfile size bytes
      → append lib w slice s ≡ some (ok tt, w', t)
      → Holds lib cell Live store t w.znsfile ((size + length slice) % 2 ^ 64) (bytes ++ slice)
  unfolding append
  append-ok w slice size bytes s {w' = w'} {t = t} h e =
      elim (Bool-cases (ltb zns_max_buf (length h.cache + length slice))) [
        | inr small ↦
            append_end-Holds lib cell Live store w (length slice) size bytes slice s h
              (rw (append, h.at, h.opened, small) at e)
        | inl large ↦
            let room : ℕ = zns_max_buf - length h.cache in
            elim (Option-cases (append_large lib w.filename w.znsfile room slice s)) [
              | inl fault ↦ absurd (cc (rw (append, h.at, h.opened, large, fault) at e))
              | inr ((failed x, u), done) ↦
                  absurd (cc (rw (append, h.at, h.opened, large, done) at e))
              | inr ((ok rest, u), done) ↦
                  let k =
                    append_large-Taken lib cell Live store w.filename w.znsfile room size bytes
                      slice s h done in
                  let left : rest ≡ k.left = k.result rest refl in
                  let end =
                    append_end-Holds lib cell Live store w (length slice) size (bytes ++ k.taken)
                      rest u k.holds (rw (append, h.at, h.opened, large, done) at e) in
                  subst (Holds lib cell Live store t w.znsfile ((size + length slice) % 2 ^ 64))
                    (append_assoc bytes k.taken rest
                      ∙ ap (λ l. bytes ++ l) (ap (λ l. k.taken ++ l) left ∙ k.parts))
                    end
            ]
      ]

  append_end-ok :
      (w : WritableFile) (n : ℕ) (slice : List ℕ) (s : EnvState W) {r : Status (Unit {0})}
      {w' : WritableFile} {t : EnvState W}
      → append_end lib w n slice s ≡ some (r, w', t)
      → r ≡ ok tt
  unfolding append_end
  append_end-ok w n slice s e = elim (Option-cases (fill_cache s.heap w.znsfile slice)) [
    | inl full ↦ absurd (cc (rw (append_end, full) at e))
    | inr (heap, filled) ↦ elim (Option-cases (grow heap w.znsfile n)) [
      | inl gone ↦ absurd (cc (rw (append_end, filled, gone) at e))
      | inr (grown, more) ↦ let out = rw (append_end, filled, more) at e in cc (out)
    ]
  ]

  append-failed :
      (w : WritableFile) (slice : List ℕ) (size : ℕ) (bytes : List ℕ) (s : EnvState W) {x : Error}
      {w' : WritableFile} {t : EnvState W}
      → Holds lib cell Live store s w.znsfile size bytes
      → append lib w slice s ≡ some (failed x, w', t)
      → (taken : List ℕ) × (left : List ℕ) × (taken ++ left ≡ slice)
        × Holds lib cell Live store t w.znsfile size (bytes ++ taken)
  unfolding append
  append-failed w slice size bytes s {x = x} {t = t} h e =
      elim (Bool-cases (ltb zns_max_buf (length h.cache + length slice))) [
        | inr small ↦
            absurd (
              cc (append_end-ok w (length slice) slice s (rw (append, h.at, h.opened, small) at e)))
        | inl large ↦
            let room : ℕ = zns_max_buf - length h.cache in
            elim (Option-cases (append_large lib w.filename w.znsfile room slice s)) [
              | inl fault ↦ absurd (cc (rw (append, h.at, h.opened, large, fault) at e))
              | inr ((failed x, u), done) ↦
                  let k =
                    append_large-Taken lib cell Live store w.filename w.znsfile room size bytes
                      slice s h done in
                  let out = rw (append, h.at, h.opened, large, done) at e in
                  let same : u ≡ t = cc (out) in
                  (
                    k.taken,
                    k.left,
                    k.parts,
                    subst (λ v. Holds lib cell Live store v w.znsfile size (bytes ++ k.taken)) same
                        k.holds,
                  )
              | inr ((ok rest, u), done) ↦ absurd (
                  cc (
                    append_end-ok w (length slice) rest u
                      (rw (append, h.at, h.opened, large, done) at e)))
            ]
      ]

  -- What a result of `Append` says of the file.
  abbrev pub Appended : WritableFile → List ℕ → ℕ → List ℕ → Status (Unit {0}) → EnvState W → Type 0
  Appended w slice size bytes (ok _) t =
      Holds lib cell Live store t w.znsfile ((size + length slice) % 2 ^ 64) (bytes ++ slice)
  Appended w slice size bytes (failed x) t =
      (taken : List ℕ) × (left : List ℕ) × (taken ++ left ≡ slice)
      × Holds lib cell Live store t w.znsfile size (bytes ++ taken)

  -- Where live pieces outlive every call of the library, an append that returns OK has added the length of
  -- the slice to the size of the open file, on 64 bits, and, unless a write of the library was lost without
  -- an error, the slice to its bytes, over as many writes of the cache as it takes. One that returns an
  -- error has left the size as it was and, unless a write was lost, has added a first part of the slice.
  pub append-Appended :
      (w : WritableFile) (slice : List ℕ) (size : ℕ) (bytes : List ℕ) (s : EnvState W)
      (r : Status (Unit {0})) (w' : WritableFile) (t : EnvState W)
      → Holds lib cell Live store s w.znsfile size bytes
      → append lib w slice s ≡ some (r, w', t)
      → Appended w slice size bytes r t
  append-Appended w slice size bytes s (ok u) w' t h e = append-ok w slice size bytes s h e
  append-Appended w slice size bytes s (failed x) w' t h e = append-failed w slice size bytes s h e

  -- An append that the cache has room for returns OK and does not call the library; the slice is then in
  -- the cache, after the bytes of the file, and its length is added to both sizes.
  pub append-fits :
      (w : WritableFile) (slice : List ℕ) (size : ℕ) (bytes : List ℕ) (s : EnvState W)
      (h : Holds lib cell Live store s w.znsfile size bytes)
      → length h.cache + length slice ≤ zns_max_buf
      → (w' : WritableFile) × (t : EnvState W) × (append lib w slice s ≡ some (ok tt, w', t))
        × (t.dev ≡ s.dev)
        × (w'.filesize ≡ (w.filesize + length slice) % 2 ^ 64)
        × Holds lib cell Live store t w.znsfile ((size + length slice) % 2 ^ 64) (bytes ++ slice)
  unfolding append append_end fill_cache grow
  append-fits w slice size bytes s h fits =
      let small : ltb zns_max_buf (length h.cache + length slice) ≡ false = ground (arith, fits) in
      let room : leb (length (h.cache ++ slice)) zns_max_buf ≡ true =
        ground (arith, fits, length-append h.cache slice) in
      let g : ZnsFile = record (h.file) { wcache = some (h.cache ++ slice) } in
      let heap = set s.heap w.znsfile (some g) in
      let filled : fill_cache s.heap w.znsfile slice ≡ some heap =
        rw (fill_cache, h.at, h.opened, room) refl in
      let larger : ZnsFile = record g { size = (g.size + length slice) % 2 ^ 64 } in
      let grown : grow heap w.znsfile (length slice) ≡ some (set heap w.znsfile (some larger)) =
        rw (grow, deref-set_self s.heap w.znsfile g h.at) refl in
      let w' = record w { filesize = (w.filesize + length slice) % 2 ^ 64 } in
      let t = record s { heap = set heap w.znsfile (some larger) } in
      let run : append lib w slice s ≡ some (ok tt, w', t) =
        rw (append, h.at, h.opened, small, append_end, filled, grown) refl in
      (w', t, run, refl, refl, append-ok w slice size bytes s h run)

  -- Where live pieces outlive every call of the library, and the reads that succeed after an append give
  -- the bytes of the device: a random read of the file that `Append` has returned OK for, unless a write
  -- of the library was lost without an error, gives its range of the bytes that were there before,
  -- followed by the slice, if the range begins in the file and is unbroken; or an input/output error, only
  -- where a read of the library fails.
  pub rand_read-append :
      (w : WritableFile) (slice bytes : List ℕ) (s : EnvState W) (w' : WritableFile)
      (t : EnvState W) (f : ZnsFile) (offset n : ℕ)
      → Holds lib cell Live store s w.znsfile (length bytes) bytes
      → length bytes + length slice < 2 ^ 64
      → append lib w slice s ≡ some (ok tt, w', t)
      → store.IsSound t.dev
      → ReadsCells lib t.dev (cell t.dev)
      → deref t.heap w.znsfile ≡ some f
      → offset < length bytes + length slice
      → offset + n < 2 ^ 64
      → IsUnbroken (cell t.dev) f offset n
      → Outcome lib t.dev
          (rand_read lib t.dev f offset n)
          (some (ok (some (take n (drop offset (bytes ++ slice))))))
  unfolding file_bytes cached_bytes
  rand_read-append w slice bytes s w' t f offset n h fits e sound reads at inside b unbroken =
      let k = append-ok w slice (length bytes) bytes s h e in
      let same : k.file ≡ f = cc (k.at, at) in
      let size : k.file.size ≡ length bytes + length slice = k.size_is ∙ omega (arith, fits) in
      let size' : f.size ≡ length bytes + length slice =
        ap (λ (z : ZnsFile). z.size) (sym same) ∙ size in
      let opened : f.wcache ≡ some k.cache = ap (λ (z : ZnsFile). z.wcache) (sym same) ∙ k.opened in
      let all : file_bytes (cell t.dev) f ≡ bytes ++ slice =
        rw (file_bytes, opened)
          (ap (λ (z : ZnsFile). flushed (cell t.dev) z.pieces ++ k.cache) (sym same)
            ∙ k.bytes_are sound) in
      let consistent : f.size ≡ length (file_bytes (cell t.dev) f) =
        size' ∙ (sym (length-append bytes slice) ∙ ap length (sym all)) in
      Outcome-eq lib t.dev refl (ap (λ l. some (ok (some (take n (drop offset l))))) all) (
        rand_read-file_bytes lib t.dev (cell t.dev) reads f offset n
          (consistent, omega (arith, size', fits)) (omega (arith, size', inside)) b unbroken)
