-- ===== src/Env/Write/Append.antt =====
-- `Append` adds its bytes to those of the file, through the cache and as many writes as it takes.
use x_ztl.Common.{
  ℕ, zero, suc, ◌+◌, ◌%◌, ◌^◌, ◌≡◌, refl, ap, ◌∙◌, sym, ltb, leb, List, [], ◌++◌, Option, some, set,
  length, inl, inr, Bool-cases, Option-cases, take, drop, take-append_drop,
}
use mathlib.Core.Path.{subst}
use mathlib.Core.List.{append-nil, append_assoc}
use x_ztl.Addr.{ZrocksMap}
use x_ztl.Consts.{zns_max_buf}
use x_ztl.Env.{Name, Library, Status, ok, failed, io_error, ZnsFile}
use x_ztl.Env.Files.{EnvState, deref}
use x_ztl.Env.Write.{
  WritableFile, fill_cache, grow, fill_and_sync, append_loop, append_large, append_end,
}
use x_ztl.Env.Read.Slice.{flushed}
use x_ztl.Env.Write.Touches.{deref-set_self}
use x_ztl.Env.Write.Keeps.{IsStore}
use x_ztl.Env.Write.Contents.{Holds, sync-Holds}

module _ {W : Type 0} (lib : Library W) (cell : W → ℕ → ℕ → ℕ) (Live : W → ZrocksMap → Type 0)
    (store : IsStore lib cell Live) where
  fill_cache-Holds :
      (p size : ℕ) (bytes more : List ℕ) (s : EnvState W) {heap : List (Option ZnsFile)}
      → Holds lib cell Live store s p size bytes
      → fill_cache s.heap p more ≡ some heap
      → Holds lib cell Live store (record s { heap = heap }) p size (bytes ++ more)
  unfolding fill_cache
  fill_cache-Holds p size bytes more s {heap = heap} h e =
      let new : List ℕ = h.cache ++ more in
      elim (Bool-cases (leb (length new) zns_max_buf)) [
        | inr full ↦ absurd (cc (rw (fill_cache, h.at, h.opened, full) at e))
        | inl room ↦
            let g : ZnsFile = record (h.file) { wcache = some new } in
            let stored = rw (fill_cache, h.at, h.opened, room) at e in
            let same : set s.heap p (some g) ≡ heap = cc in
            record {
              file = g;
              cache = new;
              at = ap (λ l. deref l p) (sym same) ∙ deref-set_self s.heap p g h.at;
              opened = refl;
              live = h.live;
              size_is = h.size_is;
              bytes_are = λ k.
                  sym (append_assoc (flushed (cell s.dev) h.file.pieces) h.cache more)
                  ∙ ap (λ l. l ++ more) (h.bytes_are k);
            }
      ]

  fill_and_sync-Holds :
      (name : Name) (p size : ℕ) (bytes more : List ℕ) (s : EnvState W) {r : Status (Unit {0})}
      {t : EnvState W}
      → Holds lib cell Live store s p size bytes
      → fill_and_sync lib name p more s ≡ some (r, t)
      → Holds lib cell Live store t p size (bytes ++ more)
  unfolding fill_and_sync
  fill_and_sync-Holds name p size bytes more s h e =
      elim (Option-cases (fill_cache s.heap p more)) [
        | inl full ↦ absurd (cc (rw (fill_and_sync, full) at e))
        | inr (heap, filled) ↦
            (sync-Holds lib cell Live store name p size (bytes ++ more) (record s { heap = heap })
              (fill_cache-Holds p size bytes more s h filled) (rw (fill_and_sync, filled) at e)).0
      ]

  -- What was taken of `slice` so far, and what is left of it in a result that is not an error.
  pub record Taken (s : EnvState W) (p size : ℕ) (bytes slice : List ℕ) (r : Status (List ℕ))
      : Type 0 where
    pub taken : List ℕ
    pub left : List ℕ
    pub parts : taken ++ left ≡ slice
    pub holds : Holds lib cell Live store s p size (bytes ++ taken)
    pub result : (rest : List ℕ) → r ≡ ok rest → rest ≡ left

  Taken-more :
      (first : List ℕ) (s : EnvState W) (p size : ℕ) (bytes slice : List ℕ) (r : Status (List ℕ))
      → Taken s p size (bytes ++ first) slice r
      → Taken s p size bytes (first ++ slice) r
  Taken-more first s p size bytes slice r k = record {
    taken = first ++ k.taken;
    left = k.left;
    parts = append_assoc first k.taken k.left ∙ ap (λ l. first ++ l) k.parts;
    holds = subst (Holds lib cell Live store s p size) (append_assoc bytes first k.taken) k.holds;
    result = k.result;
  }

  Taken-nothing :
      (s : EnvState W) (p size : ℕ) (bytes slice : List ℕ)
      → Holds lib cell Live store s p size bytes
      → Taken s p size bytes slice (ok slice)
  Taken-nothing s p size bytes slice h = record {
    taken = [];
    left = slice;
    parts = refl;
    holds = subst (Holds lib cell Live store s p size) (sym (append-nil bytes)) h;
    result = λ rest e. cc (e);
  }

  -- A round, and what follows it.
  round-Taken :
      (fuel k : ℕ) (name : Name) (p size : ℕ) (bytes slice : List ℕ) (s : EnvState W)
      (r₀ : Status (Unit {0})) (t₀ : EnvState W) {r : Status (List ℕ)} {t : EnvState W}
      → Holds lib cell Live store t₀ p size (bytes ++ take k slice)
      → (Holds lib cell Live store t₀ p size (bytes ++ take k slice)
          → append_loop lib fuel name p (drop k slice) t₀ ≡ some (r, t)
          → Taken t p size (bytes ++ take k slice) (drop k slice) r)
      → ◌≡◌ {A = Option (Status (List ℕ) × EnvState W)}
          (elim r₀ [
            | failed e ↦ some (failed io_error, t₀)
            | ok _ ↦ append_loop lib fuel name p (drop k slice) t₀
          ])
          (some (r, t))
      → Taken t p size bytes slice r
  round-Taken fuel k name p size bytes slice s (ok u) t₀ {r = r} {t = t} h further e =
      subst (λ l. Taken t p size bytes l r) (take-append_drop k slice)
        (Taken-more (take k slice) t p size bytes (drop k slice) r (further h e))
  round-Taken fuel k name p size bytes slice s (failed x) t₀ {r = r} {t = t} h further e =
      let same : t₀ ≡ t = cc in
      let error : r ≡ failed io_error = cc in
      record {
        taken = take k slice;
        left = drop k slice;
        parts = take-append_drop k slice;
        holds = subst (λ v. Holds lib cell Live store v p size (bytes ++ take k slice)) same h;
        result = λ rest good. absurd (cc (error, good));
      }

  append_loop-Taken :
      (fuel : ℕ) (name : Name) (p size : ℕ) (bytes slice : List ℕ) (s : EnvState W)
      {r : Status (List ℕ)} {t : EnvState W}
      → Holds lib cell Live store s p size bytes
      → append_loop lib fuel name p slice s ≡ some (r, t)
      → Taken t p size bytes slice r
  unfolding append_loop
  append_loop-Taken zero name p size bytes slice s {r = r} {t = t} h e =
      elim (Bool-cases (ltb zns_max_buf (length slice))) [
        | inl more ↦ absurd (cc (rw more at e))
        | inr fits ↦
            let out = rw fits at e in
            let same : s ≡ t = cc (out) in
            let good : ok slice ≡ r = cc (out) in
            subst (Taken t p size bytes slice) good (
              Taken-nothing t p size bytes slice
                (subst (λ v. Holds lib cell Live store v p size bytes) same h))
      ]
  append_loop-Taken (suc fuel) name p size bytes slice s {r = r} {t = t} h e =
      elim (Bool-cases (ltb zns_max_buf (length slice))) [
        | inr fits ↦
            let out = rw fits at e in
            let same : s ≡ t = cc (out) in
            let good : ok slice ≡ r = cc (out) in
            subst (Taken t p size bytes slice) good (
              Taken-nothing t p size bytes slice
                (subst (λ v. Holds lib cell Live store v p size bytes) same h))
        | inl more ↦ elim (Option-cases (fill_and_sync lib name p (take zns_max_buf slice) s)) [
          | inl fault ↦ absurd (cc (rw (more, fault) at e))
          | inr ((r₀, t₀), done) ↦
              round-Taken fuel zns_max_buf name p size bytes slice s r₀ t₀
                (fill_and_sync-Holds name p size bytes (take zns_max_buf slice) s h done)
                (λ h' rest.
                  append_loop-Taken fuel name p size (bytes ++ take zns_max_buf slice)
                    (drop zns_max_buf slice) t₀ h' rest)
                (rw (more, done) at e)
        ]
      ]

  pub append_large-Taken :
      (name : Name) (p room size : ℕ) (bytes slice : List ℕ) (s : EnvState W) {r : Status (List ℕ)}
      {t : EnvState W}
      → Holds lib cell Live store s p size bytes
      → append_large lib name p room slice s ≡ some (r, t)
      → Taken t p size bytes slice r
  unfolding append_large
  append_large-Taken name p room size bytes slice s h e =
      elim (Option-cases (fill_and_sync lib name p (take room slice) s)) [
        | inl fault ↦ absurd (cc (rw (append_large, fault) at e))
        | inr ((r₀, t₀), done) ↦
            round-Taken (length slice) room name p size bytes slice s r₀ t₀
              (fill_and_sync-Holds name p size bytes (take room slice) s h done)
              (λ h' rest.
                append_loop-Taken (length slice) name p size (bytes ++ take room slice)
                  (drop room slice) t₀ h' rest)
              (rw (append_large, done) at e)
      ]

  pub append_end-Holds :
      (w : WritableFile) (n size : ℕ) (bytes slice : List ℕ) (s : EnvState W)
      {r : Status (Unit {0})} {w' : WritableFile} {t : EnvState W}
      → Holds lib cell Live store s w.znsfile size bytes
      → append_end lib w n slice s ≡ some (r, w', t)
      → Holds lib cell Live store t w.znsfile ((size + n) % 2 ^ 64) (bytes ++ slice)
  unfolding append_end grow
  append_end-Holds w n size bytes slice s {t = t} h e =
      elim (Option-cases (fill_cache s.heap w.znsfile slice)) [
        | inl full ↦ absurd (cc (rw (append_end, full) at e))
        | inr (heap, filled) ↦
            let k = fill_cache-Holds w.znsfile size bytes slice s h filled in
            let g : ZnsFile = record (k.file) { size = (k.file.size + n) % 2 ^ 64 } in
            let out = rw (append_end, filled, grow, k.at) at e in
            let end : EnvState W = record s { heap = set heap w.znsfile (some g) } in
            let same : end ≡ t = cc (out) in
            subst
              (λ v. Holds lib cell Live store v w.znsfile ((size + n) % 2 ^ 64) (bytes ++ slice))
              same
              (record {
                file = g;
                cache = k.cache;
                at = deref-set_self heap w.znsfile g k.at;
                opened = k.opened;
                live = k.live;
                size_is = ap (λ (z : ℕ). (z + n) % 2 ^ 64) k.size_is;
                bytes_are = k.bytes_are;
              })
      ]
