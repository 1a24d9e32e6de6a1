-- ===== src/Mempool/Create.antt =====
-- A pool is made with every entry in order.
use x_ztl.Common.{
  ℕ, zero, suc, ◌+◌, ◌<◌, ◌≡◌, refl, ◌∙◌, true, false, List, [], ◌∷◌, ◌++◌, Option, some, gen,
  arith,
}
use mathlib.Core.List.{append-nil, append_assoc}
use x_ztl.Consts.{xztl_ok}
use x_ztl.Mempool.{Entry, Pool, alloc_loop, pool_create}

module _ (make : ℕ → Option Entry) (e : ℕ → Entry) where
  -- The allocations from `z` on, `n` of them, succeed.
  abbrev pub Allocated : ℕ → ℕ → Type 0
  Allocated z n = (i : ℕ) → i < n → make (z + i) ≡ some (e (z + i))

  alloc_loop-steps :
      (k left z : ℕ) (head : List Entry)
      → Allocated z k
      → alloc_loop make (k + left) z head ≡ alloc_loop make left (z + k) (head ++ gen e z k)
  unfolding alloc_loop gen
  alloc_loop-steps zero left z head a =
      let e1 : 0 + left ≡ left = omega arith in
      let e2 : z + 0 ≡ z = omega arith in rw (e1, e2, append-nil) refl
  alloc_loop-steps (suc k) left z head a =
      let e0 : z + 0 ≡ z = omega arith in
      let e1 : suc k + left ≡ suc (k + left) = omega arith in
      let e2 : z + 1 + k ≡ z + suc k = omega arith in
      let here : make z ≡ some (e z) = rw e0 at (a 0 (omega arith)) in
      let ih =
        alloc_loop-steps k left (z + 1) (head ++ e z ∷ []) (λ i h.
          let e3 : z + 1 + i ≡ z + suc i = omega arith in rw e3 (a (suc i) (omega arith))) in
      rw (e1, alloc_loop, here) (ih ∙ rw (e2, append_assoc) refl)

  alloc_loop-all : (n : ℕ) → Allocated 0 n → alloc_loop make n 0 [] ≡ (true, gen e 0 n)
  unfolding alloc_loop
  alloc_loop-all n a = let e0 : n + 0 ≡ n = omega arith in (rw e0 at (alloc_loop-steps n 0 0 [] a))

  -- A pool that is not active is made with every entry in order, none out, where each of the `n`
  -- allocations succeeds.
  pub pool_create-all :
      (n : ℕ) (pool : Pool)
      → pool.active ≡ false
      → Allocated 0 n
      → pool_create true make n pool ≡ (
        xztl_ok,
        [],
        record { active = true; in_count = 0; out_count = 0; entries = n; head = gen e 0 n },
      )
  unfolding pool_create
  pool_create-all n pool off a = rw (off, alloc_loop-all n a) refl
