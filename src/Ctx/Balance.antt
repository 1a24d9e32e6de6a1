-- ===== src/Ctx/Balance.antt =====
-- What the contexts of threads take of the machine, and that they give it back.
use x_ztl.Common.{
  ℕ, ◌+◌, ◌≡◌, refl, ◌∙◌, inl, inr, ◌==◌, if◌then◌else◌, Option, none, some, Bool-cases,
  Option-cases, arith,
}
use x_ztl.Media.Queues.{Machine, Lock, qpair_spin, cmd_exec}
use x_ztl.Ctx.{MthreadCtx, ctx_queue, ctx_media_init, ctx_media_exit}

-- The kinds of what is taken.
pub data Kind : Type 0 where
  memory buffer lock thread queue : Kind

-- 1 where the kinds are the same.
unfoldable pub unit : Kind → Kind → ℕ
unit memory memory = 1
unit buffer buffer = 1
unit lock lock = 1
unit thread thread = 1
unit queue queue = 1
unit _ _ = 0

-- What a pointer or a result of this kind counts for the kind `j`.
unfoldable pub taken : Kind → Kind → Option ℕ → ℕ
taken j k none = 0
taken j k (some h) = unit j k

unfoldable pub made : Kind → Kind → ℕ → ℕ
made j k ret = if ret == 0 then unit j k else 0

unfoldable pub opened : Kind → ℕ → Option ℕ → ℕ
unfolding taken
opened j ret q = if ret == 0 then taken j queue q else 0

-- `held` counts what is taken, by its kind. Queues end without an error.
pub record Counts {W : Type 0} (x : Machine W) (held : W → Kind → ℕ) : Type 0 where
  pub mallocs :
      (w : W) (j : Kind) → held (x.malloc w).1 j ≡ held w j + taken j memory (x.malloc w).0
  pub frees : (w : W) (h n : ℕ) (j : Kind) → held w j ≡ n + unit j memory → held (x.free w h) j ≡ n
  pub dma_allocs :
      (w : W) (b : ℕ) (j : Kind)
      → held (x.dma_alloc w b).1 j ≡ held w j + taken j buffer (x.dma_alloc w b).0
  pub dma_frees :
      (w : W) (o : Option ℕ) (n : ℕ) (j : Kind)
      → held w j ≡ n + taken j buffer o
      → held (x.dma_free w o) j ≡ n
  pub lock_inits :
      (w : W) (l : Lock) (j : Kind)
      → held (x.lock_init w l).1 j ≡ held w j + made j lock (x.lock_init w l).0
  pub lock_destroys :
      (w : W) (l : Lock) (n : ℕ) (j : Kind)
      → held w j ≡ n + unit j lock
      → held (x.lock_destroy w l) j ≡ n
  pub queue_inits :
      (w : W) (depth : ℕ) (j : Kind)
      → held (x.queue_init w depth).2 j
        ≡ held w j + opened j (x.queue_init w depth).0 (x.queue_init w depth).1
  pub queue_ends : (w : W) (q : ℕ) → (x.queue_term w (some q)).0 ≡ 0
  pub queue_terms :
      (w : W) (q n : ℕ) (j : Kind)
      → held w j ≡ n + unit j queue
      → held (x.queue_term w (some q)).1 j ≡ n
  pub thread_creates :
      (w : W) (level : ℕ) (j : Kind)
      → held (x.thread_create w level).1 j ≡ held w j + made j thread (x.thread_create w level).0
  pub thread_joins :
      (w w' : W) (level n : ℕ) (j : Kind)
      → x.thread_join w level ≡ some w'
      → held w j ≡ n + unit j thread
      → held w' j ≡ n

-- A context is a piece of memory, a lock and a queue.
unfoldable pub ctx_cost : Kind → Option MthreadCtx → ℕ
ctx_cost j none = 0
ctx_cost j (some c) = unit j memory + unit j lock + unit j queue

module _ {W : Type 0} (x : Machine W) (held : W → Kind → ℕ) (counts : Counts x held)
    (j : Kind) where
  -- Without a queue, what the context has taken is given back.
  ctx_gone :
      (w : W) (mem n : ℕ)
      → held w j ≡ n + unit j memory + unit j lock
      → held (x.free (x.lock_destroy w (qpair_spin mem)) mem) j ≡ n
  ctx_gone w mem n h =
      counts.frees (x.lock_destroy w (qpair_spin mem)) mem n j
        (counts.lock_destroys w (qpair_spin mem) (n + unit j memory) j h)

  -- `xztl_ctx_media_init` takes memory, a lock and a queue where it gives a context, and nothing where
  -- it gives none, whichever of its steps fails.
  pub ctx_media_init-cost :
      (w : W) (depth : ℕ)
      → held (ctx_media_init x w depth).1 j ≡ held w j + ctx_cost j (ctx_media_init x w depth).0
  unfolding ctx_media_init ctx_queue cmd_exec taken made opened ctx_cost
  ctx_media_init-cost w depth =
      let mallocs = counts.mallocs w j in
      elim (Option-cases (x.malloc w).0) [
        | inl gone ↦ rw (ctx_media_init, gone) (mallocs ∙ rw gone refl)
        | inr (mem, got) ↦
            let w1 = (x.malloc w).1 in
            let one : held w1 j ≡ held w j + unit j memory = rw got at mallocs in
            let locks = counts.lock_inits w1 (qpair_spin mem) j in
            let w2 = (x.lock_init w1 (qpair_spin mem)).1 in
            elim (Bool-cases ((x.lock_init w1 (qpair_spin mem)).0 == 0)) [
              | inr failed ↦
                  rw (ctx_media_init, ctx_queue, cmd_exec, got, failed)
                    (counts.frees w2 mem (held w j + 0) j
                      (omega (arith, (rw failed at locks), one)))
              | inl locked ↦
                  let two : held w2 j ≡ held w j + unit j memory + unit j lock =
                    omega (arith, (rw locked at locks), one) in
                  let queues = counts.queue_inits w2 depth j in
                  let w3 = (x.queue_init w2 depth).2 in
                  elim (Bool-cases ((x.queue_init w2 depth).0 == 0)) [
                    | inr failed ↦
                        rw (ctx_media_init, ctx_queue, cmd_exec, got, locked, failed)
                          (ctx_gone w3 mem (held w j + 0)
                            (omega (arith, (rw failed at queues), two)))
                    | inl ok ↦ elim (Option-cases (x.queue_init w2 depth).1) [
                      | inl null ↦
                          rw (ctx_media_init, ctx_queue, cmd_exec, got, locked, ok, null)
                            (ctx_gone w3 mem (held w j + 0)
                              (omega (arith, (rw (ok, null) at queues), two)))
                      | inr (q, some_q) ↦
                          rw (ctx_media_init, ctx_queue, cmd_exec, got, locked, ok, some_q)
                            (omega (arith, (rw (ok, some_q) at queues), two))
                    ]
                  ]
            ]
      ]

  -- `xztl_ctx_media_exit` gives back what the context has taken.
  pub ctx_media_exit-cost :
      (w : W) (c : Option MthreadCtx) (n : ℕ)
      → held w j ≡ n + ctx_cost j c
      → held (ctx_media_exit x w c).1 j ≡ n
  unfolding ctx_media_exit cmd_exec ctx_cost
  ctx_media_exit-cost w none n h = omega (arith, h)
  ctx_media_exit-cost w (some c) n h =
      rw (ctx_media_exit, cmd_exec, counts.queue_ends w c.queue)
        (ctx_gone (x.queue_term w (some c.queue)).1 c.mem n
          (counts.queue_terms w c.queue (n + unit j memory + unit j lock) j (omega (arith, h))))
