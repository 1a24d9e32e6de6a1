-- ===== src/Io/Resources/Balance.antt =====
-- What a write queue and a read resource take, and that they give it back.
use x_ztl.Common.{
  ℕ, zero, suc, ◌+◌, ◌*◌, ◌≡◌, ap, sym, ◌∙◌, >>=-eq-some, inl, inr, ◌==◌, List, [], ◌∷◌, Option,
  none, some, Bool-cases, Option-cases, ==→eq, arith,
}
use x_ztl.Consts.{xztl_ok, ztl_io_rc_num, ztl_io_sec_mcmd, zns_alignment}
use x_ztl.Media.Queues.{Machine, ucmd_spin}
use x_ztl.Ctx.{ctx_media_init, ctx_media_exit}
use x_ztl.Ctx.Balance.{
  Kind, memory, buffer, lock, thread, unit, taken, made, Counts, ctx_cost, ctx_media_init-cost,
  ctx_media_exit-cost,
}
use x_ztl.Io.Resources.{
  QueueRes, ReadRes, alloc_mcmds, free_some, free_mcmds, write_rs_init, write_rs_exit,
  w_queue_thread, w_queue_init, w_queue_exit, alloc_reads, free_reads, read_rs_init, read_rs_exit,
}

-- What lists of pointers, queues and read resources count for a kind.
unfoldable pub all_cost : Kind → List (Option ℕ) → ℕ
all_cost j [] = 0
all_cost j (m ∷ ms) = taken j memory m + all_cost j ms

unfoldable pub both_cost : Kind → List (Option ℕ) → List (Option ℕ) → ℕ
both_cost j (m ∷ ms) (p ∷ ps) = taken j memory m + taken j buffer p + both_cost j ms ps
both_cost j _ _ = 0

abbrev pub write_cost : Kind → QueueRes → ℕ
write_cost j q = all_cost j q.mcmd + taken j buffer q.prov + ctx_cost j q.tctx

abbrev pub read_cost : Kind → ReadRes → ℕ
read_cost j r = both_cost j r.mcmd r.prp + ctx_cost j r.tctx

unfoldable pub levels_cost : Kind → List QueueRes → ℕ
levels_cost j [] = 0
levels_cost j (q ∷ qs) = write_cost j q + unit j lock + unit j thread + levels_cost j qs

unfoldable pub reads_cost : Kind → ℕ → List ReadRes → ℕ
reads_cost j (suc n) (r ∷ rs) = read_cost j r + reads_cost j n rs
reads_cost j _ _ = 0

module _ {W : Type 0} (x : Machine W) (held : W → Kind → ℕ) (counts : Counts x held) (j : Kind)
    (io_depth read_ctx_num prov_bytes : ℕ) where
  alloc_mcmds-cost :
      (n : ℕ) (w : W)
      → held (alloc_mcmds x io_depth read_ctx_num prov_bytes n w).1 j
        ≡ held w j + all_cost j (alloc_mcmds x io_depth read_ctx_num prov_bytes n w).0
  unfolding alloc_mcmds all_cost
  alloc_mcmds-cost zero w = omega arith
  alloc_mcmds-cost (suc n) w =
      let one = counts.mallocs w j in
      let rest = alloc_mcmds-cost n (x.malloc w).1 in omega (arith, one, rest)

  free_some-cost :
      (w : W) (o : Option ℕ) (n : ℕ)
      → held w j ≡ n + taken j memory o
      → held (free_some x io_depth read_ctx_num prov_bytes w o) j ≡ n
  unfolding free_some taken
  free_some-cost w none n h = omega (arith, h)
  free_some-cost w (some p) n h = counts.frees w p n j h

  free_mcmds-cost :
      (ms : List (Option ℕ)) (w : W) (n : ℕ)
      → held w j ≡ n + all_cost j ms
      → held (free_mcmds x io_depth read_ctx_num prov_bytes ms w) j ≡ n
  unfolding free_mcmds all_cost
  free_mcmds-cost [] w n h = omega (arith, h)
  free_mcmds-cost (m ∷ ms) w n h =
      free_mcmds-cost ms (free_some x io_depth read_ctx_num prov_bytes w m) n
        (free_some-cost w m (n + all_cost j ms) (omega (arith, h)))

  alloc_reads-cost :
      (n : ℕ) (w : W)
      → held (alloc_reads x io_depth read_ctx_num prov_bytes n w).2 j
        ≡ held w j
          + both_cost j
              (alloc_reads x io_depth read_ctx_num prov_bytes n w).0
              (alloc_reads x io_depth read_ctx_num prov_bytes n w).1
  unfolding alloc_reads both_cost
  alloc_reads-cost zero w = omega arith
  alloc_reads-cost (suc n) w =
      let one = counts.mallocs w j in
      let w1 = (x.malloc w).1 in
      let two = counts.dma_allocs w1 (zns_alignment * ztl_io_sec_mcmd) j in
      let rest = alloc_reads-cost n (x.dma_alloc w1 (zns_alignment * ztl_io_sec_mcmd)).1 in
      omega (arith, one, two, rest)

  free_reads-cost :
      (ms ps : List (Option ℕ)) (w : W) (n : ℕ)
      → held w j ≡ n + both_cost j ms ps
      → held (free_reads x io_depth read_ctx_num prov_bytes ms ps w) j ≡ n
  unfolding free_reads both_cost
  free_reads-cost [] ps w n h = omega (arith, h)
  free_reads-cost (m ∷ ms) [] w n h = omega (arith, h)
  free_reads-cost (m ∷ ms) (p ∷ ps) w n h =
      let w1 = free_some x io_depth read_ctx_num prov_bytes w m in
      let one = free_some-cost w m (n + both_cost j ms ps + taken j buffer p) (omega (arith, h)) in
      free_reads-cost ms ps (x.dma_free w1 p) n
        (counts.dma_frees w1 p (n + both_cost j ms ps) j one)

  write_rs_init-cost :
      (q : QueueRes) (w : W)
      → (write_rs_init x io_depth read_ctx_num prov_bytes q w).0 ≡ xztl_ok
      → held (write_rs_init x io_depth read_ctx_num prov_bytes q w).2 j
        ≡ held w j + write_cost j (write_rs_init x io_depth read_ctx_num prov_bytes q w).1
  unfolding write_rs_init taken
  write_rs_init-cost q w ok =
      let all = alloc_mcmds-cost ztl_io_rc_num w in
      let w1 = (alloc_mcmds x io_depth read_ctx_num prov_bytes ztl_io_rc_num w).1 in
      let dma = counts.dma_allocs w1 prov_bytes j in
      let w2 = (x.dma_alloc w1 prov_bytes).1 in
      let ctx = ctx_media_init-cost x held counts j w2 io_depth in
      elim (Option-cases (x.dma_alloc w1 prov_bytes).0) [
        | inl gone ↦ absurd (cc (rw (write_rs_init, gone) at ok))
        | inr (p, got) ↦ elim (Option-cases (ctx_media_init x w2 io_depth).0) [
          | inl gone ↦ absurd (cc (rw (write_rs_init, got, gone) at ok))
          | inr (c, some_c) ↦
              rw (write_rs_init, got, some_c)
                (omega (arith, all, (rw got at dma), (rw some_c at ctx)))
        ]
      ]

  write_rs_exit-cost :
      (q : QueueRes) (w : W) (n : ℕ)
      → held w j ≡ n + write_cost j q
      → held (write_rs_exit x io_depth read_ctx_num prov_bytes q w) j ≡ n
  unfolding write_rs_exit
  write_rs_exit-cost q w n h =
      let all = all_cost j q.mcmd in
      let one =
        ctx_media_exit-cost x held counts j w q.tctx (n + all + taken j buffer q.prov)
          (omega (arith, h)) in
      let w1 = (ctx_media_exit x w q.tctx).1 in
      free_mcmds-cost q.mcmd (x.dma_free w1 q.prov) n (counts.dma_frees w1 q.prov (n + all) j one)

  pub w_queue_init-cost :
      (level : ℕ) (q : QueueRes) (w : W)
      → (w_queue_init x io_depth read_ctx_num prov_bytes level q w).0 ≡ xztl_ok
      → held (w_queue_init x io_depth read_ctx_num prov_bytes level q w).2 j
        ≡ held w j
          + (write_cost j (w_queue_init x io_depth read_ctx_num prov_bytes level q w).1
              + unit j lock
              + unit j thread)
  unfolding w_queue_init w_queue_thread made
  w_queue_init-cost level q w ok =
      let start = write_rs_init x io_depth read_ctx_num prov_bytes q w in
      let spins = counts.lock_inits start.2 (ucmd_spin level) j in
      let w2 = (x.lock_init start.2 (ucmd_spin level)).1 in
      let threads = counts.thread_creates w2 level j in
      elim (Bool-cases (start.0 == 0)) [
        | inr bad ↦ absurd (cc (rw (w_queue_init, bad) at ok))
        | inl good ↦ elim (Bool-cases ((x.lock_init start.2 (ucmd_spin level)).0 == 0)) [
          | inr bad ↦ absurd (cc (rw (w_queue_init, w_queue_thread, good, bad) at ok))
          | inl spun ↦ elim (Bool-cases ((x.thread_create w2 level).0 == 0)) [
            | inr bad ↦ absurd (cc (rw (w_queue_init, w_queue_thread, good, spun, bad) at ok))
            | inl ran ↦
                rw (w_queue_init, w_queue_thread, good, spun, ran)
                  (omega (
                    arith,
                    (write_rs_init-cost q w (==→eq start.0 0 good)),
                    (rw spun at spins),
                    (rw ran at threads),
                  ))
          ]
        ]
      ]

  pub w_queue_exit-cost :
      (level : ℕ) (q : QueueRes) (w w' : W) (n : ℕ)
      → w_queue_exit x io_depth read_ctx_num prov_bytes level q w ≡ some w'
      → held w j ≡ n + (write_cost j q + unit j lock + unit j thread)
      → held w' j ≡ n
  unfolding w_queue_exit
  w_queue_exit-cost level q w w' n e h =
      let (w1, joins, put) = >>=-eq-some (x.thread_join w level) _ e in
      let joined =
        counts.thread_joins w w1 level (n + write_cost j q + unit j lock) j joins
          (omega (arith, h)) in
      let same : write_rs_exit x io_depth read_ctx_num prov_bytes q
            (x.lock_destroy w1 (ucmd_spin level))
          ≡ w' =
        cc (put) in
      sym (ap (λ v. held v j) same)
      ∙ write_rs_exit-cost q (x.lock_destroy w1 (ucmd_spin level)) n
          (counts.lock_destroys w1 (ucmd_spin level) (n + write_cost j q) j joined)

  pub read_rs_init-cost :
      (r : ReadRes) (w : W)
      → (read_rs_init x io_depth read_ctx_num prov_bytes r w).0 ≡ xztl_ok
      → held (read_rs_init x io_depth read_ctx_num prov_bytes r w).2 j
        ≡ held w j + read_cost j (read_rs_init x io_depth read_ctx_num prov_bytes r w).1
  unfolding read_rs_init
  read_rs_init-cost r w ok =
      let all = alloc_reads-cost ztl_io_rc_num w in
      let w1 = (alloc_reads x io_depth read_ctx_num prov_bytes ztl_io_rc_num w).2 in
      let ctx = ctx_media_init-cost x held counts j w1 io_depth in
      elim (Option-cases (ctx_media_init x w1 io_depth).0) [
        | inl gone ↦ absurd (cc (rw (read_rs_init, gone) at ok))
        | inr (c, some_c) ↦ rw (read_rs_init, some_c) (omega (arith, all, (rw some_c at ctx)))
      ]

  pub read_rs_exit-cost :
      (r : ReadRes) (w : W) (n : ℕ)
      → held w j ≡ n + read_cost j r
      → held (read_rs_exit x io_depth read_ctx_num prov_bytes r w) j ≡ n
  unfolding read_rs_exit
  read_rs_exit-cost r w n h = free_reads-cost r.mcmd r.prp (ctx_media_exit x w r.tctx).1 n (
      ctx_media_exit-cost x held counts j w r.tctx (n + both_cost j r.mcmd r.prp)
        (omega (arith, h)))
