-- ===== src/Tests/Starts.antt =====
-- The theorems on contexts and on the start of the I/O module, on a machine that counts what it gives out.
use x_ztl.Common.{ℕ, ◌+◌, ◌-◌, ◌≡◌, refl, sym, ap, ◌∙◌, false, [], ◌∷◌, Option, none, some, arith}
use x_ztl.Common.Int.{pos}
use x_ztl.Consts.{xztl_ok}
use x_ztl.Media.Queues.{Machine, cmd_exec}
use x_ztl.Ctx.{ctx_queue, ctx_media_init}
use x_ztl.Ctx.Balance.{
  Kind, memory, buffer, lock, thread, queue, unit, taken, made, opened, Counts, ctx_cost,
  ctx_media_init-cost,
}
use x_ztl.Io.Resources.{
  QueueRes, ReadRes, IoRes, write_rs_init, w_queue_thread, w_queue_init, read_rs_init, init_levels,
  init_reads, io_init, io_exit,
}
use x_ztl.Io.Resources.Cycle.{io_exit-io_init}

abbrev more : Kind → (Kind → ℕ) → Kind → ℕ
more k held j = held j + unit j k

abbrev less : Kind → (Kind → ℕ) → Kind → ℕ
less k held j = held j - unit j k

abbrev counting : Machine (Kind → ℕ)
counting = record {
  malloc = λ w. (some 64, more memory w);
  free = λ w h. less memory w;
  dma_alloc = λ w b. (some 4096, more buffer w);
  dma_free = λ w o. elim o [ none ↦ w | some h ↦ less buffer w ];
  lock_init = λ w l. (0, more lock w);
  lock_destroy = λ w l. less lock w;
  queue_init = λ w d. (0, some 5, more queue w);
  queue_term = λ w q. (0, less queue w);
  queue_poke = λ w q n. (pos 0, w);
  get_outstanding = λ w q. (pos 0, w);
  thread_create = λ w l. (0, more thread w);
  thread_join = λ w l. some (less thread w);
}

counting-dma_free :
    (w : Kind → ℕ) (o : Option ℕ) (n : ℕ) (j : Kind)
    → w j ≡ n + taken j buffer o
    → counting.dma_free w o j ≡ n
unfolding taken
counting-dma_free w none n j h = omega (arith, h)
counting-dma_free w (some p) n j h = omega (arith, h)

counting-thread_join :
    (w w' : Kind → ℕ) (level n : ℕ) (j : Kind)
    → counting.thread_join w level ≡ some w'
    → w j ≡ n + unit j thread
    → w' j ≡ n
counting-thread_join w w' level n j e h =
    let same : less thread w ≡ w' = cc (e) in
    sym (ap (λ (v : Kind → ℕ). v j) same) ∙ omega (arith, h)

counting-Counts : Counts counting (λ w j. w j)
unfolding taken made opened
counting-Counts = record {
  mallocs = λ w j. refl;
  frees = λ w h n j e. omega (arith, e);
  dma_allocs = λ w b j. refl;
  dma_frees = counting-dma_free;
  lock_inits = λ w l j. refl;
  lock_destroys = λ w l n j e. omega (arith, e);
  queue_inits = λ w d j. refl;
  queue_ends = λ w q. refl;
  queue_terms = λ w q n j e. omega (arith, e);
  thread_creates = λ w l j. refl;
  thread_joins = counting-thread_join;
}

abbrev nothing : Kind → ℕ
nothing j = 0

ctx_media_init-cost_example :
    (ctx_media_init counting nothing 1024).1 memory
    ≡ nothing memory + ctx_cost memory (ctx_media_init counting nothing 1024).0
ctx_media_init-cost_example =
    ctx_media_init-cost counting (λ w j. w j) counting-Counts memory nothing 1024

-- Two levels and one read resource.
abbrev empty_queue : QueueRes
empty_queue = record { tctx = none; mcmd = []; prov = none; node = none }

abbrev empty_read : ReadRes
empty_read = record { tctx = none; mcmd = []; prp = []; usedflag = false }

abbrev unstarted : IoRes (Kind → ℕ)
unstarted = record {
  qp = empty_queue ∷ empty_queue ∷ [];
  read_resource = empty_read ∷ empty_read ∷ [];
  machine = nothing;
}

abbrev state_of : Option (ℕ × IoRes (Kind → ℕ)) → IoRes (Kind → ℕ)
state_of none = unstarted
state_of (some (ret, t)) = t

abbrev started : IoRes (Kind → ℕ)
started = state_of (io_init counting 1024 1 64 unstarted)

io_init-started : io_init counting 1024 1 64 unstarted ≡ some (xztl_ok, started)
unfolding io_init init_levels init_reads w_queue_init w_queue_thread write_rs_init read_rs_init
    ctx_media_init ctx_queue cmd_exec
io_init-started = refl

-- Every thread of the machine ends.
abbrev counting-ends :
    (w : Kind → ℕ) (level : ℕ) → (w' : Kind → ℕ) × (counting.thread_join w level ≡ some w')
counting-ends w level = (less thread w, refl)

io_exit-io_init_example :
    (w : Kind → ℕ) × (io_exit counting 1024 1 64 started ≡ some w) × ((j : Kind) → w j ≡ nothing j)
io_exit-io_init_example =
    io_exit-io_init counting (λ w j. w j) counting-Counts 1024 1 64 counting-ends unstarted started
      io_init-started
