-- ===== src/Io/Resources/Cycle.antt =====
-- The start of the I/O module and its stop (xztl/src/ztl-io.c).
use x_ztl.Common.{
  ℕ, zero, suc, ◌+◌, ◌≤◌, ◌≡◌, refl, ap, sym, ◌∙◌, inl, inr, true, ◌==◌, List, [], ◌∷◌, Option,
  some, length, Bool-cases, >>=-eq-some, ==→eq, arith,
}
use x_ztl.Consts.{xztl_ok}
use x_ztl.Media.Queues.{Machine, rs_mutex, ucmd_spin}
use x_ztl.Ctx.Balance.{Kind, lock, unit, made, Counts}
use x_ztl.Io.Resources.{
  QueueRes, ReadRes, IoRes, w_queue_init, w_queue_exit, write_rs_exit, read_rs_init, read_rs_exit,
  init_levels, exit_levels, init_reads, exit_reads, io_init, io_exit,
}
use x_ztl.Io.Resources.Balance.{
  levels_cost, reads_cost, w_queue_init-cost, w_queue_exit-cost, read_rs_init-cost,
  read_rs_exit-cost,
}

-- The parts of a result that is `some`.
parts {ℓ} :
    {A B : Type ℓ} {n m : ℕ} {a c : A} {b d : B}
    → ◌≡◌ {A = Option (ℕ × A × B)} (some (n, a, b)) (some (m, c, d))
    → (n ≡ m) × (a ≡ c) × (b ≡ d)
parts e = (cc (e), cc (e), cc (e))

pair {ℓ} :
    {A : Type ℓ} {n m : ℕ} {a c : A}
    → ◌≡◌ {A = Option (ℕ × A)} (some (n, a)) (some (m, c))
    → (n ≡ m) × (a ≡ c)
pair e = (cc (e), cc (e))

same_parts {ℓ} :
    {A B : Type ℓ} {n m : ℕ} {a : A} {b d : B}
    → n ≡ m
    → b ≡ d
    → ◌≡◌ {A = Option (ℕ × A × B)} (some (n, a, b)) (some (m, a, d))
same_parts e f = cc (e, f)

module _ {W : Type 0} (x : Machine W) (io_depth read_ctx_num prov_bytes : ℕ) where
  -- A loop over read resources that ends well has started the first one and the rest.
  init_reads-step :
      (n : ℕ) (r : ReadRes) (rs rs' : List ReadRes) (w w' : W)
      → init_reads x io_depth read_ctx_num prov_bytes (suc n) (r ∷ rs) w ≡ some (xztl_ok, rs', w')
      → ((read_rs_init x io_depth read_ctx_num prov_bytes r w).0 ≡ xztl_ok)
        × (rs1 : List ReadRes) × (init_reads x io_depth read_ctx_num prov_bytes n rs
              (read_rs_init x io_depth read_ctx_num prov_bytes r w).2
            ≡ some (xztl_ok, rs1, w'))
        × ((read_rs_init x io_depth read_ctx_num prov_bytes r w).1 ∷ rs1 ≡ rs')
  unfolding init_reads
  init_reads-step n r rs rs' w w' e =
      let start = read_rs_init x io_depth read_ctx_num prov_bytes r w in
      elim (Bool-cases (start.0 == 0)) [
        | inr bad ↦ let codes = parts (rw (init_reads, bad) at e) in absurd (omega (arith, codes.0))
        | inl good ↦
            let ((rets, rs1, w2), rest, put) =
              >>=-eq-some (init_reads x io_depth read_ctx_num prov_bytes n rs start.2) _
                (rw (init_reads, good) at e) in
            let (code, list, state) = parts put in
            (==→eq start.0 0 good, rs1, rest ∙ same_parts code state, list)
      ]

  -- The resources that were started are in the array.
  init_reads-length :
      (n : ℕ) (rs rs' : List ReadRes) (w w' : W)
      → init_reads x io_depth read_ctx_num prov_bytes n rs w ≡ some (xztl_ok, rs', w')
      → n ≤ length rs'
  unfolding init_reads
  init_reads-length zero rs rs' w w' e = omega arith
  init_reads-length (suc n) [] rs' w w' e = absurd (cc (e))
  init_reads-length (suc n) (r ∷ rs) rs' w w' e =
      let (ok, rs1, rest, list) = init_reads-step n r rs rs' w w' e in
      let shorter = init_reads-length n rs rs1 _ w' rest in
      let longer = ap length list in omega (arith, shorter, longer)

  exit_reads-some :
      (n : ℕ) (rs : List ReadRes) (w : W)
      → n ≤ length rs
      → (w' : W) × (exit_reads x io_depth read_ctx_num prov_bytes n rs w ≡ some w')
  unfolding exit_reads
  exit_reads-some zero rs w h = (w, refl)
  exit_reads-some (suc n) [] w h = absurd (omega (arith, h))
  exit_reads-some (suc n) (r ∷ rs) w h =
      exit_reads-some n rs (read_rs_exit x io_depth read_ctx_num prov_bytes r w) (omega (arith, h))

module _ {W : Type 0} (x : Machine W) (held : W → Kind → ℕ) (counts : Counts x held) (j : Kind)
    (io_depth read_ctx_num prov_bytes : ℕ) where
  init_reads-cost :
      (n : ℕ) (rs rs' : List ReadRes) (w w' : W)
      → init_reads x io_depth read_ctx_num prov_bytes n rs w ≡ some (xztl_ok, rs', w')
      → held w' j ≡ held w j + reads_cost j n rs'
  unfolding init_reads reads_cost
  init_reads-cost zero rs rs' w w' e =
      let (code, list, state) = parts e in omega (arith, (ap (λ u. held u j) state))
  init_reads-cost (suc n) [] rs' w w' e = absurd (cc (e))
  init_reads-cost (suc n) (r ∷ rs) rs' w w' e =
      let (ok, rs1, rest, list) =
        init_reads-step x io_depth read_ctx_num prov_bytes n r rs rs' w w' e in
      let one = read_rs_init-cost x held counts j io_depth read_ctx_num prov_bytes r w ok in
      let more = init_reads-cost n rs rs1 _ w' rest in
      let all = ap (reads_cost j (suc n)) list in omega (arith, one, more, all)

  exit_reads-cost :
      (n : ℕ) (rs : List ReadRes) (w w' : W) (m : ℕ)
      → exit_reads x io_depth read_ctx_num prov_bytes n rs w ≡ some w'
      → held w j ≡ m + reads_cost j n rs
      → held w' j ≡ m
  unfolding exit_reads reads_cost
  exit_reads-cost zero rs w w' m e h =
      let same : w ≡ w' = cc (e) in omega (arith, h, (ap (λ u. held u j) same))
  exit_reads-cost (suc n) [] w w' m e h = absurd (cc (e))
  exit_reads-cost (suc n) (r ∷ rs) w w' m e h =
      exit_reads-cost n rs (read_rs_exit x io_depth read_ctx_num prov_bytes r w) w' m e (
        read_rs_exit-cost x held counts j io_depth read_ctx_num prov_bytes r w
          (m + reads_cost j n rs) (omega (arith, h)))

  init_levels-cost :
      (level : ℕ) (qs : List QueueRes) (w : W)
      → (init_levels x io_depth read_ctx_num prov_bytes level qs w).0 ≡ xztl_ok
      → held (init_levels x io_depth read_ctx_num prov_bytes level qs w).2 j
        ≡ held w j + levels_cost j (init_levels x io_depth read_ctx_num prov_bytes level qs w).1
  unfolding init_levels levels_cost
  init_levels-cost level [] w ok = omega arith
  init_levels-cost level (q ∷ qs) w ok =
      let start = w_queue_init x io_depth read_ctx_num prov_bytes level q w in
      elim (Bool-cases (start.0 == 0)) [
        | inr bad ↦ absurd (omega (arith, (rw (init_levels, bad) at ok)))
        | inl good ↦
            let one =
              w_queue_init-cost x held counts j io_depth read_ctx_num prov_bytes level q w
                (==→eq start.0 0 good) in
            let more = init_levels-cost (level + 1) qs start.2 (rw (init_levels, good) at ok) in
            rw (init_levels, good) (omega (arith, one, more))
      ]

  exit_levels-cost :
      (level : ℕ) (qs : List QueueRes) (w w' : W) (n : ℕ)
      → exit_levels x io_depth read_ctx_num prov_bytes level qs w ≡ some w'
      → held w j ≡ n + levels_cost j qs
      → held w' j ≡ n
  unfolding exit_levels levels_cost
  exit_levels-cost level [] w w' n e h =
      let same : w ≡ w' = cc (e) in omega (arith, h, (ap (λ u. held u j) same))
  exit_levels-cost level (q ∷ qs) w w' n e h =
      let (w1, stopped, rest) =
        >>=-eq-some (w_queue_exit x io_depth read_ctx_num prov_bytes level q w) _ e in
      exit_levels-cost (level + 1) qs w1 w' n rest (
        w_queue_exit-cost x held counts j io_depth read_ctx_num prov_bytes level q w w1
          (n + levels_cost j qs) stopped (omega (arith, h)))

module _ {W : Type 0} (x : Machine W) (io_depth read_ctx_num prov_bytes : ℕ) where
  abbrev levels_of : IoRes W → ℕ × List QueueRes × W
  levels_of s = init_levels x io_depth read_ctx_num prov_bytes 0 s.qp s.machine

  -- What `ztl_io_init` has done where it returned OK.
  record IsStarted (s t : IoRes W) : Type 0 where
    rs : List ReadRes
    state : W
    levels : (levels_of s).0 ≡ xztl_ok
    reads :
        init_reads x io_depth read_ctx_num prov_bytes read_ctx_num s.read_resource (levels_of s).2
        ≡ some (xztl_ok, rs, state)
    mutex : (x.lock_init state rs_mutex).0 == 0 ≡ true
    result : t ≡ record {
      qp = (levels_of s).1;
      read_resource = rs;
      machine = (x.lock_init state rs_mutex).1;
    }

  io_init-IsStarted :
      (s t : IoRes W)
      → io_init x io_depth read_ctx_num prov_bytes s ≡ some (xztl_ok, t)
      → IsStarted s t
  unfolding io_init
  io_init-IsStarted s t e = elim (Bool-cases ((levels_of s).0 == 0)) [
    | inr bad ↦ let code = pair (rw (io_init, bad) at e) in absurd (omega (arith, code.0))
    | inl good ↦
        let ((rets, rs, w2), reads, put) =
          >>=-eq-some
            (init_reads x io_depth read_ctx_num prov_bytes read_ctx_num s.read_resource
              (levels_of s).2)
            _ (rw (io_init, good) at e) in
        elim (Bool-cases (rets == 0)) [
          | inr bad ↦ let code = pair (rw bad at put) in absurd (omega (arith, code.0))
          | inl ok ↦ elim (Bool-cases ((x.lock_init w2 rs_mutex).0 == 0)) [
            | inr bad ↦ let code = pair (rw (ok, bad) at put) in absurd (omega (arith, code.0))
            | inl mutex ↦ record {
              rs = rs;
              state = w2;
              levels = ==→eq (levels_of s).0 0 good;
              reads = reads ∙ same_parts (==→eq rets 0 ok) refl;
              mutex = mutex;
              result = sym (pair (rw (ok, mutex) at put)).1;
            }
          ]
        ]
  ]

module _ {W : Type 0} (x : Machine W) (held : W → Kind → ℕ) (counts : Counts x held)
    (io_depth read_ctx_num prov_bytes : ℕ)
    (joins : (w : W) (level : ℕ) → (w' : W) × (x.thread_join w level ≡ some w')) where
  exit_levels-some :
      (level : ℕ) (qs : List QueueRes) (w : W)
      → (w' : W) × (exit_levels x io_depth read_ctx_num prov_bytes level qs w ≡ some w')
  unfolding exit_levels w_queue_exit
  exit_levels-some level [] w = (w, refl)
  exit_levels-some level (q ∷ qs) w =
      let (w1, joined) = joins w level in
      let w2 =
        write_rs_exit x io_depth read_ctx_num prov_bytes q (x.lock_destroy w1 (ucmd_spin level)) in
      let (w', ends) = exit_levels-some (level + 1) qs w2 in
      (w', rw (exit_levels, w_queue_exit, joined) ends)

  -- On a machine where the thread of each write queue ends when it is waited for, and where xnvme ends
  -- every queue without an error: after `ztl_io_init` returned OK, `ztl_io_exit` ends, and the memory,
  -- buffers, locks, threads and queues that the machine has given out are as many as before.
  pub io_exit-io_init :
      (s t : IoRes W)
      → io_init x io_depth read_ctx_num prov_bytes s ≡ some (xztl_ok, t)
      → (w : W) × (io_exit x io_depth read_ctx_num prov_bytes t ≡ some w)
        × ((j : Kind) → held w j ≡ held s.machine j)
  unfolding io_exit made
  io_exit-io_init s t e =
      let started = io_init-IsStarted x io_depth read_ctx_num prov_bytes s t e in
      let qs = (levels_of x io_depth read_ctx_num prov_bytes s).1 in
      let locked = (x.lock_init started.state rs_mutex).1 in
      let (exited, stopped) = exit_levels-some 0 qs locked in
      let enough =
        init_reads-length x io_depth read_ctx_num prov_bytes read_ctx_num s.read_resource started.rs
          _ started.state started.reads in
      let (w, ends) =
        exit_reads-some x io_depth read_ctx_num prov_bytes read_ctx_num started.rs
          (x.lock_destroy exited rs_mutex) enough in
      let back : (j : Kind) → held w j ≡ held s.machine j = λ j.
        let all =
          init_levels-cost x held counts j io_depth read_ctx_num prov_bytes 0 s.qp s.machine
            started.levels in
        let reads =
          init_reads-cost x held counts j io_depth read_ctx_num prov_bytes read_ctx_num
            s.read_resource started.rs _ started.state started.reads in
        let mutex = rw started.mutex at (counts.lock_inits started.state rs_mutex j) in
        let n = held s.machine j in
        let left = reads_cost j read_ctx_num started.rs in
        exit_reads-cost x held counts j io_depth read_ctx_num prov_bytes read_ctx_num started.rs
          (x.lock_destroy exited rs_mutex) w n ends
          (counts.lock_destroys exited rs_mutex (n + left) j (
            exit_levels-cost x held counts j io_depth read_ctx_num prov_bytes 0 qs locked exited
              (n + left + unit j lock) stopped (omega (arith, all, reads, mutex)))) in
      (w, rw (started.result, stopped) ends, back)
