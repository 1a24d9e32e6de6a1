-- ===== src/Stats/Totals.antt =====
-- What the counters hold after any calls.
use x_ztl.Common.{
  ℕ, ◌+◌, ◌*◌, ◌%◌, ◌^◌, ◌<◌, ◌≡◌, ◌≢◌, refl, ap, sym, ◌∙◌, lt→ltb, ltb, ◌==◌, ◌||◌, if◌then◌else◌,
  List, [], ◌∷◌, Option, some, ◌>>=◌, arith, Bool-cases, >>=-eq-some, inl, inr,
}
use x_ztl.Media.Commands.{xztl_cmd_write, xztl_cmd_read, xztl_zone_append}
use x_ztl.Stats.{
  StatsData, bump, stats_init, stats_inc, stats_add_io, stats_reset_io, sum_nsec,
  xztl_stats_read_bytes, xztl_stats_append_bytes, xztl_stats_read_mcmd, xztl_stats_append_mcmd,
}

-- A call that changes the counters of I/O.
pub data StatsCall : Type 0 where
  incs : ℕ → ℕ → StatsCall
  adds : ℕ → List ℕ → StatsCall
  resets : StatsCall

-- The calls, the last of the list first.
unfoldable pub run_stats : ℕ → List StatsCall → Option StatsData
run_stats nbytes [] = some stats_init
run_stats nbytes (incs type val ∷ cs) = do s ← run_stats nbytes cs; stats_inc s type val
run_stats nbytes (adds opcode nsec ∷ cs) = do
  s ← run_stats nbytes cs
  some (stats_add_io s nbytes opcode nsec)
run_stats nbytes (resets ∷ cs) = do s ← run_stats nbytes cs; some (stats_reset_io s)

-- What a command adds to a counter.
abbrev pub io_share : ℕ → ℕ → ℕ → List ℕ → ℕ
io_share nbytes t opcode nsec =
    if (opcode == xztl_zone_append) || (opcode == xztl_cmd_write)
    then (if t == xztl_stats_append_mcmd
        then 1
        else if t == xztl_stats_append_bytes
        then sum_nsec nsec * nbytes % 2 ^ 32
        else 0)
    else if opcode == xztl_cmd_read
    then (if t == xztl_stats_read_mcmd
        then 1
        else if t == xztl_stats_read_bytes
        then sum_nsec nsec * nbytes % 2 ^ 32
        else 0)
    else 0

-- The sum of what the calls since the last reset add to a counter, of any size.
unfoldable pub total : ℕ → ℕ → List StatsCall → ℕ
total nbytes t [] = 0
total nbytes t (incs type val ∷ cs) = (if type == t then val else 0) + total nbytes t cs
total nbytes t (adds opcode nsec ∷ cs) = io_share nbytes t opcode nsec + total nbytes t cs
total nbytes t (resets ∷ cs) = 0

bump_lem :
    (f : ℕ → ℕ) (i v t n : ℕ)
    → f t ≡ n % 2 ^ 64
    → bump f i v t ≡ ((if i == t then v else 0) + n) % 2 ^ 64
bump_lem f i v t n h = elim (Bool-cases (i == t)) [
  | inl here ↦ rw here (omega (arith, h))
  | inr other ↦ rw other (omega (arith, h))
]

bump_two :
    (f : ℕ → ℕ) (i j v t n : ℕ)
    → i ≢ j
    → f t ≡ n % 2 ^ 64
    → bump (bump f i 1) j v t ≡ ((if t == i then 1 else if t == j then v else 0) + n) % 2 ^ 64
bump_two f i j v t n apart h =
    let first = bump_lem f i 1 t n h in
    let both = bump_lem (bump f i 1) j v t ((if i == t then 1 else 0) + n) first in
    let same : (if j == t then v else 0) + ((if i == t then 1 else 0) + n)
        ≡ (if t == i then 1 else if t == j then v else 0) + n =
      ground (arith, apart) in
    both ∙ ap (λ (k : ℕ). k % 2 ^ 64) same

stats_add_io-io :
    (s : StatsData) (nbytes opcode : ℕ) (nsec : List ℕ) (t n : ℕ)
    → s.io t ≡ n % 2 ^ 64
    → (stats_add_io s nbytes opcode nsec).io t ≡ (io_share nbytes t opcode nsec + n) % 2 ^ 64
unfolding stats_add_io
stats_add_io-io s nbytes opcode nsec t n h =
    let bytes : ℕ = sum_nsec nsec * nbytes % 2 ^ 32 in
    elim (Bool-cases ((opcode == xztl_zone_append) || (opcode == xztl_cmd_write))) [
      | inl writes ↦ rw (stats_add_io, writes) (bump_two s.io 3 1 bytes t n (omega arith) h)
      | inr no_write ↦ elim (Bool-cases (opcode == xztl_cmd_read)) [
        | inl reads ↦
            rw (stats_add_io, no_write, reads) (bump_two s.io 2 0 bytes t n (omega arith) h)
        | inr other ↦ rw (stats_add_io, no_write, other) (omega (arith, h))
      ]
    ]

reset_io : (s : StatsData) (t : ℕ) → t < 22 → (stats_reset_io s).io t ≡ 0
unfolding stats_reset_io
reset_io s t lt = let within = lt→ltb t 22 lt in rw within refl

-- After any calls that stay within the counters, each counter holds the sum of what was added to it since
-- the last reset, up to the 64 bits that it has.
pub run_stats-total :
    (nbytes : ℕ) (cs : List StatsCall) (t : ℕ) {s : StatsData}
    → t < 22
    → run_stats nbytes cs ≡ some s
    → s.io t ≡ total nbytes t cs % 2 ^ 64
unfolding run_stats total stats_inc
run_stats-total nbytes [] t {s = u} lt e =
    let same : stats_init ≡ u = cc in ap (λ (s : StatsData). s.io t) (sym same)
run_stats-total nbytes (incs type val ∷ cs) t {s = u} lt e =
    let (s, before, last) = >>=-eq-some (run_stats nbytes cs) _ e in
    let ih = run_stats-total nbytes cs t lt before in
    elim (Bool-cases (ltb type 22)) [
      | inl within ↦
          let same : record s { io = bump s.io type val } ≡ u =
            cc (rw (stats_inc, within) at last) in
          ap (λ (v : StatsData). v.io t) (sym same)
          ∙ bump_lem s.io type val t (total nbytes t cs) ih
      | inr past ↦ absurd (cc (rw (stats_inc, past) at last))
    ]
run_stats-total nbytes (adds opcode nsec ∷ cs) t {s = u} lt e =
    let (s, before, last) = >>=-eq-some (run_stats nbytes cs) _ e in
    let ih = run_stats-total nbytes cs t lt before in
    let same : stats_add_io s nbytes opcode nsec ≡ u = cc (last) in
    ap (λ (v : StatsData). v.io t) (sym same)
    ∙ stats_add_io-io s nbytes opcode nsec t (total nbytes t cs) ih
run_stats-total nbytes (resets ∷ cs) t {s = u} lt e =
    let (s, before, last) = >>=-eq-some (run_stats nbytes cs) _ e in
    let same : stats_reset_io s ≡ u = cc (last) in
    ap (λ (v : StatsData). v.io t) (sym same) ∙ reset_io s t lt
