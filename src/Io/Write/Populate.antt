-- ===== src/Io/Write/Populate.antt =====
-- The commands of a write: command `i` goes to the zone in turn `i % 64`, 8 sectors past the one
-- before it there, and takes the next 8 sectors of the buffer.
use x_ztl.Common.{
  ℕ, zero, suc, ◌+◌, ◌-◌, ◌*◌, ◌/◌, ◌%◌, ◌^◌, ◌≤◌, ◌<◌, ◌≡◌, ◌≢◌, inl, inr, refl, ap, ◌∙◌, ◌==◌,
  ltb, if◌then◌else◌, List, [], ◌∷◌, ◌++◌, some, arith, lt→ltb, le→ltb, ltb→lt, ltb→le, Bool-cases,
  ne→==, eq→==, tests, length, gen, get_elem?, length-append, get_elem?-append_left,
  get_elem?-append_right,
}
use mathlib.Core.List.{append-nil}
use x_ztl.Data.{add64}
use x_ztl.Addr.{to_sect}
use x_ztl.Io.Cmd.{Mcmd}
use x_ztl.Io.Write.{Share, write_mcmd, advance, round, populate}
use x_ztl.Pro.Get.{share}

-- `n` commands in a row.
line : ℕ → (ℕ → Share) → ℕ → ℕ → ℕ → ℕ → List Mcmd
line step g c z boff zero = []
line step g c z boff (suc n) =
    write_mcmd c z boff (g z).addr ∷ line step g (c + 1) (z + 1) (add64 boff step) n

length-line : (step : ℕ) (g : ℕ → Share) (c z boff n : ℕ) → length (line step g c z boff n) ≡ n
unfolding line
length-line step g c z boff zero = refl
length-line step g c z boff (suc n) =
    ap suc (length-line step g (c + 1) (z + 1) (add64 boff step) n)

get_elem?-line :
    (step : ℕ) (g : ℕ → Share) (c z boff n i : ℕ)
    → i < n
    → boff < 2 ^ 64
    → get_elem? (line step g c z boff n) i
      ≡ some (write_mcmd (c + i) (z + i) (add64 boff (i * step)) (g (z + i)).addr)
unfolding line
get_elem?-line step g c z boff zero i h hb = elim h [ ]
get_elem?-line step g c z boff (suc n) zero h hb =
    let e1 : c + 0 ≡ c = omega arith in
    let e2 : z + 0 ≡ z = omega arith in
    let e3 : add64 boff (0 * step) ≡ boff = omega arith in rw (e1, e2, e3) refl
get_elem?-line step g c z boff (suc n) (suc i) h hb =
    let e1 : c + 1 + i ≡ c + suc i = omega arith in
    let e2 : z + 1 + i ≡ z + suc i = omega arith in
    let e3 : add64 (add64 boff step) (i * step) ≡ add64 boff (suc i * step) = omega arith in
    get_elem?-line step g (c + 1) (z + 1) (add64 boff step) n i (omega arith) (omega arith)
    ∙ rw (e1, e2, e3) refl

-- The shares after a round: those with sectors left gave a command.
pub after_round : (ℕ → Share) → ℕ → Share
after_round g j = if (g j).left == 0 then g j else advance (g j)

-- A round makes the commands of the first `a` zones, those that have sectors left.
round_lem :
    (nbytes c z boff n a : ℕ) (g : ℕ → Share)
    → ((j : ℕ) → j < a → (g j).left ≢ 0)
    → ((j : ℕ) → a ≤ j → j < z + n → (g j).left ≡ 0)
    → c + (a - z) ≤ 1024
    → a ≤ z + n
    → round nbytes c z boff (gen g z n)
      ≡ some (line (nbytes * 8) g c z boff (a - z), gen (after_round g) z n)
unfolding round gen after_round line
round_lem nbytes c z boff zero a g pos none_left hc ha =
    let e : a - z ≡ 0 = omega arith in rw e refl
round_lem nbytes c z boff (suc n) a g pos none_left hc ha = elim (Bool-cases (ltb z a)) [
  | inl y ↦
      let lt = ltb→lt z a y in
      let e : a - z ≡ suc (a - (z + 1)) = omega arith in
      let ih =
        round_lem nbytes (c + 1) (z + 1) (add64 boff (nbytes * 8)) n a g pos
          (λ j h k. none_left j h (omega arith)) (omega arith) (omega arith) in
      rw (ne→== (g z).left 0 (pos z lt), lt→ltb c 1024 (omega arith), ih, e) refl
  | inr y ↦
      let ge = ltb→le z a y in
      let e : a - z ≡ 0 = omega arith in
      let e1 : a - (z + 1) ≡ 0 = omega arith in
      let ih =
        round_lem nbytes c (z + 1) boff n a g pos (λ j h k. none_left j h (omega arith))
          (omega arith) (omega arith) in
      rw (eq→== (g z).left 0 (none_left z ge (omega arith)), ih, e, e1) refl
]

-- The share after `r` rounds that each gave a command.
pub adv : ℕ → Share → Share
adv zero p = p
adv (suc r) p = adv r (advance p)

pub adv-sect :
    (r : ℕ) (p : Share) → p.addr.sect + 8 * r < 2 ^ 36 → (adv r p).addr.sect ≡ p.addr.sect + 8 * r
unfolding adv advance
adv-sect zero p h = omega arith
adv-sect (suc r) p h =
    let e : to_sect (p.addr.sect + 8) ≡ p.addr.sect + 8 = omega arith in
    adv-sect r (advance p) (omega arith) ∙ omega arith

-- The commands `c` onwards of the shares `g`.
pub record Commands (nbytes c boff total : ℕ) (g : ℕ → Share) (ms : List Mcmd) : Type 0 where
  pub number : length ms ≡ total
  pub command :
      (i : ℕ)
      → i < total
      → get_elem? ms i
        ≡ some (
            write_mcmd
              (c + i)
              (i % 64)
              (add64 boff (i * (nbytes * 8)))
              (adv (i / 64) (g (i % 64))).addr)

populate-stop :
    (nbytes fuel num c boff : ℕ) (ps : List Share)
    → 0 < fuel
    → num ≤ c
    → populate nbytes fuel num c boff ps ≡ some []
unfolding populate
populate-stop nbytes zero num c boff ps h k = elim h [ ]
populate-stop nbytes (suc fuel) num c boff ps h k = rw (le→ltb c num k) refl

populate_step :
    (nbytes fuel num c boff n : ℕ) (ps ps' : List Share) (ms rest : List Mcmd)
    → c < num
    → round nbytes c 0 boff ps ≡ some (ms, ps')
    → length ms ≡ n
    → populate nbytes fuel num (c + n) (add64 boff (n * (nbytes * 8))) ps' ≡ some rest
    → populate nbytes (suc fuel) num c boff ps ≡ some (ms ++ rest)
unfolding populate
populate_step nbytes fuel num c boff n ps ps' ms rest h e len run =
    rw (lt→ltb c num h, e, len, run) refl

last_round :
    (nbytes c boff n a : ℕ) (g : ℕ → Share)
    → ((j : ℕ) → j < n → (g j).left ≡ 8 * share 0 a j)
    → a ≤ n
    → c + a ≤ 1024
    → round nbytes c 0 boff (gen g 0 n)
      ≡ some (line (nbytes * 8) g c 0 boff a, gen (after_round g) 0 n)
last_round nbytes c boff n a g hl ha hc =
    let e : a - 0 ≡ a = omega arith in
    rw e at (
      round_lem nbytes c 0 boff n a g
        (λ j h. rw (hl j (omega arith)) (rw (lt→ltb j a h) (omega arith)))
        (λ j h k. rw (hl j (omega arith)) (rw (le→ltb j a h) (omega arith))) (omega arith)
        (omega arith))

full_round :
    (nbytes c boff q a : ℕ) (g : ℕ → Share)
    → ((j : ℕ) → j < 64 → (g j).left ≡ 8 * share (suc q) a j)
    → c + 64 ≤ 1024
    → round nbytes c 0 boff (gen g 0 64)
      ≡ some (line (nbytes * 8) g c 0 boff 64, gen (after_round g) 0 64)
full_round nbytes c boff q a g hl hc =
    round_lem nbytes c 0 boff 64 64 g (λ j h. rw (hl j h) (omega arith))
      (λ j h k. absurd (omega arith)) (omega arith) (omega arith)

line_command :
    (nbytes : ℕ) (g : ℕ → Share) (c boff n i : ℕ)
    → i < n
    → n ≤ 64
    → boff < 2 ^ 64
    → get_elem? (line (nbytes * 8) g c 0 boff n) i
      ≡ some (
          write_mcmd
            (c + i)
            (i % 64)
            (add64 boff (i * (nbytes * 8)))
            (adv (i / 64) (g (i % 64))).addr)
unfolding adv
line_command nbytes g c boff n i h hn hb =
    let e : i % 64 ≡ i = omega arith in
    let e1 : i / 64 ≡ 0 = omega arith in
    let e2 : 0 + i ≡ i = omega arith in
    rw (e, e1) (rw e2 at (get_elem?-line (nbytes * 8) g c 0 boff n i h hb))

add64_twice :
    (boff ns k i : ℕ) → i ≡ 64 + k → add64 (add64 boff (64 * ns)) (k * ns) ≡ add64 boff (i * ns)
add64_twice boff ns k i e = rw e (omega arith)

left-after_round :
    (q a j : ℕ) (g : ℕ → Share)
    → (g j).left ≡ 8 * share (suc q) a j
    → (after_round g j).left ≡ 8 * share q a j
unfolding after_round advance
left-after_round q a j g h = rw (ne→== (g j).left 0 (omega arith)) (omega arith)

adv-after_round :
    (q a j r : ℕ) (g : ℕ → Share)
    → (g j).left ≡ 8 * share (suc q) a j
    → adv r (after_round g j) ≡ adv (suc r) (g j)
unfolding adv after_round
adv-after_round q a j r g h = rw (ne→== (g j).left 0 (omega arith)) refl

Commands-append :
    (nbytes c boff q a : ℕ) (g : ℕ → Share) (ms : List Mcmd)
    → ((j : ℕ) → j < 64 → (g j).left ≡ 8 * share (suc q) a j)
    → boff < 2 ^ 64
    → Commands nbytes (c + 64) (add64 boff (64 * (nbytes * 8))) (q * 64 + a) (after_round g) ms
    → Commands nbytes c boff (suc q * 64 + a) g (line (nbytes * 8) g c 0 boff 64 ++ ms)
Commands-append nbytes c boff q a g ms hl hb cs = record {
  number =
      length-append (line (nbytes * 8) g c 0 boff 64) ms
      ∙ omega (arith, length-line (nbytes * 8) g c 0 boff 64, cs.number);
  command = command_at;
}
  where
    ns : ℕ
    ns = nbytes * 8

    command_at :
        (i : ℕ)
        → i < suc q * 64 + a
        → get_elem? (line ns g c 0 boff 64 ++ ms) i
          ≡ some
              (write_mcmd (c + i) (i % 64) (add64 boff (i * ns)) (adv (i / 64) (g (i % 64))).addr)
    command_at i h = elim (Bool-cases (ltb i 64)) [
      | inl y ↦
          get_elem?-append_left (line ns g c 0 boff 64) ms i
            (omega (tests, length-line ns g c 0 boff 64))
          ∙ line_command nbytes g c boff 64 i (omega tests) (omega arith) hb
      | inr y ↦
          let k : ℕ = i - 64 in
          let e1 : c + 64 + k ≡ c + i = omega tests in
          let e2 : k % 64 ≡ i % 64 = omega tests in
          let e3 : add64 (add64 boff (64 * ns)) (k * ns) ≡ add64 boff (i * ns) =
            add64_twice boff ns k i (omega tests) in
          let e4 : suc (k / 64) ≡ i / 64 = omega tests in
          get_elem?-append_right (line ns g c 0 boff 64) ms i k
            (omega (tests, length-line ns g c 0 boff 64))
          ∙ cs.command k (omega tests)
          ∙ rw (e2, e1, e3, adv-after_round q a (i % 64) (k / 64) g (hl (i % 64) (omega arith)), e4)
              refl
    ]

more-Commands :
    (nbytes fuel num c boff q a n : ℕ) (g : ℕ → Share)
    → ((j : ℕ) → j < 64 → (g j).left ≡ 8 * share (suc q) a j)
    → boff < 2 ^ 64
    → n ≡ 64
    → c < num
    → c + 64 ≤ 1024
    → (ms : List Mcmd) × (populate nbytes fuel num
          (c + 64)
          (add64 boff (64 * (nbytes * 8)))
          (gen (after_round g) 0 64)
        ≡ some ms)
      × Commands nbytes (c + 64) (add64 boff (64 * (nbytes * 8))) (q * 64 + a) (after_round g) ms
    → (ms : List Mcmd) × (populate nbytes (suc fuel) num c boff (gen g 0 n) ≡ some ms)
      × Commands nbytes c boff (suc q * 64 + a) g ms
more-Commands nbytes fuel num c boff q a n g hl hb e64 hc hmax (ms, run, cs) = (
  line (nbytes * 8) g c 0 boff 64 ++ ms,
  rw e64 (
      populate_step nbytes fuel num c boff 64 (gen g 0 64) (gen (after_round g) 0 64)
        (line (nbytes * 8) g c 0 boff 64) ms hc (full_round nbytes c boff q a g hl hmax)
        (length-line (nbytes * 8) g c 0 boff 64) run),
  Commands-append nbytes c boff q a g ms hl hb cs,
)

pub populate-Commands :
    (q fuel nbytes num c boff a n : ℕ) (g : ℕ → Share)
    → ((j : ℕ) → j < n → (g j).left ≡ 8 * share q a j)
    → a < 64
    → a ≤ n
    → n ≤ 64
    → (q ≢ 0 → n ≡ 64)
    → num ≡ c + q * 64 + a
    → num ≤ 1024
    → q + a < fuel
    → boff < 2 ^ 64
    → (ms : List Mcmd) × (populate nbytes fuel num c boff (gen g 0 n) ≡ some ms)
      × Commands nbytes c boff (q * 64 + a) g ms
populate-Commands q zero nbytes num c boff a n g hl h64 ha hn h1 hnum hmax hf hb = elim hf [ ]
populate-Commands zero (suc fuel) nbytes num c boff a n g hl h64 ha hn h1 hnum hmax hf hb =
    elim (Bool-cases (ltb c num)) [
      | inl y ↦
          let ms : List Mcmd = line (nbytes * 8) g c 0 boff a in
          let len = length-line (nbytes * 8) g c 0 boff a in
          (
            ms ++ [],
            populate_step nbytes fuel num c boff a (gen g 0 n) (gen (after_round g) 0 n) ms []
                (ltb→lt c num y) (last_round nbytes c boff n a g hl ha (omega arith)) len
                (populate-stop nbytes fuel num (c + a) _ (gen (after_round g) 0 n) (omega tests)
                  (omega arith)),
            rw append-nil (record {
              number = len ∙ omega arith;
              command = λ i h. line_command nbytes g c boff a i (omega arith) (omega arith) hb;
            }),
          )
      | inr y ↦ (
        [],
        populate-stop nbytes (suc fuel) num c boff (gen g 0 n) (omega arith) (ltb→le c num y),
        record { number = omega tests; command = λ i h. absurd (omega tests) },
      )
    ]
populate-Commands (suc q) (suc fuel) nbytes num c boff a n g hl h64 ha hn h1 hnum hmax hf hb =
    let e64 : n ≡ 64 = h1 (λ z. omega arith) in
    let g' = after_round g in
    let hl64 : (j : ℕ) → j < 64 → (g j).left ≡ 8 * share (suc q) a j = λ j h. hl j (omega arith) in
    let hl' : (j : ℕ) → j < 64 → (g' j).left ≡ 8 * share q a j =
      λ j h. left-after_round q a j g (hl64 j h) in
    more-Commands nbytes fuel num c boff q a n g hl64 hb e64 (omega arith) (omega arith) (
      populate-Commands q fuel nbytes num (c + 64) (add64 boff (64 * (nbytes * 8))) a 64 g' hl' h64
        (omega arith) (omega arith) (λ z. refl) (omega arith) hmax (omega arith) (omega arith))
