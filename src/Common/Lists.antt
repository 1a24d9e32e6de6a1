-- ===== src/Common/Lists.antt =====
-- C arrays and TAILQ/STAILQ/LIST queues as lists with native indices.
use Prim.Native.Nat.{ℕ, zero, suc, ◌+◌, ◌<◌}
use mathlib.Core.Path.{◌≡◌, refl, ap, ◌∙◌}
use mathlib.Core.Logic.{◌≢◌}
use mathlib.Core.List.{List, [], ◌∷◌, ◌++◌, map}
use mathlib.Core.Bool.{true, false}
use mathlib.Core.Option.{Option, none, some}
use native.Mathlib.Omega.{arith}
use mathlib.Core.Logic.{inl, inr}
use x_ztl.Common.Tests.{◌==◌, if◌then◌else◌, Option-cases, Bool-cases}

module _ {ℓ} {A : Type ℓ} where
  abbrev pub length : List A → ℕ
  length [] = 0
  length (x ∷ xs) = suc (length xs)

  abbrev pub get_elem? : List A → ℕ → Option A
  get_elem? [] i = none
  get_elem? (x ∷ xs) zero = some x
  get_elem? (x ∷ xs) (suc i) = get_elem? xs i

  -- A write out of range changes nothing; a caller that may be out of range reads first.
  abbrev pub set : List A → ℕ → A → List A
  set [] i v = []
  set (x ∷ xs) zero v = v ∷ xs
  set (x ∷ xs) (suc i) v = x ∷ set xs i v

  abbrev pub replicate : ℕ → A → List A
  replicate zero a = []
  replicate (suc n) a = a ∷ replicate n a

module _ {ℓ} {A : Type ℓ} where
  pub length-append : (xs ys : List A) → length (xs ++ ys) ≡ length xs + length ys
  length-append [] ys = omega arith
  length-append (x ∷ xs) ys = omega (arith, length-append xs ys)

  pub length-set : (xs : List A) (i : ℕ) (v : A) → length (set xs i v) ≡ length xs
  length-set [] i v = refl
  length-set (x ∷ xs) zero v = refl
  length-set (x ∷ xs) (suc i) v = ap suc (length-set xs i v)

  pub length-replicate : (n : ℕ) (a : A) → length (replicate n a) ≡ n
  length-replicate zero a = refl
  length-replicate (suc n) a = ap suc (length-replicate n a)

  pub get_elem?-replicate : (n i : ℕ) (a : A) → i < n → get_elem? (replicate n a) i ≡ some a
  get_elem?-replicate zero i a h = elim h [ ]
  get_elem?-replicate (suc n) zero a h = refl
  get_elem?-replicate (suc n) (suc i) a h = get_elem?-replicate n i a (omega arith)

  pub get_elem?-set_self :
      (xs : List A) (i : ℕ) (v : A) → i < length xs → get_elem? (set xs i v) i ≡ some v
  get_elem?-set_self [] i v h = elim h [ ]
  get_elem?-set_self (x ∷ xs) zero v h = refl
  get_elem?-set_self (x ∷ xs) (suc i) v h = get_elem?-set_self xs i v (omega arith)

  pub get_elem?-set_ne :
      (xs : List A) (i j : ℕ) (v : A) → i ≢ j → get_elem? (set xs i v) j ≡ get_elem? xs j
  get_elem?-set_ne [] i j v h = refl
  get_elem?-set_ne (x ∷ xs) zero zero v h = absurd (h refl)
  get_elem?-set_ne (x ∷ xs) zero (suc j) v h = refl
  get_elem?-set_ne (x ∷ xs) (suc i) zero v h = refl
  get_elem?-set_ne (x ∷ xs) (suc i) (suc j) v h = get_elem?-set_ne xs i j v (λ e. h (ap suc e))

  pub lt-of-get_elem? : (xs : List A) (i : ℕ) {v : A} → get_elem? xs i ≡ some v → i < length xs
  lt-of-get_elem? [] i h = absurd (cc)
  lt-of-get_elem? (x ∷ xs) zero h = omega arith
  lt-of-get_elem? (x ∷ xs) (suc i) h = omega (arith, lt-of-get_elem? xs i h)

  pub get_elem?-of-lt : (xs : List A) (i : ℕ) → i < length xs → (v : A) × (get_elem? xs i ≡ some v)
  get_elem?-of-lt [] i h = elim h [ ]
  get_elem?-of-lt (x ∷ xs) zero h = (x, refl)
  get_elem?-of-lt (x ∷ xs) (suc i) h = get_elem?-of-lt xs i (omega arith)

-- How often an identifier stands in a queue.
abbrev pub times : ℕ → List ℕ → ℕ
times a [] = 0
times a (x ∷ xs) = (if x == a then 1 else 0) + times a xs

pub times-append : (id : ℕ) (q r : List ℕ) → times id (q ++ r) ≡ times id q + times id r
times-append id [] r = omega arith
times-append id (x ∷ q) r = omega (arith, times-append id q r)

-- TAILQ_REMOVE: `none` where the element is not in that queue, which would corrupt its links.
unfoldable pub tailq_remove : ℕ → List ℕ → Option (List ℕ)
tailq_remove a [] = none
tailq_remove a (x ∷ xs) = elim (x == a) [
  | true ↦ some xs
  | false ↦ elim (tailq_remove a xs) [ none ↦ none | some r ↦ some (x ∷ r) ]
]

module _ {ℓ} {A : Type ℓ} where
  pub get_elem?-append_left :
      (xs ys : List A) (i : ℕ) → i < length xs → get_elem? (xs ++ ys) i ≡ get_elem? xs i
  get_elem?-append_left [] ys i h = elim h [ ]
  get_elem?-append_left (x ∷ xs) ys zero h = refl
  get_elem?-append_left (x ∷ xs) ys (suc i) h = get_elem?-append_left xs ys i (omega arith)

  pub get_elem?-append_right :
      (xs ys : List A) (i j : ℕ) → i ≡ length xs + j → get_elem? (xs ++ ys) i ≡ get_elem? ys j
  get_elem?-append_right [] ys i j h = ap (get_elem? ys) (omega arith)
  get_elem?-append_right (x ∷ xs) ys zero j h = absurd (omega arith)
  get_elem?-append_right (x ∷ xs) ys (suc i) j h = get_elem?-append_right xs ys i j (omega arith)

-- The list `g j`, `g (j + 1)`, … of `n` elements.
unfoldable pub gen {ℓ} : {A : Type ℓ} → (ℕ → A) → ℕ → ℕ → List A
gen g j zero = []
gen g j (suc n) = g j ∷ gen g (j + 1) n

pub gen-of-get {ℓ} :
    {A : Type ℓ} (g : ℕ → A) (z n : ℕ) (xs : List A)
    → length xs ≡ n
    → ((j : ℕ) → j < n → get_elem? xs j ≡ some (g (z + j)))
    → xs ≡ gen g z n
unfolding gen
gen-of-get g z zero [] e h = refl
gen-of-get g z zero (x ∷ xs) e h = absurd (omega arith)
gen-of-get g z (suc n) [] e h = absurd (omega arith)
gen-of-get g z (suc n) (x ∷ xs) e h =
    let first : z + 0 ≡ z = omega arith in
    let head : some x ≡ some (g z) = rw first at (h 0 (omega arith)) in
    let rest = gen-of-get g (z + 1) n xs (omega arith) (λ j lt.
      let next : z + suc j ≡ z + 1 + j = omega arith in rw next at (h (suc j) (omega arith))) in
    cc

pub get_elem?-gen {ℓ} :
    {A : Type ℓ} (g : ℕ → A) (z n i : ℕ) → i < n → get_elem? (gen g z n) i ≡ some (g (z + i))
unfolding gen
get_elem?-gen g z zero i h = elim h [ ]
get_elem?-gen g z (suc n) zero h = let e : z + 0 ≡ z = omega arith in rw e refl
get_elem?-gen g z (suc n) (suc i) h =
    let e : z + 1 + i ≡ z + suc i = omega arith in
    get_elem?-gen g (z + 1) n i (omega arith) ∙ rw e refl

pub get_elem?-gen_zero {ℓ} :
    {A : Type ℓ} (g : ℕ → A) (n i : ℕ) → i < n → get_elem? (gen g 0 n) i ≡ some (g i)
get_elem?-gen_zero g n i h = let e : 0 + i ≡ i = omega arith in get_elem?-gen g 0 n i h ∙ rw e refl

pub length-gen {ℓ} : {A : Type ℓ} (g : ℕ → A) (z n : ℕ) → length (gen g z n) ≡ n
unfolding gen
length-gen g z zero = refl
length-gen g z (suc n) = ap suc (length-gen g (z + 1) n)

pub map-gen {ℓ κ} :
    {A : Type ℓ} {B : Type κ} (f : A → B) (g : ℕ → A) (z n : ℕ)
    → map f (gen g z n) ≡ gen (λ j. f (g j)) z n
unfolding gen
map-gen f g z zero = refl
map-gen f g z (suc n) = rw (map-gen f g (z + 1) n) refl

-- What TAILQ_REMOVE takes out.
pub tailq_remove-times :
    (a b : ℕ) (xs : List ℕ) {ys : List ℕ}
    → tailq_remove a xs ≡ some ys
    → (times b xs ≡ times b ys + (if a == b then 1 else 0)) × (length xs ≡ suc (length ys))
unfolding tailq_remove
tailq_remove-times a b [] e = cc
tailq_remove-times a b (x ∷ xs) e = elim (Option-cases (tailq_remove a xs)) [
  | inl gone ↦ ground (arith, gone)
  | inr (r, rest) ↦ ground (arith, tailq_remove-times a b xs rest)
]

-- It does not fault on an element of the queue.
pub tailq_remove-of-times :
    (a : ℕ) (xs : List ℕ) → 0 < times a xs → (ys : List ℕ) × (tailq_remove a xs ≡ some ys)
unfolding tailq_remove
tailq_remove-of-times a [] h = absurd (omega arith)
tailq_remove-of-times a (x ∷ xs) h = elim (Bool-cases (x == a)) [
  | inl y ↦ (xs, rw (y, tailq_remove) refl)
  | inr n ↦
      let (r, rest) = tailq_remove-of-times a xs (ground arith) in
      (x ∷ r, rw (n, tailq_remove, rest) refl)
]

-- It faults on any other.
pub tailq_remove-none : (a : ℕ) (xs : List ℕ) → times a xs ≡ 0 → tailq_remove a xs ≡ none
unfolding tailq_remove
tailq_remove-none a [] h = refl
tailq_remove-none a (x ∷ xs) h = ground (arith, tailq_remove-none a xs)
