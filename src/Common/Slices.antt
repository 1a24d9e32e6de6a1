-- ===== src/Common/Slices.antt =====
-- Parts of buffers: `take` and `drop` on native numbers, with what they do to an append and to `gen`.
use Prim.Native.Nat.{ℕ, zero, suc, ◌+◌, ◌-◌, ◌≤◌}
use mathlib.Core.Path.{◌≡◌, refl, ap, ◌∙◌}
use mathlib.Core.List.{List, [], ◌∷◌, ◌++◌}
use native.Mathlib.Omega.{arith}
use x_ztl.Common.Lists.{length, gen}

module _ {ℓ} {A : Type ℓ} where
  abbrev pub take : ℕ → List A → List A
  take zero xs = []
  take (suc n) [] = []
  take (suc n) (x ∷ xs) = x ∷ take n xs

  abbrev pub drop : ℕ → List A → List A
  drop zero xs = xs
  drop (suc n) [] = []
  drop (suc n) (x ∷ xs) = drop n xs

  pub length-take : (n : ℕ) (xs : List A) → n ≤ length xs → length (take n xs) ≡ n
  length-take zero xs h = refl
  length-take (suc n) [] h = absurd (omega arith)
  length-take (suc n) (x ∷ xs) h = ap suc (length-take n xs (omega arith))

  pub length-take_le : (n : ℕ) (xs : List A) → length (take n xs) ≤ n
  length-take_le zero xs = omega arith
  length-take_le (suc n) [] = omega arith
  length-take_le (suc n) (x ∷ xs) = omega (arith, length-take_le n xs)

  pub length-drop : (n : ℕ) (xs : List A) → length (drop n xs) ≡ length xs - n
  length-drop zero xs = omega arith
  length-drop (suc n) [] = omega arith
  length-drop (suc n) (x ∷ xs) = omega (arith, length-drop n xs)

  pub take-all : (n : ℕ) (xs : List A) → length xs ≤ n → take n xs ≡ xs
  take-all zero [] h = refl
  take-all zero (x ∷ xs) h = absurd (omega arith)
  take-all (suc n) [] h = refl
  take-all (suc n) (x ∷ xs) h = ap (λ t. x ∷ t) (take-all n xs (omega arith))

  pub take-append_drop : (n : ℕ) (xs : List A) → take n xs ++ drop n xs ≡ xs
  take-append_drop zero xs = refl
  take-append_drop (suc n) [] = refl
  take-append_drop (suc n) (x ∷ xs) = ap (λ t. x ∷ t) (take-append_drop n xs)

  pub take-append_left : (n : ℕ) (xs ys : List A) → n ≤ length xs → take n (xs ++ ys) ≡ take n xs
  take-append_left zero xs ys h = refl
  take-append_left (suc n) [] ys h = absurd (omega arith)
  take-append_left (suc n) (x ∷ xs) ys h = ap (λ t. x ∷ t) (take-append_left n xs ys (omega arith))

  pub take-append_right :
      (k n : ℕ) (xs ys : List A) → k ≡ length xs + n → take k (xs ++ ys) ≡ xs ++ take n ys
  take-append_right k n [] ys h = ap (λ j. take j ys) (omega arith)
  take-append_right zero n (x ∷ xs) ys h = absurd (omega arith)
  take-append_right (suc k) n (x ∷ xs) ys h =
      ap (λ t. x ∷ t) (take-append_right k n xs ys (omega arith))

  pub drop-append_left :
      (n : ℕ) (xs ys : List A) → n ≤ length xs → drop n (xs ++ ys) ≡ drop n xs ++ ys
  drop-append_left zero xs ys h = refl
  drop-append_left (suc n) [] ys h = absurd (omega arith)
  drop-append_left (suc n) (x ∷ xs) ys h = drop-append_left n xs ys (omega arith)

  pub drop-append_right :
      (k n : ℕ) (xs ys : List A) → k ≡ length xs + n → drop k (xs ++ ys) ≡ drop n ys
  drop-append_right k n [] ys h = ap (λ j. drop j ys) (omega arith)
  drop-append_right zero n (x ∷ xs) ys h = absurd (omega arith)
  drop-append_right (suc k) n (x ∷ xs) ys h = drop-append_right k n xs ys (omega arith)

  pub drop-gen : (g : ℕ → A) (k z n : ℕ) → k ≤ n → drop k (gen g z n) ≡ gen g (z + k) (n - k)
  unfolding gen
  drop-gen g zero z n h =
      let e : z + 0 ≡ z = omega arith in let k : n - 0 ≡ n = omega arith in rw (e, k) refl
  drop-gen g (suc k) z zero h = absurd (omega arith)
  drop-gen g (suc k) z (suc n) h =
      let e : z + 1 + k ≡ z + suc k = omega arith in
      let d : suc n - suc k ≡ n - k = omega arith in
      drop-gen g k (z + 1) n (omega arith) ∙ rw (e, d) refl

  pub take-gen : (g : ℕ → A) (k z n : ℕ) → k ≤ n → take k (gen g z n) ≡ gen g z k
  unfolding gen
  take-gen g zero z n h = refl
  take-gen g (suc k) z zero h = absurd (omega arith)
  take-gen g (suc k) z (suc n) h = ap (λ t. g z ∷ t) (take-gen g k (z + 1) n (omega arith))
