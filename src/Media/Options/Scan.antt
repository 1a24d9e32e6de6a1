-- ===== src/Media/Options/Scan.antt =====
-- What the conversions of sscanf take of a name.
use x_ztl.Common.{
  ℕ, zero, suc, ◌+◌, ◌^◌, ◌<◌, ◌≤◌, ◌≡◌, refl, ap, ◌∙◌, inl, inr, Bool, true, false, ◌==◌,
  if◌then◌else◌, List, [], ◌∷◌, ◌++◌, Option, none, some, length, get_elem?, arith, Bool-cases,
  get_elem?-append_left, lt→ltb,
}
use mathlib.Core.Path.{subst}
use x_ztl.Common.Int.{ℤ, pos}
use x_ztl.Media.Options.{
  text, be_str, char_at, same_text, is_space, scan_while, skip_spaces, scan_word, scan_parts,
  scan_literal, scan_after, decimal, scan_int, scan_digits, read_digits, not_digit, int_value,
  find_backend, path_backend,
}

-- Every character passes.
abbrev pub NoneOf : (ℕ → Bool) → List ℕ → Type 0
NoneOf stop [] = Unit
NoneOf stop (c ∷ s) = (stop c ≡ false) × NoneOf stop s

abbrev pub none_of : (ℕ → Bool) → List ℕ → Bool
none_of stop [] = true
none_of stop (c ∷ s) = if stop c then false else none_of stop s

pub NoneOf-of-none_of : (stop : ℕ → Bool) (s : List ℕ) → none_of stop s ≡ true → NoneOf stop s
NoneOf-of-none_of stop [] h = tt
NoneOf-of-none_of stop (c ∷ s) h = elim (Bool-cases (stop c)) [
  | inl stops ↦ absurd (cc (rw stops at h))
  | inr pass ↦ (pass, NoneOf-of-none_of stop s (rw pass at h))
]

abbrev pub is_mark : ℕ → Bool
is_mark c = c == b'?'

pub scan_while-stop :
    (width : ℕ) (stop : ℕ → Bool) (p : List ℕ) (c : ℕ) (s : List ℕ)
    → NoneOf stop p
    → stop c ≡ true
    → length p ≤ width
    → scan_while width stop (p ++ c ∷ s) ≡ (p, c ∷ s)
unfolding scan_while
scan_while-stop zero stop [] c s h stops len = refl
scan_while-stop (suc width) stop [] c s h stops len = rw (scan_while, stops) refl
scan_while-stop zero stop (d ∷ p) c s h stops len = absurd (omega (arith, len))
scan_while-stop (suc width) stop (d ∷ p) c s (pass, h) stops len =
    let rest = scan_while-stop width stop p c s h stops (omega (arith, len)) in
    rw (scan_while, rest, pass) refl

pub scan_while-all :
    (width : ℕ) (stop : ℕ → Bool) (p : List ℕ)
    → NoneOf stop p
    → length p ≤ width
    → scan_while width stop p ≡ (p, [])
unfolding scan_while
scan_while-all zero stop [] h len = refl
scan_while-all (suc width) stop [] h len = refl
scan_while-all zero stop (d ∷ p) h len = absurd (omega (arith, len))
scan_while-all (suc width) stop (d ∷ p) (pass, h) len =
    let rest = scan_while-all width stop p h (omega (arith, len)) in
    rw (scan_while, rest, pass) refl

scan_word_empty : scan_word [] ≡ []
unfolding scan_word skip_spaces scan_while
scan_word_empty = refl

pub skip_spaces-pass : (c : ℕ) (s : List ℕ) → is_space c ≡ false → skip_spaces (c ∷ s) ≡ c ∷ s
unfolding skip_spaces
skip_spaces-pass c s pass = rw pass refl

pub scan_word-all : (s : List ℕ) → NoneOf is_space s → length s ≤ 64 → scan_word s ≡ s
unfolding scan_word
scan_word-all [] h len = scan_word_empty
scan_word-all (c ∷ s) (pass, h) len =
    ap (λ t. (scan_while 64 is_space t).0) (skip_spaces-pass c s pass)
    ∙ ap (λ (r : List ℕ × List ℕ). r.0) (scan_while-all 64 is_space (c ∷ s) (pass, h) len)

-- A name of two parts, of which the second begins with the mark and has no spaces.
pub scan_parts-mark :
    (p s : List ℕ)
    → NoneOf is_mark p
    → NoneOf is_space s
    → length p ≤ 64
    → length s < 64
    → scan_parts (p ++ b'?' ∷ s) ≡ (p, b'?' ∷ s)
unfolding scan_parts
scan_parts-mark p s h g len len' =
    let first = scan_while-stop 64 is_mark p b'?' s h refl len in
    let second = scan_word-all (b'?' ∷ s) (refl, g) (omega (arith, len')) in
    rw (scan_parts, first, second) refl

pub scan_parts-all : (p : List ℕ) → NoneOf is_mark p → length p ≤ 64 → scan_parts p ≡ (p, [])
unfolding scan_parts scan_word skip_spaces scan_while
scan_parts-all p h len =
    let first = scan_while-all 64 is_mark p h len in rw (scan_parts, first) refl

-- A back end by its name, as it follows the path.
abbrev pub IsNamed : ℕ → List ℕ → Type 0
IsNamed i b =
    (path_backend (text "?be:" ++ b) ≡ some (i + 1))
    × NoneOf is_space (text "be:" ++ b)
    × (0 < length b)

pub be_str-IsNamed : (i : ℕ) {b : List ℕ} → get_elem? be_str i ≡ some b → IsNamed i b
unfolding path_backend find_backend scan_after scan_literal scan_word skip_spaces scan_while
    same_text
be_str-IsNamed zero {b} e =
    let same : text "thrpool" ≡ b = cc in
    let word = NoneOf-of-none_of is_space (text "be:thrpool") refl in
    subst (IsNamed 0) same (refl, word, omega arith)
be_str-IsNamed (suc zero) {b} e =
    let same : text "libaio" ≡ b = cc in
    let word = NoneOf-of-none_of is_space (text "be:libaio") refl in
    subst (IsNamed 1) same (refl, word, omega arith)
be_str-IsNamed (suc (suc zero)) {b} e =
    let same : text "io_uring" ≡ b = cc in
    let word = NoneOf-of-none_of is_space (text "be:io_uring") refl in
    subst (IsNamed 2) same (refl, word, omega arith)
be_str-IsNamed (suc (suc (suc zero))) {b} e =
    let same : text "io_uring_cmd" ≡ b = cc in
    let word = NoneOf-of-none_of is_space (text "be:io_uring_cmd") refl in
    subst (IsNamed 3) same (refl, word, omega arith)
be_str-IsNamed (suc (suc (suc (suc i)))) e = absurd (cc)

pub char_at-append : (p s : List ℕ) (i : ℕ) → i < length p → char_at (p ++ s) i ≡ char_at p i
char_at-append p s i h =
    ap (λ (o : Option ℕ). elim o [ none ↦ 0 | some c ↦ c ]) (get_elem?-append_left p s i h)

int_value_fits : (n : ℕ) → n < 2 ^ 31 → int_value false n ≡ some (pos n)
unfolding int_value
int_value_fits n h = let fits = lt→ltb n (2 ^ 31) h in rw (int_value, fits) refl

read_digits_fits :
    (d : ℕ) (ds : List ℕ) (old : ℤ)
    → decimal 0 (d ∷ ds) < 2 ^ 31
    → read_digits false old (d ∷ ds) ≡ some (pos (decimal 0 (d ∷ ds)))
unfolding read_digits
read_digits_fits d ds old h = int_value_fits (decimal 0 (d ∷ ds)) h

pub scan_int_digits :
    (ds : List ℕ) (old : ℤ)
    → NoneOf not_digit ds
    → 0 < length ds
    → length ds ≤ 64
    → decimal 0 ds < 2 ^ 31
    → scan_int old ds ≡ some (pos (decimal 0 ds))
unfolding scan_int scan_digits
scan_int_digits [] old h some_digits len fits = absurd (omega (arith, some_digits))
scan_int_digits (d ∷ ds) old (digit, h) some_digits len fits =
    let minus : (d == b'-') ≡ false = ground (arith, digit) in
    let plus : (d == b'+') ≡ false = ground (arith, digit) in
    let all = scan_while-all 64 not_digit (d ∷ ds) (digit, h) len in
    rw (scan_int, minus, plus)
      (ap (λ (r : List ℕ × List ℕ). read_digits false old r.0) all ∙ read_digits_fits d ds old fits)
