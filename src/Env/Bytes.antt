-- ===== src/Env/Bytes.antt =====
-- Integers and C strings as bytes in memory, for a little-endian machine: what the file metadata is made
-- of in env/env_zns.cc.
use x_ztl.Common.{
  ℕ, zero, suc, ◌+◌, ◌-◌, ◌*◌, ◌/◌, ◌%◌, ◌^◌, ◌<◌, ◌≡◌, ◌≢◌, refl, ap, true, false, ltb, ◌==◌,
  if◌then◌else◌, List, [], ◌∷◌, ◌++◌, Option, none, some, length, arith, ne→==,
}
use x_ztl.Common.Int.{ℤ, pos, negsuc}

-- The `k` bytes of a number, the lowest first, and the number that they stand for.
unfoldable pub le_bytes : ℕ → ℕ → List ℕ
le_bytes zero v = []
le_bytes (suc k) v = v % 256 ∷ le_bytes k (v / 256)

-- The first `k` bytes as a number, and the bytes after them; `none` is a read past the buffer.
unfoldable pub get_le : ℕ → List ℕ → Option (ℕ × List ℕ)
get_le zero bs = some (0, bs)
get_le (suc k) [] = none
get_le (suc k) (b ∷ bs) = elim (get_le k bs) [
  | none ↦ none
  | some (v, rest) ↦ some (b + 256 * v, rest)
]

-- `n` bytes, and the bytes after them.
unfoldable pub get_bytes : ℕ → List ℕ → Option (List ℕ × List ℕ)
get_bytes zero bs = some ([], bs)
get_bytes (suc n) [] = none
get_bytes (suc n) (b ∷ bs) = elim (get_bytes n bs) [
  | none ↦ none
  | some (front, rest) ↦ some (b ∷ front, rest)
]

-- A C string: the bytes before the first 0; `none` where the buffer ends first.
unfoldable pub c_str : List ℕ → Option (List ℕ)
c_str [] = none
c_str (b ∷ bs) = elim (b == 0) [
  | true ↦ some []
  | false ↦ elim (c_str bs) [ none ↦ none | some s ↦ some (b ∷ s) ]
]

-- `int8_t`
unfoldable pub int8_byte : ℤ → ℕ
int8_byte (pos n) = n % 256
int8_byte (negsuc n) = 255 - n % 256

unfoldable pub int8_value : ℕ → ℤ
int8_value b = if ltb b 128 then pos b else negsuc (255 - b)

-- A level that an `int8_t` holds.
abbrev pub FitsInt8 : ℤ → Type 0
FitsInt8 (pos n) = n < 128
FitsInt8 (negsuc n) = n < 128

pub int8_value-int8_byte : (l : ℤ) → FitsInt8 l → int8_value (int8_byte l) ≡ l
unfolding int8_value int8_byte
int8_value-int8_byte (pos n) h = ground (arith, h)
int8_value-int8_byte (negsuc n) h =
    let big : ltb (255 - n % 256) 128 ≡ false = ground (arith, h) in
    let back : 255 - (255 - n % 256) ≡ n = omega (arith, h) in rw (big, back) refl

-- `k` bytes read back, whatever follows them.
pub get_le-le_bytes :
    (k v : ℕ) (rest : List ℕ) → v < 256 ^ k → get_le k (le_bytes k v ++ rest) ≡ some (v, rest)
unfolding get_le le_bytes
get_le-le_bytes zero v rest h = ap (λ (t : ℕ). some (t, rest)) (omega (arith, h))
get_le-le_bytes (suc k) v rest h =
    let tail = get_le-le_bytes k (v / 256) rest (omega (arith, h)) in
    let sum : v % 256 + 256 * (v / 256) ≡ v = omega arith in rw (tail, sum) refl

pub get_le-one : (b : ℕ) (rest : List ℕ) → get_le 1 (b ∷ rest) ≡ some (b, rest)
unfolding get_le
get_le-one b rest = ap (λ (t : ℕ). some (t, rest)) (omega arith)

pub length-le_bytes : (k v : ℕ) → length (le_bytes k v) ≡ k
unfolding le_bytes
length-le_bytes zero v = refl
length-le_bytes (suc k) v = ap suc (length-le_bytes k (v / 256))

pub get_bytes-append :
    (n : ℕ) (xs rest : List ℕ) → length xs ≡ n → get_bytes n (xs ++ rest) ≡ some (xs, rest)
unfolding get_bytes
get_bytes-append zero [] rest h = refl
get_bytes-append zero (x ∷ xs) rest h = absurd (omega arith)
get_bytes-append (suc n) [] rest h = absurd (omega arith)
get_bytes-append (suc n) (x ∷ xs) rest h = rw (get_bytes-append n xs rest (omega arith)) refl

-- A name without a 0.
abbrev pub IsCString : List ℕ → Type 0
IsCString [] = Unit
IsCString (b ∷ bs) = (b ≢ 0) × IsCString bs

-- It reads back from a buffer that has a 0 after it.
pub c_str-append : (s rest : List ℕ) → IsCString s → c_str (s ++ (0 ∷ rest)) ≡ some s
unfolding c_str
c_str-append [] rest h = refl
c_str-append (b ∷ bs) rest (h, hs) = rw (c_str, ne→== b 0 h, c_str-append bs rest hs) refl
