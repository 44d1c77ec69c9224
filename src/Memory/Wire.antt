-- ===== src/Memory/Wire.antt =====
-- The binary records of src/core/fpsan_memory.h as bytes: little-endian words, and reads of whole records.
use engram_core.Prelude.{
  ℕ, zero, suc, ◌+◌, ◌-◌, ◌*◌, ◌/◌, ◌%◌, ◌^◌, ◌<◌, ◌≡◌, refl, ap, List, [], ◌∷◌, ◌++◌, false,
  Option, none, some, ltb, if◌then◌else◌, ℤ, pos, negsuc, length, take, drop, All, arith, map,
  length-append,
}
use engram_core.Prelude.Float.{Float}

abbrev pub Bytes : Type 0
Bytes = List ℕ

unfoldable pub u32 : ℕ → Bytes
u32 n = n % 256 ∷ n / 256 % 256 ∷ n / 65536 % 256 ∷ n / 16777216 % 256 ∷ []

unfoldable pub get_u32 : Bytes → ℕ
get_u32 (a ∷ b ∷ c ∷ d ∷ rest) = a + 256 * b + 65536 * c + 16777216 * d
get_u32 _ = 0

pub get_u32-u32 : (n : ℕ) (rest : Bytes) → n < 2 ^ 32 → get_u32 (u32 n ++ rest) ≡ n
unfolding get_u32 u32
get_u32-u32 n rest h = omega arith

-- The bit pattern of an `int32_t`, and the number that it stands for.
abbrev pub word_of : ℤ → ℕ
word_of (pos n) = n
word_of (negsuc n) = 2 ^ 32 - 1 - n

abbrev pub int_of : ℕ → ℤ
int_of w = if ltb w (2 ^ 31) then pos w else negsuc (2 ^ 32 - 1 - w)

abbrev pub IsInt : ℤ → Type 0
IsInt (pos n) = n < 2 ^ 31
IsInt (negsuc n) = n < 2 ^ 31

pub word_of-lt : (z : ℤ) → IsInt z → word_of z < 2 ^ 32
word_of-lt (pos n) h = omega arith
word_of-lt (negsuc n) h = omega arith

pub int_of-word_of : (z : ℤ) → IsInt z → int_of (word_of z) ≡ z
int_of-word_of (pos n) h = ground arith
int_of-word_of (negsuc n) h = ground arith

-- A count as the loops `for (e = 0; e < count; e++)` take it.
abbrev pub count_of : ℤ → ℕ
count_of (pos n) = n
count_of (negsuc n) = 0

-- The byte of an `int8_t`, and back.
abbrev pub byte_of : ℤ → ℕ
byte_of (pos n) = n
byte_of (negsuc n) = 255 - n

abbrev pub int8_of : ℕ → ℤ
int8_of b = if ltb b 128 then pos b else negsuc (255 - b)

abbrev pub IsInt8 : ℤ → Type 0
IsInt8 (pos n) = n < 128
IsInt8 (negsuc n) = n < 128

pub map-int8_of-byte_of : (zs : List ℤ) → All IsInt8 zs → map int8_of (map byte_of zs) ≡ zs
map-int8_of-byte_of [] h = refl
map-int8_of-byte_of (z ∷ zs) h = rw (one z h.0) (ap (◌∷◌ z) (map-int8_of-byte_of zs h.1))
  where
    one : (k : ℤ) → IsInt8 k → int8_of (byte_of k) ≡ k
    one (pos n) q = ground arith
    one (negsuc n) q = ground arith

-- The first byte.
abbrev pub head_byte : Bytes → ℕ
head_byte [] = 0
head_byte (b ∷ bs) = b

-- A C string: the bytes before the terminator.
abbrev pub until_zero : Bytes → Bytes
until_zero [] = []
until_zero (zero ∷ bs) = []
until_zero (suc b ∷ bs) = suc b ∷ until_zero bs

abbrev pub zeros : ℕ → Bytes
zeros zero = []
zeros (suc n) = 0 ∷ zeros n

abbrev pub NoZero : Bytes → Type 0
NoZero = All (λ b. 0 < b)

pub length-zeros : (n : ℕ) → length (zeros n) ≡ n
length-zeros zero = refl
length-zeros (suc n) = ap suc (length-zeros n)

pub until_zero-append : (t rest : Bytes) → NoZero t → until_zero (t ++ (0 ∷ rest)) ≡ t
until_zero-append [] rest h = refl
until_zero-append (zero ∷ t) rest h = absurd (omega arith)
until_zero-append (suc b ∷ t) rest h = ap (◌∷◌ (suc b)) (until_zero-append t rest h.1)

-- `fread` of one record of `size` bytes: the record, and what is left of the file.
unfoldable pub fread : ℕ → Bytes → Option (Bytes × Bytes)
fread size file = if ltb (length file) size then none else some (take size file, drop size file)

pub take_exact : (n : ℕ) (xs ys : Bytes) → length xs ≡ n → take n (xs ++ ys) ≡ xs
take_exact zero [] ys h = refl
take_exact zero (x ∷ xs) ys h = absurd (omega arith)
take_exact (suc n) [] ys h = absurd (omega arith)
take_exact (suc n) (x ∷ xs) ys h = ap (◌∷◌ x) (take_exact n xs ys (omega arith))

pub drop_exact : (n : ℕ) (xs ys : Bytes) → length xs ≡ n → drop n (xs ++ ys) ≡ ys
drop_exact zero [] ys h = refl
drop_exact zero (x ∷ xs) ys h = absurd (omega arith)
drop_exact (suc n) [] ys h = absurd (omega arith)
drop_exact (suc n) (x ∷ xs) ys h = drop_exact n xs ys (omega arith)

pub fread-append :
    (size : ℕ) (item file : Bytes)
    → length item ≡ size
    → fread size (item ++ file) ≡ some (item, file)
unfolding fread
fread-append size item file h =
    let long : ltb (length (item ++ file)) size ≡ false = ground (arith, length-append item file) in
    rw (long, take_exact size item file h, drop_exact size item file h)

-- The memory image of a `float`, for the values that a `float` holds.
pub record FloatImage (F : Float) : Type 1 where
  pub Single : F.Carrier → Type 0
  pub bits : F.Carrier → ℕ
  pub from_bits : ℕ → F.Carrier
  pub bits_in_word : (x : F.Carrier) → Single x → bits x < 2 ^ 32
  pub bits_back : (x : F.Carrier) → Single x → from_bits (bits x) ≡ x

module _ {F : Float} (img : FloatImage F) where
  unfoldable pub words : List F.Carrier → Bytes
  words [] = []
  words (x ∷ xs) = u32 (img.bits x) ++ words xs

  unfoldable pub get_words : ℕ → Bytes → List F.Carrier
  get_words zero bytes = []
  get_words (suc n) bytes = img.from_bits (get_u32 bytes) ∷ get_words n (drop 4 bytes)

  pub length-words : (xs : List F.Carrier) → length (words xs) ≡ 4 * length xs
  unfolding words u32
  length-words [] = omega arith
  length-words (x ∷ xs) = omega (arith, length-words xs)

  pub get_words-words :
      (xs : List F.Carrier) (rest : Bytes)
      → All img.Single xs
      → get_words (length xs) (words xs ++ rest) ≡ xs
  unfolding words get_words get_u32 u32
  get_words-words [] rest v = refl
  get_words-words (x ∷ xs) rest v =
      rw (get_u32-u32 (img.bits x) (words xs ++ rest) (img.bits_in_word x v.0), img.bits_back x v.0)
        (ap (◌∷◌ x) (get_words-words xs rest v.1))
