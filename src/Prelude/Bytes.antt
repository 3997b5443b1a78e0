-- ===== src/Prelude/Bytes.antt =====
-- Bytes: big-endian words, the UTF-8 of a text, decimal numbers, the order of byte strings.
use Prim.Native.Char.{code}
use crosspaste_server.Prelude.{
  take-append-drop, length-drop, ◌∙◌, ◌≤◌, All, Bool, List, Option, String, [], ap, arith, eqb,
  false, if◌then◌else◌, length, ltb, none, refl, some, suc, take, drop, true, zero, ℕ, ◌%◌, ◌*◌,
  ◌++◌, ◌+◌, ◌/◌, ◌<◌, ◌^◌, ◌∷◌, ◌≡◌,
}
use crosspaste_server.Prelude.Int.{negsuc, pos, ℤ}

abbrev pub AreBytes : List ℕ → Type 0
AreBytes = All (λ b. b < 256)

-- `u32::to_be_bytes`
unfoldable pub to_be_bytes : ℕ → List ℕ
to_be_bytes n = (n / 2 ^ 24) ∷ ((n / 2 ^ 16) % 256) ∷ ((n / 2 ^ 8) % 256) ∷ (n % 256) ∷ []

-- `u32::from_be_bytes` of four bytes; of any other number of bytes there is no word.
unfoldable pub from_be_bytes : List ℕ → Option ℕ
from_be_bytes (a ∷ b ∷ c ∷ d ∷ []) = some (a * 2 ^ 24 + b * 2 ^ 16 + c * 2 ^ 8 + d)
from_be_bytes _ = none

pub from_be_bytes-to_be_bytes : (n : ℕ) → from_be_bytes (to_be_bytes n) ≡ some n
unfolding from_be_bytes to_be_bytes
from_be_bytes-to_be_bytes n = ap some (omega arith)

pub to_be_bytes-AreBytes : (n : ℕ) → n < 2 ^ 32 → AreBytes (to_be_bytes n)
unfolding to_be_bytes
to_be_bytes-AreBytes n h = omega arith

pub length-to_be_bytes : (n : ℕ) → length (to_be_bytes n) ≡ 4
unfolding to_be_bytes
length-to_be_bytes n = refl

-- The UTF-8 bytes of a code point.
unfoldable pub utf8_of : ℕ → List ℕ
utf8_of c =
    if ltb c 0x80
    then c ∷ []
    else if ltb c 0x800
    then (0xc0 + c / 64) ∷ (0x80 + c % 64) ∷ []
    else if ltb c 0x10000
    then (0xe0 + c / 4096) ∷ (0x80 + (c / 64) % 64) ∷ (0x80 + c % 64) ∷ []
    else (0xf0 + c / 2 ^ 18)
      ∷ (0x80 + (c / 4096) % 64)
      ∷ (0x80 + (c / 64) % 64)
      ∷ (0x80 + c % 64)
      ∷ []

-- `str::as_bytes`
unfoldable pub as_bytes : String → List ℕ
unfolding utf8_of
as_bytes String.[] = []
as_bytes (String.◌∷◌ c s) = utf8_of (code c) ++ as_bytes s

-- The decimal digits of a number of at most `fuel` digits, before `acc`.
unfoldable pub digits_onto : ℕ → ℕ → List ℕ → List ℕ
digits_onto zero n acc = acc
digits_onto (suc fuel) n acc =
    let rest = digits_onto fuel (n / 10) ((b'0' + n % 10) ∷ acc) in
    if ltb n 10 then (b'0' + n) ∷ acc else rest

-- `to_string` of an unsigned number of 64 bits, which has at most 20 digits.
unfoldable pub decimal : ℕ → List ℕ
unfolding digits_onto
decimal n = digits_onto 20 n []

-- `to_string` of an `i64`
unfoldable pub decimal_i64 : ℤ → List ℕ
unfolding decimal
decimal_i64 (pos n) = decimal n
decimal_i64 (negsuc n) = b'-' ∷ decimal (n + 1)

-- `slice::chunks` of a length above 0, with as many chunks as the fuel at most.
unfoldable pub chunks : ℕ → ℕ → List ℕ → List (List ℕ)
chunks zero size bytes = []
chunks (suc fuel) size [] = []
chunks (suc fuel) size (b ∷ bytes) =
    take size (b ∷ bytes) ∷ chunks fuel size (drop size (b ∷ bytes))

abbrev pub concat : List (List ℕ) → List ℕ
concat [] = []
concat (chunk ∷ rest) = chunk ++ concat rest

pub concat-chunks :
    (fuel size : ℕ) (bytes : List ℕ)
    → 0 < size
    → length bytes ≤ fuel
    → concat (chunks fuel size bytes) ≡ bytes
unfolding chunks
concat-chunks zero size [] h le = refl
concat-chunks zero size (b ∷ bytes) h le = absurd (omega arith)
concat-chunks (suc fuel) size [] h le = refl
concat-chunks (suc fuel) size (b ∷ bytes) h le =
    ap (λ rest. take size (b ∷ bytes) ++ rest)
      (concat-chunks fuel size (drop size (b ∷ bytes)) h
        (omega (arith, length-drop size (b ∷ bytes))))
    ∙ take-append-drop size (b ∷ bytes)

-- The order of slices: the first difference decides, and a prefix comes first.
unfoldable pub le_bytes : List ℕ → List ℕ → Bool
le_bytes [] ys = true
le_bytes (x ∷ xs) [] = false
le_bytes (x ∷ xs) (y ∷ ys) = let rest = le_bytes xs ys in if eqb x y then rest else ltb x y

pub le_bytes_total : (xs ys : List ℕ) → le_bytes xs ys ≡ false → le_bytes ys xs ≡ true
unfolding le_bytes
le_bytes_total [] ys h = cc
le_bytes_total (x ∷ xs) [] h = refl
le_bytes_total (x ∷ xs) (y ∷ ys) h = ground (arith, le_bytes_total xs ys)

pub le_bytes_antisymm : (xs ys : List ℕ) → le_bytes xs ys ≡ true → le_bytes ys xs ≡ true → xs ≡ ys
unfolding le_bytes
le_bytes_antisymm [] [] h k = refl
le_bytes_antisymm [] (y ∷ ys) h k = cc
le_bytes_antisymm (x ∷ xs) [] h k = cc
le_bytes_antisymm (x ∷ xs) (y ∷ ys) h k = ground (arith, le_bytes_antisymm xs ys)
