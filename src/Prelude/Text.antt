-- ===== src/Prelude/Text.antt =====
-- Text as the program walks it: code points, trimming, prefixes.
use Prim.Native.Char.{code}
use Prim.Native.Nat.{ℕ}
use Prim.Native.String.{String}
use crosspaste_server.Prelude.{
  Comparable, Option, arith, eqb, eqb_iff, false, if◌then◌else◌, is_empty, leb, none, some, true,
  ◌+◌, ◌↔◌, ◌≡◌,
}
use mathlib.Core.Bool.{Bool, ◌&&◌, ◌||◌}
use mathlib.Core.List.{List, [], ◌∷◌}

abbrev pub codes : String → List ℕ
codes String.[] = []
codes (String.◌∷◌ c s) = code c ∷ codes s

-- `char::is_whitespace`: the code points with the property White_Space.
unfoldable pub is_whitespace : ℕ → Bool
is_whitespace c =
    (leb 9 c && leb c 13)
    || eqb c 32
    || eqb c 0x85
    || eqb c 0xa0
    || eqb c 0x1680
    || (leb 0x2000 c && leb c 0x200a)
    || eqb c 0x2028
    || eqb c 0x2029
    || eqb c 0x202f
    || eqb c 0x205f
    || eqb c 0x3000

unfoldable pub is_ascii_lowercase : ℕ → Bool
is_ascii_lowercase c = leb b'a' c && leb c b'z'

unfoldable pub is_ascii_uppercase : ℕ → Bool
is_ascii_uppercase c = leb b'A' c && leb c b'Z'

unfoldable pub is_ascii_digit : ℕ → Bool
is_ascii_digit c = leb b'0' c && leb c b'9'

unfoldable pub is_ascii_alphanumeric : ℕ → Bool
unfolding is_ascii_lowercase is_ascii_uppercase is_ascii_digit
is_ascii_alphanumeric c = is_ascii_lowercase c || is_ascii_uppercase c || is_ascii_digit c

unfoldable pub ascii_lowercase_of : ℕ → ℕ
unfolding is_ascii_uppercase
ascii_lowercase_of c = if is_ascii_uppercase c then c + 32 else c

-- `str::to_ascii_lowercase`
unfoldable pub to_ascii_lowercase : List ℕ → List ℕ
unfolding ascii_lowercase_of
to_ascii_lowercase [] = []
to_ascii_lowercase (c ∷ cs) = ascii_lowercase_of c ∷ to_ascii_lowercase cs

-- Equality of texts as code points.
abbrev pub same_codes : List ℕ → List ℕ → Bool
same_codes [] [] = true
same_codes (a ∷ xs) (b ∷ ys) = eqb a b && same_codes xs ys
same_codes _ _ = false

pub same_codes_iff : (a b : List ℕ) → (same_codes a b ≡ true) ↔ (a ≡ b)
same_codes_iff [] [] = ground arith
same_codes_iff [] (b ∷ ys) = ground arith
same_codes_iff (a ∷ xs) [] = ground arith
same_codes_iff (a ∷ xs) (b ∷ ys) = ground (arith, eqb_iff a b, same_codes_iff xs ys)

instance abbrev pub codes_Comparable : Comparable (List ℕ)
codes_Comparable = record { same = same_codes; same_iff = same_codes_iff }

-- `str::eq_ignore_ascii_case`
unfoldable pub eq_ignore_ascii_case : List ℕ → List ℕ → Bool
unfolding to_ascii_lowercase
eq_ignore_ascii_case a b = same_codes (to_ascii_lowercase a) (to_ascii_lowercase b)

unfoldable pub starts_with : List ℕ → List ℕ → Bool
starts_with [] text = true
starts_with (p ∷ ps) [] = false
starts_with (p ∷ ps) (c ∷ cs) = eqb p c && starts_with ps cs

-- `str::contains`
unfoldable pub contains : List ℕ → List ℕ → Bool
unfolding starts_with
contains part [] = is_empty part
contains part (c ∷ cs) = starts_with part (c ∷ cs) || contains part cs

abbrev joined_first : ℕ → List (List ℕ) → List (List ℕ)
joined_first c [] = (c ∷ []) ∷ []
joined_first c (part ∷ parts) = (c ∷ part) ∷ parts

-- `str::split` by a character: one part more than there are such characters.
unfoldable pub split : ℕ → List ℕ → List (List ℕ)
split sep [] = [] ∷ []
split sep (c ∷ cs) =
    let parts = split sep cs in if eqb c sep then [] ∷ parts else joined_first c parts

abbrev with_first : ℕ → Option (List ℕ × List ℕ) → Option (List ℕ × List ℕ)
with_first c none = none
with_first c (some (before, after)) = some (c ∷ before, after)

-- `str::split_once` by a character.
unfoldable pub split_once : ℕ → List ℕ → Option (List ℕ × List ℕ)
split_once sep [] = none
split_once sep (c ∷ cs) =
    let rest = split_once sep cs in if eqb c sep then some ([], cs) else with_first c rest
