-- ===== src/Prelude/Chars.antt =====
-- Text made of code points.
use Prim.Native.Char.{Char, char, nul}
use Prim.Native.Nat.{Ordering, compare}
use crosspaste_server.Prelude.{List, String, [], refl, ℕ, ◌∷◌, ◌≡◌}

abbrev scalar :
    (n : ℕ) (o p q : Ordering)
    → compare n 55296 ≡ o
    → compare 57343 n ≡ p
    → compare n 1114112 ≡ q
    → Char
scalar n Ordering.lt p q e f g = char n (rw e tt)
scalar n Ordering.eq Ordering.lt Ordering.lt e f g = char n (rw (e, f, g) tt)
scalar n Ordering.gt Ordering.lt Ordering.lt e f g = char n (rw (e, f, g) tt)
scalar n o p q e f g = nul

-- The character of a code point; U+0000 of a number that is none.
unfoldable pub char_of : ℕ → Char
char_of n = scalar n (compare n 55296) (compare 57343 n) (compare n 1114112) refl refl refl

unfoldable pub from_codes : List ℕ → String
unfolding char_of
from_codes [] = String.[]
from_codes (c ∷ cs) = String.◌∷◌ (char_of c) (from_codes cs)

-- `format!` of texts: one after the other.
abbrev pub append : String → String → String
append String.[] t = t
append (String.◌∷◌ c s) t = String.◌∷◌ c (append s t)
