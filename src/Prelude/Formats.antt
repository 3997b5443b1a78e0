-- ===== src/Prelude/Formats.antt =====
-- Bytes and numbers as text: hexadecimal digits, six decimal digits, and escapes in an address.
use crosspaste_server.Prelude.{
  Bool, List, [], eqb, if◌then◌else◌, ltb, ℕ, ◌%◌, ◌+◌, ◌-◌, ◌/◌, ◌||◌, ◌∷◌,
}
use crosspaste_server.Prelude.Bytes.{decimal}
use crosspaste_server.Prelude.Text.{is_ascii_alphanumeric}

abbrev hex_digit : ℕ → ℕ → ℕ
hex_digit ten n = if ltb n 10 then b'0' + n else ten + (n - 10)

-- `{:02x}` of each byte.
unfoldable pub hex : List ℕ → List ℕ
hex [] = []
hex (b ∷ bytes) = hex_digit b'a' (b / 16) ∷ hex_digit b'a' (b % 16) ∷ hex bytes

-- `{:06}` of a number: six decimal digits of it, or as many as it has.
unfoldable pub six_digits : ℕ → List ℕ
six_digits n =
    if ltb n 1_000_000
    then (b'0' + n / 100_000)
      ∷ (b'0' + (n / 10_000) % 10)
      ∷ (b'0' + (n / 1_000) % 10)
      ∷ (b'0' + (n / 100) % 10)
      ∷ (b'0' + (n / 10) % 10)
      ∷ (b'0' + n % 10)
      ∷ []
    else decimal n

-- A byte that needs no escape in an address.
unfoldable pub is_unreserved : ℕ → Bool
unfolding is_ascii_alphanumeric
is_unreserved b = is_ascii_alphanumeric b || eqb b b'-' || eqb b b'.' || eqb b b'_' || eqb b b'~'

unfoldable pub percent_encode : List ℕ → List ℕ
unfolding is_unreserved
percent_encode [] = []
percent_encode (b ∷ bytes) =
    let rest = percent_encode bytes in
    if is_unreserved b
    then b ∷ rest
    else b'%' ∷ hex_digit b'A' (b / 16) ∷ hex_digit b'A' (b % 16) ∷ rest
