-- ===== src/Auth.antt =====
-- auth.rs: the token that a request has to give. What is read of `axum::http::HeaderMap` are the
-- first values of two headers, as bytes under lower-case names.
pub mod Bearer
mod Tests
use crosspaste_server.Config.{Config, auth_required}
use crosspaste_server.Prelude.{
  Bool, List, Option, String, [], all, and_then, eqb, err, false, if◌then◌else◌, is_empty,
  is_some_and, leb, ltb, nat_Comparable, none, not, ok, or_else, pair_Comparable, some,
  string_Comparable, true, unwrap_or, ℕ, ◌&&◌, ◌==◌, ◌||◌, ◌∷◌,
}
use crosspaste_server.Prelude.Int.{int_Comparable}
use crosspaste_server.Prelude.Map.{lookup}
use crosspaste_server.Prelude.Text.{codes, is_whitespace}
use crosspaste_server.Protocol.{header_auth}
use crosspaste_server.RelayError.{RelayResult, unauthorized}

abbrev pub HeaderMap : Type 0
HeaderMap = List (String × List ℕ)

unfoldable pub is_visible : ℕ → Bool
is_visible b = (leb 32 b && ltb b 127) || eqb b 9

-- `HeaderValue::to_str`: only visible ASCII is text.
unfoldable pub to_str : List ℕ → Option (List ℕ)
to_str value = if all is_visible value then some value else none

unfoldable pub trim_start : List ℕ → List ℕ
trim_start [] = []
trim_start (c ∷ cs) = let rest = trim_start cs in if is_whitespace c then rest else c ∷ cs

-- The text up to the last character that is no space.
unfoldable pub trim_end : List ℕ → List ℕ
trim_end [] = []
trim_end (c ∷ cs) =
    let rest = trim_end cs in if is_whitespace c && is_empty rest then [] else c ∷ rest

-- `str::trim`
unfoldable pub trim : List ℕ → List ℕ
trim text = trim_end (trim_start text)

unfoldable pub strip_prefix : List ℕ → List ℕ → Option (List ℕ)
strip_prefix [] text = some text
strip_prefix (p ∷ ps) [] = none
strip_prefix (p ∷ ps) (c ∷ cs) = let rest = strip_prefix ps cs in if eqb p c then rest else none

abbrev pub bearer : List ℕ
bearer = codes "Bearer "

-- The token of a value: what comes after the scheme, without the spaces around, or else all of it.
unfoldable pub token_of : List ℕ → List ℕ
unfolding trim strip_prefix
token_of text = unwrap_or text (strip_prefix bearer (trim text))

abbrev pub with_token : Option (List ℕ) → Option (List ℕ)
with_token none = none
with_token (some value) = and_then (λ text. some (token_of text)) (to_str value)

unfoldable pub provided : HeaderMap → Option (List ℕ)
provided headers =
    with_token (or_else (lookup header_auth headers) (lookup "authorization" headers))

abbrev pub same_text : List ℕ → List ℕ → Bool
same_text [] [] = true
same_text (a ∷ xs) (b ∷ ys) = eqb a b && same_text xs ys
same_text _ _ = false

unfoldable pub check_auth : Config → HeaderMap → RelayResult Unit
unfolding provided
check_auth config headers =
    if not (auth_required config)
    then ok tt
    else if is_some_and (λ token. same_text token (codes config.auth_token)) (provided headers)
    then ok tt
    else err unauthorized

unfoldable pub check_auth_query : Config → Option String → RelayResult Unit
check_auth_query config token =
    if not (auth_required config)
    then ok tt
    else if is_some_and (λ t. t == config.auth_token) token
    then ok tt
    else err unauthorized
