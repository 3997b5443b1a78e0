-- ===== src/Admin/Response.antt =====
-- admin.rs: the answers of a call, and what it takes from other packages. A call returns early with
-- an answer, so a handler is an action on the tables whose error is an answer too.
use crosspaste_server.Auth.{trim}
use crosspaste_server.Prelude.{
  Bool, Exec, List, Option, Result, String, err, is_some_and, none, ok, ℕ,
}
use crosspaste_server.Prelude.Bytes.{as_bytes}
use crosspaste_server.Prelude.Chars.{from_codes}
use crosspaste_server.Prelude.Formats.{hex}
use crosspaste_server.Prelude.Text.{codes}

pub data Body (A : Type 0) : Type 0 where
  json : A → Body A
  message : String → Body A
  no_body : Body A

pub record Response (A : Type 0) : Type 0 where
  pub status : ℕ
  pub set_cookie : Option (List ℕ)
  pub body : Body A

module _ {A : Type 0} where
  unfoldable pub api_error : ℕ → String → Response A
  api_error status text = record { status = status; set_cookie = none; body = message text }

  -- `Json(value).into_response()` and `StatusCode::NO_CONTENT.into_response()`.
  abbrev pub json_response : A → Response A
  json_response value = record { status = 200; set_cookie = none; body = json value }

  abbrev pub no_content : Response A
  no_content = record { status = 204; set_cookie = none; body = no_body }

abbrev pub Handler : Type 0 → Type 0 → Type 0
Handler S A = Exec S (Response A) (Response A)

abbrev pub answered : {S A : Type 0} → Result (Response A) (Response A) × S → Response A × S
answered (ok response, s) = (response, s)
answered (err response, s) = (response, s)

-- The answer, early or not.
unfoldable pub respond : {S A : Type 0} → Handler S A → S → Response A × S
respond m s = answered (m s)

abbrev pub settled : {S A E : Type 0} → Result String (Option A) × S → Result E (Option A) × S
settled (ok found, s) = (ok found, s)
settled (err e, s) = (ok none, s)

-- `.ok().flatten()`
unfoldable pub flattened : {S A E : Type 0} → Exec S String (Option A) → Exec S E (Option A)
flattened m s = settled (m s)

abbrev pub ignored : {S A E : Type 0} → Result String A × S → Result E Unit × S
ignored (r, s) = (ok tt, s)

-- `let _ =`
unfoldable pub ignore : {S A E : Type 0} → Exec S String A → Exec S E Unit
ignore m s = ignored (m s)

abbrev pub as_response : {S A B : Type 0} → Result String A × S → Result (Response B) A × S
as_response (ok a, s) = (ok a, s)
as_response (err e, s) = (err (api_error 500 e), s)

-- An error answers with the status 500.
unfoldable pub or_internal : {S A B : Type 0} → Exec S String A → Exec S (Response B) A
or_internal m s = as_response (m s)

-- What is taken from the packages `argon2`, `sha2`, `hmac` with `sha1`, and `data_encoding`.
pub record Hashing : Type 0 where
  -- A text that is the hash of a password, as the package reads it.
  pub password_hash : String → Option String
  pub verify_with : (password : List ℕ) → (parsed : String) → Bool
  pub hash_with : (password salt : List ℕ) → Result String String
  pub sha256 : List ℕ → List ℕ
  pub hmac_sha1 : (key text : List ℕ) → List ℕ
  pub base32_decode : List ℕ → Option (List ℕ)
  pub base32_encode : List ℕ → List ℕ

module _ (t : Hashing) where
  unfoldable pub verify_password : String → String → Bool
  verify_password password hash =
      is_some_and (t.verify_with (as_bytes password)) (t.password_hash hash)

  -- `salt` is random.
  unfoldable pub hash_password : String → List ℕ → Result String String
  hash_password password salt = t.hash_with (as_bytes password) salt

-- Also `random_token`, whose bytes are random.
unfoldable pub token_hash : Hashing → List ℕ → String
unfolding hex
token_hash t token = from_codes (hex (t.sha256 token))

-- `str::trim` of a text.
unfoldable pub trimmed : String → String
trimmed text = from_codes (trim (codes text))
