-- ===== src/Routes/Guards.antt =====
-- routes.rs: what the handlers check first, and how they answer.
use crosspaste_server.Auth.{HeaderMap}
use crosspaste_server.Codec.{Json}
use crosspaste_server.Codec.Value.{Value, as_i64, as_u64, get}
use crosspaste_server.Database.Clients.{stored}
use crosspaste_server.Database.Logs.{parse_usize}
use crosspaste_server.Database.Settings.{settings}
use crosspaste_server.Hub.State.{is_paired}
use crosspaste_server.Hub.Streams.{decrypt_from_client, encrypt_for_client}
use crosspaste_server.Prelude.{
  Bool, Exec, List, Option, Result, String, [], and_then, err, false, if◌then◌else◌, is_none_or,
  is_some_and, leb, lift, map_err, nat_Comparable, none, not, ok, ok_or, pair_Comparable, some,
  string_Comparable, try, unwrap_or, ℕ, ◌%◌, ◌*◌, ◌==◌, ◌>>=◌, ◌^◌, ◌||◌, ◌∷◌,
}
use crosspaste_server.Prelude.Chars.{append, from_codes}
use crosspaste_server.Prelude.Int.{int_Comparable, pos, ℤ}
use crosspaste_server.Prelude.Map.{Map, contains_key, lookup}
use crosspaste_server.Prelude.Text.{codes, codes_Comparable, to_ascii_lowercase}
use crosspaste_server.Proxy.{HttpResponse, app_instance_id_name, target_name, text_of}
use crosspaste_server.RelayError.{
  Error, app_instance_mismatch, bad_request, decrypt_fail, internal, missing_app_instance_id,
}
use crosspaste_server.Secure.Messages.{Crypto}
use crosspaste_server.Tunnel.State.{AppState, on_state_database}

abbrev pub Handles : Type 0 → Type 0
Handles = Exec AppState Error

abbrev pub secure_name : String
secure_name = "secure"

abbrev pub bad : {A : Type 0} → Result String A → Result Error A
bad = map_err bad_request

abbrev pub failed : {A : Type 0} → Result String A → Result Error A
failed = map_err internal

abbrev bad_result : {S A : Type 0} → Result String A × S → Result Error A × S
bad_result (r, s) = (bad r, s)

abbrev failed_result : {S A : Type 0} → Result String A × S → Result Error A × S
failed_result (r, s) = (failed r, s)

-- `.map_err(|e| RelayError::BadRequest(e.to_string()))`, and the same with `Internal`.
abbrev pub or_bad : {S A : Type 0} → Exec S String A → Exec S Error A
or_bad m s = bad_result (m s)

abbrev pub or_failed : {S A : Type 0} → Exec S String A → Exec S Error A
or_failed m s = failed_result (m s)

unfoldable pub header_text : HeaderMap → String → String
unfolding text_of
header_text headers name = unwrap_or "-" (text_of name headers)

-- The map has the names in lower case; the error has the name that is asked for.
unfoldable pub required_header : HeaderMap → String → Result Error String
unfolding text_of to_ascii_lowercase
required_header headers name =
    ok_or (bad_request (append "missing " (append name " header")))
      (text_of (from_codes (to_ascii_lowercase (codes name))) headers)

abbrev pub is_secure : HeaderMap → Bool
is_secure headers = contains_key secure_name headers

-- The request is for this server, from a client that is paired.
unfoldable pub require_paired_client : HeaderMap → AppState → Result Error String
unfolding text_of is_paired
require_paired_client headers s =
    try (ok_or missing_app_instance_id (text_of app_instance_id_name headers)) λ id.
      try (ok_or app_instance_mismatch (text_of target_name headers)) λ target.
        if not (target == s.config.server_instance_id)
        then err app_instance_mismatch
        else if not (is_paired id s.hub)
        then err decrypt_fail
        else ok id

abbrev pub client_of : HeaderMap → Handles String
client_of headers s = (require_paired_client headers s, s)

module _ (c : Crypto) where
  unfoldable pub maybe_decrypt_body : HeaderMap → String → List ℕ → AppState → Result Error (List ℕ)
  unfolding decrypt_from_client
  maybe_decrypt_body headers id body s =
      if is_secure headers
      then map_err (λ e. decrypt_fail) (decrypt_from_client c id body s.hub)
      else ok body

  abbrev pub body_of : HeaderMap → String → List ℕ → Handles (List ℕ)
  body_of headers id body s = (maybe_decrypt_body headers id body s, s)

  -- The body of an answer, encrypted for the client that asks, if the request was.
  unfoldable pub sealed : HeaderMap → List ℕ → List ℕ → AppState → Result Error (List ℕ)
  unfolding text_of encrypt_for_client
  sealed headers iv plain s =
      let for_client =
        try (ok_or missing_app_instance_id (text_of app_instance_id_name headers))
          (λ id. bad (encrypt_for_client c id iv plain s.hub)) in
      if is_secure headers then for_client else ok plain

  -- `iv` is the random vector, where the answer is encrypted.
  unfoldable pub secure_json_response :
      {A : Type 0} → Json A → HeaderMap → List ℕ → A → AppState → Result Error HttpResponse
  unfolding sealed
  secure_json_response j headers iv value s = try (failed (j.to_vec value)) λ plain.
      try (sealed headers iv plain s) λ body. ok (record {
        status = 200;
        headers = ("content-type", codes "application/json") ∷ [];
        body = body;
      })

  abbrev pub reply_json : {A : Type 0} → Json A → HeaderMap → List ℕ → A → Handles HttpResponse
  reply_json j headers iv value s = (secure_json_response j headers iv value s, s)

abbrev pub setting_is : String → String → Map String String → Bool
setting_is key value settings = is_some_and (λ v. v == value) (lookup key settings)

-- The setting for a type of paste.
unfoldable pub type_setting : Option ℤ → Option String
type_setting none = none
type_setting (some t) =
    if t == pos 0
    then some "sync_text"
    else if t == pos 1
    then some "sync_url"
    else if t == pos 2
    then some "sync_html"
    else if t == pos 3
    then some "sync_file"
    else if t == pos 4
    then some "sync_image"
    else if t == pos 5
    then some "sync_rtf"
    else if t == pos 6
    then some "sync_color"
    else none

abbrev pub paste_type_of : Value → Option ℤ
paste_type_of paste = and_then as_i64 (get "pasteType" paste)

abbrev pub is_file_type : Option ℤ → Bool
is_file_type (some t) = (t == pos 3) || (t == pos 4)
is_file_type none = false

abbrev limit_mb : Map String String → ℕ
limit_mb settings = unwrap_or 512 (and_then parse_usize (lookup "max_file_size_mb" settings))

abbrev size_of : Value → ℕ
size_of paste = unwrap_or 0 (and_then as_u64 (get "size" paste))

unfoldable pub within_limit : Map String String → Value → Bool
unfolding parse_usize
within_limit settings paste =
    not (is_file_type (paste_type_of paste))
    || not (is_none_or (λ value. value == "true") (lookup "limit_file_size" settings))
    || leb (size_of paste) ((limit_mb settings * 1024 * 1024) % 2 ^ 64)

unfoldable pub check_settings : Map String String → Value → Result Error Unit
unfolding type_setting within_limit
check_settings settings paste =
    if setting_is "clipboard_relay" "false" settings
    then err (bad_request "clipboard relay is disabled")
    else try (ok_or (bad_request "unknown paste type") (type_setting (paste_type_of paste)))
        λ setting.
          if setting_is setting "false" settings
          then err (bad_request (append setting " is disabled"))
          else if within_limit settings paste
          then ok tt
          else err (bad_request "file exceeds the configured limit")

unfoldable pub enforce_sync_settings : Value → Handles Unit
unfolding settings check_settings
enforce_sync_settings paste = do
  stored ← on_state_database (or_failed settings)
  lift (check_settings stored paste)
