-- ===== src/Proxy.antt =====
-- proxy.rs: an HTTP request goes through the tunnel of a device, and its answer comes back. The
-- package `http` says which texts are names and values of headers, and which numbers are statuses.
pub mod Headers
pub mod Forward
mod Tests
use crosspaste_server.Auth.{HeaderMap, to_str}
use crosspaste_server.Codec.{Base64}
use crosspaste_server.Prelude.{
  Bool, Exec, List, Option, Result, String, [], and_then, any, err, if◌then◌else◌, is_empty,
  is_some_and, lift, map_err, nat_Comparable, none, not, ok, ok_or, pair_Comparable, some,
  string_Comparable, try, unwrap_or, ℕ, ◌==◌, ◌>>=◌, ◌>>◌, ◌∷◌, ◌≡◌,
}
use crosspaste_server.Prelude.Chars.{append, from_codes}
use crosspaste_server.Prelude.Int.{int_Comparable, ℤ}
use crosspaste_server.Prelude.Map.{Map, contains_key, insert, lookup}
use crosspaste_server.Prelude.Text.{
  codes, codes_Comparable, eq_ignore_ascii_case, to_ascii_lowercase,
}
use crosspaste_server.Protocol.{TunnelFrame, error, header_target_app_instance_id, http_response}
use crosspaste_server.Registry.Requests.{Awaited, Call, Outgoing, proxy_finish, proxy_send}
use crosspaste_server.Registry.State.{Registry}
use crosspaste_server.RelayError.{Error, bad_request, internal, missing_app_instance_id}

-- `HeaderName::from_bytes`, `HeaderValue::from_str` and `StatusCode::from_u16`.
pub record HttpRules : Type 0 where
  pub header_name : List ℕ → Option String
  pub header_value : String → Option (List ℕ)
  pub status_code : ℕ → Option ℕ

-- The name of a header is kept in lower case.
pub record HttpLaws (rules : HttpRules) : Type 0 where
  pub header_name_lowercase :
      (key : List ℕ) (name : String)
      → rules.header_name key ≡ some name
      → codes name ≡ to_ascii_lowercase key

-- `read_body` gives the body if it is no longer than the limit, or the message of an error.
pub record Request : Type 0 where
  pub method : String
  pub path : String
  pub query : Option String
  pub headers : HeaderMap
  pub read_body : ℕ → Result String (List ℕ)

pub record HttpResponse : Type 0 where
  pub status : ℕ
  pub headers : Map String (List ℕ)
  pub body : List ℕ

abbrev pub hop_by_hop : List String
hop_by_hop =
    "connection" ∷ "keep-alive" ∷ "proxy-authenticate" ∷ "proxy-authorization" ∷ "te" ∷ "trailers"
    ∷ "transfer-encoding" ∷ "upgrade" ∷ "host" ∷ "content-length" ∷ []

unfoldable pub is_hop_by_hop : String → Bool
unfolding eq_ignore_ascii_case
is_hop_by_hop key = any (λ h. eq_ignore_ascii_case (codes h) (codes key)) hop_by_hop

abbrev pub insert_text : String → Option (List ℕ) → Map String String → Map String String
insert_text key none out = out
insert_text key (some text) out = insert key (from_codes text) out

-- From the first header to the last: a later value replaces an earlier one.
unfoldable pub copy_headers : HeaderMap → Map String String → Map String String
copy_headers [] out = out
copy_headers ((key, value) ∷ rest) out =
    copy_headers rest (if is_hop_by_hop key then out else insert_text key (to_str value) out)

unfoldable pub header_map_to_plain : HeaderMap → Map String String
unfolding copy_headers
header_map_to_plain headers = copy_headers headers []

-- `entry(..).or_insert_with(..)`
unfoldable pub with_target : String → Map String String → Map String String
with_target target headers =
    if contains_key header_target_app_instance_id headers
    then headers
    else insert header_target_app_instance_id target headers

abbrev pub path_and_query : String → Option String → String
path_and_query path none = path
path_and_query path (some query) = append path (append "?" query)

module _ (rules : HttpRules) where
  abbrev pub insert_valid :
      Option String → Option (List ℕ) → Map String (List ℕ) → Map String (List ℕ)
  insert_valid (some name) (some value) out = insert name value out
  insert_valid _ _ out = out

  -- A name that is no ASCII is none of a header, so its characters stand for its bytes.
  unfoldable pub response_headers : Map String String → Map String (List ℕ) → Map String (List ℕ)
  response_headers [] out = out
  response_headers ((key, value) ∷ rest) out = response_headers rest (
      if is_hop_by_hop key
      then out
      else insert_valid (rules.header_name (codes key)) (rules.header_value value) out)

module _ (b : Base64) where
  abbrev pub body_b64_of : List ℕ → Option String
  body_b64_of body = if is_empty body then none else some (b.encode body)

  abbrev pub outgoing : String → Request → List ℕ → Outgoing
  outgoing target req body = record {
    method = req.method;
    path = path_and_query req.path req.query;
    headers = with_target target (header_map_to_plain req.headers);
    body_b64 = body_b64_of body;
  }

  -- Up to the await; `request_id` is a new UUID, and `now` and `at` are the times that are read.
  unfoldable pub proxy_to_device :
      String
      → Request
      → (max_body_bytes : ℕ) → (request_id : String) → (now : ℤ) → (at : ℕ)
      → Exec Registry Error Call
  unfolding header_map_to_plain with_target proxy_send
  proxy_to_device target req max_body_bytes request_id now at = do
    body ← lift (map_err (λ e. bad_request (append "read body: " e)) (req.read_body max_body_bytes))
    proxy_send target (outgoing target req body) request_id now at

  abbrev pub decoded : Option String → Result Error (List ℕ)
  decoded none = ok []
  decoded (some text) = ok_or (internal "bad body b64") (b.decode text)

  -- The answer of the device as a response.
  unfoldable pub response_of : HttpRules → TunnelFrame → Result Error HttpResponse
  unfolding response_headers
  response_of rules (http_response id status headers body_b64 (some failure)) =
      err (internal failure)
  response_of rules (http_response id status headers body_b64 none) = try (decoded body_b64) λ body.
      ok (record {
        status = unwrap_or 502 (rules.status_code status);
        headers = response_headers rules headers [];
        body = body;
      })
  response_of rules (error text) = err (internal text)
  response_of rules _ = err (internal "unexpected tunnel frame")

  -- After the await.
  unfoldable pub proxy_answered : HttpRules → Call → Awaited → Exec Registry Error HttpResponse
  unfolding proxy_finish response_of
  proxy_answered rules call awaited = do
    frame ← proxy_finish call awaited
    lift (response_of rules frame)

-- The first value of a header that is text; the map has names in lower case.
unfoldable pub text_of : String → HeaderMap → Option String
text_of name headers =
    and_then (λ text. some (from_codes text)) (and_then to_str (lookup name headers))

-- The names of the protocol, as the map has them.
abbrev pub app_instance_id_name : String
app_instance_id_name = "appinstanceid"

abbrev pub target_name : String
target_name = "targetappinstanceid"

unfoldable pub resolve_target : HeaderMap → Option String → Result Error String
unfolding text_of
resolve_target headers path_target =
    if is_some_and (λ t. not (t == "")) path_target
    then ok (unwrap_or "" path_target)
    else ok_or (bad_request "missing targetAppInstanceId (header or path)")
        (text_of target_name headers)

unfoldable pub require_source_app_instance : HeaderMap → Result Error String
unfolding text_of
require_source_app_instance headers =
    ok_or missing_app_instance_id (text_of app_instance_id_name headers)
