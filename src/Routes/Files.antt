-- ===== src/Routes/Files.antt =====
-- routes.rs: a client pushes a file in chunks and pulls chunks and icons.
use crosspaste_server.Auth.{HeaderMap}
use crosspaste_server.Codec.{Json}
use crosspaste_server.Database.Logs.{number, parse_usize, unsigned}
use crosspaste_server.Hub.Contents.{read_file_chunk}
use crosspaste_server.Hub.Fetch.{PullFileRequest}
use crosspaste_server.Hub.Icons.{read_icon, store_icon}
use crosspaste_server.Hub.Push.{
  CompletedPush, PushCompleteResponse, complete_push, store_push_chunk,
}
use crosspaste_server.Hub.State.{Hub}
use crosspaste_server.Hub.Streams.{encrypt_stream_for_client}
use crosspaste_server.Prelude.{
  List, Option, Result, String, [], and_then, eqb, gets, if◌then◌else◌, leb, lift, ltb, map_err,
  none, ok, ok_or, pure, some, try, ℕ, ◌>>=◌, ◌>>◌, ◌^◌, ◌∷◌,
}
use crosspaste_server.Prelude.Int.{pos, ℤ, ◌-ℤ◌}
use crosspaste_server.Prelude.Text.{codes}
use crosspaste_server.Proxy.{HttpResponse}
use crosspaste_server.RelayError.{Error, bad_request, resource_not_found}
use crosspaste_server.Routes.Guards.{
  Handles, bad, body_of, client_of, failed, is_secure, maybe_decrypt_body, or_bad, reply_json,
  require_paired_client, required_header, secure_json_response,
}
use crosspaste_server.Secure.Messages.{Crypto}
use crosspaste_server.Tunnel.State.{AppState, on_hub}

-- `str::parse::<i64>`: digits after a sign or none, within the range.
unfoldable pub parse_i64 : List ℕ → Option ℤ
unfolding unsigned number
parse_i64 [] = none
parse_i64 (c ∷ cs) =
    if eqb c b'-'
    then and_then (λ n. if leb n (2 ^ 63) then some (pos 0 -ℤ pos n) else none) (number cs)
    else and_then (λ n. if ltb n (2 ^ 63) then some (pos n) else none) (unsigned (c ∷ cs))

abbrev invalid_number : Error
invalid_number = bad_request "invalid number"

abbrev pub paste_id_of : HeaderMap → Handles ℤ
paste_id_of headers = lift (
    try (required_header headers "X-Paste-Id")
      λ text. ok_or invalid_number (parse_i64 (codes text)))

abbrev pub chunk_index_of : HeaderMap → Handles ℕ
chunk_index_of headers =
    lift (
      try (required_header headers "X-Chunk-Index") λ text. ok_or invalid_number (parse_usize text))

abbrev pub octets : List ℕ → HttpResponse
octets bytes = record {
  status = 200;
  headers = ("content-type", codes "application/octet-stream") ∷ [];
  body = bytes;
}

module _ (c : Crypto) where
  unfoldable pub sync_file_push :
      Json String → HeaderMap → List ℕ → (iv : List ℕ) → Handles HttpResponse
  unfolding require_paired_client required_header parse_i64 parse_usize maybe_decrypt_body
      store_push_chunk secure_json_response
  sync_file_push j headers body iv = do
    id ← client_of headers
    paste_id ← paste_id_of headers
    chunk_index ← chunk_index_of headers
    token ← lift (required_header headers "X-Session-Token")
    plain ← body_of c headers id body
    on_hub (or_bad (store_push_chunk id paste_id chunk_index token plain))
    reply_json c j headers iv ""

  -- The answer with the push that is complete, which a task of its own hands on, also where the
  -- answer fails.
  unfoldable pub sync_push_complete :
      Json PushCompleteResponse
      → HeaderMap
      → (iv : List ℕ) → Handles (Result Error HttpResponse × Option CompletedPush)
  unfolding require_paired_client required_header parse_i64 complete_push secure_json_response
  sync_push_complete j headers iv = do
    id ← client_of headers
    paste_id ← paste_id_of headers
    token ← lift (required_header headers "X-Session-Token")
    outcome ← on_hub (or_bad (complete_push id paste_id token))
    gets (λ s. (secure_json_response c j headers iv outcome.0 s, outcome.1))

  abbrev sealed_stream :
      HeaderMap → String → (ℕ → List ℕ) → List ℕ → AppState → Result Error (List ℕ)
  sealed_stream headers id ivs bytes s =
      let encrypted = failed (encrypt_stream_for_client c id ivs bytes s.hub) in
      if is_secure headers then encrypted else ok bytes

  unfoldable pub pull_file :
      Json PullFileRequest → HeaderMap → List ℕ → (ivs : ℕ → List ℕ) → Handles HttpResponse
  unfolding require_paired_client maybe_decrypt_body read_file_chunk encrypt_stream_for_client
  pull_file j headers body ivs = do
    id ← client_of headers
    plain ← body_of c headers id body
    request ← lift (bad (j.from_slice plain))
    bytes ← on_hub (or_bad (read_file_chunk request.id request.chunk_index))
    out ← (λ s. (sealed_stream headers id ivs bytes s, s))
    pure (octets out)

  unfoldable pub sync_icon_push :
      Json String → String → HeaderMap → List ℕ → (iv : List ℕ) → Handles HttpResponse
  unfolding require_paired_client maybe_decrypt_body store_icon secure_json_response
  sync_icon_push j source headers body iv = do
    id ← client_of headers
    plain ← body_of c headers id body
    on_hub (or_bad (store_icon c source plain))
    reply_json c j headers iv ""

  abbrev or_missing : {A : Type 0} → String → Result String A × Hub → Result Error A × Hub
  or_missing source (r, h) = (map_err (λ e. resource_not_found source) r, h)

  -- Without a check of who asks.
  unfoldable pub pull_icon : String → Handles HttpResponse
  unfolding read_icon
  pull_icon source = do
    bytes ← on_hub (λ h. or_missing source (read_icon c source h))
    pure (octets bytes)
