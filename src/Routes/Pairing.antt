-- ===== src/Routes/Pairing.antt =====
-- routes.rs: clients pair, and say that they are there.
use crosspaste_server.Auth.{HeaderMap}
use crosspaste_server.Codec.{Json, JsonText}
use crosspaste_server.Hub.Contents.{update_client_sync_info}
use crosspaste_server.Hub.Pairing.{
  confirm_trust_v2, exchange_keys_v2, issue_pairing_token_for, set_pairing_token, touch_client,
  trust_v1,
}
use crosspaste_server.Hub.State.{paired_count}
use crosspaste_server.Prelude.{
  Bool, List, Option, Result, String, [], gets, lift, ok_or, pure, some, true, unwrap_or, ℕ, ◌%◌,
  ◌++◌, ◌>>=◌, ◌>>◌, ◌∷◌,
}
use crosspaste_server.Prelude.Bytes.{decimal}
use crosspaste_server.Prelude.Formats.{six_digits}
use crosspaste_server.Prelude.Int.{ℤ}
use crosspaste_server.Prelude.Text.{codes}
use crosspaste_server.Protocol.{header_app_instance_id, header_sync_info, sync_api_version}
use crosspaste_server.Proxy.{HttpResponse, app_instance_id_name, text_of}
use crosspaste_server.Registry.Devices.{online_count, room_count}
use crosspaste_server.Registry.Rooms.{gc_rooms}
use crosspaste_server.RelayError.{Error, missing_app_instance_id}
use crosspaste_server.Routes.Guards.{
  Handles, bad, body_of, client_of, failed, maybe_decrypt_body, or_bad, reply_json,
  require_paired_client, secure_json_response,
}
use crosspaste_server.Secure.Messages.{
  Crypto, KeyExchangeRequest, KeyExchangeResponse, TrustConfirmRequest, TrustConfirmResponse,
  TrustRequest, TrustResponse,
}
use crosspaste_server.SyncInfo.Hosts.{Environment, build_server_sync_info}
use crosspaste_server.SyncInfo.Info.{SyncInfo}
use crosspaste_server.SyncInfo.Qr.{decode_qr_payload, encode_qr_payload}
use crosspaste_server.SyncInfo.Records.{encode_sync_info_header}
use crosspaste_server.Tunnel.State.{modify_hub, modify_registry, on_hub}

pub record PairingQrResponse : Type 0 where
  pub token : ℕ
  pub payload : String
  pub png_path : List ℕ
  pub sync_info : SyncInfo

pub record DecodeQrResponse : Type 0 where
  pub token : ℕ
  pub sync_info : SyncInfo

pub record HealthResponse : Type 0 where
  pub is_ok : Bool
  pub service : String
  pub version : String
  pub api_version : ℕ
  pub online_devices : ℕ
  pub paired_clients : ℕ
  pub rooms : ℕ

-- Nanoseconds within the second, as a token of six digits.
unfoldable pub generate_token : ℕ → ℕ
generate_token nanos = nanos % 1_000_000

unfoldable pub health : String → (now : ℕ) → Handles HealthResponse
unfolding gc_rooms paired_count
health version now = do
  modify_registry (gc_rooms now)
  gets (λ s. record {
    is_ok = true;
    service = "crosspaste-server";
    version = version;
    api_version = sync_api_version;
    online_devices = online_count s.registry;
    paired_clients = paired_count s.hub;
    rooms = room_count s.registry;
  })

abbrev app_id : HeaderMap → Result Error String
app_id headers = ok_or missing_app_instance_id (text_of app_instance_id_name headers)

module _ (c : Crypto) where
  unfoldable pub server_heartbeat :
      Json ℕ → HeaderMap → (now : ℤ) → (iv : List ℕ) → Handles HttpResponse
  unfolding require_paired_client touch_client secure_json_response
  server_heartbeat j headers now iv = do
    id ← client_of headers
    modify_hub (touch_client id now)
    reply_json c j headers iv sync_api_version

  unfoldable pub server_heartbeat_sync_info :
      Json ℕ
      → Json SyncInfo
      → JsonText SyncInfo
      → HeaderMap
      → List ℕ
      → (now : ℤ) → (iv : List ℕ) → Handles HttpResponse
  unfolding require_paired_client maybe_decrypt_body update_client_sync_info secure_json_response
  server_heartbeat_sync_info j infos texts headers body now iv = do
    id ← client_of headers
    plain ← body_of c headers id body
    info ← lift (bad (infos.from_slice plain))
    on_hub (or_bad (update_client_sync_info texts id info now))
    reply_json c j headers iv sync_api_version

  unfoldable pub server_sync_info :
      Environment → Json SyncInfo → HeaderMap → (iv : List ℕ) → Handles HttpResponse
  unfolding build_server_sync_info secure_json_response
  server_sync_info env infos headers iv = do
    config ← gets (λ s. s.config)
    reply_json c infos headers iv (build_server_sync_info env config)

  unfoldable pub server_show_token : HeaderMap → (random : ℕ) → (now : ℤ) → Handles HttpResponse
  unfolding text_of issue_pairing_token_for
  server_show_token headers random now = do
    let id = unwrap_or "unknown-client" (text_of app_instance_id_name headers)
    modify_hub (λ h. (issue_pairing_token_for (some id) random now h).1)
    pure (record { status = 200; headers = []; body = [] })

  unfoldable pub server_telnet : Environment → Json SyncInfo → Handles HttpResponse
  unfolding build_server_sync_info encode_sync_info_header
  server_telnet env infos = do
    info ← gets (λ s. build_server_sync_info env s.config)
    value ← lift (failed (encode_sync_info_header c.base64 infos info))
    pure (record {
      status = 200;
      headers =
          (header_sync_info, codes value)
          ∷ (header_app_instance_id, codes info.app_info.app_instance_id)
          ∷ [];
      body = decimal sync_api_version;
    })

  -- Anyone may ask, and may name the token.
  unfoldable pub pairing_qr_payload :
      Environment → Json SyncInfo → Option ℕ → (nanos : ℕ) → (now : ℤ) → Handles PairingQrResponse
  unfolding generate_token set_pairing_token build_server_sync_info encode_qr_payload six_digits
  pairing_qr_payload env infos given nanos now = do
    let token = unwrap_or (generate_token nanos) given
    modify_hub (set_pairing_token token now)
    info ← gets (λ s. build_server_sync_info env s.config)
    payload ← lift (failed (encode_qr_payload c.base64 infos info token))
    pure (record {
      token = token;
      payload = payload;
      png_path = codes "/v1/pairing/qr.png?token=" ++ six_digits token;
      sync_info = info;
    })

  -- `render` is `render_qr_png`.
  unfoldable pub pairing_qr_png :
      (render : String → Result String (List ℕ))
      → Environment
      → Json SyncInfo
      → Option ℕ
      → (nanos : ℕ) → (now : ℤ) → Handles HttpResponse
  unfolding generate_token set_pairing_token build_server_sync_info encode_qr_payload
  pairing_qr_png render env infos given nanos now = do
    let token = unwrap_or (generate_token nanos) given
    modify_hub (set_pairing_token token now)
    info ← gets (λ s. build_server_sync_info env s.config)
    payload ← lift (failed (encode_qr_payload c.base64 infos info token))
    png ← lift (failed (render payload))
    pure (record { status = 200; headers = ("content-type", codes "image/png") ∷ []; body = png })

  unfoldable pub decode_pairing_qr : Json SyncInfo → String → Handles DecodeQrResponse
  unfolding decode_qr_payload
  decode_pairing_qr infos payload = do
    decoded ← lift (bad (decode_qr_payload c.base64 infos payload))
    pure (record { token = decoded.1; sync_info = decoded.0 })

  unfoldable pub sync_trust :
      HeaderMap → TrustRequest → (checked paired responded : ℤ) → Handles TrustResponse
  unfolding text_of trust_v1
  sync_trust headers request checked paired responded = do
    id ← lift (app_id headers)
    on_hub (or_bad (trust_v1 c id request checked paired responded))

  unfoldable pub sync_trust_v2_exchange :
      HeaderMap → KeyExchangeRequest → (now responded : ℤ) → Handles KeyExchangeResponse
  unfolding text_of exchange_keys_v2
  sync_trust_v2_exchange headers request now responded = do
    id ← lift (app_id headers)
    answer ← on_hub (or_bad (exchange_keys_v2 c id request now responded))
    pure answer.0

  unfoldable pub sync_trust_v2_confirm :
      HeaderMap
      → TrustConfirmRequest
      → (checked paired responded : ℤ) → Handles TrustConfirmResponse
  unfolding text_of confirm_trust_v2
  sync_trust_v2_confirm headers request checked paired responded = do
    id ← lift (app_id headers)
    on_hub (or_bad (confirm_trust_v2 c id request checked paired responded))
