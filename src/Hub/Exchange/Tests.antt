-- ===== src/Hub/Exchange/Tests.antt =====
-- hub.rs: an exchange of keys and its confirmation at a concrete hub.
use crosspaste_server.Codec.Samples.{of_unary, to_unary}
use crosspaste_server.Hub.Exchange.{confirm_trust_v2-exchange_keys_v2}
use crosspaste_server.Hub.Pairing.{confirm_trust_v2, exchange_keys_v2}
use crosspaste_server.Hub.Samples.{started_hub}
use crosspaste_server.Hub.State.{Hub}
use crosspaste_server.Hub.Trust.{Paired}
use crosspaste_server.Prelude.{
  List, [], is_ok, nat_Comparable, ok, pair_Comparable, refl, string_Comparable, true, ℕ, ◌∷◌, ◌≡◌,
}
use crosspaste_server.Prelude.Bytes.{from_be_bytes, le_bytes}
use crosspaste_server.Prelude.Int.{int_Comparable, pos}
use crosspaste_server.Prelude.Map.{insert, without}
use crosspaste_server.Secure.Messages.{KeyExchangeRequest, KeyExchangeResponse, TrustConfirmRequest}
use crosspaste_server.Secure.Samples.{toy}
use crosspaste_server.Secure.Sas.{compute_sas, word_of}
use crosspaste_server.Secure.Verify.{
  build_key_exchange_response, crypt_public_key_der_b64, decode_public_key_b64, sign,
  sign_public_key_der_b64, verify_key_exchange_request, verify_signature, verify_trust_confirm,
  verifying_key_from_b64,
}

abbrev request : KeyExchangeRequest
request = record {
  sign_public_key = to_unary (4 ∷ 5 ∷ []);
  crypt_public_key = to_unary (6 ∷ []);
  timestamp = pos 1_000;
  signature = to_unary (7 ∷ []);
}

abbrev response : KeyExchangeResponse
response = record {
  sign_public_key = to_unary (4 ∷ 5 ∷ []);
  crypt_public_key = to_unary (6 ∷ []);
  timestamp = pos 1_002;
  signature = to_unary (7 ∷ []);
}

abbrev exchanged : Hub
exchanged = record started_hub {
  pending_key_exchanges =
      (
        "phone",
        record {
          sign_public_key = to_unary (4 ∷ 5 ∷ []);
          crypt_public_key = 6 ∷ [];
          sas = 0;
          expires_at_ms = pos 31_001;
        },
      )
      ∷ [];
}

exchanging :
    exchange_keys_v2 toy "phone" request (pos 1_001) (pos 1_002) started_hub
    ≡ (ok (response, 0), exchanged)
unfolding exchange_keys_v2 verify_key_exchange_request verifying_key_from_b64 verify_signature
    decode_public_key_b64 crypt_public_key_der_b64 sign_public_key_der_b64
    build_key_exchange_response sign compute_sas word_of from_be_bytes le_bytes of_unary to_unary
    insert without
exchanging = refl

abbrev confirmation : TrustConfirmRequest
confirmation = record { timestamp = pos 2_000; signature = to_unary (7 ∷ []) }

signed : verify_trust_confirm toy request.sign_public_key confirmation ≡ ok true
unfolding verify_trust_confirm verifying_key_from_b64 verify_signature of_unary to_unary
signed = refl

confirm_trust_v2-exchange_keys_v2_example :
    (key : List ℕ) × (decode_public_key_b64 toy request.crypt_public_key ≡ ok key)
    × (is_ok
          (confirm_trust_v2 toy "phone" confirmation
            (pos 2_000)
            (pos 2_001)
            (pos 2_002)
            exchanged).0
        ≡ true)
    × Paired "phone"
        (pos 2_001)
        key
        exchanged
        (confirm_trust_v2 toy "phone" confirmation (pos 2_000) (pos 2_001) (pos 2_002) exchanged).1
confirm_trust_v2-exchange_keys_v2_example =
    confirm_trust_v2-exchange_keys_v2 toy "phone" request (pos 1_001) (pos 1_002) started_hub
      exchanged response 0 exchanging confirmation (pos 2_000) (pos 2_001) (pos 2_002) refl signed
      refl
