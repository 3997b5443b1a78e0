-- ===== src/Secure/Tests.antt =====
-- secure.rs: the theorems at a concrete scheme.
use crosspaste_server.Codec.Samples.{to_unary}
use crosspaste_server.Prelude.{List, [], err, ok, refl, replicate, true, ℕ, ◌++◌, ◌<◌, ◌∷◌, ◌≡◌}
use crosspaste_server.Prelude.Int.{pos}
use crosspaste_server.Secure.Cipher.{
  decrypt_from_client, decrypt_from_client-encrypt_for_client, encrypt_for_client,
}
use crosspaste_server.Secure.Messages.{KeyExchangeResponse, ServerKeys}
use crosspaste_server.Secure.Samples.{toy, toy-CipherLaws, toy-SignatureLaws}
use crosspaste_server.Secure.Sas.{compute_sas, compute_sas_agrees}
use crosspaste_server.Secure.Verify.{
  build_key_exchange_response, crypt_public_key_der_b64, mirrored, sign, sign_public_key_der_b64,
  verify-build_key_exchange_response, verify_key_exchange_request,
}

abbrev keys : ServerKeys
keys = record { sign_key = 1 ∷ 2 ∷ []; crypt_key = 3 ∷ [] }

abbrev iv : List ℕ
iv = replicate 16 9

encrypted : encrypt_for_client toy keys (8 ∷ []) iv (10 ∷ 20 ∷ []) ≡ ok (iv ++ 10 ∷ 20 ∷ [])
unfolding encrypt_for_client
encrypted = refl

decrypt_from_client-encrypt_for_client_example :
    decrypt_from_client toy keys (8 ∷ []) (iv ++ 10 ∷ 20 ∷ []) ≡ ok (10 ∷ 20 ∷ [])
decrypt_from_client-encrypt_for_client_example =
    decrypt_from_client-encrypt_for_client toy toy-CipherLaws keys (8 ∷ []) iv (10 ∷ 20 ∷ [])
      (iv ++ 10 ∷ 20 ∷ []) refl encrypted

compute_sas_agrees_example :
    (compute_sas toy (1 ∷ 2 ∷ []) (3 ∷ 4 ∷ []) ≡ compute_sas toy (3 ∷ 4 ∷ []) (1 ∷ 2 ∷ []))
    × (compute_sas toy (1 ∷ 2 ∷ []) (3 ∷ 4 ∷ []) < 1_000_000)
compute_sas_agrees_example = compute_sas_agrees toy (1 ∷ 2 ∷ []) (3 ∷ 4 ∷ [])

too_short : decrypt_from_client toy keys (8 ∷ []) (1 ∷ []) ≡ err "ciphertext too short"
unfolding decrypt_from_client
too_short = refl

abbrev response : KeyExchangeResponse
response = record {
  sign_public_key = to_unary (4 ∷ 5 ∷ []);
  crypt_public_key = to_unary (6 ∷ []);
  timestamp = pos 1_000;
  signature = to_unary (7 ∷ []);
}

built : build_key_exchange_response toy keys (pos 1_000) ≡ ok response
unfolding build_key_exchange_response sign_public_key_der_b64 crypt_public_key_der_b64 sign
built = refl

verify-build_key_exchange_response_example :
    verify_key_exchange_request toy (mirrored response) ≡ ok true
verify-build_key_exchange_response_example =
    verify-build_key_exchange_response toy toy-SignatureLaws keys (pos 1_000) response built
