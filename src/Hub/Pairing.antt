-- ===== src/Hub/Pairing.antt =====
-- hub.rs: the two ways to pair a client. Each call takes the times that it reads, first to last.
use crosspaste_server.Database.Clients.{touch_client as touch_row, remove_client as delete_row}
use crosspaste_server.Database.Clients.{save_client}
use crosspaste_server.Hub.State.{Action, Hub, on_database, pairing_token_ttl_ms}
use crosspaste_server.Prelude.{
  List, Option, Result, String, ensure, eqb, gets, lift, modify, nat_Comparable, none, not, ok,
  ok_or, pair_Comparable, pure, string_Comparable, try, ℕ, ◌%◌, ◌+◌, ◌>>=◌, ◌>>◌,
}
use crosspaste_server.Prelude.Int.{int_Comparable, leb_ℤ, ℤ, ◌+ℤ◌}
use crosspaste_server.Prelude.Map.{insert, lookup, without}
use crosspaste_server.Secure.Messages.{
  Crypto, KeyExchangeRequest, KeyExchangeResponse, PairingResponse, ServerKeys, TrustConfirmRequest,
  TrustConfirmResponse, TrustRequest, TrustResponse,
}
use crosspaste_server.Secure.Sas.{compute_sas}
use crosspaste_server.Secure.Verify.{
  build_key_exchange_response, build_trust_confirm_response, client_crypt_public_key,
  crypt_public_key_der_b64, decode_public_key_b64, sign_pairing_response, sign_public_key_der_b64,
  verify_key_exchange_request, verify_pairing_request, verify_trust_confirm,
}

-- A pairing writes both maps.
abbrev pub remember : String → ℤ → List ℕ → Hub → Hub
remember id paired_at_ms key h = record h {
  client_crypt_keys = insert id key h.client_crypt_keys;
  clients = insert id (record { app_instance_id = id; paired_at_ms = paired_at_ms }) h.clients;
}

unfoldable pub set_pairing_token_for : ℕ → Option String → ℤ → Hub → Hub
set_pairing_token_for token client_id now h = record h {
  pairing_token = record {
    value = token;
    expires_at_ms = now +ℤ pairing_token_ttl_ms;
    client_id = client_id;
  };
}

unfoldable pub set_pairing_token : ℕ → ℤ → Hub → Hub
unfolding set_pairing_token_for
set_pairing_token token now h = set_pairing_token_for token none now h

-- `random` is a random word.
unfoldable pub issue_pairing_token_for : Option String → ℕ → ℤ → Hub → ℕ × Hub
unfolding set_pairing_token_for
issue_pairing_token_for client_id random now h =
    let token = 100_000 + random % 900_000 in (token, set_pairing_token_for token client_id now h)

unfoldable pub touch_client : String → ℤ → Hub → Hub
touch_client id now h = (on_database (touch_row id now) h).1

module _ (c : Crypto) where
  unfoldable pub server_public_keys : ServerKeys → Result String (String × String)
  server_public_keys keys = try (sign_public_key_der_b64 c keys) λ sign_public_key.
      try (crypt_public_key_der_b64 c keys)
        λ crypt_public_key. ok (sign_public_key, crypt_public_key)

  -- The reply to a client that `trust_v1` accepts.
  unfoldable pub trusted : ServerKeys → ℤ → Result String TrustResponse
  unfolding server_public_keys
  trusted keys now = try (server_public_keys keys) λ (sign_public_key, crypt_public_key).
      let response : PairingResponse = record {
        sign_public_key = sign_public_key;
        crypt_public_key = crypt_public_key;
        timestamp = now;
      } in
      ok (record { pairing_response = response; signature = sign_pairing_response c keys response })

  unfoldable pub trust_v1 :
      String → TrustRequest → (checked paired responded : ℤ) → Action TrustResponse
  unfolding trusted
  trust_v1 id request checked paired responded = do
    valid ← lift (verify_pairing_request c request)
    ensure valid "invalid pairing signature"
    token ← gets (λ h. h.pairing_token)
    ensure (not (eqb token.value 0)) "pairing token was not requested"
    ensure (leb_ℤ checked token.expires_at_ms) "pairing token expired"
    ensure (eqb request.pairing_request.token token.value) "pairing token mismatch"
    client_key ← lift (client_crypt_public_key c request)
    modify (remember id paired client_key)
    on_database (save_client id paired client_key)
    keys ← gets (λ h. h.keys)
    lift (trusted keys responded)

  unfoldable pub exchange_keys_v2 :
      String → KeyExchangeRequest → (now responded : ℤ) → Action (KeyExchangeResponse × ℕ)
  exchange_keys_v2 id request now responded = do
    valid ← lift (verify_key_exchange_request c request)
    ensure valid "invalid key exchange signature"
    client_crypt_public_key ← lift (decode_public_key_b64 c request.crypt_public_key)
    keys ← gets (λ h. h.keys)
    encoded ← lift (crypt_public_key_der_b64 c keys)
    server_crypt_public_key ← lift (decode_public_key_b64 c encoded)
    let sas = compute_sas c server_crypt_public_key client_crypt_public_key
    modify (λ h. record h {
      pending_key_exchanges =
          insert id
            (record {
              sign_public_key = request.sign_public_key;
              crypt_public_key = client_crypt_public_key;
              sas = sas;
              expires_at_ms = now +ℤ pairing_token_ttl_ms;
            })
            h.pending_key_exchanges;
    })
    response ← lift (build_key_exchange_response c keys responded)
    pure (response, sas)

  unfoldable pub confirm_trust_v2 :
      String → TrustConfirmRequest → (checked paired responded : ℤ) → Action TrustConfirmResponse
  confirm_trust_v2 id request checked paired responded = do
    found ← gets (λ h. lookup id h.pending_key_exchanges)
    pending ← lift (ok_or "key exchange not found or expired" found)
    ensure (leb_ℤ checked pending.expires_at_ms) "key exchange expired"
    valid ← lift (verify_trust_confirm c pending.sign_public_key request)
    ensure valid "invalid trust confirmation signature"
    modify (λ h. record h { pending_key_exchanges = without id h.pending_key_exchanges })
    modify (remember id paired pending.crypt_public_key)
    on_database (save_client id paired pending.crypt_public_key)
    keys ← gets (λ h. h.keys)
    pure (build_trust_confirm_response c keys responded)

-- The client leaves the maps before the database is asked.
unfoldable pub remove_client : String → Action Unit
remove_client id = do
  modify (λ h. record h {
    clients = without id h.clients;
    client_crypt_keys = without id h.client_crypt_keys;
    client_sync_infos = without id h.client_sync_infos;
  })
  on_database (delete_row id)
