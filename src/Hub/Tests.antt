-- ===== src/Hub/Tests.antt =====
-- hub.rs: the theorems on pairing, on streams and on any calls, at concrete hubs.
use crosspaste_server.Secure.Cipher.{encrypt_for_client as encrypt_with}
use crosspaste_server.Codec.Samples.{of_unary, to_unary}
use crosspaste_server.Codec.Value.{as_u64, get}
use crosspaste_server.Database.Clients.{save_client, saved}
use crosspaste_server.Database.Contents.{save_file_chunk}
use crosspaste_server.Database.Tables.{execute}
use crosspaste_server.Hub.Confirm.{Confirms, confirm_trust_v2-Confirms, confirm_trust_v2-Paired}
use crosspaste_server.Hub.Events.{run, step}
use crosspaste_server.Hub.Invariant.Known.{Known, run-load_or_create-Known}
use crosspaste_server.Hub.Invariant.Views.{view}
use crosspaste_server.Hub.Pairing.{
  confirm_trust_v2, server_public_keys, set_pairing_token, set_pairing_token_for, trust_v1, trusted,
}
use crosspaste_server.Hub.Push.{prepare_push, store_push_chunk}
use crosspaste_server.Hub.RoundTrip.{decrypt_stream-encrypt_stream}
use crosspaste_server.Hub.Samples.{
  broken, calls, disk, format, infos, issued, keys, ready, request, start, started_hub, values,
}
use crosspaste_server.Hub.State.{Hub, create_dir_all, is_paired, write_chunk}
use crosspaste_server.Hub.Streams.{
  decrypt_stream_from_client, encrypt_chunks, encrypt_for_client, encrypt_stream_for_client,
}
use crosspaste_server.Hub.Transfers.Places.{places}
use crosspaste_server.Hub.Transfers.Runs.{run-load_or_create-Holdings}
use crosspaste_server.Hub.Transfers.Steps.{Holdings}
use crosspaste_server.Hub.Trust.{
  Guards, Paired, recorded, trust_v1-Guards, trust_v1-Paired, trust_v1-unsaved,
}
use crosspaste_server.Prelude.{
  List, Result, String, [], err, false, is_ok, nat_Comparable, ok, pair_Comparable, refl, replicate,
  string_Comparable, true, ℕ, ◌++◌, ◌∷◌, ◌≡◌, ◌⊎◌,
}
use crosspaste_server.Prelude.Bytes.{chunks, to_be_bytes}
use crosspaste_server.Prelude.Int.{int_Comparable, pos, ℤ}
use crosspaste_server.Prelude.Map.{insert, lookup, without}
use crosspaste_server.Secure.Messages.{TrustConfirmRequest, TrustConfirmResponse, TrustResponse}
use crosspaste_server.Secure.Samples.{toy, toy-CipherLaws}
use crosspaste_server.Secure.Verify.{
  build_trust_confirm_response, client_crypt_public_key, crypt_public_key_der_b64, sign,
  sign_pairing_response, sign_public_key_der_b64, verify_pairing_request, verify_signature,
  verify_trust_confirm, verifying_key_from_b64,
}

abbrev accepted : TrustResponse
accepted = record {
  pairing_response = record {
    sign_public_key = to_unary (4 ∷ 5 ∷ []);
    crypt_public_key = to_unary (6 ∷ []);
    timestamp = pos 2_002;
  };
  signature = to_unary (7 ∷ []);
}

abbrev trusting : Result String TrustResponse × Hub
trusting = trust_v1 toy "phone" request (pos 2_000) (pos 2_001) (pos 2_002) issued

trusting_ends : trusting ≡ (ok accepted, recorded "phone" (pos 2_001) (6 ∷ []) issued)
unfolding of_unary to_unary trust_v1 verify_pairing_request verifying_key_from_b64 verify_signature
    client_crypt_public_key save_client saved execute trusted server_public_keys
    sign_public_key_der_b64 crypt_public_key_der_b64 sign_pairing_response sign
trusting_ends = refl

trust_v1-Paired_example :
    Guards toy request (pos 2_000) issued
    × ((key : List ℕ) × (client_crypt_public_key toy request ≡ ok key)
        × Paired "phone" (pos 2_001) key issued (recorded "phone" (pos 2_001) (6 ∷ []) issued))
trust_v1-Paired_example =
    trust_v1-Paired toy "phone" request (pos 2_000) (pos 2_001) (pos 2_002) issued accepted
      (recorded "phone" (pos 2_001) (6 ∷ []) issued) trusting_ends

guards : Guards toy request (pos 2_000) issued
unfolding of_unary to_unary verify_pairing_request verifying_key_from_b64 verify_signature
guards = record { signed = refl; requested = refl; in_time = refl; matches = refl }

trust_v1-Guards_example :
    Guards toy request (pos 40_000) issued
    ⊎ ((is_ok (trust_v1 toy "phone" request (pos 40_000) (pos 40_001) (pos 40_002) issued).0
          ≡ false)
        × ((trust_v1 toy "phone" request (pos 40_000) (pos 40_001) (pos 40_002) issued).1 ≡ issued))
trust_v1-Guards_example =
    trust_v1-Guards toy "phone" request (pos 40_000) (pos 40_001) (pos 40_002) issued

decoded : client_crypt_public_key toy request ≡ ok (6 ∷ [])
unfolding of_unary to_unary client_crypt_public_key
decoded = refl

broken-Guards : Guards toy request (pos 2_000) broken
unfolding of_unary to_unary verify_pairing_request verifying_key_from_b64 verify_signature
broken-Guards = record { signed = refl; requested = refl; in_time = refl; matches = refl }

trust_v1-unsaved_example :
    ((trust_v1 toy "phone" request (pos 2_000) (pos 2_001) (pos 2_002) broken).0 ≡ err "disk full")
    × (is_paired "phone" (trust_v1 toy "phone" request (pos 2_000) (pos 2_001) (pos 2_002) broken).1
        ≡ true)
    × ((trust_v1 toy "phone" request
          (pos 2_000)
          (pos 2_001)
          (pos 2_002)
          broken).1.database.paired_clients
        ≡ [])
trust_v1-unsaved_example =
    trust_v1-unsaved toy "phone" request (pos 2_000) (pos 2_001) (pos 2_002) broken broken-Guards
      (6 ∷ []) decoded "disk full" refl

-- An exchange of keys that waits for its confirmation.
abbrev exchanged : Hub
exchanged = record issued {
  pending_key_exchanges =
      (
        "phone",
        record {
          sign_public_key = to_unary (4 ∷ 5 ∷ []);
          crypt_public_key = 6 ∷ [];
          sas = 42;
          expires_at_ms = pos 31_000;
        },
      )
      ∷ [];
}

abbrev confirmation : TrustConfirmRequest
confirmation = record { timestamp = pos 2_000; signature = to_unary (7 ∷ []) }

abbrev confirmed : Hub
confirmed = recorded "phone" (pos 2_001) (6 ∷ []) (record exchanged { pending_key_exchanges = [] })

abbrev confirm_response : TrustConfirmResponse
confirm_response = record { timestamp = pos 2_002; signature = to_unary (7 ∷ []) }

confirming :
    confirm_trust_v2 toy "phone" confirmation (pos 2_000) (pos 2_001) (pos 2_002) exchanged
    ≡ (ok confirm_response, confirmed)
unfolding of_unary to_unary confirm_trust_v2 verify_trust_confirm verifying_key_from_b64
    verify_signature save_client saved execute build_trust_confirm_response sign without lookup
confirming = refl

confirm_trust_v2-Paired_example :
    ((g : Confirms toy "phone" confirmation (pos 2_000) exchanged) × Paired "phone"
        (pos 2_001)
        g.pending.crypt_public_key
        exchanged
        confirmed)
    × ((again : TrustConfirmRequest) (a p r : ℤ)
        → confirm_trust_v2 toy "phone" again a p r confirmed
          ≡ (err "key exchange not found or expired", confirmed))
confirm_trust_v2-Paired_example =
    confirm_trust_v2-Paired toy "phone" confirmation (pos 2_000) (pos 2_001) (pos 2_002) exchanged
      confirm_response confirmed confirming

confirm_trust_v2-Confirms_example :
    Confirms toy "phone" confirmation (pos 40_000) exchanged
    ⊎ ((is_ok
            (confirm_trust_v2 toy "phone" confirmation
              (pos 40_000)
              (pos 40_001)
              (pos 40_002)
              exchanged).0
          ≡ false)
        × ((confirm_trust_v2 toy "phone" confirmation
              (pos 40_000)
              (pos 40_001)
              (pos 40_002)
              exchanged).1
            ≡ exchanged))
confirm_trust_v2-Confirms_example =
    confirm_trust_v2-Confirms toy "phone" confirmation (pos 40_000) (pos 40_001) (pos 40_002)
      exchanged

run-load_or_create-Known_example : Known (view (run toy values infos calls started_hub))
run-load_or_create-Known_example =
    run-load_or_create-Known toy values infos format keys disk disk started_hub calls start

run-load_or_create-Holdings_example : Holdings (places (run toy values infos calls started_hub))
run-load_or_create-Holdings_example =
    run-load_or_create-Holdings toy values infos format keys disk disk started_hub calls start

-- The calls have their effect: the client is paired, and the chunk is received.
paired_then : is_paired "phone" (run toy values infos calls started_hub) ≡ true
unfolding run step set_pairing_token set_pairing_token_for trust_v1 of_unary to_unary
    verify_pairing_request verifying_key_from_b64 verify_signature client_crypt_public_key
    save_client saved execute is_paired prepare_push store_push_chunk create_dir_all lookup insert
    get as_u64 write_chunk save_file_chunk
paired_then = refl

abbrev vector : ℕ → List ℕ
vector i = replicate 16 i

encrypted_stream :
    encrypt_stream_for_client toy "phone" vector (1 ∷ 2 ∷ []) ready
    ≡ ok (0 ∷ 0 ∷ 0 ∷ 18 ∷ (replicate 16 0 ++ 1 ∷ 2 ∷ []))
unfolding encrypt_stream_for_client encrypt_chunks chunks encrypt_for_client encrypt_with
    to_be_bytes lookup
encrypted_stream = refl

decrypt_stream-encrypt_stream_example :
    decrypt_stream_from_client toy "phone" (0 ∷ 0 ∷ 0 ∷ 18 ∷ (replicate 16 0 ++ 1 ∷ 2 ∷ [])) ready
    ≡ ok (1 ∷ 2 ∷ [])
decrypt_stream-encrypt_stream_example =
    decrypt_stream-encrypt_stream toy toy-CipherLaws "phone" ready vector (λ i. refl) (1 ∷ 2 ∷ [])
      (0 ∷ 0 ∷ 0 ∷ 18 ∷ (replicate 16 0 ++ 1 ∷ 2 ∷ [])) encrypted_stream
