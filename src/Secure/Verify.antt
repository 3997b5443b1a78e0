-- ===== src/Secure/Verify.antt =====
-- secure.rs: what is signed, by whom, and how it is verified.
use crosspaste_server.Prelude.{
  Bool, List, Result, String, arith, err, if◌then◌else◌, ok, ok_or, refl, subst, true, try, ℕ, ◌++◌,
  ◌≡◌,
}
use crosspaste_server.Prelude.Bytes.{as_bytes, decimal, decimal_i64}
use crosspaste_server.Prelude.Int.{ℤ}
use crosspaste_server.Secure.Messages.{
  Crypto, KeyExchangeRequest, KeyExchangeResponse, PairingRequest, PairingResponse, ServerKeys,
  SignatureLaws, TrustConfirmRequest, TrustConfirmResponse, TrustRequest,
}

unfoldable pub pairing_request_sign_data : PairingRequest → List ℕ
pairing_request_sign_data q =
    as_bytes q.sign_public_key
    ++ as_bytes q.crypt_public_key
    ++ decimal q.token
    ++ decimal_i64 q.timestamp

unfoldable pub pairing_response_sign_data : PairingResponse → List ℕ
pairing_response_sign_data p =
    as_bytes p.sign_public_key ++ as_bytes p.crypt_public_key ++ decimal_i64 p.timestamp

-- The request that a response would be.
abbrev pub mirrored : KeyExchangeResponse → KeyExchangeRequest
mirrored p = record {
  sign_public_key = p.sign_public_key;
  crypt_public_key = p.crypt_public_key;
  timestamp = p.timestamp;
  signature = p.signature;
}

module _ (c : Crypto) where
  unfoldable pub sign_public_key_der_b64 : ServerKeys → Result String String
  sign_public_key_der_b64 keys = try (c.sign_public keys.sign_key) (λ der. ok (c.base64.encode der))

  unfoldable pub crypt_public_key_der_b64 : ServerKeys → Result String String
  crypt_public_key_der_b64 keys =
      try (c.crypt_public keys.crypt_key) (λ der. ok (c.base64.encode der))

  unfoldable pub sign : ServerKeys → List ℕ → String
  sign keys text = c.base64.encode (c.sign_text keys.sign_key text)

  unfoldable pub decode_public_key_b64 : String → Result String (List ℕ)
  decode_public_key_b64 encoded = ok_or "invalid base64" (c.base64.decode encoded)

  unfoldable pub verifying_key_from_b64 : String → Result String (List ℕ)
  verifying_key_from_b64 encoded =
      try (ok_or "invalid base64" (c.base64.decode encoded))
        (λ der. if c.is_public_key der then ok der else err "invalid public key")

  unfoldable pub verify_signature : List ℕ → String → List ℕ → Result String Bool
  verify_signature key encoded text =
      try (ok_or "invalid base64" (c.base64.decode encoded)) (λ der.
        if c.is_signature der then ok (c.verifies key text der) else err "invalid signature")

  unfoldable pub verify_pairing_request : TrustRequest → Result String Bool
  unfolding verifying_key_from_b64 verify_signature pairing_request_sign_data
  verify_pairing_request q =
      try (verifying_key_from_b64 q.pairing_request.sign_public_key)
        (λ key. verify_signature key q.signature (pairing_request_sign_data q.pairing_request))

  unfoldable pub sign_pairing_response : ServerKeys → PairingResponse → String
  unfolding sign
  sign_pairing_response keys response = sign keys (pairing_response_sign_data response)

  unfoldable pub client_crypt_public_key : TrustRequest → Result String (List ℕ)
  client_crypt_public_key q =
      ok_or "invalid base64" (c.base64.decode q.pairing_request.crypt_public_key)

  unfoldable pub key_exchange_sign_data : String → String → ℤ → List ℕ
  key_exchange_sign_data sign_public_key crypt_public_key timestamp =
      as_bytes sign_public_key ++ as_bytes crypt_public_key ++ decimal_i64 timestamp

  unfoldable pub verify_key_exchange_request : KeyExchangeRequest → Result String Bool
  unfolding verifying_key_from_b64 verify_signature key_exchange_sign_data
  verify_key_exchange_request q = try (verifying_key_from_b64 q.sign_public_key) (λ key.
      verify_signature key q.signature
        (key_exchange_sign_data q.sign_public_key q.crypt_public_key q.timestamp))

  unfoldable pub build_key_exchange_response : ServerKeys → ℤ → Result String KeyExchangeResponse
  unfolding sign_public_key_der_b64 crypt_public_key_der_b64 sign key_exchange_sign_data
  build_key_exchange_response keys now = try (sign_public_key_der_b64 keys) λ sign_public_key.
      try (crypt_public_key_der_b64 keys) λ crypt_public_key. ok (record {
        sign_public_key = sign_public_key;
        crypt_public_key = crypt_public_key;
        timestamp = now;
        signature = sign keys (key_exchange_sign_data sign_public_key crypt_public_key now);
      })

  unfoldable pub verify_trust_confirm : String → TrustConfirmRequest → Result String Bool
  unfolding verifying_key_from_b64 verify_signature
  verify_trust_confirm sign_public_key q =
      try (verifying_key_from_b64 sign_public_key)
        (λ key. verify_signature key q.signature (decimal_i64 q.timestamp))

  unfoldable pub build_trust_confirm_response : ServerKeys → ℤ → TrustConfirmResponse
  unfolding sign
  build_trust_confirm_response keys now = record {
    timestamp = now;
    signature = sign keys (decimal_i64 now);
  }

  module _ (laws : SignatureLaws c) where
    -- A key exchange response of the server passes the check that the server makes of a request.
    pub verify-build_key_exchange_response :
        (keys : ServerKeys) (now : ℤ) (p : KeyExchangeResponse)
        → build_key_exchange_response keys now ≡ ok p
        → verify_key_exchange_request (mirrored p) ≡ ok true
    verify-build_key_exchange_response keys now p e =
        go (c.sign_public keys.sign_key) (c.crypt_public keys.crypt_key) refl refl
      where
        key_of :
            (der : List ℕ)
            → c.sign_public keys.sign_key ≡ ok der
            → verifying_key_from_b64 (c.base64.encode der) ≡ ok der
        key_of der f =
            unfold verifying_key_from_b64 in
            rw (laws.base64_laws.decode-encode der (laws.sign_public-AreBytes keys.sign_key der f))
              (rw (laws.sign_public-key keys.sign_key der f))

        signed :
            (der text : List ℕ)
            → c.sign_public keys.sign_key ≡ ok der
            → verify_signature der (sign keys text) text ≡ ok true
        signed der text f =
            unfold verify_signature sign in
            rw
              (laws.base64_laws.decode-encode (c.sign_text keys.sign_key text)
                (laws.sign_text-AreBytes keys.sign_key text))
              (rw (laws.sign_text-signature keys.sign_key text)
                (rw (laws.verifies-sign_text keys.sign_key der text f)))

        response : List ℕ → List ℕ → KeyExchangeResponse
        response der crypt = record {
          sign_public_key = c.base64.encode der;
          crypt_public_key = c.base64.encode crypt;
          timestamp = now;
          signature =
              sign keys (key_exchange_sign_data (c.base64.encode der) (c.base64.encode crypt) now);
        }

        passes :
            (der crypt : List ℕ)
            → c.sign_public keys.sign_key ≡ ok der
            → verify_key_exchange_request (mirrored (response der crypt)) ≡ ok true
        passes der crypt f =
            unfold verify_key_exchange_request in
            rw (key_of der f) (
              signed der (key_exchange_sign_data (c.base64.encode der) (c.base64.encode crypt) now)
                f)

        go :
            (r s : Result String (List ℕ))
            → c.sign_public keys.sign_key ≡ r
            → c.crypt_public keys.crypt_key ≡ s
            → verify_key_exchange_request (mirrored p) ≡ ok true
        go (ok der) (ok crypt) f g =
            let same : response der crypt ≡ p =
              unfold build_key_exchange_response in ground (arith, e) in
            subst (λ x. verify_key_exchange_request (mirrored x) ≡ ok true) same
              (passes der crypt f)
        go (ok der) (err m) f g = unfold build_key_exchange_response in ground (arith, e)
        go (err m) s f g = unfold build_key_exchange_response in ground (arith, e)
