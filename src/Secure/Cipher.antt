-- ===== src/Secure/Cipher.antt =====
-- secure.rs: the cipher between the server and one client.
use crosspaste_server.Prelude.{
  List, Result, String, arith, drop, drop-append_exact, err, if◌then◌else◌, leb, length,
  length-append, ok, ok_or, refl, subst, take, take-append_exact, true, try, ℕ, ◌++◌, ◌+◌, ◌≡◌, ◌≤◌,
}
use crosspaste_server.Secure.Messages.{CipherLaws, Crypto, ServerKeys}

module _ (c : Crypto) where
  -- `iv` is 16 random bytes.
  unfoldable pub encrypt_for_client : ServerKeys → List ℕ → List ℕ → List ℕ → Result String (List ℕ)
  encrypt_for_client keys client_key iv plaintext =
      try (c.agree keys.crypt_key client_key) (λ key. ok (iv ++ c.aes_encrypt key iv plaintext))

  unfoldable pub decrypt_from_client : ServerKeys → List ℕ → List ℕ → Result String (List ℕ)
  decrypt_from_client keys client_key ciphertext =
      if leb 16 (length ciphertext)
      then try (c.agree keys.crypt_key client_key) (λ key.
        ok_or "invalid encrypted payload padding"
          (c.aes_decrypt key (take 16 ciphertext) (drop 16 ciphertext)))
      else err "ciphertext too short"

  -- What was encrypted for a client is decrypted with the same client key.
  pub decrypt_from_client-encrypt_for_client :
      (laws : CipherLaws c) (keys : ServerKeys) (client_key iv plaintext ciphertext : List ℕ)
      → length iv ≡ 16
      → encrypt_for_client keys client_key iv plaintext ≡ ok ciphertext
      → decrypt_from_client keys client_key ciphertext ≡ ok plaintext
  decrypt_from_client-encrypt_for_client laws keys client_key iv plaintext ciphertext h e =
      go (c.agree keys.crypt_key client_key) refl
    where
      split :
          (body : List ℕ)
          → (take 16 (iv ++ body) ≡ iv)
            × (drop 16 (iv ++ body) ≡ body)
            × (leb 16 (length (iv ++ body)) ≡ true)
      split body = (
        rw (← h) (take-append_exact iv body),
        rw (← h) (drop-append_exact iv body),
        ground (arith, length-append iv body),
      )

      open_with :
          (key : List ℕ)
          → c.agree keys.crypt_key client_key ≡ ok key
          → decrypt_from_client keys client_key (iv ++ c.aes_encrypt key iv plaintext)
            ≡ ok plaintext
      open_with key f =
          let (t, d, l) = split (c.aes_encrypt key iv plaintext) in
          unfold decrypt_from_client in
          rw l (
            rw f (
              rw (t, d)
                (rw (
                  laws.aes_decrypt-aes_encrypt key iv plaintext
                    (laws.length-agree keys.crypt_key client_key key f) h))))

      go :
          (r : Result String (List ℕ))
          → c.agree keys.crypt_key client_key ≡ r
          → decrypt_from_client keys client_key ciphertext ≡ ok plaintext
      go (ok key) f =
          let same : iv ++ c.aes_encrypt key iv plaintext ≡ ciphertext =
            unfold encrypt_for_client in ground (arith, e) in
          subst (λ x. decrypt_from_client keys client_key x ≡ ok plaintext) same (open_with key f)
      go (err m) f = unfold encrypt_for_client in cc (rw f at e)

  -- A ciphertext is at most a vector and one block of padding longer than its plaintext.
  pub length-encrypt_for_client-le :
      (laws : CipherLaws c) (keys : ServerKeys) (client_key iv plaintext ciphertext : List ℕ)
      → length iv ≡ 16
      → encrypt_for_client keys client_key iv plaintext ≡ ok ciphertext
      → length ciphertext ≤ length plaintext + 32
  length-encrypt_for_client-le laws keys client_key iv plaintext ciphertext h e =
      go (c.agree keys.crypt_key client_key) refl
    where
      go :
          (r : Result String (List ℕ))
          → c.agree keys.crypt_key client_key ≡ r
          → length ciphertext ≤ length plaintext + 32
      go (ok key) f =
          let same : iv ++ c.aes_encrypt key iv plaintext ≡ ciphertext =
            unfold encrypt_for_client in ground (arith, e) in
          rw (← same) (
            omega (
              arith,
              length-append iv (c.aes_encrypt key iv plaintext),
              laws.length-aes_encrypt key iv plaintext
                  (laws.length-agree keys.crypt_key client_key key f) h,
              h,
            ))
      go (err m) f = unfold encrypt_for_client in cc (rw f at e)
