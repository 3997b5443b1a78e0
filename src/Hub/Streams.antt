-- ===== src/Hub/Streams.antt =====
-- hub.rs: encryption for a client by its key, and of streams in chunks that carry their lengths.
use crosspaste_server.Secure.Cipher.{
  encrypt_for_client as encrypt_with, decrypt_from_client as decrypt_with,
}
use crosspaste_server.Hub.State.{Hub}
use crosspaste_server.Prelude.{
  List, Result, String, [], drop, err, if◌then◌else◌, is_empty, length, ltb, nat_Comparable, ok,
  ok_or, pair_Comparable, string_Comparable, suc, take, try, zero, ℕ, ◌%◌, ◌*◌, ◌++◌, ◌+◌, ◌^◌, ◌∷◌,
}
use crosspaste_server.Prelude.Bytes.{chunks, from_be_bytes, to_be_bytes}
use crosspaste_server.Prelude.Int.{int_Comparable}
use crosspaste_server.Prelude.Map.{lookup}
use crosspaste_server.Secure.Messages.{Crypto}

abbrev pub encrypt_stream_chunk_size : ℕ
encrypt_stream_chunk_size = 256 * 1024

abbrev pub key_of : String → Hub → Result String (List ℕ)
key_of id h = ok_or "missing client crypt key" (lookup id h.client_crypt_keys)

module _ (c : Crypto) where
  unfoldable pub encrypt_for_client : String → List ℕ → List ℕ → Hub → Result String (List ℕ)
  encrypt_for_client id iv plaintext h =
      try (key_of id h) λ client_key. encrypt_with c h.keys client_key iv plaintext

  unfoldable pub decrypt_from_client : String → List ℕ → Hub → Result String (List ℕ)
  decrypt_from_client id ciphertext h =
      try (key_of id h) λ client_key. decrypt_with c h.keys client_key ciphertext

  -- `ivs i` is the random vector of chunk `i`; the length of a chunk is written as a `u32`.
  unfoldable pub encrypt_chunks :
      String → (ℕ → List ℕ) → ℕ → List (List ℕ) → Hub → Result String (List ℕ)
  unfolding encrypt_for_client
  encrypt_chunks id ivs i [] h = ok []
  encrypt_chunks id ivs i (chunk ∷ rest) h =
      try (encrypt_for_client id (ivs i) chunk h) λ encrypted.
        try (encrypt_chunks id ivs (i + 1) rest h)
          λ output. ok (to_be_bytes (length encrypted % 2 ^ 32) ++ (encrypted ++ output))

  unfoldable pub encrypt_stream_for_client :
      String → (ℕ → List ℕ) → List ℕ → Hub → Result String (List ℕ)
  unfolding encrypt_chunks chunks
  encrypt_stream_for_client id ivs plaintext h =
      encrypt_chunks id ivs 0 (chunks (length plaintext) encrypt_stream_chunk_size plaintext) h

  -- One round of the loop takes at least the four bytes of a length, so as many rounds as bytes do.
  unfoldable pub decrypt_rounds : ℕ → String → List ℕ → Hub → Result String (List ℕ)
  unfolding decrypt_from_client
  decrypt_rounds zero id ciphertext h = ok []
  decrypt_rounds (suc fuel) id ciphertext h =
      if is_empty ciphertext
      then ok []
      else if ltb (length ciphertext) 4
      then err "truncated encrypted stream length"
      else try (ok_or "not four bytes" (from_be_bytes (take 4 ciphertext))) λ size.
        let body = drop 4 ciphertext in
        if ltb (length body) size
        then err "truncated encrypted stream chunk"
        else try (decrypt_from_client id (take size body) h)
            λ plain. try (decrypt_rounds fuel id (drop size body) h) λ output. ok (plain ++ output)

  unfoldable pub decrypt_stream_from_client : String → List ℕ → Hub → Result String (List ℕ)
  unfolding decrypt_rounds
  decrypt_stream_from_client id ciphertext h = decrypt_rounds (length ciphertext) id ciphertext h
