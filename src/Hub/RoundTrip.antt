-- ===== src/Hub/RoundTrip.antt =====
-- hub.rs: a stream that is encrypted for a client is decrypted with the same key.
use crosspaste_server.Secure.Cipher.{encrypt_for_client as encrypt_with}
use crosspaste_server.Hub.State.{Hub}
use crosspaste_server.Hub.Streams.{
  decrypt_from_client, decrypt_rounds, decrypt_stream_from_client, encrypt_chunks,
  encrypt_for_client, encrypt_stream_chunk_size, encrypt_stream_for_client, key_of,
}
use crosspaste_server.Prelude.{
  All, List, Result, String, [], ap, arith, drop, drop-append_exact, err, false, is_empty, length,
  length-append, length-take, ltb, ok, refl, some, subst, suc, sym, take, take-append_exact, zero,
  ℕ, ◌%◌, ◌++◌, ◌+◌, ◌<◌, ◌^◌, ◌∙◌, ◌∷◌, ◌≡◌, ◌≤◌,
}
use crosspaste_server.Prelude.Bytes.{
  chunks, concat, concat-chunks, from_be_bytes, from_be_bytes-to_be_bytes, length-to_be_bytes,
  to_be_bytes,
}
use crosspaste_server.Secure.Cipher.{
  decrypt_from_client-encrypt_for_client, length-encrypt_for_client-le,
}
use crosspaste_server.Secure.Messages.{CipherLaws, Crypto}
use native.Mathlib.Nat.{mod-eq_of_lt}

chunks-small :
    (fuel size : ℕ) (bytes : List ℕ) → All (λ chunk. length chunk ≤ size) (chunks fuel size bytes)
unfolding chunks
chunks-small zero size bytes = tt
chunks-small (suc fuel) size [] = tt
chunks-small (suc fuel) size (b ∷ bytes) =
    (omega (arith, length-take size (b ∷ bytes)), chunks-small fuel size (drop size (b ∷ bytes)))

module _ (c : Crypto) (laws : CipherLaws c) (id : String) (h : Hub) (ivs : ℕ → List ℕ)
    (vectors : (i : ℕ) → length (ivs i) ≡ 16) where
  -- What a successful encryption says of its ciphertext.
  abbrev Opens : List ℕ → List ℕ → Type 0
  Opens chunk encrypted =
      (decrypt_from_client c id encrypted h ≡ ok chunk) × (length encrypted ≤ length chunk + 32)

  opens :
      (i : ℕ) (chunk encrypted : List ℕ)
      → encrypt_for_client c id (ivs i) chunk h ≡ ok encrypted
      → Opens chunk encrypted
  opens i chunk encrypted e = go (key_of id h) refl
    where
      go : (r : Result String (List ℕ)) → key_of id h ≡ r → Opens chunk encrypted
      go (ok key) f =
          let with_key : encrypt_with c h.keys key (ivs i) chunk ≡ ok encrypted =
            unfold encrypt_for_client in (rw f at e) in
          (
            unfold decrypt_from_client in
                rw f (
                  decrypt_from_client-encrypt_for_client c laws h.keys key (ivs i) chunk encrypted
                    (vectors i) with_key),
            length-encrypt_for_client-le c laws h.keys key (ivs i) chunk encrypted (vectors i)
                with_key,
          )
      go (err m) f = unfold encrypt_for_client in cc (rw f at e)

  -- A length and what comes after it.
  record Framed (n : ℕ) (body ciphertext : List ℕ) : Type 0 where
    full : is_empty ciphertext ≡ false
    long : ltb (length ciphertext) 4 ≡ false
    header : from_be_bytes (take 4 ciphertext) ≡ some n
    rest : drop 4 ciphertext ≡ body

  framed : (n : ℕ) (body : List ℕ) → Framed n body (to_be_bytes n ++ body)
  unfolding to_be_bytes
  framed n body = record {
    full = refl;
    long = ground arith;
    header = from_be_bytes-to_be_bytes n;
    rest = refl;
  }

  -- One round of the loop over a chunk that is whole.
  one_round :
      (fuel : ℕ) (chunk encrypted output plain ciphertext : List ℕ)
      → Framed (length encrypted) (encrypted ++ output) ciphertext
      → decrypt_from_client c id encrypted h ≡ ok chunk
      → decrypt_rounds c fuel id output h ≡ ok plain
      → decrypt_rounds c (suc fuel) id ciphertext h ≡ ok (chunk ++ plain)
  unfolding decrypt_rounds
  one_round fuel chunk encrypted output plain ciphertext f opened rest =
      let fits : ltb (length (encrypted ++ output)) (length encrypted) ≡ false =
        ground (arith, length-append encrypted output) in
      rw f.full (
        rw f.long (
          rw f.header (
            rw f.rest (
              rw fits (
                rw (take-append_exact encrypted output)
                  (rw (drop-append_exact encrypted output) (rw opened (rw rest))))))))

  nothing_left : (fuel : ℕ) → decrypt_rounds c fuel id [] h ≡ ok []
  unfolding decrypt_rounds
  nothing_left zero = refl
  nothing_left (suc fuel) = refl

  enough :
      (fuel : ℕ) (chunk encrypted output plain ciphertext : List ℕ)
      → 0 < length ciphertext
      → length ciphertext ≤ fuel
      → Framed (length encrypted) (encrypted ++ output) ciphertext
      → decrypt_from_client c id encrypted h ≡ ok chunk
      → ((less : ℕ) → less + 1 ≡ fuel → decrypt_rounds c less id output h ≡ ok plain)
      → decrypt_rounds c fuel id ciphertext h ≡ ok (chunk ++ plain)
  enough zero chunk encrypted output plain ciphertext lt le f opened rest = absurd (omega arith)
  enough (suc fuel) chunk encrypted output plain ciphertext lt le f opened rest =
      one_round fuel chunk encrypted output plain ciphertext f opened (rest fuel (omega arith))

  frame : List ℕ → List ℕ → List ℕ
  frame encrypted output = to_be_bytes (length encrypted % 2 ^ 32) ++ (encrypted ++ output)

  length-frame :
      (encrypted output : List ℕ)
      → length (frame encrypted output) ≡ 4 + length encrypted + length output
  unfolding frame
  length-frame encrypted output = omega (
    arith,
    length-append (to_be_bytes (length encrypted % 2 ^ 32)) (encrypted ++ output),
    length-append encrypted output,
    length-to_be_bytes (length encrypted % 2 ^ 32),
  )

  frame-Framed :
      (encrypted output : List ℕ)
      → length encrypted < 2 ^ 32
      → Framed (length encrypted) (encrypted ++ output) (frame encrypted output)
  unfolding frame
  frame-Framed encrypted output small =
      subst
        (λ n.
          Framed (length encrypted) (encrypted ++ output) (to_be_bytes n ++ (encrypted ++ output)))
        (sym (mod-eq_of_lt small)) (framed (length encrypted) (encrypted ++ output))

  rounds :
      (fuel i : ℕ) (cs : List (List ℕ)) (output : List ℕ)
      → All (λ chunk. length chunk ≤ encrypt_stream_chunk_size) cs
      → encrypt_chunks c id ivs i cs h ≡ ok output
      → length output ≤ fuel
      → decrypt_rounds c fuel id output h ≡ ok (concat cs)
  unfolding frame encrypt_chunks
  rounds fuel i [] output small e le =
      let same : [] ≡ output = ground (arith, e) in
      subst (λ o. decrypt_rounds c fuel id o h ≡ ok []) same (nothing_left fuel)
  rounds fuel i (chunk ∷ cs) output small e le =
      go (λ less others. rounds less (i + 1) cs others small.1)
        (encrypt_for_client c id (ivs i) chunk h) (encrypt_chunks c id ivs (i + 1) cs h) refl refl
    where
      Goal : List ℕ → Type 0
      Goal o = decrypt_rounds c fuel id o h ≡ ok (chunk ++ concat cs)

      Later : Type 0
      Later =
          (less : ℕ) (others : List ℕ)
          → encrypt_chunks c id ivs (i + 1) cs h ≡ ok others
          → length others ≤ less
          → decrypt_rounds c less id others h ≡ ok (concat cs)

      go :
          Later
          → (r s : Result String (List ℕ)) → encrypt_for_client c id (ivs i) chunk h ≡ r
          → encrypt_chunks c id ivs (i + 1) cs h ≡ s
          → Goal output
      go later (ok encrypted) (ok others) f g =
          let same : frame encrypted others ≡ output = ground (arith, e) in
          let (opened, bound) = opens i chunk encrypted f in
          let size = length-frame encrypted others in
          let total : length (frame encrypted others) ≤ fuel = rw same le in
          subst Goal same (
            enough fuel chunk encrypted others (concat cs) (frame encrypted others)
              (omega (arith, size)) total
              (frame-Framed encrypted others (omega (arith, bound, small.0))) opened
              (λ less l. later less others g (omega (arith, size, total, l))))
      go later (ok encrypted) (err m) f g = ground (arith, e)
      go later (err m) s f g = ground (arith, e)

  -- What `encrypt_stream_for_client` makes, `decrypt_stream_from_client` takes apart: every
  -- plaintext of any length comes back whole, if each vector has 16 bytes.
  pub decrypt_stream-encrypt_stream :
      (plaintext output : List ℕ)
      → encrypt_stream_for_client c id ivs plaintext h ≡ ok output
      → decrypt_stream_from_client c id output h ≡ ok plaintext
  unfolding encrypt_stream_for_client decrypt_stream_from_client
  decrypt_stream-encrypt_stream plaintext output e =
      rounds (length output) 0 (chunks (length plaintext) encrypt_stream_chunk_size plaintext)
        output (chunks-small (length plaintext) encrypt_stream_chunk_size plaintext) e (omega arith)
      ∙ ap ok (
          concat-chunks (length plaintext) encrypt_stream_chunk_size plaintext (omega arith)
            (omega arith))
