-- ===== src/Secure/Samples.antt =====
-- A concrete scheme for the examples of other modules.
-- A toy scheme: the shared key and the signature are constants, and the cipher adds nothing.
use crosspaste_server.Codec.Samples.{sample_base64, sample_base64-laws}
use crosspaste_server.Prelude.{
  List, [], arith, eqb, err, if◌then◌else◌, is_empty, length, ok, refl, replicate, some, subst,
  true, ℕ, ◌∷◌, ◌≡◌,
}
use crosspaste_server.Prelude.Bytes.{AreBytes}
use crosspaste_server.Secure.Messages.{CipherLaws, Crypto, SignatureLaws}

abbrev pub toy : Crypto
toy = record {
  base64 = sample_base64;
  is_public_key = λ der. eqb (length der) 2;
  is_signature = λ der. eqb (length der) 1;
  verifies = λ key text signature. true;
  sign_public = λ k. ok (4 ∷ 5 ∷ []);
  crypt_public = λ k. ok (6 ∷ []);
  sign_text = λ k text. 7 ∷ [];
  agree = λ k p. if is_empty p then err "invalid key" else ok (replicate 32 1);
  aes_encrypt = λ key iv plain. plain;
  aes_decrypt = λ key iv cipher. some cipher;
  sha256 = λ bytes. bytes;
}

pub toy-CipherLaws : CipherLaws toy
toy-CipherLaws = record {
  length-agree = λ k p key h. agreed p key h;
  aes_decrypt-aes_encrypt = λ key iv plain k v. refl;
  length-aes_encrypt = λ key iv plain k v. omega arith;
}
  where
    agreed : (p key : List ℕ) → toy.agree [] p ≡ ok key → length key ≡ 32
    agreed [] key h = cc
    agreed (b ∷ p) key h =
        let e : replicate 32 1 ≡ key = ground (arith, h) in
        subst (λ (l : List ℕ). length l ≡ 32) e refl

pub toy-SignatureLaws : SignatureLaws toy
toy-SignatureLaws = record {
  base64_laws = sample_base64-laws;
  sign_public-AreBytes =
      λ k der h. let e : 4 ∷ 5 ∷ [] ≡ der = ground arith in subst AreBytes e (omega arith);
  sign_public-key = λ k der h.
      let e : 4 ∷ 5 ∷ [] ≡ der = ground arith in subst (λ d. eqb (length d) 2 ≡ true) e refl;
  sign_text-AreBytes = λ k text. omega arith;
  sign_text-signature = λ k text. refl;
  verifies-sign_text = λ k der text h. refl;
}
