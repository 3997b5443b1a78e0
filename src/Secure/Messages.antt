-- ===== src/Secure/Messages.antt =====
-- secure.rs: the messages, the server's keys, and what is taken from the cryptographic packages.
use crosspaste_server.Codec.{Base64, Base64Laws}
use crosspaste_server.Prelude.{
  Bool, List, Option, Result, String, length, ok, some, true, ℕ, ◌+◌, ◌≡◌, ◌≤◌,
}
use crosspaste_server.Prelude.Bytes.{AreBytes}
use crosspaste_server.Prelude.Int.{ℤ}

pub record PairingRequest : Type 0 where
  pub sign_public_key : String
  pub crypt_public_key : String
  pub token : ℕ
  pub timestamp : ℤ

pub record PairingResponse : Type 0 where
  pub sign_public_key : String
  pub crypt_public_key : String
  pub timestamp : ℤ

pub record TrustRequest : Type 0 where
  pub pairing_request : PairingRequest
  pub signature : String

pub record TrustResponse : Type 0 where
  pub pairing_response : PairingResponse
  pub signature : String

pub record KeyExchangeRequest : Type 0 where
  pub sign_public_key : String
  pub crypt_public_key : String
  pub timestamp : ℤ
  pub signature : String

pub record KeyExchangeResponse : Type 0 where
  pub sign_public_key : String
  pub crypt_public_key : String
  pub timestamp : ℤ
  pub signature : String

pub record TrustConfirmRequest : Type 0 where
  pub timestamp : ℤ
  pub signature : String

pub record TrustConfirmResponse : Type 0 where
  pub timestamp : ℤ
  pub signature : String

-- The private keys, as their bytes.
pub record ServerKeys : Type 0 where
  pub sign_key : List ℕ
  pub crypt_key : List ℕ

-- The functions of `p256`, `aes`, `cbc`, `sha2` and `base64` that the program calls. Keys and
-- signatures are DER bytes.
pub record Crypto : Type 0 where
  pub base64 : Base64
  pub is_public_key : List ℕ → Bool
  pub is_signature : List ℕ → Bool
  pub verifies : (key text signature : List ℕ) → Bool
  pub sign_public : (private : List ℕ) → Result String (List ℕ)
  pub crypt_public : (private : List ℕ) → Result String (List ℕ)
  pub sign_text : (private text : List ℕ) → List ℕ
  pub agree : (private public : List ℕ) → Result String (List ℕ)
  pub aes_encrypt : (key iv plain : List ℕ) → List ℕ
  pub aes_decrypt : (key iv cipher : List ℕ) → Option (List ℕ)
  pub sha256 : List ℕ → List ℕ

-- What the padded block cipher promises of a key of 32 bytes and a vector of 16: what was encrypted
-- is decrypted by the same two, and padding adds one block at most. The keys agreed on have 32 bytes.
pub record CipherLaws (c : Crypto) : Type 0 where
  pub length-agree :
      (private public key : List ℕ) → c.agree private public ≡ ok key → length key ≡ 32
  pub aes_decrypt-aes_encrypt :
      (key iv plain : List ℕ)
      → length key ≡ 32
      → length iv ≡ 16
      → c.aes_decrypt key iv (c.aes_encrypt key iv plain) ≡ some plain
  pub length-aes_encrypt :
      (key iv plain : List ℕ)
      → length key ≡ 32
      → length iv ≡ 16
      → length (c.aes_encrypt key iv plain) ≤ length plain + 16

-- What the signature scheme promises of a key pair and of the signatures that it makes.
pub record SignatureLaws (c : Crypto) : Type 0 where
  pub base64_laws : Base64Laws c.base64
  pub sign_public-AreBytes : (k der : List ℕ) → c.sign_public k ≡ ok der → AreBytes der
  pub sign_public-key : (k der : List ℕ) → c.sign_public k ≡ ok der → c.is_public_key der ≡ true
  pub sign_text-AreBytes : (k text : List ℕ) → AreBytes (c.sign_text k text)
  pub sign_text-signature : (k text : List ℕ) → c.is_signature (c.sign_text k text) ≡ true
  pub verifies-sign_text :
      (k der text : List ℕ)
      → c.sign_public k ≡ ok der
      → c.verifies der text (c.sign_text k text) ≡ true
