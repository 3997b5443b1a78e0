-- ===== src/Codec.antt =====
-- What the program takes from other packages to turn data into text and back: base64 (the `base64`
-- package) and JSON (`serde_json`). A record of their functions, and of what is relied on.
pub mod Samples
pub mod Value
use crosspaste_server.Prelude.{List, Option, Result, String, [], ok, some, ℕ, ◌≡◌, ◌≢◌}
use crosspaste_server.Prelude.Bytes.{AreBytes}

-- The standard alphabet: text of bytes, and bytes of text that is well formed.
pub record Base64 : Type 0 where
  pub encode : List ℕ → String
  pub decode : String → Option (List ℕ)

-- Decoding an encoded byte string gives it back.
pub record Base64Laws (b : Base64) : Type 0 where
  pub decode-encode : (bytes : List ℕ) → AreBytes bytes → b.decode (b.encode bytes) ≡ some bytes

-- Serialisation of one type.
pub record Json (A : Type 0) : Type 0 where
  pub to_vec : A → Result String (List ℕ)
  pub from_slice : List ℕ → Result String A

-- What serialises to some bytes is read back from them; text is never empty, and is made of bytes.
pub record JsonLaws {A : Type 0} (j : Json A) : Type 0 where
  pub from_slice-to_vec :
      (a : A) (bytes : List ℕ) → j.to_vec a ≡ ok bytes → j.from_slice bytes ≡ ok a
  pub to_vec-AreBytes : (a : A) (bytes : List ℕ) → j.to_vec a ≡ ok bytes → AreBytes bytes
  pub to_vec_nonempty : (a : A) → j.to_vec a ≢ ok []

-- Serialisation of one type as text.
pub record JsonText (A : Type 0) : Type 0 where
  pub to_string : A → Result String String
  pub from_str : String → Result String A
