-- ===== src/SyncInfo/Qr.antt =====
-- sync_info.rs: the payload of a pairing QR code.
use crosspaste_server.Codec.{Base64, Base64Laws, Json, JsonLaws}
use crosspaste_server.Prelude.{
  All-append, List, Result, String, [], ap, arith, drop, drop-append_exact, err, false,
  if◌then◌else◌, is_empty, length, length-append, ltb, ok, ok_or, refl, some, subst, take,
  take-append_exact, try, ℕ, ◌%◌, ◌++◌, ◌+◌, ◌-◌, ◌<◌, ◌^◌, ◌∙◌, ◌∷◌, ◌≡◌,
}
use crosspaste_server.Prelude.Bytes.{
  from_be_bytes, from_be_bytes-to_be_bytes, length-to_be_bytes, to_be_bytes, to_be_bytes-AreBytes,
}
use crosspaste_server.SyncInfo.Info.{SyncInfo}
use crosspaste_server.SyncInfo.Rotate.{
  length-rotate_right, rotate_right, rotate_right-AreBytes, rotate_right-back,
}

not_empty : (bytes : List ℕ) → 0 < length bytes → is_empty bytes ≡ false
not_empty [] h = elim h [ ]
not_empty (x ∷ bytes) h = refl

module _ (b : Base64) (j : Json SyncInfo) where
  unfoldable pub pack : List ℕ → ℕ → String
  pack bytes token =
      if is_empty bytes
      then b.encode (to_be_bytes token)
      else b.encode (rotate_right bytes (token % length bytes) ++ to_be_bytes token)

  unfoldable pub encode_qr_payload : SyncInfo → ℕ → Result String String
  unfolding pack
  encode_qr_payload info token = try (j.to_vec info) (λ bytes. ok (pack bytes token))

  -- Of the bytes of the payload: the rotated text, and the token of the last four.
  unfoldable pub unpack : List ℕ → ℕ → Result String (SyncInfo × ℕ)
  unpack rotated token =
      let offset = token % length rotated in
      try (j.from_slice (rotate_right rotated ((length rotated - offset) % length rotated)))
        (λ info. ok (info, token))

  unfoldable pub decode_qr_payload : String → Result String (SyncInfo × ℕ)
  unfolding unpack
  decode_qr_payload encoded = try (ok_or "invalid base64" (b.decode encoded)) λ decoded.
      if ltb (length decoded) 5
      then err "QR payload too short"
      else try (ok_or "not four bytes" (from_be_bytes (drop (length decoded - 4) decoded)))
          (unpack (take (length decoded - 4) decoded))

  module _ (bl : Base64Laws b) (jl : JsonLaws j) (info : SyncInfo) (token : ℕ)
      (h : token < 2 ^ 32) where
    module _ (bytes : List ℕ) (serialised : j.to_vec info ≡ ok bytes) where
      abbrev rotated : List ℕ
      rotated = rotate_right bytes (token % length bytes)

      nonempty : 0 < length bytes
      nonempty = ground (arith, jl.to_vec_nonempty info)

      same : length rotated ≡ length bytes
      same = length-rotate_right bytes (token % length bytes)

      size : length (rotated ++ to_be_bytes token) ≡ length rotated + 4
      size =
          length-append rotated (to_be_bytes token)
          ∙ ap (λ n. length rotated + n) (length-to_be_bytes token)

      decoded : b.decode (pack bytes token) ≡ some (rotated ++ to_be_bytes token)
      unfolding pack
      decoded = rw (not_empty bytes nonempty) (
          bl.decode-encode (rotated ++ to_be_bytes token) (
            All-append _ rotated (to_be_bytes token)
              (rotate_right-AreBytes bytes (token % length bytes)
                (jl.to_vec-AreBytes info bytes serialised))
              (to_be_bytes-AreBytes token h)))

      unpacked : unpack rotated token ≡ ok (info, token)
      unfolding unpack
      unpacked = rw same (
          rw (rotate_right-back bytes (token % length bytes) (omega (arith, nonempty)))
            (rw (jl.from_slice-to_vec info bytes serialised)))

      opened : decode_qr_payload (pack bytes token) ≡ ok (info, token)
      unfolding decode_qr_payload
      opened = rw decoded (
          rw size (
            rw (long_enough, four_left)
              (rw
                (
                  drop-append_exact rotated (to_be_bytes token),
                  take-append_exact rotated (to_be_bytes token),
                )
                (rw (from_be_bytes-to_be_bytes token) unpacked))))
        where
          long_enough : ltb (length rotated + 4) 5 ≡ false
          long_enough = ground (arith, nonempty, same)

          four_left : length rotated + 4 - 4 ≡ length rotated
          four_left = omega arith

    -- A payload that the server makes of its SyncInfo and a 32-bit token is read back as those two.
    pub decode_qr_payload-encode_qr_payload :
        (payload : String)
        → encode_qr_payload info token ≡ ok payload
        → decode_qr_payload payload ≡ ok (info, token)
    decode_qr_payload-encode_qr_payload payload e = go (j.to_vec info) refl
      where
        go :
            (r : Result String (List ℕ))
            → j.to_vec info ≡ r
            → decode_qr_payload payload ≡ ok (info, token)
        go (ok bytes) f =
            let made : pack bytes token ≡ payload = unfold encode_qr_payload in ground (arith, e) in
            subst (λ p. decode_qr_payload p ≡ ok (info, token)) made (opened bytes f)
        go (err m) f = unfold encode_qr_payload in cc (rw f at e)
