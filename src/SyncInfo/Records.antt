-- ===== src/SyncInfo/Records.antt =====
-- sync_info.rs and discovery.rs: the SyncInfo in a header and in TXT records, and what is announced.
use crosspaste_server.Codec.{Base64, Json, JsonText}
use crosspaste_server.Prelude.{
  List, Result, String, [], length, nat_Comparable, ok, pair_Comparable, string_Comparable, try, ℕ,
  ◌+◌, ◌∷◌,
}
use crosspaste_server.Prelude.Bytes.{as_bytes, chunks, decimal}
use crosspaste_server.Prelude.Int.{int_Comparable}
use crosspaste_server.Prelude.Map.{Map, insert}
use crosspaste_server.Prelude.Text.{codes, codes_Comparable}
use crosspaste_server.SyncInfo.Info.{SyncInfo}

module _ (b : Base64) where
  unfoldable pub encode_sync_info_header : Json SyncInfo → SyncInfo → Result String String
  encode_sync_info_header j info = try (j.to_vec info) λ bytes. ok (b.encode bytes)

  -- Chunks under the decimal numbers of their places, from `i`.
  unfoldable pub number_chunks : ℕ → List (List ℕ) → Map (List ℕ) (List ℕ) → Map (List ℕ) (List ℕ)
  number_chunks i [] out = out
  number_chunks i (chunk ∷ rest) out = number_chunks (i + 1) rest (insert (decimal i) chunk out)

  -- The encoded text is ASCII, so its bytes are its characters.
  unfoldable pub encode_txt_record :
      JsonText SyncInfo → SyncInfo → ℕ → Result String (Map (List ℕ) (List ℕ))
  unfolding number_chunks
  encode_txt_record j info chunk_size = try (j.to_string info) λ json.
      let encoded = codes (b.encode (as_bytes json)) in
      ok (number_chunks 0 (chunks (length encoded) chunk_size encoded) [])
