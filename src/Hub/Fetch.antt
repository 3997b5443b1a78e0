-- ===== src/Hub/Fetch.antt =====
-- hub.rs: the server pulls a file, or the icon of a paste, from the client that offers it.
use crosspaste_server.Codec.{Json}
use crosspaste_server.Codec.Value.{Value, as_i64, as_u64, get}
use crosspaste_server.Hub.Icons.{icon_path, store_icon}
use crosspaste_server.Hub.Push.{div_ceil, file_chunk_size}
use crosspaste_server.Hub.State.{
  Directory, create_dir_all, directory_Comparable, on_files, pulled, write_chunk,
}
use crosspaste_server.Hub.Streams.{decrypt_stream_from_client}
use crosspaste_server.Hub.World.{
  Sends, addressed, client_base_url, encrypted_for, exchange, is_success, json_type, of_hub,
}
use crosspaste_server.Prelude.{
  Bool, List, String, [], and_then, ensure, false, gets, lift, modify, nat_Comparable, ok_or,
  pair_Comparable, pure, string_Comparable, suc, true, zero, ℕ, ◌++◌, ◌+◌, ◌>>=◌, ◌>>◌, ◌∷◌,
}
use crosspaste_server.Prelude.Bytes.{as_bytes}
use crosspaste_server.Prelude.Formats.{percent_encode}
use crosspaste_server.Prelude.Int.{int_Comparable, ℤ}
use crosspaste_server.Prelude.Map.{contains_key, insert, lookup}
use crosspaste_server.Prelude.Text.{codes, codes_Comparable}
use crosspaste_server.Protocol.{header_app_instance_id}
use crosspaste_server.Secure.Messages.{Crypto}

pub record PullFileRequest : Type 0 where
  pub id : ℤ
  pub chunk_index : ℕ

-- The address of a client, by its SyncInfo.
unfoldable pub base_url_of : String → Sends (List ℕ)
unfolding client_base_url
base_url_of id = do
  found ← gets (λ w. lookup id w.hub.client_sync_infos)
  info ← lift (ok_or "source client has no SyncInfo" found)
  lift (ok_or "source client has no reachable host" (client_base_url info))

module _ (c : Crypto) where
  module _ (j : Json PullFileRequest) (base_url : List ℕ) (id server : String) (source_id : ℤ) where
    -- The chunks `i` to `i + n`, into the files of a directory.
    unfoldable pub pull_chunks : Directory → ℕ → ℕ → Sends Unit
    unfolding encrypted_for exchange is_success decrypt_stream_from_client write_chunk
    pull_chunks directory i zero = pure tt
    pull_chunks directory i (suc n) = do
      request ← lift (j.to_vec (record { id = source_id; chunk_index = i }))
      encrypted ← encrypted_for c id request
      reply ← exchange (record {
        url = base_url ++ codes "/pull/file";
        headers = addressed server id (json_type ∷ []);
        body = encrypted;
      })
      ensure (is_success reply.status) "source rejected file chunk"
      h ← gets (λ w. w.hub)
      bytes ← lift (decrypt_stream_from_client c id reply.body h)
      of_hub (on_files (write_chunk directory i bytes))
      pull_chunks directory (i + 1) n

  -- The file is kept under the time of the call.
  unfoldable pub cache_pull_file_from_client :
      Json PullFileRequest → String → String → Value → (now : ℤ) → Sends ℤ
  unfolding base_url_of pull_chunks create_dir_all div_ceil
  cache_pull_file_from_client j id server paste now = do
    source_id ← lift (ok_or "file paste is missing id" (and_then as_i64 (get "id" paste)))
    size ← lift (ok_or "file paste is missing size" (and_then as_u64 (get "size" paste)))
    base_url ← base_url_of id
    of_hub (on_files create_dir_all)
    let chunk_count = div_ceil size file_chunk_size
    pull_chunks j base_url id server source_id (pulled now) 0 chunk_count
    of_hub (
        modify (λ h. record h {
          stored_files =
              insert now (record { directory = pulled now; chunk_count = chunk_count })
                h.stored_files;
        }))
    pure now

  abbrev fetch_unless : Bool → Sends Unit → Sends Unit
  fetch_unless true m = pure tt
  fetch_unless false m = m

  unfoldable pub fetch_icon : String → String → String → Sends Unit
  unfolding base_url_of exchange is_success store_icon percent_encode
  fetch_icon id server source = do
    base_url ← base_url_of id
    reply ← exchange (record {
      url = base_url ++ (codes "/pull/icon/" ++ percent_encode (as_bytes source));
      headers = (header_app_instance_id, codes server) ∷ [];
      body = [];
    })
    ensure (is_success reply.status) "source icon request failed"
    of_hub (store_icon c source reply.body)

  -- Only an icon that is not there yet.
  unfoldable pub cache_icon_from_client : String → String → String → Sends Unit
  unfolding icon_path fetch_icon
  cache_icon_from_client id server source = do
    path ← lift (icon_path c source)
    there ← gets (λ w. contains_key path w.hub.files.icons)
    fetch_unless there (fetch_icon id server source)
