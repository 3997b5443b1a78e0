-- ===== src/Hub/Contents.antt =====
-- hub.rs: what the hub keeps of pastes, of the clients' SyncInfo, and of files.
use crosspaste_server.Database.Clients.{update_client_sync_info as save_sync_info}
use crosspaste_server.Codec.{JsonText}
use crosspaste_server.Codec.Value.{Value, as_i64, get, integer, put, string}
use crosspaste_server.Database.Contents.{load_file_chunk, save_paste}
use crosspaste_server.Hub.Push.{CompletedPush}
use crosspaste_server.Hub.State.{
  Action, Directory, Files, Hub, is_paired, on_database, on_files, read_chunk,
}
use crosspaste_server.Prelude.{
  Exec, List, Option, String, [], and_then, ensure, gets, lift, ltb, modify, nat_Comparable, none,
  ok_or, pair_Comparable, pure, some, string_Comparable, suc, unwrap_or, zero, ℕ, ◌++◌, ◌+◌, ◌>>=◌,
  ◌>>◌,
}
use crosspaste_server.Prelude.Int.{int_Comparable, ℤ}
use crosspaste_server.Prelude.Map.{insert, lookup}
use crosspaste_server.SyncInfo.Info.{SyncInfo}

unfoldable pub receive_paste : JsonText Value → String → Value → (now stored_at : ℤ) → Action Unit
unfolding is_paired
receive_paste j id paste now stored_at = do
  paired ← gets (is_paired id)
  ensure paired "unpaired client"
  let paste_id = unwrap_or now (and_then as_i64 (get "id" paste))
  metadata ← lift (j.to_string paste)
  on_database (
      save_paste paste_id id (and_then as_i64 (get "pasteType" paste))
        (and_then as_i64 (get "size" paste)) metadata stored_at)
  modify (λ h. record h { pastes = insert (id, paste_id) paste h.pastes })

unfoldable pub update_client_sync_info : JsonText SyncInfo → String → SyncInfo → ℤ → Action Unit
unfolding is_paired
update_client_sync_info j id info now = do
  paired ← gets (is_paired id)
  ensure paired "unpaired client"
  json ← lift (j.to_string info)
  on_database (save_sync_info id json now)
  modify (λ h. record h { client_sync_infos = insert id info h.client_sync_infos })

-- A chunk that the database has not, from the files of a transfer that is done.
unfoldable pub read_stored : ℤ → ℕ → Action (List ℕ)
read_stored paste_id chunk_index = do
  found ← gets (λ h. lookup paste_id h.stored_files)
  stored ← lift (ok_or "stored file not found" found)
  ensure (ltb chunk_index stored.chunk_count) "chunk index out of range"
  on_files (read_chunk stored.directory chunk_index)

abbrev or_read : Option (List ℕ) → Action (List ℕ) → Action (List ℕ)
or_read (some bytes) m = pure bytes
or_read none m = m

unfoldable pub read_file_chunk : ℤ → ℕ → Action (List ℕ)
unfolding read_stored
read_file_chunk paste_id chunk_index = do
  found ← on_database (load_file_chunk paste_id chunk_index)
  or_read found (read_stored paste_id chunk_index)

-- The files of chunks `i` to `i + n`, one after the other.
unfoldable pub read_chunks : Directory → ℕ → ℕ → Exec Files String (List ℕ)
read_chunks directory i zero = pure []
read_chunks directory i (suc n) = do
  bytes ← read_chunk directory i
  rest ← read_chunks directory (i + 1) n
  pure (bytes ++ rest)

unfoldable pub read_completed_push : CompletedPush → Exec Files String (List ℕ)
unfolding read_chunks
read_completed_push completed = read_chunks completed.directory 0 completed.chunk_count

abbrev put_id : Option ℤ → Value → Value
put_id none paste = paste
put_id (some paste_id) paste = put "id" (integer paste_id) paste

unfoldable pub normalize_paste : Value → String → Option ℤ → Value
normalize_paste paste server paste_id = put_id paste_id (put "appInstanceId" (string server) paste)

-- What `broadcast_completed_push` keeps when it is done.
unfoldable pub keep_stored_file : CompletedPush → Hub → Hub
keep_stored_file completed h = record h {
  stored_files =
      insert completed.paste_id
        (record { directory = completed.directory; chunk_count = completed.chunk_count })
        h.stored_files;
}
