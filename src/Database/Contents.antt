-- ===== src/Database/Contents.antt =====
-- database.rs: the tables of pastes and of file chunks.
use crosspaste_server.Database.Tables.{Database, execute, query}
use crosspaste_server.Prelude.{
  pair_Comparable, Exec, List, Option, String, nat_Comparable, string_Comparable, ℕ,
}
use crosspaste_server.Prelude.Int.{as_i64, int_Comparable, ℤ}
use crosspaste_server.Prelude.Map.{insert, lookup}

unfoldable pub save_paste :
    ℤ → String → Option ℤ → Option ℤ → String → ℤ → Exec Database String Unit
unfolding execute
save_paste id source paste_type size metadata now = execute λ d. record d {
  paste_records =
      insert id
        (record {
          source_app_instance_id = source;
          paste_type = paste_type;
          size = size;
          metadata_json = metadata;
          created_at_ms = now;
        })
        d.paste_records;
}

unfoldable pub save_file_chunk : ℤ → ℕ → List ℕ → Exec Database String Unit
unfolding execute
save_file_chunk paste_id chunk_index data_ =
    execute
      λ d. record d { file_chunks = insert (paste_id, as_i64 chunk_index) data_ d.file_chunks }

unfoldable pub load_file_chunk : ℤ → ℕ → Exec Database String (Option (List ℕ))
unfolding query
load_file_chunk paste_id chunk_index =
    query λ d. lookup (paste_id, as_i64 chunk_index) d.file_chunks
