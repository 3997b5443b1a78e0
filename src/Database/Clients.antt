-- ===== src/Database/Clients.antt =====
-- database.rs: the table `paired_clients` and the server's keys.
use crosspaste_server.Database.Tables.{ClientRow, Database, StoredClient, execute, query}
use crosspaste_server.Prelude.{
  Bool, Exec, List, Option, String, false, keep_if, map, nat_Comparable, none, pair_Comparable,
  some, string_Comparable, true, ℕ, ◌&&◌,
}
use crosspaste_server.Prelude.Int.{int_Comparable, leb_ℤ, ℤ}
use crosspaste_server.Prelude.Map.{Map, insert, lookup, without}

abbrev kept_sync_info : Option ClientRow → Option String
kept_sync_info none = none
kept_sync_info (some row) = row.client_sync_info

abbrev kept_last_seen : Option ClientRow → Option ℤ
kept_last_seen none = none
kept_last_seen (some row) = row.client_last_seen_ms

-- The row that `save_client` leaves: on a conflict what it does not name stays.
unfoldable pub saved : ℤ → List ℕ → Option ClientRow → ClientRow
saved paired_at_ms key old = record {
  client_paired_at_ms = paired_at_ms;
  client_key = key;
  client_sync_info = kept_sync_info old;
  client_last_seen_ms = kept_last_seen old;
  enabled = true;
}

unfoldable pub save_client : String → ℤ → List ℕ → Exec Database String Unit
unfolding saved execute
save_client id paired_at_ms key = execute λ d. record d {
  paired_clients = insert id (saved paired_at_ms key (lookup id d.paired_clients)) d.paired_clients;
}

-- `UPDATE ... WHERE app_instance_id=?1`
unfoldable pub update_row :
    String → (ClientRow → ClientRow) → Map String ClientRow → Map String ClientRow
update_row id f m = elim (lookup id m) [ none ↦ m | some row ↦ insert id (f row) m ]

abbrev pub informed : String → ℤ → ClientRow → ClientRow
informed json at row = record row { client_sync_info = some json; client_last_seen_ms = some at }

unfoldable pub update_client_sync_info : String → String → ℤ → Exec Database String Unit
unfolding execute update_row
update_client_sync_info id json last_seen_ms =
    execute
      λ d. record d { paired_clients = update_row id (informed json last_seen_ms) d.paired_clients }

abbrev pub seen_at : ℤ → ClientRow → ClientRow
seen_at at row = record row { client_last_seen_ms = some at }

unfoldable pub touch_client : String → ℤ → Exec Database String Unit
unfolding execute update_row
touch_client id last_seen_ms =
    execute λ d. record d { paired_clients = update_row id (seen_at last_seen_ms) d.paired_clients }

unfoldable pub remove_client : String → Exec Database String Unit
unfolding execute
remove_client id = execute λ d. record d { paired_clients = without id d.paired_clients }

abbrev pub stored : String × ClientRow → StoredClient
stored (id, row) = record {
  app_instance_id = id;
  paired_at_ms = row.client_paired_at_ms;
  crypt_public_key = row.client_key;
  sync_info_json = row.client_sync_info;
  last_seen_ms = row.client_last_seen_ms;
}

-- `SELECT ... WHERE enabled=1`
unfoldable pub enabled_clients : Map String ClientRow → List StoredClient
enabled_clients m = map stored (keep_if (λ (id, row). row.enabled) m)

unfoldable pub load_clients : Exec Database String (List StoredClient)
unfolding query enabled_clients
load_clients = query λ d. enabled_clients d.paired_clients

abbrev seen_since : ℤ → Option ℤ → Bool
seen_since active_since_ms none = false
seen_since active_since_ms (some t) = leb_ℤ active_since_ms t

unfoldable pub online_client_ids : ℤ → Exec Database String (List String)
unfolding query
online_client_ids active_since_ms = query λ d.
    map (λ (id, row). id)
      (keep_if (λ (id, row). row.enabled && seen_since active_since_ms row.client_last_seen_ms)
        d.paired_clients)

unfoldable pub load_server_keys : Exec Database String (Option (List ℕ × List ℕ))
unfolding query
load_server_keys = query λ d. d.server_keys

unfoldable pub save_server_keys : List ℕ → List ℕ → Exec Database String Unit
unfolding execute
save_server_keys sign crypt = execute λ d. record d { server_keys = some (sign, crypt) }
