-- ===== src/Hub/Restart.antt =====
-- hub.rs and database.rs: what the server has after a start.
use crosspaste_server.Codec.{JsonText}
use crosspaste_server.Database.Clients.{load_clients, load_server_keys, save_server_keys}
use crosspaste_server.Database.Tables.{Database, StoredClient}
use crosspaste_server.Hub.State.{Files, Hub, create_dir_all}
use crosspaste_server.Prelude.{
  Exec, List, Option, Result, String, [], err, gets, lift, nat_Comparable, none, ok,
  pair_Comparable, pure, some, string_Comparable, ℕ, ◌>>=◌, ◌>>◌, ◌∷◌,
}
use crosspaste_server.Prelude.Int.{int_Comparable, pos}
use crosspaste_server.Prelude.Map.{Map, insert}
use crosspaste_server.Secure.Messages.{ServerKeys}
use crosspaste_server.SyncInfo.Info.{SyncInfo}

-- The private keys as the database keeps them.
pub record KeyFormat : Type 0 where
  pub from_pkcs8 : (sign crypt : List ℕ) → Result String ServerKeys
  pub private_keys_pkcs8 : ServerKeys → Result String (List ℕ × List ℕ)

-- What outlives the process.
pub record Disk : Type 0 where
  pub tables : Database
  pub directories : Files

abbrev with_tables : {A : Type 0} → Result String A × Database → Disk → Result String A × Disk
with_tables (r, d) k = (r, record k { tables = d })

abbrev on_tables : {A : Type 0} → Exec Database String A → Exec Disk String A
on_tables m k = with_tables (m k.tables) k

abbrev with_directories : {A : Type 0} → Result String A × Files → Disk → Result String A × Disk
with_directories (r, d) k = (r, record k { directories = d })

abbrev on_directories : {A : Type 0} → Exec Files String A → Exec Disk String A
on_directories m k = with_directories (m k.directories) k

module _ (f : KeyFormat) where
  -- `generated` are the keys that `ServerKeys::generate` makes.
  unfoldable pub keys_or_new :
      ServerKeys → Option (List ℕ × List ℕ) → Exec Database String ServerKeys
  keys_or_new generated (some (sign, crypt)) = lift (f.from_pkcs8 sign crypt)
  keys_or_new generated none = do
    pair ← lift (f.private_keys_pkcs8 generated)
    save_server_keys pair.0 pair.1
    pure generated

  unfoldable pub load_or_create_server_keys : ServerKeys → Exec Database String ServerKeys
  unfolding keys_or_new
  load_or_create_server_keys generated = do found ← load_server_keys; keys_or_new generated found

module _ (j : JsonText SyncInfo) where
  abbrev read_sync_info : String → Option String → Map String SyncInfo → Map String SyncInfo
  read_sync_info id none m = m
  read_sync_info id (some json) m = elim (j.from_str json) [
    | ok info ↦ insert id info m
    | err e ↦ m
  ]

  unfoldable pub admit : StoredClient → Hub → Hub
  admit client h = record h {
    client_sync_infos =
        read_sync_info client.app_instance_id client.sync_info_json h.client_sync_infos;
    client_crypt_keys = insert client.app_instance_id client.crypt_public_key h.client_crypt_keys;
    clients =
        insert client.app_instance_id
          (record { app_instance_id = client.app_instance_id; paired_at_ms = client.paired_at_ms })
          h.clients;
  }

  unfoldable pub admit_all : List StoredClient → Hub → Hub
  unfolding admit
  admit_all [] h = h
  admit_all (client ∷ clients) h = admit_all clients (admit client h)

abbrev pub empty_hub : ServerKeys → Disk → Hub
empty_hub keys k = record {
  keys = keys;
  database = k.tables;
  files = k.directories;
  pairing_token = record { value = 0; expires_at_ms = pos 0; client_id = none };
  clients = [];
  client_crypt_keys = [];
  pending_key_exchanges = [];
  client_sync_infos = [];
  pastes = [];
  push_sessions = [];
  stored_files = [];
}

-- What `load_or_create` reads from the disk.
unfoldable pub load_disk :
    KeyFormat → ServerKeys → Exec Disk String (ServerKeys × List StoredClient)
unfolding load_or_create_server_keys
load_disk f generated = do
  on_directories create_dir_all
  on_directories create_dir_all
  on_directories create_dir_all
  keys ← on_tables (load_or_create_server_keys f generated)
  persisted_clients ← on_tables load_clients
  pure (keys, persisted_clients)

-- The hub holds the disk as it is after the call.
unfoldable pub load_or_create : KeyFormat → JsonText SyncInfo → ServerKeys → Exec Disk String Hub
unfolding load_disk admit_all
load_or_create f j generated = do
  loaded ← load_disk f generated
  disk ← gets (λ k. k)
  pure (admit_all j loaded.1 (empty_hub loaded.0 disk))
