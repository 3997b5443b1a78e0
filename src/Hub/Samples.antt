-- ===== src/Hub/Samples.antt =====
-- Concrete hubs for the examples of other modules.
use crosspaste_server.Codec.{JsonText}
use crosspaste_server.Codec.Samples.{to_unary}
use crosspaste_server.Codec.Value.{Value, field_then, integer, no_fields, null, object}
use crosspaste_server.Database.Clients.{enabled_clients, load_clients, load_server_keys}
use crosspaste_server.Database.Tables.{Database, query}
use crosspaste_server.Hub.Events.{Event, prepares, sets, stores, trusts}
use crosspaste_server.Hub.Push.{new_session}
use crosspaste_server.Hub.Restart.{
  Disk, KeyFormat, admit_all, empty_hub, keys_or_new, load_disk, load_or_create,
  load_or_create_server_keys,
}
use crosspaste_server.Hub.State.{Hub, PushSession, create_dir_all, directory_Comparable, pushed}
use crosspaste_server.Prelude.{List, [], err, none, ok, refl, some, true, ◌∷◌, ◌≡◌}
use crosspaste_server.Prelude.Int.{pos}
use crosspaste_server.Secure.Messages.{ServerKeys, TrustRequest}
use crosspaste_server.SyncInfo.Info.{SyncInfo}

abbrev pub keys : ServerKeys
keys = record { sign_key = 1 ∷ []; crypt_key = 2 ∷ [] }

abbrev pub tables : Database
tables = record {
  faults = [];
  server_keys = some (1 ∷ [], 2 ∷ []);
  paired_clients = [];
  paste_records = [];
  file_chunks = [];
  admin_users = [];
  admin_sessions = [];
  settings = [];
  request_logs = [];
  next_log_id = 1;
  audit_logs = [];
  next_audit_id = 1;
}

abbrev pub disk : Disk
disk = record {
  tables = tables;
  directories = record { file_faults = []; chunk_files = []; icons = [] };
}

abbrev pub format : KeyFormat
format = record {
  from_pkcs8 = λ sign crypt. ok (record { sign_key = sign; crypt_key = crypt });
  private_keys_pkcs8 = λ k. ok (k.sign_key, k.crypt_key);
}

abbrev pub values : JsonText Value
values = record { to_string = λ v. ok "{}"; from_str = λ s. err "not kept" }

abbrev pub infos : JsonText SyncInfo
infos = record { to_string = λ v. ok "{}"; from_str = λ s. err "not kept" }

-- A hub that has issued the token 123456 for thirty seconds from second 1.
abbrev pub issued : Hub
issued = record (empty_hub keys disk) {
  pairing_token = record { value = 123_456; expires_at_ms = pos 31_000; client_id = none };
}

abbrev pub broken : Hub
broken = record issued { database = record tables { faults = some "disk full" ∷ [] } }

abbrev pub request : TrustRequest
request = record {
  pairing_request = record {
    sign_public_key = to_unary (4 ∷ 5 ∷ []);
    crypt_public_key = to_unary (6 ∷ []);
    token = 123_456;
    timestamp = pos 2_000;
  };
  signature = to_unary (7 ∷ []);
}

-- A start, a pairing, and a SyncInfo of the client.
abbrev pub started_hub : Hub
started_hub = empty_hub keys disk

pub start : load_or_create format infos keys disk ≡ (ok started_hub, disk)
unfolding load_or_create load_disk create_dir_all load_or_create_server_keys keys_or_new
    load_server_keys load_clients query enabled_clients admit_all
start = refl

abbrev pub paste : Value
paste = object (field_then "size" (integer (pos 3)) no_fields)

abbrev pub calls : List Event
calls =
    sets 123_456 (pos 1_000)
    ∷ trusts "phone" request (pos 2_000) (pos 2_001) (pos 2_002)
    ∷ prepares "phone" paste (pos 3_000) "token"
    ∷ stores "phone" (pos 3_000) 0 "token" (1 ∷ 2 ∷ 3 ∷ [])
    ∷ []

-- A client whose key is known, and whose push of one chunk is whole.
abbrev pub session : PushSession
session = record (new_session (pos 3_000) "phone" null "token" 1) { received = true ∷ [] }

abbrev pub waiting : PushSession
waiting = new_session (pos 4_000) "phone" null "other" 2

abbrev pub ready : Hub
ready = record started_hub {
  clients = ("phone", record { app_instance_id = "phone"; paired_at_ms = pos 2_001 }) ∷ [];
  client_crypt_keys = ("phone", 6 ∷ []) ∷ [];
  push_sessions = (pos 3_000, session) ∷ (pos 4_000, waiting) ∷ [];
  files = record {
    file_faults = [];
    chunk_files = ((pushed (pos 3_000), 0), 1 ∷ 2 ∷ 3 ∷ []) ∷ [];
    icons = [];
  };
  database = record tables { file_chunks = ((pos 3_000, pos 0), 1 ∷ 2 ∷ 3 ∷ []) ∷ [] };
}
