-- ===== src/Hub/Durable/Tests.antt =====
-- hub.rs: a restart after calls that pair a client and take a chunk.
use crosspaste_server.Codec.Samples.{of_unary, to_unary}
use crosspaste_server.Codec.Value.{as_u64, get}
use crosspaste_server.Database.Clients.{
  enabled_clients, load_clients, load_server_keys, save_client, saved,
}
use crosspaste_server.Database.Contents.{save_file_chunk}
use crosspaste_server.Database.Tables.{execute, query}
use crosspaste_server.Hub.Durable.Runs.{load_or_create-run}
use crosspaste_server.Hub.Events.{run, step}
use crosspaste_server.Hub.Pairing.{set_pairing_token, set_pairing_token_for, trust_v1}
use crosspaste_server.Hub.Push.{prepare_push, session_for, store_push_chunk}
use crosspaste_server.Hub.Restart.{
  Disk, admit, admit_all, empty_hub, keys_or_new, load_disk, load_or_create,
  load_or_create_server_keys,
}
use crosspaste_server.Hub.Samples.{calls, disk, format, infos, keys, start, started_hub, values}
use crosspaste_server.Hub.State.{Hub, create_dir_all, is_paired, write_chunk}
use crosspaste_server.Prelude.{
  [], nat_Comparable, ok, pair_Comparable, refl, string_Comparable, ◌∷◌, ◌≡◌,
}
use crosspaste_server.Prelude.Int.{int_Comparable, pos}
use crosspaste_server.Prelude.Map.{insert, lookup, without}
use crosspaste_server.Secure.Samples.{toy}
use crosspaste_server.Secure.Verify.{
  client_crypt_public_key, verify_pairing_request, verify_signature, verifying_key_from_b64,
}

abbrev after : Disk
after = record {
  tables = (run toy values infos calls started_hub).database;
  directories = disk.directories;
}

abbrev restarted : Hub
restarted = record (empty_hub keys after) {
  clients = ("phone", record { app_instance_id = "phone"; paired_at_ms = pos 2_001 }) ∷ [];
  client_crypt_keys = ("phone", 6 ∷ []) ∷ [];
}

restart : load_or_create format infos keys after ≡ (ok restarted, after)
unfolding load_or_create load_disk create_dir_all load_or_create_server_keys keys_or_new
    load_server_keys load_clients query enabled_clients admit_all admit run step set_pairing_token
    set_pairing_token_for trust_v1 of_unary to_unary verify_pairing_request verifying_key_from_b64
    verify_signature client_crypt_public_key save_client saved execute prepare_push is_paired
    store_push_chunk session_for lookup insert without get as_u64 write_chunk save_file_chunk
restart = refl

load_or_create-run_example :
    (lookup "phone" restarted.clients
      ≡ lookup "phone" (run toy values infos calls started_hub).clients)
    × (lookup "phone" restarted.client_crypt_keys
        ≡ lookup "phone" (run toy values infos calls started_hub).client_crypt_keys)
load_or_create-run_example =
    load_or_create-run toy values infos format keys keys disk disk started_hub calls
      disk.directories restarted after refl tt start restart "phone"
