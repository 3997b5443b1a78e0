-- ===== src/Hub/ReportTests.antt =====
-- hub.rs: a paste for two clients, of which one answers.
use crosspaste_server.Secure.Cipher.{encrypt_for_client as encrypt_with}
use crosspaste_server.Codec.{Json}
use crosspaste_server.Codec.Value.{Value}
use crosspaste_server.Hub.Broadcast.{broadcast_paste, deliver_paste, deliver_to, targets_of}
use crosspaste_server.Hub.Samples.{paste, ready}
use crosspaste_server.Hub.Streams.{encrypt_for_client}
use crosspaste_server.Hub.World.{World, encrypted_for, exchange, is_success, take_vector}
use crosspaste_server.Prelude.{
  [], nat_Comparable, ok, pair_Comparable, refl, string_Comparable, ◌∷◌, ◌≡◌,
}
use crosspaste_server.Prelude.Int.{int_Comparable, pos}
use crosspaste_server.Prelude.Map.{lookup}
use crosspaste_server.Prelude.Text.{codes_Comparable}
use crosspaste_server.Secure.Samples.{toy}
use crosspaste_server.SyncInfo.Info.{SyncInfo}
use crosspaste_server.SyncInfo.Tests.{info}

abbrev at_host : SyncInfo
at_host = record info {
  endpoint_info = record info.endpoint_info {
    host_info_list =
        record { network_prefix_length = pos 24; host_address = "10.0.0.2"; last_seen = pos 0 }
        ∷ [];
  };
}

abbrev world : World
world = record {
  hub = record ready {
    client_crypt_keys = ("phone", 6 ∷ []) ∷ ("tablet", 8 ∷ []) ∷ [];
    client_sync_infos = ("phone", at_host) ∷ ("tablet", at_host) ∷ ("laptop", at_host) ∷ [];
  };
  replies = ok (record { status = 200; body = [] }) ∷ [];
  vectors = [];
  requests = [];
}

abbrev json_values : Json Value
json_values = record { to_vec = λ v. ok (123 ∷ 125 ∷ []); from_slice = λ s. ok paste }

-- The tablet gets the paste; the laptop has no key.
reported :
    (broadcast_paste toy json_values "phone" "crosspaste-server" paste world).0
    ≡ record { attempted = 2; delivered = 1; failed = 1 }
unfolding broadcast_paste targets_of deliver_to deliver_paste encrypted_for take_vector
    encrypt_for_client encrypt_with exchange is_success lookup
reported = refl
