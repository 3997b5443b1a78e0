-- ===== src/Admin/Rows.antt =====
-- admin.rs: the rows of the list of clients, and their order.
use crosspaste_server.Codec.{JsonText}
use crosspaste_server.Database.Tables.{StoredClient}
use crosspaste_server.Hub.State.{client_sync_info}
use crosspaste_server.Prelude.{
  Bool, List, Option, String, [], and_then, err, false, if◌then◌else◌, is_some, is_some_and, map,
  nat_Comparable, none, not, ok, or_else, pair_Comparable, some, string_Comparable, true, unwrap_or,
  ◌||◌, ◌∷◌,
}
use crosspaste_server.Prelude.Bytes.{as_bytes, le_bytes}
use crosspaste_server.Prelude.Int.{int_Comparable, leb_ℤ, pos, ℤ, ◌-ℤ◌}
use crosspaste_server.Prelude.Text.{codes_Comparable}
use crosspaste_server.Registry.State.{DeviceSession, get_device}
use crosspaste_server.SyncInfo.Info.{SyncInfo}
use crosspaste_server.SyncInfo.Tests.{info}
use crosspaste_server.Tunnel.State.{AppState}

abbrev pub client_online_window_ms : ℤ
client_online_window_ms = pos 45_000

pub record AdminClient : Type 0 where
  pub app_instance_id : String
  pub device_name : String
  pub device_id : Option String
  pub platform_name : String
  pub platform_version : String
  pub architecture : String
  pub app_version : String
  pub user_name : Option String
  pub addresses : List String
  pub port : Option ℤ
  pub paired_at_ms : Option ℤ
  pub last_seen_ms : Option ℤ
  pub online : Bool
  pub is_server : Bool

abbrev addresses_of : SyncInfo → List String
addresses_of info = map (λ h. h.host_address) info.endpoint_info.host_info_list

-- The row of the server itself.
unfoldable pub server_client : SyncInfo → ℤ → AdminClient
server_client info now = record {
  app_instance_id = info.app_info.app_instance_id;
  device_name = info.endpoint_info.device_name;
  device_id = some info.endpoint_info.device_id;
  platform_name = info.endpoint_info.platform.name;
  platform_version = info.endpoint_info.platform.version;
  architecture = info.endpoint_info.platform.arch;
  app_version = info.app_info.app_version;
  user_name = some info.app_info.user_name;
  addresses = addresses_of info;
  port = some info.endpoint_info.port;
  paired_at_ms = none;
  last_seen_ms = some now;
  online = true;
  is_server = true;
}

abbrev of_info : {A : Type 0} → (SyncInfo → A) → Option SyncInfo → Option A
of_info f = and_then (λ info. some (f info))

abbrev of_tunnel : {A : Type 0} → (DeviceSession → Option A) → Option DeviceSession → Option A
of_tunnel f = and_then f

unfoldable pub from_client :
    StoredClient → Option SyncInfo → Option DeviceSession → Bool → AdminClient
from_client client info tunnel online = record {
  app_instance_id = client.app_instance_id;
  device_name = unwrap_or client.app_instance_id (
      or_else (of_info (λ i. i.endpoint_info.device_name) info)
        (of_tunnel (λ t. t.device_name) tunnel));
  device_id = of_info (λ i. i.endpoint_info.device_id) info;
  platform_name = unwrap_or "Unknown" (of_info (λ i. i.endpoint_info.platform.name) info);
  platform_version = unwrap_or "" (of_info (λ i. i.endpoint_info.platform.version) info);
  architecture = unwrap_or "" (of_info (λ i. i.endpoint_info.platform.arch) info);
  app_version = unwrap_or "" (
      or_else (of_info (λ i. i.app_info.app_version) info) (of_tunnel (λ t. t.app_version) tunnel));
  user_name = of_info (λ i. i.app_info.user_name) info;
  addresses = unwrap_or [] (of_info addresses_of info);
  port = of_info (λ i. i.endpoint_info.port) info;
  paired_at_ms = some client.paired_at_ms;
  last_seen_ms = or_else (of_tunnel (λ t. some t.last_seen_ms) tunnel) client.last_seen_ms;
  online = online;
  is_server = false;
}

-- `i64::saturating_sub`: where it saturates, the comparison with the window ends the same way.
abbrev elapsed_since : ℤ → ℤ → ℤ
elapsed_since now last_seen = now -ℤ last_seen

unfoldable pub is_online : ℤ → StoredClient → Option DeviceSession → Bool
is_online now client tunnel =
    is_some tunnel
    || is_some_and (λ last_seen. leb_ℤ (elapsed_since now last_seen) client_online_window_ms)
        client.last_seen_ms

abbrev parsed : JsonText SyncInfo → String → Option SyncInfo
parsed j text = elim (j.from_str text) [ ok info ↦ some info | err e ↦ none ]

unfoldable pub row_of : JsonText SyncInfo → ℤ → AppState → StoredClient → AdminClient
unfolding client_sync_info get_device from_client is_online
row_of j now s client =
    let tunnel = get_device client.app_instance_id s.registry in
    from_client client
      (or_else (and_then (parsed j) client.sync_info_json)
        (client_sync_info client.app_instance_id s.hub))
      tunnel (is_online now client tunnel)

-- The order of rows: the server first, then who is online, then by name as bytes.
unfoldable pub ltb_client : AdminClient → AdminClient → Bool
ltb_client a b =
    if not (same_flag a.is_server b.is_server)
    then a.is_server
    else if not (same_flag a.online b.online)
    then a.online
    else not (le_bytes (as_bytes b.device_name) (as_bytes a.device_name))
  where
    same_flag : Bool → Bool → Bool
    same_flag true x = x
    same_flag false x = not x

unfoldable pub insert_client : AdminClient → List AdminClient → List AdminClient
unfolding ltb_client
insert_client c [] = c ∷ []
insert_client c (x ∷ xs) =
    let rest = insert_client c xs in if ltb_client x c then x ∷ rest else c ∷ x ∷ xs

unfoldable pub sort_clients : List AdminClient → List AdminClient
unfolding insert_client
sort_clients [] = []
sort_clients (c ∷ cs) = insert_client c (sort_clients cs)
