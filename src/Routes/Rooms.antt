-- ===== src/Routes/Rooms.antt =====
-- routes.rs: the lists of clients and devices, and rooms, for who has the token of the server.
use crosspaste_server.Registry.Devices.{list_devices as list_registered}
use crosspaste_server.Registry.Rooms.{
  create_room as create_in, join_room as join_in, leave_room as leave_in,
}
use crosspaste_server.Auth.{HeaderMap, check_auth, trim}
use crosspaste_server.Hub.State.{PairedClient, list_clients}
use crosspaste_server.Prelude.{
  List, Result, String, ensure, gets, is_empty, not, ok, pure, unwrap_or, ℕ, ◌>>=◌, ◌>>◌,
}
use crosspaste_server.Prelude.Int.{ℤ}
use crosspaste_server.Prelude.Text.{codes}
use crosspaste_server.Protocol.{DevicePublicInfo, RoomInfo}
use crosspaste_server.Proxy.{app_instance_id_name, text_of}
use crosspaste_server.Registry.Rooms.{room_info}
use crosspaste_server.Registry.State.{Registry}
use crosspaste_server.RelayError.{Error, code, missing_app_instance_id}
use crosspaste_server.Routes.Guards.{Handles}
use crosspaste_server.Tunnel.State.{modify_registry, on_registry}

abbrev authorised : HeaderMap → Handles Unit
authorised headers s = (check_auth s.config headers, s)

abbrev run_in : {A : Type 0} → (Registry → A × Registry) → Registry → Result Error A × Registry
run_in f r = let out = f r in (ok out.0, out.1)

unfoldable pub list_paired_clients : HeaderMap → Handles (List PairedClient)
unfolding check_auth list_clients
list_paired_clients headers = do authorised headers; gets (λ s. list_clients s.hub)

unfoldable pub list_devices : HeaderMap → Handles (List DevicePublicInfo)
unfolding check_auth list_registered
list_devices headers = do authorised headers; gets (λ s. list_registered s.registry)

pub record CreateRoomResponse : Type 0 where
  pub room_code : String
  pub expires_at_ms : ℤ

-- `code` is the code that is generated.
unfoldable pub create_room : HeaderMap → (code : String) → (now : ℕ) → Handles CreateRoomResponse
unfolding check_auth create_in
create_room headers code now = do
  authorised headers
  info ← on_registry (run_in (create_in code now))
  pure (record { room_code = info.room_code; expires_at_ms = info.expires_at_ms })

unfoldable pub get_room : HeaderMap → String → (now : ℕ) → Handles RoomInfo
unfolding check_auth room_info
get_room headers code now = do authorised headers; on_registry (room_info code now)

-- The header names the member; without one the body does.
abbrev member_of : HeaderMap → String → String
member_of headers id = unwrap_or id (text_of app_instance_id_name headers)

unfoldable pub join_room : HeaderMap → String → String → (gc_now now : ℕ) → Handles RoomInfo
unfolding check_auth text_of join_in
join_room headers code id gc_now now = do
  authorised headers
  ensure (not (is_empty (trim (codes id)))) missing_app_instance_id
  on_registry (join_in code (member_of headers id) gc_now now)

unfoldable pub leave_room : HeaderMap → String → String → Handles Unit
unfolding check_auth text_of leave_in
leave_room headers code id = do
  authorised headers
  modify_registry (leave_in code (member_of headers id))
