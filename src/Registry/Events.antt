-- ===== src/Registry/Events.antt =====
-- registry.rs: the calls that change the registry, in any order that the tasks of the server make them.
use crosspaste_server.Prelude.{
  List, String, [], nat_Comparable, pair_Comparable, string_Comparable, ℕ, ◌∷◌,
}
use crosspaste_server.Prelude.Int.{int_Comparable, ℤ}
use crosspaste_server.Prelude.Map.{lookup}
use crosspaste_server.Prelude.Text.{codes_Comparable}
use crosspaste_server.Protocol.{TunnelFrame}
use crosspaste_server.Registry.Devices.{
  Registration, gc_stale_devices, register_device, touch_device, unregister_device,
}
use crosspaste_server.Registry.Requests.{
  Awaited, Call, Outgoing, complete_request, proxy_finish, proxy_send,
}
use crosspaste_server.Registry.Rooms.{create_room, gc_rooms, join_room, leave_room, room_info}
use crosspaste_server.Registry.State.{Registry, drop_receiver, open_channel}

-- A socket opens a channel before its device registers, and closes it at its end.
pub data Event : Type 0 where
  registers : Registration → (session_id : String) → (now : ℤ) → Event
  unregisters : (id session_id : String) → Event
  touches : String → (now : ℤ) → Event
  completes : String → TunnelFrame → Event
  proxies : (target : String) → Outgoing → (request_id : String) → (now : ℤ) → (at : ℕ) → Event
  finishes : Call → Awaited → Event
  creates : (code : String) → (now : ℕ) → Event
  joins : (code id : String) → (gc_now now : ℕ) → Event
  leaves : (code id : String) → Event
  informs : (code : String) → (now : ℕ) → Event
  collects : (now : ℕ) → Event
  evicts : (now : ℤ) → Event
  opens closes : (tx : ℕ) → Event

unfoldable pub step : Registry → Event → Registry
step r (registers g session_id now) = (register_device g session_id now r).1
step r (unregisters id session_id) = unregister_device id session_id r
step r (touches id now) = touch_device id now r
step r (completes id frame) = complete_request id frame r
step r (proxies target o request_id now at) = (proxy_send target o request_id now at r).1
step r (finishes c a) = (proxy_finish c a r).1
step r (creates code now) = (create_room code now r).1
step r (joins code id gc_now now) = (join_room code id gc_now now r).1
step r (leaves code id) = leave_room code id r
step r (informs code now) = (room_info code now r).1
step r (collects now) = gc_rooms now r
step r (evicts now) = gc_stale_devices now r
step r (opens tx) = open_channel tx r
step r (closes tx) = drop_receiver (lookup tx r.channels) tx r

unfoldable pub run : Registry → List Event → Registry
run r [] = r
run r (e ∷ es) = run (step r e) es
