-- ===== src/Registry/Tests.antt =====
-- registry.rs: the theorems at concrete registries, and small runs.
use crosspaste_server.Prelude.{
  All, List, String, [], arith, eq_iff, err, false, is_empty, is_ok, length, map, nat_Comparable,
  none, ok, range_from, refl, some, string_Comparable, true, ◌<◌, ◌∷◌, ◌≡◌, ◌≢◌, ◌≤◌, ◌⊎◌,
}
use crosspaste_server.Prelude.HashSet.{member, set_insert, set_remove}
use crosspaste_server.Prelude.Int.{as_i64, int_Comparable, pos}
use crosspaste_server.Prelude.Map.{insert, lookup}
use crosspaste_server.Protocol.{RoomInfo, TunnelFrame, http_response}
use crosspaste_server.Registry.Devices.{disconnected_frame, register_device, unregister_device}
use crosspaste_server.Registry.Events.{
  Event, creates, evicts, joins, opens, proxies, registers, run, step, unregisters,
}
use crosspaste_server.Registry.Invariant.Runs.{rooms-unregister_device, run-new-Inv}
use crosspaste_server.Registry.Invariant.Shape.{Inv}
use crosspaste_server.Registry.Linked.Steps.{get_device-run, step-Linked}
use crosspaste_server.Registry.Linked.Writes.{Linked}
use crosspaste_server.Registry.Membership.{
  Joined, generate_room_code_letters, is_code_letter, join_room-Joined, join_room-errors,
  leave_room-gone,
}
use crosspaste_server.Registry.Outcomes.{completes_once, disconnects, times_out}
use crosspaste_server.Registry.Replaced.{replaced_keeps_waiting}
use crosspaste_server.Registry.Samples.{config, phone, start}
use crosspaste_server.Registry.Requests.{
  Call, Outgoing, complete_request, elapsed, proxy_finish, proxy_send,
}
use crosspaste_server.Registry.Rooms.{
  create_room, gc_rooms, generate_room_code, join_room, leave_room, max_members, present,
}
use crosspaste_server.Registry.State.{
  DeviceSession, Registry, Room, get_device, new, send, system_time_ms,
}
use crosspaste_server.RelayError.{proxy_timeout, room_full, room_not_found}

abbrev online : Registry
online = (register_device phone "session-1" (pos 10) start).1

abbrev get_paste : Outgoing
get_paste = record { method = "GET"; path = "/pull/paste"; headers = []; body_b64 = none }

abbrev call : Call
call = record { session = 0; request_id = "request-1" }

abbrev busy : Registry
busy = (proxy_send "phone" get_paste "request-1" (pos 20) 20_000_000 online).1

went_out : proxy_send "phone" get_paste "request-1" (pos 20) 20_000_000 online ≡ (ok call, busy)
unfolding proxy_send register_device get_device lookup insert send
went_out = refl

abbrev answered : TunnelFrame
answered = http_response "request-1" 200 [] none none

completes_once_example :
    (lookup "request-1" (complete_request "phone" answered busy).replies ≡ some answered)
    × (complete_request "phone" answered (complete_request "phone" answered busy)
        ≡ complete_request "phone" answered busy)
completes_once_example =
    completes_once "phone" get_paste "request-1" (pos 20) 20_000_000 online busy call went_out 200
      200 [] [] none none none none

abbrev waiting_phone : DeviceSession
waiting_phone = record {
  app_instance_id = "phone";
  session_id = "session-1";
  device_name = some "Phone";
  app_version = none;
  sync_info_b64 = none;
  last_seen_ms = pos 20;
  frame_tx = 7;
  pending = ("request-1", record { responder = "request-1"; created_at = 20_000_000 }) ∷ [];
  room_code = none;
}

busy_phone : get_device "phone" busy ≡ some waiting_phone
unfolding proxy_send register_device get_device lookup insert send
busy_phone = refl

disconnects_example :
    (lookup "request-1" (unregister_device "phone" "session-1" busy).replies
      ≡ some disconnected_frame)
    × (get_device "phone" (unregister_device "phone" "session-1" busy) ≡ none)
disconnects_example =
    disconnects "phone" get_paste "request-1" (pos 20) 20_000_000 online busy call went_out
      waiting_phone busy_phone

times_out_example :
    ((proxy_finish call elapsed busy).0 ≡ err proxy_timeout)
    × ((s : DeviceSession)
        → lookup 0 (proxy_finish call elapsed busy).1.sessions ≡ some s
        → lookup "request-1" s.pending ≡ none)
times_out_example =
    times_out "phone" get_paste "request-1" (pos 20) 20_000_000 online busy call went_out

abbrev mixed_run : List Event
mixed_run =
    opens 7
    ∷ registers phone "session-1" (pos 10)
    ∷ creates "ABC234" 0
    ∷ joins "ABC234" "phone" 1 1
    ∷ proxies "phone" get_paste "request-1" (pos 20) 20_000_000
    ∷ registers phone "session-2" (pos 30)
    ∷ unregisters "phone" "session-1"
    ∷ evicts (pos 500_000)
    ∷ []

-- The third of three requests is refused.
abbrev busy_run : List Event
busy_run =
    opens 7
    ∷ registers phone "session-1" (pos 10)
    ∷ proxies "phone" get_paste "request-1" (pos 20) 20
    ∷ proxies "phone" get_paste "request-2" (pos 21) 21
    ∷ proxies "phone" get_paste "request-3" (pos 22) 22
    ∷ []

-- Two requests wait.
two_wait : map (λ (a, s). length s.pending) (run (new config) busy_run).sessions ≡ 2 ∷ []
unfolding run step new register_device proxy_send get_device lookup insert send
two_wait = refl

run-new-Inv_example : Inv config (run (new config) busy_run)
run-new-Inv_example = run-new-Inv config busy_run

abbrev once_more : DeviceSession
once_more = (register_device phone "session-1" (pos 10) start).0

found_again :
    get_device "phone" (run (new config) (opens 7 ∷ registers phone "session-1" (pos 10) ∷ []))
    ≡ some once_more
unfolding run step new register_device get_device lookup insert send
found_again = refl

get_device-run_example : once_more.app_instance_id ≡ "phone"
get_device-run_example =
    get_device-run config (opens 7 ∷ registers phone "session-1" (pos 10) ∷ []) "phone" once_more
      found_again

rooms-unregister_device_example :
    (unregister_device "phone" "session-2" (run (new config) mixed_run)).rooms
    ≡ (run (new config) mixed_run).rooms
rooms-unregister_device_example = rooms-unregister_device config mixed_run "phone" "session-2"

start-Linked : Linked start
unfolding lookup
start-Linked = record { own = λ id a e. cc; fresh = λ a h. refl }

online-Linked : Linked online
unfolding step
online-Linked = step-Linked start (registers phone "session-1" (pos 10)) start-Linked

other_session : ◌≢◌ {A = String} "session-2" "session-1"
other_session = ground (arith, eq_iff "session-2" "session-1")

replaced_keeps_waiting_example :
    (lookup 0 (register_device phone "session-2" (pos 30) busy).1.sessions ≡ some waiting_phone)
    × (lookup "request-1" waiting_phone.pending
        ≡ some (record { responder = "request-1"; created_at = 20_000_000 }))
    × (complete_request "phone" answered (register_device phone "session-2" (pos 30) busy).1
        ≡ (register_device phone "session-2" (pos 30) busy).1)
    × (unregister_device "phone" "session-1" (register_device phone "session-2" (pos 30) busy).1
        ≡ (register_device phone "session-2" (pos 30) busy).1)
replaced_keeps_waiting_example =
    replaced_keeps_waiting phone get_paste "request-1" (pos 20) 20_000_000 online busy call
      waiting_phone "session-2" (pos 30) 200 [] none none online-Linked went_out busy_phone
      other_session

abbrev meeting : Registry
meeting = (create_room "ABC234" 0 start).1

abbrev with_phone : Registry
with_phone = (join_room "ABC234" "phone" 1 1 meeting).1

abbrev joined_info : RoomInfo
joined_info = record { room_code = "ABC234"; members = []; expires_at_ms = pos 600_000 }

phone_joins : join_room "ABC234" "phone" 1 1 meeting ≡ (ok joined_info, with_phone)
unfolding join_room create_room lookup insert set_insert present get_device system_time_ms as_i64
phone_joins = refl

join_room-Joined_example : Joined "ABC234" "phone" 1 1 meeting with_phone
join_room-Joined_example =
    join_room-Joined "ABC234" "phone" 1 1 meeting with_phone joined_info phone_joins

abbrev lone_room : Room
lone_room = record {
  code = "ABC234";
  members = "phone" ∷ [];
  created_at = 0;
  expires_at = 600_000_000_000;
}

room_left : lookup "ABC234" (leave_room "ABC234" "laptop" with_phone).rooms ≡ some lone_room
unfolding leave_room join_room create_room lookup insert set_insert set_remove
room_left = refl

leave_room-gone_example :
    (member "laptop" lone_room.members ≡ false) × (is_empty lone_room.members ≡ false)
leave_room-gone_example = leave_room-gone "ABC234" "laptop" with_phone lone_room room_left

join_room-errors_example :
    (lookup "ABC234" (gc_rooms 1 start).rooms ≡ none)
      × ((join_room "ABC234" "phone" 1 1 start).0 ≡ err room_not_found)
    ⊎ ((room : Room) × (lookup "ABC234" (gc_rooms 1 start).rooms ≡ some room)
        × (room.expires_at < 1)
        × ((join_room "ABC234" "phone" 1 1 start).0 ≡ err room_not_found))
    ⊎ ((room : Room) × (lookup "ABC234" (gc_rooms 1 start).rooms ≡ some room)
        × (1 ≤ room.expires_at)
        × (max_members ≤ length room.members)
        × ((join_room "ABC234" "phone" 1 1 start).0 ≡ err room_full))
    ⊎ ((room : Room) × (lookup "ABC234" (gc_rooms 1 start).rooms ≡ some room)
        × (1 ≤ room.expires_at)
        × (length room.members < max_members)
        × (is_ok (join_room "ABC234" "phone" 1 1 start).0 ≡ true))
join_room-errors_example = join_room-errors "ABC234" "phone" 1 1 start

generate_room_code_letters_example :
    (length (generate_room_code (range_from 240 16)) ≡ 6)
    × All (λ c. is_code_letter c ≡ true) (generate_room_code (range_from 240 16))
generate_room_code_letters_example = generate_room_code_letters (range_from 240 16) refl
