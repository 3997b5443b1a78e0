-- ===== src/Registry/Rooms.antt =====
-- registry.rs: rooms. Each call takes what it reads from the clock.
use crosspaste_server.Prelude.{
  nat_Comparable, string_Comparable, ℕ, ◌+◌, ◌%◌, String, Option, none, some, List, [], ◌∷◌, map,
  ltb, leb, length, get_elem?, take, keep_if, is_empty, unwrap_or, if◌then◌else◌, ok, err,
}
use crosspaste_server.Prelude.Text.{codes}
use crosspaste_server.Prelude.Map.{lookup, insert, without}
use crosspaste_server.Prelude.HashSet.{set_insert, set_remove}
use crosspaste_server.Config.{room_ttl}
use crosspaste_server.Protocol.{DevicePublicInfo, RoomInfo}
use crosspaste_server.RelayError.{RelayResult, room_not_found, room_full}
use crosspaste_server.Registry.State.{Registry, Room, get_device, public, system_time_ms}

abbrev pub max_members : ℕ
max_members = 32

-- The letters and digits of a room code, as bytes.
abbrev pub alphabet : List ℕ
alphabet = codes "ABCDEFGHJKLMNPQRSTUVWXYZ23456789"

-- `bytes` are those of a new UUID.
unfoldable pub generate_room_code : List ℕ → List ℕ
generate_room_code bytes =
    map (λ b. unwrap_or 0 (get_elem? alphabet (b % length alphabet))) (take 6 bytes)

-- The members that are online, as `filter_map` finds them.
unfoldable pub present : Registry → List String → List DevicePublicInfo
present r [] = []
present r (id ∷ ids) = elim (get_device id r) [
  | none ↦ present r ids
  | some s ↦ public s ∷ present r ids
]

unfoldable pub gc_rooms : ℕ → Registry → Registry
gc_rooms now r = record r { rooms = keep_if (λ (k, room). ltb now room.expires_at) r.rooms }

-- `code` is what `generate_room_code` made of a new UUID.
unfoldable pub create_room : String → ℕ → Registry → RoomInfo × Registry
create_room code now r =
    let expires_at = now + room_ttl r.config in
    (
      record { room_code = code; members = []; expires_at_ms = system_time_ms expires_at },
      record r {
        rooms =
            insert code
              (record { code = code; members = []; created_at = now; expires_at = expires_at })
              r.rooms;
      },
    )

unfoldable pub info_of : String → Room → Registry → RoomInfo
info_of code room r = record {
  room_code = code;
  members = present r room.members;
  expires_at_ms = system_time_ms room.expires_at;
}

-- What `join_room` does with the room that it finds.
unfoldable pub join_found :
    Option Room → String → String → ℕ → Registry → RelayResult RoomInfo × Registry
unfolding info_of
join_found none code id now r = (err room_not_found, r)
join_found (some room) code id now r =
    if ltb room.expires_at now
    then (err room_not_found, record r { rooms = without code r.rooms })
    else if leb max_members (length room.members)
    then (err room_full, r)
    else let joined = record room { members = set_insert id room.members } in
      let r' = record r { rooms = insert code joined r.rooms } in (ok (info_of code joined r'), r')

-- `gc_now` and `now` are the two times that the call reads.
unfoldable pub join_room : String → String → ℕ → ℕ → Registry → RelayResult RoomInfo × Registry
unfolding gc_rooms join_found
join_room code id gc_now now r =
    let r' = gc_rooms gc_now r in join_found (lookup code r'.rooms) code id now r'

unfoldable pub leave_found : Option Room → String → String → Registry → Registry
leave_found none code id r = r
leave_found (some room) code id r =
    let members = set_remove id room.members in
    if is_empty members
    then record r { rooms = without code r.rooms }
    else record r { rooms = insert code (record room { members = members }) r.rooms }

unfoldable pub leave_room : String → String → Registry → Registry
unfolding leave_found
leave_room code id r = leave_found (lookup code r.rooms) code id r

unfoldable pub room_info : String → ℕ → Registry → RelayResult RoomInfo × Registry
unfolding gc_rooms info_of
room_info code now r =
    let r' = gc_rooms now r in
    elim (lookup code r'.rooms) [
      | none ↦ (err room_not_found, r')
      | some room ↦ (ok (info_of code room r'), r')
    ]
