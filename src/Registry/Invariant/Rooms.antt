-- ===== src/Registry/Invariant/Rooms.antt =====
-- registry.rs: the calls on rooms keep the invariant.
use crosspaste_server.Prelude.{
  nat_Comparable, string_Comparable, ℕ, String, ◌≡◌, refl, is_empty, ltb, false, Option, none, some,
  arith, length, inl, inr, Bool-cases, Option-cases, leb,
}
use crosspaste_server.Prelude.Map.{
  Map, lookup, Values, Values-insert, Values-without, Values-lookup, Values-keep_if,
}
use crosspaste_server.Prelude.HashSet.{
  set_insert-IsDistinct, set_remove-IsDistinct, length-set_insert-le, length-set_remove-le,
  set_insert, set_remove,
}
use crosspaste_server.Config.{Config}
use crosspaste_server.Registry.State.{Registry, Room}
use crosspaste_server.Registry.Rooms.{
  max_members, gc_rooms, create_room, join_found, join_room, leave_found, leave_room, room_info,
}
use crosspaste_server.Registry.Invariant.Shape.{Inv, RoomOk}

join_room-Ok :
    (id : String) (room : Room)
    → RoomOk room
    → leb max_members (length room.members) ≡ false
    → RoomOk (record room { members = set_insert id room.members })
join_room-Ok id room ok space = record {
  bounded = grind (arith, length-set_insert-le id room.members);
  distinct = set_insert-IsDistinct id room.members ok.distinct;
}

module _ {c : Config} where
  pub rooms-Inv :
      (rooms : Map String Room) (r : Registry)
      → Values RoomOk rooms
      → Inv c r
      → Inv c (record r { rooms = rooms })
  rooms-Inv rooms r h v = record {
    same_config = v.same_config;
    rooms_ok = h;
    sessions_ok = v.sessions_ok;
  }

  pub gc_rooms-Inv : (now : ℕ) (r : Registry) → Inv c r → Inv c (gc_rooms now r)
  unfolding gc_rooms
  gc_rooms-Inv now r v = rooms-Inv _ r (Values-keep_if _ _ r.rooms v.rooms_ok) v

  pub create_room-Inv :
      (code : String) (now : ℕ) (r : Registry) → Inv c r → Inv c (create_room code now r).1
  unfolding create_room
  create_room-Inv code now r v =
      rooms-Inv _ r
        (Values-insert _ code _ r.rooms (record { bounded = omega arith; distinct = tt })
          v.rooms_ok)
        v

  pub join_found-Inv :
      (o : Option Room) (code id : String) (now : ℕ) (r : Registry)
      → ((room : Room) → o ≡ some room → RoomOk room)
      → Inv c r
      → Inv c (join_found o code id now r).1
  unfolding join_found
  join_found-Inv none code id now r ok v = v
  join_found-Inv (some room) code id now r ok v = elim (Bool-cases (ltb room.expires_at now)) [
    | inl old ↦ rw old (rooms-Inv _ r (Values-without _ code r.rooms v.rooms_ok) v)
    | inr live ↦ elim (Bool-cases (leb max_members (length room.members))) [
      | inl full ↦ rw (live, full) v
      | inr space ↦
          rw (live, space)
            (rooms-Inv _ r
              (Values-insert _ code _ r.rooms (join_room-Ok id room (ok room refl) space)
                v.rooms_ok)
              v)
    ]
  ]

  pub join_room-Inv :
      (code id : String) (gc_now now : ℕ) (r : Registry)
      → Inv c r
      → Inv c (join_room code id gc_now now r).1
  unfolding join_room
  join_room-Inv code id gc_now now r v =
      let w = gc_rooms-Inv gc_now r v in
      join_found-Inv (lookup code (gc_rooms gc_now r).rooms) code id now (gc_rooms gc_now r)
        (λ room. Values-lookup _ code (gc_rooms gc_now r).rooms room w.rooms_ok) w

  pub leave_found-Inv :
      (o : Option Room) (code id : String) (r : Registry)
      → ((room : Room) → o ≡ some room → RoomOk room)
      → Inv c r
      → Inv c (leave_found o code id r)
  unfolding leave_found
  leave_found-Inv none code id r ok v = v
  leave_found-Inv (some room) code id r ok v =
      elim (Bool-cases (is_empty (set_remove id room.members))) [
        | inl e ↦ rw e (rooms-Inv _ r (Values-without _ code r.rooms v.rooms_ok) v)
        | inr e ↦ rw e (
            rooms-Inv _ r
              (Values-insert _ code _ r.rooms
                (record {
                  bounded =
                      omega (arith, (ok room refl).bounded, length-set_remove-le id room.members);
                  distinct = set_remove-IsDistinct id room.members (ok room refl).distinct;
                })
                v.rooms_ok)
              v)
      ]

  pub leave_room-Inv : (code id : String) (r : Registry) → Inv c r → Inv c (leave_room code id r)
  unfolding leave_room
  leave_room-Inv code id r v =
      leave_found-Inv (lookup code r.rooms) code id r
        (λ room. Values-lookup _ code r.rooms room v.rooms_ok) v

  pub room_info-Inv :
      (code : String) (now : ℕ) (r : Registry) → Inv c r → Inv c (room_info code now r).1
  unfolding room_info
  room_info-Inv code now r v = elim (Option-cases (lookup code (gc_rooms now r).rooms)) [
    | inl e ↦ rw (e, room_info) (gc_rooms-Inv now r v)
    | inr (room, e) ↦ rw (e, room_info) (gc_rooms-Inv now r v)
  ]
