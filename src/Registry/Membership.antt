-- ===== src/Registry/Membership.antt =====
-- registry.rs: who is in a room after a call that joins or leaves it, and how room codes look.
use crosspaste_server.Prelude.{
  All, Bool, Bool-cases, List, Option, Option-cases, String, [], all, ap, arith, err, false,
  get_elem?, inl, inr, is_empty, is_ok, leb, length, length-map, length-take, ltb, map,
  nat_Comparable, none, not, ok, refl, some, string_Comparable, subst, suc, take, true, unwrap_or,
  zero, ℕ, ◌%◌, ◌&&◌, ◌<◌, ◌==◌, ◌||◌, ◌∙◌, ◌∷◌, ◌≡◌, ◌≢◌, ◌≤◌, ◌⊎◌,
}
use crosspaste_server.Prelude.HashSet.{
  member, member-set_insert, member-set_remove, set_insert, set_remove,
}
use crosspaste_server.Prelude.Int.{int_Comparable}
use crosspaste_server.Prelude.Map.{
  same_refl, insert, lookup, lookup-insert_ne, lookup-insert_self, lookup-without_self,
}
use crosspaste_server.Prelude.Text.{is_ascii_digit, is_ascii_uppercase}
use crosspaste_server.Protocol.{RoomInfo}
use crosspaste_server.Registry.Rooms.{
  alphabet, gc_rooms, generate_room_code, join_found, join_room, leave_found, leave_room,
  max_members,
}
use crosspaste_server.Registry.State.{Registry, Room}
use crosspaste_server.RelayError.{RelayResult, room_full, room_not_found}

pub record Joined (code id : String) (gc_now now : ℕ) (r q : Registry) : Type 0 where
  pub before : Room
  pub after : Room
  pub existed : lookup code (gc_rooms gc_now r).rooms ≡ some before
  pub current : now ≤ before.expires_at
  pub space : length before.members < max_members
  pub stored : lookup code q.rooms ≡ some after
  pub expires : after.expires_at ≡ before.expires_at
  pub members :
      (other : String) → member other after.members ≡ (id == other || member other before.members)
  pub elsewhere :
      (other : String)
      → code ≢ other
      → lookup other q.rooms ≡ lookup other (gc_rooms gc_now r).rooms

join_found-Joined :
    (o : Option Room) (code id : String) (gc_now now : ℕ) (r q : Registry) (info : RoomInfo)
    → lookup code (gc_rooms gc_now r).rooms ≡ o
    → join_found o code id now (gc_rooms gc_now r) ≡ (ok info, q)
    → Joined code id gc_now now r q
unfolding join_found
join_found-Joined none code id gc_now now r q info e h = cc
join_found-Joined (some room) code id gc_now now r q info e h =
    elim (Bool-cases (ltb room.expires_at now)) [
      | inl old ↦ absurd (ground arith)
      | inr live ↦ elim (Bool-cases (leb max_members (length room.members))) [
        | inl full ↦ absurd (ground arith)
        | inr free ↦
            let joined : Room = record room { members = set_insert id room.members } in
            let same : record (gc_rooms gc_now r) {
              rooms = insert code joined (gc_rooms gc_now r).rooms;
            }
                ≡ q =
              ap (λ (p : RelayResult RoomInfo × Registry). p.1) (rw (live, free) at h) in
            subst (Joined code id gc_now now r) same (record {
              before = room;
              after = joined;
              existed = e;
              current = ground arith;
              space = ground arith;
              stored = lookup-insert_self code joined (gc_rooms gc_now r).rooms;
              expires = refl;
              members = λ other. member-set_insert id other room.members;
              elsewhere = λ other n. lookup-insert_ne code other joined (gc_rooms gc_now r).rooms n;
            })
      ]
    ]

-- A caller that joins is in the room with exactly the members of before; the room had less than 32
-- members and had not expired, and every other room is as the collection of expired rooms left it.
pub join_room-Joined :
    (code id : String) (gc_now now : ℕ) (r q : Registry) (info : RoomInfo)
    → join_room code id gc_now now r ≡ (ok info, q)
    → Joined code id gc_now now r q
unfolding join_room
join_room-Joined code id gc_now now r q info =
    join_found-Joined (lookup code (gc_rooms gc_now r).rooms) code id gc_now now r q info refl

-- Joining ends in one of four ways: no room of that code is left, the room has expired, it is full, or
-- the call succeeds; each with its error and the state of the room that leads to it.
pub join_room-errors :
    (code id : String) (gc_now now : ℕ) (r : Registry)
    → let rooms = (gc_rooms gc_now r).rooms in
      ((lookup code rooms ≡ none) × ((join_room code id gc_now now r).0 ≡ err room_not_found))
      ⊎ ((room : Room) × (lookup code rooms ≡ some room)
          × (room.expires_at < now)
          × ((join_room code id gc_now now r).0 ≡ err room_not_found))
      ⊎ ((room : Room) × (lookup code rooms ≡ some room)
          × (now ≤ room.expires_at)
          × (max_members ≤ length room.members)
          × ((join_room code id gc_now now r).0 ≡ err room_full))
      ⊎ ((room : Room) × (lookup code rooms ≡ some room)
          × (now ≤ room.expires_at)
          × (length room.members < max_members)
          × (is_ok (join_room code id gc_now now r).0 ≡ true))
unfolding join_room join_found
join_room-errors code id gc_now now r =
    elim (Option-cases (lookup code (gc_rooms gc_now r).rooms)) [
      | inl e ↦ inl (e, rw (e, join_found))
      | inr (room, e) ↦ elim (Bool-cases (ltb room.expires_at now)) [
        | inl old ↦ inr (inl (room, e, ground arith, rw (e, join_found) (rw old)))
        | inr live ↦ elim (Bool-cases (leb max_members (length room.members))) [
          | inl full ↦ inr (
              inr (inl (room, e, ground arith, ground arith, rw (e, join_found) (rw (live, full)))))
          | inr free ↦ inr (
              inr (inr (room, e, ground arith, ground arith, rw (e, join_found) (rw (live, free)))))
        ]
      ]
    ]

member-is_empty : (id : String) (xs : List String) → is_empty xs ≡ true → member id xs ≡ false
unfolding member
member-is_empty id [] e = refl
member-is_empty id (x ∷ xs) e = cc

leave_found-gone :
    (o : Option Room) (code id : String) (r : Registry) (room : Room)
    → lookup code r.rooms ≡ o
    → lookup code (leave_found o code id r).rooms ≡ some room
    → (member id room.members ≡ false) × (is_empty room.members ≡ false)
unfolding leave_found
leave_found-gone none code id r room e h = cc
leave_found-gone (some old) code id r room e h =
    elim (Bool-cases (is_empty (set_remove id old.members))) [
      | inl last ↦ cc (lookup-without_self code r.rooms, rw last at h)
      | inr more ↦
          let left : Room = record old { members = set_remove id old.members } in
          let same : left ≡ room = ground (arith, lookup-insert_self code left r.rooms) in
          subst (λ (x : Room). (member id x.members ≡ false) × (is_empty x.members ≡ false)) same
            (member-set_remove id id old.members ∙ rw same_refl, more)
    ]

-- After a call that leaves, the caller is not in the room, and a room without members is gone.
pub leave_room-gone :
    (code id : String) (r : Registry) (room : Room)
    → lookup code (leave_room code id r).rooms ≡ some room
    → (member id room.members ≡ false) × (is_empty room.members ≡ false)
unfolding leave_room
leave_room-gone code id r room = leave_found-gone (lookup code r.rooms) code id r room refl

get_elem?-all :
    (p : ℕ → Bool) (xs : List ℕ) (i : ℕ)
    → all p xs ≡ true
    → i < length xs
    → p (unwrap_or 0 (get_elem? xs i)) ≡ true
get_elem?-all p [] i h lt = elim lt [ ]
get_elem?-all p (x ∷ xs) zero h lt = ground arith
get_elem?-all p (x ∷ xs) (suc i) h lt = get_elem?-all p xs i (ground arith) (omega arith)

-- A capital letter or a digit, none of which is easily taken for another.
pub is_code_letter : ℕ → Bool
unfolding is_ascii_uppercase is_ascii_digit
is_code_letter c =
    (is_ascii_uppercase c || is_ascii_digit c)
    && not (c == b'I' || c == b'O' || c == b'0' || c == b'1')

code_letter :
    (b : ℕ) → is_code_letter (unwrap_or 0 (get_elem? alphabet (b % length alphabet))) ≡ true
unfolding is_code_letter
code_letter b = get_elem?-all is_code_letter alphabet (b % 32) refl (omega arith)

letters :
    (n : ℕ) (bytes : List ℕ)
    → All
        (λ c. is_code_letter c ≡ true)
        (map (λ b. unwrap_or 0 (get_elem? alphabet (b % length alphabet))) (take n bytes))
letters zero bytes = tt
letters (suc n) [] = tt
letters (suc n) (b ∷ bytes) = (code_letter b, letters n bytes)

-- A room code that is made of a UUID has six characters, capital letters and digits without I, O, 0, 1.
pub generate_room_code_letters :
    (bytes : List ℕ)
    → length bytes ≡ 16
    → (length (generate_room_code bytes) ≡ 6)
      × All (λ c. is_code_letter c ≡ true) (generate_room_code bytes)
unfolding generate_room_code
generate_room_code_letters bytes h = (
  omega (
    arith,
    length-map (λ b. unwrap_or 0 (get_elem? alphabet (b % length alphabet))) (take 6 bytes),
    length-take 6 bytes,
  ),
  letters 6 bytes,
)
