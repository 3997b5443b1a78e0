-- ===== src/Registry/Invariant/Shape.antt =====
-- registry.rs: the invariant of the registry, and the writes that every operation is made of.
use crosspaste_server.Prelude.{
  nat_Comparable, string_Comparable, ℕ, ◌≤◌, String, ◌≡◌, refl, ◌∙◌, Option, none, some, arith,
  length, inl, inr, Option-cases,
}
use crosspaste_server.Prelude.Map.{lookup, Values, Values-insert, Values-lookup, length-without-le}
use crosspaste_server.Prelude.HashSet.{IsDistinct}
use crosspaste_server.Config.{Config}
use crosspaste_server.Protocol.{TunnelFrame}
use crosspaste_server.Registry.State.{
  Registry, Room, DeviceSession, new, send, respond, get_device, session_at, put_session,
}
use crosspaste_server.Registry.Rooms.{max_members}
use crosspaste_server.Registry.Requests.{drop_pending}
use crosspaste_server.Registry.Fields.{config-send, rooms-send, sessions-send}

pub record RoomOk (room : Room) : Type 0 where
  pub bounded : length room.members ≤ max_members
  pub distinct : IsDistinct room.members

pub record SessionOk (cap : ℕ) (s : DeviceSession) : Type 0 where
  pub roomless : s.room_code ≡ none
  pub inflight : length s.pending ≤ cap

pub record Inv (c : Config) (r : Registry) : Type 0 where
  pub same_config : r.config ≡ c
  pub rooms_ok : Values RoomOk r.rooms
  pub sessions_ok : Values (SessionOk c.max_inflight) r.sessions

pub new-Inv : (c : Config) → Inv c (new c)
unfolding new
new-Inv c = record { same_config = refl; rooms_ok = tt; sessions_ok = tt }

module _ {c : Config} where
  pub put_session-Inv :
      (a : ℕ) (s : DeviceSession) (r : Registry)
      → SessionOk c.max_inflight s
      → Inv c r
      → Inv c (put_session a s r)
  unfolding put_session
  put_session-Inv a s r h v = record {
    same_config = v.same_config;
    rooms_ok = v.rooms_ok;
    sessions_ok = Values-insert _ a s r.sessions h v.sessions_ok;
  }

  pub send-Inv : (tx : ℕ) (frame : TunnelFrame) (r : Registry) → Inv c r → Inv c (send tx frame r).1
  send-Inv tx frame r v = record {
    same_config = config-send tx frame r ∙ v.same_config;
    rooms_ok = rw rooms-send v.rooms_ok;
    sessions_ok = rw sessions-send v.sessions_ok;
  }

  pub respond-Inv :
      (k : String) (frame : TunnelFrame) (r : Registry) → Inv c r → Inv c (respond k frame r)
  unfolding respond
  respond-Inv k frame r v = record {
    same_config = v.same_config;
    rooms_ok = v.rooms_ok;
    sessions_ok = v.sessions_ok;
  }

  pub drop_pending-Inv : (a : ℕ) (k : String) (r : Registry) → Inv c r → Inv c (drop_pending a k r)
  unfolding drop_pending
  drop_pending-Inv a k r v = elim (Option-cases (lookup a r.sessions)) [
    | inl e ↦ rw (e, drop_pending) v
    | inr (s, e) ↦
        let ok : SessionOk c.max_inflight s = Values-lookup _ a r.sessions s v.sessions_ok e in
        rw (e, drop_pending)
          (put_session-Inv a _ r
            (record {
              roomless = ok.roomless;
              inflight = omega (arith, length-without-le k s.pending, ok.inflight);
            })
            v)
  ]

  pub session_at-Ok :
      (oa : Option ℕ) (r : Registry) (s : DeviceSession)
      → Inv c r
      → session_at r oa ≡ some s
      → SessionOk c.max_inflight s
  session_at-Ok none r s v e = cc
  session_at-Ok (some a) r s v e = Values-lookup _ a r.sessions s v.sessions_ok e

  pub get_device-Ok :
      (id : String) (r : Registry) (s : DeviceSession)
      → Inv c r
      → get_device id r ≡ some s
      → SessionOk c.max_inflight s
  unfolding get_device
  get_device-Ok id r s v e = session_at-Ok (lookup id r.devices) r s v e
