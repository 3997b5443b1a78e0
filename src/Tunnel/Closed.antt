-- ===== src/Tunnel/Closed.antt =====
-- tunnel.rs: what is left when a socket ends.
use crosspaste_server.Prelude.{
  Bool, Bool-cases, Option, String, [], ap, arith, false, if◌then◌else◌, inl, inr, is_some_and,
  nat_Comparable, none, pair_Comparable, refl, some, string_Comparable, ℕ, ◌==◌, ◌∙◌, ◌≡◌,
}
use crosspaste_server.Prelude.Int.{int_Comparable}
use crosspaste_server.Prelude.Map.{
  insert, lookup, lookup-insert_self, lookup-without, same_refl, without,
}
use crosspaste_server.Prelude.Text.{codes_Comparable}
use crosspaste_server.Protocol.{TunnelFrame}
use crosspaste_server.Registry.Devices.{disconnect, leave_own, unregister_device}
use crosspaste_server.Registry.Fields.{devices-fail_all, sessions-fail_all}
use crosspaste_server.Registry.Outcomes.{devices-leave_own}
use crosspaste_server.Registry.Rooms.{leave_found, leave_room}
use crosspaste_server.Registry.State.{
  Channel, DeviceSession, Registry, Room, get_device, put_session, send, send_on, session_at,
  drop_receiver,
}
use crosspaste_server.Tunnel.Socket.{Socket, close_socket, finish}

sessions-leave_own :
    (o : Option String) (id : String) (r : Registry) → (leave_own o id r).sessions ≡ r.sessions
unfolding leave_room
sessions-leave_own none id r = refl
sessions-leave_own (some code) id r = at (lookup code r.rooms)
  where
    at : (x : Option Room) → (leave_found x code id r).sessions ≡ r.sessions
    at none = unfold leave_found in refl
    at (some room) = unfold leave_found in ground arith

devices-disconnect :
    (a : ℕ) (s : DeviceSession) (id : String) (r : Registry)
    → (disconnect (some a) (some s) id r).devices ≡ without id r.devices
unfolding disconnect put_session
devices-disconnect a s id r = devices-leave_own s.room_code id _ ∙ devices-fail_all s.pending _

sessions-disconnect :
    (a : ℕ) (s : DeviceSession) (id : String) (r : Registry)
    → (disconnect (some a) (some s) id r).sessions ≡ insert a (record s { pending = [] }) r.sessions
unfolding disconnect put_session
sessions-disconnect a s id r =
    sessions-leave_own s.room_code id _
    ∙ ap (insert a (record s { pending = [] })) (sessions-fail_all s.pending _)

-- The device after the last step of its socket.
get_device-unregister_device :
    (id sid : String) (r : Registry)
    → get_device id (unregister_device id sid r)
      ≡ (if is_some_and (λ s. s.session_id == sid) (get_device id r) then none else get_device id r)
unfolding unregister_device get_device
get_device-unregister_device id sid r =
    go (lookup id r.devices) (session_at r (lookup id r.devices)) refl refl
  where
    own : DeviceSession → Bool
    own s = s.session_id == sid

    left : Registry → Option DeviceSession
    left q = session_at q (lookup id q.devices)

    gone : (a : ℕ) (s : DeviceSession) → left (disconnect (some a) (some s) id r) ≡ none
    gone a s =
        rw (devices-disconnect a s id r) (rw (lookup-without id id r.devices, same_refl id) refl)

    go :
        (oa : Option ℕ) (os : Option DeviceSession)
        → lookup id r.devices ≡ oa
        → session_at r oa ≡ os
        → left (if is_some_and own os then disconnect oa os id r else r)
          ≡ (if is_some_and own os then none else os)
    go none none e f = rw e refl
    go none (some s) e f = cc f
    go (some a) none e f = rw e f
    go (some a) (some s) e f = elim (Bool-cases (s.session_id == sid)) [
      | inl hit ↦ rw hit (gone a s)
      | inr miss ↦ rw miss (rw e f)
    ]

devices-drop_receiver :
    (o : Option Channel) (tx : ℕ) (r : Registry) → (drop_receiver o tx r).devices ≡ r.devices
unfolding drop_receiver
devices-drop_receiver none tx r = refl
devices-drop_receiver (some c) tx r = refl

sessions-drop_receiver :
    (o : Option Channel) (tx : ℕ) (r : Registry) → (drop_receiver o tx r).sessions ≡ r.sessions
unfolding drop_receiver
sessions-drop_receiver none tx r = refl
sessions-drop_receiver (some c) tx r = refl

get_device-drop_receiver :
    (id : String) (o : Option Channel) (tx : ℕ) (r : Registry)
    → get_device id (drop_receiver o tx r) ≡ get_device id r
unfolding get_device
get_device-drop_receiver id o tx r = rw (devices-drop_receiver o tx r) (at (lookup id r.devices))
  where
    at : (a : Option ℕ) → session_at (drop_receiver o tx r) a ≡ session_at r a
    at none = refl
    at (some a) = ap (lookup a) (sessions-drop_receiver o tx r)

refuses-drop_receiver :
    (o : Option Channel) (tx : ℕ) (r : Registry) (frame : TunnelFrame)
    → lookup tx r.channels ≡ o
    → (send tx frame (drop_receiver o tx r)).0 ≡ false
unfolding send drop_receiver send_on
refuses-drop_receiver none tx r frame e = rw e refl
refuses-drop_receiver (some c) tx r frame e =
    rw (lookup-insert_self tx (record c { is_open = false }) r.channels) refl

-- When a socket ends, its device is offline if its session is still the one that the socket
-- registered, and keeps its session if it has connected again since; and no frame goes out on the
-- channel of the socket any more.
pub close_socket-own :
    (s : Socket) (r : Registry) (id sid : String) (frame : TunnelFrame)
    → s.app_instance_id ≡ some id
    → s.session_id ≡ some sid
    → (get_device id (close_socket s r) ≡ (
        if is_some_and (λ d. d.session_id == sid) (get_device id r) then none else get_device id r))
      × ((send s.tx frame (close_socket s r)).0 ≡ false)
unfolding close_socket
close_socket-own s r id sid frame e f = (
  get_device-drop_receiver id _ s.tx _
      ∙ rw (e, f) (unfold finish in get_device-unregister_device id sid r),
  refuses-drop_receiver _ s.tx _ frame refl,
)
