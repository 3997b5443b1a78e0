-- ===== src/Registry/Linked/Steps.antt =====
-- registry.rs: every call keeps the store of sessions and the map of devices in agreement.
use crosspaste_server.Config.{Config}
use crosspaste_server.Prelude.{
  Bool, Bool-cases, List, Option, Option-cases, String, [], arith, eq_iff, false, inl, inr,
  is_empty, is_some_and, leb, length, ltb, nat_Comparable, none, pair_Comparable, refl, some,
  string_Comparable, subst, suc, sym, true, ℕ, ◌==◌, ◌∙◌, ◌∷◌, ◌≡◌,
}
use crosspaste_server.Prelude.HashSet.{set_remove}
use crosspaste_server.Prelude.Int.{int_Comparable, ℤ}
use crosspaste_server.Prelude.Map.{insert, lookup, lookup-insert, without}
use crosspaste_server.Prelude.Text.{codes_Comparable}
use crosspaste_server.Protocol.{TunnelFrame, http_response}
use crosspaste_server.Registry.Devices.{
  Registration, disconnect, evict_old, gc_stale_devices, leave_own, register_device, session_of,
  stale_from, touch_at, touch_device, unregister_all, unregister_device,
}
use crosspaste_server.Registry.Events.{
  Event, closes, collects, completes, creates, evicts, finishes, informs, joins, leaves, opens,
  proxies, registers, run, step, touches, unregisters,
}
use crosspaste_server.Registry.Fields.{
  devices-fail_all, devices-send, next_session-fail_all, next_session-send, sessions-fail_all,
  sessions-send,
}
use crosspaste_server.Registry.Linked.Writes.{
  Linked, drop_pending-Linked, new-Linked, put_session-Linked, same-Linked, taken-below,
  without-Linked,
}
use crosspaste_server.Registry.Requests.{
  Awaited, Call, Outgoing, answer, complete_request, dispatch, drop_pending, enqueue, proxy_finish,
  proxy_send, received, request_frame, send_to,
}
use crosspaste_server.Registry.Rooms.{
  create_room, gc_rooms, join_found, join_room, leave_found, leave_room, max_members, room_info,
}
use crosspaste_server.Registry.State.{
  Channel, DeviceSession, Registry, Room, drop_receiver, get_device, new, put_session, respond,
  send, session_at,
}

send-Linked : (tx : ℕ) (frame : TunnelFrame) (r : Registry) → Linked r → Linked (send tx frame r).1
send-Linked tx frame r =
    same-Linked r (send tx frame r).1 (devices-send tx frame r) (sessions-send tx frame r)
      (next_session-send tx frame r)

evict_old-Linked :
    (os : Option DeviceSession) (id : String) (r : Registry) → Linked r → Linked (evict_old os id r)
unfolding evict_old
evict_old-Linked none id r v = v
evict_old-Linked (some old) id r v =
    send-Linked old.frame_tx _ (record r { devices = without id r.devices }) (without-Linked id r v)

-- A new session at the next address, for its own device.
allocate-Linked :
    (s : DeviceSession) (r : Registry)
    → Linked r
    → Linked (record r {
      devices = insert s.app_instance_id r.next_session r.devices;
      sessions = insert r.next_session s r.sessions;
      next_session = suc r.next_session;
    })
allocate-Linked s r v = record {
  own = λ id a e. elim (Bool-cases (s.app_instance_id == id)) [
    | inl hit ↦ (
      s,
      ground (
        arith,
        lookup-insert r.next_session a s r.sessions,
        lookup-insert s.app_instance_id id r.next_session r.devices,
      ),
      ground (arith, eq_iff s.app_instance_id id),
    )
    | inr miss ↦
        let old : lookup id r.devices ≡ some a =
          ground (arith, lookup-insert s.app_instance_id id r.next_session r.devices) in
        let (t, g, n) = v.own id a old in
        (t, ground (arith, lookup-insert r.next_session a s r.sessions, taken-below r a t v g), n)
  ];
  fresh =
      λ a h. ground (arith, lookup-insert r.next_session a s r.sessions, v.fresh a (omega arith));
}

register_device-Linked :
    (g : Registration) (sid : String) (now : ℤ) (r : Registry)
    → Linked r
    → Linked (register_device g sid now r).1
unfolding register_device session_of
register_device-Linked g sid now r v =
    allocate-Linked (session_of g sid now) _
      (evict_old-Linked (get_device g.app_instance_id r) g.app_instance_id r v)

leave_found-Linked :
    (o : Option Room) (code id : String) (r : Registry)
    → Linked r
    → Linked (leave_found o code id r)
unfolding leave_found
leave_found-Linked none code id r v = v
leave_found-Linked (some room) code id r v =
    elim (Bool-cases (is_empty (set_remove id room.members))) [
      | inl e ↦ rw e (same-Linked r _ refl refl refl v)
      | inr e ↦ rw e (same-Linked r _ refl refl refl v)
    ]

leave_own-Linked :
    (o : Option String) (id : String) (r : Registry) → Linked r → Linked (leave_own o id r)
unfolding leave_room
leave_own-Linked none id r v = v
leave_own-Linked (some code) id r v = leave_found-Linked (lookup code r.rooms) code id r v

disconnect-Linked :
    (oa : Option ℕ) (os : Option DeviceSession) (id : String) (r : Registry)
    → session_at r oa ≡ os
    → Linked r
    → Linked (disconnect oa os id r)
unfolding disconnect
disconnect-Linked (some a) (some s) id r e v = leave_own-Linked s.room_code id _ (
    put_session-Linked a s _ _
      (rw (sessions-fail_all s.pending (record r { devices = without id r.devices })) e) refl
      (same-Linked (record r { devices = without id r.devices }) _ (devices-fail_all s.pending _)
        (sessions-fail_all s.pending _) (next_session-fail_all s.pending _)
        (without-Linked id r v)))
disconnect-Linked (some a) none id r e v = v
disconnect-Linked none os id r e v = v

unregister_device-Linked :
    (id sid : String) (r : Registry) → Linked r → Linked (unregister_device id sid r)
unfolding unregister_device get_device
unregister_device-Linked id sid r v =
    elim (Bool-cases
      (is_some_and (λ s. s.session_id == sid) (session_at r (lookup id r.devices)))) [
        | inl e ↦ rw e (
            disconnect-Linked (lookup id r.devices) (session_at r (lookup id r.devices)) id r refl
              v)
        | inr e ↦ rw e v
      ]

unregister_all-Linked :
    (l : List (String × String)) (r : Registry) → Linked r → Linked (unregister_all l r)
unfolding unregister_all
unregister_all-Linked [] r v = v
unregister_all-Linked ((id, sid) ∷ l) r v =
    unregister_all-Linked l _ (unregister_device-Linked id sid r v)

touch_at-Linked :
    (oa : Option ℕ) (os : Option DeviceSession) (now : ℤ) (r : Registry)
    → session_at r oa ≡ os
    → Linked r
    → Linked (touch_at oa os now r)
unfolding touch_at
touch_at-Linked (some a) (some s) now r e v = put_session-Linked a s _ r e refl v
touch_at-Linked (some a) none now r e v = v
touch_at-Linked none os now r e v = v

answer-Linked :
    (oa : Option ℕ) (os : Option DeviceSession) (k : String) (frame : TunnelFrame) (r : Registry)
    → Linked r
    → Linked (answer oa os k frame r)
unfolding answer respond
answer-Linked none os k frame r v = v
answer-Linked (some a) none k frame r v = v
answer-Linked (some a) (some s) k frame r v = elim (Option-cases (lookup k s.pending)) [
  | inl e ↦ rw (e, answer) v
  | inr (p, e) ↦
      rw (e, answer)
        (same-Linked (drop_pending a k r) _ refl refl refl (drop_pending-Linked a k r v))
]

complete_request-Linked :
    (id : String) (frame : TunnelFrame) (r : Registry)
    → Linked r
    → Linked (complete_request id frame r)
unfolding complete_request
complete_request-Linked id (http_response k status headers body e) r v =
    answer-Linked (lookup id r.devices) (get_device id r) k _ r v
complete_request-Linked id _ r v = v

dispatch-Linked :
    (a : ℕ) (target k : String) (sent : Bool × Registry)
    → Linked sent.1
    → Linked (dispatch a target k sent).1
unfolding dispatch
dispatch-Linked a target k (true, r) v = v
dispatch-Linked a target k (false, r) v = drop_pending-Linked a k r v

send_to-Linked :
    (oa : Option ℕ) (os : Option DeviceSession) (target : String) (o : Outgoing) (k : String)
    (now : ℤ) (at : ℕ) (r : Registry)
    → session_at r oa ≡ os
    → Linked r
    → Linked (send_to oa os target o k now at r).1
unfolding send_to enqueue
send_to-Linked (some a) (some s) target o k now at r e v =
    elim (Bool-cases (leb r.config.max_inflight (length s.pending))) [
      | inl full ↦ rw full v
      | inr room ↦ rw room (
          dispatch-Linked a target k
            (send s.frame_tx (request_frame k o) (put_session a (enqueue now at k s) r))
            (send-Linked s.frame_tx (request_frame k o) (put_session a (enqueue now at k s) r)
              (put_session-Linked a s _ r e refl v)))
    ]
send_to-Linked (some a) none target o k now at r e v = v
send_to-Linked none os target o k now at r e v = v

proxy_finish-Linked :
    (call : Call) (a : Awaited) (r : Registry) → Linked r → Linked (proxy_finish call a r).1
unfolding proxy_finish
proxy_finish-Linked call (received frame) r v = v
proxy_finish-Linked call _ r v = drop_pending-Linked call.session call.request_id r v

join_found-Linked :
    (o : Option Room) (code id : String) (now : ℕ) (r : Registry)
    → Linked r
    → Linked (join_found o code id now r).1
unfolding join_found
join_found-Linked none code id now r v = v
join_found-Linked (some room) code id now r v = elim (Bool-cases (ltb room.expires_at now)) [
  | inl old ↦ rw old (same-Linked r _ refl refl refl v)
  | inr live ↦ elim (Bool-cases (leb max_members (length room.members))) [
    | inl full ↦ rw (live, full) v
    | inr space ↦ rw (live, space) (same-Linked r _ refl refl refl v)
  ]
]

room_info-Linked :
    (code : String) (now : ℕ) (r : Registry) → Linked r → Linked (room_info code now r).1
unfolding room_info gc_rooms
room_info-Linked code now r v = elim (Option-cases (lookup code (gc_rooms now r).rooms)) [
  | inl e ↦ rw (e, room_info) (same-Linked r _ refl refl refl v)
  | inr (room, e) ↦ rw (e, room_info) (same-Linked r _ refl refl refl v)
]

drop_receiver-Linked :
    (o : Option Channel) (tx : ℕ) (r : Registry) → Linked r → Linked (drop_receiver o tx r)
unfolding drop_receiver
drop_receiver-Linked none tx r v = v
drop_receiver-Linked (some channel) tx r v = same-Linked r _ refl refl refl v

pub step-Linked : (r : Registry) (e : Event) → Linked r → Linked (step r e)
unfolding step create_room join_room leave_room gc_rooms gc_stale_devices proxy_send touch_device
    get_device
step-Linked r (registers g sid now) v = register_device-Linked g sid now r v
step-Linked r (unregisters id sid) v = unregister_device-Linked id sid r v
step-Linked r (touches id now) v = touch_at-Linked (lookup id r.devices) _ now r refl v
step-Linked r (completes id frame) v = complete_request-Linked id frame r v
step-Linked r (proxies target o k now at) v =
    send_to-Linked (lookup target r.devices) _ target o k now at r refl v
step-Linked r (finishes call a) v = proxy_finish-Linked call a r v
step-Linked r (creates code now) v = same-Linked r _ refl refl refl v
step-Linked r (joins code id gc_now now) v =
    join_found-Linked (lookup code (gc_rooms gc_now r).rooms) code id now _
      (same-Linked r _ refl refl refl v)
step-Linked r (leaves code id) v = leave_found-Linked (lookup code r.rooms) code id r v
step-Linked r (informs code now) v = room_info-Linked code now r v
step-Linked r (collects now) v = same-Linked r _ refl refl refl v
step-Linked r (evicts now) v = unregister_all-Linked (stale_from now r r.devices) r v
step-Linked r (opens tx) v = same-Linked r _ refl refl refl v
step-Linked r (closes tx) v = drop_receiver-Linked (lookup tx r.channels) tx r v

run-Linked : (r : Registry) (es : List Event) → Linked r → Linked (run r es)
unfolding run
run-Linked r [] v = v
run-Linked r (e ∷ es) v = run-Linked (step r e) es (step-Linked r e v)

own_name :
    (oa : Option ℕ) (id : String) (r : Registry) (s : DeviceSession)
    → Linked r
    → lookup id r.devices ≡ oa
    → session_at r oa ≡ some s
    → s.app_instance_id ≡ id
own_name none id r s v d e = cc
own_name (some a) id r s v d e =
    let (t, found, named) = v.own id a d in
    let same : some t ≡ some s = sym found ∙ e in
    let eq : t ≡ s = ground (arith, same) in
    subst (λ (x : DeviceSession). x.app_instance_id ≡ id) eq named

-- After any calls on a new registry, in any order, the session that is found for a device is one that
-- registered under the name of that device.
pub get_device-run :
    (c : Config) (es : List Event) (id : String) (s : DeviceSession)
    → get_device id (run (new c) es) ≡ some s
    → s.app_instance_id ≡ id
unfolding get_device
get_device-run c es id s e =
    own_name (lookup id (run (new c) es).devices) id (run (new c) es) s
      (run-Linked (new c) es (new-Linked c)) refl e
