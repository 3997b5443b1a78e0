-- ===== src/Registry/Invariant/Runs.antt =====
-- registry.rs: the invariant after any calls.
use crosspaste_server.Config.{Config}
use crosspaste_server.Prelude.{
  Bool-cases, List, Option, String, [], inl, inr, is_some_and, nat_Comparable, none,
  pair_Comparable, refl, some, string_Comparable, ℕ, ◌==◌, ◌∙◌, ◌∷◌, ◌≡◌,
}
use crosspaste_server.Prelude.Int.{int_Comparable}
use crosspaste_server.Prelude.Map.{lookup}
use crosspaste_server.Prelude.Text.{codes_Comparable}
use crosspaste_server.Registry.Devices.{disconnect, leave_own, unregister_device}
use crosspaste_server.Registry.Events.{
  Event, closes, collects, completes, creates, evicts, finishes, informs, joins, leaves, opens,
  proxies, registers, run, step, touches, unregisters,
}
use crosspaste_server.Registry.Fields.{rooms-fail_all}
use crosspaste_server.Registry.Invariant.Devices.{
  gc_stale_devices-Inv, register_device-Inv, touch_device-Inv, unregister_device-Inv,
}
use crosspaste_server.Registry.Invariant.Requests.{
  complete_request-Inv, proxy_finish-Inv, proxy_send-Inv,
}
use crosspaste_server.Registry.Invariant.Rooms.{
  create_room-Inv, gc_rooms-Inv, join_room-Inv, leave_room-Inv, room_info-Inv,
}
use crosspaste_server.Registry.Invariant.Shape.{Inv, SessionOk, get_device-Ok, new-Inv}
use crosspaste_server.Registry.State.{
  Channel, DeviceSession, Registry, drop_receiver, get_device, new, put_session,
}

module _ {c : Config} where
  drop_receiver-Inv :
      (o : Option Channel) (tx : ℕ) (r : Registry) → Inv c r → Inv c (drop_receiver o tx r)
  unfolding drop_receiver
  drop_receiver-Inv none tx r v = v
  drop_receiver-Inv (some channel) tx r v = record {
    same_config = v.same_config;
    rooms_ok = v.rooms_ok;
    sessions_ok = v.sessions_ok;
  }

  pub step-Inv : (r : Registry) (e : Event) → Inv c r → Inv c (step r e)
  unfolding step
  step-Inv r (registers g sid now) v = register_device-Inv g sid now r v
  step-Inv r (unregisters id sid) v = unregister_device-Inv id sid r v
  step-Inv r (touches id now) v = touch_device-Inv id now r v
  step-Inv r (completes id frame) v = complete_request-Inv id frame r v
  step-Inv r (proxies target o k now at) v = proxy_send-Inv target o k now at r v
  step-Inv r (finishes call a) v = proxy_finish-Inv call a r v
  step-Inv r (creates code now) v = create_room-Inv code now r v
  step-Inv r (joins code id gc_now now) v = join_room-Inv code id gc_now now r v
  step-Inv r (leaves code id) v = leave_room-Inv code id r v
  step-Inv r (informs code now) v = room_info-Inv code now r v
  step-Inv r (collects now) v = gc_rooms-Inv now r v
  step-Inv r (evicts now) v = gc_stale_devices-Inv now r v
  step-Inv r (opens tx) v = record {
    same_config = v.same_config;
    rooms_ok = v.rooms_ok;
    sessions_ok = v.sessions_ok;
  }
  step-Inv r (closes tx) v = drop_receiver-Inv (lookup tx r.channels) tx r v

  pub run-Inv : (r : Registry) (es : List Event) → Inv c r → Inv c (run r es)
  unfolding run
  run-Inv r [] v = v
  run-Inv r (e ∷ es) v = run-Inv (step r e) es (step-Inv r e v)

-- After any calls on a new registry, in any order, with channels that sockets open and close between
-- them: a room holds at most 32 members and none twice, a
-- session has at most `max_inflight` pending requests, and no session names a room.
pub run-new-Inv : (c : Config) (es : List Event) → Inv c (run (new c) es)
run-new-Inv c es = run-Inv (new c) es (new-Inv c)

rooms-leave_own :
    (o : Option String) (id : String) (r : Registry) → o ≡ none → (leave_own o id r).rooms ≡ r.rooms
rooms-leave_own none id r e = refl
rooms-leave_own (some code) id r e = cc

keeps_rooms :
    {c : Config} {r : Registry} (id session_id : String)
    → Inv c r
    → (unregister_device id session_id r).rooms ≡ r.rooms
keeps_rooms {c} {r} id session_id v =
    elim (Bool-cases (is_some_and (λ s. s.session_id == session_id) (get_device id r))) [
      | inl e ↦
          unfold unregister_device in
          rw e (parts (lookup id r.devices) (get_device id r) (λ s. get_device-Ok id r s v))
      | inr e ↦ unfold unregister_device in rw e
    ]
  where
    parts :
        (oa : Option ℕ) (os : Option DeviceSession)
        → ((s : DeviceSession) → os ≡ some s → SessionOk c.max_inflight s)
        → (disconnect oa os id r).rooms ≡ r.rooms
    parts (some a) (some s) sound =
        unfold disconnect put_session in
        rooms-leave_own s.room_code id _ (sound s refl).roomless ∙ rooms-fail_all s.pending _
    parts (some a) none sound = unfold disconnect in refl
    parts none os sound = unfold disconnect in refl

-- Taking a device offline never takes it out of a room, after any calls on a new registry.
pub rooms-unregister_device :
    (c : Config) (es : List Event) (id session_id : String)
    → (unregister_device id session_id (run (new c) es)).rooms ≡ (run (new c) es).rooms
rooms-unregister_device c es id session_id = keeps_rooms id session_id (run-new-Inv c es)
