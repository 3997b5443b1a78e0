-- ===== src/Registry/Invariant/Devices.antt =====
-- registry.rs: devices that come and go keep the invariant.
use crosspaste_server.Prelude.{
  nat_Comparable, string_Comparable, ℕ, String, ◌≡◌, refl, is_some_and, ◌==◌, Option, none, some,
  List, [], ◌∷◌, arith, inl, inr, Bool-cases,
}
use crosspaste_server.Prelude.Map.{Map, lookup, without, Values-insert}
use crosspaste_server.Prelude.Int.{ℤ}
use crosspaste_server.Config.{Config}
use crosspaste_server.Registry.State.{Registry, DeviceSession, PendingRequest, get_device}
use crosspaste_server.Registry.Devices.{
  Registration, session_of, evict_old, register_device, disconnect, leave_own, unregister_device,
  touch_at, touch_device, unregister_all, stale_from, gc_stale_devices, fail_all,
}
use crosspaste_server.Registry.Invariant.Shape.{
  Inv, SessionOk, get_device-Ok, put_session-Inv, respond-Inv, send-Inv,
}

module _ {c : Config} where
  pub evict_old-Inv :
      (os : Option DeviceSession) (id : String) (r : Registry) → Inv c r → Inv c (evict_old os id r)
  unfolding evict_old
  evict_old-Inv none id r v = v
  evict_old-Inv (some old) id r v =
      send-Inv old.frame_tx _ _
        (record { same_config = v.same_config; rooms_ok = v.rooms_ok; sessions_ok = v.sessions_ok })

  pub register_device-Inv :
      (g : Registration) (sid : String) (now : ℤ) (r : Registry)
      → Inv c r
      → Inv c (register_device g sid now r).1
  unfolding register_device session_of
  register_device-Inv g sid now r v =
      let w = evict_old-Inv (get_device g.app_instance_id r) g.app_instance_id r v in
      record {
        same_config = w.same_config;
        rooms_ok = w.rooms_ok;
        sessions_ok =
            Values-insert _ _ _ _ (record { roomless = refl; inflight = omega arith })
              w.sessions_ok;
      }

  pub fail_all-Inv : (m : Map String PendingRequest) (r : Registry) → Inv c r → Inv c (fail_all m r)
  unfolding fail_all
  fail_all-Inv [] r v = v
  fail_all-Inv ((k, p) ∷ m) r v = fail_all-Inv m _ (respond-Inv p.responder _ r v)

  pub gone-Inv :
      (id : String) (r : Registry) → Inv c r → Inv c (record r { devices = without id r.devices })
  gone-Inv id r v = record {
    same_config = v.same_config;
    rooms_ok = v.rooms_ok;
    sessions_ok = v.sessions_ok;
  }

  pub leave_own-Inv :
      (o : Option String) (id : String) (r : Registry)
      → o ≡ none
      → Inv c r
      → Inv c (leave_own o id r)
  leave_own-Inv none id r e v = v
  leave_own-Inv (some code) id r e v = cc

  pub disconnect-Inv :
      (oa : Option ℕ) (os : Option DeviceSession) (id : String) (r : Registry)
      → ((s : DeviceSession) → os ≡ some s → SessionOk c.max_inflight s)
      → Inv c r
      → Inv c (disconnect oa os id r)
  unfolding disconnect
  disconnect-Inv (some a) (some s) id r ok v = leave_own-Inv s.room_code id _ (ok s refl).roomless (
      put_session-Inv a _ _ (record { roomless = (ok s refl).roomless; inflight = omega arith })
        (fail_all-Inv s.pending _ (gone-Inv id r v)))
  disconnect-Inv (some a) none id r ok v = v
  disconnect-Inv none os id r ok v = v

  pub unregister_device-Inv :
      (id sid : String) (r : Registry) → Inv c r → Inv c (unregister_device id sid r)
  unfolding unregister_device
  unregister_device-Inv id sid r v =
      elim (Bool-cases (is_some_and (λ s. s.session_id == sid) (get_device id r))) [
        | inl e ↦ rw e (
            disconnect-Inv (lookup id r.devices) (get_device id r) id r
              (λ s. get_device-Ok id r s v) v)
        | inr e ↦ rw e v
      ]

  pub unregister_all-Inv :
      (l : List (String × String)) (r : Registry) → Inv c r → Inv c (unregister_all l r)
  unfolding unregister_all
  unregister_all-Inv [] r v = v
  unregister_all-Inv ((id, sid) ∷ l) r v = unregister_all-Inv l _ (unregister_device-Inv id sid r v)

  pub gc_stale_devices-Inv : (now : ℤ) (r : Registry) → Inv c r → Inv c (gc_stale_devices now r)
  unfolding gc_stale_devices
  gc_stale_devices-Inv now r v = unregister_all-Inv (stale_from now r r.devices) r v

  pub touch_at-Inv :
      (oa : Option ℕ) (os : Option DeviceSession) (now : ℤ) (r : Registry)
      → ((s : DeviceSession) → os ≡ some s → SessionOk c.max_inflight s)
      → Inv c r
      → Inv c (touch_at oa os now r)
  unfolding touch_at
  touch_at-Inv (some a) (some s) now r ok v =
      put_session-Inv a _ r
        (record { roomless = (ok s refl).roomless; inflight = (ok s refl).inflight }) v
  touch_at-Inv (some a) none now r ok v = v
  touch_at-Inv none os now r ok v = v

  pub touch_device-Inv :
      (id : String) (now : ℤ) (r : Registry) → Inv c r → Inv c (touch_device id now r)
  unfolding touch_device
  touch_device-Inv id now r v =
      touch_at-Inv (lookup id r.devices) (get_device id r) now r (λ s. get_device-Ok id r s v) v
