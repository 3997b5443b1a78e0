-- ===== src/Registry/Devices.antt =====
-- registry.rs: devices come, are seen, and go.
use crosspaste_server.Prelude.{
  nat_Comparable, string_Comparable, ℕ, suc, ◌/◌, String, Bool, Option, none, some, List, [], ◌∷◌,
  length, is_some_and, if◌then◌else◌, ◌==◌,
}
use crosspaste_server.Prelude.Int.{ℤ, ◌-ℤ◌, ltb_ℤ, as_i64}
use crosspaste_server.Prelude.Map.{Map, lookup, insert, without}
use crosspaste_server.Config.{device_ttl}
use crosspaste_server.Protocol.{TunnelFrame, error, DevicePublicInfo}
use crosspaste_server.Registry.State.{
  Registry, DeviceSession, PendingRequest, send, respond, public, touch, get_device, put_session,
}
use crosspaste_server.Registry.Rooms.{leave_room}

abbrev pub online_count : Registry → ℕ
online_count r = length r.devices

abbrev pub room_count : Registry → ℕ
room_count r = length r.rooms

abbrev pub list_from : Registry → Map String ℕ → List DevicePublicInfo
list_from r [] = []
list_from r ((id, a) ∷ m) = elim (lookup a r.sessions) [
  | none ↦ list_from r m
  | some s ↦ public s ∷ list_from r m
]

unfoldable pub list_devices : Registry → List DevicePublicInfo
list_devices r = list_from r r.devices

abbrev pub replaced_frame : TunnelFrame
replaced_frame = error "session replaced by a new connection"

abbrev pub disconnected_frame : TunnelFrame
disconnected_frame = error "device disconnected"

-- The old session of the device leaves the map, and its tunnel is told.
unfoldable pub evict_old : Option DeviceSession → String → Registry → Registry
evict_old none id r = r
evict_old (some old) id r =
    (send old.frame_tx replaced_frame (record r { devices = without id r.devices })).1

-- What a `Hello` says of a device, with the channel of its tunnel.
pub record Registration : Type 0 where
  pub app_instance_id : String
  pub device_name : Option String
  pub app_version : Option String
  pub sync_info_b64 : Option String
  pub frame_tx : ℕ

unfoldable pub session_of : Registration → String → ℤ → DeviceSession
session_of g session_id now = record {
  app_instance_id = g.app_instance_id;
  session_id = session_id;
  device_name = g.device_name;
  app_version = g.app_version;
  sync_info_b64 = g.sync_info_b64;
  last_seen_ms = now;
  frame_tx = g.frame_tx;
  pending = [];
  room_code = none;
}

-- `session_id` is a new UUID.
unfoldable pub register_device : Registration → String → ℤ → Registry → DeviceSession × Registry
unfolding evict_old session_of
register_device g session_id now r =
    let id = g.app_instance_id in
    let r' = evict_old (get_device id r) id r in
    let session = session_of g session_id now in
    (
      session,
      record r' {
        devices = insert id r'.next_session r'.devices;
        sessions = insert r'.next_session session r'.sessions;
        next_session = suc r'.next_session;
      },
    )

-- Every pending request is answered with an error, in the order of its key.
unfoldable pub fail_all : Map String PendingRequest → Registry → Registry
unfolding respond
fail_all [] r = r
fail_all ((key, p) ∷ m) r = fail_all m (respond p.responder disconnected_frame r)

abbrev pub leave_own : Option String → String → Registry → Registry
leave_own none id r = r
leave_own (some code) id r = leave_room code id r

unfoldable pub disconnect : Option ℕ → Option DeviceSession → String → Registry → Registry
unfolding fail_all put_session
disconnect (some a) (some s) id r = leave_own s.room_code id (
    put_session a (record s { pending = [] })
      (fail_all s.pending (record r { devices = without id r.devices })))
disconnect _ _ id r = r

-- Only the session that is still the device's own takes it offline.
unfoldable pub unregister_device : String → String → Registry → Registry
unfolding disconnect
unregister_device id session_id r =
    if is_some_and (λ s. s.session_id == session_id) (get_device id r)
    then disconnect (lookup id r.devices) (get_device id r) id r
    else r

unfoldable pub touch_at : Option ℕ → Option DeviceSession → ℤ → Registry → Registry
unfolding put_session touch
touch_at (some a) (some s) now r = put_session a (touch now s) r
touch_at _ _ now r = r

unfoldable pub touch_device : String → ℤ → Registry → Registry
unfolding touch_at
touch_device id now r = touch_at (lookup id r.devices) (get_device id r) now r

-- `Duration::as_millis() as i64`
unfoldable pub ttl_ms : Registry → ℤ
ttl_ms r = as_i64 (device_ttl r.config / 1_000_000)

unfoldable pub is_stale : ℤ → Registry → DeviceSession → Bool
unfolding ttl_ms
is_stale now r s = ltb_ℤ (ttl_ms r) (now -ℤ s.last_seen_ms)

unfoldable pub stale_from : ℤ → Registry → Map String ℕ → List (String × String)
unfolding is_stale
stale_from now r [] = []
stale_from now r ((id, a) ∷ m) =
    let rest = stale_from now r m in
    elim (lookup a r.sessions) [
      | none ↦ rest
      | some s ↦ if is_stale now r s then (s.app_instance_id, s.session_id) ∷ rest else rest
    ]

unfoldable pub unregister_all : List (String × String) → Registry → Registry
unregister_all [] r = r
unregister_all ((id, sid) ∷ rest) r = unregister_all rest (unregister_device id sid r)

unfoldable pub gc_stale_devices : ℤ → Registry → Registry
unfolding stale_from unregister_all
gc_stale_devices now r = unregister_all (stale_from now r r.devices) r
