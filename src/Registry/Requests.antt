-- ===== src/Registry/Requests.antt =====
-- registry.rs: a request that is proxied into a device, and its response. The call that waits is two
-- steps, `proxy_send` up to the await and `proxy_finish` after it, so other calls may come between.
use crosspaste_server.Prelude.{
  nat_Comparable, string_Comparable, ℕ, String, Bool, true, false, Option, none, some, leb, length,
  ok, err, if◌then◌else◌,
}
use crosspaste_server.Prelude.Int.{ℤ}
use crosspaste_server.Prelude.Map.{Map, lookup, insert, without}
use crosspaste_server.Protocol.{TunnelFrame, http_request, http_response}
use crosspaste_server.RelayError.{RelayResult, device_offline, device_busy, proxy_timeout, internal}
use crosspaste_server.Registry.State.{
  Registry, DeviceSession, send, respond, touch, get_device, put_session,
}

-- Takes the pending request out of the session at an address.
unfoldable pub drop_pending : ℕ → String → Registry → Registry
unfolding put_session
drop_pending a request_id r = elim (lookup a r.sessions) [
  | none ↦ r
  | some s ↦ put_session a (record s { pending = without request_id s.pending }) r
]

unfoldable pub answer : Option ℕ → Option DeviceSession → String → TunnelFrame → Registry → Registry
unfolding drop_pending respond
answer (some a) (some s) request_id frame r = elim (lookup request_id s.pending) [
  | none ↦ r
  | some p ↦ respond p.responder frame (drop_pending a request_id r)
]
answer _ _ request_id frame r = r

unfoldable pub complete_request : String → TunnelFrame → Registry → Registry
unfolding answer
complete_request id (http_response request_id status headers body error) r =
    answer (lookup id r.devices) (get_device id r) request_id
      (http_response request_id status headers body error) r
complete_request id _ r = r

-- The request as the caller gives it.
pub record Outgoing : Type 0 where
  pub method : String
  pub path : String
  pub headers : Map String String
  pub body_b64 : Option String

abbrev pub request_frame : String → Outgoing → TunnelFrame
request_frame request_id o = http_request request_id o.method o.path o.headers o.body_b64

-- What the caller keeps across the await: the address of the session, and the name of its responder.
pub record Call : Type 0 where
  pub session : ℕ
  pub request_id : String

-- The session with the new pending request, seen now.
unfoldable pub enqueue : ℤ → ℕ → String → DeviceSession → DeviceSession
unfolding touch
enqueue now at request_id s = record (touch now s) {
  pending = insert request_id (record { responder = request_id; created_at = at }) s.pending;
}

unfoldable pub dispatch : ℕ → String → String → Bool × Registry → RelayResult Call × Registry
unfolding drop_pending
dispatch a target request_id (true, r) = (ok (record { session = a; request_id = request_id }), r)
dispatch a target request_id (false, r) = (err (device_offline target), drop_pending a request_id r)

unfoldable pub send_to :
    Option ℕ
    → Option DeviceSession
    → String
    → Outgoing
    → String
    → ℤ
    → ℕ
    → Registry
    → RelayResult Call × Registry
unfolding enqueue dispatch put_session
send_to (some a) (some s) target o request_id now at r =
    if leb r.config.max_inflight (length s.pending)
    then (err device_busy, r)
    else dispatch a target request_id (
        send s.frame_tx (request_frame request_id o)
          (put_session a (enqueue now at request_id s) r))
send_to _ _ target o request_id now at r = (err (device_offline target), r)

-- `request_id` is a new UUID, `now` and `at` the two times that are read.
unfoldable pub proxy_send :
    String → Outgoing → String → ℤ → ℕ → Registry → RelayResult Call × Registry
unfolding send_to
proxy_send target o request_id now at r =
    send_to (lookup target r.devices) (get_device target r) target o request_id now at r

-- How the await ends.
pub data Awaited : Type 0 where
  received : TunnelFrame → Awaited
  closed elapsed : Awaited

unfoldable pub proxy_finish : Call → Awaited → Registry → RelayResult TunnelFrame × Registry
unfolding drop_pending
proxy_finish c (received frame) r = (ok frame, r)
proxy_finish c closed r =
    (err (internal "response channel closed"), drop_pending c.session c.request_id r)
proxy_finish c elapsed r = (err proxy_timeout, drop_pending c.session c.request_id r)
