-- ===== src/Tunnel/Socket.antt =====
-- tunnel.rs: what the server does with the messages of one socket, one step for each. The socket
-- keeps the channel of its writer and the device and session that it registered last.
use crosspaste_server.Auth.{trim}
use crosspaste_server.Codec.{JsonText}
use crosspaste_server.Prelude.{
  Bool, List, Option, Result, String, [], err, false, if◌then◌else◌, is_empty, nat_Comparable, none,
  ok, pair_Comparable, some, string_Comparable, true, ℕ, ◌∷◌,
}
use crosspaste_server.Prelude.Chars.{append}
use crosspaste_server.Prelude.Int.{int_Comparable, ℤ}
use crosspaste_server.Prelude.Map.{lookup}
use crosspaste_server.Prelude.Text.{codes, codes_Comparable}
use crosspaste_server.Protocol.{TunnelFrame, error, hello, hello_ack, http_response, ping, pong}
use crosspaste_server.Registry.Devices.{
  Registration, register_device, touch_device, unregister_device,
}
use crosspaste_server.Registry.Requests.{complete_request}
use crosspaste_server.Registry.State.{DeviceSession, Registry, drop_receiver, open_channel, send}

-- `axum::extract::ws::Message`, and what else the stream may end with.
pub data Message : Type 0 where
  text_message : String → Message
  binary_message : List ℕ → Message
  ping_message : List ℕ → Message
  pong_message : List ℕ → Message
  close_message : Message

pub record Socket : Type 0 where
  pub tx : ℕ
  pub app_instance_id : Option String
  pub session_id : Option String

-- `tx.send`, whose error is dropped.
abbrev pub post : Socket → TunnelFrame → Registry → Registry
post s frame r = (send s.tx frame r).1

-- What a step reads: the version of the package, a new UUID and the time.
pub record Reading : Type 0 where
  pub package_version : String
  pub uuid : String
  pub now : ℤ

abbrev pub registration : String → Option String → Option String → Option String → ℕ → Registration
registration id device_name app_version sync_info_b64 tx = record {
  app_instance_id = id;
  device_name = device_name;
  app_version = app_version;
  sync_info_b64 = sync_info_b64;
  frame_tx = tx;
}

abbrev acknowledged : Reading → Socket → String → DeviceSession × Registry → Socket × Registry
acknowledged t s id (session, r) = (
  record s { app_instance_id = some id; session_id = some session.session_id },
  post s (hello_ack session.session_id t.package_version) r,
)

unfoldable pub greet : Reading → Registration → Socket → Registry → Socket × Registry
greet t g s r =
    if is_empty (trim (codes g.app_instance_id))
    then (s, post s (error "app_instance_id required") r)
    else acknowledged t s g.app_instance_id (register_device g t.uuid t.now r)

unfoldable pub touch_own : ℤ → Option String → Registry → Registry
unfolding touch_device
touch_own now none r = r
touch_own now (some id) r = touch_device id now r

unfoldable pub complete_own : Option String → TunnelFrame → Registry → Registry
unfolding complete_request
complete_own none frame r = r
complete_own (some id) frame r = complete_request id frame r

unfoldable pub receive_frame : Reading → TunnelFrame → Socket → Registry → Socket × Registry
unfolding greet touch_own complete_own
receive_frame t (hello id device_name app_version sync_info_b64) s r =
    greet t (registration id device_name app_version sync_info_b64 s.tx) s r
receive_frame t (ping ts) s r = (s, touch_own t.now s.app_instance_id (post s (pong ts) r))
receive_frame t (pong ts) s r = (s, touch_own t.now s.app_instance_id r)
receive_frame t (http_response id status headers body failure) s r =
    (s, complete_own s.app_instance_id (http_response id status headers body failure) r)
receive_frame t _ s r = (s, r)

unfoldable pub receive_text :
    Reading → Result String TunnelFrame → Socket → Registry → Socket × Registry
unfolding receive_frame
receive_text t (err e) s r = (s, post s (error (append "invalid frame: " e)) r)
receive_text t (ok frame) s r = receive_frame t frame s r

module _ (j : JsonText TunnelFrame) where
  -- A message before the end of the stream.
  unfoldable pub receive : Reading → Message → Socket → Registry → Socket × Registry
  unfolding receive_text
  receive t (text_message text) s r = receive_text t (j.from_str text) s r
  receive t (ping_message bytes) s r = (s, post s (pong t.now) r)
  receive t _ s r = (s, r)

abbrev pub is_close : Message → Bool
is_close close_message = true
is_close _ = false

unfoldable pub finish : Option String → Option String → Registry → Registry
finish (some id) (some sid) r = unregister_device id sid r
finish _ _ r = r

-- The end of the loop; the writer is stopped, and with it the receiver of its channel.
unfoldable pub close_socket : Socket → Registry → Registry
close_socket s r =
    let r' = finish s.app_instance_id s.session_id r in
    drop_receiver (lookup s.tx r'.channels) s.tx r'

-- A new socket has a new channel.
unfoldable pub open_socket : ℕ → Registry → Socket × Registry
open_socket tx r =
    (record { tx = tx; app_instance_id = none; session_id = none }, open_channel tx r)

-- A message, or the end of the stream or an error of it, with what is read then, and what other tasks
-- did to the registry before.
pub record Arrival : Type 0 where
  pub meanwhile : Registry → Registry
  pub reading : Reading
  pub message : Option Message

module _ (j : JsonText TunnelFrame) where
  abbrev pub ends : Option Message → Bool
  ends none = true
  ends (some m) = is_close m

  abbrev pub take_in : Reading → Option Message → Socket → Registry → Socket × Registry
  take_in t none s r = (s, r)
  take_in t (some m) s r = receive j t m s r

  -- What comes on a socket, to its end; a stream that is not followed to its end has no last step.
  unfoldable pub handle_socket : List Arrival → Socket → Registry → Registry
  handle_socket [] s r = r
  handle_socket (a ∷ rest) s r =
      let next = take_in a.reading a.message s (a.meanwhile r) in
      let continued = handle_socket rest next.0 next.1 in
      if ends a.message then close_socket s (a.meanwhile r) else continued
