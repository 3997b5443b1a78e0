-- ===== src/Protocol.antt =====
-- protocol.rs: the constants of the sync protocol and the frames of the device tunnel.
use crosspaste_server.Prelude.{ℕ, String, Bool, Option, List}
use crosspaste_server.Prelude.Int.{ℤ}
use crosspaste_server.Prelude.Map.{Map}

abbrev pub sync_api_version : ℕ
sync_api_version = 3

abbrev pub pairing_version : ℕ
pairing_version = 2

abbrev pub header_app_instance_id : String
header_app_instance_id = "appInstanceId"

abbrev pub header_target_app_instance_id : String
header_target_app_instance_id = "targetAppInstanceId"

abbrev pub header_secure : String
header_secure = "secure"

abbrev pub header_sync_info : String
header_sync_info = "crosspaste-sync-info"

abbrev pub header_auth : String
header_auth = "x-crosspaste-server-token"

pub data PeerEventKind : Type 0 where
  online offline : PeerEventKind

-- What stands on the device tunnel, in either direction.
pub data TunnelFrame : Type 0 where
  hello :
      (app_instance_id : String)
      → (device_name app_version sync_info_b64 : Option String) → TunnelFrame
  hello_ack : (session_id relay_version : String) → TunnelFrame
  ping : (ts : ℤ) → TunnelFrame
  pong : (ts : ℤ) → TunnelFrame
  http_request :
      (request_id method path : String)
      → (headers : Map String String) → (body_b64 : Option String) → TunnelFrame
  http_response :
      (request_id : String)
      → (status : ℕ) → (headers : Map String String) → (body_b64 error : Option String)
      → TunnelFrame
  peer_event : (event : PeerEventKind) → (app_instance_id : String) → TunnelFrame
  error : (message : String) → TunnelFrame

pub record DevicePublicInfo : Type 0 where
  pub app_instance_id : String
  pub device_name : Option String
  pub app_version : Option String
  pub online : Bool
  pub last_seen_ms : ℤ

pub record RoomInfo : Type 0 where
  pub room_code : String
  pub members : List DevicePublicInfo
  pub expires_at_ms : ℤ
