-- ===== src/Registry/State.antt =====
-- registry.rs: the state. A device session is shared (`Arc`), so the sessions stand in a store by
-- address, and `devices` holds addresses: a request in flight keeps the address of its session after
-- the device has been replaced. A channel's frames and what a one-shot responder was sent are kept too.
use crosspaste_server.Config.{Config}
use crosspaste_server.Prelude.{
  Bool, List, Option, String, [], false, if◌then◌else◌, nat_Comparable, none, pair_Comparable, some,
  string_Comparable, true, ℕ, ◌++◌, ◌/◌, ◌∷◌,
}
use crosspaste_server.Prelude.Int.{as_i64, int_Comparable, ℤ}
use crosspaste_server.Prelude.Map.{Map, insert, lookup}
use crosspaste_server.Prelude.Text.{codes_Comparable}
use crosspaste_server.Protocol.{DevicePublicInfo, TunnelFrame}

-- The responder is named by the request whose caller waits for it.
pub record PendingRequest : Type 0 where
  pub responder : String
  pub created_at : ℕ

pub record DeviceSession : Type 0 where
  pub app_instance_id : String
  pub session_id : String
  pub device_name : Option String
  pub app_version : Option String
  pub sync_info_b64 : Option String
  pub last_seen_ms : ℤ
  pub frame_tx : ℕ
  pub pending : Map String PendingRequest
  pub room_code : Option String

-- Times are nanoseconds since the epoch.
pub record Room : Type 0 where
  pub code : String
  pub members : List String
  pub created_at : ℕ
  pub expires_at : ℕ

-- An unbounded channel to the writer of a tunnel; it takes frames while its receiver lives.
pub record Channel : Type 0 where
  pub is_open : Bool
  pub sent : List TunnelFrame

pub record Registry : Type 0 where
  pub config : Config
  pub devices : Map String ℕ
  pub rooms : Map String Room
  pub sessions : Map ℕ DeviceSession
  pub next_session : ℕ
  pub channels : Map ℕ Channel
  pub replies : Map String TunnelFrame

unfoldable pub new : Config → Registry
new config = record {
  config = config;
  devices = [];
  rooms = [];
  sessions = [];
  next_session = 0;
  channels = [];
  replies = [];
}

-- `UnboundedSender::send`: fails, and drops the frame, when the receiver is gone.
unfoldable pub send_on : Option Channel → ℕ → TunnelFrame → Registry → Bool × Registry
send_on none tx frame r = (false, r)
send_on (some c) tx frame r =
    if c.is_open
    then (
      true,
      record r { channels = insert tx (record c { sent = c.sent ++ frame ∷ [] }) r.channels },
    )
    else (false, r)

unfoldable pub send : ℕ → TunnelFrame → Registry → Bool × Registry
unfolding send_on
send tx frame r = send_on (lookup tx r.channels) tx frame r

-- A new channel, which a socket opens for its writer.
abbrev pub open_channel : ℕ → Registry → Registry
open_channel tx r = record r {
  channels = insert tx (record { is_open = true; sent = [] }) r.channels;
}

-- A channel without a receiver takes no more frames.
unfoldable pub drop_receiver : Option Channel → ℕ → Registry → Registry
drop_receiver none tx r = r
drop_receiver (some c) tx r = record r {
  channels = insert tx (record c { is_open = false }) r.channels;
}

-- `oneshot::Sender::send`
unfoldable pub respond : String → TunnelFrame → Registry → Registry
respond responder frame r = record r { replies = insert responder frame r.replies }

unfoldable pub public : DeviceSession → DevicePublicInfo
public s = record {
  app_instance_id = s.app_instance_id;
  device_name = s.device_name;
  app_version = s.app_version;
  online = true;
  last_seen_ms = s.last_seen_ms;
}

unfoldable pub touch : ℤ → DeviceSession → DeviceSession
touch now s = record s { last_seen_ms = now }

-- The session of a device, by way of its address.
abbrev pub session_at : Registry → Option ℕ → Option DeviceSession
session_at r none = none
session_at r (some a) = lookup a r.sessions

unfoldable pub get_device : String → Registry → Option DeviceSession
get_device id r = session_at r (lookup id r.devices)

unfoldable pub put_session : ℕ → DeviceSession → Registry → Registry
put_session a s r = record r { sessions = insert a s r.sessions }

unfoldable pub system_time_ms : ℕ → ℤ
system_time_ms t = as_i64 (t / 1_000_000)
