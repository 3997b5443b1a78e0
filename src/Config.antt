-- ===== src/Config.antt =====
-- config.rs: the settings of a server, its durations and the test for an authentication token.
use crosspaste_server.Prelude.{ℕ, ◌*◌, String, Bool, not, Option, ◌==◌, string_Comparable}

-- `std::net::IpAddr`: four octets, or the 128 bits of a version 6 address.
pub data IpAddr : Type 0 where
  v4 : ℕ → ℕ → ℕ → ℕ → IpAddr
  v6 : ℕ → IpAddr

pub record SocketAddr : Type 0 where
  pub ip : IpAddr
  pub port : ℕ

pub record Config : Type 0 where
  pub listen : SocketAddr
  pub auth_token : String
  pub max_body_bytes : ℕ
  pub device_ttl_secs : ℕ
  pub room_ttl_secs : ℕ
  pub max_inflight : ℕ
  pub request_timeout_secs : ℕ
  pub enable_mdns : Bool
  pub public_host : Option IpAddr
  pub network_interface : Option String
  pub server_instance_id : String
  pub server_device_name : String
  pub server_user_name : String

-- A `Duration` is a number of nanoseconds.
abbrev pub nanos_per_sec : ℕ
nanos_per_sec = 1_000_000_000

abbrev pub device_ttl : Config → ℕ
device_ttl c = c.device_ttl_secs * nanos_per_sec

abbrev pub room_ttl : Config → ℕ
room_ttl c = c.room_ttl_secs * nanos_per_sec

abbrev pub request_timeout : Config → ℕ
request_timeout c = c.request_timeout_secs * nanos_per_sec

abbrev pub auth_required : Config → Bool
auth_required c = not (c.auth_token == "")
