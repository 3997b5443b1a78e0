-- ===== src/Registry/Samples.antt =====
-- A concrete registry for the examples of other modules.
use crosspaste_server.Config.{Config, v4}
use crosspaste_server.Prelude.{[], false, none, some, true, ◌∷◌}
use crosspaste_server.Registry.Devices.{Registration}
use crosspaste_server.Registry.State.{Registry}

abbrev pub config : Config
config = record {
  listen = record { ip = v4 0 0 0 0; port = 39445 };
  auth_token = "";
  max_body_bytes = 1024;
  device_ttl_secs = 120;
  room_ttl_secs = 600;
  max_inflight = 2;
  request_timeout_secs = 60;
  enable_mdns = false;
  public_host = none;
  network_interface = none;
  server_instance_id = "crosspaste-server";
  server_device_name = "CrossPaste Server";
  server_user_name = "server";
}

-- Nobody is connected; channel 7 leads to a live tunnel.
abbrev pub start : Registry
start = record {
  config = config;
  devices = [];
  rooms = [];
  sessions = [];
  next_session = 0;
  channels = (7, record { is_open = true; sent = [] }) ∷ [];
  replies = [];
}

abbrev pub phone : Registration
phone = record {
  app_instance_id = "phone";
  device_name = some "Phone";
  app_version = none;
  sync_info_b64 = none;
  frame_tx = 7;
}
