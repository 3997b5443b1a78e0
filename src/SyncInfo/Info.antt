-- ===== src/SyncInfo/Info.antt =====
-- sync_info.rs: the data of a SyncInfo.
use crosspaste_server.Prelude.{List, Option, String}
use crosspaste_server.Prelude.Int.{ℤ}

pub record AppInfo : Type 0 where
  pub app_instance_id : String
  pub app_version : String
  pub app_revision : String
  pub user_name : String
  pub pairing_version : Option ℤ

pub record HostInfo : Type 0 where
  pub network_prefix_length : ℤ
  pub host_address : String
  pub last_seen : ℤ

pub record PlatformInfo : Type 0 where
  pub name : String
  pub arch : String
  pub bit_mode : ℤ
  pub version : String

pub record EndpointInfo : Type 0 where
  pub device_id : String
  pub device_name : String
  pub platform : PlatformInfo
  pub host_info_list : List HostInfo
  pub port : ℤ

pub record SyncInfo : Type 0 where
  pub app_info : AppInfo
  pub endpoint_info : EndpointInfo
