-- ===== src/RelayError.antt =====
-- error.rs: the errors of the relay with the HTTP status and the protocol code of each.
use crosspaste_server.Prelude.{ℕ, String, Result}

pub data Error : Type 0 where
  unauthorized missing_app_instance_id app_instance_mismatch decrypt_fail : Error
  device_offline resource_not_found : String → Error
  device_busy proxy_timeout : Error
  bad_request : String → Error
  room_not_found room_full : Error
  internal : String → Error

abbrev pub RelayResult : Type 0 → Type 0
RelayResult A = Result Error A

unfoldable pub status : Error → ℕ
status unauthorized = 401
status missing_app_instance_id = 400
status app_instance_mismatch = 400
status decrypt_fail = 400
status (bad_request _) = 400
status (device_offline _) = 404
status (resource_not_found _) = 404
status room_not_found = 404
status device_busy = 429
status room_full = 429
status proxy_timeout = 504
status (internal _) = 500

unfoldable pub code : Error → ℕ
code unauthorized = 2003
code missing_app_instance_id = 1000
code app_instance_mismatch = 1011
code decrypt_fail = 2008
code (device_offline _) = 1000
code (resource_not_found _) = 1003
code device_busy = 0
code proxy_timeout = 0
code (bad_request _) = 2
code room_not_found = 3
code room_full = 2
code (internal _) = 0
