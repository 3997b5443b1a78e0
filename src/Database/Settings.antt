-- ===== src/Database/Settings.antt =====
-- database.rs: the settings.
use crosspaste_server.Database.Logs.{prune_request_logs, setting_of}
use crosspaste_server.Database.Tables.{Database, execute, query, transaction}
use crosspaste_server.Prelude.{
  Bool, Exec, List, String, [], false, if◌then◌else◌, lift, nat_Comparable, ok_or, pair_Comparable,
  pure, some, string_Comparable, true, ◌>>=◌, ◌>>◌, ◌∷◌,
}
use crosspaste_server.Prelude.Int.{int_Comparable}
use crosspaste_server.Prelude.Map.{Map, contains_key, insert, lookup}

unfoldable pub settings : Exec Database String (Map String String)
unfolding query
settings = query λ d. d.settings

-- `INSERT ... ON CONFLICT(key) DO UPDATE`, one for each setting.
unfoldable pub save_settings : Map String String → Exec Database String Unit
unfolding execute
save_settings [] = pure tt
save_settings ((key, value) ∷ rest) = do
  execute (λ d. record d { settings = insert key value d.settings })
  save_settings rest

-- The logs are cut at once when the settings name their number.
unfoldable pub apply_retention : Bool → Exec Database String Unit
unfolding query prune_request_logs
apply_retention false = pure tt
apply_retention true = do
  found ← query (λ d. lookup "log_retention_count" d.settings)
  value ← lift (ok_or "Query returned no rows" found)
  prune_request_logs (setting_of (some value))

unfoldable pub update_settings : Map String String → Exec Database String Unit
unfolding transaction save_settings apply_retention execute
update_settings given = transaction (do
  save_settings given
  apply_retention (contains_key "log_retention_count" given)
  execute (λ d. d))

abbrev pub default_settings : List (String × String)
default_settings =
    ("encrypt_sync", "true")
    ∷ ("limit_file_size", "true")
    ∷ ("max_file_size_mb", "512")
    ∷ ("clipboard_relay", "true")
    ∷ ("sync_text", "true")
    ∷ ("sync_url", "true")
    ∷ ("sync_html", "true")
    ∷ ("sync_rtf", "true")
    ∷ ("sync_image", "true")
    ∷ ("sync_file", "true")
    ∷ ("sync_color", "true")
    ∷ ("log_retention_count", "10000")
    ∷ []

abbrev pub insert_or_ignore : String → String → Map String String → Map String String
insert_or_ignore key value m = if contains_key key m then m else insert key value m

unfoldable pub add_defaults : List (String × String) → Exec Database String Unit
unfolding execute
add_defaults [] = pure tt
add_defaults ((key, value) ∷ rest) = do
  execute (λ d. record d { settings = insert_or_ignore key value d.settings })
  add_defaults rest

unfoldable pub ensure_default_settings : Exec Database String Unit
unfolding add_defaults
ensure_default_settings = add_defaults default_settings
