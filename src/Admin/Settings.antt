-- ===== src/Admin/Settings.antt =====
-- admin.rs: which settings an administrator may write.
use crosspaste_server.Database.Logs.{parse_usize}
use crosspaste_server.Prelude.{
  Bool, List, Option, Result, String, [], all, any, err, if◌then◌else◌, is_none_or, is_some_and,
  leb, nat_Comparable, not, ok, pair_Comparable, string_Comparable, ℕ, ◌&&◌, ◌==◌, ◌||◌, ◌∷◌,
}
use crosspaste_server.Prelude.Int.{int_Comparable}
use crosspaste_server.Prelude.Map.{Map, lookup}

abbrev pub allowed : List String
allowed =
    "encrypt_sync" ∷ "limit_file_size" ∷ "max_file_size_mb" ∷ "clipboard_relay" ∷ "sync_text"
    ∷ "sync_url" ∷ "sync_html" ∷ "sync_rtf" ∷ "sync_image" ∷ "sync_file" ∷ "sync_color"
    ∷ "log_retention_count" ∷ []

abbrev pub is_allowed : String → Bool
is_allowed key = any (λ name. name == key) allowed

-- A number in a range, both ends included.
abbrev pub is_within : ℕ → ℕ → Option ℕ → Bool
is_within low high n = is_some_and (λ value. leb low value && leb value high) n

abbrev pub is_number_key : String → Bool
is_number_key key = (key == "max_file_size_mb") || (key == "log_retention_count")

abbrev pub is_switch : String × String → Bool
is_switch (key, value) = is_number_key key || (value == "true") || (value == "false")

unfoldable pub validate_settings : Map String String → Result String Unit
validate_settings settings =
    if any (λ (key, value). not (is_allowed key)) settings
    then err "包含未知设置项"
    else if not (
        is_none_or (λ value. is_within 1 102400 (parse_usize value))
          (lookup "max_file_size_mb" settings))
    then err "最大文件大小必须在 1 到 102400 MB 之间"
    else if not (
        is_none_or (λ value. is_within 1000 1_000_000 (parse_usize value))
          (lookup "log_retention_count" settings))
    then err "日志存储上限必须在 1000 到 1000000 条之间"
    else if all is_switch settings
    then ok tt
    else err "开关值必须为 true 或 false"
