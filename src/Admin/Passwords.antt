-- ===== src/Admin/Passwords.antt =====
-- admin.rs: the rules for a new password.
use crosspaste_server.Database.Open.{default_admin_password}
use crosspaste_server.Prelude.{
  Bool, List, Result, String, [], any, err, if◌then◌else◌, length, ltb, nat_Comparable, not, ok,
  pair_Comparable, string_Comparable, ℕ, ◌&&◌, ◌+◌, ◌==◌, ◌||◌, ◌∷◌,
}
use crosspaste_server.Prelude.Bytes.{utf8_of}
use crosspaste_server.Prelude.Int.{int_Comparable}
use crosspaste_server.Prelude.Text.{
  codes, contains, is_ascii_alphanumeric, is_ascii_digit, is_ascii_lowercase, is_ascii_uppercase,
  to_ascii_lowercase,
}

-- The number of bytes of the UTF-8 of a text.
unfoldable pub utf8_len : List ℕ → ℕ
utf8_len [] = 0
utf8_len (c ∷ cs) = length (utf8_of c) + utf8_len cs

abbrev pub has_all_kinds : List ℕ → Bool
has_all_kinds password =
    any is_ascii_lowercase password
    && any is_ascii_uppercase password
    && any is_ascii_digit password
    && any (λ c. not (is_ascii_alphanumeric c)) password

unfoldable pub validate_password : (username password confirmation : String) → Result String Unit
unfolding utf8_len
validate_password username password confirmation =
    if not (password == confirmation)
    then err "两次输入的新密码不一致"
    else if ltb (utf8_len (codes password)) 12 || ltb 128 (utf8_len (codes password))
    then err "密码长度必须为 12 到 128 个字符"
    else if password == default_admin_password
        || contains (to_ascii_lowercase (codes username)) (to_ascii_lowercase (codes password))
    then err "密码不能使用默认密码或包含用户名"
    else if has_all_kinds (codes password)
    then ok tt
    else err "密码必须同时包含大小写字母、数字和特殊字符"
