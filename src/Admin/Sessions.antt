-- ===== src/Admin/Sessions.antt =====
-- admin.rs: who is logged in. Each call takes the times that it reads, first to last.
use crosspaste_server.Admin.Passwords.{validate_password}
use crosspaste_server.Admin.Response.{
  Handler, Hashing, Response, api_error, flattened, hash_password, ignore, json_response,
  no_content, or_internal, token_hash, verify_password,
}
use crosspaste_server.Auth.{HeaderMap, to_str, trim}
use crosspaste_server.Database.Admins.{
  AdminUser, delete_session, get_admin_user, session_user, update_password,
}
use crosspaste_server.Database.Logs.{audit}
use crosspaste_server.Database.Tables.{Database}
use crosspaste_server.Prelude.{
  Exec, List, Option, String, [], and_then, ensure, if◌then◌else◌, lift, map_err, nat_Comparable,
  none, not, ok_or, or_else, pair_Comparable, pure, some, string_Comparable, ℕ, ◌*◌, ◌++◌, ◌>>=◌,
  ◌>>◌, ◌∷◌,
}
use crosspaste_server.Prelude.Int.{int_Comparable, pos, ℤ}
use crosspaste_server.Prelude.Map.{lookup}
use crosspaste_server.Prelude.Text.{codes, same_codes, split, split_once}

abbrev pub session_cookie : List ℕ
session_cookie = codes "crosspaste_admin_session"

abbrev pub session_ttl_ms : ℤ
session_ttl_ms = pos (12 * 60 * 60 * 1000)

abbrev named : List ℕ → Option (List ℕ × List ℕ) → Option (List ℕ)
named name none = none
named name (some (key, value)) = if same_codes key name then some value else none

-- `find_map` over the parts of a cookie header.
unfoldable pub find_cookie : List ℕ → List (List ℕ) → Option (List ℕ)
find_cookie name [] = none
find_cookie name (part ∷ parts) =
    or_else (named name (split_once b'=' (trim part))) (find_cookie name parts)

unfoldable pub cookie : HeaderMap → List ℕ → Option (List ℕ)
unfolding find_cookie
cookie headers name =
    and_then (λ text. find_cookie name (split b';' text))
      (and_then to_str (lookup "cookie" headers))

-- `HeaderValue::from_str`: only visible ASCII is a value.
abbrev header_value : List ℕ → Option (List ℕ)
header_value = to_str

unfoldable pub set_session_cookie : List ℕ → Option (List ℕ)
set_session_cookie token = header_value (
    session_cookie
    ++ (codes "=" ++ (token ++ codes "; Path=/; HttpOnly; SameSite=Strict; Max-Age=43200")))

abbrev cleared_cookie : List ℕ
cleared_cookie = codes "crosspaste_admin_session=; Path=/; HttpOnly; SameSite=Strict; Max-Age=0"

module _ (t : Hashing) where
  abbrev lift_or : {B C : Type 0} → Response C → Option B → Exec Database (Response C) B
  lift_or response found = lift (ok_or response found)

  -- The times are those of `session_user`.
  unfoldable pub authenticated :
      {A : Type 0} → HeaderMap → (swept now : ℤ) → Exec Database (Response A) AdminUser
  unfolding cookie
  authenticated headers swept now = do
    token ← lift_or (api_error 401 "请先登录") (cookie headers session_cookie)
    found ← flattened (session_user (token_hash t token) swept now)
    lift_or (api_error 401 "登录已过期") found

  unfoldable pub require_ready_user :
      {A : Type 0} → HeaderMap → (swept now : ℤ) → Exec Database (Response A) AdminUser
  unfolding authenticated
  require_ready_user headers swept now = do
    user ← authenticated headers swept now
    ensure (not user.must_change_password) (api_error 403 "首次登录必须修改密码")
    pure user

  unfoldable pub me : HeaderMap → (swept now : ℤ) → Handler Database AdminUser
  unfolding authenticated
  me headers swept now = do user ← authenticated headers swept now; pure (json_response user)

  unfoldable pub logout : HeaderMap → Handler Database Unit
  unfolding cookie
  logout headers = do
    end_session (cookie headers session_cookie)
    pure (record no_content { set_cookie = some cleared_cookie })
    where
      end_session : Option (List ℕ) → Exec Database (Response Unit) Unit
      end_session none = pure tt
      end_session (some token) = ignore (delete_session (token_hash t token))

  pub record PasswordRequest : Type 0 where
    pub current_password : String
    pub new_password : String
    pub confirm_password : String

  unfoldable pub change_password :
      HeaderMap
      → String
      → PasswordRequest
      → (swept now changed audited : ℤ) → (salt : List ℕ) → Handler Database Unit
  unfolding authenticated verify_password hash_password
  change_password headers remote request swept now changed audited salt = do
    user ← authenticated headers swept now
    found ← flattened (get_admin_user user.username)
    secret ← lift_or (api_error 401 "登录状态无效") found
    ensure (verify_password t request.current_password secret.password_hash)
        (api_error 400 "当前密码错误")
    lift (
        map_err (api_error 400)
          (validate_password user.username request.new_password request.confirm_password))
    ensure (not (verify_password t request.new_password secret.password_hash))
        (api_error 400 "新密码不能与当前密码相同")
    or_internal (update_password user.username (hash_password t request.new_password salt) changed)
    ignore (audit (some user.username) "password_changed" "password updated" (some remote) audited)
    pure (record no_content { set_cookie = some cleared_cookie })
