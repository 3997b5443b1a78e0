-- ===== src/Admin/Login.antt =====
-- admin.rs: an administrator logs in.
use crosspaste_server.Admin.Response.{
  Handler, Hashing, Response, api_error, flattened, ignore, json_response, or_internal, token_hash,
  trimmed, verify_password,
}
use crosspaste_server.Admin.Sessions.{session_ttl_ms, set_session_cookie}
use crosspaste_server.Admin.Totp.{verify_totp}
use crosspaste_server.Database.Admins.{AdminUser, AdminUserSecret, create_session, get_admin_user}
use crosspaste_server.Database.Logs.{audit}
use crosspaste_server.Database.Tables.{Database}
use crosspaste_server.Prelude.{
  Bool, Exec, List, Option, String, ensure, false, if◌then◌else◌, is_some_and, nat_Comparable, none,
  pair_Comparable, pure, raise, some, string_Comparable, true, ℕ, ◌==◌, ◌>>=◌, ◌>>◌,
}
use crosspaste_server.Prelude.Int.{int_Comparable, ℤ, ◌+ℤ◌}
use crosspaste_server.Prelude.Text.{codes_Comparable}
use crosspaste_server.RelayError.{code}

pub record LoginRequest : Type 0 where
  pub username : String
  pub password : String
  pub mfa_code : Option String

pub record LoginResponse : Type 0 where
  pub user : AdminUser
  pub mfa_required : Bool

abbrev Step : Type 0 → Type 0
Step = Exec Database (Response LoginResponse)

abbrev pub wrong : Response LoginResponse
wrong = api_error 401 "用户名或密码错误"

module _ (remote : String) (now : ℤ) where
  -- A name that is unknown, and a password that is wrong, are in the audit log.
  unfoldable pub known : Option AdminUserSecret → Step AdminUserSecret
  known (some user) = pure user
  known none = do
    ignore (audit none "login_failed" "unknown username" (some remote) now)
    raise wrong

  unfoldable pub proven : Bool → String → Step Unit
  proven true username = pure tt
  proven false username = do
    ignore (audit (some username) "login_failed" "invalid password" (some remote) now)
    raise wrong

-- A code that is not blank.
unfoldable pub entered : Option String → Option String
unfolding trimmed
entered none = none
entered (some code) = if trimmed code == "" then none else some code

module _ (t : Hashing) where
  -- An answer that asks for a code is no error, but it ends the call.
  unfoldable pub check_code : AdminUserSecret → Option String → ℤ → Step Unit
  check_code user none now =
      raise (json_response (record { user = user.user; mfa_required = true }))
  check_code user (some code) now =
      ensure (is_some_and (λ secret. verify_totp t secret code now) user.mfa_secret)
        (api_error 401 "MFA 验证码错误")

  unfoldable pub check_mfa : AdminUserSecret → Option String → ℤ → Step Unit
  check_mfa user mfa_code now =
      if user.user.mfa_enabled then check_code user (entered mfa_code) now else pure tt

  -- `token` is `random_token`: the hexadecimal digits of random bytes.
  unfoldable pub issue :
      AdminUser
      → (remote : String) → (token : List ℕ) → (expires created audited : ℤ)
      → Handler Database LoginResponse
  issue user remote token expires created audited = do
    or_internal (
        create_session user.username (token_hash t token) (expires +ℤ session_ttl_ms) (some remote)
          created)
    ignore (audit (some user.username) "login" "admin login" (some remote) audited)
    pure (record (json_response (record { user = user; mfa_required = false })) {
      set_cookie = set_session_cookie token;
    })

  unfoldable pub login :
      LoginRequest
      → (remote : String) → (token : List ℕ) → (refused code_at expires created audited : ℤ)
      → Handler Database LoginResponse
  login request remote token refused code_at expires created audited = do
    found ← flattened (get_admin_user (trimmed request.username))
    user ← known remote refused found
    proven remote refused (verify_password t request.password user.password_hash) user.user.username
    check_mfa user request.mfa_code code_at
    issue user.user remote token expires created audited
