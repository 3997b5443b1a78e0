-- ===== src/Admin/Mfa.antt =====
-- admin.rs: an administrator turns the second factor on and off.
use crosspaste_server.Admin.Response.{
  Handler, Hashing, api_error, flattened, ignore, json_response, no_content, or_internal,
  verify_password,
}
use crosspaste_server.Admin.Sessions.{require_ready_user}
use crosspaste_server.Admin.Totp.{verify_totp}
use crosspaste_server.Auth.{HeaderMap}
use crosspaste_server.Database.Admins.{AdminUserSecret, get_admin_user, set_mfa}
use crosspaste_server.Database.Logs.{audit}
use crosspaste_server.Database.Tables.{Database}
use crosspaste_server.Prelude.{
  List, Option, Result, String, and_then, ensure, false, is_some_and, lift, none, ok_or, pure, some,
  true, ℕ, ◌&&◌, ◌++◌, ◌>>=◌, ◌>>◌,
}
use crosspaste_server.Prelude.Bytes.{as_bytes}
use crosspaste_server.Prelude.Chars.{from_codes}
use crosspaste_server.Prelude.Formats.{percent_encode}
use crosspaste_server.Prelude.Int.{ℤ}
use crosspaste_server.Prelude.Text.{codes}

pub record MfaSetupResponse : Type 0 where
  pub secret : List ℕ
  pub otpauth_uri : List ℕ
  pub qr_data_uri : String

pub record MfaDisableRequest : Type 0 where
  pub password : String
  pub code : String

-- The address that an authenticator takes.
unfoldable pub otpauth_uri : String → List ℕ → List ℕ
unfolding percent_encode
otpauth_uri username secret =
    codes "otpauth://totp/"
    ++ (percent_encode (as_bytes "CrossPaste Server:" ++ as_bytes username)
        ++ (codes "?secret="
            ++ (secret ++ codes "&issuer=CrossPaste%20Server&algorithm=SHA1&digits=6&period=30")))

module _ (t : Hashing) where
  -- `random` are the bytes of the new secret; `render` is `render_qr_png` with the base64 of its image.
  unfoldable pub mfa_setup :
      (render : List ℕ → Result String String)
      → HeaderMap
      → (random : List ℕ) → (swept now changed : ℤ) → Handler Database MfaSetupResponse
  unfolding require_ready_user otpauth_uri
  mfa_setup render headers random swept now changed = do
    user ← require_ready_user t headers swept now
    let secret = t.base32_encode random
    or_internal (set_mfa user.username (some (from_codes secret)) false changed)
    let uri = otpauth_uri user.username secret
    image ← or_internal (lift (render uri))
    pure (json_response (record { secret = secret; otpauth_uri = uri; qr_data_uri = image }))

  abbrev mfa_secret_of : Option AdminUserSecret → Option String
  mfa_secret_of = and_then (λ value. value.mfa_secret)

  unfoldable pub mfa_enable :
      HeaderMap → (code : String) → (swept now code_at changed audited : ℤ) → Handler Database Unit
  unfolding require_ready_user verify_totp
  mfa_enable headers code swept now code_at changed audited = do
    user ← require_ready_user t headers swept now
    found ← flattened (get_admin_user user.username)
    secret ← lift (ok_or (api_error 400 "请先生成 MFA 密钥") (mfa_secret_of found))
    ensure (verify_totp t secret code code_at) (api_error 400 "验证码错误")
    or_internal (set_mfa user.username (some secret) true changed)
    ignore (audit (some user.username) "mfa_enabled" "TOTP enabled" none audited)
    pure no_content

  unfoldable pub mfa_disable :
      HeaderMap
      → MfaDisableRequest
      → (swept now code_at changed audited : ℤ) → Handler Database Unit
  unfolding require_ready_user verify_password verify_totp
  mfa_disable headers request swept now code_at changed audited = do
    user ← require_ready_user t headers swept now
    found ← flattened (get_admin_user user.username)
    secret ← lift (ok_or (api_error 401 "登录状态无效") found)
    ensure
        (verify_password t request.password secret.password_hash
          && is_some_and (λ value. verify_totp t value request.code code_at) secret.mfa_secret)
        (api_error 400 "密码或验证码错误")
    or_internal (set_mfa user.username none false changed)
    ignore (audit (some user.username) "mfa_disabled" "TOTP disabled" none audited)
    pure no_content
