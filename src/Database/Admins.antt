-- ===== src/Database/Admins.antt =====
-- database.rs: administrators and their sessions.
use crosspaste_server.Admin.Response.{token_hash}
use crosspaste_server.Database.Tables.{
  AdminRow, Database, SessionRow, execute, execute_checked, query,
}
use crosspaste_server.Prelude.{
  Bool, Exec, Option, Result, String, err, false, if◌then◌else◌, keep_if, lift, nat_Comparable,
  none, not, ok, pair_Comparable, some, string_Comparable, ◌==◌, ◌>>=◌, ◌>>◌,
}
use crosspaste_server.Prelude.Int.{int_Comparable, leb_ℤ, ℤ}
use crosspaste_server.Prelude.Map.{Map, contains_key, insert, lookup, without}
use crosspaste_server.Prelude.Text.{codes_Comparable}

pub record AdminUser : Type 0 where
  pub username : String
  pub must_change_password : Bool
  pub mfa_enabled : Bool

pub record AdminUserSecret : Type 0 where
  pub user : AdminUser
  pub password_hash : String
  pub mfa_secret : Option String

abbrev user_of : String → AdminRow → AdminUser
user_of username row = record {
  username = username;
  must_change_password = row.must_change_password;
  mfa_enabled = row.mfa_enabled;
}

abbrev pub admin_secret : String → AdminRow → AdminUserSecret
admin_secret username row = record {
  user = user_of username row;
  password_hash = row.password_hash;
  mfa_secret = row.mfa_secret;
}

abbrev pub secret_of : String → Option AdminRow → Option AdminUserSecret
secret_of username none = none
secret_of username (some row) = some (admin_secret username row)

unfoldable pub get_admin_user : String → Exec Database String (Option AdminUserSecret)
unfolding query
get_admin_user username = query λ d. secret_of username (lookup username d.admin_users)

abbrev changed : String → (AdminRow → AdminRow) → Map String AdminRow → Map String AdminRow
changed username f m = elim (lookup username m) [ none ↦ m | some row ↦ insert username (f row) m ]

unfoldable pub delete_user_sessions : String → Exec Database String Unit
unfolding execute
delete_user_sessions username = execute λ d. record d {
  admin_sessions = keep_if (λ (token, s). not (s.session_username == username)) d.admin_sessions;
}

-- `hashed` is what `hash_password` makes of the new password.
unfoldable pub update_password : String → Result String String → ℤ → Exec Database String Unit
unfolding execute delete_user_sessions
update_password username hashed now = do
  hash ← lift hashed
  execute (λ d. record d {
    admin_users =
        changed username
          (λ row. record row {
            password_hash = hash;
            must_change_password = false;
            admin_updated_at_ms = now;
          })
          d.admin_users;
  })
  delete_user_sessions username

unfoldable pub set_mfa : String → Option String → Bool → ℤ → Exec Database String Unit
unfolding execute
set_mfa username secret enabled now = execute λ d. record d {
  admin_users =
      changed username
        (λ row. record row {
          mfa_secret = secret;
          mfa_enabled = enabled;
          admin_updated_at_ms = now;
        })
        d.admin_users;
}

-- The token is a primary key, and the user name refers to a row.
unfoldable pub create_session : String → String → ℤ → Option String → ℤ → Exec Database String Unit
unfolding execute_checked
create_session username token_hash expires_at_ms remote now = execute_checked λ d.
    if contains_key token_hash d.admin_sessions
    then err "UNIQUE constraint failed"
    else if contains_key username d.admin_users
    then ok (record d {
      admin_sessions =
          insert token_hash
            (record {
              session_username = username;
              session_expires_at_ms = expires_at_ms;
              session_created_at_ms = now;
              session_remote_addr = remote;
            })
            d.admin_sessions;
    })
    else err "FOREIGN KEY constraint failed"

unfoldable pub delete_session : String → Exec Database String Unit
unfolding execute
delete_session token_hash =
    execute λ d. record d { admin_sessions = without token_hash d.admin_sessions }

-- The user of a session that has not ended, joined with its row.
unfoldable pub joined : Option SessionRow → ℤ → Map String AdminRow → Option AdminUser
joined none now users = none
joined (some s) now users =
    if leb_ℤ now s.session_expires_at_ms
    then elim (lookup s.session_username users) [
      | none ↦ none
      | some row ↦ some (user_of s.session_username row)
    ]
    else none

-- `swept` and `now` are the two times that are read.
unfoldable pub session_user : String → (swept now : ℤ) → Exec Database String (Option AdminUser)
unfolding execute query joined
session_user token_hash swept now = do
  execute (λ d. record d {
    admin_sessions = keep_if (λ (token, s). leb_ℤ swept s.session_expires_at_ms) d.admin_sessions;
  })
  query (λ d. joined (lookup token_hash d.admin_sessions) now d.admin_users)
