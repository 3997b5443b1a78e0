-- ===== src/Admin/Tests.antt =====
-- admin.rs: an administrator logs in and writes settings.
use crosspaste_server.Admin.Bounded.{IsBounded}
use crosspaste_server.Admin.Calls.{Write, logs, starts, write_all, write_all-IsBounded, writes}
use crosspaste_server.Admin.Issued.{Leaves, login-Leaves, login_outcome}
use crosspaste_server.Admin.Login.{LoginRequest, LoginResponse}
use crosspaste_server.Admin.Response.{Hashing, Response}
use crosspaste_server.Auth.{HeaderMap}
use crosspaste_server.Database.Tables.{AdminRow, Database}
use crosspaste_server.Hub.Samples.{request, started_hub, tables}
use crosspaste_server.Prelude.{
  List, [], false, nat_Comparable, none, ok, pair_Comparable, refl, replicate, some,
  string_Comparable, true, ◌∷◌,
}
use crosspaste_server.Prelude.Chars.{from_codes}
use crosspaste_server.Prelude.Int.{int_Comparable, pos}
use crosspaste_server.Prelude.Map.{lookup}
use crosspaste_server.Prelude.Text.{codes, codes_Comparable, same_codes}
use crosspaste_server.Registry.Samples.{config, start}
use crosspaste_server.Tunnel.State.{AppState}

abbrev hashing : Hashing
hashing = record {
  password_hash = λ text. some text;
  verify_with = λ password parsed. same_codes password (codes parsed);
  hash_with = λ password salt. ok (from_codes password);
  sha256 = λ bytes. bytes;
  hmac_sha1 = λ key text. replicate 20 0;
  base32_decode = λ text. some text;
  base32_encode = λ bytes. bytes;
}

abbrev admin : AdminRow
admin = record {
  password_hash = "secret";
  must_change_password = false;
  mfa_secret = some "KEY";
  mfa_enabled = true;
  admin_created_at_ms = pos 0;
  admin_updated_at_ms = pos 0;
}

abbrev with_admin : Database
with_admin = record tables { admin_users = ("admin", admin) ∷ [] }

abbrev right_code : LoginRequest
right_code = record { username = " admin"; password = "secret"; mfa_code = some "000000" }

abbrev logged_in : LoginRequest → Response LoginResponse × Database
logged_in request =
    login_outcome hashing request "10.0.0.9" (1 ∷ []) (pos 1) (pos 2) (pos 3) (pos 4) (pos 5)
      with_admin

login-Leaves_example :
    Leaves hashing right_code "10.0.0.9"
      (1 ∷ [])
      (pos 1)
      (pos 2)
      (pos 3)
      (pos 4)
      (pos 5)
      with_admin
      (logged_in right_code)
login-Leaves_example =
    login-Leaves hashing right_code "10.0.0.9" (1 ∷ []) (pos 1) (pos 2) (pos 3) (pos 4) (pos 5)
      with_admin

abbrev state : AppState
state = record {
  registry = start;
  config = config;
  hub = record started_hub {
    database = record with_admin {
      admin_sessions =
          (
            "31",
            record {
              session_username = "admin";
              session_expires_at_ms = pos 9_000;
              session_created_at_ms = pos 1_000;
              session_remote_addr = none;
            },
          )
          ∷ [];
    };
  };
}

abbrev headers : HeaderMap
headers = ("cookie", codes "a=b; crosspaste_admin_session=1") ∷ []

abbrev history : List Write
history =
    starts
    ∷ writes hashing (λ m. "{}") headers (("log_retention_count", "2000") ∷ []) (pos 2) (pos 3)
        (pos 4)
    ∷ writes hashing (λ m. "{}") headers (("log_retention_count", "7") ∷ []) (pos 2) (pos 3) (pos 4)
    ∷ logs (record { method = "GET"; path = "/health"; headers = []; remote = none }) 200 (pos 1)
        (pos 5)
    ∷ []

write_all-IsBounded_example : IsBounded (write_all state history).hub.database
write_all-IsBounded_example =
    write_all-IsBounded state history refl refl
      unfold lookup in (tt, ((refl, tt), ((refl, tt), (tt, tt))))
