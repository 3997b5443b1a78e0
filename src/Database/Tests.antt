-- ===== src/Database/Tests.antt =====
-- database.rs: the theorems at concrete tables.
use crosspaste_server.Database.Admins.{
  AdminUser, delete_user_sessions, joined, session_user, update_password,
}
use crosspaste_server.Database.Logs.{
  digits, newest, number, parse_usize, prune_request_logs, request_log, retention_of, unsigned,
}
use crosspaste_server.Database.Retention.{Kept, request_log-cut}
use crosspaste_server.Database.Sessions.{session_user-lasts, session_user-update_password}
use crosspaste_server.Database.Tables.{
  AdminRow, Database, RequestLog, SessionRow, execute, query, transaction,
}
use crosspaste_server.Prelude.{
  In, String, [], false, is_ok, nat_Comparable, none, ok, pair_Comparable, refl, some,
  string_Comparable, true, ℕ, ◌∷◌, ◌≡◌, ◌≢◌, ◌⊎◌,
}
use crosspaste_server.Prelude.Int.{as_i64, int_Comparable, leb_ℤ, pos}
use crosspaste_server.Prelude.Map.{insert, lookup, without}
use crosspaste_server.Prelude.Text.{codes_Comparable, is_ascii_digit}

abbrev admin : AdminRow
admin = record {
  password_hash = "old";
  must_change_password = true;
  mfa_secret = none;
  mfa_enabled = false;
  admin_created_at_ms = pos 0;
  admin_updated_at_ms = pos 0;
}

abbrev session_of : String → SessionRow
session_of username = record {
  session_username = username;
  session_expires_at_ms = pos 9_000;
  session_created_at_ms = pos 1_000;
  session_remote_addr = none;
}

abbrev entry : ℕ → RequestLog
entry n = record {
  id = n;
  method = "GET";
  path = "/health";
  status = 200;
  remote_addr = "127.0.0.1";
  client_id = none;
  target_id = none;
  secure = false;
  elapsed_ms = pos 1;
  created_at_ms = pos 2_000;
}

-- Two administrators are logged in, and the log holds two entries of at most two.
abbrev tables : Database
tables = record {
  faults = [];
  server_keys = none;
  paired_clients = [];
  paste_records = [];
  file_chunks = [];
  admin_users = ("admin", admin) ∷ ("second", admin) ∷ [];
  admin_sessions = ("a", session_of "admin") ∷ ("b", session_of "second") ∷ [];
  settings = ("log_retention_count", "2") ∷ [];
  request_logs = entry 2 ∷ entry 1 ∷ [];
  next_log_id = 3;
  audit_logs = [];
  next_audit_id = 1;
}

abbrev second : AdminUser
second = record { username = "second"; must_change_password = true; mfa_enabled = false }

answered : (session_user "b" (pos 2_000) (pos 2_001) tables).0 ≡ ok (some second)
unfolding session_user execute query joined lookup
answered = refl

session_user-lasts_example :
    (s : SessionRow) × In ("b", s) tables.admin_sessions
    × (s.session_username ≡ "second")
    × (leb_ℤ (pos 2_000) s.session_expires_at_ms ≡ true)
    × (leb_ℤ (pos 2_001) s.session_expires_at_ms ≡ true)
    × ((row : AdminRow) × (lookup "second" tables.admin_users ≡ some row))
session_user-lasts_example = session_user-lasts "b" (pos 2_000) (pos 2_001) tables second answered

abbrev changed : Database
changed = record tables {
  admin_users =
      (
        "admin",
        record admin {
          password_hash = "new";
          must_change_password = false;
          admin_updated_at_ms = pos 1_500;
        },
      )
      ∷ ("second", admin)
      ∷ [];
  admin_sessions = ("b", session_of "second") ∷ [];
}

changes : update_password "admin" (ok "new") (pos 1_500) tables ≡ (ok tt, changed)
unfolding update_password execute delete_user_sessions lookup insert without
changes = refl

still_answered : (session_user "b" (pos 2_000) (pos 2_001) changed).0 ≡ ok (some second)
unfolding session_user execute query joined lookup
still_answered = refl

session_user-update_password_example : second.username ≢ "admin"
session_user-update_password_example =
    session_user-update_password "admin" (ok "new") (pos 1_500) tables changed "b" (pos 2_000)
      (pos 2_001) second changes still_answered

request_log-cut_example :
    ((n : ℕ) × Kept n tables
      × ((request_log entry tables).0 ≡ ok tt)
      × ((request_log entry tables).1.request_logs
          ≡ newest (as_i64 n) (entry 3 ∷ tables.request_logs)))
    ⊎ ((is_ok (request_log entry tables).0 ≡ false)
        × ((request_log entry tables).1.request_logs ≡ tables.request_logs)
        × ((request_log entry tables).1.next_log_id ≡ tables.next_log_id))
request_log-cut_example = request_log-cut entry tables

-- The setting is read as a number, and the oldest entry goes.
two_kept : (request_log entry tables).1.request_logs ≡ entry 3 ∷ entry 2 ∷ []
unfolding request_log transaction execute retention_of query prune_request_logs lookup parse_usize
    unsigned number digits newest as_i64 is_ascii_digit
two_kept = refl
