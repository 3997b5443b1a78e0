-- ===== src/Admin/Kept.antt =====
-- database.rs: the statements of a log-in, of a note and of a logged request keep the bounds.
use crosspaste_server.Admin.Bounded.{IsBounded, IsBounded-steady, setting_of-le}
use crosspaste_server.Admin.Valid.{is_valid}
use crosspaste_server.Database.Admins.{session_user}
use crosspaste_server.Database.Keeps.{execute-Keeps, query-Keeps, transaction-Keeps}
use crosspaste_server.Database.Logs.{
  audit, newest, noted, prune_request_logs, request_log, retained, retention_of,
}
use crosspaste_server.Database.Retention.{Kept, request_log-cut, setting_of_lem}
use crosspaste_server.Database.Tables.{Database, RequestLog, query}
use crosspaste_server.Prelude.{
  List, Option, Result, String, all, arith, err, inl, inr, keep_if, length, length-take,
  nat_Comparable, ok, pair_Comparable, string_Comparable, true, ℕ, ◌+◌, ◌∷◌, ◌≡◌, ◌≤◌,
}
use crosspaste_server.Prelude.Int.{as_i64, as_i64-small, int_Comparable, leb_ℤ, ℤ}
use crosspaste_server.Prelude.Keeps.{Keeps, bind-Keeps, then-Keeps}
use crosspaste_server.Prelude.Map.{lookup}
use crosspaste_server.Prelude.Text.{codes_Comparable}

retention-Keeps :
    {P : Database → Type 0}
    (steady : (d : Database) (fs : List (Option String)) → P d → P (record d { faults = fs }))
    → Keeps P retention_of
unfolding retention_of
retention-Keeps {P = P} steady = record {
  keeps = λ d p.
      go (query (λ k. lookup "log_retention_count" k.settings) d)
        ((query-Keeps steady (λ k. lookup "log_retention_count" k.settings)).keeps d p);
}
  where
    go : (o : Result String (Option String) × Database) → P o.1 → P (retained o).1
    go (ok value, q) p = p
    go (err e, q) p = p

abbrev SettingsValid : Database → Type 0
SettingsValid d = all is_valid d.settings ≡ true

SettingsValid-steady :
    (d : Database) (fs : List (Option String))
    → SettingsValid d
    → SettingsValid (record d { faults = fs })
SettingsValid-steady d fs p = p

request_log-SettingsValid : (entry : ℕ → RequestLog) → Keeps SettingsValid (request_log entry)
unfolding request_log prune_request_logs
request_log-SettingsValid entry = transaction-Keeps SettingsValid-steady (
    then-Keeps
      (execute-Keeps SettingsValid-steady
        (λ d. record d {
          request_logs = entry d.next_log_id ∷ d.request_logs;
          next_log_id = d.next_log_id + 1;
        })
        λ d p. p)
      (bind-Keeps (retention-Keeps SettingsValid-steady) λ n.
        then-Keeps
          (execute-Keeps SettingsValid-steady
            (λ d. record d { request_logs = newest (as_i64 n) d.request_logs }) λ d p. p)
          (execute-Keeps SettingsValid-steady (λ d. d) λ d p. p)))

length-newest_small :
    (n : ℕ) (logs : List RequestLog) → n ≤ 1_000_000 → length (newest (as_i64 n) logs) ≤ 1_000_000
unfolding newest
length-newest_small n logs h = rw (as_i64-small n (omega arith)) (omega (arith, length-take n logs))

le-Kept : (d : Database) (n : ℕ) → IsBounded d → Kept n d → n ≤ 1_000_000
le-Kept d n p (inr (e, f)) = omega arith
le-Kept d n p (inl (f, e)) = omega (
  arith,
  e,
  setting_of_lem (lookup "log_retention_count" d.settings),
  setting_of-le d.settings p.settings_valid,
)

pub request_log-IsBounded : (entry : ℕ → RequestLog) → Keeps IsBounded (request_log entry)
request_log-IsBounded entry = record {
  keeps = λ d p. record {
    settings_valid = (request_log-SettingsValid entry).keeps d p.settings_valid;
    logs_bounded = elim (request_log-cut entry d) [
      | inl w ↦ rw w.3 (length-newest_small w.0 _ (le-Kept d w.0 p w.1))
      | inr w ↦ rw w.1 p.logs_bounded
    ];
  };
}

pub session_user-IsBounded :
    (token : String) (swept now : ℤ) → Keeps IsBounded (session_user token swept now)
unfolding session_user
session_user-IsBounded token swept now =
    then-Keeps
      (execute-Keeps IsBounded-steady
        (λ d. record d {
          admin_sessions = keep_if (λ (t, s). leb_ℤ swept s.session_expires_at_ms) d.admin_sessions;
        })
        λ d p. record { settings_valid = p.settings_valid; logs_bounded = p.logs_bounded })
      (query-Keeps IsBounded-steady _)

pub audit-IsBounded :
    (username : Option String) (action detail : String) (remote : Option String) (now : ℤ)
    → Keeps IsBounded (audit username action detail remote now)
unfolding audit
audit-IsBounded username action detail remote now =
    execute-Keeps IsBounded-steady (noted username action detail remote now)
      λ d p. record { settings_valid = p.settings_valid; logs_bounded = p.logs_bounded }
