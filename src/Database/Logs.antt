-- ===== src/Database/Logs.antt =====
-- database.rs: the log of requests with its retention, and the audit log.
use crosspaste_server.Database.Tables.{AuditLog, Database, RequestLog, execute, query, transaction}
use crosspaste_server.Prelude.{
  Exec, List, Option, Result, String, [], eqb, err, if◌then◌else◌, ltb, min, nat_Comparable, none,
  ok, pair_Comparable, some, string_Comparable, take, unwrap_or, ℕ, ◌*◌, ◌+◌, ◌-◌, ◌>>=◌, ◌>>◌, ◌^◌,
  ◌∷◌,
}
use crosspaste_server.Prelude.Int.{as_i64, int_Comparable, negsuc, pos, ℤ}
use crosspaste_server.Prelude.Map.{lookup}
use crosspaste_server.Prelude.Text.{codes, codes_Comparable, is_ascii_digit}

-- The value of digits that come after `acc`, if there is no other character.
unfoldable pub digits : ℕ → List ℕ → Option ℕ
digits acc [] = some acc
digits acc (c ∷ cs) =
    let rest = digits (acc * 10 + (c - b'0')) cs in if is_ascii_digit c then rest else none

unfoldable pub number : List ℕ → Option ℕ
unfolding digits
number [] = none
number (c ∷ cs) = digits 0 (c ∷ cs)

unfoldable pub unsigned : List ℕ → Option ℕ
unfolding number
unsigned [] = none
unsigned (c ∷ cs) = if eqb c b'+' then number cs else number (c ∷ cs)

abbrev below : ℕ → Option ℕ → Option ℕ
below bound none = none
below bound (some n) = if ltb n bound then some n else none

-- `str::parse::<usize>`: digits, after a plus sign or none, of a number of 64 bits.
unfoldable pub parse_usize : String → Option ℕ
unfolding unsigned
parse_usize text = below (2 ^ 64) (unsigned (codes text))

-- `LIMIT` with a negative number takes all.
unfoldable pub newest : ℤ → List RequestLog → List RequestLog
newest (pos n) logs = take n logs
newest (negsuc n) logs = logs

unfoldable pub prune_request_logs : ℕ → Exec Database String Unit
unfolding execute newest
prune_request_logs retention =
    execute λ d. record d { request_logs = newest (as_i64 retention) d.request_logs }

abbrev pub setting_of : Option String → ℕ
setting_of none = 10_000
setting_of (some text) = unwrap_or 10_000 (parse_usize text)

abbrev pub retained : Result String (Option String) × Database → Result String ℕ × Database
retained (ok value, d) = (ok (setting_of value), d)
retained (err m, d) = (ok 10_000, d)

-- The query may fail, and the setting be missing or no number: then it is 10000.
unfoldable pub retention_of : Exec Database String ℕ
unfolding query
retention_of d = retained (query (λ k. lookup "log_retention_count" k.settings) d)

-- The log with the identifier that it is given.
unfoldable pub request_log : (entry : ℕ → RequestLog) → Exec Database String Unit
unfolding transaction execute retention_of prune_request_logs
request_log entry = transaction (do
  execute (λ d. record d {
    request_logs = entry d.next_log_id ∷ d.request_logs;
    next_log_id = d.next_log_id + 1;
  })
  retention ← retention_of
  prune_request_logs retention
  execute (λ d. d))

unfoldable pub request_logs : ℕ → Exec Database String (List RequestLog)
unfolding query
request_logs limit = query λ d. take (min limit 1000) d.request_logs

abbrev pub noted : Option String → String → String → Option String → ℤ → Database → Database
noted username action detail remote now d = record d {
  audit_logs =
      record {
        id = d.next_audit_id;
        username = username;
        action = action;
        detail = detail;
        remote_addr = remote;
        created_at_ms = now;
      }
      ∷ d.audit_logs;
  next_audit_id = d.next_audit_id + 1;
}

unfoldable pub audit :
    Option String → String → String → Option String → ℤ → Exec Database String Unit
unfolding execute
audit username action detail remote now = execute (noted username action detail remote now)

abbrev newest_audits : ℤ → List AuditLog → List AuditLog
newest_audits (pos n) logs = take n logs
newest_audits (negsuc n) logs = logs

unfoldable pub audit_logs : ℕ → Exec Database String (List AuditLog)
unfolding query
audit_logs limit = query λ d. newest_audits (as_i64 limit) d.audit_logs
