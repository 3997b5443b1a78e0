-- ===== src/Database/Retention.antt =====
-- database.rs: how long the log of requests gets.
use crosspaste_server.Database.Logs.{
  newest, parse_usize, prune_request_logs, request_log, retention_of, setting_of,
}
use crosspaste_server.Database.Tables.{
  Database, RequestLog, execute, fault, later, query, transaction,
}
use crosspaste_server.Prelude.{
  Option, String, and_then, arith, false, inl, inr, is_ok, is_some, nat_Comparable, none, ok,
  pair_Comparable, refl, some, string_Comparable, true, unwrap_or, ℕ, ◌∷◌, ◌≡◌, ◌⊎◌,
}
use crosspaste_server.Prelude.Int.{as_i64, int_Comparable}
use crosspaste_server.Prelude.Map.{lookup}
use crosspaste_server.Prelude.Text.{codes_Comparable}

-- The number that the setting names, or 10000 if it is missing or no number.
pub setting_of_lem : (o : Option String) → setting_of o ≡ unwrap_or 10_000 (and_then parse_usize o)
setting_of_lem none = refl
setting_of_lem (some text) = refl

-- How many entries are kept: what the setting names, or 10000 if it is missing or no number; or
-- 10000, and only if the setting could not be read.
abbrev pub Kept : ℕ → Database → Type 0
Kept n d =
    ((fault (later d.faults) ≡ none)
      × (n ≡ unwrap_or 10_000 (and_then parse_usize (lookup "log_retention_count" d.settings))))
    ⊎ ((is_some (fault (later d.faults)) ≡ true) × (n ≡ 10_000))

-- After a request was logged, the log is its entry before the older ones, cut to the number that the
-- settings name, or to 10000 if they name none. It is cut to 10000 in spite of the settings only
-- where the statement that reads them, the second, fails. A log that could not be written or cut
-- leaves the tables as they were.
pub request_log-cut :
    (entry : ℕ → RequestLog) (d : Database)
    → ((n : ℕ) × Kept n d
        × ((request_log entry d).0 ≡ ok tt)
        × ((request_log entry d).1.request_logs
            ≡ newest (as_i64 n) (entry d.next_log_id ∷ d.request_logs)))
      ⊎ ((is_ok (request_log entry d).0 ≡ false)
          × ((request_log entry d).1.request_logs ≡ d.request_logs)
          × ((request_log entry d).1.next_log_id ≡ d.next_log_id))
request_log-cut entry d = go (fault d.faults) (fault (later d.faults)) refl refl
  where
    Goal : Type 0
    Goal =
        ((n : ℕ) × Kept n d
          × ((request_log entry d).0 ≡ ok tt)
          × ((request_log entry d).1.request_logs
              ≡ newest (as_i64 n) (entry d.next_log_id ∷ d.request_logs)))
        ⊎ ((is_ok (request_log entry d).0 ≡ false)
            × ((request_log entry d).1.request_logs ≡ d.request_logs)
            × ((request_log entry d).1.next_log_id ≡ d.next_log_id))

    Cut : ℕ → Type 0
    Cut n =
        (((request_log entry d).0 ≡ ok tt)
          × ((request_log entry d).1.request_logs
              ≡ newest (as_i64 n) (entry d.next_log_id ∷ d.request_logs)))
        ⊎ ((is_ok (request_log entry d).0 ≡ false)
            × ((request_log entry d).1.request_logs ≡ d.request_logs)
            × ((request_log entry d).1.next_log_id ≡ d.next_log_id))

    at : (n : ℕ) → Kept n d → Cut n → Goal
    at n which (inl (r, l)) = inl (n, which, r, l)
    at n which (inr refused) = inr refused

    go : (o u : Option String) → fault d.faults ≡ o → fault (later d.faults) ≡ u → Goal
    go (some m) u e f = inr (unfold request_log transaction execute in rw e (refl, refl, refl))
    go none none e f =
        at (setting_of (lookup "log_retention_count" d.settings))
          (inl (f, setting_of_lem (lookup "log_retention_count" d.settings)))
          (unfold request_log transaction execute retention_of query prune_request_logs in
            ground (arith, e, f))
    go none (some m) e f = at 10_000 (inr (rw f refl, refl)) (
        unfold request_log transaction execute retention_of query prune_request_logs in
        ground (arith, e, f))
