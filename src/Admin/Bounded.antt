-- ===== src/Admin/Bounded.antt =====
-- admin.rs and database.rs: the settings stay valid, and so the log stays bounded.
use crosspaste_server.Admin.Settings.{is_within}
use crosspaste_server.Admin.Valid.{is_valid}
use crosspaste_server.Database.Keeps.{execute-Keeps, query-Keeps, transaction-Keeps}
use crosspaste_server.Database.Logs.{
  digits, newest, number, parse_usize, prune_request_logs, setting_of, unsigned,
}
use crosspaste_server.Database.Settings.{
  add_defaults, apply_retention, default_settings, ensure_default_settings, insert_or_ignore,
  save_settings, update_settings,
}
use crosspaste_server.Database.Tables.{Database, RequestLog}
use crosspaste_server.Prelude.{
  Bool, Bool-cases, List, Option, String, [], all, arith, false, inl, inr, length, length-take,
  nat_Comparable, none, pair_Comparable, refl, some, string_Comparable, true, unwrap_or, ℕ, ◌==◌,
  ◌∷◌, ◌≡◌, ◌≤◌,
}
use crosspaste_server.Prelude.Int.{as_i64, int_Comparable, negsuc, pos, ℤ}
use crosspaste_server.Prelude.Keeps.{Keeps, bind-Keeps, lift-Keeps, pure-Keeps, then-Keeps}
use crosspaste_server.Prelude.Map.{Map, contains_key, insert, lookup, without}
use crosspaste_server.Prelude.Text.{codes_Comparable, is_ascii_digit}

-- All settings are known names with values of their kinds, and the log of requests has at most a
-- million entries.
pub record IsBounded (d : Database) : Type 0 where
  pub settings_valid : all is_valid d.settings ≡ true
  pub logs_bounded : length d.request_logs ≤ 1_000_000

pub IsBounded-steady :
    (d : Database) (fs : List (Option String)) → IsBounded d → IsBounded (record d { faults = fs })
IsBounded-steady d fs p = record {
  settings_valid = p.settings_valid;
  logs_bounded = p.logs_bounded;
}

all-without :
    (p : String × String → Bool) (key : String) (m : Map String String)
    → all p m ≡ true
    → all p (without key m) ≡ true
unfolding without
all-without p key [] h = refl
all-without p key ((k, v) ∷ m) h = ground (arith, all-without p key m)

all-insert :
    (p : String × String → Bool) (key value : String) (m : Map String String)
    → p (key, value) ≡ true
    → all p m ≡ true
    → all p (insert key value m) ≡ true
unfolding insert
all-insert p key value m h k = ground (arith, all-without p key m k)

lookup-all :
    (p : String × String → Bool) (key value : String) (m : Map String String)
    → all p m ≡ true
    → lookup key m ≡ some value
    → p (key, value) ≡ true
unfolding lookup
lookup-all p key value [] h e = cc
lookup-all p key value ((k, v) ∷ m) h e = elim (Bool-cases (k == key)) [
  | inl same ↦
      let n : k ≡ key = (string_Comparable.same_iff k key).0 same in
      let w : v ≡ value = ground arith in rw (← n, ← w) (ground arith)
  | inr other ↦ lookup-all p key value m (ground arith) (ground arith)
]

-- The number of entries that is kept.
pub setting_of-le :
    (m : Map String String)
    → all is_valid m ≡ true
    → setting_of (lookup "log_retention_count" m) ≤ 1_000_000
setting_of-le m h = go (lookup "log_retention_count" m) refl
  where
    number_of : (n : Option ℕ) → is_within 1000 1_000_000 n ≡ true → unwrap_or 10_000 n ≤ 1_000_000
    number_of none h = omega arith
    number_of (some n) h = ground arith

    go : (o : Option String) → lookup "log_retention_count" m ≡ o → setting_of o ≤ 1_000_000
    go none e = omega arith
    go (some text) e =
        number_of (parse_usize text)
          (unfold is_valid in lookup-all is_valid "log_retention_count" text m h e)

length-newest-le : (n : ℤ) (logs : List RequestLog) → length (newest n logs) ≤ length logs
unfolding newest
length-newest-le (pos n) logs = omega (arith, length-take n logs)
length-newest-le (negsuc n) logs = omega arith

prune-IsBounded : (retention : ℕ) → Keeps IsBounded (prune_request_logs retention)
unfolding prune_request_logs
prune-IsBounded retention =
    execute-Keeps IsBounded-steady
      (λ d. record d { request_logs = newest (as_i64 retention) d.request_logs })
      λ d p. record {
        settings_valid = p.settings_valid;
        logs_bounded =
            omega (arith, length-newest-le (as_i64 retention) d.request_logs, p.logs_bounded);
      }

save_settings-IsBounded :
    (given : Map String String) → all is_valid given ≡ true → Keeps IsBounded (save_settings given)
unfolding save_settings
save_settings-IsBounded [] h = pure-Keeps
save_settings-IsBounded ((key, value) ∷ rest) h =
    then-Keeps
      (execute-Keeps IsBounded-steady (λ d. record d { settings = insert key value d.settings })
        λ d p. record {
          settings_valid = all-insert is_valid key value d.settings (ground arith) p.settings_valid;
          logs_bounded = p.logs_bounded;
        })
      (save_settings-IsBounded rest (ground arith))

apply_retention-IsBounded : (there : Bool) → Keeps IsBounded (apply_retention there)
unfolding apply_retention
apply_retention-IsBounded false = pure-Keeps
apply_retention-IsBounded true =
    bind-Keeps (query-Keeps IsBounded-steady _)
      λ found. bind-Keeps lift-Keeps λ value. prune-IsBounded _

pub update_settings-IsBounded :
    (given : Map String String)
    → all is_valid given ≡ true
    → Keeps IsBounded (update_settings given)
unfolding update_settings
update_settings-IsBounded given h = transaction-Keeps IsBounded-steady (
    then-Keeps (save_settings-IsBounded given h)
      (then-Keeps (apply_retention-IsBounded _) (execute-Keeps IsBounded-steady (λ d. d) λ d p. p)))

add_defaults-IsBounded :
    (defaults : List (String × String))
    → all is_valid defaults ≡ true
    → Keeps IsBounded (add_defaults defaults)
unfolding add_defaults
add_defaults-IsBounded [] h = pure-Keeps
add_defaults-IsBounded ((key, value) ∷ rest) h =
    then-Keeps
      (execute-Keeps IsBounded-steady
        (λ d. record d { settings = insert_or_ignore key value d.settings })
        λ d p. record {
          settings_valid = unless_there key value d.settings (ground arith) p.settings_valid;
          logs_bounded = p.logs_bounded;
        })
      (add_defaults-IsBounded rest (ground arith))
  where
    unless_there :
        (key value : String) (m : Map String String)
        → is_valid (key, value) ≡ true
        → all is_valid m ≡ true
        → all is_valid (insert_or_ignore key value m) ≡ true
    unless_there key value m h k = elim (Bool-cases (contains_key key m)) [
      | inl e ↦ rw e k
      | inr e ↦ rw e (all-insert is_valid key value m h k)
    ]

pub ensure_default_settings-IsBounded : Keeps IsBounded ensure_default_settings
unfolding ensure_default_settings
ensure_default_settings-IsBounded =
    add_defaults-IsBounded default_settings
      (unfold is_valid parse_usize unsigned number digits is_ascii_digit in refl)
