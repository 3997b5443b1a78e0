-- ===== src/Admin/Calls.antt =====
-- admin.rs, routes.rs and database.rs: the calls that write settings or the log of requests, in any
-- order.
use crosspaste_server.Admin.Bounded.{
  IsBounded, ensure_default_settings-IsBounded, update_settings-IsBounded,
}
use crosspaste_server.Admin.Clients.{note, tables_or, write_settings}
use crosspaste_server.Admin.Keeps.{
  InTables, flattened-Keeps, ignore-Keeps, on_state_database-Keeps, or_internal-Keeps,
  respond-Keeps,
}
use crosspaste_server.Admin.Kept.{audit-IsBounded, request_log-IsBounded, session_user-IsBounded}
use crosspaste_server.Admin.Response.{Hashing, Response, api_error, no_content, respond}
use crosspaste_server.Admin.Sessions.{authenticated, require_ready_user}
use crosspaste_server.Admin.Settings.{validate_settings}
use crosspaste_server.Admin.Valid.{IsMap, all-validate_settings}
use crosspaste_server.Auth.{HeaderMap}
use crosspaste_server.Database.Admins.{AdminUser}
use crosspaste_server.Database.Settings.{ensure_default_settings, update_settings}
use crosspaste_server.Prelude.{
  All, Bool-cases, Exec, List, Result, String, [], arith, err, inl, inr, lift, map_err, none, ok,
  pure, refl, some, ℕ, ◌>>=◌, ◌>>◌, ◌∷◌, ◌≡◌,
}
use crosspaste_server.Prelude.Int.{ℤ}
use crosspaste_server.Prelude.Keeps.{
  Keeps, bind-Keeps, ensure-Keeps, lift-Keeps, pure-Keeps, then-Keeps,
}
use crosspaste_server.Prelude.Map.{Map}
use crosspaste_server.Prelude.Text.{codes, starts_with}
use crosspaste_server.RelayError.{status}
use crosspaste_server.Routes.Logging.{Logged, entry_of, keep_log}
use crosspaste_server.Tunnel.State.{AppState, on_state_database}

require_ready_user-IsBounded :
    (t : Hashing) {A : Type 0} (headers : HeaderMap) (swept now : ℤ)
    → Keeps IsBounded (require_ready_user t {A = A} headers swept now)
unfolding require_ready_user authenticated
require_ready_user-IsBounded t headers swept now =
    bind-Keeps
      (bind-Keeps lift-Keeps λ token.
        bind-Keeps (flattened-Keeps (session_user-IsBounded _ swept now)) λ found. lift-Keeps)
      λ user. then-Keeps (ensure-Keeps _ _) pure-Keeps

write_settings-IsBounded :
    (t : Hashing) (text : Map String String → String) (headers : HeaderMap)
    (given : Map String String) (swept now audited : ℤ)
    → IsMap given
    → Keeps (InTables IsBounded) (write_settings t text headers given swept now audited)
unfolding write_settings
write_settings-IsBounded t text headers given swept now audited d =
    bind-Keeps (on_state_database-Keeps (require_ready_user-IsBounded t headers swept now))
      λ user. checked user (validate_settings given) refl
  where
    after : AdminUser → Exec AppState (Response Unit) (Response Unit)
    after user = do
      tables_or t (update_settings given)
      note t user "settings_updated" (text given) audited
      pure no_content

    checked :
        (user : AdminUser) (o : Result String Unit)
        → validate_settings given ≡ o
        → Keeps
            (InTables IsBounded)
            (lift (map_err (api_error {A = Unit} 400) o) >>= λ u. after user)
    checked user (err e) f = record { keeps = λ s p. p }
    checked user (ok u) f = bind-Keeps (lift-Keeps {r = ok u}) λ u.
        then-Keeps
          (on_state_database-Keeps
            (or_internal-Keeps (update_settings-IsBounded given (all-validate_settings given d f))))
          (then-Keeps
            (on_state_database-Keeps (
              ignore-Keeps (
                audit-IsBounded (some user.username) "settings_updated" (text given) none audited)))
            (pure-Keeps {a = no_content {A = Unit}}))

-- What writes settings or the log: a start, an administrator's settings, a request that is logged.
pub data Write : Type 0 where
  starts : Write
  writes :
      (t : Hashing)
      → (text : Map String String → String) → (headers : HeaderMap) → (given : Map String String)
      → (swept now audited : ℤ) → Write
  logs : Logged → (status : ℕ) → (elapsed_ms now : ℤ) → Write

unfoldable pub write : AppState → Write → AppState
write s starts = (on_state_database ensure_default_settings s).1
write s (writes t text headers given swept now audited) =
    (respond (write_settings t text headers given swept now audited) s).1
write s (logs q status elapsed_ms now) = keep_log q status elapsed_ms now s

unfoldable pub write_all : AppState → List Write → AppState
write_all s [] = s
write_all s (w ∷ ws) = write_all (write s w) ws

-- The settings that are given are a map.
abbrev pub GivesMap : Write → Type 0
GivesMap (writes t text headers given swept now audited) = IsMap given
GivesMap _ = Unit

keep_log-IsBounded :
    (q : Logged) (status : ℕ) (elapsed_ms now : ℤ) (s : AppState)
    → IsBounded s.hub.database
    → IsBounded (keep_log q status elapsed_ms now s).hub.database
unfolding keep_log
keep_log-IsBounded q status elapsed_ms now s p =
    elim (Bool-cases (starts_with (codes "/api/admin/logs") (codes q.path))) [
      | inl e ↦ rw e p
      | inr e ↦
          rw e ((request_log-IsBounded (entry_of q status elapsed_ms now)).keeps s.hub.database p)
    ]

write-IsBounded :
    (s : AppState) (w : Write)
    → GivesMap w
    → IsBounded s.hub.database
    → IsBounded (write s w).hub.database
unfolding write
write-IsBounded s starts d p = (on_state_database-Keeps ensure_default_settings-IsBounded).keeps s p
write-IsBounded s (writes t text headers given swept now audited) d p =
    respond-Keeps IsBounded s (write_settings-IsBounded t text headers given swept now audited d) p
write-IsBounded s (logs q status elapsed_ms now) d p =
    keep_log-IsBounded q status elapsed_ms now s p

onward :
    (s : AppState) (ws : List Write)
    → All GivesMap ws
    → IsBounded s.hub.database
    → IsBounded (write_all s ws).hub.database
unfolding write_all
onward s [] d p = p
onward s (w ∷ ws) d p = onward (write s w) ws d.1 (write-IsBounded s w d.0 p)

-- From tables without settings and without a log of requests, whatever an administrator writes and
-- whatever is logged, with starts between: each setting that is stored is one of the twelve, with
-- a value of its kind, and the log has at most a million entries. Settings are given as maps.
pub write_all-IsBounded :
    (s : AppState) (ws : List Write)
    → s.hub.database.settings ≡ []
    → s.hub.database.request_logs ≡ []
    → All GivesMap ws
    → IsBounded (write_all s ws).hub.database
write_all-IsBounded s ws e f d =
    onward s ws d (record { settings_valid = rw e refl; logs_bounded = rw f (omega arith) })
