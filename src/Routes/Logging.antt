-- ===== src/Routes/Logging.antt =====
-- routes.rs: every request is logged, and a client that makes one is seen.
use crosspaste_server.Auth.{HeaderMap}
use crosspaste_server.Database.Logs.{request_log}
use crosspaste_server.Database.Tables.{RequestLog}
use crosspaste_server.Hub.Pairing.{touch_client}
use crosspaste_server.Hub.State.{is_paired}
use crosspaste_server.Prelude.{
  Bool, Option, String, [], any, if◌then◌else◌, nat_Comparable, none, not, pair_Comparable, some,
  string_Comparable, unwrap_or, ℕ, ◌&&◌, ◌==◌, ◌∷◌,
}
use crosspaste_server.Prelude.Int.{int_Comparable, ℤ}
use crosspaste_server.Prelude.Text.{codes, codes_Comparable, starts_with}
use crosspaste_server.Proxy.{app_instance_id_name, target_name}
use crosspaste_server.RelayError.{status}
use crosspaste_server.Routes.Guards.{header_text, is_secure}
use crosspaste_server.Tunnel.State.{AppState}

pub record Logged : Type 0 where
  pub method : String
  pub path : String
  pub headers : HeaderMap
  pub remote : Option String

abbrev is_crosspaste_path : String → Bool
is_crosspaste_path path =
    any (λ p. starts_with (codes p) (codes path)) ("/sync/" ∷ "/pull/" ∷ "/r/" ∷ "/p/" ∷ [])

abbrev unless_dash : String → Option String
unless_dash text = if text == "-" then none else some text

-- Before the handler.
unfoldable pub see_client : Logged → (now : ℤ) → AppState → AppState
unfolding header_text is_paired touch_client
see_client q now s =
    let id = header_text q.headers app_instance_id_name in
    if is_crosspaste_path q.path && not (id == "-") && is_paired id s.hub
    then record s { hub = touch_client id now s.hub }
    else s

abbrev pub entry_of : Logged → (status : ℕ) → (elapsed_ms now : ℤ) → ℕ → RequestLog
entry_of q status elapsed_ms now id = record {
  id = id;
  method = q.method;
  path = q.path;
  status = status;
  remote_addr = unwrap_or "unknown" q.remote;
  client_id = unless_dash (header_text q.headers app_instance_id_name);
  target_id = unless_dash (header_text q.headers target_name);
  secure = is_secure q.headers;
  elapsed_ms = elapsed_ms;
  created_at_ms = now;
}

-- After it, unless the request reads the log.
unfoldable pub keep_log : Logged → (status : ℕ) → (elapsed_ms now : ℤ) → AppState → AppState
unfolding header_text request_log
keep_log q status elapsed_ms now s =
    if starts_with (codes "/api/admin/logs") (codes q.path) then s else record s {
      hub = record s.hub {
        database = (request_log (entry_of q status elapsed_ms now) s.hub.database).1;
      };
    }

-- `handler` is the rest of the layers with the status of its answer.
unfoldable pub log_request :
    Logged
    → (seen : ℤ) → (handler : AppState → ℕ × AppState) → (elapsed_ms now : ℤ) → AppState
    → ℕ × AppState
unfolding see_client keep_log
log_request q seen handler elapsed_ms now s =
    let (status, s') = handler (see_client q seen s) in
    (status, keep_log q status elapsed_ms now s')
