-- ===== src/Admin/Clients.antt =====
-- admin.rs: what an administrator sees of clients and logs, and changes.
use crosspaste_server.Admin.Response.{
  Handler, Hashing, Response, api_error, ignore, json_response, no_content, or_internal,
}
use crosspaste_server.Admin.Rows.{
  AdminClient, client_online_window_ms, row_of, server_client, sort_clients,
}
use crosspaste_server.Admin.Sessions.{require_ready_user}
use crosspaste_server.Admin.Settings.{validate_settings}
use crosspaste_server.Auth.{HeaderMap}
use crosspaste_server.Codec.{Base64, Json, JsonText}
use crosspaste_server.Database.Admins.{AdminUser}
use crosspaste_server.Database.Clients.{load_clients, online_client_ids}
use crosspaste_server.Database.Logs.{audit, audit_logs, request_logs}
use crosspaste_server.Database.Settings.{settings, update_settings}
use crosspaste_server.Database.Tables.{AuditLog, Database, RequestLog}
use crosspaste_server.Hub.Challenges.{PairingChallenge, pairing_challenges}
use crosspaste_server.Hub.Pairing.{issue_pairing_token_for, remove_client}
use crosspaste_server.Hub.State.{Hub, paired_count}
use crosspaste_server.Prelude.{
  Exec, List, Result, String, [], err, gets, length, lift, map, map_err, nat_Comparable, none, ok,
  pair_Comparable, pure, some, string_Comparable, ℕ, ◌++◌, ◌>>=◌, ◌>>◌, ◌∷◌,
}
use crosspaste_server.Prelude.Chars.{from_codes}
use crosspaste_server.Prelude.Formats.{six_digits}
use crosspaste_server.Prelude.HashSet.{set_insert}
use crosspaste_server.Prelude.Int.{int_Comparable, pos, ℤ, ◌+ℤ◌, ◌-ℤ◌}
use crosspaste_server.Prelude.Map.{Map}
use crosspaste_server.Prelude.Text.{codes, codes_Comparable}
use crosspaste_server.Registry.Devices.{list_devices}
use crosspaste_server.SyncInfo.Hosts.{Environment, build_server_sync_info}
use crosspaste_server.SyncInfo.Info.{SyncInfo}
use crosspaste_server.SyncInfo.Qr.{encode_qr_payload}
use crosspaste_server.SyncInfo.Tests.{info}
use crosspaste_server.Tunnel.State.{AppState, on_hub, on_state_database}

pub record DashboardResponse : Type 0 where
  pub paired_clients : ℕ
  pub online_clients : ℕ
  pub database_path : String
  pub version : String

abbrev pub Serving : Type 0 → Type 0
Serving A = Handler AppState A

module _ (t : Hashing) where
  -- A user that is logged in and has a password of its own.
  abbrev pub ready :
      {A : Type 0} → HeaderMap → (swept now : ℤ) → Exec AppState (Response A) AdminUser
  ready headers swept now = on_state_database (require_ready_user t headers swept now)

  abbrev pub tables_or : {A B : Type 0} → Exec Database String A → Exec AppState (Response B) A
  tables_or m = on_state_database (or_internal m)

  abbrev pub note : {B : Type 0} → AdminUser → String → String → ℤ → Exec AppState (Response B) Unit
  note user action detail now =
      on_state_database (ignore (audit (some user.username) action detail none now))

  -- The identifiers that are online by the table, and those with a tunnel.
  unfoldable pub dashboard :
      (database_path version : String)
      → HeaderMap
      → (swept now read_at : ℤ) → Serving DashboardResponse
  unfolding require_ready_user online_client_ids list_devices paired_count set_insert
  dashboard database_path version headers swept now read_at = do
    user ← ready headers swept now
    ids ← tables_or (online_client_ids (read_at -ℤ client_online_window_ms))
    s ← gets (λ s. s)
    pure (
        json_response (record {
          paired_clients = paired_count s.hub;
          online_clients =
              length
                (add_all (map (λ d. d.app_instance_id) (list_devices s.registry)) (add_all ids []));
          database_path = database_path;
          version = version;
        }))
    where
      add_all : List String → List String → List String
      add_all [] out = out
      add_all (id ∷ ids) out = add_all ids (set_insert id out)

  unfoldable pub get_settings : HeaderMap → (swept now : ℤ) → Serving (Map String String)
  unfolding require_ready_user settings
  get_settings headers swept now = do
    user ← ready headers swept now
    found ← tables_or settings
    pure (json_response found)

  -- `text` is the JSON of the settings, or nothing where there is none.
  unfoldable pub write_settings :
      (text : Map String String → String)
      → HeaderMap
      → Map String String
      → (swept now audited : ℤ) → Serving Unit
  unfolding require_ready_user validate_settings update_settings
  write_settings text headers given swept now audited = do
    user ← ready headers swept now
    lift (map_err (api_error 400) (validate_settings given))
    tables_or (update_settings given)
    note user "settings_updated" (text given) audited
    pure no_content

  unfoldable pub clients :
      JsonText SyncInfo
      → Environment
      → HeaderMap
      → (swept now read_at server_at : ℤ) → Serving (List AdminClient)
  unfolding require_ready_user load_clients build_server_sync_info server_client row_of sort_clients
  clients j env headers swept now read_at server_at = do
    user ← ready headers swept now
    stored_clients ← tables_or load_clients
    s ← gets (λ s. s)
    pure (
        json_response (
          sort_clients (
            server_client (build_server_sync_info env s.config) server_at
            ∷ map (row_of j read_at s) stored_clients)))

  abbrev internal_result : {A B : Type 0} → Result String A × Hub → Result (Response B) A × Hub
  internal_result (ok a, h) = (ok a, h)
  internal_result (err e, h) = (err (api_error 500 e), h)

  unfoldable pub remove_paired : HeaderMap → String → (swept now audited : ℤ) → Serving Unit
  unfolding require_ready_user remove_client
  remove_paired headers id swept now audited = do
    user ← ready headers swept now
    on_hub (λ h. internal_result (remove_client id h))
    note user "client_removed" id audited
    pure no_content

  unfoldable pub read_audit_logs : HeaderMap → (swept now : ℤ) → Serving (List AuditLog)
  unfolding require_ready_user audit_logs
  read_audit_logs headers swept now = do
    user ← ready headers swept now
    logs ← tables_or (audit_logs 200)
    pure (json_response logs)

  unfoldable pub read_request_logs : HeaderMap → (swept now : ℤ) → Serving (List RequestLog)
  unfolding require_ready_user request_logs
  read_request_logs headers swept now = do
    user ← ready headers swept now
    logs ← tables_or (request_logs 500)
    pure (json_response logs)

  unfoldable pub pairing_status :
      HeaderMap → (swept now read_at : ℤ) → Serving (List PairingChallenge)
  unfolding require_ready_user pairing_challenges
  pairing_status headers swept now read_at = do
    user ← ready headers swept now
    challenges ← gets (λ s. pairing_challenges read_at s.hub)
    pure (json_response challenges)

  pub record CreatePairingResponse : Type 0 where
    pub code : List ℕ
    pub expires_at_ms : ℤ
    pub qr_data_uri : String

  -- `render` is `render_qr_png` with the base64 of its image.
  unfoldable pub create_pairing :
      (render : String → Result String String)
      → Base64
      → Json SyncInfo
      → Environment
      → HeaderMap
      → (random : ℕ) → (swept now issued read_at audited : ℤ) → Serving CreatePairingResponse
  unfolding require_ready_user issue_pairing_token_for build_server_sync_info encode_qr_payload
      six_digits
  create_pairing render b j env headers random swept now issued read_at audited = do
    user ← ready headers swept now
    token ← (λ s.
        let (token, h) = issue_pairing_token_for none random issued s.hub in
        (ok token, record s { hub = h }))
    info ← gets (λ s. build_server_sync_info env s.config)
    payload ← or_internal (lift (encode_qr_payload b j info token))
    image ← or_internal (lift (render payload))
    note user "pairing_code_created" (from_codes (codes "token " ++ six_digits token)) audited
    pure (
        json_response (record {
          code = six_digits token;
          expires_at_ms = read_at +ℤ pos 30_000;
          qr_data_uri = image;
        }))
