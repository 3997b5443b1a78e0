-- ===== src/Routes/Pastes.antt =====
-- routes.rs: a client sends a paste, and reads the last ones. What the hub sends to other clients for
-- it goes through the network, so the state here is the shared one with the network around it.
use crosspaste_server.Auth.{HeaderMap}
use crosspaste_server.Codec.{Json, JsonText}
use crosspaste_server.Codec.Value.{Value, get, integer, put, string}
use crosspaste_server.Database.Recent.{recent_pastes}
use crosspaste_server.Hub.Broadcast.{BroadcastReport, broadcast_paste}
use crosspaste_server.Hub.Contents.{receive_paste}
use crosspaste_server.Hub.Fetch.{
  PullFileRequest, cache_icon_from_client, cache_pull_file_from_client,
}
use crosspaste_server.Hub.Push.{PushPrepareResponse, prepare_push}
use crosspaste_server.Hub.World.{PeerReply, PeerRequest, Sends, World}
use crosspaste_server.Prelude.{
  Exec, List, Option, Result, String, first, gets, if◌then◌else◌, lift, map, min, modify,
  nat_Comparable, none, ok, ok_or, pair_Comparable, pure, some, string_Comparable, unwrap_or, ℕ,
  ◌==◌, ◌>>=◌, ◌>>◌, ◌∷◌,
}
use crosspaste_server.Prelude.Int.{int_Comparable, ℤ}
use crosspaste_server.Prelude.Text.{codes_Comparable}
use crosspaste_server.Proxy.{HttpResponse}
use crosspaste_server.RelayError.{Error, bad_request}
use crosspaste_server.Routes.Guards.{
  Handles, bad, body_of, client_of, enforce_sync_settings, header_text, is_file_type,
  maybe_decrypt_body, or_bad, or_failed, paste_type_of, reply_json, require_paired_client,
  secure_json_response,
}
use crosspaste_server.Secure.Messages.{Crypto}
use crosspaste_server.Tunnel.State.{AppState, on_hub, on_state_database}

-- A task that a call starts for a file: `relay_file` of a client and its paste.
pub data Task : Type 0 where
  relays : (id : String) → (paste : Value) → Task

-- The shared state with the answers of the clients, as `World` has them, and the tasks that were
-- started, the last first.
pub record Server : Type 0 where
  pub state : AppState
  pub replies : List (Result String PeerReply)
  pub vectors : List (List ℕ)
  pub requests : List PeerRequest
  pub tasks : List Task

abbrev pub Serves : Type 0 → Type 0
Serves = Exec Server Error

abbrev of_state_result : {A : Type 0} → Result Error A × AppState → Server → Result Error A × Server
of_state_result (r, s) v = (r, record v { state = s })

abbrev pub of_state : {A : Type 0} → Handles A → Serves A
of_state m v = of_state_result (m v.state) v

abbrev world_of : Server → World
world_of v = record {
  hub = v.state.hub;
  replies = v.replies;
  vectors = v.vectors;
  requests = v.requests;
}

abbrev with_world : World → Server → Server
with_world w v = record v {
  state = record v.state { hub = w.hub };
  replies = w.replies;
  vectors = w.vectors;
  requests = w.requests;
}

abbrev of_world_result : {A : Type 0} → Result String A × World → Server → Result String A × Server
of_world_result (r, w) v = (r, with_world w v)

-- A call that sends; its error is handled by who makes it.
abbrev sending : {A : Type 0} → Sends A → Exec Server String A
sending m v = of_world_result (m (world_of v)) v

abbrev unheard : {A : Type 0} → Result String A × Server → Result Error Unit × Server
unheard (r, v) = (ok tt, v)

abbrev quietly : {A : Type 0} → Exec Server String A → Serves Unit
quietly m v = unheard (m v)

abbrev reported : BroadcastReport × World → Server → Result Error BroadcastReport × Server
reported (report, w) v = (ok report, with_world w v)

abbrev broadcasting : (World → BroadcastReport × World) → Serves BroadcastReport
broadcasting f v = reported (f (world_of v)) v

abbrev as_str : Option Value → Option String
as_str (some (string text)) = some text
as_str _ = none

-- The formats that these calls read and write.
pub record Formats : Type 0 where
  pub pastes : Json Value
  pub paste_lists : Json (List Value)
  pub paste_texts : JsonText Value
  pub prepares : Json PushPrepareResponse
  pub pulls : Json PullFileRequest
  pub texts : Json String

unfoldable pub set_paste_server_id : String → Value → Value
set_paste_server_id server paste = put "appInstanceId" (string server) paste

module _ (c : Crypto) (f : Formats) where
  abbrev icon_of : String → String → Option String → Serves Unit
  icon_of id server none = pure tt
  icon_of id server (some source) = quietly (sending (cache_icon_from_client c id server source))

  -- A failure is only logged.
  unfoldable pub cache_paste_icon : String → String → Value → Serves Unit
  unfolding cache_icon_from_client
  cache_paste_icon id server paste = icon_of id server (as_str (get "source" paste))

  -- The part of `sync_paste` for a paste without a file: it is stored, and goes to the others.
  unfoldable pub relay_paste :
      String → Value → HeaderMap → (now stored_at : ℤ) → (iv : List ℕ) → Serves HttpResponse
  unfolding cache_paste_icon receive_paste broadcast_paste secure_json_response
  relay_paste id paste headers now stored_at iv = do
    server ← gets (λ v. v.state.config.server_instance_id)
    cache_paste_icon id server paste
    of_state (on_hub (or_bad (receive_paste f.paste_texts id paste now stored_at)))
    broadcasting (broadcast_paste c f.pastes id server paste) >>= λ report.
        of_state (reply_json c f.texts headers iv "")

  -- What the task does that `sync_paste` starts for a file: the file first, then its paste. An
  -- error ends the task and is only logged.
  unfoldable pub relay_file : String → Value → (pulled now stored_at : ℤ) → Serves BroadcastReport
  unfolding cache_pull_file_from_client cache_paste_icon receive_paste broadcast_paste
  relay_file id paste pulled now stored_at = do
    server ← gets (λ v. v.state.config.server_instance_id)
    paste_id ← or_failed (sending (cache_pull_file_from_client c f.pulls id server paste pulled))
    let cached = put "id" (integer paste_id) paste
    cache_paste_icon id server cached
    of_state (on_hub (or_failed (receive_paste f.paste_texts id cached now stored_at)))
    broadcasting (broadcast_paste c f.pastes id server cached)

  abbrev prepared :
      HeaderMap → String → Value → (now : ℤ) → (uuid : String) → (iv : List ℕ) → Serves HttpResponse
  prepared headers id paste now uuid iv = do
    response ← of_state (on_hub (or_bad (prepare_push id paste now uuid)))
    of_state (reply_json c f.prepares headers iv response)

  -- The task is started before the answer is made, which may fail.
  abbrev left_to_task : HeaderMap → String → Value → (iv : List ℕ) → Serves HttpResponse
  left_to_task headers id paste iv = do
    modify (λ v. record v { tasks = relays id paste ∷ v.tasks })
    of_state (reply_json c f.texts headers iv "")

  -- A push is prepared; a file is left to a task; all else is relayed at once.
  unfoldable pub dispatched :
      HeaderMap
      → String
      → Value
      → (now stored_at : ℤ) → (uuid : String) → (iv : List ℕ) → Serves HttpResponse
  unfolding header_text prepare_push relay_paste secure_json_response
  dispatched headers id paste now stored_at uuid iv =
      if header_text headers "x-sync-mode" == "push"
      then prepared headers id paste now uuid iv
      else if is_file_type (paste_type_of paste)
      then left_to_task headers id paste iv
      else relay_paste id paste headers now stored_at iv

  unfoldable pub sync_paste :
      HeaderMap
      → List ℕ
      → (now stored_at : ℤ) → (uuid : String) → (iv : List ℕ) → Serves HttpResponse
  unfolding require_paired_client maybe_decrypt_body enforce_sync_settings dispatched
  sync_paste headers body now stored_at uuid iv = do
    id ← of_state (client_of headers)
    plain ← of_state (body_of c headers id body)
    paste ← lift (bad (f.pastes.from_slice plain))
    of_state (enforce_sync_settings paste)
    dispatched headers id paste now stored_at uuid iv

  abbrev first_paste : List Value → Result Error Value
  first_paste pastes = ok_or (bad_request "no paste data available") (first pastes)

  unfoldable pub pull_paste : HeaderMap → (iv : List ℕ) → Handles HttpResponse
  unfolding require_paired_client recent_pastes set_paste_server_id secure_json_response
  pull_paste headers iv = do
    id ← client_of headers
    pastes ← on_state_database (or_failed (recent_pastes f.paste_texts none 1))
    paste ← lift (first_paste pastes)
    server ← gets (λ s. s.config.server_instance_id)
    reply_json c f.pastes headers iv (set_paste_server_id server paste)

  unfoldable pub pull_paste_batch :
      HeaderMap
      → (create_time : Option ℤ) → (limit : Option ℕ) → (iv : List ℕ) → Handles HttpResponse
  unfolding require_paired_client recent_pastes set_paste_server_id secure_json_response
  pull_paste_batch headers create_time limit iv = do
    id ← client_of headers
    pastes ←
        on_state_database
          (or_failed (recent_pastes f.paste_texts create_time (min (unwrap_or 10 limit) 50)))
    server ← gets (λ s. s.config.server_instance_id)
    reply_json c f.paste_lists headers iv (map (set_paste_server_id server) pastes)
