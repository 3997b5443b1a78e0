-- ===== src/Hub/Upload.antt =====
-- hub.rs: a push that is complete goes to the other clients, in chunks of the size that each wants.
use crosspaste_server.Codec.{Json}
use crosspaste_server.Codec.Value.{Value}
use crosspaste_server.Hub.Broadcast.{BroadcastReport, accepted, deliver_to, no_report, targets_of}
use crosspaste_server.Hub.Contents.{keep_stored_file, normalize_paste, read_completed_push}
use crosspaste_server.Hub.Push.{CompletedPush, PushPrepareResponse, div_ceil}
use crosspaste_server.Hub.State.{on_files}
use crosspaste_server.Hub.Streams.{decrypt_from_client}
use crosspaste_server.Hub.World.{
  Sends, World, addressed, client_base_url, encrypted_for, exchange, is_success, json_type, of_hub,
}
use crosspaste_server.Prelude.{
  List, Result, String, [], ensure, eqb, err, gets, length, lift, ltb, ok, ok_or, pure, some, ℕ,
  ◌++◌, ◌+◌, ◌>>=◌, ◌>>◌, ◌∷◌,
}
use crosspaste_server.Prelude.Bytes.{chunks, decimal, decimal_i64}
use crosspaste_server.Prelude.Text.{codes}
use crosspaste_server.Secure.Messages.{Crypto}
use crosspaste_server.SyncInfo.Info.{SyncInfo}

module _ (c : Crypto) where
  module _ (base_url : List ℕ) (target server : String) (prepare : PushPrepareResponse) where
    abbrev session_headers : List (String × List ℕ) → List (String × List ℕ)
    session_headers more =
        ("X-Paste-Id", decimal_i64 prepare.paste_id)
        ∷ (more ++ ("X-Session-Token", codes prepare.session_token) ∷ json_type ∷ [])

    unfoldable pub upload_chunks : ℕ → List (List ℕ) → Sends Unit
    unfolding encrypted_for exchange is_success
    upload_chunks i [] = pure tt
    upload_chunks i (chunk ∷ rest) = do
      encrypted ← encrypted_for c target chunk
      reply ← exchange (record {
        url = base_url ++ codes "/sync/file/push";
        headers = addressed server target (session_headers (("X-Chunk-Index", decimal i) ∷ []));
        body = encrypted;
      })
      ensure (is_success reply.status) "target rejected chunk"
      upload_chunks (i + 1) rest

    unfoldable pub announce_complete : Sends Unit
    unfolding encrypted_for exchange is_success
    announce_complete = do
      encrypted ← encrypted_for c target []
      reply ← exchange (record {
        url = base_url ++ codes "/sync/paste/push/complete";
        headers = addressed server target (session_headers []);
        body = encrypted;
      })
      ensure (is_success reply.status) "target rejected file push completion"

    unfoldable pub upload_completed_push_to_target : CompletedPush → Sends Unit
    unfolding upload_chunks announce_complete read_completed_push div_ceil chunks
    upload_completed_push_to_target completed = do
      source ← of_hub (on_files (read_completed_push completed))
      ensure (ltb 0 prepare.chunk_size) "target chunk size is zero"
      ensure (eqb (div_ceil (length source) prepare.chunk_size) prepare.chunk_count)
          "target chunk count mismatch"
      upload_chunks 0 (chunks (length source) prepare.chunk_size source)
      announce_complete

  module _ (j : Json Value) (p : Json PushPrepareResponse) where
    unfoldable pub deliver_push : CompletedPush → String → List ℕ → String × SyncInfo → Sends Unit
    unfolding encrypted_for exchange is_success client_base_url upload_completed_push_to_target
        decrypt_from_client
    deliver_push completed server body (target, info) = do
      base_url ← lift (ok_or "no reachable host" (client_base_url info))
      encrypted ← encrypted_for c target body
      reply ← exchange (record {
        url = base_url ++ codes "/sync/paste";
        headers = addressed server target (("X-Sync-Mode", codes "push") ∷ json_type ∷ []);
        body = encrypted;
      })
      accepted reply
      h ← gets (λ w. w.hub)
      plain ← lift (decrypt_from_client c target reply.body h)
      prepare ← lift (p.from_slice plain)
      upload_completed_push_to_target base_url target server prepare completed

    abbrev kept : CompletedPush → BroadcastReport × World → BroadcastReport × World
    kept completed (report, w) = (report, record w { hub = keep_stored_file completed w.hub })

    abbrev broadcast_push :
        Result String (List ℕ) → CompletedPush → String → World → BroadcastReport × World
    broadcast_push (err e) completed server w = (no_report, w)
    broadcast_push (ok body) completed server w =
        let targets = targets_of completed.from_app_instance_id w.hub in
        kept completed (
          deliver_to (deliver_push completed server body) targets
            (record no_report { attempted = length targets }) w)

    unfoldable pub broadcast_completed_push :
        CompletedPush → String → World → BroadcastReport × World
    unfolding targets_of deliver_to deliver_push keep_stored_file
    broadcast_completed_push completed server w =
        broadcast_push (j.to_vec (normalize_paste completed.paste server (some completed.paste_id)))
          completed server w
