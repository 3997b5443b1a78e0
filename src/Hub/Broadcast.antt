-- ===== src/Hub/Broadcast.antt =====
-- hub.rs: a paste goes to all clients but the one it came from.
use crosspaste_server.Codec.{Json}
use crosspaste_server.Codec.Value.{Value}
use crosspaste_server.Hub.Contents.{normalize_paste}
use crosspaste_server.Hub.State.{Hub}
use crosspaste_server.Hub.World.{
  PeerReply, PeerRequest, Sends, World, addressed, encrypted_for, exchange, is_success, json_type,
}
use crosspaste_server.Prelude.{
  List, Result, String, [], ensure, err, first, keep_if, length, lift, nat_Comparable, none, not,
  ok, ok_or, pair_Comparable, string_Comparable, ℕ, ◌++◌, ◌+◌, ◌==◌, ◌>>=◌, ◌∷◌,
}
use crosspaste_server.Prelude.Bytes.{decimal_i64}
use crosspaste_server.Prelude.Int.{int_Comparable}
use crosspaste_server.Prelude.Map.{Map}
use crosspaste_server.Prelude.Text.{codes, codes_Comparable}
use crosspaste_server.Secure.Messages.{Crypto}
use crosspaste_server.SyncInfo.Info.{HostInfo, SyncInfo}

pub record BroadcastReport : Type 0 where
  pub attempted : ℕ
  pub delivered : ℕ
  pub failed : ℕ

abbrev pub no_report : BroadcastReport
no_report = record { attempted = 0; delivered = 0; failed = 0 }

-- The clients that the server knows an address of, without the sender.
unfoldable pub targets_of : String → Hub → Map String SyncInfo
targets_of sender h = keep_if (λ (id, info). not (id == sender)) h.client_sync_infos

abbrev pub counted : {A : Type 0} → Result String A → BroadcastReport → BroadcastReport
counted (ok a) report = record report { delivered = report.delivered + 1 }
counted (err e) report = record report { failed = report.failed + 1 }

-- One target after the other; what fails for one does not keep the others from it.
unfoldable pub deliver_to :
    (String × SyncInfo → Sends Unit)
    → Map String SyncInfo
    → BroadcastReport
    → World
    → BroadcastReport × World
deliver_to deliver [] report w = (report, w)
deliver_to deliver (target ∷ targets) report w =
    let sent = deliver target w in deliver_to deliver targets (counted sent.0 report) sent.1

abbrev pub accepted : PeerReply → Sends Unit
accepted reply = ensure (is_success reply.status) "rejected"

-- The address is built without brackets around the host.
abbrev pub paste_request : String → String × SyncInfo → HostInfo → List ℕ → PeerRequest
paste_request server (target, info) host encrypted = record {
  url =
      codes "http://"
      ++ (codes host.host_address
          ++ (codes ":" ++ (decimal_i64 info.endpoint_info.port ++ codes "/sync/paste")));
  headers = addressed server target (json_type ∷ []);
  body = encrypted;
}

module _ (c : Crypto) where
  unfoldable pub deliver_paste : String → List ℕ → String × SyncInfo → Sends Unit
  unfolding encrypted_for exchange is_success
  deliver_paste server body (target, info) = do
    host ← lift (ok_or "no reachable host" (first info.endpoint_info.host_info_list))
    encrypted ← encrypted_for c target body
    reply ← exchange (paste_request server (target, info) host encrypted)
    accepted reply

  module _ (j : Json Value) where
    abbrev pub broadcast_body :
        Result String (List ℕ) → String → String → World → BroadcastReport × World
    broadcast_body (err e) sender server w = (no_report, w)
    broadcast_body (ok body) sender server w =
        let targets = targets_of sender w.hub in
        deliver_to (deliver_paste server body) targets
          (record no_report { attempted = length targets }) w

    unfoldable pub broadcast_paste : String → String → Value → World → BroadcastReport × World
    unfolding targets_of deliver_to deliver_paste
    broadcast_paste sender server paste w =
        broadcast_body (j.to_vec (normalize_paste paste server none)) sender server w
