-- ===== src/Hub/Events.antt =====
-- hub.rs: the calls that change the hub, one after the other. Each takes its own lock or its own
-- entry of a map, and is one step here.
use crosspaste_server.Codec.{JsonText}
use crosspaste_server.Codec.Value.{Value}
use crosspaste_server.Hub.Contents.{
  keep_stored_file, read_file_chunk, receive_paste, update_client_sync_info,
}
use crosspaste_server.Hub.Pairing.{
  confirm_trust_v2, exchange_keys_v2, issue_pairing_token_for, remove_client, set_pairing_token,
  touch_client, trust_v1,
}
use crosspaste_server.Hub.Push.{CompletedPush, complete_push, prepare_push, store_push_chunk}
use crosspaste_server.Hub.State.{Hub}
use crosspaste_server.Prelude.{List, Option, String, [], ℕ, ◌∷◌}
use crosspaste_server.Prelude.Int.{ℤ}
use crosspaste_server.Secure.Messages.{
  Crypto, KeyExchangeRequest, TrustConfirmRequest, TrustRequest,
}
use crosspaste_server.SyncInfo.Info.{SyncInfo}

pub data Event : Type 0 where
  issues : (client_id : Option String) (random : ℕ) (now : ℤ) → Event
  sets : (token : ℕ) (now : ℤ) → Event
  trusts : (id : String) (request : TrustRequest) (checked paired responded : ℤ) → Event
  exchanges : (id : String) (request : KeyExchangeRequest) (now responded : ℤ) → Event
  confirms : (id : String) (request : TrustConfirmRequest) (checked paired responded : ℤ) → Event
  removes : (id : String) → Event
  touches : (id : String) (now : ℤ) → Event
  informs : (id : String) (info : SyncInfo) (now : ℤ) → Event
  receives : (id : String) (paste : Value) (now stored_at : ℤ) → Event
  prepares : (id : String) (paste : Value) (now : ℤ) (token : String) → Event
  stores : (id : String) (paste_id : ℤ) (index : ℕ) (token : String) (bytes : List ℕ) → Event
  completes : (id : String) (paste_id : ℤ) (token : String) → Event
  keeps : (completed : CompletedPush) → Event
  reads : (paste_id : ℤ) (index : ℕ) → Event

module _ (c : Crypto) (jv : JsonText Value) (js : JsonText SyncInfo) where
  unfoldable pub step : Event → Hub → Hub
  step (issues client_id random now) h = (issue_pairing_token_for client_id random now h).1
  step (sets token now) h = set_pairing_token token now h
  step (trusts id request checked paired responded) h =
      (trust_v1 c id request checked paired responded h).1
  step (exchanges id request now responded) h = (exchange_keys_v2 c id request now responded h).1
  step (confirms id request checked paired responded) h =
      (confirm_trust_v2 c id request checked paired responded h).1
  step (removes id) h = (remove_client id h).1
  step (touches id now) h = touch_client id now h
  step (informs id info now) h = (update_client_sync_info js id info now h).1
  step (receives id paste now stored_at) h = (receive_paste jv id paste now stored_at h).1
  step (prepares id paste now token) h = (prepare_push id paste now token h).1
  step (stores id paste_id index token bytes) h =
      (store_push_chunk id paste_id index token bytes h).1
  step (completes id paste_id token) h = (complete_push id paste_id token h).1
  step (keeps completed) h = keep_stored_file completed h
  step (reads paste_id index) h = (read_file_chunk paste_id index h).1

  unfoldable pub run : List Event → Hub → Hub
  unfolding step
  run [] h = h
  run (e ∷ es) h = run es (step e h)
