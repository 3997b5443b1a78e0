-- ===== src/Hub/Durable/Others.antt =====
-- hub.rs: what the calls that pair nobody do to the rows, while no statement fails.
use crosspaste_server.Database.Clients.{
  touch_client as touch_row, remove_client as delete_row, update_client_sync_info as save_sync_info,
}
use crosspaste_server.Codec.{JsonText}
use crosspaste_server.Codec.Value.{Value}
use crosspaste_server.Database.Clients.{informed, seen_at, update_row}
use crosspaste_server.Database.Contents.{load_file_chunk, save_file_chunk, save_paste}
use crosspaste_server.Database.Tables.{execute, query}
use crosspaste_server.Hub.Contents.{
  read_file_chunk, read_stored, receive_paste, update_client_sync_info,
}
use crosspaste_server.Hub.Durable.Steps.{ledger, removed}
use crosspaste_server.Hub.Pairing.{exchange_keys_v2, remove_client, touch_client}
use crosspaste_server.Hub.Push.{
  complete_push, finish_push, prepare_push, session_for, store_push_chunk,
}
use crosspaste_server.Hub.State.{Hub}
use crosspaste_server.Prelude.{
  List, Result, String, [], arith, err, inl, inr, ok, refl, ℕ, ◌≡◌, ◌⊎◌,
}
use crosspaste_server.Prelude.Int.{ℤ}
use crosspaste_server.Registry.State.{new}
use crosspaste_server.Secure.Messages.{Crypto, KeyExchangeRequest}
use crosspaste_server.SyncInfo.Info.{SyncInfo}

pub ledger-exchange_keys_v2 :
    (c : Crypto) (id : String) (request : KeyExchangeRequest) (now responded : ℤ) (h : Hub)
    → ledger (exchange_keys_v2 c id request now responded h).1 ≡ ledger h
unfolding exchange_keys_v2
ledger-exchange_keys_v2 c id request now responded h = ground arith

pub ledger-prepare_push :
    (id : String) (paste : Value) (now : ℤ) (token : String) (h : Hub)
    → ledger (prepare_push id paste now token h).1 ≡ ledger h
unfolding prepare_push
ledger-prepare_push id paste now token h = ground arith

pub ledger-complete_push :
    (id : String) (paste_id : ℤ) (token : String) (h : Hub)
    → ledger (complete_push id paste_id token h).1 ≡ ledger h
unfolding complete_push session_for finish_push
ledger-complete_push id paste_id token h = ground arith

module _ (h : Hub) (e : h.database.faults ≡ []) where
  pub ledger-remove_client : (id : String) → ledger (remove_client id h).1 ≡ removed id (ledger h)
  unfolding remove_client delete_row execute
  ledger-remove_client id = ground (arith, e)

  pub ledger-touch_client :
      (id : String) (now : ℤ)
      → ledger (touch_client id now h)
        ≡ record (ledger h) { row_map = update_row id (seen_at now) h.database.paired_clients }
  unfolding touch_client touch_row execute
  ledger-touch_client id now = ground (arith, e)

  pub ledger-update_client_sync_info :
      (j : JsonText SyncInfo) (id : String) (info : SyncInfo) (now : ℤ)
      → (ledger (update_client_sync_info j id info now h).1 ≡ ledger h)
        ⊎ ((json : String) × (ledger (update_client_sync_info j id info now h).1
              ≡ record (ledger h) {
                row_map = update_row id (informed json now) h.database.paired_clients;
              }))
  ledger-update_client_sync_info j id info now = go (j.to_string info) refl
    where
      Written : String → Type 0
      Written json = ledger (update_client_sync_info j id info now h).1 ≡ record (ledger h) {
        row_map = update_row id (informed json now) h.database.paired_clients;
      }

      go :
          (r : Result String String)
          → j.to_string info ≡ r
          → (ledger (update_client_sync_info j id info now h).1 ≡ ledger h)
            ⊎ ((json : String) × Written json)
      go (err m) f = inl (unfold update_client_sync_info in ground (arith, f))
      go (ok json) f = elim cases [ inl same ↦ inl same | inr new ↦ inr (json, new) ]
        where
          cases : (ledger (update_client_sync_info j id info now h).1 ≡ ledger h) ⊎ Written json
          cases = unfold update_client_sync_info save_sync_info execute in ground (arith, e, f)

  pub ledger-receive_paste :
      (j : JsonText Value) (id : String) (paste : Value) (now stored_at : ℤ)
      → ledger (receive_paste j id paste now stored_at h).1 ≡ ledger h
  unfolding receive_paste save_paste execute
  ledger-receive_paste j id paste now stored_at = ground (arith, e)

  pub ledger-store_push_chunk :
      (id : String) (paste_id : ℤ) (i : ℕ) (token : String) (bytes : List ℕ)
      → ledger (store_push_chunk id paste_id i token bytes h).1 ≡ ledger h
  unfolding store_push_chunk session_for save_file_chunk execute
  ledger-store_push_chunk id paste_id i token bytes = ground (arith, e)

  pub ledger-read_file_chunk :
      (paste_id : ℤ) (i : ℕ) → ledger (read_file_chunk paste_id i h).1 ≡ ledger h
  unfolding read_file_chunk read_stored load_file_chunk query
  ledger-read_file_chunk paste_id i = ground (arith, e)
