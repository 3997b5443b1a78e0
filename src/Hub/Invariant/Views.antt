-- ===== src/Hub/Invariant/Views.antt =====
-- hub.rs: what each call does to the maps that say who is paired.
use crosspaste_server.Codec.{JsonText}
use crosspaste_server.Codec.Value.{Value}
use crosspaste_server.Database.Clients.{save_client}
use crosspaste_server.Database.Tables.{execute, fault}
use crosspaste_server.Hub.Confirm.{Confirms, confirm_trust_v2-Confirms}
use crosspaste_server.Hub.Contents.{
  read_file_chunk, read_stored, receive_paste, update_client_sync_info,
}
use crosspaste_server.Hub.Pairing.{
  confirm_trust_v2, exchange_keys_v2, remember, remove_client, touch_client, trust_v1,
}
use crosspaste_server.Hub.Push.{
  complete_push, finish_push, prepare_push, session_for, store_push_chunk,
}
use crosspaste_server.Hub.State.{Hub, PairedClient, is_paired}
use crosspaste_server.Hub.Trust.{Guards, trust_v1-Guards}
use crosspaste_server.Prelude.{
  List, Option, Result, String, ap, arith, err, inl, inr, is_some, nat_Comparable, none, ok,
  pair_Comparable, refl, some, string_Comparable, true, ℕ, ◌≡◌, ◌⊎◌,
}
use crosspaste_server.Prelude.Int.{int_Comparable, ℤ}
use crosspaste_server.Prelude.Map.{Map, insert, lookup, without}
use crosspaste_server.Secure.Messages.{
  Crypto, KeyExchangeRequest, TrustConfirmRequest, TrustRequest,
}
use crosspaste_server.Secure.Verify.{client_crypt_public_key}
use crosspaste_server.SyncInfo.Info.{SyncInfo}

-- Who is paired, with which key, and where they are.
pub record View : Type 0 where
  pub client_map : Map String PairedClient
  pub key_map : Map String (List ℕ)
  pub info_map : Map String SyncInfo

abbrev pub view : Hub → View
view h = record {
  client_map = h.clients;
  key_map = h.client_crypt_keys;
  info_map = h.client_sync_infos;
}

module _ (c : Crypto) (id : String) where
  pub view-exchange_keys_v2 :
      (request : KeyExchangeRequest) (now responded : ℤ) (h : Hub)
      → view (exchange_keys_v2 c id request now responded h).1 ≡ view h
  unfolding exchange_keys_v2
  view-exchange_keys_v2 request now responded h = ground arith

  -- A pairing writes both maps, or neither.
  abbrev pub Pairs : ℤ → Hub → Hub → Type 0
  Pairs paired h q =
      (view q ≡ view h) ⊎ ((key : List ℕ) × (view q ≡ view (remember id paired key h)))

  module _ (checked paired responded : ℤ) (h : Hub) where
    pub view-trust_v1 :
        (request : TrustRequest)
        → Pairs paired h (trust_v1 c id request checked paired responded h).1
    view-trust_v1 request = elim (trust_v1-Guards c id request checked paired responded h) [
      | inr refused ↦ inl (ap view refused.1)
      | inl g ↦ go g (client_crypt_public_key c request) (fault h.database.faults) refl refl
    ]
      where
        go :
            Guards c request checked h
            → (r : Result String (List ℕ)) (o : Option String)
            → client_crypt_public_key c request ≡ r
            → fault h.database.faults ≡ o
            → Pairs paired h (trust_v1 c id request checked paired responded h).1
        go g (ok key) none f k = inr (
          key,
          unfold trust_v1 save_client execute in
              rw (g.signed, g.requested, g.in_time, g.matches, f) (rw k refl),
        )
        go g (ok key) (some m) f k = inr (
          key,
          unfold trust_v1 save_client execute in
              rw (g.signed, g.requested, g.in_time, g.matches, f) (rw k refl),
        )
        go g (err m) o f k =
            inl (unfold trust_v1 in rw (g.signed, g.requested, g.in_time, g.matches, f) refl)

    pub view-confirm_trust_v2 :
        (request : TrustConfirmRequest)
        → Pairs paired h (confirm_trust_v2 c id request checked paired responded h).1
    view-confirm_trust_v2 request =
        elim (confirm_trust_v2-Confirms c id request checked paired responded h) [
          | inr refused ↦ inl (ap view refused.1)
          | inl g ↦ go g (fault h.database.faults) refl
        ]
      where
        go :
            Confirms c id request checked h
            → (o : Option String) → fault h.database.faults ≡ o
            → Pairs paired h (confirm_trust_v2 c id request checked paired responded h).1
        go g none k = inr (
          g.pending.crypt_public_key,
          unfold confirm_trust_v2 save_client execute in
              rw g.found (rw (g.in_time, g.signed, k) refl),
        )
        go g (some m) k = inr (
          g.pending.crypt_public_key,
          unfold confirm_trust_v2 save_client execute in
              rw g.found (rw (g.in_time, g.signed, k) refl),
        )

pub view-remove_client :
    (id : String) (h : Hub)
    → view (remove_client id h).1 ≡ record {
      client_map = without id h.clients;
      key_map = without id h.client_crypt_keys;
      info_map = without id h.client_sync_infos;
    }
unfolding remove_client
view-remove_client id h = refl

pub view-receive_paste :
    (j : JsonText Value) (id : String) (paste : Value) (now stored_at : ℤ) (h : Hub)
    → view (receive_paste j id paste now stored_at h).1 ≡ view h
unfolding receive_paste
view-receive_paste j id paste now stored_at h = ground arith

pub view-update_client_sync_info :
    (j : JsonText SyncInfo) (id : String) (info : SyncInfo) (now : ℤ) (h : Hub)
    → (view (update_client_sync_info j id info now h).1 ≡ view h)
      ⊎ ((is_some (lookup id h.clients) ≡ true)
          × (view (update_client_sync_info j id info now h).1
              ≡ record (view h) { info_map = insert id info h.client_sync_infos }))
unfolding update_client_sync_info is_paired
view-update_client_sync_info j id info now h = ground arith

pub view-touch_client : (id : String) (now : ℤ) (h : Hub) → view (touch_client id now h) ≡ view h
unfolding touch_client
view-touch_client id now h = refl

pub view-read_file_chunk :
    (paste_id : ℤ) (i : ℕ) (h : Hub) → view (read_file_chunk paste_id i h).1 ≡ view h
unfolding read_file_chunk read_stored
view-read_file_chunk paste_id i h = ground arith

pub view-prepare_push :
    (id : String) (paste : Value) (now : ℤ) (token : String) (h : Hub)
    → view (prepare_push id paste now token h).1 ≡ view h
unfolding prepare_push
view-prepare_push id paste now token h = ground arith

pub view-store_push_chunk :
    (id : String) (paste_id : ℤ) (i : ℕ) (token : String) (bytes : List ℕ) (h : Hub)
    → view (store_push_chunk id paste_id i token bytes h).1 ≡ view h
unfolding store_push_chunk session_for
view-store_push_chunk id paste_id i token bytes h = ground arith

pub view-complete_push :
    (id : String) (paste_id : ℤ) (token : String) (h : Hub)
    → view (complete_push id paste_id token h).1 ≡ view h
unfolding complete_push session_for finish_push
view-complete_push id paste_id token h = ground arith
