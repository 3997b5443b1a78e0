-- ===== src/Hub/Transfers/Places.antt =====
-- hub.rs: the places that a transfer writes to, and which calls leave them alone.
use crosspaste_server.Database.Clients.{
  touch_client as touch_row, remove_client as delete_row, update_client_sync_info as save_sync_info,
}
use crosspaste_server.Codec.{JsonText}
use crosspaste_server.Codec.Value.{Value, as_u64, get}
use crosspaste_server.Database.Clients.{save_client}
use crosspaste_server.Database.Contents.{load_file_chunk, save_file_chunk, save_paste}
use crosspaste_server.Database.Tables.{execute, fault, query}
use crosspaste_server.Hub.Contents.{
  read_file_chunk, read_stored, receive_paste, update_client_sync_info,
}
use crosspaste_server.Hub.Pairing.{
  confirm_trust_v2, exchange_keys_v2, remove_client, touch_client, trust_v1,
}
use crosspaste_server.Hub.Push.{
  complete_push, div_ceil, file_chunk_size, finish_push, mark_received, new_session, prepare_push,
  session_for, store_push_chunk,
}
use crosspaste_server.Hub.State.{
  Directory, Hub, PushSession, create_dir_all, directory_Comparable, read_chunk, write_chunk,
}
use crosspaste_server.Prelude.{
  Bool, Bool-cases, List, Option, Result, String, and_then, arith, err, false, inl, inr, ltb,
  ltb→lt, nat_Comparable, none, ok, pair_Comparable, refl, some, string_Comparable, true, ℕ, ◌<◌,
  ◌==◌, ◌≡◌, ◌⊎◌,
}
use crosspaste_server.Prelude.Int.{as_i64, int_Comparable, ℤ}
use crosspaste_server.Prelude.Map.{Map, insert, lookup, without}
use crosspaste_server.Registry.State.{new}
use crosspaste_server.Secure.Messages.{
  Crypto, KeyExchangeRequest, TrustConfirmRequest, TrustRequest,
}
use crosspaste_server.SyncInfo.Info.{SyncInfo}

pub record Places : Type 0 where
  pub session_map : Map ℤ PushSession
  pub file_map : Map (Directory × ℕ) (List ℕ)
  pub chunk_map : Map (ℤ × ℤ) (List ℕ)

abbrev pub places : Hub → Places
places h = record {
  session_map = h.push_sessions;
  file_map = h.files.chunk_files;
  chunk_map = h.database.file_chunks;
}

module _ (c : Crypto) (id : String) where
  pub places-exchange_keys_v2 :
      (request : KeyExchangeRequest) (now responded : ℤ) (h : Hub)
      → places (exchange_keys_v2 c id request now responded h).1 ≡ places h
  unfolding exchange_keys_v2
  places-exchange_keys_v2 request now responded h = ground arith

  module _ (checked paired responded : ℤ) (h : Hub) where
    pub places-trust_v1 :
        (request : TrustRequest)
        → places (trust_v1 c id request checked paired responded h).1 ≡ places h
    unfolding trust_v1 save_client execute
    places-trust_v1 request = ground arith

    pub places-confirm_trust_v2 :
        (request : TrustConfirmRequest)
        → places (confirm_trust_v2 c id request checked paired responded h).1 ≡ places h
    unfolding confirm_trust_v2 save_client execute
    places-confirm_trust_v2 request = ground arith

pub places-remove_client : (id : String) (h : Hub) → places (remove_client id h).1 ≡ places h
unfolding remove_client delete_row execute
places-remove_client id h = ground arith

pub places-touch_client :
    (id : String) (now : ℤ) (h : Hub) → places (touch_client id now h) ≡ places h
unfolding touch_client touch_row execute
places-touch_client id now h = ground arith

pub places-receive_paste :
    (j : JsonText Value) (id : String) (paste : Value) (now stored_at : ℤ) (h : Hub)
    → places (receive_paste j id paste now stored_at h).1 ≡ places h
unfolding receive_paste save_paste execute
places-receive_paste j id paste now stored_at h = ground arith

pub places-update_client_sync_info :
    (j : JsonText SyncInfo) (id : String) (info : SyncInfo) (now : ℤ) (h : Hub)
    → places (update_client_sync_info j id info now h).1 ≡ places h
unfolding update_client_sync_info save_sync_info execute
places-update_client_sync_info j id info now h = ground arith

pub places-read_file_chunk :
    (paste_id : ℤ) (i : ℕ) (h : Hub) → places (read_file_chunk paste_id i h).1 ≡ places h
unfolding read_file_chunk read_stored load_file_chunk query read_chunk
places-read_file_chunk paste_id i h = ground arith

module _ (id : String) (paste : Value) (now : ℤ) (token : String) (h : Hub) where
  -- A push of `n` chunks is new.
  abbrev pub Prepares : ℕ → Hub → Type 0
  Prepares n q = places q ≡ record (places h) {
    session_map = insert now (new_session now id paste token n) h.push_sessions;
  }

  pub places-prepare_push :
      (places (prepare_push id paste now token h).1 ≡ places h)
      ⊎ ((n : ℕ) × Prepares n (prepare_push id paste now token h).1)
  places-prepare_push = go (and_then as_u64 (get "size" paste)) refl
    where
      go :
          (o : Option ℕ)
          → and_then as_u64 (get "size" paste) ≡ o
          → (places (prepare_push id paste now token h).1 ≡ places h)
            ⊎ ((n : ℕ) × Prepares n (prepare_push id paste now token h).1)
      go none e = inl (unfold prepare_push create_dir_all in ground (arith, e))
      go (some size) e = elim cases [
        | inl same ↦ inl same
        | inr new ↦ inr (div_ceil size file_chunk_size, new)
      ]
        where
          cases :
              (places (prepare_push id paste now token h).1 ≡ places h)
              ⊎ Prepares (div_ceil size file_chunk_size) (prepare_push id paste now token h).1
          cases = unfold prepare_push create_dir_all in ground (arith, e)

-- A session that is asked for by its owner, with its token.
pub record Holds (id : String) (paste_id : ℤ) (token : String) (h : Hub) (s : PushSession)
    : Type 0 where
  pub found : lookup paste_id h.push_sessions ≡ some s
  pub owner : (s.from_app_instance_id == id) ≡ true
  pub known : (s.token == token) ≡ true

-- A call either holds its session, or is refused.
pub session_for-Holds :
    (id : String) (paste_id : ℤ) (token : String) (h : Hub)
    → ((s : PushSession) × Holds id paste_id token h s
        × (session_for id paste_id token h ≡ (ok s, h)))
      ⊎ ((m : String) × (session_for id paste_id token h ≡ (err m, h)))
session_for-Holds id paste_id token h = go (lookup paste_id h.push_sessions) refl
  where
    Goal : Type 0
    Goal =
        ((s : PushSession) × Holds id paste_id token h s
          × (session_for id paste_id token h ≡ (ok s, h)))
        ⊎ ((m : String) × (session_for id paste_id token h ≡ (err m, h)))

    go : (o : Option PushSession) → lookup paste_id h.push_sessions ≡ o → Goal
    go none e = inr ("push session not found", unfold session_for in rw e refl)
    go (some s) e = elim (Bool-cases (s.from_app_instance_id == id)) [
      | inr a ↦ inr ("push session owner mismatch", unfold session_for in rw e (rw a refl))
      | inl a ↦ elim (Bool-cases (s.token == token)) [
        | inr b ↦ inr ("invalid push session token", unfold session_for in rw e (rw (a, b) refl))
        | inl b ↦ inl (
          s,
          record { found = e; owner = a; known = b },
          unfold session_for in rw e (rw (a, b) refl),
        )
      ]
    ]

-- All that `store_push_chunk` writes.
abbrev pub with_chunk : ℤ → PushSession → ℕ → List ℕ → Places → Places
with_chunk paste_id s i bytes p = record {
  session_map = insert paste_id (mark_received i s) p.session_map;
  file_map = insert (s.directory, i) bytes p.file_map;
  chunk_map = insert (paste_id, as_i64 i) bytes p.chunk_map;
}

-- How far a call of `store_push_chunk` came: nowhere, to the file, or to the end.
pub data Stores (paste_id : ℤ) (i : ℕ) (bytes : List ℕ) (p : Places) : Places → Type 0 where
  nothing : Stores paste_id i bytes p p
  file_only :
      (d : Directory)
      → Stores paste_id i bytes p (record p { file_map = insert (d, i) bytes p.file_map })
  whole :
      (s : PushSession)
      → lookup paste_id p.session_map ≡ some s
      → i < s.chunk_count
      → Stores paste_id i bytes p (with_chunk paste_id s i bytes p)

module _ (id : String) (paste_id : ℤ) (i : ℕ) (token : String) (bytes : List ℕ) (h : Hub) where
  abbrev stored : Result String Unit × Hub
  stored = store_push_chunk id paste_id i token bytes h

  pub places-store_push_chunk : Stores paste_id i bytes (places h) (places stored.1)
  places-store_push_chunk = elim (session_for-Holds id paste_id token h) [
    | inr (m, e) ↦ refused m e
    | inl (s, holds, e) ↦
        go s holds e (ltb i s.chunk_count) (fault h.files.file_faults) (fault h.database.faults)
          refl refl refl
  ]
    where
      refused :
          (m : String)
          → session_for id paste_id token h ≡ (err m, h)
          → Stores paste_id i bytes (places h) (places stored.1)
      refused m e = unfold store_push_chunk in rw e nothing

      go :
          (s : PushSession)
          → Holds id paste_id token h s
          → session_for id paste_id token h ≡ (ok s, h)
          → (b : Bool) (o u : Option String) → ltb i s.chunk_count ≡ b
          → fault h.files.file_faults ≡ o
          → fault h.database.faults ≡ u
          → Stores paste_id i bytes (places h) (places stored.1)
      go s holds e false o u a f d = unfold store_push_chunk in rw e (rw a nothing)
      go s holds e true (some m) u a f d =
          unfold store_push_chunk write_chunk in rw e (rw a (rw f nothing))
      go s holds e true none (some m) a f d =
          unfold store_push_chunk write_chunk save_file_chunk execute in
          rw e (rw a (rw f (rw d (file_only s.directory))))
      go s holds e true none none a f d =
          unfold store_push_chunk write_chunk save_file_chunk execute in
          rw e (rw a (rw f (rw d (whole s holds.found (ltb→lt _ _ a)))))

pub places-complete_push :
    (id : String) (paste_id : ℤ) (token : String) (h : Hub)
    → (places (complete_push id paste_id token h).1 ≡ places h)
      ⊎ (places (complete_push id paste_id token h).1
          ≡ record (places h) { session_map = without paste_id h.push_sessions })
unfolding complete_push session_for finish_push
places-complete_push id paste_id token h = ground arith
