-- ===== src/Hub/Transfers/Runs.antt =====
-- hub.rs: what holds of the sessions of pushes after any calls.
use crosspaste_server.Codec.{JsonText}
use crosspaste_server.Codec.Value.{Value}
use crosspaste_server.Database.Tables.{StoredClient}
use crosspaste_server.Hub.Contents.{keep_stored_file}
use crosspaste_server.Hub.Events.{
  Event, completes, confirms, exchanges, informs, issues, keeps, prepares, reads, receives, removes,
  run, sets, step, stores, touches, trusts,
}
use crosspaste_server.Hub.Pairing.{
  issue_pairing_token_for, set_pairing_token, set_pairing_token_for,
}
use crosspaste_server.Hub.Push.{complete_push, mark_received, new_session, prepare_push}
use crosspaste_server.Hub.Restart.{
  Disk, KeyFormat, admit, admit_all, empty_hub, load_disk, load_or_create,
}
use crosspaste_server.Hub.State.{Hub, directory_Comparable}
use crosspaste_server.Hub.Transfers.Places.{
  Places, Stores, file_only, nothing, places, places-complete_push, places-confirm_trust_v2,
  places-exchange_keys_v2, places-prepare_push, places-read_file_chunk, places-receive_paste,
  places-remove_client, places-store_push_chunk, places-touch_client, places-trust_v1,
  places-update_client_sync_info, whole,
}
use crosspaste_server.Hub.Transfers.Steps.{
  Holdings, ended, filed, fresh, marked, put_push_session, tabled,
}
use crosspaste_server.Prelude.{
  List, Result, String, [], ap, arith, err, inl, inr, nat_Comparable, ok, pair_Comparable, refl,
  string_Comparable, subst, sym, ℕ, ◌∙◌, ◌∷◌, ◌≡◌,
}
use crosspaste_server.Prelude.Int.{as_i64, int_Comparable, ℤ}
use crosspaste_server.Prelude.Map.{insert, lookup}
use crosspaste_server.Secure.Messages.{Crypto, ServerKeys}
use crosspaste_server.SyncInfo.Info.{SyncInfo}

kept : {p q : Places} → q ≡ p → Holdings p → Holdings q
kept e h = subst Holdings (sym e) h

stores-Holdings :
    (paste_id : ℤ) (i : ℕ) (bytes : List ℕ) (p q : Places)
    → Stores paste_id i bytes p q
    → Holdings p
    → Holdings q
stores-Holdings paste_id i bytes p q nothing h = h
stores-Holdings paste_id i bytes p q (file_only d) h = filed d i bytes p h
stores-Holdings paste_id i bytes p q (whole s e lt) h =
    put_push_session paste_id (mark_received i s)
      (record p {
        file_map = insert (s.directory, i) bytes p.file_map;
        chunk_map = insert (paste_id, as_i64 i) bytes p.chunk_map;
      })
      (marked paste_id s i bytes p (h paste_id s e))
      (tabled paste_id (as_i64 i) bytes
        (record p { file_map = insert (s.directory, i) bytes p.file_map })
        (filed s.directory i bytes p h))

prepares-Holdings :
    (id : String) (paste : Value) (now : ℤ) (token : String) (h : Hub)
    → Holdings (places h)
    → Holdings (places (prepare_push id paste now token h).1)
prepares-Holdings id paste now token h k = elim (places-prepare_push id paste now token h) [
  | inl e ↦ kept e k
  | inr (n, e) ↦ kept e (
      put_push_session now (new_session now id paste token n) (places h)
        (fresh id paste now token n (places h)) k)
]

completes-Holdings :
    (id : String) (paste_id : ℤ) (token : String) (h : Hub)
    → Holdings (places h)
    → Holdings (places (complete_push id paste_id token h).1)
completes-Holdings id paste_id token h k = elim (places-complete_push id paste_id token h) [
  | inl e ↦ kept e k
  | inr e ↦ kept e (ended paste_id (places h) k)
]

module _ (c : Crypto) (jv : JsonText Value) (js : JsonText SyncInfo) where
  step-Holdings : (e : Event) (h : Hub) → Holdings (places h) → Holdings (places (step c jv js e h))
  unfolding step issue_pairing_token_for set_pairing_token set_pairing_token_for keep_stored_file
  step-Holdings (issues client_id random now) h k = k
  step-Holdings (sets token now) h k = k
  step-Holdings (trusts id request checked paired responded) h k =
      kept (places-trust_v1 c id checked paired responded h request) k
  step-Holdings (exchanges id request now responded) h k =
      kept (places-exchange_keys_v2 c id request now responded h) k
  step-Holdings (confirms id request checked paired responded) h k =
      kept (places-confirm_trust_v2 c id checked paired responded h request) k
  step-Holdings (removes id) h k = kept (places-remove_client id h) k
  step-Holdings (touches id now) h k = kept (places-touch_client id now h) k
  step-Holdings (informs id info now) h k = kept (places-update_client_sync_info js id info now h) k
  step-Holdings (receives id paste now stored_at) h k =
      kept (places-receive_paste jv id paste now stored_at h) k
  step-Holdings (prepares id paste now token) h k = prepares-Holdings id paste now token h k
  step-Holdings (stores id paste_id index token bytes) h k =
      stores-Holdings paste_id index bytes _ _
        (places-store_push_chunk id paste_id index token bytes h) k
  step-Holdings (completes id paste_id token) h k = completes-Holdings id paste_id token h k
  step-Holdings (keeps completed) h k = k
  step-Holdings (reads paste_id index) h k = kept (places-read_file_chunk paste_id index h) k

  run_Holdings :
      (es : List Event) (h : Hub) → Holdings (places h) → Holdings (places (run c jv js es h))
  unfolding run
  run_Holdings [] h k = k
  run_Holdings (e ∷ es) h k = run_Holdings es (step c jv js e h) (step-Holdings e h k)

  sessions-admit_all :
      (rows : List StoredClient) (h : Hub) → (admit_all js rows h).push_sessions ≡ h.push_sessions
  unfolding admit_all admit
  sessions-admit_all [] h = refl
  sessions-admit_all (row ∷ rows) h = sessions-admit_all rows (admit js row h)

  no_sessions : (h : Hub) → h.push_sessions ≡ [] → Holdings (places h)
  unfolding lookup
  no_sessions h e paste_id s f = absurd (cc (rw e at f))

  started-Holdings :
      (f : KeyFormat) (generated : ServerKeys) (k k' : Disk) (h : Hub)
      → load_or_create f js generated k ≡ (ok h, k')
      → Holdings (places h)
  started-Holdings f generated k k' h e = go (load_disk f generated k).0 refl
    where
      go :
          (r : Result String (ServerKeys × List StoredClient))
          → (load_disk f generated k).0 ≡ r
          → Holdings (places h)
      go (ok (keys, rows)) l =
          let same : admit_all js rows (empty_hub keys (load_disk f generated k).1) ≡ h =
            unfold load_or_create in ground (arith, e, l) in
          no_sessions h (ap (λ (x : Hub). x.push_sessions) (sym same) ∙ sessions-admit_all rows _)
      go (err m) l = unfold load_or_create in absurd (ground (arith, e, l))

  -- After a start of the server and any calls in any order, each session of a push is under its
  -- own identifier, has one mark for each chunk, and every chunk that it counts as received is in
  -- its file and in the database.
  pub run-load_or_create-Holdings :
      (f : KeyFormat) (generated : ServerKeys) (k k' : Disk) (h : Hub) (es : List Event)
      → load_or_create f js generated k ≡ (ok h, k')
      → Holdings (places (run c jv js es h))
  run-load_or_create-Holdings f generated k k' h es e =
      run_Holdings es h (started-Holdings f generated k k' h e)
