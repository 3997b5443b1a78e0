-- ===== src/Hub/Durable/Runs.antt =====
-- hub.rs: a restart finds the clients that the hub had, if no statement has failed.
use crosspaste_server.Codec.{JsonText}
use crosspaste_server.Codec.Value.{Value}
use crosspaste_server.Database.Clients.{
  enabled_clients, informed, load_clients, load_server_keys, save_server_keys, seen_at,
}
use crosspaste_server.Database.Tables.{Database, StoredClient, execute, query}
use crosspaste_server.Hub.Contents.{keep_stored_file, update_client_sync_info}
use crosspaste_server.Hub.Durable.Others.{
  ledger-complete_push, ledger-exchange_keys_v2, ledger-prepare_push, ledger-read_file_chunk,
  ledger-receive_paste, ledger-remove_client, ledger-store_push_chunk, ledger-touch_client,
  ledger-update_client_sync_info,
}
use crosspaste_server.Hub.Durable.Rows.{Distinct, Shows, admit_all-Shows, shown_client, shown_key}
use crosspaste_server.Hub.Durable.Steps.{
  Durable, Keeps, Ledger, confirms-Durable, ledger, removed-Durable, trusts-Durable,
  updated-Durable,
}
use crosspaste_server.Hub.Events.{
  Event, completes, confirms, exchanges, informs, issues, keeps, prepares, reads, receives, removes,
  run, sets, step, stores, touches, trusts,
}
use crosspaste_server.Hub.Pairing.{
  issue_pairing_token_for, set_pairing_token, set_pairing_token_for,
}
use crosspaste_server.Hub.Restart.{
  Disk, KeyFormat, admit, admit_all, empty_hub, keys_or_new, load_disk, load_or_create,
  load_or_create_server_keys,
}
use crosspaste_server.Hub.State.{Files, Hub, create_dir_all}
use crosspaste_server.Prelude.{
  List, Result, String, [], ap, arith, err, inl, inr, nat_Comparable, none, ok, pair_Comparable,
  refl, string_Comparable, subst, sym, ◌∙◌, ◌∷◌, ◌≡◌,
}
use crosspaste_server.Prelude.Int.{int_Comparable, ℤ}
use crosspaste_server.Prelude.Map.{lookup}
use crosspaste_server.Secure.Messages.{Crypto, ServerKeys}
use crosspaste_server.SyncInfo.Info.{SyncInfo}

touched-Keeps : (now : ℤ) → Keeps (seen_at now)
touched-Keeps now = record { same_client = λ id row. refl; same_key = λ row. refl }

informed-Keeps : (json : String) (now : ℤ) → Keeps (informed json now)
informed-Keeps json now = record { same_client = λ id row. refl; same_key = λ row. refl }

moved : {l m : Ledger} → m ≡ l → Durable l → Durable m
moved e k = subst Durable (sym e) k

module _ (c : Crypto) (jv : JsonText Value) (js : JsonText SyncInfo) where
  informs-Durable :
      (id : String) (info : SyncInfo) (now : ℤ) (h : Hub)
      → Durable (ledger h)
      → Durable (ledger (update_client_sync_info js id info now h).1)
  informs-Durable id info now h k =
      elim (ledger-update_client_sync_info h k.answers js id info now) [
        | inl e ↦ moved e k
        | inr (json, e) ↦
            moved e (updated-Durable id (informed json now) (ledger h) (informed-Keeps json now) k)
      ]

  step-Durable : (e : Event) (h : Hub) → Durable (ledger h) → Durable (ledger (step c jv js e h))
  unfolding step issue_pairing_token_for set_pairing_token set_pairing_token_for keep_stored_file
  step-Durable (issues client_id random now) h k = k
  step-Durable (sets token now) h k = k
  step-Durable (trusts id request checked paired responded) h k =
      trusts-Durable c id checked paired responded h k request
  step-Durable (exchanges id request now responded) h k =
      moved (ledger-exchange_keys_v2 c id request now responded h) k
  step-Durable (confirms id request checked paired responded) h k =
      confirms-Durable c id checked paired responded h k request
  step-Durable (removes id) h k =
      moved (ledger-remove_client h k.answers id) (removed-Durable id (ledger h) k)
  step-Durable (touches id now) h k =
      moved (ledger-touch_client h k.answers id now)
        (updated-Durable id (seen_at now) (ledger h) (touched-Keeps now) k)
  step-Durable (informs id info now) h k = informs-Durable id info now h k
  step-Durable (receives id paste now stored_at) h k =
      moved (ledger-receive_paste h k.answers jv id paste now stored_at) k
  step-Durable (prepares id paste now token) h k =
      moved (ledger-prepare_push id paste now token h) k
  step-Durable (stores id paste_id index token bytes) h k =
      moved (ledger-store_push_chunk h k.answers id paste_id index token bytes) k
  step-Durable (completes id paste_id token) h k =
      moved (ledger-complete_push id paste_id token h) k
  step-Durable (keeps completed) h k = k
  step-Durable (reads paste_id index) h k =
      moved (ledger-read_file_chunk h k.answers paste_id index) k

  run-Durable :
      (es : List Event) (h : Hub) → Durable (ledger h) → Durable (ledger (run c jv js es h))
  unfolding run
  run-Durable [] h k = k
  run-Durable (e ∷ es) h k = run-Durable es (step c jv js e h) (step-Durable e h k)

  -- What a start reads while no statement fails.
  record Loaded (k : Disk) (rows : List StoredClient) (k' : Disk) : Type 0 where
    rows_are : rows ≡ enabled_clients k.tables.paired_clients
    table_is : k'.tables.paired_clients ≡ k.tables.paired_clients
    answering : k'.tables.faults ≡ []

  load_disk-Loaded :
      (f : KeyFormat) (generated : ServerKeys) (k : Disk) (keys : ServerKeys)
      (rows : List StoredClient)
      → k.tables.faults ≡ []
      → (load_disk f generated k).0 ≡ ok (keys, rows)
      → Loaded k rows (load_disk f generated k).1
  load_disk-Loaded f generated k keys rows e l =
      unfold load_disk create_dir_all load_or_create_server_keys keys_or_new load_server_keys
        save_server_keys execute query load_clients in
      ground (arith, e, l)

  -- The hub after a start shows the enabled rows of the table that it started from.
  record Restored (k : Disk) (h : Hub) : Type 0 where
    table_kept : h.database.paired_clients ≡ k.tables.paired_clients
    faultless : h.database.faults ≡ []
    shows :
        (id : String)
        → (lookup id h.clients ≡ shown_client id (lookup id k.tables.paired_clients) none)
          × (lookup id h.client_crypt_keys ≡ shown_key (lookup id k.tables.paired_clients) none)

  database-admit_all :
      (rows : List StoredClient) (h : Hub) → (admit_all js rows h).database ≡ h.database
  unfolding admit_all admit
  database-admit_all [] h = refl
  database-admit_all (row ∷ rows) h = database-admit_all rows (admit js row h)

  admitted-Restored :
      (k k1 : Disk) (keys : ServerKeys) (rows : List StoredClient)
      → Distinct k.tables.paired_clients
      → Loaded k rows k1
      → Restored k (admit_all js rows (empty_hub keys k1))
  unfolding lookup
  admitted-Restored k k1 keys rows d l = record {
    table_kept =
        ap (λ (x : Database). x.paired_clients) (database-admit_all rows (empty_hub keys k1))
        ∙ l.table_is;
    faultless =
        ap (λ (x : Database). x.faults) (database-admit_all rows (empty_hub keys k1)) ∙ l.answering;
    shows = λ id.
        let s : Shows id (lookup id k.tables.paired_clients) (empty_hub keys k1)
            (admit_all js rows (empty_hub keys k1)) =
          rw l.rows_are (admit_all-Shows js k.tables.paired_clients (empty_hub keys k1) id d) in
        (s.client, s.key);
  }

  load_or_create-Restored :
      (f : KeyFormat) (generated : ServerKeys) (k k' : Disk) (h : Hub)
      → k.tables.faults ≡ []
      → Distinct k.tables.paired_clients
      → load_or_create f js generated k ≡ (ok h, k')
      → Restored k h
  load_or_create-Restored f generated k k' h e d s = go (load_disk f generated k).0 refl
    where
      go :
          (r : Result String (ServerKeys × List StoredClient))
          → (load_disk f generated k).0 ≡ r
          → Restored k h
      go (ok (keys, rows)) l =
          let same : admit_all js rows (empty_hub keys (load_disk f generated k).1) ≡ h =
            unfold load_or_create in ground (arith, s, l) in
          subst (Restored k) same (
            admitted-Restored k (load_disk f generated k).1 keys rows d
              (load_disk-Loaded f generated k keys rows e l))
      go (err m) l = unfold load_or_create in absurd (ground (arith, s, l))

  -- If no statement fails, a restart finds exactly the clients that the hub had after any calls,
  -- each with the key and the time of its pairing.
  pub load_or_create-run :
      (f : KeyFormat) (generated generated' : ServerKeys) (k k' : Disk) (h : Hub) (es : List Event)
      (directories : Files) (h' : Hub) (k'' : Disk)
      → k.tables.faults ≡ []
      → Distinct k.tables.paired_clients
      → load_or_create f js generated k ≡ (ok h, k')
      → load_or_create f js generated'
          (record { tables = (run c jv js es h).database; directories = directories })
        ≡ (ok h', k'')
      → (id : String)
      → (lookup id h'.clients ≡ lookup id (run c jv js es h).clients)
        × (lookup id h'.client_crypt_keys ≡ lookup id (run c jv js es h).client_crypt_keys)
  load_or_create-run f generated generated' k k' h es directories h' k'' e d s t id =
      let first = load_or_create-Restored f generated k k' h e d s in
      let start : Durable (ledger h) = record {
        answers = first.faultless;
        distinct = subst Distinct (sym first.table_kept) d;
        client = λ i.
            (first.shows i).0 ∙ ap (λ m. shown_client i (lookup i m) none) (sym first.table_kept);
        key = λ i. (first.shows i).1 ∙ ap (λ m. shown_key (lookup i m) none) (sym first.table_kept);
      } in
      let q = run-Durable es h start in
      let again = load_or_create-Restored f generated' _ k'' h' q.answers q.distinct t in
      ((again.shows id).0 ∙ sym (q.client id), (again.shows id).1 ∙ sym (q.key id))
