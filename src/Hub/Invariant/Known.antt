-- ===== src/Hub/Invariant/Known.antt =====
-- hub.rs: the maps of paired clients, of their keys and of their SyncInfos agree after any calls.
use crosspaste_server.Codec.{JsonText}
use crosspaste_server.Codec.Value.{Value}
use crosspaste_server.Database.Tables.{StoredClient}
use crosspaste_server.Hub.Contents.{keep_stored_file, update_client_sync_info}
use crosspaste_server.Hub.Events.{
  Event, completes, confirms, exchanges, informs, issues, keeps, prepares, reads, receives, removes,
  run, sets, step, stores, touches, trusts,
}
use crosspaste_server.Hub.Invariant.Views.{
  View, view, view-complete_push, view-confirm_trust_v2, view-exchange_keys_v2, view-prepare_push,
  view-read_file_chunk, view-receive_paste, view-remove_client, view-store_push_chunk,
  view-touch_client, view-trust_v1, view-update_client_sync_info,
}
use crosspaste_server.Hub.Pairing.{
  issue_pairing_token_for, remember, set_pairing_token, set_pairing_token_for,
}
use crosspaste_server.Hub.Restart.{
  Disk, KeyFormat, admit, admit_all, empty_hub, load_disk, load_or_create,
}
use crosspaste_server.Hub.State.{Hub}
use crosspaste_server.Prelude.{
  List, Result, String, [], arith, err, inl, inr, is_some, nat_Comparable, ok, pair_Comparable,
  refl, string_Comparable, subst, sym, true, ℕ, ◌∷◌, ◌≡◌, ◌⊎◌,
}
use crosspaste_server.Prelude.Int.{int_Comparable, ℤ}
use crosspaste_server.Prelude.Map.{insert, lookup, lookup-insert, lookup-without, without}
use crosspaste_server.Secure.Messages.{Crypto, ServerKeys}
use crosspaste_server.SyncInfo.Info.{SyncInfo}

-- A client is paired exactly when its key is known, and only paired clients have a SyncInfo.
pub record Known (v : View) : Type 0 where
  pub keyed : (id : String) → is_some (lookup id v.key_map) ≡ is_some (lookup id v.client_map)
  pub located :
      (id : String)
      → is_some (lookup id v.info_map) ≡ true
      → is_some (lookup id v.client_map) ≡ true

pub remember-Known :
    (id : String) (paired : ℤ) (key : List ℕ) (h : Hub)
    → Known (view h)
    → Known (view (remember id paired key h))
remember-Known id paired key h k = record {
  keyed = λ other. grind (arith, lookup-insert, k.keyed other);
  located = λ other e. grind (arith, lookup-insert, k.located other);
}

removed-Known :
    (id : String) (h : Hub)
    → Known (view h)
    → Known (record {
      client_map = without id h.clients;
      key_map = without id h.client_crypt_keys;
      info_map = without id h.client_sync_infos;
    })
removed-Known id h k = record {
  keyed = λ other. grind (arith, lookup-without, k.keyed other);
  located = λ other e. grind (arith, lookup-without, k.located other);
}

informed-Known :
    (id : String) (info : SyncInfo) (h : Hub)
    → is_some (lookup id h.clients) ≡ true
    → Known (view h)
    → Known (record (view h) { info_map = insert id info h.client_sync_infos })
informed-Known id info h paired k = record {
  keyed = k.keyed;
  located =
      λ other e. grind (arith, lookup-insert, k.located other, string_Comparable.same_iff id other);
}

moved : {u v : View} → v ≡ u → Known u → Known v
moved e k = subst Known (sym e) k

paired-Known :
    (id : String) (paired : ℤ) (h : Hub) {v : View}
    → (v ≡ view h) ⊎ ((key : List ℕ) × (v ≡ view (remember id paired key h)))
    → Known (view h)
    → Known v
paired-Known id paired h (inl e) k = moved e k
paired-Known id paired h (inr (key, e)) k = moved e (remember-Known id paired key h k)

module _ (c : Crypto) (jv : JsonText Value) (js : JsonText SyncInfo) where
  informs-Known :
      (id : String) (info : SyncInfo) (now : ℤ) (h : Hub)
      → Known (view h)
      → Known (view (update_client_sync_info js id info now h).1)
  informs-Known id info now h k = elim (view-update_client_sync_info js id info now h) [
    | inl e ↦ moved e k
    | inr (paired, e) ↦ moved e (informed-Known id info h paired k)
  ]

  pub step-Known : (e : Event) (h : Hub) → Known (view h) → Known (view (step c jv js e h))
  unfolding step issue_pairing_token_for set_pairing_token set_pairing_token_for keep_stored_file
  step-Known (issues client_id random now) h k = k
  step-Known (sets token now) h k = k
  step-Known (trusts id request checked paired responded) h k =
      paired-Known id paired h (view-trust_v1 c id checked paired responded h request) k
  step-Known (exchanges id request now responded) h k =
      moved (view-exchange_keys_v2 c id request now responded h) k
  step-Known (confirms id request checked paired responded) h k =
      paired-Known id paired h (view-confirm_trust_v2 c id checked paired responded h request) k
  step-Known (removes id) h k = moved (view-remove_client id h) (removed-Known id h k)
  step-Known (touches id now) h k = moved (view-touch_client id now h) k
  step-Known (informs id info now) h k = informs-Known id info now h k
  step-Known (receives id paste now stored_at) h k =
      moved (view-receive_paste jv id paste now stored_at h) k
  step-Known (prepares id paste now token) h k = moved (view-prepare_push id paste now token h) k
  step-Known (stores id paste_id index token bytes) h k =
      moved (view-store_push_chunk id paste_id index token bytes h) k
  step-Known (completes id paste_id token) h k = moved (view-complete_push id paste_id token h) k
  step-Known (keeps completed) h k = k
  step-Known (reads paste_id index) h k = moved (view-read_file_chunk paste_id index h) k

  run-Known : (es : List Event) (h : Hub) → Known (view h) → Known (view (run c jv js es h))
  unfolding run
  run-Known [] h k = k
  run-Known (e ∷ es) h k = run-Known es (step c jv js e h) (step-Known e h k)

  admit-Known : (row : StoredClient) (h : Hub) → Known (view h) → Known (view (admit js row h))
  unfolding admit
  admit-Known row h k = record {
    keyed = λ id. grind (arith, lookup-insert, k.keyed id);
    located = λ id e.
        grind
          (arith, lookup-insert, k.located id, string_Comparable.same_iff row.app_instance_id id);
  }

  admit_all-Known :
      (rows : List StoredClient) (h : Hub) → Known (view h) → Known (view (admit_all js rows h))
  unfolding admit_all
  admit_all-Known [] h k = k
  admit_all-Known (row ∷ rows) h k = admit_all-Known rows (admit js row h) (admit-Known row h k)

  empty-Known : (keys : ServerKeys) (k : Disk) → Known (view (empty_hub keys k))
  unfolding lookup
  empty-Known keys k = record { keyed = λ id. refl; located = λ id e. e }

  load_or_create-Known :
      (f : KeyFormat) (generated : ServerKeys) (k k' : Disk) (h : Hub)
      → load_or_create f js generated k ≡ (ok h, k')
      → Known (view h)
  load_or_create-Known f generated k k' h e = go (load_disk f generated k).0 refl
    where
      go :
          (r : Result String (ServerKeys × List StoredClient))
          → (load_disk f generated k).0 ≡ r
          → Known (view h)
      go (ok (keys, rows)) l =
          let same : admit_all js rows (empty_hub keys (load_disk f generated k).1) ≡ h =
            unfold load_or_create in ground (arith, e, l) in
          subst (λ x. Known (view x)) same
            (admit_all-Known rows _ (empty-Known keys (load_disk f generated k).1))
      go (err m) l = unfold load_or_create in absurd (ground (arith, e, l))

  -- After a start of the server and any calls in any order, a client is paired exactly when the hub
  -- has its key, and only paired clients have a SyncInfo.
  pub run-load_or_create-Known :
      (f : KeyFormat) (generated : ServerKeys) (k k' : Disk) (h : Hub) (es : List Event)
      → load_or_create f js generated k ≡ (ok h, k')
      → Known (view (run c jv js es h))
  run-load_or_create-Known f generated k k' h es e =
      run-Known es h (load_or_create-Known f generated k k' h e)
