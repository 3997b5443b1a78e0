-- ===== src/Routes/Admits.antt =====
-- routes.rs: no paste gets past the checks.
use crosspaste_server.Auth.{HeaderMap}
use crosspaste_server.Codec.Value.{Value}
use crosspaste_server.Database.Settings.{settings}
use crosspaste_server.Database.Statements.{query-either}
use crosspaste_server.Database.Tables.{later}
use crosspaste_server.Prelude.{
  List, Option, Result, String, continue, err, false, inl, inr, is_ok, lift, ok, refl, ℕ, ◌>>=◌,
  ◌>>◌, ◌≡◌, ◌⊎◌,
}
use crosspaste_server.Prelude.Int.{ℤ}
use crosspaste_server.Proxy.{HttpResponse}
use crosspaste_server.RelayError.{Error}
use crosspaste_server.Routes.Admission.{
  IsClient, IsPermitted, check_settings-IsPermitted, require_paired_client-IsClient,
}
use crosspaste_server.Routes.Guards.{
  bad, body_of, check_settings, enforce_sync_settings, maybe_decrypt_body, require_paired_client,
}
use crosspaste_server.Routes.Pastes.{Formats, Server, dispatched, of_state, sync_paste}
use crosspaste_server.Secure.Messages.{Crypto}

module _ (c : Crypto) (f : Formats) (headers : HeaderMap) (body : List ℕ) (now stored_at : ℤ)
    (uuid : String) (iv : List ℕ) (v : Server) where
  -- What is there when a paste is let in.
  pub record IsAdmitted : Type 0 where
    pub id : String
    pub plain : List ℕ
    pub paste : Value
    pub client : IsClient headers v.state id
    pub decrypted : maybe_decrypt_body c headers id body v.state ≡ ok plain
    pub read : f.pastes.from_slice plain ≡ ok paste
    pub permitted : IsPermitted v.state.hub.database.settings paste

  -- Nothing was kept, sent, or left to a task.
  pub record IsUntouched (q : Server) : Type 0 where
    pub pastes_kept : q.state.hub.pastes ≡ v.state.hub.pastes
    pub pushes_kept : q.state.hub.push_sessions ≡ v.state.hub.push_sessions
    pub records_kept : q.state.hub.database.paste_records ≡ v.state.hub.database.paste_records
    pub nothing_sent : q.requests ≡ v.requests
    pub nothing_started : q.tasks ≡ v.tasks

  abbrev pub Outcome : Type 0
  Outcome = Result Error HttpResponse × Server

  abbrev pub Admits : Outcome → Type 0
  Admits o = IsAdmitted ⊎ ((is_ok o.0 ≡ false) × IsUntouched o.1)

  -- The state with other tables of settings and faults only.
  abbrev with_faults : List (Option String) → Server
  with_faults fs = record v {
    state = record v.state {
      hub = record v.state.hub { database = record v.state.hub.database { faults = fs } };
    };
  }

  untouched : (fs : List (Option String)) → IsUntouched (with_faults fs)
  untouched fs = record {
    pastes_kept = refl;
    pushes_kept = refl;
    records_kept = refl;
    nothing_sent = refl;
    nothing_started = refl;
  }

  permitted-Admits :
      (id : String) (plain : List ℕ) (paste : Value)
      → IsClient headers v.state id
      → maybe_decrypt_body c headers id body v.state ≡ ok plain
      → f.pastes.from_slice plain ≡ ok paste
      → Admits (
          (do
            of_state (enforce_sync_settings paste)
            dispatched c f headers id paste now stored_at uuid iv)
            v)
  unfolding enforce_sync_settings settings
  permitted-Admits id plain paste client decrypted read =
      elim (query-either (λ d. d.settings) v.state.hub.database) [
        | inl e ↦ rw e (go (check_settings v.state.hub.database.settings paste) refl)
        | inr w ↦ rw w.1 (inr (refl, untouched _))
      ]
    where
      go :
          (o : Result Error Unit)
          → check_settings v.state.hub.database.settings paste ≡ o
          → Admits (
              continue o
                (λ u. dispatched c f headers id paste now stored_at uuid iv)
                (with_faults (later v.state.hub.database.faults)))
      go (err e) h = inr (refl, untouched _)
      go (ok u) h = inl (record {
        id = id;
        plain = plain;
        paste = paste;
        client = client;
        decrypted = decrypted;
        read = read;
        permitted = check_settings-IsPermitted v.state.hub.database.settings paste h;
      })

  parsed-Admits :
      (id : String) (plain : List ℕ)
      → IsClient headers v.state id
      → maybe_decrypt_body c headers id body v.state ≡ ok plain
      → Admits (
          (do
            paste ← lift (bad (f.pastes.from_slice plain))
            of_state (enforce_sync_settings paste)
            dispatched c f headers id paste now stored_at uuid iv)
            v)
  parsed-Admits id plain client decrypted = go (f.pastes.from_slice plain) refl
    where
      go :
          (o : Result String Value)
          → f.pastes.from_slice plain ≡ o
          → Admits (
              continue
                (bad o)
                (λ paste.
                  of_state (enforce_sync_settings paste)
                  >> dispatched c f headers id paste now stored_at uuid iv)
                v)
      go (err e) h = inr (refl, untouched _)
      go (ok paste) h = permitted-Admits id plain paste client decrypted h

  client-Admits :
      (id : String)
      → IsClient headers v.state id
      → Admits (
          (do
            plain ← of_state (body_of c headers id body)
            paste ← lift (bad (f.pastes.from_slice plain))
            of_state (enforce_sync_settings paste)
            dispatched c f headers id paste now stored_at uuid iv)
            v)
  client-Admits id client = go (maybe_decrypt_body c headers id body v.state) refl
    where
      go :
          (o : Result Error (List ℕ))
          → maybe_decrypt_body c headers id body v.state ≡ o
          → Admits (
              continue o
                (λ plain. lift (bad (f.pastes.from_slice plain)) >>= λ paste.
                  of_state (enforce_sync_settings paste)
                  >> dispatched c f headers id paste now stored_at uuid iv)
                v)
      go (err e) h = inr (refl, untouched _)
      go (ok plain) h = parsed-Admits id plain client h

  -- A call with a paste fails, leaves pastes, pushes and the network alone and starts no task, unless
  -- its sender is a paired client, it is for this server, its body can be read, with the key of the sender if it
  -- says that it is encrypted, and the settings permit a paste of its type and size.
  pub sync_paste-Admits : Admits (sync_paste c f headers body now stored_at uuid iv v)
  unfolding sync_paste
  sync_paste-Admits = go (require_paired_client headers v.state) refl
    where
      go :
          (o : Result Error String)
          → require_paired_client headers v.state ≡ o
          → Admits (
              continue o
                (λ id. of_state (body_of c headers id body) >>= λ plain.
                  lift (bad (f.pastes.from_slice plain)) >>= λ paste.
                  of_state (enforce_sync_settings paste)
                  >> dispatched c f headers id paste now stored_at uuid iv)
                v)
      go (err e) h = inr (refl, untouched _)
      go (ok id) h = client-Admits id (require_paired_client-IsClient headers v.state id h)
