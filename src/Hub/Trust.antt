-- ===== src/Hub/Trust.antt =====
-- hub.rs: who `trust_v1` pairs, and what it changes.
use crosspaste_server.Database.Clients.{save_client, saved}
use crosspaste_server.Database.Tables.{execute, fault, started}
use crosspaste_server.Hub.Pairing.{remember, trust_v1, trusted}
use crosspaste_server.Hub.State.{Hub, is_paired}
use crosspaste_server.Prelude.{
  Bool, Bool-cases, List, Option, Result, String, ap, eqb, err, false, inl, inr, is_ok, is_some,
  nat_Comparable, none, ok, pair_Comparable, refl, some, string_Comparable, subst, sym, true, ℕ,
  ◌∙◌, ◌≡◌, ◌≢◌, ◌⊎◌,
}
use crosspaste_server.Prelude.Int.{int_Comparable, leb_ℤ, ℤ}
use crosspaste_server.Prelude.Map.{insert, lookup, lookup-insert_ne, lookup-insert_self}
use crosspaste_server.Secure.Messages.{Crypto, TrustRequest, TrustResponse}
use crosspaste_server.Secure.Verify.{client_crypt_public_key, verify_pairing_request}

-- What a request has to meet.
pub record Guards (c : Crypto) (request : TrustRequest) (checked : ℤ) (h : Hub) : Type 0 where
  pub signed : verify_pairing_request c request ≡ ok true
  pub requested : eqb h.pairing_token.value 0 ≡ false
  pub in_time : leb_ℤ checked h.pairing_token.expires_at_ms ≡ true
  pub matches : eqb request.pairing_request.token h.pairing_token.value ≡ true

module _ (c : Crypto) (id : String) (request : TrustRequest) (checked paired responded : ℤ)
    (h : Hub) where
  -- A request either meets all the conditions, or is refused with an error that leaves the hub as
  -- it was.
  pub trust_v1-Guards :
      Guards c request checked h
      ⊎ ((is_ok (trust_v1 c id request checked paired responded h).0 ≡ false)
          × ((trust_v1 c id request checked paired responded h).1 ≡ h))
  trust_v1-Guards = go (verify_pairing_request c request) refl
    where
      Goal : Type 0
      Goal =
          Guards c request checked h
          ⊎ ((is_ok (trust_v1 c id request checked paired responded h).0 ≡ false)
              × ((trust_v1 c id request checked paired responded h).1 ≡ h))

      go : (r : Result String Bool) → verify_pairing_request c request ≡ r → Goal
      go (err m) f = inr (unfold trust_v1 in rw f (refl, refl))
      go (ok false) f = inr (unfold trust_v1 in rw f (refl, refl))
      go (ok true) f = elim (Bool-cases (eqb h.pairing_token.value 0)) [
        | inl a ↦ inr (unfold trust_v1 in rw (f, a) (refl, refl))
        | inr a ↦ elim (Bool-cases (leb_ℤ checked h.pairing_token.expires_at_ms)) [
          | inr b ↦ inr (unfold trust_v1 in rw (f, a, b) (refl, refl))
          | inl b ↦ elim (Bool-cases (eqb request.pairing_request.token h.pairing_token.value)) [
            | inr e ↦ inr (unfold trust_v1 in rw (f, a, b, e) (refl, refl))
            | inl e ↦ inl (record { signed = f; requested = a; in_time = b; matches = e })
          ]
        ]
      ]

-- Where the two maps and the table of clients stand after a client was paired with a key.
pub record Paired (id : String) (paired : ℤ) (key : List ℕ) (h q : Hub) : Type 0 where
  pub client : lookup id q.clients ≡ some (record { app_instance_id = id; paired_at_ms = paired })
  pub crypt_key : lookup id q.client_crypt_keys ≡ some key
  pub row :
      lookup id q.database.paired_clients
      ≡ some (saved paired key (lookup id h.database.paired_clients))
  pub others :
      (other : String)
      → id ≢ other
      → (lookup other q.clients ≡ lookup other h.clients)
        × (lookup other q.client_crypt_keys ≡ lookup other h.client_crypt_keys)
        × (lookup other q.database.paired_clients ≡ lookup other h.database.paired_clients)

-- `remember`, and the statement that writes the row.
abbrev pub recorded : String → ℤ → List ℕ → Hub → Hub
recorded id paired key h = record (remember id paired key h) {
  database = record (started h.database) {
    paired_clients =
        insert id (saved paired key (lookup id h.database.paired_clients))
          h.database.paired_clients;
  };
}

pub recorded-Paired :
    (id : String) (paired : ℤ) (key : List ℕ) (h : Hub)
    → Paired id paired key h (recorded id paired key h)
recorded-Paired id paired key h = record {
  client = lookup-insert_self id _ h.clients;
  crypt_key = lookup-insert_self id key h.client_crypt_keys;
  row = lookup-insert_self id _ h.database.paired_clients;
  others = λ other ne. (
    lookup-insert_ne id other _ h.clients ne,
    lookup-insert_ne id other key h.client_crypt_keys ne,
    lookup-insert_ne id other _ h.database.paired_clients ne,
  );
}

module _ (c : Crypto) (id : String) (request : TrustRequest) (checked paired responded : ℤ)
    (h : Hub) where
  module _ (g : Guards c request checked h) (key : List ℕ)
      (decoded : client_crypt_public_key c request ≡ ok key) where
    pub trust-recorded :
        fault h.database.faults ≡ none
        → trust_v1 c id request checked paired responded h
          ≡ (trusted c h.keys responded, recorded id paired key h)
    unfolding trust_v1 save_client execute
    trust-recorded e = rw (g.signed, g.requested, g.in_time, g.matches, decoded) (rw e refl)

    -- When the statement that saves a client fails, the caller gets its error, and the client is
    -- paired in memory all the same, with a row in the table only if there was one.
    pub trust_v1-unsaved :
        (m : String)
        → fault h.database.faults ≡ some m
        → ((trust_v1 c id request checked paired responded h).0 ≡ err m)
          × (is_paired id (trust_v1 c id request checked paired responded h).1 ≡ true)
          × ((trust_v1 c id request checked paired responded h).1.database.paired_clients
              ≡ h.database.paired_clients)
    unfolding trust_v1 save_client execute is_paired
    trust_v1-unsaved m e =
        rw (g.signed, g.requested, g.in_time, g.matches, decoded)
          (rw e (refl, ap is_some (lookup-insert_self id _ h.clients), refl))

  -- A request that is accepted was signed by the key that it names, within the time of a token that
  -- was issued and that it gives; its client is paired with the key of the request, in memory and
  -- in the table, and every other client is as before.
  pub trust_v1-Paired :
      (response : TrustResponse) (q : Hub)
      → trust_v1 c id request checked paired responded h ≡ (ok response, q)
      → Guards c request checked h
        × ((key : List ℕ) × (client_crypt_public_key c request ≡ ok key) × Paired id paired key h q)
  trust_v1-Paired response q e = elim (trust_v1-Guards c id request checked paired responded h) [
    | inr refused ↦ absurd (cc (refused.0, e))
    | inl g ↦ go g (client_crypt_public_key c request) (fault h.database.faults) refl refl
  ]
    where
      go :
          Guards c request checked h
          → (r : Result String (List ℕ)) (o : Option String) → client_crypt_public_key c request ≡ r
          → fault h.database.faults ≡ o
          → Guards c request checked h
            × ((key : List ℕ) × (client_crypt_public_key c request ≡ ok key)
                × Paired id paired key h q)
      go g (ok key) none f k =
          let same : recorded id paired key h ≡ q =
            ap (λ (p : Result String TrustResponse × Hub). p.1)
              (sym (trust-recorded g key f k) ∙ e) in
          (g, (key, f, subst (Paired id paired key h) same (recorded-Paired id paired key h)))
      go g (ok key) (some m) f k = absurd (cc ((trust_v1-unsaved g key f m k).0, e))
      go g (err m) o f k =
          unfold trust_v1 in absurd (cc (rw (g.signed, g.requested, g.in_time, g.matches, f) at e))
