-- ===== src/Hub/Durable/Steps.antt =====
-- hub.rs: which clients the database has after a call, while no statement fails.
use crosspaste_server.Database.Clients.{saved, update_row}
use crosspaste_server.Database.Tables.{ClientRow, fault}
use crosspaste_server.Hub.Confirm.{confirm-recorded, confirm_trust_v2-Confirms}
use crosspaste_server.Hub.Durable.Rows.{
  Distinct, Distinct-insert, Distinct-without, shown_client, shown_key,
}
use crosspaste_server.Hub.Pairing.{confirm_trust_v2, trust_v1}
use crosspaste_server.Hub.State.{Hub, PairedClient}
use crosspaste_server.Hub.Trust.{Guards, recorded, trust-recorded, trust_v1-Guards}
use crosspaste_server.Prelude.{
  Bool-cases, List, Option, Result, String, [], ap, arith, err, inl, inr, nat_Comparable, none, ok,
  pair_Comparable, refl, some, string_Comparable, subst, sym, true, ℕ, ◌==◌, ◌∙◌, ◌≡◌,
}
use crosspaste_server.Prelude.Int.{int_Comparable, ℤ}
use crosspaste_server.Prelude.Map.{Map, insert, lookup, lookup-insert, lookup-without, without}
use crosspaste_server.Secure.Messages.{
  Crypto, TrustConfirmRequest, TrustConfirmResponse, TrustRequest, TrustResponse,
}
use crosspaste_server.Secure.Verify.{client_crypt_public_key}

-- The rows, and what the hub shows of them.
pub record Ledger : Type 0 where
  pub fault_list : List (Option String)
  pub row_map : Map String ClientRow
  pub clients_seen : Map String PairedClient
  pub keys_seen : Map String (List ℕ)

abbrev pub ledger : Hub → Ledger
ledger h = record {
  fault_list = h.database.faults;
  row_map = h.database.paired_clients;
  clients_seen = h.clients;
  keys_seen = h.client_crypt_keys;
}

-- No statement fails, and the hub knows exactly the enabled clients of the table, with their keys.
pub record Durable (l : Ledger) : Type 0 where
  pub answers : l.fault_list ≡ []
  pub distinct : Distinct l.row_map
  pub client : (id : String) → lookup id l.clients_seen ≡ shown_client id (lookup id l.row_map) none
  pub key : (id : String) → lookup id l.keys_seen ≡ shown_key (lookup id l.row_map) none

recorded-Durable :
    (id : String) (paired : ℤ) (key : List ℕ) (h : Hub)
    → Durable (ledger h)
    → Durable (ledger (recorded id paired key h))
unfolding saved
recorded-Durable id paired key h k = record {
  answers = rw k.answers refl;
  distinct = Distinct-insert id _ h.database.paired_clients k.distinct;
  client = λ other.
      rw (lookup-insert id other _ h.clients, lookup-insert id other _ h.database.paired_clients)
        (elim (Bool-cases (id == other)) [
          | inl hit ↦ rw hit (rw ((string_Comparable.same_iff id other).0 hit) refl)
          | inr miss ↦ rw miss (k.client other)
        ]);
  key = λ other.
      rw
        (
          lookup-insert id other key h.client_crypt_keys,
          lookup-insert id other _ h.database.paired_clients,
        )
        (elim (Bool-cases (id == other)) [
          | inl hit ↦ rw hit refl
          | inr miss ↦ rw miss (k.key other)
        ]);
}

-- The client leaves the maps and the table.
abbrev pub removed : String → Ledger → Ledger
removed id l = record l {
  row_map = without id l.row_map;
  clients_seen = without id l.clients_seen;
  keys_seen = without id l.keys_seen;
}

pub removed-Durable : (id : String) (l : Ledger) → Durable l → Durable (removed id l)
removed-Durable id l k = record {
  answers = k.answers;
  distinct = Distinct-without id l.row_map k.distinct;
  client = λ other.
      rw (lookup-without id other l.clients_seen, lookup-without id other l.row_map)
        (elim (Bool-cases (id == other)) [
          | inl hit ↦ rw hit refl
          | inr miss ↦ rw miss (k.client other)
        ]);
  key = λ other.
      rw (lookup-without id other l.keys_seen, lookup-without id other l.row_map)
        (elim (Bool-cases (id == other)) [
          | inl hit ↦ rw hit refl
          | inr miss ↦ rw miss (k.key other)
        ]);
}

-- An update that leaves the client, its key and whether it is enabled alone.
pub record Keeps (f : ClientRow → ClientRow) : Type 0 where
  pub same_client :
      (id : String) (row : ClientRow)
      → shown_client id (some (f row)) none ≡ shown_client id (some row) none
  pub same_key : (row : ClientRow) → shown_key (some (f row)) none ≡ shown_key (some row) none

update_row-absent :
    (id : String) (f : ClientRow → ClientRow) (m : Map String ClientRow)
    → lookup id m ≡ none
    → update_row id f m ≡ m
unfolding update_row
update_row-absent id f m e = ground (arith, e)

update_row-present :
    (id : String) (f : ClientRow → ClientRow) (m : Map String ClientRow) (row : ClientRow)
    → lookup id m ≡ some row
    → update_row id f m ≡ insert id (f row) m
unfolding update_row
update_row-present id f m row e = ground (arith, e)

pub updated-Durable :
    (id : String) (f : ClientRow → ClientRow) (l : Ledger)
    → Keeps f
    → Durable l
    → Durable (record l { row_map = update_row id f l.row_map })
updated-Durable id f l keeps_client k = go (lookup id l.row_map) refl
  where
    Goal : Map String ClientRow → Type 0
    Goal m = Durable (record l { row_map = m })

    go : (o : Option ClientRow) → lookup id l.row_map ≡ o → Goal (update_row id f l.row_map)
    go none e =
        subst Goal (sym (update_row-absent id f l.row_map e))
          (record { answers = k.answers; distinct = k.distinct; client = k.client; key = k.key })
    go (some row) e = subst Goal (sym (update_row-present id f l.row_map row e)) (record {
      answers = k.answers;
      distinct = Distinct-insert id (f row) l.row_map k.distinct;
      client = λ other.
          rw (lookup-insert id other (f row) l.row_map) (elim (Bool-cases (id == other)) [
            | inl hit ↦
                rw hit (k.client other ∙ here other hit ∙ sym (keeps_client.same_client other row))
            | inr miss ↦ rw miss (k.client other)
          ]);
      key = λ other.
          rw (lookup-insert id other (f row) l.row_map) (elim (Bool-cases (id == other)) [
            | inl hit ↦ rw hit (
                k.key other
                ∙ ap (λ o. shown_key o none) (at other hit)
                ∙ sym (keeps_client.same_key row))
            | inr miss ↦ rw miss (k.key other)
          ]);
    })
      where
        at : (other : String) → (id == other) ≡ true → lookup other l.row_map ≡ some row
        at other hit = rw (← (string_Comparable.same_iff id other).0 hit) e

        here :
            (other : String)
            → (id == other) ≡ true
            → shown_client other (lookup other l.row_map) none ≡ shown_client other (some row) none
        here other hit = ap (λ o. shown_client other o none) (at other hit)

module _ (c : Crypto) (id : String) (checked paired responded : ℤ) (h : Hub)
    (k : Durable (ledger h)) where
  no_fault : fault h.database.faults ≡ none
  no_fault = ap fault k.answers

  pub trusts-Durable :
      (request : TrustRequest)
      → Durable (ledger (trust_v1 c id request checked paired responded h).1)
  trusts-Durable request = elim (trust_v1-Guards c id request checked paired responded h) [
    | inr refused ↦ subst (λ x. Durable (ledger x)) (sym refused.1) k
    | inl g ↦ go g (client_crypt_public_key c request) refl
  ]
    where
      go :
          Guards c request checked h
          → (r : Result String (List ℕ)) → client_crypt_public_key c request ≡ r
          → Durable (ledger (trust_v1 c id request checked paired responded h).1)
      go g (ok key) f =
          subst (λ (x : Result String TrustResponse × Hub). Durable (ledger x.1))
            (sym (trust-recorded c id request checked paired responded h g key f no_fault))
            (recorded-Durable id paired key h k)
      go g (err m) f = subst (λ x. Durable (ledger x)) (sym (unkeyed g m f)) k
        where
          unkeyed :
              Guards c request checked h
              → (m : String) → client_crypt_public_key c request ≡ err m
              → (trust_v1 c id request checked paired responded h).1 ≡ h
          unkeyed g m f =
              unfold trust_v1 in rw (g.signed, g.requested, g.in_time, g.matches, f) refl

  pub confirms-Durable :
      (request : TrustConfirmRequest)
      → Durable (ledger (confirm_trust_v2 c id request checked paired responded h).1)
  confirms-Durable request =
      elim (confirm_trust_v2-Confirms c id request checked paired responded h) [
        | inr refused ↦ subst (λ x. Durable (ledger x)) (sym refused.1) k
        | inl g ↦
            subst (λ (x : Result String TrustConfirmResponse × Hub). Durable (ledger x.1))
              (sym (confirm-recorded c id request checked paired responded h g no_fault))
              (recorded-Durable id paired g.pending.crypt_public_key h k)
      ]
