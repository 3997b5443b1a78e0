-- ===== src/Hub/Durable/Rows.antt =====
-- hub.rs and database.rs: what a row of `paired_clients` says of a client.
use crosspaste_server.Codec.{JsonText}
use crosspaste_server.Database.Clients.{enabled_clients, stored}
use crosspaste_server.Database.Tables.{ClientRow}
use crosspaste_server.Hub.Restart.{admit, admit_all}
use crosspaste_server.Hub.State.{Hub, PairedClient}
use crosspaste_server.Prelude.{
  Bool-cases, List, Option, String, [], ap, arith, false, if◌then◌else◌, inl, inr, nat_Comparable,
  none, pair_Comparable, refl, some, string_Comparable, true, ℕ, ◌==◌, ◌∙◌, ◌∷◌, ◌≡◌,
}
use crosspaste_server.Prelude.Int.{int_Comparable}
use crosspaste_server.Prelude.Map.{
  Map, insert, lookup, lookup-insert, lookup-without, lookup-without_self, without,
}
use crosspaste_server.SyncInfo.Info.{SyncInfo}

-- Each key once, as a primary key has it.
abbrev pub Distinct : Map String ClientRow → Type 0
Distinct [] = Unit
Distinct ((id, row) ∷ m) = (lookup id m ≡ none) × Distinct m

pub Distinct-without :
    (id : String) (m : Map String ClientRow) → Distinct m → Distinct (without id m)
unfolding without
Distinct-without id [] h = tt
Distinct-without id ((j, row) ∷ m) h = elim (Bool-cases (j == id)) [
  | inl hit ↦ rw hit (Distinct-without id m h.1)
  | inr miss ↦ rw miss (rw (lookup-without id j m) (ground (arith, h.0)), Distinct-without id m h.1)
]

pub Distinct-insert :
    (id : String) (row : ClientRow) (m : Map String ClientRow)
    → Distinct m
    → Distinct (insert id row m)
unfolding insert
Distinct-insert id row m h = (lookup-without_self id m, Distinct-without id m h)

-- The client and the key that a row stands for, or else what was there.
abbrev pub shown_client : String → Option ClientRow → Option PairedClient → Option PairedClient
shown_client id none old = old
shown_client id (some row) old =
    if row.enabled
    then some (record { app_instance_id = id; paired_at_ms = row.client_paired_at_ms })
    else old

abbrev pub shown_key : Option ClientRow → Option (List ℕ) → Option (List ℕ)
shown_key none old = old
shown_key (some row) old = if row.enabled then some row.client_key else old

-- A hub shows the rows, over what `h` shows.
pub record Shows (id : String) (o : Option ClientRow) (h q : Hub) : Type 0 where
  pub client : lookup id q.clients ≡ shown_client id o (lookup id h.clients)
  pub key : lookup id q.client_crypt_keys ≡ shown_key o (lookup id h.client_crypt_keys)

-- What a table shows with one row more, before the others or in their place.
skipped :
    (id i : String) (row : ClientRow) (o : Option ClientRow) (h q : Hub)
    → row.enabled ≡ false
    → (i ≡ id → o ≡ none)
    → Shows id o h q
    → Shows id (if i == id then some row else o) h q
skipped id i row o h q off none_there k = elim (Bool-cases (i == id)) [
  | inr miss ↦ rw miss k
  | inl hit ↦
      let none_here : o ≡ none = none_there ((string_Comparable.same_iff i id).0 hit) in
      let here : Shows id none h q = rw none_here at k in
      rw hit (record { client = rw off here.client; key = rw off here.key })
]

added :
    (id i : String) (row : ClientRow) (o : Option ClientRow) (j : JsonText SyncInfo) (h q : Hub)
    → row.enabled ≡ true
    → (i ≡ id → o ≡ none)
    → Shows id o (admit j (stored (i, row)) h) q
    → Shows id (if i == id then some row else o) h q
unfolding admit
added id i row o j h q on none_there k = elim (Bool-cases (i == id)) [
  | inr miss ↦ rw miss (record {
    client = k.client ∙ ap (shown_client id o) (rw (lookup-insert i id _ h.clients, miss) refl);
    key =
        k.key
        ∙ ap (shown_key o) (rw (lookup-insert i id row.client_key h.client_crypt_keys, miss) refl);
  })
  | inl hit ↦
      let same : i ≡ id = (string_Comparable.same_iff i id).0 hit in
      let none_here : o ≡ none = none_there same in
      let here : Shows id none (admit j (stored (i, row)) h) q = rw none_here at k in
      rw hit (record {
        client = rw on (here.client ∙ rw (lookup-insert i id _ h.clients, hit) (rw same refl));
        key =
            rw on (here.key ∙ rw (lookup-insert i id row.client_key h.client_crypt_keys, hit) refl);
      })
]

enabled_on :
    (i : String) (row : ClientRow) (m : Map String ClientRow)
    → row.enabled ≡ true
    → enabled_clients ((i, row) ∷ m) ≡ stored (i, row) ∷ enabled_clients m
unfolding enabled_clients
enabled_on i row m on = simp on

enabled_off :
    (i : String) (row : ClientRow) (m : Map String ClientRow)
    → row.enabled ≡ false
    → enabled_clients ((i, row) ∷ m) ≡ enabled_clients m
unfolding enabled_clients
enabled_off i row m off = simp off

-- `admit_all` shows the enabled rows of a table.
pub admit_all-Shows :
    (j : JsonText SyncInfo) (m : Map String ClientRow) (h : Hub) (id : String)
    → Distinct m
    → Shows id (lookup id m) h (admit_all j (enabled_clients m) h)
unfolding admit_all lookup
admit_all-Shows j [] h id d = unfold enabled_clients in record { client = refl; key = refl }
admit_all-Shows j ((i, row) ∷ m) h id d = elim (Bool-cases row.enabled) [
  | inr off ↦
      rw (enabled_off i row m off)
        (skipped id i row (lookup id m) h _ off absent (admit_all-Shows j m h id d.1))
  | inl on ↦ rw (enabled_on i row m on) (
      added id i row (lookup id m) j h _ on absent
        (admit_all-Shows j m (admit j (stored (i, row)) h) id d.1))
]
  where
    absent : i ≡ id → lookup id m ≡ none
    absent e = rw (← e) d.0
