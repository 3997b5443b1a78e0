-- ===== src/Hub/Exchange.antt =====
-- hub.rs: an exchange of keys leads to a pairing.
mod Tests
use crosspaste_server.Database.Tables.{fault}
use crosspaste_server.Hub.Confirm.{Confirms, after, confirm-recorded}
use crosspaste_server.Hub.Pairing.{confirm_trust_v2, exchange_keys_v2}
use crosspaste_server.Hub.State.{Hub, PendingKeyExchange, pairing_token_ttl_ms}
use crosspaste_server.Hub.Trust.{Paired}
use crosspaste_server.Prelude.{
  List, Result, String, ap, arith, err, is_ok, nat_Comparable, none, ok, pair_Comparable, refl,
  some, string_Comparable, subst, sym, true, ℕ, ◌≡◌,
}
use crosspaste_server.Prelude.Int.{int_Comparable, leb_ℤ, pos, ℤ, ◌+ℤ◌}
use crosspaste_server.Prelude.Map.{lookup, lookup-insert_self}
use crosspaste_server.Secure.Messages.{
  Crypto, KeyExchangeRequest, KeyExchangeResponse, TrustConfirmRequest, TrustConfirmResponse,
}
use crosspaste_server.Secure.Verify.{decode_public_key_b64, verify_trust_confirm}

module _ (c : Crypto) (id : String) (request : KeyExchangeRequest) (now responded : ℤ) (h h1 : Hub)
    (response : KeyExchangeResponse) (sas : ℕ)
    (exchanged : exchange_keys_v2 c id request now responded h ≡ (ok (response, sas), h1)) where
  abbrev waiting : List ℕ → PendingKeyExchange
  waiting key = record {
    sign_public_key = request.sign_public_key;
    crypt_public_key = key;
    sas = sas;
    expires_at_ms = now +ℤ pairing_token_ttl_ms;
  }

  waits :
      (key : List ℕ) × (decode_public_key_b64 c request.crypt_public_key ≡ ok key)
      × (lookup id h1.pending_key_exchanges ≡ some (waiting key))
  waits = go (decode_public_key_b64 c request.crypt_public_key) refl
    where
      go :
          (r : Result String (List ℕ))
          → decode_public_key_b64 c request.crypt_public_key ≡ r
          → (key : List ℕ) × (decode_public_key_b64 c request.crypt_public_key ≡ ok key)
            × (lookup id h1.pending_key_exchanges ≡ some (waiting key))
      go (ok key) f = (
        key,
        f,
        unfold exchange_keys_v2 in
            ground
              (arith, exchanged, f, lookup-insert_self id (waiting key) h.pending_key_exchanges),
      )
      go (err m) f = unfold exchange_keys_v2 in absurd (ground (arith, exchanged, f))

  -- After an exchange of keys that the hub accepts, a confirmation that the same key has signed and
  -- that comes within thirty seconds succeeds, if the database answers, and pairs the client with
  -- the key of the exchange.
  pub confirm_trust_v2-exchange_keys_v2 :
      (confirmation : TrustConfirmRequest) (checked paired confirmed : ℤ)
      → leb_ℤ checked (now +ℤ pos 30_000) ≡ true
      → verify_trust_confirm c request.sign_public_key confirmation ≡ ok true
      → fault h1.database.faults ≡ none
      → (key : List ℕ) × (decode_public_key_b64 c request.crypt_public_key ≡ ok key)
        × (is_ok (confirm_trust_v2 c id confirmation checked paired confirmed h1).0 ≡ true)
        × Paired id paired key h1 (confirm_trust_v2 c id confirmation checked paired confirmed h1).1
  confirm_trust_v2-exchange_keys_v2 confirmation checked paired confirmed in_time signed e =
      let (key, f, found) = waits in
      let g : Confirms c id confirmation checked h1 = record {
        pending = waiting key;
        found = found;
        in_time = in_time;
        signed = signed;
      } in
      let done = confirm-recorded c id confirmation checked paired confirmed h1 g e in
      (
        key,
        f,
        ap (λ (p : Result String TrustConfirmResponse × Hub). is_ok p.0) done,
        subst (λ (p : Result String TrustConfirmResponse × Hub). Paired id paired key h1 p.1)
            (sym done) (after c id confirmation checked paired confirmed h1 key),
      )
