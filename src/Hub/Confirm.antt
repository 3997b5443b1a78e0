-- ===== src/Hub/Confirm.antt =====
-- hub.rs: the second way to pair: an exchange of keys, and the confirmation of it.
use crosspaste_server.Database.Clients.{save_client}
use crosspaste_server.Database.Tables.{execute, fault, started}
use crosspaste_server.Hub.Pairing.{confirm_trust_v2, remember}
use crosspaste_server.Hub.State.{Hub, PendingKeyExchange}
use crosspaste_server.Hub.Trust.{Paired, recorded, recorded-Paired}
use crosspaste_server.Prelude.{
  Bool, List, Option, Result, String, ap, err, false, inl, inr, is_ok, nat_Comparable, none, ok,
  pair_Comparable, refl, some, string_Comparable, subst, sym, true, ℕ, ◌∙◌, ◌≡◌, ◌⊎◌,
}
use crosspaste_server.Prelude.Int.{int_Comparable, leb_ℤ, ℤ}
use crosspaste_server.Prelude.Map.{lookup, lookup-without_self, without}
use crosspaste_server.Secure.Messages.{Crypto, TrustConfirmRequest, TrustConfirmResponse}
use crosspaste_server.Secure.Verify.{build_trust_confirm_response, verify_trust_confirm}

module _ (c : Crypto) where
  -- What a confirmation has to meet.
  pub record Confirms (id : String) (request : TrustConfirmRequest) (checked : ℤ) (h : Hub)
      : Type 0 where
    pub pending : PendingKeyExchange
    pub found : lookup id h.pending_key_exchanges ≡ some pending
    pub in_time : leb_ℤ checked pending.expires_at_ms ≡ true
    pub signed : verify_trust_confirm c pending.sign_public_key request ≡ ok true

  -- Without an exchange of the client, or later than it lasts, nothing is confirmed.
  module _ (id : String) (request : TrustConfirmRequest) (checked paired responded : ℤ)
      (h : Hub) where
    abbrev pub result : Result String TrustConfirmResponse × Hub
    result = confirm_trust_v2 c id request checked paired responded h

    -- A confirmation either meets all the conditions, or is refused with an error that leaves the
    -- hub as it was, the exchange too.
    pub confirm_trust_v2-Confirms :
        Confirms id request checked h ⊎ ((is_ok result.0 ≡ false) × (result.1 ≡ h))
    confirm_trust_v2-Confirms = go (lookup id h.pending_key_exchanges) refl
      where
        Goal : Type 0
        Goal = Confirms id request checked h ⊎ ((is_ok result.0 ≡ false) × (result.1 ≡ h))

        verified :
            (pending : PendingKeyExchange)
            → lookup id h.pending_key_exchanges ≡ some pending
            → leb_ℤ checked pending.expires_at_ms ≡ true
            → (r : Result String Bool) → verify_trust_confirm c pending.sign_public_key request ≡ r
            → Goal
        verified pending e in_time (ok true) f =
            inl (record { pending = pending; found = e; in_time = in_time; signed = f })
        verified pending e in_time (ok false) f =
            inr (unfold confirm_trust_v2 in rw e (rw (in_time, f) (refl, refl)))
        verified pending e in_time (err m) f =
            inr (unfold confirm_trust_v2 in rw e (rw (in_time, f) (refl, refl)))

        timed :
            (pending : PendingKeyExchange)
            → lookup id h.pending_key_exchanges ≡ some pending
            → (b : Bool) → leb_ℤ checked pending.expires_at_ms ≡ b
            → Goal
        timed pending e true in_time =
            verified pending e in_time (verify_trust_confirm c pending.sign_public_key request) refl
        timed pending e false late = inr (unfold confirm_trust_v2 in rw e (rw late (refl, refl)))

        go : (o : Option PendingKeyExchange) → lookup id h.pending_key_exchanges ≡ o → Goal
        go none e = inr (unfold confirm_trust_v2 in rw e (refl, refl))
        go (some pending) e = timed pending e (leb_ℤ checked pending.expires_at_ms) refl

    abbrev pub spent : Hub
    spent = record h { pending_key_exchanges = without id h.pending_key_exchanges }

    pub confirm-recorded :
        (g : Confirms id request checked h)
        → fault h.database.faults ≡ none
        → result ≡ (
          ok (build_trust_confirm_response c h.keys responded),
          recorded id paired g.pending.crypt_public_key spent,
        )
    unfolding confirm_trust_v2 save_client execute
    confirm-recorded g e = rw g.found (rw (g.in_time, g.signed, e) refl)

    confirm-unsaved :
        (g : Confirms id request checked h) (m : String)
        → fault h.database.faults ≡ some m
        → result ≡ (
          err m,
          record (remember id paired g.pending.crypt_public_key spent) {
            database = started h.database;
          },
        )
    unfolding confirm_trust_v2 save_client execute
    confirm-unsaved g m e = rw g.found (rw (g.in_time, g.signed, e) refl)

    pub after : (key : List ℕ) → Paired id paired key h (recorded id paired key spent)
    after key =
        let p = recorded-Paired id paired key spent in
        record { client = p.client; crypt_key = p.crypt_key; row = p.row; others = p.others }

    -- A confirmation that is accepted came in time and was signed by the key of the exchange; the
    -- client is paired with the key that it gave in the exchange, and the exchange is spent: every
    -- later confirmation is refused, whatever it says, and changes nothing.
    pub confirm_trust_v2-Paired :
        (response : TrustConfirmResponse) (q : Hub)
        → result ≡ (ok response, q)
        → ((g : Confirms id request checked h) × Paired id paired g.pending.crypt_public_key h q)
          × ((again : TrustConfirmRequest) (a p r : ℤ)
              → confirm_trust_v2 c id again a p r q ≡ (err "key exchange not found or expired", q))
    confirm_trust_v2-Paired response q e = elim confirm_trust_v2-Confirms [
      | inr refused ↦ absurd (cc (refused.0, e))
      | inl g ↦ go g (fault h.database.faults) refl
    ]
      where
        Goal : Hub → Type 0
        Goal k =
            ((g : Confirms id request checked h) × Paired id paired g.pending.crypt_public_key h k)
            × ((again : TrustConfirmRequest) (a p r : ℤ)
                → confirm_trust_v2 c id again a p r k
                  ≡ (err "key exchange not found or expired", k))

        go :
            Confirms id request checked h
            → (o : Option String) → fault h.database.faults ≡ o
            → Goal q
        go g none f =
            let same : recorded id paired g.pending.crypt_public_key spent ≡ q =
              ap (λ (p : Result String TrustConfirmResponse × Hub). p.1)
                (sym (confirm-recorded g f) ∙ e) in
            subst Goal same (
              (g, after g.pending.crypt_public_key),
              λ again a p r.
                  unfold confirm_trust_v2 in
                  rw (lookup-without_self id h.pending_key_exchanges) refl,
            )
        go g (some m) f = absurd (cc (confirm-unsaved g m f, e))
