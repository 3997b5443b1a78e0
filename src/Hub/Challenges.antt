-- ===== src/Hub/Challenges.antt =====
-- hub.rs: the codes that wait for a client, for an administrator to read.
use crosspaste_server.Hub.State.{Hub, PairingToken, PendingKeyExchange}
use crosspaste_server.Prelude.{
  List, String, [], eqb, if◌then◌else◌, keep_if, map, not, unwrap_or, ℕ, ◌&&◌, ◌++◌, ◌∷◌,
}
use crosspaste_server.Prelude.Formats.{six_digits}
use crosspaste_server.Prelude.Int.{leb_ℤ, ltb_ℤ, ℤ}

pub record PairingChallenge : Type 0 where
  pub client_id : String
  pub code : List ℕ
  pub kind : String
  pub expires_at_ms : ℤ

abbrev pub challenge_of : String × PendingKeyExchange → PairingChallenge
challenge_of (id, pending) = record {
  client_id = id;
  code = six_digits pending.sas;
  kind = "sas-v2";
  expires_at_ms = pending.expires_at_ms;
}

unfoldable pub token_challenges : PairingToken → ℤ → List PairingChallenge
unfolding six_digits
token_challenges token now =
    if not (eqb token.value 0) && leb_ℤ now token.expires_at_ms
    then record {
      client_id = unwrap_or "扫码配对" token.client_id;
      code = six_digits token.value;
      kind = "token-v1";
      expires_at_ms = token.expires_at_ms;
    }
      ∷ []
    else []

-- A stable sort, the latest end first.
unfoldable pub insert_by_end : PairingChallenge → List PairingChallenge → List PairingChallenge
insert_by_end c [] = c ∷ []
insert_by_end c (x ∷ xs) =
    let rest = insert_by_end c xs in
    if ltb_ℤ c.expires_at_ms x.expires_at_ms then x ∷ rest else c ∷ x ∷ xs

unfoldable pub sort_by_end : List PairingChallenge → List PairingChallenge
unfolding insert_by_end
sort_by_end [] = []
sort_by_end (c ∷ cs) = insert_by_end c (sort_by_end cs)

unfoldable pub pairing_challenges : ℤ → Hub → List PairingChallenge
unfolding token_challenges sort_by_end
pairing_challenges now h = sort_by_end (
    map challenge_of
      (keep_if (λ (id, pending). leb_ℤ now pending.expires_at_ms) h.pending_key_exchanges)
    ++ token_challenges h.pairing_token now)
