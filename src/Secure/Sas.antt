-- ===== src/Secure/Sas.antt =====
-- secure.rs: the six-digit code that both sides of a key exchange compute.
use crosspaste_server.Prelude.{
  List, arith, if◌then◌else◌, take, unwrap_or, ℕ, ◌%◌, ◌++◌, ◌<◌, ◌^◌, ◌≡◌,
}
use crosspaste_server.Prelude.Bytes.{from_be_bytes, le_bytes, le_bytes_antisymm, le_bytes_total}
use crosspaste_server.Secure.Messages.{Crypto}

-- The first four bytes as a word. A digest has 32 bytes, so there are four.
unfoldable pub word_of : List ℕ → ℕ
word_of hash = unwrap_or 0 (from_be_bytes (take 4 hash))

module _ (c : Crypto) where
  unfoldable pub compute_sas : (local_public_key remote_public_key : List ℕ) → ℕ
  unfolding word_of
  compute_sas local remote =
      let hash =
        if le_bytes local remote then c.sha256 (local ++ remote) else c.sha256 (remote ++ local) in
      word_of hash % 2 ^ 31 % 1_000_000

  -- The code has at most six digits, and the two sides compute the same one, each with its own key first.
  pub compute_sas_agrees :
      (local remote : List ℕ)
      → (compute_sas local remote ≡ compute_sas remote local)
        × (compute_sas local remote < 1_000_000)
  unfolding compute_sas
  compute_sas_agrees local remote = (agree, omega arith)
    where
      agree : compute_sas local remote ≡ compute_sas remote local
      agree = ground (
        arith,
        le_bytes_total local remote,
        le_bytes_total remote local,
        le_bytes_antisymm local remote,
      )
