-- ===== src/Hub/Reports.antt =====
-- hub.rs: what a broadcast reports, and that it leaves the hub alone.
use crosspaste_server.Codec.Value.{Value}
use crosspaste_server.Hub.Broadcast.{BroadcastReport}
use crosspaste_server.Hub.State.{Hub}
use crosspaste_server.Hub.World.{PeerReply, World}
use crosspaste_server.Prelude.{
  Bool, List, Result, String, [], err, false, if◌then◌else◌, is_ok, leb, ltb, nat_Comparable, ok,
  pair_Comparable, string_Comparable, true, ℕ, ◌&&◌, ◌+◌, ◌==◌, ◌>>=◌, ◌∷◌, ◌≡◌,
}
use crosspaste_server.Prelude.Int.{int_Comparable}
use crosspaste_server.Prelude.Keeps.{Keeps}
use crosspaste_server.Prelude.Map.{Map}
use crosspaste_server.Prelude.Text.{codes_Comparable}
use crosspaste_server.Secure.Messages.{Crypto}
use crosspaste_server.SyncInfo.Info.{SyncInfo}

abbrev Counts : BroadcastReport → ℕ → BroadcastReport → Type 0
Counts report n done =
    (done.attempted ≡ report.attempted)
    × (done.delivered + done.failed ≡ report.delivered + report.failed + n)

-- A reply that says that the request was done.
abbrev pub success : Result String PeerReply → ℕ
success (ok reply) = if leb 200 reply.status && ltb reply.status 300 then 1 else 0
success (err e) = 0

abbrev pub successes : List (Result String PeerReply) → ℕ
successes [] = 0
successes (reply ∷ replies) = success reply + successes replies

-- How many clients there are with a SyncInfo, without the sender.
abbrev pub others : String → Map String SyncInfo → ℕ
others sender [] = 0
others sender ((id, info) ∷ rest) =
    if id == sender then others sender rest else 1 + others sender rest

abbrev one_if : Bool → ℕ
one_if true = 1
one_if false = 0

-- What is done is what was answered so.
abbrev Answers : Result String Unit × World → World → Type 0
Answers o w = one_if (is_ok o.0) + successes o.1.replies ≡ successes w.replies

module _ (c : Crypto) (h : Hub) where
  abbrev HasHub : World → Type 0
  HasHub w = w.hub ≡ h
