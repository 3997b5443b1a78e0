-- ===== src/Hub/World.antt =====
-- hub.rs: the hub with the network around it, for the calls that send requests to clients. A client
-- is a server too: what it answers comes from a list, in the order of the requests.
use crosspaste_server.Hub.State.{Action, Hub}
use crosspaste_server.Hub.Streams.{encrypt_for_client}
use crosspaste_server.Prelude.{
  Bool, Exec, List, Option, Result, String, [], and_then, any, eqb, err, first, gets, if◌then◌else◌,
  leb, lift, ltb, ok, replicate, some, ℕ, ◌&&◌, ◌++◌, ◌>>=◌, ◌∷◌,
}
use crosspaste_server.Prelude.Bytes.{decimal_i64}
use crosspaste_server.Prelude.Text.{codes}
use crosspaste_server.Protocol.{
  header_app_instance_id, header_secure, header_target_app_instance_id,
}
use crosspaste_server.Secure.Messages.{Crypto}
use crosspaste_server.SyncInfo.Info.{SyncInfo}

-- A request that the server sends, with its headers and its body.
pub record PeerRequest : Type 0 where
  pub url : List ℕ
  pub headers : List (String × List ℕ)
  pub body : List ℕ

pub record PeerReply : Type 0 where
  pub status : ℕ
  pub body : List ℕ

-- `replies` are the outcomes of the next requests and `vectors` the next random vectors; `requests`
-- are those that were sent, the last first.
pub record World : Type 0 where
  pub hub : Hub
  pub replies : List (Result String PeerReply)
  pub vectors : List (List ℕ)
  pub requests : List PeerRequest

abbrev pub Sends : Type 0 → Type 0
Sends = Exec World String

abbrev hub_result : {A : Type 0} → Result String A × Hub → World → Result String A × World
hub_result (r, h) w = (r, record w { hub = h })

abbrev pub of_hub : {A : Type 0} → Action A → Sends A
of_hub m w = hub_result (m w.hub) w

abbrev next_reply : List (Result String PeerReply) → Result String PeerReply
next_reply [] = err "connection refused"
next_reply (r ∷ rs) = r

abbrev rest_of : {A : Type 0} → List A → List A
rest_of [] = []
rest_of (x ∷ xs) = xs

-- `client.post(url)...send().await`
unfoldable pub exchange : PeerRequest → Sends PeerReply
exchange request w = (
  next_reply w.replies,
  record w { replies = rest_of w.replies; requests = request ∷ w.requests },
)

abbrev next_vector : List (List ℕ) → List ℕ
next_vector [] = replicate 16 0
next_vector (v ∷ vs) = v

unfoldable pub take_vector : Sends (List ℕ)
take_vector w = (ok (next_vector w.vectors), record w { vectors = rest_of w.vectors })

-- `StatusCode::is_success`
unfoldable pub is_success : ℕ → Bool
is_success status = leb 200 status && ltb status 300

module _ (c : Crypto) where
  -- A body that only this client can read.
  unfoldable pub encrypted_for : String → List ℕ → Sends (List ℕ)
  unfolding take_vector encrypt_for_client
  encrypted_for id plain = do
    iv ← take_vector
    h ← gets (λ w. w.hub)
    lift (encrypt_for_client c id iv plain h)

abbrev bracketed : List ℕ → List ℕ
bracketed host = if any (λ c. eqb c b':') host then codes "[" ++ (host ++ codes "]") else host

unfoldable pub client_base_url : SyncInfo → Option (List ℕ)
client_base_url info =
    and_then
      (λ h. some (
        codes "http://"
        ++ (bracketed (codes h.host_address)
            ++ (codes ":" ++ decimal_i64 info.endpoint_info.port))))
      (first info.endpoint_info.host_info_list)

-- The headers of every request to a client.
abbrev pub addressed : String → String → List (String × List ℕ) → List (String × List ℕ)
addressed server target more =
    (header_app_instance_id, codes server)
    ∷ (header_target_app_instance_id, codes target)
    ∷ (header_secure, codes "1")
    ∷ more

abbrev pub json_type : String × List ℕ
json_type = ("content-type", codes "application/json")
