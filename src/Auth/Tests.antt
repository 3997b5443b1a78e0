-- ===== src/Auth/Tests.antt =====
-- auth.rs: the theorem at a server with a token, and other requests.
use crosspaste_server.Auth.{
  HeaderMap, bearer, check_auth, is_visible, provided, strip_prefix, to_str, token_of, trim,
  trim_end, trim_start,
}
use crosspaste_server.Auth.Bearer.{HasToken, check_auth-bearer, is_plain}
use crosspaste_server.Config.{Config, v4}
use crosspaste_server.Prelude.{
  [], all, err, false, inl, inr, nat_Comparable, none, ok, pair_Comparable, refl, string_Comparable,
  true, ◌++◌, ◌↔◌, ◌∷◌, ◌≡◌,
}
use crosspaste_server.Prelude.Int.{int_Comparable}
use crosspaste_server.Prelude.Map.{lookup}
use crosspaste_server.Prelude.Text.{codes, codes_Comparable, is_whitespace}
use crosspaste_server.Protocol.{header_auth}
use crosspaste_server.RelayError.{unauthorized}

abbrev config : Config
config = record {
  listen = record { ip = v4 0 0 0 0; port = 39445 };
  auth_token = "secret";
  max_body_bytes = 1024;
  device_ttl_secs = 120;
  room_ttl_secs = 600;
  max_inflight = 2;
  request_timeout_secs = 60;
  enable_mdns = false;
  public_host = none;
  network_interface = none;
  server_instance_id = "crosspaste-server";
  server_device_name = "CrossPaste Server";
  server_user_name = "server";
}

abbrev headers : HeaderMap
headers = ("accept", codes "text/html") ∷ ("authorization", codes "Bearer secret") ∷ []

found : HasToken headers (bearer ++ codes "secret")
unfolding lookup
found = inr (refl, refl)

plain : all is_plain (codes "secret") ≡ true
unfolding is_visible is_whitespace
plain = refl

check_auth-bearer_example :
    (check_auth config headers ≡ ok tt) ↔ (codes "secret" ≡ codes config.auth_token)
check_auth-bearer_example =
    check_auth-bearer config (bearer ++ codes "secret") (codes "secret") headers refl refl plain
      (inl refl) found

-- Without the scheme the value is taken as it is, with its spaces.
untrimmed : check_auth config ((header_auth, codes " secret") ∷ []) ≡ err unauthorized
unfolding check_auth provided to_str token_of trim trim_start trim_end strip_prefix is_visible
    is_whitespace lookup
untrimmed = refl

-- The header of the server comes first, right or wrong.
own_first :
    check_auth config ((header_auth, codes "x") ∷ ("authorization", codes "Bearer secret") ∷ [])
    ≡ err unauthorized
unfolding check_auth provided to_str token_of trim trim_start trim_end strip_prefix is_visible
    is_whitespace lookup
own_first = refl
