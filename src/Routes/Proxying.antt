-- ===== src/Routes/Proxying.antt =====
-- routes.rs: requests that go through to a device, up to the await of their answer.
use crosspaste_server.Auth.{HeaderMap, check_auth}
use crosspaste_server.Codec.{Base64}
use crosspaste_server.Database.Tables.{query}
use crosspaste_server.Prelude.{
  List, Option, Result, String, err, gets, if◌then◌else◌, leb, length, lift, map_err, none, ok, ℕ,
  ◌>>=◌, ◌>>◌,
}
use crosspaste_server.Prelude.Chars.{append}
use crosspaste_server.Prelude.Int.{ℤ}
use crosspaste_server.Prelude.Text.{codes, starts_with}
use crosspaste_server.Proxy.{
  Request, path_and_query, proxy_to_device, require_source_app_instance, resolve_target,
}
use crosspaste_server.Registry.Requests.{Call}
use crosspaste_server.RelayError.{bad_request}
use crosspaste_server.Routes.Guards.{Handles, failed}
use crosspaste_server.Tunnel.State.{on_registry}

unfoldable pub normalize_path : String → Option String → String
normalize_path path query =
    path_and_query (if starts_with (codes "/") (codes path) then path else append "/" path) query

-- The request as `proxy_reconstructed` builds it; `parse_uri` reads an address as path and query.
pub record Reconstructed : Type 0 where
  pub target : String
  pub method : String
  pub address : String
  pub headers : HeaderMap
  pub body : List ℕ

abbrev rebuilt : Reconstructed → String × Option String → Request
rebuilt q (path, query) = record {
  method = q.method;
  path = path;
  query = query;
  headers = q.headers;
  read_body = λ limit. if leb (length q.body) limit then ok q.body else err "length limit exceeded";
}

-- What is read on the way: the new UUID of the request and two times.
pub record Stamp : Type 0 where
  pub request_id : String
  pub now : ℤ
  pub at : ℕ

module _ (b : Base64) (parse_uri : String → Result String (String × Option String)) where
  unfoldable pub proxy_reconstructed : Reconstructed → Stamp → Handles Call
  unfolding proxy_to_device
  proxy_reconstructed q t = do
    uri ← lift (failed (parse_uri q.address))
    limit ← gets (λ s. s.config.max_body_bytes)
    on_registry (proxy_to_device b q.target (rebuilt q uri) limit t.request_id t.now t.at)

  abbrev read_whole : Request → Handles (List ℕ)
  read_whole req s = (
    map_err (λ e. bad_request (append "read body: " e)) (req.read_body s.config.max_body_bytes),
    s,
  )

  abbrev forward : String → String → Request → Stamp → Handles Call
  forward target address req t = do
    body ← read_whole req
    proxy_reconstructed
        (record {
          target = target;
          method = req.method;
          address = address;
          headers = req.headers;
          body = body;
        })
        t

  abbrev authorised : HeaderMap → Handles Unit
  authorised headers s = (check_auth s.config headers, s)

  unfoldable pub proxy_path : (target path : String) → Request → Stamp → Handles Call
  unfolding check_auth normalize_path proxy_reconstructed
  proxy_path target path req t = do
    authorised req.headers
    forward target (normalize_path path req.query) req t

  unfoldable pub proxy_header_target : (path : String) → Request → Stamp → Handles Call
  unfolding check_auth resolve_target require_source_app_instance normalize_path proxy_reconstructed
  proxy_header_target path req t = do
    authorised req.headers
    target ← lift (resolve_target req.headers none)
    source ← lift (require_source_app_instance req.headers)
    forward target (normalize_path path req.query) req t

  -- Without a check of the token.
  unfoldable pub proxy_original_path : Request → Stamp → Handles Call
  unfolding resolve_target require_source_app_instance proxy_reconstructed
  proxy_original_path req t = do
    target ← lift (resolve_target req.headers none)
    source ← lift (require_source_app_instance req.headers)
    forward target (path_and_query req.path req.query) req t
