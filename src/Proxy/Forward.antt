-- ===== src/Proxy/Forward.antt =====
-- proxy.rs: what passes through the proxy, in both directions.
use crosspaste_server.Codec.{Base64}
use crosspaste_server.Database.Tables.{later}
use crosspaste_server.Prelude.{
  Bool, Bool-cases, List, Option, Result, String, [], ap, arith, continue, err, false,
  if◌then◌else◌, inl, inr, is_empty, is_some, map_err, nat_Comparable, none, ok, pair_Comparable,
  refl, some, string_Comparable, subst, sym, true, try, unwrap_or, ℕ, ◌&&◌, ◌==◌, ◌∙◌, ◌∷◌, ◌≡◌,
  ◌⊎◌,
}
use crosspaste_server.Prelude.Chars.{append}
use crosspaste_server.Prelude.Int.{int_Comparable, ℤ}
use crosspaste_server.Prelude.Map.{Map, contains_key, lookup, lookup-insert}
use crosspaste_server.Prelude.Text.{
  ascii_lowercase_of, codes, codes_Comparable, eq_ignore_ascii_case, is_ascii_uppercase, same_codes,
  same_codes_iff, to_ascii_lowercase,
}
use crosspaste_server.Protocol.{
  TunnelFrame, error, hello, hello_ack, http_request, http_response, peer_event, ping, pong,
}
use crosspaste_server.Proxy.{
  HttpLaws, HttpResponse, HttpRules, Request, body_b64_of, decoded, insert_valid, is_hop_by_hop,
  outgoing, path_and_query, proxy_answered, proxy_to_device, response_headers, response_of,
}
use crosspaste_server.Proxy.Headers.{forwarded, lookup-with_target}
use crosspaste_server.Registry.Lifecycle.{IsSent, proxy_send-IsSent}
use crosspaste_server.Registry.Requests.{Awaited, Call, Outgoing, proxy_send}
use crosspaste_server.Registry.State.{Registry}
use crosspaste_server.RelayError.{Error, bad_request, status}

same_codes_refl : (a : List ℕ) → same_codes a a ≡ true
same_codes_refl a = (same_codes_iff a a).1 refl

lowercase_of-lowercase_of :
    (c : ℕ) → ascii_lowercase_of (ascii_lowercase_of c) ≡ ascii_lowercase_of c
unfolding ascii_lowercase_of is_ascii_uppercase
lowercase_of-lowercase_of c = ground arith

to_ascii_lowercase-to_ascii_lowercase :
    (text : List ℕ) → to_ascii_lowercase (to_ascii_lowercase text) ≡ to_ascii_lowercase text
unfolding to_ascii_lowercase
to_ascii_lowercase-to_ascii_lowercase [] = refl
to_ascii_lowercase-to_ascii_lowercase (c ∷ text) =
    rw (lowercase_of-lowercase_of c, to_ascii_lowercase-to_ascii_lowercase text) refl

-- Whether a header passes does not depend on the case of its name.
is_hop_by_hop-lowercase :
    (key name : String)
    → codes name ≡ to_ascii_lowercase (codes key)
    → is_hop_by_hop name ≡ is_hop_by_hop key
unfolding is_hop_by_hop eq_ignore_ascii_case
is_hop_by_hop-lowercase key name e = rw (e, to_ascii_lowercase-to_ascii_lowercase (codes key)) refl

-- The path as the device gets it.
abbrev pub HasPath : Request → String → Type 0
HasPath req path =
    ((req.query ≡ none) × (path ≡ req.path))
    ⊎ ((query : String) × (req.query ≡ some query) × (path ≡ append req.path (append "?" query)))

-- The body as the device gets it.
abbrev pub HasBody : Base64 → List ℕ → Option String → Type 0
HasBody b body text =
    ((body ≡ []) × (text ≡ none)) ⊎ ((is_empty body ≡ false) × (text ≡ some (b.encode body)))

path-HasPath :
    (req : Request) (o : Option String) → req.query ≡ o → HasPath req (path_and_query req.path o)
path-HasPath req none e = inl (e, refl)
path-HasPath req (some query) e = inr (query, e, refl)

body-HasBody : (b : Base64) (body : List ℕ) → HasBody b body (body_b64_of b body)
body-HasBody b [] = inl (refl, refl)
body-HasBody b (x ∷ body) = inr (refl, refl)

module _ (rules : HttpRules) (laws : HttpLaws rules) where
  abbrev Passes : Map String (List ℕ) → Type 0
  Passes out = (k : String) (v : List ℕ) → lookup k out ≡ some v → is_hop_by_hop k ≡ false

  insert_valid-Passes :
      (key : String) (name : Option String) (value : Option (List ℕ)) (out : Map String (List ℕ))
      → is_hop_by_hop key ≡ false
      → rules.header_name (codes key) ≡ name
      → Passes out
      → Passes (insert_valid rules name value out)
  insert_valid-Passes key none value out e n h = h
  insert_valid-Passes key (some name) none out e n h = h
  insert_valid-Passes key (some name) (some value) out e n h = λ k v found.
      elim (Bool-cases (name == k)) [
        | inl same ↦
            subst (λ j. is_hop_by_hop j ≡ false) ((string_Comparable.same_iff name k).0 same)
              (is_hop_by_hop-lowercase key name (laws.header_name_lowercase (codes key) name n) ∙ e)
        | inr other ↦ h k v (sym (lookup-insert name k value out ∙ rw other refl) ∙ found)
      ]

  response_headers-Passes :
      (headers : Map String String) (out : Map String (List ℕ))
      → Passes out
      → Passes (response_headers rules headers out)
  unfolding response_headers
  response_headers-Passes [] out h = h
  response_headers-Passes ((key, value) ∷ rest) out h =
      response_headers-Passes rest _ (go (is_hop_by_hop key) refl)
    where
      go :
          (hop : Bool)
          → is_hop_by_hop key ≡ hop
          → Passes (
              if hop
              then out
              else insert_valid rules
                  (rules.header_name (codes key))
                  (rules.header_value value)
                  out)
      go true e = h
      go false e = insert_valid-Passes key _ _ out e refl h

  decoded_headers :
      (status : ℕ) (headers : Map String String) (body : Result Error (List ℕ))
      (response : HttpResponse)
      → try body (λ bytes. ok (record {
        status = unwrap_or 502 (rules.status_code status);
        headers = response_headers rules headers [];
        body = bytes;
      }))
        ≡ ok response
      → Passes response.headers
  decoded_headers status headers (ok bytes) response e =
      subst Passes (ap headers_of e) (response_headers-Passes headers [] none_there)
    where
      headers_of : Result Error HttpResponse → Map String (List ℕ)
      headers_of (ok r) = r.headers
      headers_of (err e) = []

      none_there : Passes []
      none_there k v found = unfold lookup in cc found
  decoded_headers status headers (err failure) response e = cc

  response_of-Passes :
      (b : Base64) (frame : TunnelFrame) (response : HttpResponse)
      → response_of b rules frame ≡ ok response
      → Passes response.headers
  unfolding response_of
  response_of-Passes b (http_response id status headers body (some failure)) response e = cc
  response_of-Passes b (http_response id status headers body none) response e =
      decoded_headers status headers (decoded b body) response e
  response_of-Passes b (hello _ _ _ _) response e = cc
  response_of-Passes b (hello_ack _ _) response e = cc
  response_of-Passes b (ping _) response e = cc
  response_of-Passes b (pong _) response e = cc
  response_of-Passes b (http_request _ _ _ _ _) response e = cc
  response_of-Passes b (peer_event _ _) response e = cc
  response_of-Passes b (error _) response e = cc

  answered-Passes :
      (b : Base64) (o : Result Error TunnelFrame × Registry) (end : Registry)
      (response : HttpResponse)
      → continue o.0 (λ frame s. (response_of b rules frame, s)) o.1 ≡ (ok response, end)
      → Passes response.headers
  answered-Passes b (ok frame, s) end response h =
      response_of-Passes b frame response (ap (λ (p : Result Error HttpResponse × Registry). p.0) h)
  answered-Passes b (err e, s) end response h = cc

  without_hops :
      (k : String) (out : Map String (List ℕ))
      → Passes out
      → (is_hop_by_hop k && contains_key k out) ≡ false
  without_hops k out h = go (lookup k out) refl
    where
      go : (o : Option (List ℕ)) → lookup k out ≡ o → (is_hop_by_hop k && is_some o) ≡ false
      go none e = ground arith
      go (some v) e = rw (h k v e) refl

  read_body-IsSent :
      (b : Base64) (target : String) (req : Request) (id : String) (now : ℤ) (at : ℕ)
      (r q : Registry) (call : Call) (o : Result String (List ℕ))
      → continue
          (map_err (λ e. bad_request (append "read body: " e)) o)
          (λ body. proxy_send target (outgoing b target req body) id now at)
          r
        ≡ (ok call, q)
      → (body : List ℕ) × (o ≡ ok body)
        × IsSent target (outgoing b target req body) id now at r q call
  read_body-IsSent b target req id now at r q call (ok body) h =
      (body, refl, proxy_send-IsSent target _ id now at r q call h)
  read_body-IsSent b target req id now at r q call (err e) h = cc

  -- A request that goes out is the one that came in: the device of the target gets its method, its path,
  -- with a question mark and its query where it has one, its body in base64, or none where it is empty,
  -- and of its headers the last text of each name, but none of the ten that belong to a connection;
  -- the target is added if no header has its name. And none of the ten is in the response that is made
  -- of what the device answers.
  pub proxy_to_device-filters :
      (b : Base64) (target : String) (req : Request) (limit : ℕ) (id : String) (now : ℤ) (at : ℕ)
      (r q : Registry) (call : Call) (awaited : Awaited) (later end : Registry)
      (response : HttpResponse) (k : String)
      → proxy_to_device b target req limit id now at r ≡ (ok call, q)
      → proxy_answered b rules call awaited later ≡ (ok response, end)
      → (body : List ℕ) × (o : Outgoing) × (req.read_body limit ≡ ok body)
        × IsSent target o id now at r q call
        × (o.method ≡ req.method)
        × HasPath req o.path
        × HasBody b body o.body_b64
        × (lookup k o.headers ≡ forwarded target k req.headers)
        × ((is_hop_by_hop k && contains_key k response.headers) ≡ false)
  unfolding proxy_to_device proxy_answered
  proxy_to_device-filters b target req limit id now at r q call awaited later end response k e a =
      let (body, read, sent) =
        read_body-IsSent b target req id now at r q call (req.read_body limit) e in
      (
        body,
        outgoing b target req body,
        read,
        sent,
        refl,
        path-HasPath req req.query refl,
        body-HasBody b body,
        lookup-with_target target k req.headers,
        without_hops k response.headers (answered-Passes b _ end response a),
      )
