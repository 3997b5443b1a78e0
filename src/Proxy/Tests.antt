-- ===== src/Proxy/Tests.antt =====
-- proxy.rs: a request goes through the tunnel of a phone, and its answer comes back.
use crosspaste_server.Codec.Samples.{sample_base64}
use crosspaste_server.Prelude.{
  Bool-cases, List, Option, String, [], arith, false, if◌then◌else◌, inl, inr, nat_Comparable, none,
  ok, pair_Comparable, refl, some, string_Comparable, subst, ℕ, ◌&&◌, ◌∷◌, ◌≡◌,
}
use crosspaste_server.Prelude.Int.{int_Comparable, pos}
use crosspaste_server.Prelude.Map.{contains_key, insert, lookup}
use crosspaste_server.Prelude.Text.{
  ascii_lowercase_of, codes, codes_Comparable, eq_ignore_ascii_case, is_ascii_uppercase, same_codes,
  same_codes_iff, to_ascii_lowercase,
}
use crosspaste_server.Protocol.{TunnelFrame, http_response}
use crosspaste_server.Proxy.{
  HttpLaws, HttpResponse, HttpRules, Request, copy_headers, header_map_to_plain, is_hop_by_hop,
  proxy_answered, proxy_to_device, response_headers, response_of, with_target,
}
use crosspaste_server.Proxy.Forward.{HasBody, HasPath, proxy_to_device-filters}
use crosspaste_server.Proxy.Headers.{forwarded}
use crosspaste_server.Registry.Devices.{register_device}
use crosspaste_server.Registry.Lifecycle.{IsSent}
use crosspaste_server.Registry.Requests.{Call, Outgoing, proxy_finish, proxy_send, received}
use crosspaste_server.Registry.Samples.{phone, start}
use crosspaste_server.Registry.State.{Registry, get_device, send}

abbrev note : String
note = "x-note"

abbrev name_of : List ℕ → Option String
name_of key = if same_codes (codes note) (to_ascii_lowercase key) then some note else none

abbrev rules : HttpRules
rules = record {
  header_name = name_of;
  header_value = λ text. some (codes text);
  status_code = λ n. some n;
}

laws : HttpLaws rules
laws = record { header_name_lowercase = named }
  where
    named :
        (key : List ℕ) (name : String)
        → name_of key ≡ some name
        → codes name ≡ to_ascii_lowercase key
    named key name h = elim (Bool-cases (same_codes (codes note) (to_ascii_lowercase key))) [
      | inl same ↦
          let given : some note ≡ some name = (rw (← h, same) refl) in
          let e : note ≡ name = ground (arith, given) in
          subst (λ n. codes n ≡ to_ascii_lowercase key) e
            ((same_codes_iff (codes note) (to_ascii_lowercase key)).0 same)
      | inr other ↦ let absurd : none ≡ some name = (rw (← h, other) refl) in cc absurd
    ]

abbrev request : Request
request = record {
  method = "GET";
  path = "/pull/paste";
  query = some "limit=1";
  headers = ("connection", codes "close") ∷ ("x-note", codes "a") ∷ ("x-note", codes "b") ∷ [];
  read_body = λ limit. ok (7 ∷ []);
}

abbrev online : Registry
online = (register_device phone "session-1" (pos 10) start).1

abbrev answer : TunnelFrame
answer = http_response "request-1" 200 (("Connection", "close") ∷ ("X-Note", "c") ∷ []) none none

abbrev call : Call
call = record { session = 0; request_id = "request-1" }

abbrev busy : Registry
busy = (proxy_to_device sample_base64 "phone" request 1_024 "request-1" (pos 20) 20 online).1

abbrev response : HttpResponse
response = record { status = 200; headers = ("x-note", codes "c") ∷ []; body = [] }

went_out :
    proxy_to_device sample_base64 "phone" request 1_024 "request-1" (pos 20) 20 online
    ≡ (ok call, busy)
unfolding proxy_to_device proxy_send register_device get_device lookup insert send
    header_map_to_plain copy_headers is_hop_by_hop with_target
went_out = refl

came_back : proxy_answered sample_base64 rules call (received answer) busy ≡ (ok response, busy)
unfolding proxy_answered proxy_finish response_of response_headers is_hop_by_hop
    eq_ignore_ascii_case to_ascii_lowercase ascii_lowercase_of is_ascii_uppercase insert
came_back = refl

proxy_to_device-filters_example :
    (body : List ℕ) × (o : Outgoing) × (request.read_body 1_024 ≡ ok body)
    × IsSent "phone" o "request-1" (pos 20) 20 online busy call
    × (o.method ≡ "GET")
    × HasPath request o.path
    × HasBody sample_base64 body o.body_b64
    × (lookup note o.headers ≡ forwarded "phone" note request.headers)
    × ((is_hop_by_hop note && contains_key note response.headers) ≡ false)
proxy_to_device-filters_example =
    proxy_to_device-filters rules laws sample_base64 "phone" request 1_024 "request-1" (pos 20) 20
      online busy call (received answer) busy busy response note went_out came_back
