-- ===== src/Proxy/Headers.antt =====
-- proxy.rs: which headers go through, and what a device gets.
use crosspaste_server.Auth.{HeaderMap, to_str}
use crosspaste_server.Prelude.{
  Bool, Bool-cases, List, Option, String, [], and_then, ap, arith, false, if◌then◌else◌, inl, inr,
  nat_Comparable, none, or_else, pair_Comparable, refl, some, string_Comparable, sym, true, ℕ, ◌==◌,
  ◌∙◌, ◌∷◌, ◌≡◌,
}
use crosspaste_server.Prelude.Chars.{from_codes}
use crosspaste_server.Prelude.Int.{int_Comparable}
use crosspaste_server.Prelude.Map.{Map, lookup, lookup-insert, same_ne}
use crosspaste_server.Prelude.Text.{
  ascii_lowercase_of, codes_Comparable, eq_ignore_ascii_case, is_ascii_uppercase,
  to_ascii_lowercase,
}
use crosspaste_server.Protocol.{header_target_app_instance_id}
use crosspaste_server.Proxy.{
  copy_headers, header_map_to_plain, insert_text, is_hop_by_hop, with_target,
}

-- The last value of a name that is text, or else what came before.
abbrev pub last_text : String → HeaderMap → Option String → Option String
last_text k [] before = before
last_text k ((name, value) ∷ rest) before = last_text k rest (
    if name == k
    then or_else (and_then (λ t. some (from_codes t)) (to_str value)) before
    else before)

lookup-insert_text :
    (k key : String) (text : Option (List ℕ)) (out : Map String String)
    → lookup k (insert_text key text out) ≡ (
        if key == k
        then or_else (and_then (λ t. some (from_codes t)) text) (lookup k out)
        else lookup k out)
lookup-insert_text k key none out = ground arith
lookup-insert_text k key (some t) out = ground (arith, lookup-insert key k (from_codes t) out)

both_ways : (b : Bool) (x : Option String) → x ≡ (if b then x else x)
both_ways true x = refl
both_ways false x = refl

-- The headers that are copied, one after the other.
lookup-copy_headers :
    (k : String) (headers : HeaderMap) (out : Map String String)
    → lookup k (copy_headers headers out)
      ≡ (if is_hop_by_hop k then lookup k out else last_text k headers (lookup k out))
unfolding copy_headers
lookup-copy_headers k [] out = both_ways (is_hop_by_hop k) (lookup k out)
lookup-copy_headers k ((name, value) ∷ rest) out =
    lookup-copy_headers k rest _ ∙ go (is_hop_by_hop k) (name == k) refl refl
  where
    next : Map String String
    next = if is_hop_by_hop name then out else insert_text name (to_str value) out

    text : Option String
    text = and_then (λ t. some (from_codes t)) (to_str value)

    at : lookup k next ≡ (
        if is_hop_by_hop name
        then lookup k out
        else if name == k
        then or_else text (lookup k out)
        else lookup k out)
    at = elim (Bool-cases (is_hop_by_hop name)) [
      | inl hop ↦ rw hop refl
      | inr passes ↦ rw passes (lookup-insert_text k name (to_str value) out)
    ]

    go :
        (hop same : Bool)
        → is_hop_by_hop k ≡ hop
        → (name == k) ≡ same
        → (if hop then lookup k next else last_text k rest (lookup k next)) ≡ (
            if hop
            then lookup k out
            else last_text k rest (if same then or_else text (lookup k out) else lookup k out))
    go true same e f = at ∙ elim (Bool-cases (is_hop_by_hop name)) [
      | inl hop ↦ rw hop refl
      | inr passes ↦ rw (passes, same_ne name k (λ p. cc (e, passes, ap is_hop_by_hop p))) refl
    ]
    go false same e f = ap (last_text k rest) (
        at ∙ elim (Bool-cases (is_hop_by_hop name)) [
          | inl hop ↦ rw (hop, ← f, same_ne name k (λ p. cc (e, hop, ap is_hop_by_hop p))) refl
          | inr passes ↦ rw (passes, f) refl
        ])

target_passes : is_hop_by_hop header_target_app_instance_id ≡ false
unfolding is_hop_by_hop eq_ignore_ascii_case to_ascii_lowercase ascii_lowercase_of
    is_ascii_uppercase
target_passes = refl

lookup-plain :
    (k : String) (headers : HeaderMap)
    → lookup k (header_map_to_plain headers)
      ≡ (if is_hop_by_hop k then none else last_text k headers none)
unfolding header_map_to_plain lookup
lookup-plain k headers = lookup-copy_headers k headers []

lookup-plain_target :
    (headers : HeaderMap)
    → lookup header_target_app_instance_id (header_map_to_plain headers)
      ≡ last_text header_target_app_instance_id headers none
lookup-plain_target headers =
    lookup-plain header_target_app_instance_id headers ∙ rw target_passes refl

or_given :
    (target k : String) (out : Map String String) (o : Option String)
    → lookup header_target_app_instance_id out ≡ o
    → lookup k (with_target target out)
      ≡ (if header_target_app_instance_id == k then or_else o (some target) else lookup k out)
unfolding with_target
or_given target k out none e = rw e (lookup-insert header_target_app_instance_id k target out)
or_given target k out (some v) e = rw e (elim (Bool-cases (header_target_app_instance_id == k)) [
  | inl same ↦ rw same (ap (λ j. lookup j out) (sym ((string_Comparable.same_iff _ k).0 same)) ∙ e)
  | inr other ↦ rw other refl
])

abbrev pub forwarded : String → String → HeaderMap → Option String
forwarded target k headers =
    if header_target_app_instance_id == k
    then or_else (last_text k headers none) (some target)
    else if is_hop_by_hop k
    then none
    else last_text k headers none

-- The headers that a device gets.
pub lookup-with_target :
    (target k : String) (headers : HeaderMap)
    → lookup k (with_target target (header_map_to_plain headers)) ≡ forwarded target k headers
lookup-with_target target k headers =
    or_given target k (header_map_to_plain headers) _ (lookup-plain_target headers)
    ∙ go (header_target_app_instance_id == k) refl
  where
    go :
        (b : Bool)
        → (header_target_app_instance_id == k) ≡ b
        → (if b
            then or_else (last_text header_target_app_instance_id headers none) (some target)
            else lookup k (header_map_to_plain headers))
          ≡ (if b
              then or_else (last_text k headers none) (some target)
              else if is_hop_by_hop k
              then none
              else last_text k headers none)
    go true e =
        ap (λ j. or_else (last_text j headers none) (some target))
          ((string_Comparable.same_iff _ k).0 e)
    go false e = lookup-plain k headers
