-- ===== src/Auth/Bearer.antt =====
-- auth.rs: a request that gives its token as a bearer.
-- A character of a token: visible, and no space.
use crosspaste_server.Auth.{
  HeaderMap, bearer, check_auth, is_visible, provided, same_text, strip_prefix, to_str, token_of,
  trim, trim_end, trim_start, with_token,
}
use crosspaste_server.Config.{Config, auth_required}
use crosspaste_server.Prelude.{
  Bool, Bool-cases, List, [], all, ap, arith, eqb, false, inl, inr, is_empty, nat_Comparable, none,
  not, ok, pair_Comparable, refl, some, string_Comparable, true, unwrap_or, ℕ, ◌&&◌, ◌++◌, ◌↔◌, ◌∙◌,
  ◌∷◌, ◌≡◌, ◌⊎◌,
}
use crosspaste_server.Prelude.Int.{int_Comparable}
use crosspaste_server.Prelude.Map.{lookup}
use crosspaste_server.Prelude.Text.{codes, codes_Comparable, is_whitespace}
use crosspaste_server.Protocol.{header_auth}
use crosspaste_server.Registry.Samples.{config}

abbrev pub is_plain : ℕ → Bool
is_plain c = is_visible c && not (is_whitespace c)

plain-visible : (t : List ℕ) → all is_plain t ≡ true → all is_visible t ≡ true
plain-visible [] h = refl
plain-visible (c ∷ t) h = ground (arith, h, plain-visible t)

trim_end-plain : (t : List ℕ) → all is_plain t ≡ true → trim_end t ≡ t
unfolding trim_end
trim_end-plain [] h = refl
trim_end-plain (c ∷ t) h = ground (arith, h, trim_end-plain t)

-- Spaces before something stay.
trim_end-before : (p t : List ℕ) → is_empty t ≡ false → trim_end t ≡ t → trim_end (p ++ t) ≡ p ++ t
unfolding trim_end
trim_end-before [] t h e = e
trim_end-before (c ∷ p) t h e = rw (trim_end-before p t h e) (rw (not_empty p) (ground arith))
  where
    not_empty : (p : List ℕ) → is_empty (p ++ t) ≡ false
    not_empty [] = h
    not_empty (c ∷ p) = refl

strip_prefix-append : (p t : List ℕ) → strip_prefix p (p ++ t) ≡ some t
unfolding strip_prefix
strip_prefix-append [] t = refl
strip_prefix-append (c ∷ p) t = ground (arith, strip_prefix-append p t)

visible-append :
    (p t : List ℕ)
    → all is_visible p ≡ true
    → all is_visible t ≡ true
    → all is_visible (p ++ t) ≡ true
visible-append [] t h k = k
visible-append (c ∷ p) t h k = ground (arith, h, k, visible-append p t)

pub same_text_iff : (a b : List ℕ) → (same_text a b ≡ true) ↔ (a ≡ b)
same_text_iff [] [] = ground arith
same_text_iff [] (y ∷ ys) = ground arith
same_text_iff (x ∷ xs) [] = ground arith
same_text_iff (x ∷ xs) (y ∷ ys) = ground (arith, same_text_iff xs ys, nat_Comparable.same_iff x y)

from_start : (t : List ℕ) → trim_start (bearer ++ t) ≡ bearer ++ t
unfolding trim_start is_whitespace
from_start t = refl

trim-bearer :
    (t : List ℕ) → is_empty t ≡ false → all is_plain t ≡ true → trim (bearer ++ t) ≡ bearer ++ t
unfolding trim
trim-bearer t h k = ap trim_end (from_start t) ∙ trim_end-before bearer t h (trim_end-plain t k)

token_of-bearer :
    (t : List ℕ) → is_empty t ≡ false → all is_plain t ≡ true → token_of (bearer ++ t) ≡ t
unfolding token_of
token_of-bearer t h k =
    ap (λ text. unwrap_or (bearer ++ t) (strip_prefix bearer text)) (trim-bearer t h k)
    ∙ ap (unwrap_or (bearer ++ t)) (strip_prefix-append bearer t)

bearer_visible : all is_visible bearer ≡ true
unfolding is_visible
bearer_visible = refl

-- A text without spaces does not begin with the scheme.
strip_prefix-plain :
    (p t : List ℕ) → all is_plain p ≡ false → all is_plain t ≡ true → strip_prefix p t ≡ none
unfolding strip_prefix
strip_prefix-plain [] t h k = cc
strip_prefix-plain (c ∷ p) [] h k = refl
strip_prefix-plain (c ∷ p) (d ∷ t) h k = elim (Bool-cases (eqb c d)) [
  | inr other ↦ rw other refl
  | inl same ↦
      let e : c ≡ d = (nat_Comparable.same_iff c d).0 same in
      let first : is_plain d ≡ true = ground (arith, k) in
      let later : all is_plain t ≡ true = ground (arith, k) in
      rw same (
        strip_prefix-plain p t
          (let whole : (is_plain c && all is_plain p) ≡ false = h in rw (e, first) at whole) later)
]

trim_start-plain : (t : List ℕ) → all is_plain t ≡ true → trim_start t ≡ t
unfolding trim_start
trim_start-plain [] h = refl
trim_start-plain (c ∷ t) h = ground (arith, h)

scheme_spaced : all is_plain bearer ≡ false
unfolding is_visible is_whitespace
scheme_spaced = refl

token_of-plain : (t : List ℕ) → all is_plain t ≡ true → token_of t ≡ t
unfolding token_of trim
token_of-plain t k =
    rw (trim_start-plain t k, trim_end-plain t k, strip_prefix-plain bearer t scheme_spaced k) refl

-- A value that gives a token: with the scheme before it, or the token alone.
abbrev pub Gives : List ℕ → List ℕ → Type 0
Gives v t = (v ≡ bearer ++ t) ⊎ (v ≡ t)

-- The header of the server, or else the usual one.
abbrev pub HasToken : HeaderMap → List ℕ → Type 0
HasToken headers v =
    (lookup header_auth headers ≡ some v)
    ⊎ ((lookup header_auth headers ≡ none) × (lookup "authorization" headers ≡ some v))

with_token-Gives :
    (v t : List ℕ)
    → is_empty t ≡ false
    → all is_plain t ≡ true
    → Gives v t
    → with_token (some v) ≡ some t
unfolding to_str
with_token-Gives v t h k (inl e) = rw e (
    rw (visible-append bearer t bearer_visible (plain-visible t k))
      (ap some (token_of-bearer t h k)))
with_token-Gives v t h k (inr e) = rw e (rw (plain-visible t k) (ap some (token_of-plain t k)))

provided-Gives :
    (v t : List ℕ) (headers : HeaderMap)
    → is_empty t ≡ false
    → all is_plain t ≡ true
    → Gives v t
    → HasToken headers v
    → provided headers ≡ some t
unfolding provided
provided-Gives v t headers h k g (inl e) = rw e (with_token-Gives v t h k g)
provided-Gives v t headers h k g (inr (e, f)) = rw (e, f) (with_token-Gives v t h k g)

-- A server that asks for a token takes it from its own header, or, only where that is missing, from
-- `Authorization`. If the value there is a token of visible characters, or `Bearer` and a space
-- before one, then the request passes exactly when the token is the configured one.
pub check_auth-bearer :
    (config : Config) (v t : List ℕ) (headers : HeaderMap)
    → auth_required config ≡ true
    → is_empty t ≡ false
    → all is_plain t ≡ true
    → Gives v t
    → HasToken headers v
    → (check_auth config headers ≡ ok tt) ↔ (t ≡ codes config.auth_token)
unfolding check_auth
check_auth-bearer config v t headers r h k g e = rw r (
    rw (provided-Gives v t headers h k g e)
      (ground (arith, same_text_iff t (codes config.auth_token))))
