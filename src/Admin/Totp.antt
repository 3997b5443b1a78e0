-- ===== src/Admin/Totp.antt =====
-- admin.rs: one-time codes.
use crosspaste_server.Admin.Passwords.{utf8_len}
use crosspaste_server.Admin.Response.{Hashing}
use crosspaste_server.Auth.{trim}
use crosspaste_server.Prelude.{
  Bool, List, Option, String, [], all, and_then, eqb, false, get_elem?, if◌then◌else◌, is_some_and,
  not, some, unwrap_or, ℕ, ◌%◌, ◌*◌, ◌+◌, ◌/◌, ◌^◌, ◌||◌, ◌∷◌,
}
use crosspaste_server.Prelude.Bytes.{as_bytes}
use crosspaste_server.Prelude.Formats.{six_digits}
use crosspaste_server.Prelude.Int.{as_u64, div_ℤ, negsuc, pos, ℤ, ◌+ℤ◌}
use crosspaste_server.Prelude.Text.{codes, is_ascii_digit, same_codes}
use crosspaste_server.RelayError.{code}

-- `u64::to_be_bytes`
unfoldable pub counter_bytes : ℕ → List ℕ
counter_bytes n =
    ((n / 2 ^ 56) % 256)
    ∷ ((n / 2 ^ 48) % 256)
    ∷ ((n / 2 ^ 40) % 256)
    ∷ ((n / 2 ^ 32) % 256)
    ∷ ((n / 2 ^ 24) % 256)
    ∷ ((n / 2 ^ 16) % 256)
    ∷ ((n / 2 ^ 8) % 256)
    ∷ (n % 256)
    ∷ []

-- The digest has twenty bytes, so each place that is read is there.
abbrev byte_at : List ℕ → ℕ → ℕ
byte_at digest i = unwrap_or 0 (get_elem? digest i)

-- Four bytes from `offset`, the highest bit left out.
unfoldable pub truncated : List ℕ → ℕ → ℕ
truncated digest offset =
    (byte_at digest offset % 128) * 2 ^ 24
    + byte_at digest (offset + 1) * 2 ^ 16
    + byte_at digest (offset + 2) * 2 ^ 8
    + byte_at digest (offset + 3)

abbrev code_of : List ℕ → List ℕ
code_of digest = six_digits (truncated digest (byte_at digest 19 % 16) % 1_000_000)

module _ (t : Hashing) where
  unfoldable pub totp : String → ℕ → Option (List ℕ)
  unfolding counter_bytes truncated six_digits
  totp secret counter =
      and_then (λ key. some (code_of (t.hmac_sha1 key (counter_bytes counter))))
        (t.base32_decode (as_bytes secret))

  abbrev pub matches_at : String → List ℕ → ℤ → Bool
  matches_at secret code step = is_some_and (same_codes code) (totp secret (as_u64 step))

  -- The code of the step of thirty seconds now, of the one before or of the one after.
  unfoldable pub verify_totp : String → String → ℤ → Bool
  unfolding totp
  verify_totp secret code now =
      let entered = trim (codes code) in
      let current = div_ℤ (div_ℤ now 1000) 30 in
      if not (eqb (utf8_len entered) 6) || not (all is_ascii_digit entered)
      then false
      else matches_at secret entered (current +ℤ negsuc 0)
        || matches_at secret entered current
        || matches_at secret entered (current +ℤ pos 1)
