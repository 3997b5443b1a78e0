-- ===== src/Admin/SecondFactor.antt =====
-- admin.rs: the second factor of a log-in.
use crosspaste_server.Admin.Login.{LoginResponse, check_code, check_mfa, entered}
use crosspaste_server.Admin.Response.{Hashing, Response, api_error}
use crosspaste_server.Admin.Totp.{verify_totp}
use crosspaste_server.Database.Admins.{AdminUserSecret}
use crosspaste_server.Database.Tables.{Database}
use crosspaste_server.Prelude.{
  Bool, Option, Result, String, ensure, err, false, if◌then◌else◌, inl, inr, is_some_and, none, ok,
  pure, refl, some, subst, sym, true, ◌≡◌, ◌⊎◌,
}
use crosspaste_server.Prelude.Int.{ℤ}
use crosspaste_server.RelayError.{code}

module _ (t : Hashing) (mfa_code : Option String) (code_at : ℤ) where
  abbrev pub Factor : AdminUserSecret → Type 0
  Factor user =
      (user.user.mfa_enabled ≡ false)
      ⊎ ((code secret : String) × (entered mfa_code ≡ some code)
          × (user.mfa_secret ≡ some secret)
          × (verify_totp t secret code code_at ≡ true))

  abbrev pub Checked :
      AdminUserSecret → Database → Result (Response LoginResponse) Unit × Database → Type 0
  Checked user s o =
      ((o ≡ (ok tt, s)) × Factor user)
      ⊎ ((response : Response LoginResponse) × (o ≡ (err response, s))
          × (response.set_cookie ≡ none))

  -- The code is checked where the factor is on; a refusal sets no cookie.
  pub check_mfa-either :
      (user : AdminUserSecret) (s : Database) → Checked user s (check_mfa t user mfa_code code_at s)
  unfolding check_mfa check_code
  check_mfa-either user s =
      go user.user.mfa_enabled (entered mfa_code) user.mfa_secret refl refl refl
    where
      wrong_code : Response LoginResponse
      wrong_code = api_error 401 "MFA 验证码错误"

      by_code :
          (code secret : String) (right : Bool)
          → entered mfa_code ≡ some code
          → user.mfa_secret ≡ some secret
          → verify_totp t secret code code_at ≡ right
          → Checked user s (ensure right wrong_code s)
      by_code code secret true f g e = inl (refl, inr (code, secret, f, g, e))
      by_code code secret false f g e = inr (wrong_code, refl, unfold api_error in refl)

      go :
          (on : Bool) (code secret : Option String)
          → user.user.mfa_enabled ≡ on
          → entered mfa_code ≡ code
          → user.mfa_secret ≡ secret
          → Checked user s ((if on then check_code t user code code_at else pure tt) s)
      go false code secret e f g = inl (refl, inl e)
      go true none secret e f g = inr (_, refl, refl)
      go true (some code) none e f g = inr (wrong_code, rw g refl, unfold api_error in refl)
      go true (some code) (some secret) e f g =
          subst
            (λ (o : Option String).
              Checked user s
                (ensure (is_some_and (λ x. verify_totp t x code code_at) o) wrong_code s))
            (sym g) (by_code code secret _ f g refl)
