-- ===== src/Admin/Issued.antt =====
-- admin.rs: when a session is issued.
use crosspaste_server.Admin.Login.{
  LoginRequest, LoginResponse, check_mfa, entered, issue, known, login, proven, wrong,
}
use crosspaste_server.Admin.NewSession.{create_session-either, session_row, sessions-audit}
use crosspaste_server.Admin.Response.{
  Handler, Hashing, Response, answered, api_error, as_response, flattened, ignore, json_response,
  or_internal, respond, token_hash, trimmed, verify_password,
}
use crosspaste_server.Admin.SecondFactor.{check_mfa-either}
use crosspaste_server.Admin.Sessions.{session_ttl_ms, set_session_cookie}
use crosspaste_server.Admin.Totp.{verify_totp}
use crosspaste_server.Database.Admins.{
  AdminUser, AdminUserSecret, admin_secret, create_session, get_admin_user, secret_of,
}
use crosspaste_server.Database.Logs.{audit}
use crosspaste_server.Database.Statements.{query-either}
use crosspaste_server.Database.Tables.{AdminRow, Database, SessionRow, started}
use crosspaste_server.Prelude.{
  Bool, List, Option, Result, String, continue, err, false, inl, inr, nat_Comparable, none, ok,
  pair_Comparable, pure, refl, some, string_Comparable, true, ℕ, ◌>>=◌, ◌>>◌, ◌∙◌, ◌≡◌, ◌⊎◌,
}
use crosspaste_server.Prelude.Int.{int_Comparable, ℤ, ◌+ℤ◌}
use crosspaste_server.Prelude.Map.{insert, lookup}
use crosspaste_server.Prelude.Text.{codes_Comparable}

module _ (t : Hashing) (request : LoginRequest) (remote : String) (token : List ℕ)
    (refused code_at expires created audited : ℤ) (d : Database) where
  abbrev pub Answer : Type 0
  Answer = Response LoginResponse × Database

  abbrev pub login_outcome : Answer
  login_outcome = respond (login t request remote token refused code_at expires created audited) d

  -- The password is the one of the row, and so is the second factor where it is on.
  pub record IsProven (row : AdminRow) : Type 0 where
    pub stored : lookup (trimmed request.username) d.admin_users ≡ some row
    pub password : verify_password t request.password row.password_hash ≡ true
    pub factor :
        (row.mfa_enabled ≡ false)
        ⊎ ((code secret : String) × (entered request.mfa_code ≡ some code)
            × (row.mfa_secret ≡ some secret)
            × (verify_totp t secret code code_at ≡ true))

  abbrev pub session : SessionRow
  session = session_row (trimmed request.username) (expires +ℤ session_ttl_ms) created remote

  -- What a call may leave: nothing new, or a session with its cookie.
  abbrev pub Leaves : Answer → Type 0
  Leaves (response, q) =
      ((response.set_cookie ≡ none) × (q.admin_sessions ≡ d.admin_sessions))
      ⊎ ((row : AdminRow) × IsProven row
          × (response.set_cookie ≡ set_session_cookie token)
          × (q.admin_sessions ≡ insert (token_hash t token) session d.admin_sessions))

  issue-Leaves :
      (user : AdminUser) (row : AdminRow) (s : Database)
      → user.username ≡ trimmed request.username
      → IsProven row
      → s.admin_sessions ≡ d.admin_sessions
      → Leaves (respond (issue t user remote token expires created audited) s)
  unfolding issue or_internal ignore respond
  issue-Leaves user row s named good same =
      go
        (create_session user.username (token_hash t token) (expires +ℤ session_ttl_ms) (some remote)
          created s)
        (create_session-either user.username (token_hash t token) (expires +ℤ session_ttl_ms)
          created remote s)
    where
      response : Response LoginResponse
      response = record (json_response (record { user = user; mfa_required = false })) {
        set_cookie = set_session_cookie token;
      }

      rest : Result String Unit × Database → Answer
      rest o =
          let r : Result (Response LoginResponse) Unit × Database =
            as_response {B = LoginResponse} o in
          answered (
            continue r.0
              (λ u.
                ignore (audit (some user.username) "login" "admin login" (some remote) audited)
                >> pure response)
              r.1)

      go :
          (o : Result String Unit × Database)
          → ((o.0 ≡ ok tt)
              × (o.1.admin_sessions
                  ≡ insert
                      (token_hash t token)
                      (session_row user.username (expires +ℤ session_ttl_ms) created remote)
                      s.admin_sessions))
            ⊎ ((e : String) × (o.0 ≡ err e) × (o.1.admin_sessions ≡ s.admin_sessions))
          → Leaves (rest o)
      go (ok u, q) (inl w) = inr (
        row,
        good,
        refl,
        sessions-audit (some user.username) "login" "admin login" (some remote) audited q
            ∙ w.1
            ∙ rw (named, same) refl,
      )
      go (ok u, q) (inr w) = cc (w.1)
      go (err e, q) (inl w) = cc (w.0)
      go (err e, q) (inr w) = inl (unfold api_error in refl, w.2 ∙ same)

  abbrev tail : AdminUserSecret → Handler Database LoginResponse
  tail user = do
    check_mfa t user request.mfa_code code_at
    issue t user.user remote token expires created audited

  checked-Leaves :
      (row : AdminRow) (s : Database)
      → lookup (trimmed request.username) d.admin_users ≡ some row
      → verify_password t request.password row.password_hash ≡ true
      → s.admin_sessions ≡ d.admin_sessions
      → Leaves (respond (tail (admin_secret (trimmed request.username) row)) s)
  unfolding respond
  checked-Leaves row s found right same =
      elim (check_mfa-either t request.mfa_code code_at user s) [
        | inl w ↦ rw w.0 (
            issue-Leaves user.user row s refl
              (record { stored = found; password = right; factor = w.1 }) same)
        | inr w ↦ rw w.1 (inl (w.2, same))
      ]
    where
      user : AdminUserSecret
      user = admin_secret (trimmed request.username) row

  -- A refusal is in the audit log, and leaves the sessions alone.
  refused-Leaves :
      (username : Option String) (detail : String) (s : Database)
      → s.admin_sessions ≡ d.admin_sessions
      → Leaves (wrong, (audit username "login_failed" detail (some remote) refused s).1)
  refused-Leaves username detail s same = inl (
    unfold api_error in refl,
    sessions-audit username "login_failed" detail (some remote) refused s ∙ same,
  )

  found-Leaves :
      (o : Option AdminRow) (s : Database)
      → lookup (trimmed request.username) d.admin_users ≡ o
      → s.admin_sessions ≡ d.admin_sessions
      → Leaves (
          respond
            (do
              user ← known remote refused (secret_of (trimmed request.username) o)
              proven remote refused
                  (verify_password t request.password user.password_hash)
                  user.user.username
              tail user)
            s)
  unfolding known proven ignore respond
  found-Leaves none s e same = refused-Leaves none "unknown username" s same
  found-Leaves (some row) s e same = go (verify_password t request.password row.password_hash) refl
    where
      user : AdminUserSecret
      user = admin_secret (trimmed request.username) row

      go :
          (right : Bool)
          → verify_password t request.password row.password_hash ≡ right
          → Leaves (respond (do proven remote refused right user.user.username; tail user) s)
      go true f = checked-Leaves row s e f same
      go false f = refused-Leaves (some (trimmed request.username)) "invalid password" s same

  -- A log-in either sets no cookie and leaves the sessions as they are, or the name, without the
  -- spaces around it, is a row whose hash verifies the password that was given, and, if its second
  -- factor is on, whose secret verifies the code that was given; then it stores exactly one new
  -- session, of that user and for twelve hours, under the hash of the token of its cookie.
  pub login-Leaves : Leaves login_outcome
  unfolding login get_admin_user flattened respond
  login-Leaves =
      elim (query-either
        (λ k.
          secret_of (trimmed request.username) (lookup (trimmed request.username) k.admin_users))
        d) [
          | inl e ↦
              rw e (
                found-Leaves (lookup (trimmed request.username) d.admin_users) (started d) refl
                  refl)
          | inr w ↦
              rw w.1
                (unfold known ignore in refused-Leaves none "unknown username" (started d) refl)
        ]
