-- ===== src/Admin/NewSession.antt =====
-- database.rs and admin.rs: what becomes of the sessions when one is written, or when a note is.
use crosspaste_server.Admin.Response.{token_hash}
use crosspaste_server.Database.Admins.{create_session}
use crosspaste_server.Database.Logs.{audit, noted}
use crosspaste_server.Database.Statements.{field-execute}
use crosspaste_server.Database.Tables.{Database, SessionRow, execute_checked, fault}
use crosspaste_server.Prelude.{
  Bool, Option, String, err, false, inl, inr, nat_Comparable, none, ok, pair_Comparable, refl, some,
  string_Comparable, true, ◌≡◌, ◌⊎◌,
}
use crosspaste_server.Prelude.Int.{int_Comparable, ℤ}
use crosspaste_server.Prelude.Map.{Map, contains_key, insert}
use crosspaste_server.Prelude.Text.{codes_Comparable}

abbrev sessions_of : Database → Map String SessionRow
sessions_of d = d.admin_sessions

pub sessions-audit :
    (username : Option String) (action detail : String) (remote : Option String) (now : ℤ)
    (d : Database)
    → (audit username action detail remote now d).1.admin_sessions ≡ d.admin_sessions
unfolding audit
sessions-audit username action detail remote now d =
    field-execute sessions_of (noted username action detail remote now) d refl refl

abbrev pub session_row : String → (expires created : ℤ) → String → SessionRow
session_row username expires created remote = record {
  session_username = username;
  session_expires_at_ms = expires;
  session_created_at_ms = created;
  session_remote_addr = some remote;
}

-- A session is written whole or not at all.
pub create_session-either :
    (username token_hash : String) (expires created : ℤ) (remote : String) (d : Database)
    → ((create_session username token_hash expires (some remote) created d).0 ≡ ok tt
        × ((create_session username token_hash expires (some remote) created d).1.admin_sessions
            ≡ insert token_hash (session_row username expires created remote) d.admin_sessions))
      ⊎ ((e : String) × ((create_session username token_hash expires (some remote) created d).0
            ≡ err e)
          × ((create_session username token_hash expires (some remote) created d).1.admin_sessions
              ≡ d.admin_sessions))
unfolding create_session execute_checked
create_session-either username token_hash expires created remote d =
    go (fault d.faults) (contains_key token_hash d.admin_sessions)
      (contains_key username d.admin_users) refl refl refl
  where
    go :
        (o : Option String) (taken there : Bool)
        → fault d.faults ≡ o
        → contains_key token_hash d.admin_sessions ≡ taken
        → contains_key username d.admin_users ≡ there
        → ((create_session username token_hash expires (some remote) created d).0 ≡ ok tt
            × ((create_session username token_hash expires (some remote) created d).1.admin_sessions
                ≡ insert token_hash (session_row username expires created remote) d.admin_sessions))
          ⊎ ((e : String) × ((create_session username token_hash expires (some remote) created d).0
                ≡ err e)
              × ((create_session username token_hash expires
                    (some remote)
                    created
                    d).1.admin_sessions
                  ≡ d.admin_sessions))
    go (some m) taken there e f g = inr (m, rw e refl, rw e refl)
    go none true there e f g = inr ("UNIQUE constraint failed", rw (e, f) refl, rw (e, f) refl)
    go none false true e f g = inl (rw (e, f, g) refl, rw (e, f, g) refl)
    go none false false e f g =
        inr ("FOREIGN KEY constraint failed", rw (e, f, g) refl, rw (e, f, g) refl)
