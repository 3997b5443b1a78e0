-- ===== src/Database/Tables.antt =====
-- database.rs: the tables, and what it means to run a statement on them.
use crosspaste_server.Prelude.{
  Bool, Exec, List, Option, Result, String, [], err, none, ok, some, ℕ, ◌∷◌,
}
use crosspaste_server.Prelude.Int.{ℤ}
use crosspaste_server.Prelude.Map.{Map}

pub record StoredClient : Type 0 where
  pub app_instance_id : String
  pub paired_at_ms : ℤ
  pub crypt_public_key : List ℕ
  pub sync_info_json : Option String
  pub last_seen_ms : Option ℤ

-- A row of `paired_clients`, under its primary key.
pub record ClientRow : Type 0 where
  pub client_paired_at_ms : ℤ
  pub client_key : List ℕ
  pub client_sync_info : Option String
  pub client_last_seen_ms : Option ℤ
  pub enabled : Bool

-- A row of `paste_records`, under its primary key.
pub record PasteRow : Type 0 where
  pub source_app_instance_id : String
  pub paste_type : Option ℤ
  pub size : Option ℤ
  pub metadata_json : String
  pub created_at_ms : ℤ

-- A row of `admin_users`, under its primary key.
pub record AdminRow : Type 0 where
  pub password_hash : String
  pub must_change_password : Bool
  pub mfa_secret : Option String
  pub mfa_enabled : Bool
  pub admin_created_at_ms : ℤ
  pub admin_updated_at_ms : ℤ

-- A row of `admin_sessions`, under its primary key.
pub record SessionRow : Type 0 where
  pub session_username : String
  pub session_expires_at_ms : ℤ
  pub session_created_at_ms : ℤ
  pub session_remote_addr : Option String

pub record RequestLog : Type 0 where
  pub id : ℕ
  pub method : String
  pub path : String
  pub status : ℕ
  pub remote_addr : String
  pub client_id : Option String
  pub target_id : Option String
  pub secure : Bool
  pub elapsed_ms : ℤ
  pub created_at_ms : ℤ

pub record AuditLog : Type 0 where
  pub id : ℕ
  pub username : Option String
  pub action : String
  pub detail : String
  pub remote_addr : Option String
  pub created_at_ms : ℤ

-- `faults` says how the next statements end, first to last: `none` for success, or the message of
-- an error. Beyond its end all succeed. A statement that fails has changed nothing.
pub record Database : Type 0 where
  pub faults : List (Option String)
  pub server_keys : Option (List ℕ × List ℕ)
  pub paired_clients : Map String ClientRow
  pub paste_records : Map ℤ PasteRow
  pub file_chunks : Map (ℤ × ℤ) (List ℕ)
  pub admin_users : Map String AdminRow
  pub admin_sessions : Map String SessionRow
  pub settings : Map String String
  -- The newest first; an identifier is never given twice.
  pub request_logs : List RequestLog
  pub next_log_id : ℕ
  pub audit_logs : List AuditLog
  pub next_audit_id : ℕ

abbrev pub fault : List (Option String) → Option String
fault [] = none
fault (f ∷ fs) = f

abbrev pub later : List (Option String) → List (Option String)
later [] = []
later (f ∷ fs) = fs

abbrev pub started : Database → Database
started d = record d { faults = later d.faults }

abbrev ended : {A : Type 0} → Option String → A → Database → Database → Result String A × Database
ended none a after before = (ok a, after)
ended (some m) a after before = (err m, before)

abbrev checked : Result String Database → Database → Result String Unit × Database
checked (ok after) before = (ok tt, after)
checked (err m) before = (err m, before)

abbrev ended_with :
    Option String → Result String Database → Database → Result String Unit × Database
ended_with none r before = checked r before
ended_with (some m) r before = (err m, before)

-- A statement that a constraint of the tables may refuse.
unfoldable pub execute_checked : (Database → Result String Database) → Exec Database String Unit
execute_checked f d = ended_with (fault d.faults) (f (started d)) (started d)

abbrev pub rolled_back :
    {A : Type 0} → Result String A × Database → Database → Result String A × Database
rolled_back (ok a, after) before = (ok a, after)
rolled_back (err m, after) before = (err m, record before { faults = after.faults })

-- A transaction that fails leaves the tables as they were. Its commit is a statement of its own.
unfoldable pub transaction : {A : Type 0} → Exec Database String A → Exec Database String A
transaction m d = rolled_back (m d) d

-- A statement that writes, and one that reads.
unfoldable pub execute : (Database → Database) → Exec Database String Unit
execute f d = ended (fault d.faults) tt (f (started d)) (started d)

unfoldable pub query : {A : Type 0} → (Database → A) → Exec Database String A
query f d = ended (fault d.faults) (f d) (started d) (started d)
