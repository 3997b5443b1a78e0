-- ===== src/Database/Open.antt =====
-- database.rs: what a start does to the tables: the first administrator, the settings, and the state
-- that a version before the database kept in a file.
use crosspaste_server.Codec.{Base64, Json}
use crosspaste_server.Database.Clients.{load_server_keys, save_client, save_server_keys}
use crosspaste_server.Database.Settings.{ensure_default_settings}
use crosspaste_server.Database.Tables.{AdminRow, Database, execute, fault, later, query}
use crosspaste_server.Prelude.{
  Bool, Exec, List, Option, Result, String, [], err, false, gets, is_empty, lift, nat_Comparable,
  none, not, ok, ok_or, pair_Comparable, pure, some, string_Comparable, true, ℕ, ◌>>=◌, ◌>>◌, ◌∷◌,
}
use crosspaste_server.Prelude.Int.{int_Comparable, ℤ}
use crosspaste_server.Prelude.Map.{insert}
use crosspaste_server.Secure.Verify.{sign}

abbrev pub default_admin_username : String
default_admin_username = "admin"

abbrev pub default_admin_password : String
default_admin_password = "CrossPaste@123"

abbrev first_admin : String → ℤ → AdminRow
first_admin hash now = record {
  password_hash = hash;
  must_change_password = true;
  mfa_secret = none;
  mfa_enabled = false;
  admin_created_at_ms = now;
  admin_updated_at_ms = now;
}

-- `hashed` is what `hash_password` makes of the default password.
unfoldable pub add_default_admin : Bool → Result String String → ℤ → Exec Database String Unit
unfolding execute
add_default_admin true hashed now = pure tt
add_default_admin false hashed now = do
  hash ← lift hashed
  execute (λ d. record d {
    admin_users = insert default_admin_username (first_admin hash now) d.admin_users;
  })

unfoldable pub ensure_default_admin : Result String String → ℤ → Exec Database String Unit
unfolding query add_default_admin
ensure_default_admin hashed now = do
  exists ← query (λ d. not (is_empty d.admin_users))
  add_default_admin exists hashed now

pub record LegacyClient : Type 0 where
  pub app_instance_id : String
  pub paired_at_ms : ℤ
  pub crypt_public_key : String

pub record LegacyHub : Type 0 where
  pub sign_private_key : String
  pub crypt_private_key : String
  pub clients : List LegacyClient

-- The data directory: the tables, `hub-state.json` and `hub-state.json.migrated`. `io_faults` says
-- how the next calls on files end, as `faults` of the tables does.
pub record DataDir : Type 0 where
  pub tables : Database
  pub legacy_file : Option (List ℕ)
  pub migrated_file : Option (List ℕ)
  pub io_faults : List (Option String)

abbrev with_rows : {A : Type 0} → Result String A × Database → DataDir → Result String A × DataDir
with_rows (r, d) k = (r, record k { tables = d })

abbrev pub on_rows : {A : Type 0} → Exec Database String A → Exec DataDir String A
on_rows m k = with_rows (m k.tables) k

abbrev io_ended :
    {A : Type 0} → Option String → Result String A → DataDir → DataDir → Result String A × DataDir
io_ended none r after before = (r, after)
io_ended (some m) r after before = (err m, before)

abbrev io_started : DataDir → DataDir
io_started k = record k { io_faults = later k.io_faults }

-- `std::fs::read` and `std::fs::rename` of the legacy file.
unfoldable pub read_legacy : Exec DataDir String (List ℕ)
read_legacy k =
    io_ended (fault k.io_faults) (ok_or "no such file" k.legacy_file) (io_started k) (io_started k)

unfoldable pub rename_legacy : Exec DataDir String Unit
rename_legacy k =
    io_ended (fault k.io_faults) (ok tt)
      (record (io_started k) { legacy_file = none; migrated_file = k.legacy_file }) (io_started k)

module _ (b : Base64) (j : Json LegacyHub) where
  unfoldable pub import_clients : List LegacyClient → Exec DataDir String Unit
  import_clients [] = pure tt
  import_clients (client ∷ clients) = do
    key ← lift (ok_or "bad base64" (b.decode client.crypt_public_key))
    on_rows (save_client client.app_instance_id client.paired_at_ms key)
    import_clients clients

  unfoldable pub import_file : Exec DataDir String Unit
  unfolding read_legacy rename_legacy import_clients
  import_file = do
    bytes ← read_legacy
    legacy ← lift (j.from_slice bytes)
    sign ← lift (ok_or "bad base64" (b.decode legacy.sign_private_key))
    crypt ← lift (ok_or "bad base64" (b.decode legacy.crypt_private_key))
    on_rows (save_server_keys sign crypt)
    import_clients legacy.clients
    rename_legacy

  -- Only where no keys are stored, and the file is there.
  abbrev unless_imported : Option (List ℕ × List ℕ) → Option (List ℕ) → Exec DataDir String Unit
  unless_imported (some pair) file = pure tt
  unless_imported none none = pure tt
  unless_imported none (some file) = import_file

  unfoldable pub import_legacy_state : Exec DataDir String Unit
  unfolding import_file
  import_legacy_state = do
    keys ← on_rows load_server_keys
    file ← gets (λ k. k.legacy_file)
    unless_imported keys file

  -- The connection and the tables, by the outcomes of those calls, then the rest.
  unfoldable pub open_database :
      (connected : Result String Unit) (hashed : Result String String) (now : ℤ)
      → Exec DataDir String Unit
  unfolding ensure_default_admin ensure_default_settings import_legacy_state
  open_database connected hashed now = do
    lift connected
    on_rows (ensure_default_admin hashed now)
    on_rows ensure_default_settings
    import_legacy_state
