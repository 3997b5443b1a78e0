-- ===== src/Hub/State.antt =====
-- hub.rs: the hub's state, and actions on its parts.
use crosspaste_server.Codec.Value.{Value}
use crosspaste_server.Database.Tables.{Database, fault, later}
use crosspaste_server.Prelude.{
  Bool, Comparable, Exec, List, Option, Result, String, arith, err, false, length, map,
  nat_Comparable, none, ok, ok_or, pair_Comparable, some, string_Comparable, true, ℕ, ◌==◌, ◌↔◌,
  ◌≡◌,
}
use crosspaste_server.Prelude.Int.{int_Comparable, pos, ℤ}
use crosspaste_server.Prelude.Map.{Map, contains_key, insert, lookup}
use crosspaste_server.Prelude.Text.{codes_Comparable}
use crosspaste_server.Secure.Messages.{ServerKeys}
use crosspaste_server.SyncInfo.Info.{SyncInfo}

abbrev pub pairing_token_ttl_ms : ℤ
pairing_token_ttl_ms = pos 30_000

-- 0 stands for no token.
pub record PairingToken : Type 0 where
  pub value : ℕ
  pub expires_at_ms : ℤ
  pub client_id : Option String

pub record PendingKeyExchange : Type 0 where
  pub sign_public_key : String
  pub crypt_public_key : List ℕ
  pub sas : ℕ
  pub expires_at_ms : ℤ

-- The directories of transfers, by the number in their names: `transfers/<id>` for what a client
-- pushes, and `transfers/pull-<id>` for what the server pulls.
pub data Directory : Type 0 where
  pushed : ℤ → Directory
  pulled : ℤ → Directory

abbrev pub same_directory : Directory → Directory → Bool
same_directory (pushed a) (pushed b) = a == b
same_directory (pulled a) (pulled b) = a == b
same_directory _ _ = false

pub same_directory_iff : (a b : Directory) → (same_directory a b ≡ true) ↔ (a ≡ b)
same_directory_iff (pushed a) (pushed b) = ground (arith, int_Comparable.same_iff a b)
same_directory_iff (pulled a) (pulled b) = ground (arith, int_Comparable.same_iff a b)
same_directory_iff (pushed a) (pulled b) = ground arith
same_directory_iff (pulled a) (pushed b) = ground arith

instance abbrev pub directory_Comparable : Comparable Directory
directory_Comparable = record { same = same_directory; same_iff = same_directory_iff }

-- `received` is behind a lock of its own; a session in the map is shared, so it changes in place.
pub record PushSession : Type 0 where
  pub paste_id : ℤ
  pub from_app_instance_id : String
  pub paste : Value
  pub token : String
  pub chunk_count : ℕ
  pub received : List Bool
  pub directory : Directory

pub record StoredFile : Type 0 where
  pub directory : Directory
  pub chunk_count : ℕ

pub record PairedClient : Type 0 where
  pub app_instance_id : String
  pub paired_at_ms : ℤ

-- The files `<index>.chunk` of the directories, and the icons by name. `file_faults` says how the next calls end, as
-- `faults` of the database does.
pub record Files : Type 0 where
  pub file_faults : List (Option String)
  pub chunk_files : Map (Directory × ℕ) (List ℕ)
  pub icons : Map (List ℕ) (List ℕ)

-- A key of `pastes` is the text `<client>:<paste>`, from which both can be read back.
pub record Hub : Type 0 where
  pub keys : ServerKeys
  pub database : Database
  pub files : Files
  pub pairing_token : PairingToken
  pub clients : Map String PairedClient
  pub client_crypt_keys : Map String (List ℕ)
  pub pending_key_exchanges : Map String PendingKeyExchange
  pub client_sync_infos : Map String SyncInfo
  pub pastes : Map (String × ℤ) Value
  pub push_sessions : Map ℤ PushSession
  pub stored_files : Map ℤ StoredFile

-- A call of the hub: an error leaves what was written before it.
abbrev pub Action : Type 0 → Type 0
Action = Exec Hub String

abbrev within_database : {A : Type 0} → Result String A × Database → Hub → Result String A × Hub
within_database (r, d) h = (r, record h { database = d })

-- A call of the database, and one of the file system.
abbrev pub on_database : {A : Type 0} → Exec Database String A → Action A
on_database m h = within_database (m h.database) h

abbrev within_files : {A : Type 0} → Result String A × Files → Hub → Result String A × Hub
within_files (r, f) h = (r, record h { files = f })

abbrev pub on_files : {A : Type 0} → Exec Files String A → Action A
on_files m h = within_files (m h.files) h

abbrev opened : Files → Files
opened f = record f { file_faults = later f.file_faults }

abbrev closed_with :
    {A : Type 0} → Option String → Result String A → Files → Files → Result String A × Files
closed_with none r after before = (r, after)
closed_with (some m) r after before = (err m, before)

-- `std::fs::create_dir_all`: no directory is ever taken away, so it leaves no other trace.
unfoldable pub create_dir_all : Exec Files String Unit
create_dir_all f = closed_with (fault f.file_faults) (ok tt) (opened f) (opened f)

-- `std::fs::write` of a chunk file.
unfoldable pub write_chunk : Directory → ℕ → List ℕ → Exec Files String Unit
write_chunk directory i bytes f =
    closed_with (fault f.file_faults) (ok tt)
      (record (opened f) { chunk_files = insert (directory, i) bytes f.chunk_files }) (opened f)

-- `std::fs::read` of a chunk file.
unfoldable pub read_chunk : Directory → ℕ → Exec Files String (List ℕ)
read_chunk directory i f =
    closed_with (fault f.file_faults) (ok_or "no such file" (lookup (directory, i) f.chunk_files))
      (opened f) (opened f)

-- `std::fs::write` and `std::fs::read` of an icon.
unfoldable pub write_icon : List ℕ → List ℕ → Exec Files String Unit
write_icon name bytes f =
    closed_with (fault f.file_faults) (ok tt)
      (record (opened f) { icons = insert name bytes f.icons }) (opened f)

unfoldable pub open_icon : List ℕ → Exec Files String (List ℕ)
open_icon name f =
    closed_with (fault f.file_faults) (ok_or "no such file" (lookup name f.icons)) (opened f)
      (opened f)

unfoldable pub is_paired : String → Hub → Bool
is_paired id h = contains_key id h.clients

unfoldable pub paired_count : Hub → ℕ
paired_count h = length h.clients

unfoldable pub list_clients : Hub → List PairedClient
list_clients h = map (λ (id, client). client) h.clients

unfoldable pub client_sync_info : String → Hub → Option SyncInfo
client_sync_info id h = lookup id h.client_sync_infos
