-- ===== src/Hub/Push.antt =====
-- hub.rs: a client pushes a file in chunks.
use crosspaste_server.Codec.Value.{Value, as_u64, get}
use crosspaste_server.Database.Contents.{save_file_chunk}
use crosspaste_server.Hub.State.{
  Action, Directory, PushSession, create_dir_all, is_paired, on_database, on_files, pushed,
  write_chunk,
}
use crosspaste_server.Prelude.{
  Bool, List, Option, String, [], and_then, ensure, eqb, false, gets, if◌then◌else◌, lift, ltb,
  modify, nat_Comparable, none, ok_or, pair_Comparable, pure, replicate, set, some,
  string_Comparable, true, ℕ, ◌%◌, ◌*◌, ◌+◌, ◌/◌, ◌==◌, ◌>>=◌, ◌>>◌, ◌∷◌,
}
use crosspaste_server.Prelude.Int.{int_Comparable, ℤ}
use crosspaste_server.Prelude.Map.{insert, lookup, without}

abbrev pub file_chunk_size : ℕ
file_chunk_size = 1024 * 1024

pub record PushPrepareResponse : Type 0 where
  pub paste_id : ℤ
  pub chunk_count : ℕ
  pub chunk_size : ℕ
  pub session_token : String
  pub need_icon : Bool

pub record PushCompleteResponse : Type 0 where
  pub missing_chunks : List ℕ

pub record CompletedPush : Type 0 where
  pub paste_id : ℤ
  pub from_app_instance_id : String
  pub paste : Value
  pub chunk_count : ℕ
  pub directory : Directory

-- `u64::div_ceil`
unfoldable pub div_ceil : ℕ → ℕ → ℕ
div_ceil n d = if eqb (n % d) 0 then n / d else n / d + 1

abbrev pub new_session : ℤ → String → Value → String → ℕ → PushSession
new_session paste_id id paste token chunk_count = record {
  paste_id = paste_id;
  from_app_instance_id = id;
  paste = paste;
  token = token;
  chunk_count = chunk_count;
  received = replicate chunk_count false;
  directory = pushed paste_id;
}

-- The identifier of the push is the time of the call; `token` is a new UUID.
unfoldable pub prepare_push :
    String → Value → (now : ℤ) → (token : String) → Action PushPrepareResponse
unfolding is_paired div_ceil
prepare_push id paste now token = do
  paired ← gets (is_paired id)
  ensure paired "unpaired client"
  size ← lift (ok_or "file paste is missing size" (and_then as_u64 (get "size" paste)))
  ensure (ltb 0 size) "file paste size must be positive"
  let chunk_count = div_ceil size file_chunk_size
  on_files create_dir_all
  modify (λ h. record h {
    push_sessions = insert now (new_session now id paste token chunk_count) h.push_sessions;
  })
  pure (record {
    paste_id = now;
    chunk_count = chunk_count;
    chunk_size = file_chunk_size;
    session_token = token;
    need_icon = false;
  })

-- The session of a call, which must be of this client and have this token.
unfoldable pub session_for : String → ℤ → String → Action PushSession
session_for id paste_id token = do
  found ← gets (λ h. lookup paste_id h.push_sessions)
  session ← lift (ok_or "push session not found" found)
  ensure (session.from_app_instance_id == id) "push session owner mismatch"
  ensure (session.token == token) "invalid push session token"
  pure session

unfoldable pub mark_received : ℕ → PushSession → PushSession
mark_received i session = record session { received = set session.received i true }

unfoldable pub store_push_chunk : String → ℤ → ℕ → String → List ℕ → Action Unit
unfolding session_for mark_received
store_push_chunk id paste_id chunk_index token bytes = do
  session ← session_for id paste_id token
  ensure (ltb chunk_index session.chunk_count) "chunk index out of range"
  on_files (write_chunk session.directory chunk_index bytes)
  on_database (save_file_chunk paste_id chunk_index bytes)
  modify (λ h. record h {
    push_sessions = insert paste_id (mark_received chunk_index session) h.push_sessions;
  })

-- The places of `false`, counted from `i`.
unfoldable pub missing_from : ℕ → List Bool → List ℕ
missing_from i [] = []
missing_from i (got ∷ rest) =
    let later = missing_from (i + 1) rest in if got then later else i ∷ later

abbrev pub completed_of : PushSession → CompletedPush
completed_of session = record {
  paste_id = session.paste_id;
  from_app_instance_id = session.from_app_instance_id;
  paste = session.paste;
  chunk_count = session.chunk_count;
  directory = session.directory;
}

unfoldable pub finish_push :
    List ℕ → ℤ → PushSession → Action (PushCompleteResponse × Option CompletedPush)
finish_push (i ∷ missing) paste_id session = pure (record { missing_chunks = i ∷ missing }, none)
finish_push [] paste_id session = do
  modify (λ h. record h { push_sessions = without paste_id h.push_sessions })
  pure (record { missing_chunks = [] }, some (completed_of session))

unfoldable pub complete_push :
    String → ℤ → String → Action (PushCompleteResponse × Option CompletedPush)
unfolding session_for missing_from finish_push
complete_push id paste_id token = do
  session ← session_for id paste_id token
  finish_push (missing_from 0 session.received) paste_id session
