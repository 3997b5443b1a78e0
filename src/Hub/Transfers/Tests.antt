-- ===== src/Hub/Transfers/Tests.antt =====
-- hub.rs: the theorems on transfers at concrete hubs.
use crosspaste_server.Codec.Value.{as_u64, get, null}
use crosspaste_server.Database.Contents.{save_file_chunk}
use crosspaste_server.Database.Tables.{execute}
use crosspaste_server.Hub.Contents.{read_completed_push, read_file_chunk}
use crosspaste_server.Hub.Push.{
  CompletedPush, PushPrepareResponse, complete_push, div_ceil, file_chunk_size, finish_push,
  mark_received, missing_from, new_session, prepare_push, session_for, store_push_chunk,
}
use crosspaste_server.Hub.Samples.{paste, ready, session, waiting}
use crosspaste_server.Hub.State.{
  Hub, create_dir_all, directory_Comparable, is_paired, pushed, write_chunk,
}
use crosspaste_server.Hub.Transfers.Chunks.{
  read_completed_push-complete_push, read_file_chunk-store_push_chunk,
}
use crosspaste_server.Hub.Transfers.Collision.{store_push_chunk-prepare_push_twice}
use crosspaste_server.Hub.Transfers.Places.{Places, places}
use crosspaste_server.Hub.Transfers.Steps.{Holdings, fresh, put_push_session}
use crosspaste_server.Prelude.{
  List, String, [], eq_iff, err, false, get_elem?, is_ok, is_some, nat_Comparable, none, ok,
  pair_Comparable, refl, some, string_Comparable, suc, true, zero, ℕ, ◌∷◌, ◌≡◌, ◌≢◌,
}
use crosspaste_server.Prelude.Int.{as_i64, int_Comparable, pos}
use crosspaste_server.Prelude.Map.{insert, lookup, without}

both_missing :
    complete_push "phone" (pos 4_000) "other" ready
    ≡ (ok (record { missing_chunks = 0 ∷ 1 ∷ [] }, none), ready)
unfolding complete_push session_for missing_from finish_push lookup
both_missing = refl

abbrev chunk_stored : Hub
chunk_stored = record ready {
  push_sessions =
      (pos 4_000, record waiting { received = false ∷ true ∷ [] }) ∷ (pos 3_000, session) ∷ [];
  files = record ready.files {
    chunk_files = ((pushed (pos 4_000), 1), 9 ∷ []) ∷ ready.files.chunk_files;
  };
  database = record ready.database {
    file_chunks = ((pos 4_000, pos 1), 9 ∷ []) ∷ ready.database.file_chunks;
  };
}

storing : store_push_chunk "phone" (pos 4_000) 1 "other" (9 ∷ []) ready ≡ (ok tt, chunk_stored)
unfolding store_push_chunk session_for write_chunk save_file_chunk execute mark_received lookup
    insert without as_i64
storing = refl

read_file_chunk-store_push_chunk_example :
    (read_file_chunk (pos 4_000) 1 chunk_stored).0 ≡ ok (9 ∷ [])
read_file_chunk-store_push_chunk_example =
    read_file_chunk-store_push_chunk "phone" (pos 4_000) 1 "other" (9 ∷ []) ready chunk_stored
      storing refl

abbrev unheld : Places
unheld = record (places ready) { session_map = [] }

on_disk :
    (i : ℕ)
    → get_elem? (true ∷ []) i ≡ some true
    → (is_some (lookup (pushed (pos 3_000), i) unheld.file_map) ≡ true)
      × (is_some (lookup (pos 3_000, as_i64 i) unheld.chunk_map) ≡ true)
unfolding as_i64 lookup
on_disk zero r = (refl, refl)
on_disk (suc i) r = cc

nothing_held : Holdings unheld
unfolding lookup
nothing_held paste_id s e = cc

ready-Holdings : Holdings (places ready)
unfolding insert without
ready-Holdings =
    put_push_session (pos 3_000) session (record unheld { session_map = (pos 4_000, waiting) ∷ [] })
      (record {
        sized = refl;
        named = refl;
        placed = refl;
        on_disk = λ i r. (on_disk i r).0;
        in_table = λ i r. (on_disk i r).1;
      })
      (put_push_session (pos 4_000) waiting unheld (fresh "phone" null (pos 4_000) "other" 2 unheld)
        nothing_held)

abbrev handed_on : Hub
handed_on = record ready { push_sessions = (pos 4_000, waiting) ∷ [] }

abbrev push : CompletedPush
push = record {
  paste_id = pos 3_000;
  from_app_instance_id = "phone";
  paste = null;
  chunk_count = 1;
  directory = pushed (pos 3_000);
}

completing :
    complete_push "phone" (pos 3_000) "token" ready
    ≡ (ok (record { missing_chunks = [] }, some push), handed_on)
unfolding complete_push session_for missing_from finish_push lookup without
completing = refl

read_completed_push-complete_push_example :
    is_ok (read_completed_push push handed_on.files).0 ≡ true
read_completed_push-complete_push_example =
    read_completed_push-complete_push "phone" (pos 3_000) "token" ready handed_on
      (record { missing_chunks = [] }) push ready-Holdings completing refl

abbrev tablet : String
tablet = "tablet"

different : tablet ≢ "phone"
different e = cc ((eq_iff "tablet" "phone").1 e)

abbrev tablet_first : Hub
tablet_first = record ready {
  clients = ("tablet", record { app_instance_id = "tablet"; paired_at_ms = pos 1 }) ∷ ready.clients;
}

abbrev prepared_once : Hub
prepared_once = record tablet_first {
  push_sessions =
      insert (pos 5_000) (new_session (pos 5_000) "phone" paste "a" 1) ready.push_sessions;
}

abbrev prepared_twice : Hub
prepared_twice = record tablet_first {
  push_sessions =
      insert (pos 5_000) (new_session (pos 5_000) "tablet" paste "b" 1) prepared_once.push_sessions;
}

abbrev answer : String → PushPrepareResponse
answer token = record {
  paste_id = pos 5_000;
  chunk_count = 1;
  chunk_size = file_chunk_size;
  session_token = token;
  need_icon = false;
}

first_prepared :
    prepare_push "phone" paste (pos 5_000) "a" tablet_first ≡ (ok (answer "a"), prepared_once)
unfolding prepare_push is_paired div_ceil create_dir_all get as_u64 lookup
first_prepared = refl

second_prepared :
    prepare_push "tablet" paste (pos 5_000) "b" prepared_once ≡ (ok (answer "b"), prepared_twice)
unfolding prepare_push is_paired div_ceil create_dir_all get as_u64 lookup
second_prepared = refl

store_push_chunk-prepare_push_twice_example :
    ((i : ℕ) (bytes : List ℕ)
      → store_push_chunk "phone" (pos 5_000) i "a" bytes prepared_twice
        ≡ (err "push session owner mismatch", prepared_twice))
    × (complete_push "phone" (pos 5_000) "a" prepared_twice
        ≡ (err "push session owner mismatch", prepared_twice))
store_push_chunk-prepare_push_twice_example =
    store_push_chunk-prepare_push_twice "phone" "tablet" paste paste (pos 5_000) "a" "b"
      tablet_first prepared_once prepared_twice (answer "a") (answer "b") different first_prepared
      second_prepared
