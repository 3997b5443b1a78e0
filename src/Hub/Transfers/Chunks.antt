-- ===== src/Hub/Transfers/Chunks.antt =====
-- hub.rs: the chunks that were stored can be read.
use crosspaste_server.Database.Contents.{load_file_chunk, save_file_chunk}
use crosspaste_server.Database.Tables.{execute, fault, query}
use crosspaste_server.Hub.Contents.{read_chunks, read_completed_push, read_file_chunk}
use crosspaste_server.Hub.Push.{
  CompletedPush, PushCompleteResponse, complete_push, completed_of, store_push_chunk,
}
use crosspaste_server.Hub.State.{
  Directory, Files, Hub, PushSession, directory_Comparable, read_chunk, write_chunk,
}
use crosspaste_server.Hub.Transfers.Complete.{
  Completes, complete_push-Completes, finished, incomplete,
}
use crosspaste_server.Hub.Transfers.Places.{Holds, places}
use crosspaste_server.Hub.Transfers.Steps.{Holdings}
use crosspaste_server.Prelude.{
  List, Option, Result, String, [], ap, arith, continue, err, inl, inr, is_ok, is_some,
  nat_Comparable, none, ok, pair_Comparable, pure, refl, some, string_Comparable, suc, true, zero,
  ℕ, ◌++◌, ◌+◌, ◌<◌, ◌∙◌, ◌≡◌, ◌≤◌,
}
use crosspaste_server.Prelude.Int.{as_i64, int_Comparable, ℤ}
use crosspaste_server.Prelude.Map.{lookup, lookup-insert_self}

-- A chunk that was stored is what is read next, if the database answers.
pub read_file_chunk-store_push_chunk :
    (id : String) (paste_id : ℤ) (i : ℕ) (token : String) (bytes : List ℕ) (h q : Hub)
    → store_push_chunk id paste_id i token bytes h ≡ (ok tt, q)
    → fault q.database.faults ≡ none
    → (read_file_chunk paste_id i q).0 ≡ ok bytes
read_file_chunk-store_push_chunk id paste_id i token bytes h q e f =
    unfold read_file_chunk load_file_chunk query in rw (f, there) refl
  where
    there : lookup (paste_id, as_i64 i) q.database.file_chunks ≡ some bytes
    there =
        unfold store_push_chunk write_chunk save_file_chunk execute in
        ground (arith, e, lookup-insert_self (paste_id, as_i64 i) bytes h.database.file_chunks)

appended :
    (bytes : List ℕ) (r : Result String (List ℕ)) (f : Files)
    → is_ok r ≡ true
    → is_ok (continue {S = Files} r (λ rest. pure (bytes ++ rest)) f).0 ≡ true
appended bytes (ok rest) f h = refl
appended bytes (err m) f h = cc

-- Reading in a file system without faults goes through when the files are there.
read_chunks-ok :
    (d : Directory) (i n : ℕ) (f : Files)
    → f.file_faults ≡ []
    → ((j : ℕ) → i ≤ j → j < i + n → is_some (lookup (d, j) f.chunk_files) ≡ true)
    → is_ok (read_chunks d i n f).0 ≡ true
unfolding read_chunks read_chunk
read_chunks-ok d i zero f e h = refl
read_chunks-ok d i (suc n) f e h = go (lookup (d, i) f.chunk_files) refl (
    read_chunks-ok d (i + 1) n (record f { file_faults = [] }) refl
      (λ j le lt. h j (omega arith) (omega arith)))
  where
    go :
        (o : Option (List ℕ))
        → lookup (d, i) f.chunk_files ≡ o
        → is_ok (read_chunks d (i + 1) n (record f { file_faults = [] })).0 ≡ true
        → is_ok (read_chunks d i (suc n) f).0 ≡ true
    go none g rest = absurd (cc (h i (omega arith) (omega arith), g))
    go (some bytes) g rest = rw e (rw g (appended bytes _ _ rest))

module _ (id : String) (paste_id : ℤ) (token : String) (h q : Hub) where
  -- When the sessions are as they are after any calls, the files of a push that `complete_push`
  -- hands on can all be read, if the file system has no fault.
  pub read_completed_push-complete_push :
      (response : PushCompleteResponse) (completed : CompletedPush)
      → Holdings (places h)
      → complete_push id paste_id token h ≡ (ok (response, some completed), q)
      → q.files.file_faults ≡ []
      → is_ok (read_completed_push completed q.files).0 ≡ true
  read_completed_push-complete_push response completed holdings e f =
      elim (complete_push-Completes id paste_id token h) [
        | inr (m, r) ↦ absurd (cc (e, r))
        | inl (s, holds, done) ↦ go s holds (complete_push id paste_id token h) done e
      ]
    where
      go :
          (s : PushSession)
          → Holds id paste_id token h s
          → (r : Result String (PushCompleteResponse × Option CompletedPush) × Hub)
          → Completes paste_id h s r
          → r ≡ (ok (response, some completed), q)
          → is_ok (read_completed_push completed q.files).0 ≡ true
      go s holds r (incomplete i missing x) e = absurd (ground (arith, e))
      go s holds r (finished all_marked) e =
          let k = holdings paste_id s holds.found in
          let c : completed_of s ≡ completed = ground (arith, e) in
          let files : h.files ≡ q.files = ground (arith, e) in
          rw (← c) (
            rw (← files) (
              unfold read_completed_push in
              read_chunks-ok s.directory 0 s.chunk_count h.files
                (ap (λ (x : Files). x.file_faults) files ∙ f)
                (λ j le lt. rw k.placed (k.on_disk j (all_marked j (omega (arith, k.sized, lt)))))))
