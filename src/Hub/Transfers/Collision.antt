-- ===== src/Hub/Transfers/Collision.antt =====
-- hub.rs: two pushes that are prepared within one millisecond.
use crosspaste_server.Codec.Value.{Value, as_u64, get}
use crosspaste_server.Hub.Push.{
  PushPrepareResponse, complete_push, div_ceil, file_chunk_size, new_session, prepare_push,
  session_for, store_push_chunk,
}
use crosspaste_server.Hub.State.{Hub, create_dir_all}
use crosspaste_server.Prelude.{
  List, Option, String, and_then, arith, err, nat_Comparable, none, ok, pair_Comparable, refl, some,
  string_Comparable, ℕ, ◌≡◌, ◌≢◌,
}
use crosspaste_server.Prelude.Int.{int_Comparable, ℤ}
use crosspaste_server.Prelude.Map.{lookup, lookup-insert_self, same_ne}

prepared :
    (id : String) (paste : Value) (now : ℤ) (token : String) (h q : Hub)
    (response : PushPrepareResponse)
    → prepare_push id paste now token h ≡ (ok response, q)
    → (n : ℕ) × (lookup now q.push_sessions ≡ some (new_session now id paste token n))
prepared id paste now token h q response e = go (and_then as_u64 (get "size" paste)) refl
  where
    go :
        (o : Option ℕ)
        → and_then as_u64 (get "size" paste) ≡ o
        → (n : ℕ) × (lookup now q.push_sessions ≡ some (new_session now id paste token n))
    go none s = unfold prepare_push create_dir_all in absurd (ground (arith, e, s))
    go (some size) s = (
      div_ceil size file_chunk_size,
      unfold prepare_push create_dir_all in
          ground (
            arith,
            e,
            s,
            lookup-insert_self now (new_session now id paste token (div_ceil size file_chunk_size))
                h.push_sessions,
          ),
    )

-- When a second client prepares a push in the millisecond of the first one's, the first one's
-- session is gone, though both were told of success: its chunks are refused, and so is its
-- completion.
pub store_push_chunk-prepare_push_twice :
    (first second : String) (paste other : Value) (now : ℤ) (token token' : String) (h h1 h2 : Hub)
    (r1 r2 : PushPrepareResponse)
    → second ≢ first
    → prepare_push first paste now token h ≡ (ok r1, h1)
    → prepare_push second other now token' h1 ≡ (ok r2, h2)
    → ((i : ℕ) (bytes : List ℕ)
        → store_push_chunk first now i token bytes h2 ≡ (err "push session owner mismatch", h2))
      × (complete_push first now token h2 ≡ (err "push session owner mismatch", h2))
store_push_chunk-prepare_push_twice first second paste other now token token' h h1 h2 r1 r2 ne e1
      e2 =
    let (n, found) = prepared second other now token' h1 h2 r2 e2 in
    (
      λ i bytes.
          unfold store_push_chunk session_for in rw found (rw (same_ne second first ne) refl),
      unfold complete_push session_for in rw found (rw (same_ne second first ne) refl),
    )
