-- ===== src/Hub/Transfers/Complete.antt =====
-- hub.rs: what `complete_push` answers, and what is on the disk when it does.
use crosspaste_server.Hub.Push.{
  CompletedPush, PushCompleteResponse, complete_push, completed_of, finish_push, missing_from,
  session_for,
}
use crosspaste_server.Hub.State.{Hub, PushSession}
use crosspaste_server.Hub.Transfers.Places.{Holds, session_for-Holds}
use crosspaste_server.Prelude.{
  Bool, In, List, Option, Result, String, [], arith, err, false, get_elem?, get_elem?-below, inl,
  inr, length, nat_Comparable, none, ok, pair_Comparable, refl, some, string_Comparable, subst, suc,
  true, zero, ℕ, ◌+◌, ◌<◌, ◌↔◌, ◌∷◌, ◌≡◌, ◌⊎◌,
}
use crosspaste_server.Prelude.Int.{int_Comparable, ℤ}
use crosspaste_server.Prelude.Map.{without}

missing_sound :
    (start : ℕ) (marks : List Bool) (i : ℕ)
    → In i (missing_from start marks)
    → (k : ℕ) × (start + k ≡ i) × (get_elem? marks k ≡ some false)
unfolding missing_from
missing_sound start [] i h = elim h [ ]
missing_sound start (true ∷ marks) i h =
    let (k, e, g) = missing_sound (start + 1) marks i h in (suc k, omega (arith, e), g)
missing_sound start (false ∷ marks) i (inl e) = (0, omega (arith, e), refl)
missing_sound start (false ∷ marks) i (inr h) =
    let (k, e, g) = missing_sound (start + 1) marks i h in (suc k, omega (arith, e), g)

missing_complete :
    (start : ℕ) (marks : List Bool) (k : ℕ)
    → get_elem? marks k ≡ some false
    → In (start + k) (missing_from start marks)
unfolding missing_from
missing_complete start [] k h = cc
missing_complete start (true ∷ marks) zero h = cc
missing_complete start (true ∷ marks) (suc k) h =
    subst (λ n. In n (missing_from (start + 1) marks)) (omega arith)
      (missing_complete (start + 1) marks k h)
missing_complete start (false ∷ marks) zero h = inl (omega arith)
missing_complete start (false ∷ marks) (suc k) h = inr (
    subst (λ n. In n (missing_from (start + 1) marks)) (omega arith)
      (missing_complete (start + 1) marks k h))

missing_at :
    (marks : List Bool) (k : ℕ) → get_elem? marks k ≡ some false → In k (missing_from 0 marks)
missing_at marks k h =
    subst (λ n. In n (missing_from 0 marks)) (omega arith) (missing_complete 0 marks k h)

none_missing :
    (marks : List Bool) (i : ℕ)
    → missing_from 0 marks ≡ []
    → i < length marks
    → get_elem? marks i ≡ some true
none_missing marks i e lt = let (b, g) = get_elem?-below marks i lt in go b g
  where
    go : (b : Bool) → get_elem? marks i ≡ some b → get_elem? marks i ≡ some true
    go true g = g
    go false g = elim (rw e at (missing_at marks i g)) [ ]

-- How a call of `complete_push` ends: with the places of the chunks that are missing, or with the
-- push taken out of the map.
pub data Completes (paste_id : ℤ) (h : Hub) (s : PushSession)
    : Result String (PushCompleteResponse × Option CompletedPush) × Hub → Type 0 where
  incomplete :
      (i : ℕ) (missing : List ℕ)
      → ((j : ℕ) → In j (i ∷ missing) ↔ (get_elem? s.received j ≡ some false))
      → Completes paste_id h s (ok (record { missing_chunks = i ∷ missing }, none), h)
  finished :
      ((j : ℕ) → j < length s.received → get_elem? s.received j ≡ some true)
      → Completes paste_id h s (
        ok (record { missing_chunks = [] }, some (completed_of s)),
        record h { push_sessions = without paste_id h.push_sessions },
      )

module _ (id : String) (paste_id : ℤ) (token : String) (h : Hub) where
  pub complete_push-Completes :
      ((s : PushSession) × Holds id paste_id token h s
        × Completes paste_id h s (complete_push id paste_id token h))
      ⊎ ((m : String) × (complete_push id paste_id token h ≡ (err m, h)))
  complete_push-Completes = elim (session_for-Holds id paste_id token h) [
    | inr (m, e) ↦ inr (m, refused m e)
    | inl (s, holds, e) ↦ inl (s, holds, go s e (missing_from 0 s.received) refl)
  ]
    where
      refused :
          (m : String)
          → session_for id paste_id token h ≡ (err m, h)
          → complete_push id paste_id token h ≡ (err m, h)
      refused m e = unfold complete_push in rw e refl

      listed :
          (s : PushSession) (j : ℕ)
          → In j (missing_from 0 s.received) ↔ (get_elem? s.received j ≡ some false)
      listed s j = (
        λ m.
            let (k, e, g) = missing_sound 0 s.received j m in
            let same : k ≡ j = omega (arith, e) in rw (← same) g,
        λ g. missing_at s.received j g,
      )

      go :
          (s : PushSession)
          → session_for id paste_id token h ≡ (ok s, h)
          → (missing : List ℕ) → missing_from 0 s.received ≡ missing
          → Completes paste_id h s (complete_push id paste_id token h)
      go s e [] m =
          unfold complete_push finish_push in
          rw e (rw m (finished (λ j. none_missing s.received j m)))
      go s e (i ∷ missing) m =
          unfold complete_push finish_push in
          rw e (
            rw m (
              incomplete i missing
                (λ j. subst (λ l. In j l ↔ (get_elem? s.received j ≡ some false)) m (listed s j))))
