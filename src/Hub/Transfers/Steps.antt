-- ===== src/Hub/Transfers/Steps.antt =====
-- hub.rs: every chunk that a session counts as received is in a file and in the database.
use crosspaste_server.Codec.Value.{Value}
use crosspaste_server.Hub.Push.{mark_received, new_session}
use crosspaste_server.Hub.State.{Directory, PushSession, directory_Comparable, pushed}
use crosspaste_server.Hub.Transfers.Places.{Places}
use crosspaste_server.Prelude.{
  Bool-cases, Comparable, List, String, ap, arith, false, get_elem?, get_elem?-set_ne, inl, inr,
  is_some, length, length-replicate, length-set, nat_Comparable, pair_Comparable, refl, replicate,
  set, some, string_Comparable, subst, suc, sym, true, zero, ℕ, ◌==◌, ◌∙◌, ◌≡◌, ◌≢◌,
}
use crosspaste_server.Prelude.Int.{as_i64, int_Comparable, ℤ}
use crosspaste_server.Prelude.Map.{
  Map, insert, lookup, lookup-insert, lookup-insert_self, lookup-without, without,
}
use crosspaste_server.Registry.State.{new}

-- What holds of the session of a push.
pub record Holding (paste_id : ℤ) (s : PushSession) (p : Places) : Type 0 where
  pub sized : length s.received ≡ s.chunk_count
  pub named : s.paste_id ≡ paste_id
  pub placed : s.directory ≡ pushed paste_id
  pub on_disk :
      (i : ℕ)
      → get_elem? s.received i ≡ some true
      → is_some (lookup (pushed paste_id, i) p.file_map) ≡ true
  pub in_table :
      (i : ℕ)
      → get_elem? s.received i ≡ some true
      → is_some (lookup (paste_id, as_i64 i) p.chunk_map) ≡ true

abbrev pub Holdings : Places → Type 0
Holdings p =
    (paste_id : ℤ) (s : PushSession) → lookup paste_id p.session_map ≡ some s → Holding paste_id s p

is_some-insert {ℓ κ} :
    {K : Type ℓ} {V : Type κ} ⦃e : Comparable K⦄ (k j : K) (v : V) (m : Map K V)
    → is_some (lookup j m) ≡ true
    → is_some (lookup j (insert k v m)) ≡ true
is_some-insert k j v m h = rw (lookup-insert k j v m) (ground (arith, h))

pub filed :
    (d : Directory) (i : ℕ) (bytes : List ℕ) (p : Places)
    → Holdings p
    → Holdings (record p { file_map = insert (d, i) bytes p.file_map })
filed d i bytes p h paste_id s e =
    let k = h paste_id s e in
    record {
      sized = k.sized;
      named = k.named;
      placed = k.placed;
      on_disk = λ j r. is_some-insert (d, i) (pushed paste_id, j) bytes p.file_map (k.on_disk j r);
      in_table = k.in_table;
    }

pub tabled :
    (id : ℤ) (i : ℤ) (bytes : List ℕ) (p : Places)
    → Holdings p
    → Holdings (record p { chunk_map = insert (id, i) bytes p.chunk_map })
tabled id i bytes p h paste_id s e =
    let k = h paste_id s e in
    record {
      sized = k.sized;
      named = k.named;
      placed = k.placed;
      on_disk = k.on_disk;
      in_table =
          λ j r. is_some-insert (id, i) (paste_id, as_i64 j) bytes p.chunk_map (k.in_table j r);
    }

pub ended :
    (id : ℤ) (p : Places)
    → Holdings p
    → Holdings (record p { session_map = without id p.session_map })
ended id p h paste_id s e =
    let k = h paste_id s there in
    record {
      sized = k.sized;
      named = k.named;
      placed = k.placed;
      on_disk = k.on_disk;
      in_table = k.in_table;
    }
  where
    there : lookup paste_id p.session_map ≡ some s
    there = ground (arith, e, lookup-without id paste_id p.session_map)

-- A session that is put under an identifier holds, if it holds there.
pub put_push_session :
    (id : ℤ) (new : PushSession) (p : Places)
    → Holding id new p
    → Holdings p
    → Holdings (record p { session_map = insert id new p.session_map })
put_push_session id new p k h paste_id s e = elim (Bool-cases (id == paste_id)) [
  | inl hit ↦
      mine ((int_Comparable.same_iff id paste_id).0 hit)
        (ground (arith, e, hit, lookup-insert id paste_id new p.session_map))
  | inr miss ↦ other (ground (arith, e, miss, lookup-insert id paste_id new p.session_map))
]
  where
    Goal : Type 0
    Goal = Holding paste_id s (record p { session_map = insert id new p.session_map })

    widen :
        {t : PushSession} {j : ℤ}
        → Holding j t p
        → Holding j t (record p { session_map = insert id new p.session_map })
    widen k = record {
      sized = k.sized;
      named = k.named;
      placed = k.placed;
      on_disk = k.on_disk;
      in_table = k.in_table;
    }

    mine : id ≡ paste_id → new ≡ s → Goal
    mine i n =
        subst (λ j. Holding j s (record p { session_map = insert id new p.session_map })) i
          (subst (λ t. Holding id t (record p { session_map = insert id new p.session_map })) n
            (widen k))

    other : lookup paste_id p.session_map ≡ some s → Goal
    other f = widen (h paste_id s f)

none_received : (n i : ℕ) → get_elem? (replicate n false) i ≢ some true
none_received zero i e = cc
none_received (suc n) zero e = cc
none_received (suc n) (suc i) e = none_received n i e

pub fresh :
    (id : String) (paste : Value) (now : ℤ) (token : String) (n : ℕ) (p : Places)
    → Holding now (new_session now id paste token n) p
fresh id paste now token n p = record {
  sized = length-replicate n false;
  named = refl;
  placed = refl;
  on_disk = λ i r. absurd (none_received n i r);
  in_table = λ i r. absurd (none_received n i r);
}

-- The session whose chunk `i` has just been written.
pub marked :
    (paste_id : ℤ) (s : PushSession) (i : ℕ) (bytes : List ℕ) (p : Places)
    → Holding paste_id s p
    → Holding paste_id (mark_received i s) (record p {
      file_map = insert (s.directory, i) bytes p.file_map;
      chunk_map = insert (paste_id, as_i64 i) bytes p.chunk_map;
    })
unfolding mark_received
marked paste_id s i bytes p k = record {
  sized = length-set s.received i true ∙ k.sized;
  named = k.named;
  placed = k.placed;
  on_disk = λ j r. elim (Bool-cases (i == j)) [
    | inl hit ↦
        rw (k.placed, (nat_Comparable.same_iff i j).0 hit)
          (ap is_some (lookup-insert_self (pushed paste_id, j) bytes p.file_map))
    | inr miss ↦
        is_some-insert (s.directory, i) (pushed paste_id, j) bytes p.file_map
          (k.on_disk j (before j miss r))
  ];
  in_table = λ j r. elim (Bool-cases (i == j)) [
    | inl hit ↦
        rw ((nat_Comparable.same_iff i j).0 hit)
          (ap is_some (lookup-insert_self (paste_id, as_i64 j) bytes p.chunk_map))
    | inr miss ↦
        is_some-insert (paste_id, as_i64 i) (paste_id, as_i64 j) bytes p.chunk_map
          (k.in_table j (before j miss r))
  ];
}
  where
    before :
        (j : ℕ)
        → (i == j) ≡ false
        → get_elem? (set s.received i true) j ≡ some true
        → get_elem? s.received j ≡ some true
    before j miss r =
        sym
          (get_elem?-set_ne s.received i j true (λ e. cc (miss, (nat_Comparable.same_iff i j).1 e)))
        ∙ r
