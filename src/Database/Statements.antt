-- ===== src/Database/Statements.antt =====
-- database.rs: how a statement ends, by cases.
use crosspaste_server.Database.Tables.{Database, execute, fault, query, started}
use crosspaste_server.Prelude.{Option, String, err, inl, inr, none, ok, refl, some, ◌≡◌, ◌⊎◌}

pub execute-either :
    (f : Database → Database) (d : Database)
    → (execute f d ≡ (ok tt, f (started d))) ⊎ ((m : String) × (execute f d ≡ (err m, started d)))
unfolding execute
execute-either f d = go (fault d.faults) refl
  where
    go :
        (o : Option String)
        → fault d.faults ≡ o
        → (execute f d ≡ (ok tt, f (started d)))
          ⊎ ((m : String) × (execute f d ≡ (err m, started d)))
    go none e = inl (rw e refl)
    go (some m) e = inr (m, rw e refl)

pub query-either :
    {A : Type 0} (f : Database → A) (d : Database)
    → (query f d ≡ (ok (f d), started d)) ⊎ ((m : String) × (query f d ≡ (err m, started d)))
unfolding query
query-either f d = go (fault d.faults) refl
  where
    go :
        (o : Option String)
        → fault d.faults ≡ o
        → (query f d ≡ (ok (f d), started d)) ⊎ ((m : String) × (query f d ≡ (err m, started d)))
    go none e = inl (rw e refl)
    go (some m) e = inr (m, rw e refl)

-- What a statement does not write stays, whether it fails or not.
pub field-execute :
    {A : Type 0} (field : Database → A) (f : Database → Database) (d : Database)
    → field (started d) ≡ field d
    → field (f (started d)) ≡ field d
    → field (execute f d).1 ≡ field d
field-execute field f d h k = elim (execute-either f d) [ inl e ↦ rw e k | inr w ↦ rw w.1 h ]
