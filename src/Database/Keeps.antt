-- ===== src/Database/Keeps.antt =====
-- database.rs: statements keep what their writes keep, of any property that does not read `faults`.
use crosspaste_server.Database.Statements.{execute-either, query-either}
use crosspaste_server.Database.Tables.{Database, execute, query, rolled_back, started, transaction}
use crosspaste_server.Prelude.{Exec, List, Option, Result, String, err, inl, inr, ok, subst, sym}
use crosspaste_server.Prelude.Keeps.{Keeps}

module _ {P : Database → Type 0}
    (steady : (d : Database) (fs : List (Option String)) → P d → P (record d { faults = fs })) where
  pub execute-Keeps :
      (f : Database → Database) → ((d : Database) → P d → P (f d)) → Keeps P (execute f)
  execute-Keeps f h = record {
    keeps = λ d p. elim (execute-either f d) [
      | inl e ↦
          subst (λ (o : Result String Unit × Database). P o.1) (sym e)
            (h (started d) (steady d _ p))
      | inr w ↦ subst (λ (o : Result String Unit × Database). P o.1) (sym w.1) (steady d _ p)
    ];
  }

  pub query-Keeps : {A : Type 0} (f : Database → A) → Keeps P (query f)
  query-Keeps {A = A} f = record {
    keeps = λ d p. elim (query-either f d) [
      | inl e ↦ subst (λ (o : Result String A × Database). P o.1) (sym e) (steady d _ p)
      | inr w ↦ subst (λ (o : Result String A × Database). P o.1) (sym w.1) (steady d _ p)
    ];
  }

  -- A transaction that fails falls back to the tables of before.
  pub transaction-Keeps :
      {A : Type 0} {m : Exec Database String A} → Keeps P m → Keeps P (transaction m)
  unfolding transaction
  transaction-Keeps {A = A} {m = m} h = record { keeps = λ d p. go d p (m d) (h.keeps d p) }
    where
      go : (d : Database) → P d → (o : Result String A × Database) → P o.1 → P (rolled_back o d).1
      go d p (ok a, q) k = k
      go d p (err e, q) k = steady d _ p
