-- ===== src/Admin/Keeps.antt =====
-- admin.rs: the steps of a handler keep what the calls of the tables in them keep.
use crosspaste_server.Admin.Response.{
  Handler, Response, answered, as_response, flattened, ignore, ignored, or_internal, respond,
  settled,
}
use crosspaste_server.Database.Tables.{Database}
use crosspaste_server.Prelude.{Exec, Option, Result, String, err, ok}
use crosspaste_server.Prelude.Keeps.{Keeps}
use crosspaste_server.Tunnel.State.{AppState, on_database_result, on_state_database}

-- Any property of the tables, of the shared state.
abbrev pub InTables : (Database → Type 0) → AppState → Type 0
InTables P s = P s.hub.database

module _ {P : Database → Type 0} where
  pub on_state_database-Keeps :
      {E A : Type 0} {m : Exec Database E A} → Keeps P m → Keeps (InTables P) (on_state_database m)
  on_state_database-Keeps {E = E} {A = A} {m = m} h = record {
    keeps = λ s p. go s (m s.hub.database) (h.keeps s.hub.database p);
  }
    where
      go :
          (s : AppState) (o : Result E A × Database)
          → P o.1
          → P (on_database_result o s).1.hub.database
      go s (r, d) p = p

  pub flattened-Keeps :
      {E A : Type 0} {m : Exec Database String (Option A)}
      → Keeps P m
      → Keeps P (flattened {E = E} m)
  unfolding flattened
  flattened-Keeps {E = E} {A = A} {m = m} h = record { keeps = λ d p. go (m d) (h.keeps d p) }
    where
      go : (o : Result String (Option A) × Database) → P o.1 → P (settled {E = E} o).1
      go (ok a, d) p = p
      go (err e, d) p = p

  pub or_internal-Keeps :
      {A B : Type 0} {m : Exec Database String A} → Keeps P m → Keeps P (or_internal {B = B} m)
  unfolding or_internal
  or_internal-Keeps {A = A} {B = B} {m = m} h = record { keeps = λ d p. go (m d) (h.keeps d p) }
    where
      go : (o : Result String A × Database) → P o.1 → P (as_response {B = B} o).1
      go (ok a, d) p = p
      go (err e, d) p = p

  pub ignore-Keeps :
      {E A : Type 0} {m : Exec Database String A} → Keeps P m → Keeps P (ignore {E = E} m)
  unfolding ignore
  ignore-Keeps {E = E} {A = A} {m = m} h = record { keeps = λ d p. go (m d) (h.keeps d p) }
    where
      go : (o : Result String A × Database) → P o.1 → P (ignored {E = E} o).1
      go (r, d) p = p

pub respond-Keeps :
    (P : Database → Type 0) {A : Type 0} {m : Handler AppState A} (s : AppState)
    → Keeps (InTables P) m
    → P s.hub.database
    → P (respond m s).1.hub.database
unfolding respond
respond-Keeps P {A = A} {m = m} s h p = go (m s) (h.keeps s p)
  where
    go :
        (o : Result (Response A) (Response A) × AppState)
        → P o.1.hub.database
        → P (answered o).1.hub.database
    go (ok r, t) q = q
    go (err r, t) q = q
