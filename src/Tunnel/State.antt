-- ===== src/Tunnel/State.antt =====
-- tunnel.rs: the state that all handlers share. Its database is the one that the hub writes to.
use crosspaste_server.Config.{Config}
use crosspaste_server.Database.Tables.{Database}
use crosspaste_server.Hub.State.{Hub}
use crosspaste_server.Prelude.{Exec, Result, ok}
use crosspaste_server.Registry.State.{Registry}

pub record AppState : Type 0 where
  pub registry : Registry
  pub config : Config
  pub hub : Hub

abbrev on_hub_result : {A E : Type 0} → Result E A × Hub → AppState → Result E A × AppState
on_hub_result (r, h) s = (r, record s { hub = h })

-- A call on a part of the state.
abbrev pub on_hub : {A E : Type 0} → Exec Hub E A → Exec AppState E A
on_hub m s = on_hub_result (m s.hub) s

abbrev pub on_database_result :
    {A E : Type 0} → Result E A × Database → AppState → Result E A × AppState
on_database_result (r, d) s = (r, record s { hub = record s.hub { database = d } })

abbrev pub on_state_database : {A E : Type 0} → Exec Database E A → Exec AppState E A
on_state_database m s = on_database_result (m s.hub.database) s

abbrev on_registry_result :
    {A E : Type 0} → Result E A × Registry → AppState → Result E A × AppState
on_registry_result (r, g) s = (r, record s { registry = g })

abbrev pub on_registry : {A E : Type 0} → Exec Registry E A → Exec AppState E A
on_registry m s = on_registry_result (m s.registry) s

abbrev pub modify_registry : {E : Type 0} → (Registry → Registry) → Exec AppState E Unit
modify_registry f s = (ok tt, record s { registry = f s.registry })

abbrev pub modify_hub : {E : Type 0} → (Hub → Hub) → Exec AppState E Unit
modify_hub f s = (ok tt, record s { hub = f s.hub })
