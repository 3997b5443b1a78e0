-- ===== src/Routes/Tests.antt =====
-- routes.rs: a paired phone sends a paste.
use crosspaste_server.Auth.{HeaderMap}
use crosspaste_server.Codec.{Json}
use crosspaste_server.Codec.Value.{Value}
use crosspaste_server.Hub.Samples.{paste, ready, values}
use crosspaste_server.Prelude.{[], err, ok, replicate, ◌∷◌}
use crosspaste_server.Prelude.Int.{pos}
use crosspaste_server.Prelude.Text.{codes}
use crosspaste_server.Registry.Samples.{config, start}
use crosspaste_server.Routes.Admits.{Admits, sync_paste-Admits}
use crosspaste_server.Routes.Pastes.{Formats, Server, sync_paste}
use crosspaste_server.Secure.Samples.{toy}

abbrev values_of : Json Value
values_of = record { to_vec = λ v. ok (123 ∷ 125 ∷ []); from_slice = λ s. ok paste }

abbrev formats : Formats
formats = record {
  pastes = values_of;
  paste_lists = record { to_vec = λ v. ok (91 ∷ 93 ∷ []); from_slice = λ s. err "not kept" };
  paste_texts = values;
  prepares = record { to_vec = λ v. ok (123 ∷ 125 ∷ []); from_slice = λ s. err "not kept" };
  pulls = record { to_vec = λ v. ok (123 ∷ 125 ∷ []); from_slice = λ s. err "not kept" };
  texts = record { to_vec = λ v. ok (34 ∷ 34 ∷ []); from_slice = λ s. err "not kept" };
}

abbrev headers : HeaderMap
headers = ("appinstanceid", codes "phone") ∷ ("targetappinstanceid", codes "crosspaste-server") ∷ []

abbrev server : Server
server = record {
  state = record { registry = start; config = config; hub = ready };
  replies = [];
  vectors = [];
  requests = [];
  tasks = [];
}

sync_paste-Admits_example :
    Admits toy formats headers
      (123 ∷ 125 ∷ [])
      (pos 5_000)
      (pos 5_001)
      "token"
      (replicate 16 1)
      server
      (sync_paste toy formats headers
        (123 ∷ 125 ∷ [])
        (pos 5_000)
        (pos 5_001)
        "token"
        (replicate 16 1)
        server)
sync_paste-Admits_example =
    sync_paste-Admits toy formats headers (123 ∷ 125 ∷ []) (pos 5_000) (pos 5_001) "token"
      (replicate 16 1) server
