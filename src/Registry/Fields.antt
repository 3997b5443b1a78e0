-- ===== src/Registry/Fields.antt =====
-- registry.rs: what the parts of an operation leave alone. The ruleset lets proofs keep them shut.
use crosspaste_server.Prelude.{
  nat_Comparable, string_Comparable, ℕ, String, ◌≡◌, refl, [], ◌∷◌, arith,
}
use crosspaste_server.Prelude.Map.{Map}
use crosspaste_server.Protocol.{TunnelFrame}
use crosspaste_server.Registry.State.{Registry, PendingRequest, send}
use crosspaste_server.Registry.Devices.{fail_all}

module _ (tx : ℕ) (frame : TunnelFrame) (r : Registry) where
  pub config-send : (send tx frame r).1.config ≡ r.config
  unfolding send
  config-send = ground arith

  pub devices-send : (send tx frame r).1.devices ≡ r.devices
  unfolding send
  devices-send = ground arith

  pub rooms-send : (send tx frame r).1.rooms ≡ r.rooms
  unfolding send
  rooms-send = ground arith

  pub sessions-send : (send tx frame r).1.sessions ≡ r.sessions
  unfolding send
  sessions-send = ground arith

  pub next_session-send : (send tx frame r).1.next_session ≡ r.next_session
  unfolding send
  next_session-send = ground arith

  pub replies-send : (send tx frame r).1.replies ≡ r.replies
  unfolding send
  replies-send = ground arith

pub config-fail_all :
    (m : Map String PendingRequest) (r : Registry) → (fail_all m r).config ≡ r.config
unfolding fail_all
config-fail_all [] r = refl
config-fail_all ((k, p) ∷ m) r = config-fail_all m _

pub devices-fail_all :
    (m : Map String PendingRequest) (r : Registry) → (fail_all m r).devices ≡ r.devices
unfolding fail_all
devices-fail_all [] r = refl
devices-fail_all ((k, p) ∷ m) r = devices-fail_all m _

pub rooms-fail_all : (m : Map String PendingRequest) (r : Registry) → (fail_all m r).rooms ≡ r.rooms
unfolding fail_all
rooms-fail_all [] r = refl
rooms-fail_all ((k, p) ∷ m) r = rooms-fail_all m _

pub sessions-fail_all :
    (m : Map String PendingRequest) (r : Registry) → (fail_all m r).sessions ≡ r.sessions
unfolding fail_all
sessions-fail_all [] r = refl
sessions-fail_all ((k, p) ∷ m) r = sessions-fail_all m _

pub next_session-fail_all :
    (m : Map String PendingRequest) (r : Registry) → (fail_all m r).next_session ≡ r.next_session
unfolding fail_all
next_session-fail_all [] r = refl
next_session-fail_all ((k, p) ∷ m) r = next_session-fail_all m _

pub channels-fail_all :
    (m : Map String PendingRequest) (r : Registry) → (fail_all m r).channels ≡ r.channels
unfolding fail_all
channels-fail_all [] r = refl
channels-fail_all ((k, p) ∷ m) r = channels-fail_all m _

pub ruleset field_laws = (
  config-send, devices-send, rooms-send, sessions-send, next_session-send, replies-send,
  config-fail_all, devices-fail_all, rooms-fail_all, sessions-fail_all, next_session-fail_all,
  channels-fail_all,
)
