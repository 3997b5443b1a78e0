-- ===== src/Registry/Lifecycle.antt =====
-- registry.rs: what becomes of a proxied request: its response, its timeout, a device that leaves.
use crosspaste_server.Prelude.{
  Bool, Bool-cases, Option, String, ap, arith, false, inl, inr, leb, length, nat_Comparable, none,
  ok, refl, some, string_Comparable, subst, sym, true, ℕ, ◌<◌, ◌∙◌, ◌≡◌,
}
use crosspaste_server.Prelude.Int.{int_Comparable, ℤ}
use crosspaste_server.Prelude.Map.{Map, insert, lookup, lookup-insert_self, without}
use crosspaste_server.Protocol.{http_response}
use crosspaste_server.Registry.Fields.{devices-send, sessions-send}
use crosspaste_server.Registry.Requests.{
  Call, Outgoing, answer, complete_request, dispatch, drop_pending, enqueue, proxy_send,
  request_frame, send_to,
}
use crosspaste_server.Registry.State.{
  DeviceSession, Registry, get_device, put_session, respond, send, session_at, touch,
}
use crosspaste_server.RelayError.{RelayResult}

-- What a request that went out has done to the registry.
pub record IsSent (target : String) (o : Outgoing) (k : String) (now : ℤ) (at : ℕ) (r q : Registry)
    (call : Call) : Type 0 where
  pub session : DeviceSession
  pub tunnel : lookup target r.devices ≡ some call.session
  pub stored : lookup call.session r.sessions ≡ some session
  pub room : length session.pending < r.config.max_inflight
  pub names : call.request_id ≡ k
  pub after :
      q
      ≡ (send session.frame_tx
          (request_frame k o)
          (put_session call.session (enqueue now at k session) r)).1

dispatch-IsSent :
    (target : String) (o : Outgoing) (k : String) (now : ℤ) (at a : ℕ) (s : DeviceSession)
    (r q : Registry) (call : Call) (sent : Bool × Registry)
    → lookup target r.devices ≡ some a
    → lookup a r.sessions ≡ some s
    → length s.pending < r.config.max_inflight
    → sent ≡ send s.frame_tx (request_frame k o) (put_session a (enqueue now at k s) r)
    → dispatch a target k sent ≡ (ok call, q)
    → IsSent target o k now at r q call
unfolding dispatch
dispatch-IsSent target o k now at a s r q call (true, q') d e room sent h =
    let same : record { session = a; request_id = k } ≡ call = cc in
    subst (IsSent target o k now at r q) same (record {
      session = s;
      tunnel = d;
      stored = e;
      room = room;
      names = refl;
      after =
          sym (ap (λ (p : RelayResult Call × Registry). p.1) h)
          ∙ ap (λ (p : Bool × Registry). p.1) sent;
    })
dispatch-IsSent target o k now at a s r q call (false, q') d e room sent h = cc

send_to-IsSent :
    (oa : Option ℕ) (os : Option DeviceSession) (target : String) (o : Outgoing) (k : String)
    (now : ℤ) (at : ℕ) (r q : Registry) (call : Call)
    → lookup target r.devices ≡ oa
    → session_at r oa ≡ os
    → send_to oa os target o k now at r ≡ (ok call, q)
    → IsSent target o k now at r q call
unfolding send_to
send_to-IsSent (some a) (some s) target o k now at r q call d e h =
    elim (Bool-cases (leb r.config.max_inflight (length s.pending))) [
      | inl full ↦ absurd (ground arith)
      | inr room ↦
          dispatch-IsSent target o k now at a s r q call _ d e (ground arith) refl (rw room at h)
    ]
send_to-IsSent (some a) none target o k now at r q call d e h = cc
send_to-IsSent none os target o k now at r q call d e h = cc

pub proxy_send-IsSent :
    (target : String) (o : Outgoing) (k : String) (now : ℤ) (at : ℕ) (r q : Registry) (call : Call)
    → proxy_send target o k now at r ≡ (ok call, q)
    → IsSent target o k now at r q call
unfolding proxy_send get_device
proxy_send-IsSent target o k now at r q call =
    send_to-IsSent (lookup target r.devices) _ target o k now at r q call refl refl

module _ {target : String} {o : Outgoing} {k : String} {now : ℤ} {at : ℕ} {r q : Registry}
    {call : Call} (w : IsSent target o k now at r q call) where
  abbrev pub waiting : DeviceSession
  waiting = enqueue now at k w.session

  pub devices-IsSent : q.devices ≡ r.devices
  unfolding put_session
  devices-IsSent = rw w.after (devices-send w.session.frame_tx _ _)

  pub sessions-IsSent : q.sessions ≡ insert call.session waiting r.sessions
  unfolding put_session
  sessions-IsSent = rw w.after (sessions-send w.session.frame_tx _ _)

  pub tunnel-IsSent : lookup target q.devices ≡ some call.session
  tunnel-IsSent = rw devices-IsSent w.tunnel

  pub stored-IsSent : lookup call.session q.sessions ≡ some waiting
  stored-IsSent = rw sessions-IsSent (lookup-insert_self call.session waiting r.sessions)

  pub get_device-IsSent : get_device target q ≡ some waiting
  unfolding get_device
  get_device-IsSent = rw tunnel-IsSent stored-IsSent

  pub pending-IsSent : lookup k waiting.pending ≡ some (record { responder = k; created_at = at })
  unfolding enqueue touch
  pending-IsSent = lookup-insert_self k _ w.session.pending

  -- What the device's response leaves.
  pub completed-IsSent :
      (status : ℕ) (headers : Map String String) (body failure : Option String)
      → let f = http_response k status headers body failure in
        complete_request target f q
        ≡ respond k f
            (put_session call.session (record waiting { pending = without k waiting.pending }) q)
  unfolding complete_request answer drop_pending
  completed-IsSent status headers body failure =
      rw (tunnel-IsSent, get_device-IsSent, answer)
        (rw (pending-IsSent, stored-IsSent, drop_pending))

  pub replied-IsSent :
      (status : ℕ) (headers : Map String String) (body failure : Option String)
      → let f = http_response k status headers body failure in
        lookup k (complete_request target f q).replies ≡ some f
  unfolding respond put_session
  replied-IsSent status headers body failure =
      rw (completed-IsSent status headers body failure) (lookup-insert_self k _ q.replies)
