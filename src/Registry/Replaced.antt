-- ===== src/Registry/Replaced.antt =====
-- registry.rs: a device that connects again under the same name.
use crosspaste_server.Prelude.{
  Option, String, ap, arith, nat_Comparable, none, ok, refl, some, string_Comparable, subst, ℕ, ◌∙◌,
  ◌≡◌, ◌≢◌,
}
use crosspaste_server.Prelude.Int.{int_Comparable, ℤ}
use crosspaste_server.Prelude.Map.{
  Map, same_ne, insert, lookup, lookup-insert_ne, lookup-insert_self,
}
use crosspaste_server.Protocol.{http_response}
use crosspaste_server.Registry.Devices.{
  Registration, evict_old, register_device, replaced_frame, session_of, unregister_device,
}
use crosspaste_server.Registry.Events.{proxies, step}
use crosspaste_server.Registry.Fields.{next_session-send, sessions-send}
use crosspaste_server.Registry.Lifecycle.{
  IsSent, get_device-IsSent, pending-IsSent, proxy_send-IsSent, stored-IsSent, waiting,
}
use crosspaste_server.Registry.Linked.Steps.{step-Linked}
use crosspaste_server.Registry.Linked.Writes.{Linked, taken-below}
use crosspaste_server.Registry.Requests.{Call, Outgoing, answer, complete_request, proxy_send}
use crosspaste_server.Registry.State.{DeviceSession, Registry, get_device}
use crosspaste_server.RelayError.{RelayResult}

sessions-evict_old :
    (os : Option DeviceSession) (id : String) (r : Registry)
    → (evict_old os id r).sessions ≡ r.sessions
unfolding evict_old
sessions-evict_old none id r = refl
sessions-evict_old (some old) id r = sessions-send old.frame_tx replaced_frame _

next_session-evict_old :
    (os : Option DeviceSession) (id : String) (r : Registry)
    → (evict_old os id r).next_session ≡ r.next_session
unfolding evict_old
next_session-evict_old none id r = refl
next_session-evict_old (some old) id r = next_session-send old.frame_tx replaced_frame _

module _ (g : Registration) (sid : String) (now : ℤ) (r : Registry) where
  abbrev fresh_session : DeviceSession
  fresh_session = (register_device g sid now r).0

  sessions-register_device :
      (register_device g sid now r).1.sessions ≡ insert r.next_session fresh_session r.sessions
  unfolding register_device
  sessions-register_device = rw (
    sessions-evict_old (get_device g.app_instance_id r) g.app_instance_id r,
    next_session-evict_old (get_device g.app_instance_id r) g.app_instance_id r,
  )

  tunnel-register_device :
      lookup g.app_instance_id (register_device g sid now r).1.devices ≡ some r.next_session
  unfolding register_device
  tunnel-register_device =
      rw (next_session-evict_old (get_device g.app_instance_id r) g.app_instance_id r)
        (lookup-insert_self g.app_instance_id r.next_session _)

  pub get_device-register_device :
      get_device g.app_instance_id (register_device g sid now r).1 ≡ some fresh_session
  unfolding get_device
  get_device-register_device =
      rw (tunnel-register_device, sessions-register_device)
        (lookup-insert_self r.next_session fresh_session r.sessions)

  -- A new session has no pending request, so no response that comes over it finds its caller.
  deaf :
      (k : String) (status : ℕ) (headers : Map String String) (body failure : Option String)
      → let q = (register_device g sid now r).1 in
        complete_request g.app_instance_id (http_response k status headers body failure) q ≡ q
  unfolding complete_request answer
  deaf k status headers body failure =
      rw (tunnel-register_device, get_device-register_device, answer)
        (unfold register_device session_of lookup in refl)

  not_own :
      (old : String)
      → sid ≢ old
      → let q = (register_device g sid now r).1 in unregister_device g.app_instance_id old q ≡ q
  unfolding unregister_device
  not_own old h =
      rw get_device-register_device (unfold register_device session_of in rw (same_ne sid old h))

-- When a device connects again, under a new session, while a request waits on its old one, the request
-- stays pending on the old session. If the next call is a response over the new tunnel with the
-- identifier of the request, or the end of the old tunnel, which names the old session, then it
-- changes nothing.
pub replaced_keeps_waiting :
    (g : Registration) (o : Outgoing) (k : String) (now : ℤ) (at : ℕ) (r q : Registry) (call : Call)
    (old : DeviceSession) (sid : String) (later : ℤ) (status : ℕ) (headers : Map String String)
    (body failure : Option String)
    → Linked r
    → proxy_send g.app_instance_id o k now at r ≡ (ok call, q)
    → get_device g.app_instance_id q ≡ some old
    → sid ≢ old.session_id
    → let q' = (register_device g sid later q).1 in
      (lookup call.session q'.sessions ≡ some old)
      × (lookup k old.pending ≡ some (record { responder = k; created_at = at }))
      × (complete_request g.app_instance_id (http_response k status headers body failure) q' ≡ q')
      × (unregister_device g.app_instance_id old.session_id q' ≡ q')
replaced_keeps_waiting g o k now at r q call old sid later status headers body failure v sent e h =
    (
      still ∙ ap some same,
      subst
          (λ (x : DeviceSession).
            lookup k x.pending ≡ some (record { responder = k; created_at = at }))
          same (pending-IsSent w),
      deaf g sid later q k status headers body failure,
      not_own g sid later q _ h,
    )
  where
    w : IsSent g.app_instance_id o k now at r q call
    w = proxy_send-IsSent g.app_instance_id o k now at r q call sent

    same : waiting w ≡ old
    same = cc (get_device-IsSent w, e)

    linked : Linked q
    linked =
        unfold step in
        subst Linked (ap (λ (p : RelayResult Call × Registry). p.1) sent)
          (step-Linked r (proxies g.app_instance_id o k now at) v)

    still : lookup call.session (register_device g sid later q).1.sessions ≡ some (waiting w)
    still = rw (sessions-register_device g sid later q) (
        lookup-insert_ne q.next_session call.session _ q.sessions (λ e.
          absurd
            (omega (arith, taken-below q call.session (waiting w) linked (stored-IsSent w), e)))
        ∙ stored-IsSent w)
