-- ===== src/Registry/Outcomes.antt =====
-- registry.rs: how a request in flight ends, for each of the calls that can end it.
use crosspaste_server.Prelude.{
  Bool-cases, Option, String, [], arith, err, inl, inr, nat_Comparable, none, ok, refl, some,
  string_Comparable, subst, ℕ, ◌==◌, ◌∷◌, ◌≡◌,
}
use crosspaste_server.Prelude.Int.{int_Comparable, ℤ}
use crosspaste_server.Prelude.Map.{
  Map, same_refl, lookup, lookup-insert, lookup-insert_self, lookup-without_self, without,
}
use crosspaste_server.Protocol.{TunnelFrame, http_response}
use crosspaste_server.Registry.Devices.{
  disconnect, disconnected_frame, fail_all, leave_own, unregister_device,
}
use crosspaste_server.Registry.Fields.{devices-fail_all}
use crosspaste_server.Registry.Lifecycle.{
  IsSent, completed-IsSent, get_device-IsSent, pending-IsSent, proxy_send-IsSent, replied-IsSent,
  stored-IsSent, tunnel-IsSent, waiting,
}
use crosspaste_server.Registry.Requests.{
  Call, Outgoing, answer, complete_request, drop_pending, elapsed, proxy_finish, proxy_send,
}
use crosspaste_server.Registry.Rooms.{leave_found, leave_room}
use crosspaste_server.Registry.State.{
  DeviceSession, PendingRequest, Registry, Room, get_device, put_session, respond,
}
use crosspaste_server.RelayError.{proxy_timeout}

fail_all-keeps :
    (j : String) (m : Map String PendingRequest) (r : Registry)
    → lookup j r.replies ≡ some disconnected_frame
    → lookup j (fail_all m r).replies ≡ some disconnected_frame
unfolding fail_all
fail_all-keeps j [] r h = h
fail_all-keeps j ((i, p) ∷ m) r h =
    fail_all-keeps j m _ (ground (arith, lookup-insert p.responder j disconnected_frame r.replies))

fail_all-answers :
    (k : String) (p : PendingRequest) (m : Map String PendingRequest) (r : Registry)
    → lookup k m ≡ some p
    → lookup p.responder (fail_all m r).replies ≡ some disconnected_frame
unfolding fail_all lookup
fail_all-answers k p [] r e = cc
fail_all-answers k p ((i, p') ∷ m) r e = elim (Bool-cases (i == k)) [
  | inl hit ↦
      let same : p' ≡ p = ground arith in
      rw (← same) (
        fail_all-keeps p'.responder m _
          (lookup-insert_self p'.responder disconnected_frame r.replies))
  | inr miss ↦ fail_all-answers k p m _ (ground arith)
]

replies-leave_own :
    (o : Option String) (id : String) (r : Registry) → (leave_own o id r).replies ≡ r.replies
unfolding leave_room
replies-leave_own none id r = refl
replies-leave_own (some code) id r = leave_found_replies (lookup code r.rooms)
  where
    leave_found_replies : (x : Option Room) → (leave_found x code id r).replies ≡ r.replies
    leave_found_replies none = unfold leave_found in refl
    leave_found_replies (some room) = unfold leave_found in ground arith

pub devices-leave_own :
    (o : Option String) (id : String) (r : Registry) → (leave_own o id r).devices ≡ r.devices
unfolding leave_room
devices-leave_own none id r = refl
devices-leave_own (some code) id r = leave_found_devices (lookup code r.rooms)
  where
    leave_found_devices : (x : Option Room) → (leave_found x code id r).devices ≡ r.devices
    leave_found_devices none = unfold leave_found in refl
    leave_found_devices (some room) = unfold leave_found in ground arith

module _ (target : String) (o : Outgoing) (k : String) (now : ℤ) (at : ℕ) (r q : Registry)
    (call : Call) (sent : proxy_send target o k now at r ≡ (ok call, q)) where
  pub flight : IsSent target o k now at r q call
  flight = proxy_send-IsSent target o k now at r q call sent

  -- If the call next after the send is a response of the device, it reaches the caller, and a second
  -- response to the same request right after it changes nothing.
  pub completes_once :
      (status status' : ℕ) (headers headers' : Map String String)
      (body body' failure failure' : Option String)
      → let f = http_response k status headers body failure in
        let q' = complete_request target f q in
        (lookup k q'.replies ≡ some f)
        × (complete_request target (http_response k status' headers' body' failure') q' ≡ q')
  completes_once status status' headers headers' body body' failure failure' = (
    replied-IsSent flight status headers body failure,
    rw (completed-IsSent flight status headers body failure) again,
  )
    where
      f : TunnelFrame
      f = http_response k status headers body failure

      rest : DeviceSession
      rest = record (waiting flight) { pending = without k (waiting flight).pending }

      q' : Registry
      q' = respond k f (put_session call.session rest q)

      at_tunnel : lookup target q'.devices ≡ some call.session
      at_tunnel = unfold respond put_session in tunnel-IsSent flight

      stored : lookup call.session q'.sessions ≡ some rest
      stored = unfold respond put_session in lookup-insert_self call.session rest q.sessions

      found : get_device target q' ≡ some rest
      found = unfold get_device in rw at_tunnel stored

      gone : lookup k rest.pending ≡ none
      gone = lookup-without_self k (waiting flight).pending

      again : complete_request target (http_response k status' headers' body' failure') q' ≡ q'
      again = unfold complete_request answer in rw (at_tunnel, found, answer) (rw (gone, answer))

  -- A device that leaves by its own session is offline, and the caller is told that it disconnected.
  pub disconnects :
      (s : DeviceSession)
      → get_device target q ≡ some s
      → let q' = unregister_device target s.session_id q in
        (lookup k q'.replies ≡ some disconnected_frame) × (get_device target q' ≡ none)
  disconnects own e =
      let same : waiting flight ≡ own = cc (get_device-IsSent flight, e) in
      subst
        (λ (x : DeviceSession).
          (lookup k (unregister_device target x.session_id q).replies ≡ some disconnected_frame)
          × (get_device target (unregister_device target x.session_id q) ≡ none))
        same (rw effect (replied, offline))
    where
      s : DeviceSession
      s = waiting flight

      gone : Registry
      gone = record q { devices = without target q.devices }

      failed : Registry
      failed = put_session call.session (record s { pending = [] }) (fail_all s.pending gone)

      effect : unregister_device target s.session_id q ≡ leave_own s.room_code target failed
      effect =
          unfold unregister_device in
          rw (get_device-IsSent flight, same_refl s.session_id)
            (rw (tunnel-IsSent flight) (unfold disconnect in refl))

      replied : lookup k (leave_own s.room_code target failed).replies ≡ some disconnected_frame
      replied =
          rw (replies-leave_own s.room_code target failed)
            (unfold put_session in fail_all-answers k _ s.pending gone (pending-IsSent flight))

      offline : get_device target (leave_own s.room_code target failed) ≡ none
      offline =
          unfold get_device put_session in
          rw (devices-leave_own s.room_code target failed)
            (rw (devices-fail_all s.pending gone) (rw (lookup-without_self target q.devices)))

  -- A caller whose time is up gets an error, and its request is no longer pending on the session.
  pub times_out :
      let (result, q') = proxy_finish call elapsed q in
      (result ≡ err proxy_timeout)
      × ((s : DeviceSession) → lookup call.session q'.sessions ≡ some s → lookup k s.pending ≡ none)
  times_out = (unfold proxy_finish in refl, λ s e. unfold proxy_finish in dropped s e)
    where
      rest : DeviceSession
      rest = record (waiting flight) { pending = without k (waiting flight).pending }

      effect : drop_pending call.session call.request_id q ≡ put_session call.session rest q
      effect = unfold drop_pending in rw (stored-IsSent flight, drop_pending) (rw (flight.names))

      dropped :
          (s : DeviceSession)
          → lookup call.session (drop_pending call.session call.request_id q).sessions ≡ some s
          → lookup k s.pending ≡ none
      dropped s e =
          let at_rest : lookup call.session (drop_pending call.session call.request_id q).sessions
              ≡ some rest =
            rw effect (unfold put_session in lookup-insert_self call.session rest q.sessions) in
          let same : rest ≡ s = cc in
          subst (λ (x : DeviceSession). lookup k x.pending ≡ none) same
            (lookup-without_self k (waiting flight).pending)
