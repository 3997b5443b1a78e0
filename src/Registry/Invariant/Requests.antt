-- ===== src/Registry/Invariant/Requests.antt =====
-- registry.rs: proxied requests keep the invariant.
use crosspaste_server.Prelude.{
  nat_Comparable, string_Comparable, ℕ, String, ◌≡◌, refl, subst, Bool, true, false, Option, none,
  some, arith, length, inl, inr, Bool-cases, Option-cases, leb,
}
use crosspaste_server.Prelude.Map.{lookup, length-insert-le}
use crosspaste_server.Prelude.Int.{ℤ}
use crosspaste_server.Config.{Config}
use crosspaste_server.Protocol.{TunnelFrame, http_response}
use crosspaste_server.Registry.State.{Registry, DeviceSession, get_device}
use crosspaste_server.Registry.Requests.{
  Outgoing, Call, Awaited, received, closed, elapsed, answer, complete_request, enqueue, dispatch,
  send_to, proxy_send, proxy_finish,
}
use crosspaste_server.Registry.Invariant.Shape.{
  Inv, SessionOk, drop_pending-Inv, get_device-Ok, put_session-Inv, respond-Inv, send-Inv,
}

enqueue-Ok :
    (cap : ℕ) (now : ℤ) (at : ℕ) (k : String) (s : DeviceSession)
    → SessionOk cap s
    → leb cap (length s.pending) ≡ false
    → SessionOk cap (enqueue now at k s)
unfolding enqueue
enqueue-Ok cap now at k s ok room = record {
  roomless = ok.roomless;
  inflight =
      grind (arith, length-insert-le k (record { responder = k; created_at = at }) s.pending);
}

module _ {c : Config} where
  pub answer-Inv :
      (oa : Option ℕ) (os : Option DeviceSession) (k : String) (frame : TunnelFrame) (r : Registry)
      → Inv c r
      → Inv c (answer oa os k frame r)
  unfolding answer
  answer-Inv none os k frame r v = v
  answer-Inv (some a) none k frame r v = v
  answer-Inv (some a) (some s) k frame r v = elim (Option-cases (lookup k s.pending)) [
    | inl e ↦ rw (e, answer) v
    | inr (p, e) ↦ rw (e, answer) (respond-Inv p.responder frame _ (drop_pending-Inv a k r v))
  ]

  pub complete_request-Inv :
      (id : String) (frame : TunnelFrame) (r : Registry)
      → Inv c r
      → Inv c (complete_request id frame r)
  unfolding complete_request
  complete_request-Inv id (http_response k status headers body e) r v =
      answer-Inv (lookup id r.devices) (get_device id r) k _ r v
  complete_request-Inv id _ r v = v

  pub dispatch-Inv :
      (a : ℕ) (target k : String) (sent : Bool × Registry)
      → Inv c sent.1
      → Inv c (dispatch a target k sent).1
  unfolding dispatch
  dispatch-Inv a target k (true, r) v = v
  dispatch-Inv a target k (false, r) v = drop_pending-Inv a k r v

  pub send_to-Inv :
      (oa : Option ℕ) (os : Option DeviceSession) (target : String) (o : Outgoing) (k : String)
      (now : ℤ) (at : ℕ) (r : Registry)
      → ((s : DeviceSession) → os ≡ some s → SessionOk c.max_inflight s)
      → Inv c r
      → Inv c (send_to oa os target o k now at r).1
  unfolding send_to
  send_to-Inv (some a) (some s) target o k now at r ok v =
      elim (Bool-cases (leb r.config.max_inflight (length s.pending))) [
        | inl full ↦ rw full v
        | inr room ↦ rw room (
            dispatch-Inv a target k _ (
              send-Inv s.frame_tx _ _ (
                put_session-Inv a _ r
                  (enqueue-Ok c.max_inflight now at k s (ok s refl) (
                    subst (λ (d : Config). leb d.max_inflight (length s.pending) ≡ false)
                      v.same_config room))
                  v)))
      ]
  send_to-Inv (some a) none target o k now at r ok v = v
  send_to-Inv none os target o k now at r ok v = v

  pub proxy_send-Inv :
      (target : String) (o : Outgoing) (k : String) (now : ℤ) (at : ℕ) (r : Registry)
      → Inv c r
      → Inv c (proxy_send target o k now at r).1
  unfolding proxy_send
  proxy_send-Inv target o k now at r v =
      send_to-Inv (lookup target r.devices) (get_device target r) target o k now at r
        (λ s. get_device-Ok target r s v) v

  pub proxy_finish-Inv :
      (call : Call) (a : Awaited) (r : Registry) → Inv c r → Inv c (proxy_finish call a r).1
  unfolding proxy_finish
  proxy_finish-Inv call (received frame) r v = v
  proxy_finish-Inv call closed r v = drop_pending-Inv call.session call.request_id r v
  proxy_finish-Inv call elapsed r v = drop_pending-Inv call.session call.request_id r v
