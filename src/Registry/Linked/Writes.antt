-- ===== src/Registry/Linked/Writes.antt =====
-- registry.rs: the store and the map agree, and the writes that keep it so. Each device of the map has a session of its own name, and
-- no address at or above the next one is taken.
use crosspaste_server.Config.{Config}
use crosspaste_server.Prelude.{
  Bool-cases, Option-cases, String, arith, eqb_iff, inl, inr, nat_Comparable, none, refl, some,
  string_Comparable, ℕ, ◌<◌, ◌==◌, ◌≡◌, ◌≤◌,
}
use crosspaste_server.Prelude.Int.{int_Comparable}
use crosspaste_server.Prelude.Map.{lookup, lookup-insert, lookup-without, without}
use crosspaste_server.Registry.Requests.{drop_pending}
use crosspaste_server.Registry.State.{DeviceSession, Registry, new, put_session}

pub record Linked (r : Registry) : Type 0 where
  pub own :
      (id : String) (a : ℕ)
      → lookup id r.devices ≡ some a
      → (s : DeviceSession) × (lookup a r.sessions ≡ some s) × (s.app_instance_id ≡ id)
  pub fresh : (a : ℕ) → r.next_session ≤ a → lookup a r.sessions ≡ none

pub new-Linked : (c : Config) → Linked (new c)
unfolding new lookup
new-Linked c = record { own = λ id a e. cc; fresh = λ a h. refl }

-- Two registries with the same devices and sessions.
pub same-Linked :
    (r q : Registry)
    → q.devices ≡ r.devices
    → q.sessions ≡ r.sessions
    → q.next_session ≡ r.next_session
    → Linked r
    → Linked q
same-Linked r q d s n v = record { own = rw (d, s) v.own; fresh = rw (s, n) v.fresh }

pub taken-below :
    (r : Registry) (a : ℕ) (s : DeviceSession)
    → Linked r
    → lookup a r.sessions ≡ some s
    → a < r.next_session
taken-below r a s v e = ground (arith, v.fresh a)

-- A write over a session of the same name.
pub put_session-Linked :
    (a : ℕ) (s s' : DeviceSession) (r : Registry)
    → lookup a r.sessions ≡ some s
    → s'.app_instance_id ≡ s.app_instance_id
    → Linked r
    → Linked (put_session a s' r)
unfolding put_session
put_session-Linked a s s' r e same v = record {
  own = λ id b f.
      let (t, g, n) = v.own id b f in
      elim (Bool-cases (a == b)) [
        | inl hit ↦ (s', rw (lookup-insert a b s' r.sessions, hit), ground (arith, eqb_iff a b))
        | inr miss ↦ (t, rw (lookup-insert a b s' r.sessions, miss) g, n)
      ];
  fresh = λ b h.
      rw (lookup-insert a b s' r.sessions) (ground (arith, v.fresh b h, taken-below r a s v e));
}

pub without-Linked :
    (id : String) (r : Registry) → Linked r → Linked (record r { devices = without id r.devices })
without-Linked id r v = record {
  own = λ j a e. v.own j a (ground (arith, lookup-without id j r.devices));
  fresh = v.fresh;
}

pub drop_pending-Linked :
    (a : ℕ) (k : String) (r : Registry) → Linked r → Linked (drop_pending a k r)
unfolding drop_pending
drop_pending-Linked a k r v = elim (Option-cases (lookup a r.sessions)) [
  | inl e ↦ rw (e, drop_pending) v
  | inr (s, e) ↦ rw (e, drop_pending) (put_session-Linked a s _ r e refl v)
]
