-- ===== src/Prelude/Keeps.antt =====
-- Actions that keep a property of the state, whether they fail or not.
use crosspaste_server.Prelude.{
  Bool, Exec, Result, continue, ensure, err, false, gets, lift, ok, pure, true, ◌>>=◌, ◌>>◌,
}

pub record Keeps {S E A : Type 0} (P : S → Type 0) (m : Exec S E A) : Type 0 where
  pub keeps : (s : S) → P s → P (m s).1

module _ {S : Type 0} {P : S → Type 0} where
  pub bind-Keeps :
      {E A B : Type 0} {m : Exec S E A} {f : A → Exec S E B}
      → Keeps P m
      → ((a : A) → Keeps P (f a))
      → Keeps P (m >>= f)
  bind-Keeps {E = E} {A = A} {m = m} {f = f} h k = record { keeps = λ s p. go (m s) (h.keeps s p) }
    where
      go : (o : Result E A × S) → P o.1 → P (continue o.0 f o.1).1
      go (ok a, t) q = (k a).keeps t q
      go (err e, t) q = q

  pub then-Keeps :
      {E B : Type 0} {m : Exec S E Unit} {n : Exec S E B} → Keeps P m → Keeps P n → Keeps P (m >> n)
  then-Keeps h k = bind-Keeps h (λ u. k)

  pub lift-Keeps : {E A : Type 0} {r : Result E A} → Keeps P (lift r)
  lift-Keeps = record { keeps = λ s p. p }

  pub pure-Keeps : {E A : Type 0} {a : A} → Keeps P (pure {E = E} a)
  pure-Keeps = record { keeps = λ s p. p }

  pub ensure-Keeps : {E : Type 0} (b : Bool) (e : E) → Keeps P (ensure b e)
  ensure-Keeps true e = record { keeps = λ s p. p }
  ensure-Keeps false e = record { keeps = λ s p. p }

  pub gets-Keeps : {E A : Type 0} (f : S → A) → Keeps P (gets {E = E} f)
  gets-Keeps f = record { keeps = λ s p. p }
