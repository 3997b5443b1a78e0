-- ===== src/Database/Sessions.antt =====
-- database.rs: which sessions are good.
use crosspaste_server.Database.Admins.{
  AdminUser, delete_user_sessions, joined, session_user, update_password,
}
use crosspaste_server.Database.Tables.{AdminRow, Database, SessionRow, execute, query}
use crosspaste_server.Prelude.{
  Bool, Bool-cases, Comparable, In, List, Option, Result, String, [], arith, false, inl, inr,
  keep_if, nat_Comparable, none, not, ok, pair_Comparable, refl, some, string_Comparable, subst,
  true, ◌==◌, ◌∙◌, ◌∷◌, ◌≡◌, ◌≢◌,
}
use crosspaste_server.Prelude.Int.{int_Comparable, leb_ℤ, ℤ}
use crosspaste_server.Prelude.Map.{Map, Values, Values-keep_if, Values-lookup, lookup}
use crosspaste_server.Prelude.Text.{codes_Comparable}

lookup-keep_if {ℓ κ} :
    {K : Type ℓ} {V : Type κ} ⦃e : Comparable K⦄ (p : K × V → Bool) (k : K) (m : Map K V) (v : V)
    → lookup k (keep_if p m) ≡ some v
    → p (k, v) ≡ true
unfolding lookup
lookup-keep_if p k [] v h = cc
lookup-keep_if ⦃e = e⦄ p k ((j, w) ∷ m) v h = elim (Bool-cases (p (j, w))) [
  | inr miss ↦ lookup-keep_if p k m v (rw miss at h)
  | inl hit ↦ elim (Bool-cases (j == k)) [
    | inl same ↦ ground (arith, rw (hit, same) at h, hit, (e.same_iff j k).0 same)
    | inr other ↦ lookup-keep_if p k m v (rw (hit, other) at h)
  ]
]

-- What is found is in the map.
In-lookup :
    {K V : Type 0} ⦃e : Comparable K⦄ (k : K) (m : Map K V) (v : V)
    → lookup k m ≡ some v
    → In (k, v) m
unfolding lookup
In-lookup k [] v h = cc
In-lookup ⦃e = e⦄ k ((j, w) ∷ m) v h = elim (Bool-cases (j == k)) [
  | inl same ↦
      let found : some w ≡ some v = rw same at h in inl (cc ((e.same_iff j k).0 same, found))
  | inr other ↦ inr (In-lookup k m v (rw other at h))
]

In-keep_if : {A : Type 0} (p : A → Bool) (x : A) (xs : List A) → In x (keep_if p xs) → In x xs
In-keep_if p x [] h = h
In-keep_if p x (y ∷ xs) h = elim (Bool-cases (p y)) [
  | inl hit ↦ elim (rw hit at h) [ inl e ↦ inl e | inr i ↦ inr (In-keep_if p x xs i) ]
  | inr miss ↦ inr (In-keep_if p x xs (rw miss at h))
]

joined-some :
    (o : Option SessionRow) (now : ℤ) (users : Map String AdminRow) (user : AdminUser)
    → joined o now users ≡ some user
    → (s : SessionRow) × (o ≡ some s)
      × (s.session_username ≡ user.username)
      × (leb_ℤ now s.session_expires_at_ms ≡ true)
      × ((row : AdminRow) × (lookup user.username users ≡ some row))
unfolding joined
joined-some none now users user h = cc
joined-some (some s) now users user h =
    (s, refl, named, ground (arith, h), go (lookup s.session_username users) refl)
  where
    named : s.session_username ≡ user.username
    named = ground (arith, h)

    go :
        (o : Option AdminRow)
        → lookup s.session_username users ≡ o
        → (row : AdminRow) × (lookup user.username users ≡ some row)
    go (some row) e = (row, rw (← named) e)
    go none e = absurd (ground (arith, e, h))

-- If a session answers with a user, then a row of the table has its token, that user, and an end that
-- neither of the times that are read has passed, and the user has a row of its own.
pub session_user-lasts :
    (token : String) (swept now : ℤ) (d : Database) (user : AdminUser)
    → (session_user token swept now d).0 ≡ ok (some user)
    → (s : SessionRow) × In (token, s) d.admin_sessions
      × (s.session_username ≡ user.username)
      × (leb_ℤ swept s.session_expires_at_ms ≡ true)
      × (leb_ℤ now s.session_expires_at_ms ≡ true)
      × ((row : AdminRow) × (lookup user.username d.admin_users ≡ some row))
session_user-lasts token swept now d user h =
    let (s, found, named, lasts, row) = joined-some _ now d.admin_users user there in
    (
      s,
      In-keep_if (λ (t, s). leb_ℤ swept s.session_expires_at_ms) (token, s) d.admin_sessions
          (In-lookup token _ s found),
      named,
      lookup-keep_if (λ (t, s). leb_ℤ swept s.session_expires_at_ms) token d.admin_sessions s found,
      lasts,
      row,
    )
  where
    there :
        joined
          (lookup token (keep_if (λ (t, s). leb_ℤ swept s.session_expires_at_ms) d.admin_sessions))
          now
          d.admin_users
        ≡ some user
    there = unfold session_user execute query in ground (arith, h)

abbrev IsOther : String → SessionRow → Type 0
IsOther username s = (s.session_username == username) ≡ false

others_only :
    (username : String) (m : Map String SessionRow)
    → Values (IsOther username) (keep_if (λ (token, s). not (s.session_username == username)) m)
others_only username [] = tt
others_only username ((token, s) ∷ m) = elim (Bool-cases (s.session_username == username)) [
  | inl hit ↦ rw hit (others_only username m)
  | inr miss ↦ rw miss (miss, others_only username m)
]

cleared :
    (username : String) (hashed : Result String String) (now : ℤ) (d q : Database)
    → update_password username hashed now d ≡ (ok tt, q)
    → Values (IsOther username) q.admin_sessions
cleared username hashed now d q e =
    subst (Values (IsOther username)) same (others_only username d.admin_sessions)
  where
    same :
        keep_if (λ (token, s). not (s.session_username == username)) d.admin_sessions
        ≡ q.admin_sessions
    same = unfold update_password execute delete_user_sessions in ground (arith, e)

-- After the password of a user was changed, no session of before answers with that user, whatever
-- its token.
pub session_user-update_password :
    (username : String) (hashed : Result String String) (changed_at : ℤ) (d q : Database)
    (token : String) (swept now : ℤ) (user : AdminUser)
    → update_password username hashed changed_at d ≡ (ok tt, q)
    → (session_user token swept now q).0 ≡ ok (some user)
    → user.username ≢ username
session_user-update_password username hashed changed_at d q token swept now user e h same =
    let (s, found, named, lasts, row) = joined-some _ now q.admin_users user there in
    let other : (s.session_username == username) ≡ false =
      Values-lookup (IsOther username) token _ s
        (Values-keep_if (IsOther username) (λ (t, s). leb_ℤ swept s.session_expires_at_ms)
          q.admin_sessions (cleared username hashed changed_at d q e))
        found in
    cc (other, (string_Comparable.same_iff s.session_username username).1 (named ∙ same))
  where
    there :
        joined
          (lookup token (keep_if (λ (t, s). leb_ℤ swept s.session_expires_at_ms) q.admin_sessions))
          now
          q.admin_users
        ≡ some user
    there = unfold session_user execute query in ground (arith, h)
