-- ===== src/Auth/Sessions.antt =====
-- Sessions: what a token that Login returned is good for.
use rpi_network_filter.Common.{
  ℕ, ◌+◌, ◌≡◌, refl, sym, ap, ◌∙◌, inl, inr, ◌==◌, ==_iff, ltb, Bool, true, false, not, Bool-cases,
  Option-cases, Option, none, some, List, [], ◌∷◌, ◌++◌, Text, text_eq, text_eq_iff, text_eq_refl,
  ok, err, any, find, find-some, keep, In, Unique, arith, if◌then◌else◌,
}
use rpi_network_filter.Models.{User, Session}
use rpi_network_filter.Db.{
  Db, db, unique, exec_failed, invalid_credentials, invalid_session, session_expired,
}
use rpi_network_filter.Auth.{
  Bcrypt, session_length, validate_session, logout, generate_token, create_session, login,
}

module _ {A : Type 0} (p : A → Bool) where
  pub find-snoc :
      (xs : List A) (x : A) → any p xs ≡ false → p x ≡ true → find p (xs ++ x ∷ []) ≡ some x
  find-snoc [] x n h = rw h refl
  find-snoc (y ∷ ys) x n h =
      let other : p y ≡ false = ground arith in rw other (find-snoc ys x (ground arith) h)

  find-keep-not : (xs : List A) → find p (keep (λ x. not (p x)) xs) ≡ none
  find-keep-not [] = refl
  find-keep-not (x ∷ xs) = elim (Bool-cases (p x)) [
    | inl e ↦ rw e (find-keep-not xs)
    | inr e ↦ rw e (rw e (find-keep-not xs))
  ]

-- No two users have the same id.
abbrev pub same_user : User → User → Bool
same_user u v = u.id == v.id

absent :
    (u v : User) (us : List User) → any (same_user v) us ≡ false → In u us → (v.id == u.id) ≡ false
absent u v [] n m = absurd m
absent u v (w ∷ us) n (inl e) = let same = ap (λ x. x.id) e in ground arith
absent u v (w ∷ us) n (inr m) = absent u v us (ground arith) m

find-user :
    (u : User) (us : List User)
    → Unique same_user us
    → In u us
    → find (λ v. v.id == u.id) us ≡ some u
find-user u [] h m = absurd m
find-user u (v ∷ us) (n, h) (inl e) =
    let same : (v.id == u.id) ≡ true = (==_iff v.id u.id).1 (ap (λ x. x.id) e) in
    rw same (ap some e)
find-user u (v ∷ us) (n, h) (inr m) = rw (absent u v us n m) (find-user u us h m)

module _ (bcrypt : Bcrypt) where
  -- What Login did when it returned a token: it added the session of a user of the name whose hash
  -- accepts the password.
  abbrev pub IsLogin : Text → Text → Text → Db → Db → Type 0
  IsLogin username password token s s' =
      (u : User) × In u s.users
      × (text_eq u.username username ≡ true)
      × (bcrypt.compare u.password_hash password ≡ true)
      × (any (λ x. text_eq x.token token) s.sessions ≡ false)
      × (s' ≡ record s {
        sessions =
            s.sessions
            ++ record { token = token; user_id = u.id; expires_at = s.now + session_length } ∷ [];
      })

  create_session→ :
      (token token' : Text) (id : ℕ) (s : Db)
      → (create_session bcrypt token id s).0 ≡ ok token'
      → (any (λ x. text_eq x.token token') s.sessions ≡ false)
        × ((create_session bcrypt token id s).1 ≡ record s {
          sessions =
              s.sessions
              ++ record { token = token'; user_id = id; expires_at = s.now + session_length } ∷ [];
        })
  unfolding create_session
  create_session→ token token' id s h =
      elim (Bool-cases (any (λ x. text_eq x.token token) s.sessions)) [
        | inl e ↦ let bad : err (db unique) ≡ ok token' = (rw e at h) in cc bad
        | inr e ↦
            let same : ok token ≡ ok token' = (rw e at h) in
            let eq : token ≡ token' = cc same in rw (← eq) (e, rw e refl)
      ]

  pub login-create_session :
      (random : Option (List ℕ)) (username password token : Text) (s : Db) (u : User)
      → find (λ u. text_eq u.username username) s.users ≡ some u
      → bcrypt.compare u.password_hash password ≡ true
      → generate_token random ≡ some token
      → login bcrypt random username password s ≡ create_session bcrypt token u.id s
  unfolding login
  login-create_session random username password token s u e f g =
      rw (e, login) (rw f (rw (g, login) refl))

  login→ :
      (random : Option (List ℕ)) (username password token : Text) (s : Db)
      → (login bcrypt random username password s).0 ≡ ok token
      → IsLogin username password token s (login bcrypt random username password s).1
  unfolding login
  login→ random username password token s h =
      elim (Option-cases (find (λ u. text_eq u.username username) s.users)) [
        | inl e ↦ let bad : err invalid_credentials ≡ ok token = (rw (e, login) at h) in cc bad
        | inr (u, e) ↦ elim (Bool-cases (bcrypt.compare u.password_hash password)) [
          | inr f ↦
              let h' = rw (e, login) at h in
              let bad : err invalid_credentials ≡ ok token = (rw f at h') in cc bad
          | inl f ↦ elim (Option-cases (generate_token random)) [
            | inl g ↦
                let h' = rw (e, login) at h in
                let h'' = rw f at h' in
                let bad : err exec_failed ≡ ok token = (rw (g, login) at h'') in cc bad
            | inr (t, g) ↦
                let run = login-create_session random username password t s u e f g in
                let (fresh, added) = create_session→ t token u.id s (ap (λ r. r.0) (sym run) ∙ h) in
                let (named, m) = find-some (λ u. text_eq u.username username) s.users u e in
                (u, m, named, f, fresh, ap (λ r. r.1) run ∙ added)
          ]
        ]
      ]

-- A session that a lookup of its token finds, of a user that a lookup of its id finds.
validate_session-found :
    (token : Text) (x : Session) (u : User) (s : Db)
    → find (λ y. text_eq y.token token) s.sessions ≡ some x
    → find (λ v. v.id == x.user_id) s.users ≡ some u
    → (validate_session token s).0 ≡ (
        if ltb x.expires_at s.now
        then err session_expired
        else ok (record u { password_hash = []; created_at = 0 }))
unfolding validate_session
validate_session-found token x u s e f = elim (Bool-cases (ltb x.expires_at s.now)) [
  | inl g ↦ rw (e, validate_session) (rw (f, validate_session) (rw g refl))
  | inr g ↦ rw (e, validate_session) (rw (f, validate_session) (rw g refl))
]

-- When no two users have the same id, a token that Login returned is valid for the user who
-- logged in, whose name it was and whose hash accepts the password, for 24 hours and no longer,
-- while the users and sessions are as Login left them.
pub login-validate_session :
    (bcrypt : Bcrypt) (random : Option (List ℕ)) (username password token : Text) (s : Db) (now : ℕ)
    → Unique same_user s.users
    → (login bcrypt random username password s).0 ≡ ok token
    → (u : User) × In u s.users
      × (u.username ≡ username)
      × (bcrypt.compare u.password_hash password ≡ true)
      × ((validate_session token
            (record (login bcrypt random username password s).1 { now = now })).0
          ≡ (if ltb (s.now + session_length) now
              then err session_expired
              else ok (record u { password_hash = []; created_at = 0 })))
login-validate_session bcrypt random username password token s now users h =
    let (u, m, named, accepts, fresh, added) = login→ bcrypt random username password token s h in
    let x : Session = record {
      token = token;
      user_id = u.id;
      expires_at = s.now + session_length;
    } in
    (
      u,
      m,
      (text_eq_iff u.username username).0 named,
      accepts,
      rw added (
          validate_session-found token x u (record s { now = now; sessions = s.sessions ++ x ∷ [] })
            (find-snoc (λ y. text_eq y.token token) s.sessions x fresh (text_eq_refl token))
            (find-user u s.users users m)),
    )

-- Behind Logout the token is refused.
logout-validate_session :
    (token : Text) (s : Db) → (validate_session token (logout token s).1).0 ≡ err invalid_session
unfolding validate_session logout
logout-validate_session token s =
    rw (find-keep-not (λ x. text_eq x.token token) s.sessions, validate_session) refl
