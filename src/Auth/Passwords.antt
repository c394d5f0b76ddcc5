-- ===== src/Auth/Passwords.antt =====
-- A user whose password was set logs in with it.
use rpi_network_filter.Common.{
  ℕ, ◌+◌, ◌≡◌, refl, ap, ◌∙◌, inl, inr, Bool, true, false, Bool-cases, Option-cases, Option, some,
  List, [], ◌∷◌, Text, text_eq, text_eq_refl, ok, err, any, find, find-none, update_where,
}
use rpi_network_filter.Models.{User}
use rpi_network_filter.Db.{Db, db, unique, exec_failed, user_not_found}
use rpi_network_filter.Auth.{
  Bcrypt, BcryptLaws, create_user, reset_password, generate_token, create_session, login,
}
use rpi_network_filter.Auth.Sessions.{find-snoc, login-create_session}

-- An update that leaves a test as it is updates what a lookup with that test finds.
find-update_where :
    {A : Type 0} (p : A → Bool) (f : A → A) (xs : List A) (x : A)
    → ((y : A) → p (f y) ≡ p y)
    → find p xs ≡ some x
    → find p (update_where p f xs) ≡ some (f x)
find-update_where p f [] x k h = cc
find-update_where p f (y ∷ ys) x k h = elim (Bool-cases (p y)) [
  | inl e ↦
      let same : some y ≡ some x = (rw e at h) in
      let eq : y ≡ x = cc same in rw e (rw (k y ∙ e) (ap (λ z. some (f z)) eq))
  | inr e ↦ rw e (rw e (find-update_where p f ys x k (rw e at h)))
]

module _ (bcrypt : Bcrypt) (username password : Text) where
  abbrev named : User → Bool
  named v = text_eq v.username username

  -- The user whom a login with the name finds has a hash that accepts the password.
  abbrev pub IsAccepted : Db → Type 0
  IsAccepted s =
      (u : User) × (find named s.users ≡ some u) × (bcrypt.compare u.password_hash password ≡ true)

  pub create_user-IsAccepted :
      BcryptLaws bcrypt
      → (salt : ℕ) (s : Db) → (create_user bcrypt salt username password s).0 ≡ ok tt
      → IsAccepted (create_user bcrypt salt username password s).1
  unfolding create_user
  create_user-IsAccepted laws salt s h = elim (Option-cases (bcrypt.generate salt password)) [
    | inl e ↦ let bad : err exec_failed ≡ ok tt = (rw (e, create_user) at h) in cc bad
    | inr (hash, e) ↦ elim (Bool-cases (any named s.users)) [
      | inl f ↦
          let h' = rw (e, create_user) at h in
          let bad : err (db unique) ≡ ok tt = (rw f at h') in cc bad
      | inr f ↦
          let u : User = record {
            id = s.users_seq + 1;
            username = username;
            password_hash = hash;
            created_at = s.now;
          } in
          let found = find-snoc named s.users u f (text_eq_refl username) in
          rw (e, create_user) (rw f (u, found, laws.compare-generate salt password hash e))
    ]
  ]

  pub reset_password-IsAccepted :
      BcryptLaws bcrypt
      → (salt : ℕ) (s : Db) → (reset_password bcrypt salt username password s).0 ≡ ok tt
      → IsAccepted (reset_password bcrypt salt username password s).1
  unfolding reset_password
  reset_password-IsAccepted laws salt s h = elim (Option-cases (bcrypt.generate salt password)) [
    | inl e ↦ let bad : err exec_failed ≡ ok tt = (rw (e, reset_password) at h) in cc bad
    | inr (hash, e) ↦ elim (Bool-cases (any named s.users)) [
      | inr f ↦
          let h' = rw (e, reset_password) at h in
          let bad : err user_not_found ≡ ok tt = (rw f at h') in cc bad
      | inl f ↦ elim (Option-cases (find named s.users)) [
        | inl g ↦ let bad = find-none named s.users g in cc (f, bad)
        | inr (u, g) ↦
            let found =
              find-update_where named (λ v. record v { password_hash = hash }) s.users u (λ v. refl)
                g in
            rw (e, reset_password)
              (rw f (
                record u { password_hash = hash },
                found,
                laws.compare-generate salt password hash e,
              ))
      ]
    ]
  ]

  -- The login of an accepted password, when the token that is drawn is new.
  pub login-IsAccepted :
      (random : Option (List ℕ)) (token : Text) (s : Db)
      → IsAccepted s
      → generate_token random ≡ some token
      → any (λ x. text_eq x.token token) s.sessions ≡ false
      → (login bcrypt random username password s).0 ≡ ok token
  unfolding create_session
  login-IsAccepted random token s (u, found, accepts) drawn fresh =
      ap (λ r. r.0)
        (login-create_session bcrypt random username password token s u found accepts drawn)
      ∙ rw fresh refl
